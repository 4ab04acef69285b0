-- ===== src/Neighbour.antt =====
-- neighbour.c and neighbour.h: the neighbours, how well each is heard, and the cost of the link.
pub mod Cost
pub mod Hello
pub mod Check
use rabeld.Prelude.{
  ℕ, zero, suc, Bool, List, [], ◌∷◌, ◌++◌, ◌&&◌, Option, some, none, ◌==◌, if◌then◌else◌,
}
use rabeld.Prelude.Int.{ℤ, negsuc}
use rabeld.Util.Timeval.{Timeval, zero_time}
use rabeld.Util.Prefix.{v6_equal}
use rabeld.Source.{infinity}

-- `handle` stands for the place of the structure in memory and `ifp` for the pointer to its
-- interface; `hello_seqno` is -1 when unknown.
pub record Neighbour : Type 0 where
  pub handle : ℕ
  pub address : List ℕ
  pub hello_seqno : ℤ
  pub reach : ℕ
  pub txcost : ℕ
  pub hello_time : Timeval
  pub ihu_time : Timeval
  pub ifp : ℕ
  pub hello_interval : ℕ
  pub ihu_interval : ℕ
  pub hello_send_us : ℕ
  pub rtt : ℕ
  pub hello_rtt_receive_time : Timeval
  pub rtt_time : Timeval

-- The calls of other parts that the functions make, in order. The first argument is the interface
-- or the neighbour.
pub data Event : Type 0 where
  send_hello send_self_update : ℕ → Event
  send_unicast_request send_ihu : ℕ → Event
  flush_neighbour_routes flush_resends : ℕ → Event
  flush_unicast : Event
  notify_add notify_flush : ℕ → Event
  update_neighbour_metric : ℕ → Bool → Event

unfoldable pub find_neighbour_nocreate : List ℕ → ℕ → List Neighbour → Option Neighbour
find_neighbour_nocreate address ifp [] = none
find_neighbour_nocreate address ifp (neigh ∷ rest) =
    if v6_equal address neigh.address && neigh.ifp == ifp
    then some neigh
    else find_neighbour_nocreate address ifp rest

-- What calloc and the assignments after it give; `hello_seqno = -1`.
unfoldable pub new_neighbour : ℕ → List ℕ → ℕ → Timeval → Neighbour
new_neighbour handle address ifp now = record {
  handle = handle;
  address = address;
  hello_seqno = negsuc 0;
  reach = 0;
  txcost = infinity;
  hello_time = zero_time;
  ihu_time = now;
  ifp = ifp;
  hello_interval = 0;
  ihu_interval = 0;
  hello_send_us = 0;
  rtt = 0;
  hello_rtt_receive_time = zero_time;
  rtt_time = zero_time;
}

-- `calloc` is the place that calloc returns, `none` if there is no memory. The results are the
-- list, the neighbour (`none` for NULL) and the calls made.
unfoldable pub find_neighbour :
    Option ℕ
    → Timeval
    → List ℕ
    → ℕ
    → List Neighbour
    → List Neighbour × Option Neighbour × List Event
find_neighbour calloc now address ifp neighs = elim (find_neighbour_nocreate address ifp neighs) [
  | some neigh ↦ (neighs, some neigh, [])
  | none ↦ elim calloc [
    | none ↦ (neighs, none, [])
    | some handle ↦
        let neigh : Neighbour = new_neighbour handle address ifp now in
        (neigh ∷ neighs, some neigh, notify_add handle ∷ send_hello ifp ∷ [])
  ]
]

-- Taking a neighbour out of the linked list; the code never looks for one that is not there.
unfoldable pub unlink : ℕ → List Neighbour → List Neighbour
unlink handle [] = []
unlink handle (neigh ∷ rest) = if neigh.handle == handle then rest else neigh ∷ unlink handle rest

-- `unicast_neighbour` is the neighbour whose unicast buffer is in use.
unfoldable pub flush_neighbour : Option ℕ → Neighbour → List Neighbour → List Neighbour × List Event
unfolding unlink
flush_neighbour unicast_neighbour neigh neighs =
    let h : ℕ = neigh.handle in
    let unicast : List Event = elim unicast_neighbour [
      | none ↦ []
      | some u ↦ if u == h then flush_unicast ∷ [] else []
    ] in
    (unlink h neighs, flush_neighbour_routes h ∷ (unicast ++ flush_resends h ∷ notify_flush h ∷ []))
