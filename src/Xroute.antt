-- ===== src/Xroute.antt =====
-- xroute.c and xroute.h: the routes of the kernel that are redistributed, an unordered array.
pub mod Map
pub mod Flush
pub mod Add
pub mod Check
use rabeld.Prelude.{
  ℕ, zero, suc, ◌-◌, ◌*◌, ◌/◌, Bool, true, false, ltb, leb, ◌==◌, ◌&&◌, if◌then◌else◌, List, [],
  ◌∷◌, ◌++◌, get_or, set, take, length, Option, some, none,
}
use rabeld.Util.Prefix.{v6_equal}
use rabeld.Resend.{Destination}

-- struct xroute; its destination is its first four fields.
pub record Xroute : Type 0 where
  pub to : Destination
  pub metric : ℕ
  pub ifindex : ℕ
  pub proto : ℕ

-- The static variables; `numxroutes` is the length of the array.
pub record XrouteTable : Type 0 where
  pub xroutes : List Xroute
  pub maxxroutes : ℕ

unfoldable pub same_destination : Destination → Destination → Bool
same_destination d x =
    x.plen == d.plen
    && (v6_equal x.prefix d.prefix
        && (x.src_plen == d.src_plen && v6_equal x.src_prefix d.src_prefix))

-- The index of the first match.
unfoldable pub find_xroute : Destination → List Xroute → Option ℕ
find_xroute d [] = none
find_xroute d (x ∷ rest) =
    let later : Option ℕ = find_xroute d rest in
    if same_destination d x.to then some 0 else (elim later [ none ↦ none | some i ↦ some (suc i) ])

-- What local_notify_xroute is called with; the number is the index.
pub data Notice : Type 0 where
  notify_add notify_change notify_flush : ℕ → Notice

-- The values 0, 1 and -1 that add_xroute returns.
pub data Added : Type 0 where
  not_better added no_memory : Added

abbrev pub blank : Xroute
blank = record {
  to = record { prefix = []; plen = 0; src_prefix = []; src_plen = 0 };
  metric = 0;
  ifindex = 0;
  proto = 0;
}

-- The array after the last element was copied over the one at index i, and is given up.
unfoldable pub fill_hole : ℕ → List Xroute → List Xroute
fill_hole i xs =
    take (length xs - 1)
      (if i == length xs - 1 then xs else set xs i (get_or xs (length xs - 1) blank))

-- `maxxroutes` after the removal.
abbrev pub room_after : Bool → ℕ → ℕ → ℕ
room_after realloc numxroutes maxxroutes =
    if numxroutes == 0
    then 0
    else (if ltb 8 maxxroutes && (ltb numxroutes (maxxroutes / 4) && realloc)
        then maxxroutes / 2
        else maxxroutes)

-- `none` is the failed assertion. `realloc` is whether realloc succeeds.
unfoldable pub flush_xroute : Bool → ℕ → XrouteTable → Option (XrouteTable × List Notice)
flush_xroute realloc i t =
    if leb (length t.xroutes) i
    then none
    else (let xs : List Xroute = fill_hole i t.xroutes in
        some (
          record { xroutes = xs; maxxroutes = room_after realloc (length xs) t.maxxroutes },
          notify_flush i ∷ [],
        ))

unfoldable pub make_room : Bool → XrouteTable → XrouteTable
make_room realloc t =
    if leb t.maxxroutes (length t.xroutes) && realloc
    then (record t { maxxroutes = if ltb t.maxxroutes 1 then 8 else 2 * t.maxxroutes })
    else t

unfoldable pub add_xroute :
    Bool → Destination → ℕ → ℕ → ℕ → XrouteTable → XrouteTable × Added × List Notice
add_xroute realloc d metric ifindex proto t = elim (find_xroute d t.xroutes) [
  | some i ↦
      let x : Xroute = get_or t.xroutes i blank in
      if leb x.metric metric then (t, not_better, []) else (
        record t { xroutes = set t.xroutes i (record x { metric = metric }) },
        added,
        notify_change i ∷ [],
      )
  | none ↦
      let t' : XrouteTable = make_room realloc t in
      if leb t'.maxxroutes (length t.xroutes) then (t, no_memory, []) else (
        record t' {
          xroutes =
              t.xroutes
              ++ (record { to = d; metric = metric; ifindex = ifindex; proto = proto }) ∷ [];
        },
        added,
        notify_add (length t.xroutes) ∷ [],
      )
]
