-- ===== src/Route/Table/Invariant/Insert.antt =====
-- route.c: insert_route keeps the table in order.
use rabeld.Prelude.{
  ℕ, zero, suc, ◌≡◌, arith, Ordering, Bool, true, false, Bool-cases, leb, inl, inr, List, [], ◌∷◌,
  ◌++◌, get_or, set, length, if◌then◌else◌,
}
use rabeld.Slots.{Slot, found, absent, insert_at}
use rabeld.Slots.Order.{insert_at-IsAscending}
use rabeld.Slots.Search.{IsAnswer}
use rabeld.Source.{Source}
use rabeld.Route.{BabelRoute}
use rabeld.Route.Table.{
  destination, Chain, RouteTable, nowhere, compare_slot, find_route_slot, make_room,
  resize_route_table, insert_route,
}
use rabeld.Route.Table.Invariant.{
  key, order, AllLike, AllUninstalled, IsChain, AreChains, IsTable, key-sym, key_self,
  get_or-IsChain, set-IsTable, find_route_slot-IsAnswer,
}
use rabeld.Route.Table.Order.{route_compare-flip}

routes-make_room : (b : Bool) (t : RouteTable) → (make_room b t).routes ≡ t.routes
unfolding make_room resize_route_table
routes-make_room b t = ground arith

module _ (sources : ℕ → Source) where
  AllLike-append :
      (h r : BabelRoute) (rest : List BabelRoute)
      → AllLike sources h rest
      → key sources h r ≡ Ordering.eq
      → AllLike sources h (rest ++ r ∷ [])
  AllLike-append h r [] a e = (e, tt)
  AllLike-append h r (s ∷ rest) a e = (a.0, AllLike-append h r rest a.1 e)

  AllUninstalled-append :
      (r : BabelRoute) (rest : List BabelRoute)
      → AllUninstalled sources rest
      → r.installed ≡ false
      → AllUninstalled sources (rest ++ r ∷ [])
  AllUninstalled-append r [] a e = (e, tt)
  AllUninstalled-append r (s ∷ rest) a e = (a.0, AllUninstalled-append r rest a.1 e)

  insert_at-AreChains :
      (n : ℕ) (c : Chain) (xs : List Chain)
      → IsChain sources c
      → AreChains sources xs
      → AreChains sources (insert_at n c xs)
  unfolding insert_at
  insert_at-AreChains zero c xs h hs = (h, hs)
  insert_at-AreChains (suc n) c [] h hs = (h, tt)
  insert_at-AreChains (suc n) c (x ∷ xs) h hs = (hs.0, insert_at-AreChains n c xs h hs.1)

  module _ (realloc : Bool) (route : BabelRoute) (t : RouteTable) (h : IsTable sources t)
      (fresh : route.installed ≡ false) where
    abbrev alone : Chain
    alone = record { head = route; rest = [] }

    inserted :
        (n : ℕ)
        → IsAnswer
            (compare_slot sources (destination (sources route.src)) t.routes)
            (length t.routes)
            (absent n)
        → IsTable sources (record (make_room realloc t) { routes = insert_at n alone t.routes })
    inserted n (le, below, above) = record {
      sorted =
          insert_at-IsAscending (order sources) nowhere alone n t.routes le h.sorted
            (λ i lt. rw (
              route_compare-flip (sources route.src) (sources (get_or t.routes i nowhere).head.src),
              below i lt,
            ))
            (λ i ge lt. above i ge lt);
      chains = insert_at-AreChains n alone t.routes (tt, tt) h.chains;
    }

    appended :
        (i : ℕ)
        → IsAnswer
            (compare_slot sources (destination (sources route.src)) t.routes)
            (length t.routes)
            (found i)
        → IsTable sources (record t {
          routes = set t.routes i (record (get_or t.routes i nowhere) {
            rest = (get_or t.routes i nowhere).rest ++ route ∷ [];
          });
        })
    appended i (lt, e) =
        let c : Chain = get_or t.routes i nowhere in
        let (like, down) = get_or-IsChain sources t.routes i lt h.chains in
        set-IsTable sources t i (record c { rest = c.rest ++ route ∷ [] }) h
          (
            AllLike-append c.head route c.rest like (key-sym sources route c.head e),
            AllUninstalled-append route c.rest down fresh,
          )
          (key_self sources c.head)

    abbrev Kept : RouteTable × Bool → Type 0
    Kept r = IsTable sources r.0

    by_slot :
        (s : Slot)
        → IsAnswer
            (compare_slot sources (destination (sources route.src)) t.routes)
            (length t.routes)
            s
        → Kept (elim s [
          | absent n ↦
              let t' : RouteTable = make_room realloc t in
              if leb t'.max_route_slots (length t'.routes) then (t', false) else (
                record t' { routes = insert_at n (record { head = route; rest = [] }) t'.routes },
                true,
              )
          | found i ↦
              let c : Chain = get_or t.routes i nowhere in
              (
                record t { routes = set t.routes i (record c { rest = c.rest ++ route ∷ [] }) },
                true,
              )
        ])
    by_slot (found i) a = appended i a
    by_slot (absent n) a =
        elim (Bool-cases
          (leb (make_room realloc t).max_route_slots (length (make_room realloc t).routes))) [
            | inl full ↦ rw full (record {
              sorted = rw (routes-make_room realloc t) h.sorted;
              chains = rw (routes-make_room realloc t) h.chains;
            })
            | inr room ↦ rw (room, routes-make_room realloc t) (inserted n a)
          ]

    -- insert_route, with or without memory to grow the table, keeps the slots sorted with one slot
    -- for each destination, and the installed route, if any, at the head of its slot. The inserted
    -- route is not installed, as the code asserts.
    pub insert_route-IsTable : IsTable sources (insert_route sources realloc route t).0
    unfolding insert_route
    insert_route-IsTable =
        by_slot (find_route_slot sources (destination (sources route.src)) t)
          (find_route_slot-IsAnswer sources (destination (sources route.src)) t h)
