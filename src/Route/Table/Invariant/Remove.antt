-- ===== src/Route/Table/Invariant/Remove.antt =====
-- route.c: the part of flush_route that takes a route out keeps the table in order.
use rabeld.Prelude.{
  ℕ, zero, suc, ◌≡◌, refl, arith, Ordering, Bool-cases, ◌==◌, inl, inr, List, [], ◌∷◌, get_or, set,
  length, take, drop, ◌++◌, ◌∙◌, Bool, true, if◌then◌else◌, subst, sym, Option, some, none,
}
use rabeld.Slots.{Slot, found, absent}
use rabeld.Slots.Order.{AllAfter, IsAscending}
use rabeld.Slots.Search.{IsAnswer}
use rabeld.Source.{Source}
use rabeld.Route.{BabelRoute}
use rabeld.Route.Table.{
  destination, routes_of, Chain, RouteTable, nowhere, compare_slot, find_route_slot, remove_at,
  remove_route, resize_route_table, shrink, unlink_route,
}
use rabeld.Route.Table.Installed.{AllLike-unlink_route, AllUninstalled-unlink_route}
use rabeld.Route.Table.Invariant.{
  key, order, IsChain, AreChains, IsTable, key-sym, key_self, AllLike-eq, get_or-IsChain,
  set-IsTable, find_route_slot-IsAnswer, key-eq_left,
}

routes-shrink : (b : Bool) (t : RouteTable) → (shrink b t).routes ≡ t.routes
unfolding shrink resize_route_table
routes-shrink b t = ground arith

-- A list of routes without the first that stands at an address.
abbrev pub without : ℕ → List BabelRoute → List BabelRoute
without handle [] = []
without handle (r ∷ rest) = if r.handle == handle then rest else r ∷ without handle rest

-- The slots with new routes in one of them, or without this slot if there are none.
abbrev pub with_slot : ℕ → List BabelRoute → List Chain → List Chain
with_slot i [] xs = take i xs ++ drop (suc i) xs
with_slot i (r ∷ rest) xs = set xs i (record { head = r; rest = rest })

-- What flush_route leaves in the table.
abbrev pub IsRemoved : (ℕ → Source) → BabelRoute → RouteTable → RouteTable → Type 0
IsRemoved sources route t t' =
    (i : ℕ) × (find_route_slot sources (destination (sources route.src)) t ≡ found i)
    × (t'.routes
        ≡ with_slot i (without route.handle (routes_of (get_or t.routes i nowhere))) t.routes)

unlink_route-without :
    (handle : ℕ) (rs : List BabelRoute) → unlink_route handle rs ≡ without handle rs
unfolding unlink_route
unlink_route-without handle [] = refl
unlink_route-without handle (r ∷ rest) = rw (unlink_route-without handle rest) refl

module _ (sources : ℕ → Source) where
  AllAfter-remove_at :
      (x : Chain) (n : ℕ) (xs : List Chain)
      → AllAfter (order sources) x xs
      → AllAfter (order sources) x (remove_at n xs)
  AllAfter-remove_at x zero [] h = tt
  AllAfter-remove_at x zero (y ∷ ys) h = h.1
  AllAfter-remove_at x (suc n) [] h = tt
  AllAfter-remove_at x (suc n) (y ∷ ys) h = (h.0, AllAfter-remove_at x n ys h.1)

  IsAscending-remove_at :
      (n : ℕ) (xs : List Chain)
      → IsAscending (order sources) xs
      → IsAscending (order sources) (remove_at n xs)
  IsAscending-remove_at zero [] h = tt
  IsAscending-remove_at zero (y ∷ ys) h = h.1
  IsAscending-remove_at (suc n) [] h = tt
  IsAscending-remove_at (suc n) (y ∷ ys) h =
      (AllAfter-remove_at y n ys h.0, IsAscending-remove_at n ys h.1)

  AreChains-remove_at :
      (n : ℕ) (xs : List Chain) → AreChains sources xs → AreChains sources (remove_at n xs)
  AreChains-remove_at zero [] h = tt
  AreChains-remove_at zero (y ∷ ys) h = h.1
  AreChains-remove_at (suc n) [] h = tt
  AreChains-remove_at (suc n) (y ∷ ys) h = (h.0, AreChains-remove_at n ys h.1)

  shrink-IsTable : (b : Bool) (t : RouteTable) → IsTable sources t → IsTable sources (shrink b t)
  shrink-IsTable b t h = record {
    sorted = subst (IsAscending (order sources)) (sym (routes-shrink b t)) h.sorted;
    chains = subst (AreChains sources) (sym (routes-shrink b t)) h.chains;
  }

  module _ (realloc : Bool) (route : BabelRoute) (t : RouteTable) (h : IsTable sources t) where
    abbrev Kept : Option RouteTable → Type 0
    Kept none = Unit
    Kept (some t') = IsTable sources t'

    -- The slot without its head.
    without_head :
        (i : ℕ) (first : BabelRoute) (others : List BabelRoute)
        → IsChain sources (record { head = first; rest = others })
        → key sources first (get_or t.routes i nowhere).head ≡ Ordering.eq
        → IsTable sources (record t {
          routes = elim others [
            | [] ↦ remove_at i t.routes
            | r ∷ rest ↦ set t.routes i (record { head = r; rest = rest })
          ];
        })
    without_head i first [] hc e = record {
      sorted = IsAscending-remove_at i t.routes h.sorted;
      chains = AreChains-remove_at i t.routes h.chains;
    }
    without_head i first (r ∷ rest) (like, down) e =
        set-IsTable sources t i (record { head = r; rest = rest }) h
          (AllLike-eq sources r first rest (key-sym sources first r like.0) like.1, down.1)
          (rw
            (key-eq_left sources r first (get_or t.routes i nowhere).head
              (key-sym sources first r like.0))
            e)

    by_answer :
        (s : Slot)
        → IsAnswer
            (compare_slot sources (destination (sources route.src)) t.routes)
            (length t.routes)
            s
        → find_route_slot sources (destination (sources route.src)) t ≡ s
        → Kept (remove_route sources realloc route t)
    unfolding remove_route
    by_answer (absent n) a e = rw (remove_route, e) tt
    by_answer (found i) (lt, q) e =
        let c : Chain = get_or t.routes i nowhere in
        let (like, down) = get_or-IsChain sources t.routes i lt h.chains in
        elim (Bool-cases (c.head.handle == route.handle)) [
          | inl y ↦
              rw (remove_route, e, y)
                (shrink-IsTable realloc _
                  (without_head i c.head c.rest (like, down) (key_self sources c.head)))
          | inr n ↦
              rw (remove_route, e, n)
                (set-IsTable sources t i (record c { rest = unlink_route route.handle c.rest }) h
                  (
                    AllLike-unlink_route sources c.head route.handle c.rest like,
                    AllUninstalled-unlink_route sources route.handle c.rest down,
                  )
                  (key_self sources c.head))
        ]

    abbrev Removed : Option RouteTable → Type 0
    Removed none = Unit
    Removed (some t') = IsRemoved sources route t t'

    -- The table that shrinks has the routes that are left in the slot.
    removed_head :
        (i : ℕ) (first : BabelRoute) (others : List BabelRoute)
        → (first.handle == route.handle) ≡ true
        → (shrink realloc (record t {
          routes = elim others [
            | [] ↦ remove_at i t.routes
            | r ∷ rest ↦ set t.routes i (record { head = r; rest = rest })
          ];
        })).routes
          ≡ with_slot i (without route.handle (first ∷ others)) t.routes
    removed_head i first [] y = routes-shrink realloc _ ∙ rw y refl
    removed_head i first (r ∷ rest) y = routes-shrink realloc _ ∙ rw y refl

    by_slot :
        (w : Slot)
        → find_route_slot sources (destination (sources route.src)) t ≡ w
        → Removed (remove_route sources realloc route t)
    unfolding remove_route
    by_slot (absent n) e = rw (remove_route, e) tt
    by_slot (found i) e =
        let c : Chain = get_or t.routes i nowhere in
        elim (Bool-cases (c.head.handle == route.handle)) [
          | inl y ↦ rw (remove_route, e, y) (i, e, removed_head i c.head c.rest y)
          | inr n ↦
              rw (remove_route, e, n) (i, e, rw (n, unlink_route-without route.handle c.rest) refl)
        ]

    -- Where flush_route takes a route out of the table, the slot of the route's destination loses the
    -- first route that stands at its address, and is taken out itself if it had no other; the other
    -- slots, and the other routes of this one, are left as they were and in their order. Whether the
    -- route is the head of its slot, the only route of it or neither, and whether the table is made
    -- smaller, the table stays in order.
    pub remove_route-IsTable :
        (t' : RouteTable)
        → remove_route sources realloc route t ≡ some t'
        → IsTable sources t' × IsRemoved sources route t t'
    remove_route-IsTable t' e = (
      subst Kept e (
          by_answer (find_route_slot sources (destination (sources route.src)) t)
            (find_route_slot-IsAnswer sources (destination (sources route.src)) t h) refl),
      subst Removed e (by_slot (find_route_slot sources (destination (sources route.src)) t) refl),
    )
