-- ===== src/Route/Table/Installed.antt =====
-- route.c: after install_route, uninstall_route and switch_routes.
use rabeld.Prelude.{
  ℕ, zero, suc, ◌<◌, ◌≡◌, refl, arith, Ordering, true, false, not, ◌&&◌, ◌==◌, Bool-cases, inl, inr,
  List, [], ◌∷◌, get_or, set, length, subst, some, none,
}
use rabeld.Slots.{Slot, found}
use rabeld.Slots.Search.{IsAnswer}
use rabeld.Source.{Source}
use rabeld.Route.{BabelRoute}
use rabeld.Route.Table.{
  destination, Chain, RouteTable, nowhere, compare_slot, find_route_slot, find_installed_route,
  unlink_route, move_installed_route, install_route, uninstall_route, clear_chain, switch_routes,
  kinstall_route, kuninstall_route, kswitch_routes, notify_change,
}
use rabeld.Route.Table.Invariant.{
  key, AllLike, AllUninstalled, IsChain, IsTable, key_self, AllLike-eq, get_or-IsChain, set-IsTable,
  find_route_slot-IsAnswer, find_route_slot-set,
}

get_or-set :
    (xs : List Chain) (i : ℕ) (c : Chain) → i < length xs → get_or (set xs i c) i nowhere ≡ c
get_or-set [] i c lt = absurd (omega arith)
get_or-set (x ∷ xs) zero c lt = refl
get_or-set (x ∷ xs) (suc i) c lt = get_or-set xs i c (omega arith)

module _ (sources : ℕ → Source) where
  pub AllLike-unlink_route :
      (h : BabelRoute) (a : ℕ) (rest : List BabelRoute)
      → AllLike sources h rest
      → AllLike sources h (unlink_route a rest)
  unfolding unlink_route
  AllLike-unlink_route h a [] l = tt
  AllLike-unlink_route h a (r ∷ rest) l = elim (Bool-cases (r.handle == a)) [
    | inl y ↦ rw y l.1
    | inr n ↦ rw n (l.0, AllLike-unlink_route h a rest l.1)
  ]

  pub AllUninstalled-unlink_route :
      (a : ℕ) (rest : List BabelRoute)
      → AllUninstalled sources rest
      → AllUninstalled sources (unlink_route a rest)
  unfolding unlink_route
  AllUninstalled-unlink_route a [] l = tt
  AllUninstalled-unlink_route a (r ∷ rest) l = elim (Bool-cases (r.handle == a)) [
    | inl y ↦ rw y l.1
    | inr n ↦ rw n (l.0, AllUninstalled-unlink_route a rest l.1)
  ]

  -- Moving a route to the front keeps a chain whose head it is, or whose head is not installed.
  move_installed_route-IsChain :
      (r : BabelRoute) (c : Chain)
      → IsChain sources c
      → key sources r c.head ≡ Ordering.eq
      → not (c.head.handle == r.handle) && c.head.installed ≡ false
      → IsChain sources (move_installed_route r c) × ((move_installed_route r c).head ≡ r)
  unfolding move_installed_route
  move_installed_route-IsChain r c (like, down) e g =
      elim (Bool-cases (c.head.handle == r.handle)) [
        | inl y ↦ rw y ((AllLike-eq sources r c.head c.rest e like, down), refl)
        | inr n ↦ rw n (
          (
            (e, AllLike-unlink_route r r.handle c.rest (AllLike-eq sources r c.head c.rest e like)),
            (ground (arith, n), AllUninstalled-unlink_route r.handle c.rest down),
          ),
          refl,
        )
      ]

  -- What install_route promises of its result, where the kernel accepted the route.
  abbrev pub IsInstalled : BabelRoute → RouteTable → Type 0
  IsInstalled route t =
      find_installed_route sources (destination (sources route.src)) t
      ≡ some (record route { installed = true })

  installed_at :
      (route : BabelRoute) (t : RouteTable) (i : ℕ) (c : Chain)
      → IsTable sources t
      → find_route_slot sources (destination (sources route.src)) t ≡ found i
      → (i < length t.routes) × (key sources route (get_or t.routes i nowhere).head ≡ Ordering.eq)
      → IsChain sources c
      → key sources route c.head ≡ Ordering.eq
      → not (c.head.handle == route.handle) && c.head.installed ≡ false
      → let t' : RouteTable = record t {
        routes = set t.routes i (move_installed_route (record route { installed = true }) c);
      } in
        IsTable sources t' × IsInstalled route t'
  unfolding find_installed_route
  installed_at route t i c h slot (lt, e) hc ec guard =
      let up : BabelRoute = record route { installed = true } in
      let c' : Chain = move_installed_route up c in
      let (hc', hd) = move_installed_route-IsChain up c hc ec guard in
      let same : key sources c'.head (get_or t.routes i nowhere).head ≡ Ordering.eq = rw hd e in
      (
        set-IsTable sources t i c' h hc' same,
        rw
            (
              find_installed_route,
              find_route_slot-set sources (destination (sources route.src)) t i c' same,
              slot,
              get_or-set t.routes i c' lt,
              hd,
            )
            refl,
      )

  -- In a table in order, for a route that is not installed, whose destination has a slot, and whose
  -- slot's head is that route or is not installed: if the kernel accepts the route, install_route
  -- keeps the table in order, and find_installed_route finds that route afterwards.
  pub install_route-IsInstalled :
      (route : BabelRoute) (t : RouteTable) (i : ℕ)
      → IsTable sources t
      → route.installed ≡ false
      → find_route_slot sources (destination (sources route.src)) t ≡ found i
      → not ((get_or t.routes i nowhere).head.handle == route.handle)
          && (get_or t.routes i nowhere).head.installed
        ≡ false
      → (t' : RouteTable) × (install_route sources true route t
          ≡ some (t', kinstall_route route.handle ∷ notify_change route.handle ∷ []))
        × IsTable sources t'
        × IsInstalled route t'
  unfolding install_route
  install_route-IsInstalled route t i h down slot guard =
      let c : Chain = get_or t.routes i nowhere in
      let answer : IsAnswer (compare_slot sources (destination (sources route.src)) t.routes)
          (length t.routes) (found i) =
        subst
          (IsAnswer (compare_slot sources (destination (sources route.src)) t.routes)
            (length t.routes))
          slot (find_route_slot-IsAnswer sources (destination (sources route.src)) t h) in
      let (kept, there) =
        installed_at route t i c h slot answer (get_or-IsChain sources t.routes i answer.0 h.chains)
          answer.1 guard in
      (
        record t {
          routes = set t.routes i (move_installed_route (record route { installed = true }) c);
        },
        rw (down, slot, guard) refl,
        kept,
        there,
      )

  abbrev Answers : BabelRoute → RouteTable → Slot → Type 0
  Answers route t s =
      IsAnswer (compare_slot sources (destination (sources route.src)) t.routes) (length t.routes) s

  -- The head of a slot has been uninstalled.
  clear_chain-IsChain :
      (a : ℕ) (c : Chain)
      → c.head.handle == a ≡ true
      → IsChain sources c
      → IsChain sources (clear_chain a c)
        × ((clear_chain a c).head.installed ≡ false)
        × ((clear_chain a c).head.src ≡ c.head.src)
  clear_chain-IsChain a c y h = rw y (
    (
      AllLike-eq sources (record c.head { installed = false }) c.head c.rest
          (key_self sources c.head) h.0,
      h.1,
    ),
    refl,
    refl,
  )

  -- In a table in order, for an installed route that is the head of its slot, uninstall_route keeps
  -- the table in order, and no installed route is found for the destination afterwards. The kernel
  -- and the local interface are told, in this order.
  pub uninstall_route-none :
      (route : BabelRoute) (t : RouteTable) (i : ℕ)
      → IsTable sources t
      → route.installed ≡ true
      → find_route_slot sources (destination (sources route.src)) t ≡ found i
      → (get_or t.routes i nowhere).head.handle == route.handle ≡ true
      → let (t', events) = uninstall_route sources route t in
        IsTable sources t'
        × (find_installed_route sources (destination (sources route.src)) t' ≡ none)
        × (events ≡ kuninstall_route route.handle ∷ notify_change route.handle ∷ [])
  unfolding find_installed_route uninstall_route find_route_slot
  uninstall_route-none route t i h up slot y =
      let c : Chain = get_or t.routes i nowhere in
      let answer : Answers route t (found i) =
        subst (Answers route t) slot
          (find_route_slot-IsAnswer sources (destination (sources route.src)) t h) in
      let (hc, down, src) =
        clear_chain-IsChain route.handle c y
          (get_or-IsChain sources t.routes i answer.0 h.chains) in
      let same : key sources (clear_chain route.handle c).head c.head ≡ Ordering.eq =
        rw src (key_self sources c.head) in
      rw (uninstall_route, up, slot)
        (
          set-IsTable sources t i (clear_chain route.handle c) h hc same,
          rw
              (
                find_installed_route,
                find_route_slot-set sources (destination (sources route.src)) t i
                    (clear_chain route.handle c) same,
                slot,
                get_or-set t.routes i (clear_chain route.handle c) answer.0,
                down,
              )
              refl,
          refl,
        )

  -- In a table in order, for an installed route that is the head of its slot and another one to the
  -- same destination: if the kernel switches, switch_routes keeps the table in order, and the new
  -- route is the one that is found installed afterwards.
  pub switch_routes-IsInstalled :
      (old new : BabelRoute) (t : RouteTable) (i : ℕ)
      → IsTable sources t
      → old.installed ≡ true
      → find_route_slot sources (destination (sources new.src)) t ≡ found i
      → (get_or t.routes i nowhere).head.handle == old.handle ≡ true
      → (t' : RouteTable) × (switch_routes sources true (some old) new t
          ≡ some (
            t',
            kswitch_routes old.handle new.handle
                ∷ notify_change old.handle
                ∷ notify_change new.handle
                ∷ [],
          ))
        × IsTable sources t'
        × IsInstalled new t'
  unfolding switch_routes
  switch_routes-IsInstalled old new t i h up slot y =
      let c : Chain = get_or t.routes i nowhere in
      let answer : Answers new t (found i) =
        subst (Answers new t) slot
          (find_route_slot-IsAnswer sources (destination (sources new.src)) t h) in
      let (hc, down, src) =
        clear_chain-IsChain old.handle c y (get_or-IsChain sources t.routes i answer.0 h.chains) in
      let (kept, there) =
        installed_at new t i (clear_chain old.handle c) h slot answer hc (rw src answer.1)
          (ground (arith, down)) in
      (
        record t {
          routes =
              set t.routes i
                (move_installed_route (record new { installed = true }) (clear_chain old.handle c));
        },
        rw (up, slot) refl,
        kept,
        there,
      )
