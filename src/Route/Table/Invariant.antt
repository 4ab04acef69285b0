-- ===== src/Route/Table/Invariant.antt =====
-- route.c: what holds of the table of routes, and how a change of one slot keeps it.
pub mod Insert
pub mod Remove
use rabeld.Prelude.{
  ℕ, zero, suc, ◌+◌, ◌≤◌, ◌<◌, ◌≡◌, refl, arith, Ordering, Bool, true, false, ◌==◌, Bool-cases, inl,
  inr, List, [], ◌∷◌, ◌++◌, get_or, set, length, length-set, ap, sym, if◌then◌else◌,
}
use rabeld.Prelude.Order.{flip, Fits}
use rabeld.Slots.{Slot, found, absent, insert_at, find_slot}
use rabeld.Slots.Order.{AllAfter, IsAscending, IsAscending-IsMonotone}
use rabeld.Slots.Search.{IsAnswer, find_slot-IsAnswer}
use rabeld.Source.{Source}
use rabeld.Resend.{Destination}
use rabeld.Route.{BabelRoute}
use rabeld.Route.Table.{
  destination, route_compare, Chain, RouteTable, nowhere, compare_slot, find_route_slot,
  unlink_route, move_installed_route,
}
use rabeld.Route.Table.Order.{route_compare-Fits, route_compare-flip}

module _ (sources : ℕ → Source) where
  -- Routes compared by their destinations.
  abbrev pub key : BabelRoute → BabelRoute → Ordering
  key r s = route_compare (destination (sources r.src)) (sources s.src)

  abbrev pub order : Chain → Chain → Ordering
  order c c' = key c.head c'.head

  -- All the routes are to the destination of r.
  abbrev pub AllLike : BabelRoute → List BabelRoute → Type 0
  AllLike r [] = Unit
  AllLike r (s ∷ rest) = (key r s ≡ Ordering.eq) × AllLike r rest

  abbrev pub AllUninstalled : List BabelRoute → Type 0
  AllUninstalled [] = Unit
  AllUninstalled (s ∷ rest) = (s.installed ≡ false) × AllUninstalled rest

  -- A chain is of routes to one destination, and only its head may be installed.
  abbrev pub IsChain : Chain → Type 0
  IsChain c = AllLike c.head c.rest × AllUninstalled c.rest

  abbrev pub AreChains : List Chain → Type 0
  AreChains [] = Unit
  AreChains (c ∷ cs) = IsChain c × AreChains cs

  -- "We maintain a list of slots, ordered by prefix. Every slot contains a linked list of the routes
  -- to this prefix, with the installed route, if any, at the head of the list."
  pub record IsTable (t : RouteTable) : Type 0 where
    pub sorted : IsAscending order t.routes
    pub chains : AreChains t.routes

  self_eq : (o : Ordering) → o ≡ flip o → o ≡ Ordering.eq
  self_eq o e = ground arith

  pub key_self : (r : BabelRoute) → key r r ≡ Ordering.eq
  key_self r = self_eq (key r r) (route_compare-flip (sources r.src) (sources r.src))

  pub key-sym : (r s : BabelRoute) → key r s ≡ Ordering.eq → key s r ≡ Ordering.eq
  key-sym r s e = rw (route_compare-flip (sources r.src) (sources s.src), e)

  -- Routes to one destination compare alike.
  pub key-eq_left : (r s u : BabelRoute) → key r s ≡ Ordering.eq → key r u ≡ key s u
  key-eq_left r s u e =
      from (key r s) (key s u) (key r u)
        (route_compare-Fits (destination (sources r.src)) (sources s.src) (sources u.src)) e
    where
      from : (a b c : Ordering) → Fits a b c → a ≡ Ordering.eq → c ≡ b
      from a b c f e = ground arith

  key-lt_right :
      (r s u : BabelRoute) → key r s ≡ Ordering.lt → key s u ≡ Ordering.eq → key r u ≡ Ordering.lt
  key-lt_right r s u e q =
      from (key r s) (key s u) (key r u)
        (route_compare-Fits (destination (sources r.src)) (sources s.src) (sources u.src)) e q
    where
      from : (a b c : Ordering) → Fits a b c → a ≡ Ordering.lt → b ≡ Ordering.eq → c ≡ Ordering.lt
      from a b c f e q = ground arith

  pub AllLike-eq :
      (r s : BabelRoute) (rest : List BabelRoute)
      → key r s ≡ Ordering.eq
      → AllLike s rest
      → AllLike r rest
  AllLike-eq r s [] e h = tt
  AllLike-eq r s (u ∷ rest) e h = (rw (key-eq_left r s u e) h.0, AllLike-eq r s rest e h.1)

  AllAfter-eq :
      (c c' : Chain) (xs : List Chain)
      → key c'.head c.head ≡ Ordering.eq
      → AllAfter order c xs
      → AllAfter order c' xs
  AllAfter-eq c c' [] e h = tt
  AllAfter-eq c c' (x ∷ xs) e h =
      (rw (key-eq_left c'.head c.head x.head e) h.0, AllAfter-eq c c' xs e h.1)

  AllAfter-set :
      (x c : Chain) (xs : List Chain) (i : ℕ)
      → key (get_or xs i nowhere).head c.head ≡ Ordering.eq
      → AllAfter order x xs
      → AllAfter order x (set xs i c)
  AllAfter-set x c [] i e h = tt
  AllAfter-set x c (y ∷ ys) zero e h = (key-lt_right x.head y.head c.head h.0 e, h.1)
  AllAfter-set x c (y ∷ ys) (suc i) e h = (h.0, AllAfter-set x c ys i e h.1)

  set-IsAscending :
      (c : Chain) (xs : List Chain) (i : ℕ)
      → key c.head (get_or xs i nowhere).head ≡ Ordering.eq
      → IsAscending order xs
      → IsAscending order (set xs i c)
  set-IsAscending c [] i e h = tt
  set-IsAscending c (y ∷ ys) zero e h = (AllAfter-eq y c ys e h.0, h.1)
  set-IsAscending c (y ∷ ys) (suc i) e h = (
    AllAfter-set y c ys i (key-sym c.head (get_or ys i nowhere).head e) h.0,
    set-IsAscending c ys i e h.1,
  )

  set-AreChains :
      (c : Chain) (xs : List Chain) (i : ℕ) → IsChain c → AreChains xs → AreChains (set xs i c)
  set-AreChains c [] i h hs = tt
  set-AreChains c (y ∷ ys) zero h hs = (h, hs.1)
  set-AreChains c (y ∷ ys) (suc i) h hs = (hs.0, set-AreChains c ys i h hs.1)

  pub get_or-IsChain :
      (xs : List Chain) (i : ℕ) → i < length xs → AreChains xs → IsChain (get_or xs i nowhere)
  get_or-IsChain [] i lt hs = absurd (omega arith)
  get_or-IsChain (y ∷ ys) zero lt hs = hs.0
  get_or-IsChain (y ∷ ys) (suc i) lt hs = get_or-IsChain ys i (omega arith) hs.1

  -- A slot may be replaced by a chain to the same destination.
  pub set-IsTable :
      (t : RouteTable) (i : ℕ) (c : Chain)
      → IsTable t
      → IsChain c
      → key c.head (get_or t.routes i nowhere).head ≡ Ordering.eq
      → IsTable (record t { routes = set t.routes i c })
  set-IsTable t i c h hc e = record {
    sorted = set-IsAscending c t.routes i e h.sorted;
    chains = set-AreChains c t.routes i hc h.chains;
  }

  -- What the search returns in such a table.
  pub find_route_slot-IsAnswer :
      (d : Destination) (t : RouteTable)
      → IsTable t
      → IsAnswer (compare_slot sources d t.routes) (length t.routes) (find_route_slot sources d t)
  unfolding find_route_slot
  find_route_slot-IsAnswer d t h =
      find_slot-IsAnswer (compare_slot sources d t.routes) (length t.routes) (
        IsAscending-IsMonotone order nowhere t.routes (λ c. route_compare d (sources c.head.src))
          (λ x y. route_compare-Fits d (sources x.head.src) (sources y.head.src)) h.sorted)

  -- The search finds the same slot after one has been replaced by a chain to the same destination.
  pub find_route_slot-set :
      (d : Destination) (t : RouteTable) (i : ℕ) (c : Chain)
      → key c.head (get_or t.routes i nowhere).head ≡ Ordering.eq
      → find_route_slot sources d (record t { routes = set t.routes i c })
        ≡ find_route_slot sources d t
  unfolding find_route_slot
  find_route_slot-set d t i c e =
      rw (length-set t.routes i c)
        (ap (λ f. find_slot f (length t.routes)) (λ j m. same t.routes i m e j))
    where
      unlike : (a b : Ordering) → Fits a Ordering.eq b → b ≡ a
      unlike Ordering.lt b f = f
      unlike Ordering.eq b f = sym f
      unlike Ordering.gt b f = f

      at :
          (y : Chain)
          → key c.head y.head ≡ Ordering.eq
          → route_compare d (sources c.head.src) ≡ route_compare d (sources y.head.src)
      at y q =
          unlike (route_compare d (sources y.head.src)) (route_compare d (sources c.head.src)) (
            rw (← key-sym c.head y.head q)
              (route_compare-Fits d (sources y.head.src) (sources c.head.src)))

      same :
          (xs : List Chain) (k m : ℕ)
          → key c.head (get_or xs k nowhere).head ≡ Ordering.eq
          → compare_slot sources d (set xs k c) m ≡ compare_slot sources d xs m
      same [] k m q = refl
      same (y ∷ ys) zero zero q = at y q
      same (y ∷ ys) zero (suc m) q = refl
      same (y ∷ ys) (suc k) zero q = refl
      same (y ∷ ys) (suc k) (suc m) q = same ys k m q
