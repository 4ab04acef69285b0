-- ===== src/Route/Select/Best.antt =====
-- route.c: find_best_route returns the acceptable route with the smallest smoothed metric.
use rabeld.Prelude.{
  ℕ, ◌≤◌, ◌≡◌, ◌⊎◌, inl, inr, refl, arith, Bool, true, false, Bool-cases, ltb, ◌&&◌, if◌then◌else◌,
  List, [], ◌∷◌, Option, some, none, get_or, sym, subst,
}
use rabeld.Slots.{found}
use rabeld.Source.{Source}
use rabeld.Resend.{Destination}
use rabeld.Route.{BabelRoute}
use rabeld.Route.Table.{RouteTable, nowhere, routes_of, find_route_slot}
use rabeld.Route.Select.{
  route_acceptable, skip_unacceptable, best_from, best_of, Smoothing, smoothed_value,
  find_best_route,
}

module _ (acceptable : BabelRoute → Bool) (value : BabelRoute → ℕ) where
  abbrev pub IsAmong : BabelRoute → List BabelRoute → Type 0
  IsAmong b [] = ⊥
  IsAmong b (r ∷ rest) = (b ≡ r) ⊎ IsAmong b rest

  -- Every acceptable route of the list has at least this value.
  abbrev pub AllAtLeast : ℕ → List BabelRoute → Type 0
  AllAtLeast v [] = Unit
  AllAtLeast v (r ∷ rest) = ((acceptable r ≡ false) ⊎ (v ≤ value r)) × AllAtLeast v rest

  abbrev pub NoneOf : List BabelRoute → Type 0
  NoneOf [] = Unit
  NoneOf (r ∷ rest) = (acceptable r ≡ false) × NoneOf rest

  -- What a search for the best of these routes has to return.
  abbrev pub IsBest : List BabelRoute → Option BabelRoute → Type 0
  IsBest routes none = NoneOf routes
  IsBest routes (some b) = IsAmong b routes × (acceptable b ≡ true) × AllAtLeast (value b) routes

  -- The same for the loop, which has a route in hand.
  abbrev IsBestFrom : BabelRoute → List BabelRoute → BabelRoute → Type 0
  IsBestFrom route rest b =
      IsAmong b (route ∷ rest)
      × (acceptable b ≡ true)
      × (value b ≤ value route)
      × AllAtLeast (value b) rest

  taken :
      (route r b : BabelRoute) (rest : List BabelRoute)
      → acceptable r && ltb (value r) (value route) ≡ true
      → IsBestFrom r rest b
      → IsBestFrom route (r ∷ rest) b
  taken route r b rest e (among, acc, le, all) =
      (inr among, acc, ground (arith, e, le), (inr le, all))

  left :
      (route r b : BabelRoute) (rest : List BabelRoute)
      → acceptable r && ltb (value r) (value route) ≡ false
      → IsBestFrom route rest b
      → IsBestFrom route (r ∷ rest) b
  left route r b rest e (among, acc, le, all) =
      (elim among [ inl s ↦ inl s | inr s ↦ inr (inr s) ], acc, le, (ground (arith, e, le), all))

  best_from-IsBest :
      (route : BabelRoute) (rest : List BabelRoute)
      → acceptable route ≡ true
      → IsBestFrom route rest (best_from acceptable value route rest)
  unfolding best_from
  best_from-IsBest route [] a = (inl refl, a, omega arith, tt)
  best_from-IsBest route (r ∷ rest) a =
      elim (Bool-cases (acceptable r && ltb (value r) (value route))) [
        | inl y ↦ subst Chosen (sym y) (
            taken route r (best_from acceptable value r rest) rest y
              (best_from-IsBest r rest (ground (arith, y))))
        | inr n ↦ subst Chosen (sym n) (
            left route r (best_from acceptable value route rest) rest n
              (best_from-IsBest route rest a))
      ]
    where
      Chosen : Bool → Type 0
      Chosen c =
          IsBestFrom route (r ∷ rest) (best_from acceptable value (if c then r else route) rest)

  best_of-IsBest : (routes : List BabelRoute) → IsBest routes (best_of acceptable value routes)
  unfolding best_of skip_unacceptable
  best_of-IsBest [] = tt
  best_of-IsBest (r ∷ rest) = elim (Bool-cases (acceptable r)) [
    | inl a ↦
        let (among, acc, le, all) = best_from-IsBest r rest a in
        rw (a, IsBest) (among, acc, (inr le, all))
    | inr n ↦ rw (n, IsBest) (later (best_of acceptable value rest) n (best_of-IsBest rest))
  ]
    where
      later : (b : Option BabelRoute) → acceptable r ≡ false → IsBest rest b → IsBest (r ∷ rest) b
      later none n h = (n, h)
      later (some b) n (among, acc, all) = (inr among, acc, (inl n, all))

-- Where a destination has a slot, find_best_route returns an acceptable route of it whose smoothed
-- metric is no larger than that of any acceptable one, and NULL only if none is acceptable.
pub find_best_route-IsBest :
    (sources : ℕ → Source) (s : Smoothing) (d : Destination) (feasible : Bool) (exclude : Option ℕ)
    (t : RouteTable) (i : ℕ)
    → find_route_slot sources d t ≡ found i
    → IsBest
        (route_acceptable sources s.now feasible exclude)
        (smoothed_value s)
        (routes_of (get_or t.routes i nowhere))
        (find_best_route sources s d feasible exclude t).1
unfolding find_best_route
find_best_route-IsBest sources s d feasible exclude t i slot =
    subst
      (IsBest (route_acceptable sources s.now feasible exclude) (smoothed_value s)
        (routes_of (get_or t.routes i nowhere)))
      (rw (find_best_route, slot) refl)
      (best_of-IsBest (route_acceptable sources s.now feasible exclude) (smoothed_value s)
        (routes_of (get_or t.routes i nowhere)))
