-- ===== src/Route/Kernel/Spares.antt =====
-- disambiguation.c: the zones that kinstall_route and kuninstall_route touch.
use rabeld.Prelude.{
  ◌≡◌, ◌⊎◌, refl, arith, Bool, true, false, if◌then◌else◌, List, [], ◌∷◌, ◌++◌, Option, some, none,
  inl, inr,
}
use rabeld.Util.Prefix.{v4mapped}
use rabeld.Route.Kernel.{Placed, inter, conflicts, any_at, conflict_solution}
use rabeld.Route.Kernel.Calls.{
  KernelCall, zone_of, Reply, accepted, exists, failed, leads, beats, install_zone, install_loop,
  uninstall_zone, uninstall_loop, own_zone, own_removal, install_calls, uninstall_calls,
  kinstall_route, kuninstall_route,
}

module _ (installed : List Placed) (route : Placed) where
  -- A call for the route's own zone, or for the intersection with an installed route that conflicts,
  -- where no route is installed.
  abbrev pub IsSparing : KernelCall → Type 0
  IsSparing k =
      (zone_of k ≡ some route.to)
      ⊎ ((rt1 : Placed) × (zone_of k ≡ inter route.to rt1.to)
          × (conflicts route.to rt1.to ≡ true)
          × (any_at (zone_of k) installed ≡ false))

  abbrev pub AllSparing : List KernelCall → Type 0
  AllSparing [] = Unit
  AllSparing (k ∷ ks) = IsSparing k × AllSparing ks

  AllSparing-append :
      (ks ms : List KernelCall) → AllSparing ks → AllSparing ms → AllSparing (ks ++ ms)
  AllSparing-append [] ms h k = k
  AllSparing-append (x ∷ ks) ms (p, h) k = (p, AllSparing-append ks ms h k)

  leads-free :
      (rt1 : Placed)
      → leads installed route rt1 ≡ true
      → (conflicts route.to rt1.to ≡ true) × (any_at (inter route.to rt1.to) installed ≡ false)
  unfolding leads
  leads-free rt1 e = (ground (arith, e), ground (arith, e))

  sparing_if :
      (b : Bool) (ks : List KernelCall)
      → (b ≡ true → AllSparing ks)
      → AllSparing (if b then ks else [])
  sparing_if true ks h = h refl
  sparing_if false ks h = tt

  install_zone-AllSparing :
      (rt1 : Placed) (o : Option Placed)
      → leads installed route rt1 ≡ true
      → AllSparing (install_zone installed route rt1 o)
  install_zone-AllSparing rt1 none e =
      let (c, free) = leads-free rt1 e in (inr (rt1, refl, c, free), tt)
  install_zone-AllSparing rt1 (some rt2) e =
      let (c, free) = leads-free rt1 e in
      sparing_if (beats installed route rt2 rt1) _ (λ y. (inr (rt1, refl, c, free), tt))

  uninstall_zone-AllSparing :
      (rt1 : Placed) (o : Option Placed)
      → leads installed route rt1 ≡ true
      → AllSparing (uninstall_zone installed route rt1 o)
  uninstall_zone-AllSparing rt1 none e =
      let (c, free) = leads-free rt1 e in (inr (rt1, refl, c, free), tt)
  uninstall_zone-AllSparing rt1 (some rt2) e =
      let (c, free) = leads-free rt1 e in
      sparing_if (beats installed route rt2 rt1) _ (λ y. (inr (rt1, refl, c, free), tt))

  install_loop-AllSparing : (rest : List Placed) → AllSparing (install_loop installed route rest)
  unfolding install_loop
  install_loop-AllSparing [] = tt
  install_loop-AllSparing (rt1 ∷ rest) =
      AllSparing-append _ _
        (sparing_if (leads installed route rt1) _ (install_zone-AllSparing rt1 _))
        (install_loop-AllSparing rest)

  uninstall_loop-AllSparing :
      (rest : List Placed) → AllSparing (uninstall_loop installed route rest)
  unfolding uninstall_loop
  uninstall_loop-AllSparing [] = tt
  uninstall_loop-AllSparing (rt1 ∷ rest) =
      AllSparing-append _ _
        (sparing_if (leads installed route rt1) _ (uninstall_zone-AllSparing rt1 _))
        (uninstall_loop-AllSparing rest)

  own_zone-IsSparing : (o : Option Placed) → IsSparing (own_zone installed route o)
  own_zone-IsSparing none = inl refl
  own_zone-IsSparing (some rt1) = inl refl

  own_removal-IsSparing : (o : Option Placed) → IsSparing (own_removal installed route o)
  own_removal-IsSparing none = inl refl
  own_removal-IsSparing (some rt1) = inl refl

  choose_calls :
      (b : Bool) (ks ms : List KernelCall)
      → AllSparing ks
      → AllSparing ms
      → AllSparing (if b then ks else ms)
  choose_calls true ks ms h k = h
  choose_calls false ks ms h k = k

  install_calls-AllSparing :
      (disambiguates : Bool → Bool) → AllSparing (install_calls installed route disambiguates)
  unfolding install_calls
  install_calls-AllSparing disambiguates =
      choose_calls (disambiguates (v4mapped route.route.nexthop)) _ _ (inl refl, tt)
        (AllSparing-append (install_loop installed route installed) _
          (install_loop-AllSparing installed)
          (own_zone-IsSparing (conflict_solution route.to installed), tt))

  uninstall_calls-AllSparing :
      (disambiguates : Bool → Bool) → AllSparing (uninstall_calls installed route disambiguates)
  unfolding uninstall_calls
  uninstall_calls-AllSparing disambiguates =
      choose_calls (disambiguates (v4mapped route.route.nexthop)) _ _ (inl refl, tt)
        (
          own_removal-IsSparing (conflict_solution route.to installed),
          uninstall_loop-AllSparing installed,
        )

  -- kinstall_route and kuninstall_route leave alone what the kernel has for the destination of another
  -- installed route: each of their calls is for the route's own zone, or for its intersection with a
  -- route that conflicts with it, in which no route is installed.
  pub kinstall_route-AllSparing :
      (disambiguates : Bool → Bool) (reply : Reply)
      → AllSparing (kinstall_route disambiguates reply installed route).1
        × AllSparing (kuninstall_route disambiguates reply installed route).1
  unfolding kinstall_route kuninstall_route
  kinstall_route-AllSparing disambiguates accepted =
      (install_calls-AllSparing disambiguates, uninstall_calls-AllSparing disambiguates)
  kinstall_route-AllSparing disambiguates exists =
      (install_calls-AllSparing disambiguates, uninstall_calls-AllSparing disambiguates)
  kinstall_route-AllSparing disambiguates failed =
      (install_calls-AllSparing disambiguates, uninstall_calls-AllSparing disambiguates)
