-- ===== src/Route/Kernel/Calls.antt =====
-- disambiguation.c: the calls of kernel_route that kinstall_route, kuninstall_route, kswitch_routes and
-- kchange_route_metric make.
use rabeld.Prelude.{
  ℕ, ◌+◌, Bool, true, false, ◌&&◌, not, if◌then◌else◌, min, List, [], ◌∷◌, ◌++◌, Option, some, none,
}
use rabeld.Prelude.Bytes.{is_eq, is_lt}
use rabeld.Util.Prefix.{v4mapped}
use rabeld.Source.{infinity}
use rabeld.Resend.{Destination}
use rabeld.Route.Metric.{route_metric}
use rabeld.Route.Update.{Node, kernel_value}
use rabeld.Route.Kernel.{
  Placed, rt_cmp, min_route, conflicts, inter, min_conflict, conflict_solution, any_at,
}

-- add_route, del_route, chg_route and chg_route_metric, with the zone. The table, which find_table
-- gives for the zone, and the fields of the routes that are passed on are left to the receiver.
pub data KernelCall : Type 0 where
  add_call : Option Destination → Option Placed → KernelCall
  del_call : Option Destination → Option Placed → KernelCall
  chg_call : Option Destination → Placed → Placed → KernelCall
  chg_metric_call : Option Destination → Placed → ℕ → ℕ → KernelCall

abbrev pub zone_of : KernelCall → Option Destination
zone_of (add_call z r) = z
zone_of (del_call z r) = z
zone_of (chg_call z old new) = z
zone_of (chg_metric_call z r old new) = z

-- What a call of kernel_route returns: 0, or -1 with EEXIST in errno or another error.
pub data Reply : Type 0 where
  accepted exists failed : Reply

-- `rt_cmp(rt1, min) == 0` and `rt_cmp(route, min) < 0`, for what min_conflict returns. It is not NULL
-- where rt1 itself is one of the candidates.
abbrev pub same_as : Destination → Option Placed → Bool
same_as a none = false
same_as a (some r) = is_eq (rt_cmp a r.to)

module _ (installed : List Placed) (route : Placed) where
  -- The test of the loops: the first route that conflicts in a zone where nothing is installed.
  unfoldable pub leads : Placed → Bool
  leads rt1 =
      let z : Option Destination = inter route.to rt1.to in
      conflicts route.to rt1.to
      && (not (any_at z installed) && same_as rt1.to (min_conflict z route.to installed))

  abbrev pub beats : Placed → Placed → Bool
  beats rt2 rt1 = is_lt (rt_cmp route.to rt2.to) && is_lt (rt_cmp route.to rt1.to)

  abbrev pub install_zone : Placed → Option Placed → List KernelCall
  install_zone rt1 none = add_call (inter route.to rt1.to) (min_route (some route) (some rt1)) ∷ []
  install_zone rt1 (some rt2) =
      if beats rt2 rt1 then chg_call (inter route.to rt1.to) rt2 route ∷ [] else []

  abbrev pub uninstall_zone : Placed → Option Placed → List KernelCall
  uninstall_zone rt1 none =
      del_call (inter route.to rt1.to) (min_route (some route) (some rt1)) ∷ []
  uninstall_zone rt1 (some rt2) =
      if beats rt2 rt1 then chg_call (inter route.to rt1.to) route rt2 ∷ [] else []

  -- The loop of kinstall_route, over what is left of the stream.
  unfoldable pub install_loop : List Placed → List KernelCall
  unfolding leads
  install_loop [] = []
  install_loop (rt1 ∷ rest) =
      (if leads rt1
        then install_zone rt1 (min_conflict (inter route.to rt1.to) rt1.to installed)
        else [])
      ++ install_loop rest

  unfoldable pub uninstall_loop : List Placed → List KernelCall
  unfolding leads
  uninstall_loop [] = []
  uninstall_loop (rt1 ∷ rest) =
      (if leads rt1
        then uninstall_zone rt1 (min_conflict (inter route.to rt1.to) rt1.to installed)
        else [])
      ++ uninstall_loop rest

  -- The test of the loops of kswitch_routes and kchange_route_metric: the kernel has this route in
  -- the zone.
  unfoldable pub stands_in : Placed → Bool
  unfolding leads
  stands_in rt1 =
      leads rt1
      && (is_lt (rt_cmp route.to rt1.to)
          && same_as route.to (min_conflict (inter route.to rt1.to) rt1.to installed))

  unfoldable pub each_zone : (Option Destination → KernelCall) → List Placed → List KernelCall
  unfolding stands_in
  each_zone change [] = []
  each_zone change (rt1 ∷ rest) =
      (if stands_in rt1 then change (inter route.to rt1.to) ∷ [] else []) ++ each_zone change rest

  abbrev pub own_zone : Option Placed → KernelCall
  own_zone none = add_call (some route.to) (some route)
  own_zone (some rt1) = chg_call (some route.to) rt1 route

  -- `disambiguates` is kernel_disambiguate, for IPv4 or IPv6.
  unfoldable pub install_calls : (Bool → Bool) → List KernelCall
  unfolding install_loop
  install_calls disambiguates =
      if disambiguates (v4mapped route.route.nexthop)
      then add_call (some route.to) (some route) ∷ []
      else install_loop installed ++ own_zone (conflict_solution route.to installed) ∷ []

  abbrev pub own_removal : Option Placed → KernelCall
  own_removal none = del_call (some route.to) (some route)
  own_removal (some rt1) = chg_call (some route.to) route rt1

  unfoldable pub uninstall_calls : (Bool → Bool) → List KernelCall
  unfolding uninstall_loop
  uninstall_calls disambiguates =
      if disambiguates (v4mapped route.route.nexthop)
      then del_call (some route.to) (some route) ∷ []
      else own_removal (conflict_solution route.to installed) ∷ uninstall_loop installed

-- The reply is to the last call, on the route's own zone: a route that is there already is installed.
unfoldable pub kinstall_route :
    (Bool → Bool) → Reply → List Placed → Placed → Bool × List KernelCall
unfolding install_calls
kinstall_route disambiguates failed installed route =
    (false, install_calls installed route disambiguates)
kinstall_route disambiguates accepted installed route =
    (true, install_calls installed route disambiguates)
kinstall_route disambiguates exists installed route =
    (true, install_calls installed route disambiguates)

abbrev is_accepted : Reply → Bool
is_accepted accepted = true
is_accepted exists = false
is_accepted failed = false

unfoldable pub kuninstall_route :
    (Bool → Bool) → Reply → List Placed → Placed → Bool × List KernelCall
unfolding uninstall_calls
kuninstall_route disambiguates reply installed route =
    (is_accepted reply, uninstall_calls installed route disambiguates)

-- A first call that fails ends the function.
abbrev if_accepted : Reply → KernelCall → List KernelCall → Bool × List KernelCall
if_accepted accepted first later = (true, first ∷ later)
if_accepted exists first later = (false, first ∷ [])
if_accepted failed first later = (false, first ∷ [])

unfoldable pub kswitch_routes :
    (Bool → Bool) → Reply → List Placed → Placed → Placed → Bool × List KernelCall
unfolding each_zone
kswitch_routes disambiguates reply installed old new =
    if_accepted reply (chg_call (some old.to) old new) (
      if disambiguates (v4mapped old.route.nexthop)
      then []
      else each_zone installed old (λ z. chg_call z old new) installed)

unfoldable pub kchange_route_metric :
    Node → (Bool → Bool) → Reply → List Placed → Placed → ℕ → ℕ → ℕ → Bool × List KernelCall
unfolding each_zone kernel_value
kchange_route_metric n disambiguates reply installed route refmetric cost add =
    let old_metric : ℕ = kernel_value n (route_metric route.route) in
    let new_metric : ℕ = kernel_value n (min (refmetric + cost + add) infinity) in
    if_accepted reply (chg_metric_call (some route.to) route old_metric new_metric) (
      if disambiguates (v4mapped route.route.nexthop)
      then []
      else each_zone installed route (λ z. chg_metric_call z route old_metric new_metric) installed)
