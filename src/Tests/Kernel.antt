-- ===== src/Tests/Kernel.antt =====
-- The calls to the kernel for two routes that conflict.
use mathlib.Core.List.{Perm}
use rabeld.Prelude.{
  ℕ, ◌≡◌, refl, Bool, true, false, List, [], ◌∷◌, ◌++◌, map, replicate, some, none,
}
use rabeld.Util.Prefix.{prefix_cmp, v6_equal, v4mapped}
use rabeld.Resend.{Destination}
use rabeld.Route.{BabelRoute}
use rabeld.Route.Kernel.{
  Placed, conflicts, inter, rt_cmp, min_route, min_conflict, min_conflict_from, conflict_solution,
  solutions_from, solution_from, zone_equal,
}
use rabeld.Route.Kernel.Calls.{
  accepted, leads, install_loop, install_calls, kinstall_route, kuninstall_route, add_call,
}
use rabeld.Route.Kernel.Spares.{AllSparing, kinstall_route-AllSparing}
use rabeld.Route.Kernel.Undo.{undo, kuninstall_route-kinstall_route}

abbrev route_at : ℕ → BabelRoute
route_at n = record {
  handle = n;
  src = n;
  refmetric = 300;
  cost = 96;
  add_metric = 0;
  seqno = 7;
  neigh = 2;
  nexthop = replicate 16 1;
  time = 100;
  hold_time = 30;
  smoothed_metric = 400;
  smoothed_metric_time = 100;
  installed = true;
  channels = [];
}

abbrev narrow_source : Placed
narrow_source = record {
  route = route_at 1;
  to = record { prefix = replicate 16 0; plen = 0; src_prefix = 32 ∷ replicate 15 0; src_plen = 8 };
}

abbrev narrow_target : Placed
narrow_target = record {
  route = route_at 2;
  to = record { prefix = 48 ∷ replicate 15 0; plen = 8; src_prefix = replicate 16 0; src_plen = 0 };
}

abbrev both : Destination
both = record {
  prefix = 48 ∷ replicate 15 0;
  plen = 8;
  src_prefix = 32 ∷ replicate 15 0;
  src_plen = 8;
}

abbrev never : Bool → Bool
never v4 = false

-- The kernel gets the route with the more specific destination for the intersection.
two_calls :
    (kinstall_route never accepted (narrow_target ∷ []) narrow_source).1
    ≡ add_call (some both) (some narrow_target)
      ∷ add_call (some narrow_source.to) (some narrow_source)
      ∷ []
unfolding kinstall_route install_calls install_loop leads conflicts inter rt_cmp min_route
    min_conflict min_conflict_from conflict_solution solutions_from solution_from zone_equal
    prefix_cmp v6_equal v4mapped rabeld.Prelude.Bytes.memcmp
two_calls = refl

kinstall_route-AllSparing_example :
    AllSparing
      (narrow_target ∷ [])
      narrow_source
      (kinstall_route never accepted (narrow_target ∷ []) narrow_source).1
    × AllSparing
        (narrow_target ∷ [])
        narrow_source
        (kuninstall_route never accepted (narrow_target ∷ []) narrow_source).1
kinstall_route-AllSparing_example =
    kinstall_route-AllSparing (narrow_target ∷ []) narrow_source never accepted

kuninstall_route-kinstall_route_example :
    Perm
      (map undo (kinstall_route never accepted (narrow_target ∷ []) narrow_source).1)
      (kuninstall_route never accepted (narrow_target ∷ []) narrow_source).1
kuninstall_route-kinstall_route_example =
    kuninstall_route-kinstall_route (narrow_target ∷ []) narrow_source never accepted accepted
