-- ===== src/Xroute/Check/Local.antt =====
-- xroute.c, kernel.h and configuration.c: what becomes of the addresses of this host.
use rabeld.Prelude.{◌≡◌, refl, false, Bool-cases, inl, inr, none, ap, ◌∙◌}
use rabeld.Prelude.Int.{pos}
use rabeld.Util.Prefix.{martian_prefix, zeroes}
use rabeld.Source.{infinity}
use rabeld.Config.{Filters}
use rabeld.Config.Matching.{finalise_filters, route_query, no_result}
use rabeld.Config.Matching.First.{matches_any, redistribute_filter-finalise_filters}
use rabeld.Xroute.Check.{KernelAddr, route_of_address, redistributed, finite, local_proto}
use rabeld.Xroute.Check.Offered.{offer}

-- An address of this host that no filter of the configuration matches is not redistributed: the filter
-- for local addresses, which finalise_config adds, never matches one.
pub offer-route_of_address :
    (c : Filters) (a : KernelAddr)
    → matches_any c.redistribute_filters
        (route_query (route_of_address a).to.prefix 128 zeroes 0 a.ifindex (pos local_proto))
      ≡ false
    → offer (finalise_filters c) (route_of_address a) ≡ none
unfolding offer
offer-route_of_address c a e =
    let refused : redistributed (finalise_filters c) (route_of_address a).to a.ifindex local_proto
        ≡ (pos infinity, no_result) =
      redistribute_filter-finalise_filters c (route_of_address a).to.prefix 128 zeroes 0 a.ifindex
        (pos local_proto)
      ∙ rw e refl in
    elim (Bool-cases (martian_prefix (route_of_address a).to.prefix 128)) [
      | inl m ↦ rw m refl
      | inr m ↦ rw m (ap finite refused)
    ]
