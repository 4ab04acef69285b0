-- ===== src/Route/Kernel/Undo.antt =====
-- disambiguation.c: kuninstall_route against kinstall_route.
use mathlib.Core.List.{Perm, perm_append_singleton}
use mathlib.Core.List.Perm
use mathlib.Core.Path.{ap₂}
use rabeld.Prelude.{
  ◌≡◌, refl, Bool, true, false, if◌then◌else◌, List, [], ◌∷◌, ◌++◌, map, Option, some, none, ap,
  sym, ◌∙◌, subst,
}
use rabeld.Util.Prefix.{v4mapped}
use rabeld.Route.Kernel.{Placed, inter, min_conflict, conflict_solution}
use rabeld.Route.Kernel.Calls.{
  KernelCall, add_call, del_call, chg_call, chg_metric_call, Reply, accepted, exists, failed, leads,
  beats, install_zone, install_loop, uninstall_zone, uninstall_loop, own_zone, own_removal,
  install_calls, uninstall_calls, kinstall_route, kuninstall_route,
}

-- The call that takes back what a call has done.
abbrev pub undo : KernelCall → KernelCall
undo (add_call z r) = del_call z r
undo (del_call z r) = add_call z r
undo (chg_call z old new) = chg_call z new old
undo (chg_metric_call z r old new) = chg_metric_call z r new old

undo_append : (ks ms : List KernelCall) → map undo (ks ++ ms) ≡ map undo ks ++ map undo ms
undo_append [] ms = refl
undo_append (k ∷ ks) ms = ap (λ t. undo k ∷ t) (undo_append ks ms)

undo_if :
    (b : Bool) (ks ms : List KernelCall)
    → map undo ks ≡ ms
    → map undo (if b then ks else []) ≡ (if b then ms else [])
undo_if true ks ms e = e
undo_if false ks ms e = refl

undo_last :
    (ks ms : List KernelCall) (k m : KernelCall)
    → map undo ks ≡ ms
    → undo k ≡ m
    → Perm (map undo (ks ++ k ∷ [])) (m ∷ ms)
undo_last ks ms k m e f =
    subst (λ t. Perm t (m ∷ ms)) (sym (undo_append ks (k ∷ []) ∙ ap₂ (λ a b. a ++ b ∷ []) e f))
      (perm_append_singleton m ms)

perm_if :
    (b : Bool) (k : List KernelCall) (ks m ms : List KernelCall)
    → map undo k ≡ m
    → Perm (map undo ks) ms
    → Perm (map undo (if b then k else ks)) (if b then m else ms)
perm_if true k ks m ms e p = subst (λ t. Perm (map undo k) t) e (Perm.refl (map undo k))
perm_if false k ks m ms e p = p

module _ (installed : List Placed) (route : Placed) where
  undo-install_zone :
      (rt1 : Placed) (o : Option Placed)
      → map undo (install_zone installed route rt1 o) ≡ uninstall_zone installed route rt1 o
  undo-install_zone rt1 none = refl
  undo-install_zone rt1 (some rt2) = undo_if (beats installed route rt2 rt1) _ _ refl

  undo-install_loop :
      (rest : List Placed)
      → map undo (install_loop installed route rest) ≡ uninstall_loop installed route rest
  unfolding install_loop uninstall_loop
  undo-install_loop [] = refl
  undo-install_loop (rt1 ∷ rest) =
      undo_append _ (install_loop installed route rest)
      ∙ ap₂ (λ a b. a ++ b)
          (undo_if (leads installed route rt1) _ _
            (undo-install_zone rt1 (min_conflict (inter route.to rt1.to) rt1.to installed)))
          (undo-install_loop rest)

  undo-own_zone :
      (o : Option Placed) → undo (own_zone installed route o) ≡ own_removal installed route o
  undo-own_zone none = refl
  undo-own_zone (some rt1) = refl

  undo-install_calls :
      (disambiguates : Bool → Bool)
      → Perm
          (map undo (install_calls installed route disambiguates))
          (uninstall_calls installed route disambiguates)
  unfolding install_calls uninstall_calls
  undo-install_calls disambiguates =
      perm_if (disambiguates (v4mapped route.route.nexthop)) _ _ _ _ refl (
        undo_last _ _ _ _ (undo-install_loop installed)
          (undo-own_zone (conflict_solution route.to installed)))

  -- kuninstall_route takes back what kinstall_route did to the kernel while the same other routes
  -- were installed: its calls are, in another order, the calls of kinstall_route with each added route
  -- deleted and each change from one route to another made backwards.
  pub kuninstall_route-kinstall_route :
      (disambiguates : Bool → Bool) (reply later : Reply)
      → Perm
          (map undo (kinstall_route disambiguates reply installed route).1)
          (kuninstall_route disambiguates later installed route).1
  unfolding kinstall_route kuninstall_route
  kuninstall_route-kinstall_route disambiguates accepted later = undo-install_calls disambiguates
  kuninstall_route-kinstall_route disambiguates exists later = undo-install_calls disambiguates
  kuninstall_route-kinstall_route disambiguates failed later = undo-install_calls disambiguates
