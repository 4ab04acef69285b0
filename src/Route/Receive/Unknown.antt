-- ===== src/Route/Receive/Unknown.antt =====
-- route.c: an update for a route that is not known yet never reaches the kernel unless it is feasible.
use rabeld.Prelude.{
  ℕ, ◌+◌, ◌≡◌, refl, arith, Bool, true, false, ◌==◌, ◌||◌, not, if◌then◌else◌, leb, ltb, List, [],
  ◌∷◌, ◌++◌, map, Option, some, none, ap, sym, ◌∙◌, subst,
}
use rabeld.Source.{Source, infinity, retain_source}
use rabeld.Route.{BabelRoute}
use rabeld.Route.Feasible.{update_feasible}
use rabeld.Route.Table.{RouteTable, Event, notify_add, notify_change, notify_flush, switch_routes}
use rabeld.Route.Select.{route_feasible}
use rabeld.Route.Announce.{Message}
use rabeld.Route.Consider.{
  Setting, Effect, kernel, announce, send_request_resend, consider_route, choose, Choice, stay,
  install, announcement, load,
}
use rabeld.Route.Update.{Node, Replies, write_source, and_then}
use rabeld.Route.Receive.{
  Arrival, SourceHeap, Received, received, receive_unknown, add_route, new_route, inserted,
  with_sources, request_if, put_in,
}

-- Calls of the local interface.
abbrev pub IsNotice : Event → Type 0
IsNotice (notify_change r) = Unit
IsNotice (notify_add r) = Unit
IsNotice (notify_flush r) = Unit
IsNotice _ = ⊥

-- Calls that do not change the kernel's table.
abbrev pub IsQuiet : Effect → Type 0
IsQuiet (kernel e) = IsNotice e
IsQuiet (announce m) = Unit
IsQuiet (send_request_resend d seqno id) = Unit

abbrev pub AllQuiet : List Effect → Type 0
AllQuiet [] = Unit
AllQuiet (e ∷ es) = IsQuiet e × AllQuiet es

announce-AllQuiet : (ms : List Message) → AllQuiet (map announce ms)
announce-AllQuiet [] = tt
announce-AllQuiet (m ∷ ms) = (tt, announce-AllQuiet ms)

AllQuiet-append : (es fs : List Effect) → AllQuiet es → AllQuiet fs → AllQuiet (es ++ fs)
AllQuiet-append [] fs h k = k
AllQuiet-append (e ∷ es) fs (q, h) k = (q, AllQuiet-append es fs h k)

-- What is called, if no assertion fails.
abbrev pub QuietIfSome : Option (RouteTable × List Effect) → Type 0
QuietIfSome none = Unit
QuietIfSome (some (t, es)) = AllQuiet es

and_then-Quiet :
    (es : List Effect) (o : Option (RouteTable × List Effect))
    → AllQuiet es
    → QuietIfSome o
    → QuietIfSome (and_then es o)
and_then-Quiet es none h k = tt
and_then-Quiet es (some (t, fs)) h k = AllQuiet-append es fs h k

passed {ℓ} :
    {A : Type ℓ} (b c : Bool) (x y : A)
    → c ≡ false
    → (if b then x else (if not c then x else y)) ≡ x
passed true c x y e = refl
passed false false x y e = refl
passed false true x y e = absurd (ground (arith, e))

choose-stay :
    (s : Setting) (route : BabelRoute) (t : RouteTable)
    → route_feasible s.sources s.smoothing.now route ≡ false
    → choose s route t ≡ stay t
unfolding choose
choose-stay s route t e =
    passed route.installed (route_feasible s.sources s.smoothing.now route) (stay t) _ e

abbrev consider_from : Setting → Bool → BabelRoute → Choice → Option (RouteTable × List Effect)
consider_from s ok route c = elim c [
  | stay t' ↦ some (t', [])
  | install old new t' ↦ elim (switch_routes s.sources ok old new t') [
    | none ↦ none
    | some (t'', events) ↦
        some (t'', map kernel events ++ map announce (announcement s old (load s.sources new t'')))
  ]
]

consider_route-Quiet :
    (s : Setting) (ok : Bool) (route : BabelRoute) (t : RouteTable)
    → route_feasible s.sources s.smoothing.now route ≡ false
    → QuietIfSome (consider_route s ok route t)
unfolding consider_route
consider_route-Quiet s ok route t e =
    subst (λ c. QuietIfSome (consider_from s ok route c)) (sym (choose-stay s route t e)) tt

inserted-Quiet :
    (n : Node) (replies : Replies) (route : BabelRoute) (p : RouteTable × Bool)
    → route_feasible n.setting.sources n.setting.smoothing.now route ≡ false
    → QuietIfSome (inserted n replies route p)
inserted-Quiet n replies route (t, false) e = tt
inserted-Quiet n replies route (t, true) e =
    and_then-Quiet (kernel (notify_add route.handle) ∷ [])
      (consider_route n.setting replies.considered_ok route t) (tt, tt)
      (consider_route-Quiet n.setting replies.considered_ok route t e)

only_some :
    (b : Bool) (x y : Source)
    → ◌≡◌ {A = Option Source} (if b then some x else none) (some y)
    → x ≡ y
only_some true x y e = cc
only_some false x y e = cc

retain_source-feasible :
    (now seqno metric : ℕ) (src kept : Source)
    → retain_source src ≡ some kept
    → update_feasible now (some kept) seqno metric ≡ update_feasible now (some src) seqno metric
unfolding retain_source update_feasible
retain_source-feasible now seqno metric src kept e =
    subst
      (λ k. update_feasible now (some k) seqno metric ≡ update_feasible now (some src) seqno metric)
      (only_some (ltb src.route_count 0xFFFF) (record src { route_count = src.route_count + 1 })
        kept e)
      refl

==-refl : (m : ℕ) → (m == m) ≡ true
==-refl m = ground arith

abbrev pub QuietReceived : Option Received → Type 0
QuietReceived none = Unit
QuietReceived (some r) = AllQuiet r.effects

received-Quiet :
    (h : SourceHeap) (sources : ℕ → Source) (route : Option ℕ)
    (o : Option (RouteTable × List Effect))
    → QuietIfSome o
    → QuietReceived (received h sources route o)
received-Quiet h sources route none q = tt
received-Quiet h sources route (some (t, es)) q = q

quiet_if :
    (b : Bool) (o o' : Option Received)
    → QuietReceived o
    → QuietReceived o'
    → QuietReceived (if b then o else o')
quiet_if true o o' h k = h
quiet_if false o o' h k = k

module _ (n : Node) (replies : Replies) (a : Arrival) (src : ℕ) (h : SourceHeap) (t : RouteTable)
    (bad : update_feasible n.setting.smoothing.now
        (some (h.cells src))
        a.update.seqno
        a.update.metric
      ≡ false) where
  put_in-Quiet :
      (request : List Effect) (o : Option Source)
      → AllQuiet request
      → retain_source (h.cells src) ≡ o
      → QuietReceived (put_in n replies a src h t request o)
  unfolding add_route route_feasible new_route write_source
  put_in-Quiet request none q e = tt
  put_in-Quiet request (some kept) q e =
      let sources : ℕ → Source = write_source h.cells src kept in
      let here : sources src ≡ kept = rw (==-refl src) refl in
      received-Quiet h sources _
        (and_then request (add_route (with_sources n sources) replies a src t))
        (and_then-Quiet request (add_route (with_sources n sources) replies a src t) q (
          inserted-Quiet (with_sources n sources) replies (new_route n a src) _ (
            ap
              (λ k. update_feasible n.setting.smoothing.now (some k) a.update.seqno a.update.metric)
              here
            ∙ (retain_source-feasible n.setting.smoothing.now a.update.seqno a.update.metric
                  (h.cells src) kept e
                ∙ bad))))

  -- An update for a route that is not known, and which is not feasible, has the kernel's table left
  -- as it is: whatever is called then, no route is installed, taken out or changed there, also if
  -- keep-unfeasible has the route put into the table.
  pub receive_unknown-Quiet : QuietReceived (receive_unknown n replies a false src h t)
  unfolding receive_unknown
  receive_unknown-Quiet =
      let request : List Effect = request_if n a false src h t in
      quiet_if (leb infinity a.update.metric) _ _ tt (
        quiet_if (not n.keep_unfeasible || not a.memory.calloc) _ _ (announce-AllQuiet _)
          (put_in-Quiet request (retain_source (h.cells src)) (announce-AllQuiet _) refl))
