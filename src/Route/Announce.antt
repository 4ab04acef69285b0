-- ===== src/Route/Announce.antt =====
-- route.c: what is sent to the neighbours when an installed route has changed, and when an update
-- was not feasible.
use rabeld.Prelude.{
  ℕ, ◌+◌, ◌-◌, ◌≤◌, ◌<◌, ◌≡◌, arith, Bool, true, false, ltb, leb, ◌==◌, ◌&&◌, ◌||◌, not,
  if◌then◌else◌, List, [], ◌∷◌, Option, some, none,
}
use rabeld.Prelude.Int.{pos, ltb_ℤ}
use rabeld.Util.Seqno.{seqno_minus, seqno_plus}
use rabeld.Util.Timeval.{Timeval}
use rabeld.Source.{Source, infinity}
use rabeld.Resend.{Destination, Resend, unsatisfied_request}
use rabeld.Route.{BabelRoute}
use rabeld.Route.Metric.{route_metric}
use rabeld.Route.Table.{destination}

-- The messages, for a destination, to all interfaces (the neighbour of the unicast one is its
-- address); `urgent` is 0 or 1.
pub data Message : Type 0 where
  send_update_resend : Destination → Message
  send_update : ℕ → Destination → Message
  send_request : Destination → Message
  send_unicast_multihop_request : ℕ → Destination → ℕ → List ℕ → Message

-- The value of `urgent`, `none` for an early return.
unfoldable pub urgency : Bool → Bool → ℕ → ℕ → Option ℕ
urgency same_source unsatisfied oldmetric newmetric =
    let diff : ℕ =
      if leb oldmetric newmetric then newmetric - oldmetric else oldmetric - newmetric in
    if not same_source || ltb oldmetric infinity && leb infinity newmetric
    then some 2
    else (if ltb oldmetric newmetric && (ltb oldmetric 1536 && leb 512 diff)
        then some 1
        else (if unsatisfied
            then some 1
            else (if leb infinity oldmetric && ltb newmetric infinity
                then some 0
                else (if ltb newmetric oldmetric && ltb diff 1024
                    then none
                    else (if ltb diff 384 then none else some 0)))))

-- `oldsrc` is the address of the source that the route had.
unfoldable pub send_triggered_update :
    (ℕ → Source) → Timeval → List Resend → BabelRoute → ℕ → ℕ → List Message
send_triggered_update sources now to_resend route oldsrc oldmetric =
    let newmetric : ℕ = route_metric route in
    let src : Source = sources route.src in
    let d : Destination = destination src in
    if not route.installed
    then []
    else elim (urgency (route.src == oldsrc)
        (unsatisfied_request now d route.seqno src.id to_resend) oldmetric newmetric) [
          | none ↦ []
          | some urgent ↦
              (if leb 2 urgent then send_update_resend d else send_update urgent d)
              ∷ (if ltb oldmetric infinity
                  then (if leb (oldmetric + 288) newmetric then send_request d ∷ [] else [])
                  else [])
        ]

-- `installed` is what find_installed_route returns for the source.
unfoldable pub send_unfeasible_request :
    ℕ → Bool → ℕ → ℕ → Source → Option BabelRoute → List Message
send_unfeasible_request neigh force seqno metric src installed =
    let request : List Message =
      send_unicast_multihop_request neigh (destination src)
        (if leb infinity src.metric then src.seqno else seqno_plus src.seqno (pos 1)) src.id
      ∷ [] in
    if ltb_ℤ (pos 100) (seqno_minus src.seqno seqno)
    then []
    else (if force then request else (elim installed [
      | none ↦ request
      | some route ↦ if leb (metric + 512) (route_metric route) then request else []
    ]))

urgency-none :
    (same_source unsatisfied : Bool) (oldmetric newmetric : ℕ)
    → urgency same_source unsatisfied oldmetric newmetric ≡ none
    → (same_source ≡ true)
      × (unsatisfied ≡ false)
      × (newmetric < oldmetric + 384)
      × (oldmetric < newmetric + 1024)
unfolding urgency
urgency-none same_source unsatisfied oldmetric newmetric e = ground arith

urgency-lost :
    (same_source unsatisfied : Bool) (oldmetric newmetric : ℕ)
    → oldmetric < infinity
    → infinity ≤ newmetric
    → urgency same_source unsatisfied oldmetric newmetric ≡ some 2
unfolding urgency
urgency-lost same_source unsatisfied oldmetric newmetric lt le = ground arith

module _ (sources : ℕ → Source) (now : Timeval) (to_resend : List Resend) (route : BabelRoute)
    (oldsrc oldmetric : ℕ) (installed : route.installed ≡ true) where
  abbrev sent : List Message
  sent = send_triggered_update sources now to_resend route oldsrc oldmetric

  -- If nothing is sent for an installed route that has changed, then its source is the same, no
  -- request for it is unsatisfied, and its metric has risen by less than 384 and fallen by less than
  -- 1024.
  pub send_triggered_update-silent :
      send_triggered_update sources now to_resend route oldsrc oldmetric ≡ []
      → (route.src == oldsrc ≡ true)
        × (unsatisfied_request now
              (destination (sources route.src))
              route.seqno
              (sources route.src).id
              to_resend
            ≡ false)
        × (route_metric route < oldmetric + 384)
        × (oldmetric < route_metric route + 1024)
  unfolding send_triggered_update
  send_triggered_update-silent e =
      urgency-none (route.src == oldsrc)
        (unsatisfied_request now (destination (sources route.src)) route.seqno
          (sources route.src).id to_resend)
        oldmetric (route_metric route) (ground (arith, installed, e))

  -- When an installed route is lost, an update is sent that will be sent again. A request for another
  -- route follows if the metric was 288 or more below infinity.
  pub send_triggered_update-lost :
      oldmetric < infinity
      → infinity ≤ route_metric route
      → send_triggered_update sources now to_resend route oldsrc oldmetric
        ≡ send_update_resend (destination (sources route.src))
          ∷ (if leb (oldmetric + 288) infinity
              then send_request (destination (sources route.src)) ∷ []
              else [])
  unfolding send_triggered_update urgency route_metric
  send_triggered_update-lost lt le =
      let top : route_metric route ≡ infinity = unfold route_metric in ground arith in
      rw
        (
          installed,
          urgency-lost (route.src == oldsrc)
              (unsatisfied_request now (destination (sources route.src)) route.seqno
                (sources route.src).id to_resend)
              oldmetric (route_metric route) lt le,
        )
        (rw top (ground arith))
