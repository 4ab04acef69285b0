-- ===== src/Xroute/Check/Offered.antt =====
-- xroute.c: the second loop of check_xroutes, and both loops as one change of the map from
-- destinations to metrics.
use rabeld.Prelude.{
  ℕ, ◌≤◌, ◌<◌, ◌≡◌, ◌≢◌, refl, arith, Bool, true, false, leb, if◌then◌else◌, Bool-cases,
  Option-cases, inl, inr, List, [], ◌∷◌, get_or, length, length-set, length-append, Option, some,
  none, ap, subst, sym, ◌∙◌,
}
use rabeld.Util.Prefix.{martian_prefix}
use rabeld.Resend.{Destination}
use rabeld.Config.{Filters}
use rabeld.Xroute.{
  Xroute, XrouteTable, Added, no_memory, Notice, same_destination, find_xroute, add_xroute,
  make_room, blank,
}
use rabeld.Xroute.Map.{lookup, AllDistinct, lookup-cong}
use rabeld.Xroute.Add.{metric_of, best, IsAdded, KeepsMap, add_xroute-IsAdded}
use rabeld.Xroute.Check.{
  KernelRoute, redistributed, finite, offered, note_added, add_loop, check_table, Checked,
  is_exported,
}
use rabeld.Xroute.Check.Exported.{keep_if, flush_loop-Flushed}

-- A result other than no_memory, with an array that has room for its elements.
abbrev IsRoomy : XrouteTable × Added × List Notice → Type 0
IsRoomy r = (r.1 ≢ no_memory) × (length r.0.xroutes ≤ r.0.maxxroutes)

make_room-lt :
    (t : XrouteTable)
    → length t.xroutes ≤ t.maxxroutes
    → length t.xroutes < (make_room true t).maxxroutes
unfolding make_room
make_room-lt t fits = ground arith

-- With memory, add_xroute always finds room.
add_xroute-IsRoomy :
    (d : Destination) (metric ifindex proto : ℕ) (t : XrouteTable)
    → length t.xroutes ≤ t.maxxroutes
    → IsRoomy (add_xroute true d metric ifindex proto t)
unfolding add_xroute
add_xroute-IsRoomy d metric ifindex proto t fits = elim (Option-cases (find_xroute d t.xroutes)) [
  | inr (i, e) ↦
      let x : Xroute = get_or t.xroutes i blank in
      elim (Bool-cases (leb x.metric metric)) [
        | inl y ↦ rw (e, add_xroute) (rw y (λ q. cc, fits))
        | inr n ↦
            rw (e, add_xroute)
              (rw n (
                λ q. cc,
                omega (arith, length-set t.xroutes i (record x { metric = metric }), fits),
              ))
      ]
  | inl e ↦
      let x : Xroute = record { to = d; metric = metric; ifindex = ifindex; proto = proto } in
      let room : length t.xroutes < (make_room true t).maxxroutes = make_room-lt t fits in
      let enough : leb (make_room true t).maxxroutes (length t.xroutes) ≡ false =
        ground (arith, room) in
      rw (e, add_xroute)
        (rw enough (λ q. cc, omega (arith, length-append t.xroutes (x ∷ []), room)))
]

-- The metric with which a kernel's route is offered, `none` for one that is not.
unfoldable pub offer : Filters → KernelRoute → Option ℕ
offer c r =
    if martian_prefix r.to.prefix r.to.plen
    then none
    else finite (redistributed c r.to r.ifindex r.proto)

abbrev pub with_offer : Option ℕ → Option ℕ → Option ℕ
with_offer none old = old
with_offer (some metric) old = best old metric

-- The metric of a destination after some routes are offered: the smallest of the old one and of
-- those with which the routes to this destination are offered.
unfoldable pub offers : Filters → List KernelRoute → Destination → Option ℕ → Option ℕ
unfolding offer
offers c [] d old = old
offers c (r ∷ rs) d old =
    offers c rs d (if same_destination d r.to then with_offer (offer c r) old else old)

abbrev Loop : Filters → List KernelRoute → XrouteTable → XrouteTable × List KernelRoute → Type 0
Loop c rs t r =
    AllDistinct r.0.xroutes
    × ((d : Destination)
        → metric_of (lookup d r.0.xroutes) ≡ offers c rs d (metric_of (lookup d t.xroutes)))

not_no_memory :
    (d : Destination) (metric : ℕ) (t : XrouteTable) (h : AllDistinct t.xroutes)
    (r : XrouteTable × Added × List Notice)
    → KeepsMap d metric t h r
    → r.1 ≢ no_memory
    → IsAdded d metric t.xroutes r.0.xroutes
not_no_memory d metric t h r (distinct, inl (bad, same)) n = absurd (n bad)
not_no_memory d metric t h r (distinct, inr is_added) n = is_added

same_if {ℓ} : {A : Type ℓ} (b : Bool) (x : A) → x ≡ (if b then x else x)
same_if true x = refl
same_if false x = refl

offered-offer :
    (c : Filters) (r : KernelRoute) (t : XrouteTable)
    → offered true c r t ≡ elim (offer c r) [
      | none ↦ none
      | some metric ↦ some (add_xroute true r.to metric r.ifindex r.proto t)
    ]
unfolding offer
offered-offer c r t = elim (Bool-cases (martian_prefix r.to.prefix r.to.plen)) [
  | inl m ↦ rw m refl
  | inr m ↦ rw m refl
]

module _ (c : Filters) (r : KernelRoute) (rs : List KernelRoute) (t : XrouteTable) where
  abbrev loop_from : Option (XrouteTable × Added × List Notice) → XrouteTable × List KernelRoute
  loop_from none = add_loop true c rs t
  loop_from (some (t', result, notices)) =
      note_added r (t', result, notices) (add_loop true c rs t')

  loop_step :
      (o : Option (XrouteTable × Added × List Notice))
      → offered true c r t ≡ o
      → add_loop true c (r ∷ rs) t ≡ loop_from o
  unfolding add_loop
  loop_step o e =
      ap
        (λ p. elim p [
          | none ↦ add_loop true c rs t
          | some (t', result, notices) ↦ note_added r (t', result, notices) (add_loop true c rs t')
        ])
        e
      ∙ cases o
    where
      cases :
          (p : Option (XrouteTable × Added × List Notice))
          → ◌≡◌ {A = XrouteTable × List KernelRoute}
              (elim p [
                | none ↦ add_loop true c rs t
                | some (t', result, notices) ↦
                    note_added r (t', result, notices) (add_loop true c rs t')
              ])
              (loop_from p)
      cases none = refl
      cases (some q) = refl

-- Offering a metric to a destination, by what add_xroute does.
best_here :
    (d e : Destination) (metric : ℕ) (xs : List Xroute)
    → (if same_destination d e
        then best (metric_of (lookup e xs)) metric
        else metric_of (lookup d xs))
      ≡ (if same_destination d e
          then with_offer (some metric) (metric_of (lookup d xs))
          else metric_of (lookup d xs))
best_here d e metric xs = elim (Bool-cases (same_destination d e)) [
  | inl y ↦ rw (y, lookup-cong d e xs y) refl
  | inr n ↦ rw n refl
]

add_loop-Loop :
    (c : Filters) (rs : List KernelRoute) (t : XrouteTable)
    → AllDistinct t.xroutes
    → length t.xroutes ≤ t.maxxroutes
    → Loop c rs t (add_loop true c rs t)
unfolding add_loop offers
add_loop-Loop c [] t h fits = (h, λ d. refl)
add_loop-Loop c (r ∷ rs) t h fits = elim (Option-cases (offer c r)) [
  | inl e ↦
      let (distinct, look) = add_loop-Loop c rs t h fits in
      let step = loop_step c r rs t none (offered-offer c r t ∙ rw e refl) in
      subst (Loop c (r ∷ rs) t) (sym step) (
        distinct,
        λ d.
            look d
            ∙ ap (offers c rs d) (
                same_if (same_destination d r.to) (metric_of (lookup d t.xroutes))
                ∙ ap
                    (λ o.
                      if same_destination d r.to
                      then with_offer o (metric_of (lookup d t.xroutes))
                      else metric_of (lookup d t.xroutes))
                    (sym e)),
      )
  | inr (metric, e) ↦
      let result = add_xroute true r.to metric r.ifindex r.proto t in
      let (room, fits') = add_xroute-IsRoomy r.to metric r.ifindex r.proto t fits in
      let keeps = add_xroute-IsAdded true r.to metric r.ifindex r.proto t h in
      let is_added = not_no_memory r.to metric t h result keeps room in
      let (distinct, look) = add_loop-Loop c rs result.0 keeps.0 fits' in
      let step = loop_step c r rs t (some result) (offered-offer c r t ∙ rw e refl) in
      subst (Loop c (r ∷ rs) t) (sym step) (
        distinct,
        λ d.
            look d
            ∙ ap (offers c rs d) (
                is_added d
                ∙ best_here d r.to metric t.xroutes
                ∙ ap
                    (λ o.
                      if same_destination d r.to
                      then with_offer o (metric_of (lookup d t.xroutes))
                      else metric_of (lookup d t.xroutes))
                    (sym e)),
      )
]

-- check_xroutes as a change of the map from destinations to metrics, with memory: what the array had
-- for a destination is kept if it is still exported, and then the smallest of it and of the metrics
-- with which the kernel's routes to this destination are offered stands there. No destination stands
-- twice afterwards, and no assertion fails.
pub check_table-lookup :
    (c : Filters) (routes : List KernelRoute) (t : XrouteTable)
    → AllDistinct t.xroutes
    → length t.xroutes ≤ t.maxxroutes
    → (r : Checked) × (check_table true c routes t ≡ some r)
      × AllDistinct r.table.xroutes
      × ((d : Destination)
          → metric_of (lookup d r.table.xroutes)
            ≡ offers c routes d (metric_of (keep_if (is_exported c routes) (lookup d t.xroutes))))
unfolding check_table
check_table-lookup c routes t h fits =
    let (t', flushed, e, distinct', fits', look) =
      flush_loop-Flushed true c routes (length t.xroutes) 0 t (omega arith) h fits
        (λ j below. absurd (omega arith)) in
    let (distinct, looked) = add_loop-Loop c routes t' distinct' fits' in
    (
      record {
        table = (add_loop true c routes t').0;
        flushed = flushed;
        added_routes = (add_loop true c routes t').1;
      },
      rw (e, check_table) refl,
      distinct,
      λ d. looked d ∙ ap (λ o. offers c routes d (metric_of o)) (look d),
    )
