-- ===== src/Message/Request/Forward.antt =====
-- message.c: what handle_request passes on, and when it raises the seqno.
use rabeld.Prelude.{
  ℕ, suc, ◌<◌, ◌≡◌, ◌⊎◌, refl, arith, Bool, true, false, ltb, ◌&&◌, leb, ◌==◌, if◌then◌else◌, List,
  [], ◌∷◌, Option, some, none, Bool-cases, inl, inr,
}
use rabeld.Route.{BabelRoute}
use rabeld.Route.Table.{find_installed_route}
use rabeld.Xroute.{find_xroute}
use rabeld.Util.Seqno.{seqno_compare, seqno_plus}
use rabeld.Prelude.Int.{pos}
use rabeld.Prelude.Bytes.{mem_eq, is_gt}
use rabeld.Message.Request.{
  is_hopeless, update_myseqno, is_dropped, pursue, Responder, SeqnoRequest, Requests, Reaction,
  answered, forwarded, handle_request, forward_request, answer_own, choose_successor, pass_on,
  is_repeated, satisfies, is_announced,
}

module _ (n : Responder) (r : SeqnoRequest) (s : Requests) where
  -- A request that is passed on: to another neighbour than the one it came from, with one hop less
  -- but at least one left, where no installed route answers it, and not again while it is redundant.
  abbrev pub IsSound : Reaction → Type 0
  IsSound answered = Unit
  IsSound (forwarded successor hops) =
      ((successor == r.neigh) ≡ false)
      × (suc hops ≡ r.hop_count)
      × (0 < hops)
      × (satisfies n r (find_installed_route n.sources r.to s.table) ≡ false)
      × (is_repeated n r s.resends ≡ false)

  abbrev pub AllSound : List Reaction → Type 0
  AllSound [] = Unit
  AllSound (a ∷ rest) = IsSound a × AllSound rest

  -- The node's seqno is raised by one at most, and only by a request for the node's own router-id and
  -- a seqno that is newer, but by no more than 100.
  abbrev pub RaisesOnDemand : Requests → Type 0
  RaisesOnDemand s' =
      (s'.myseqno ≡ s.myseqno)
      ⊎ ((s'.myseqno ≡ seqno_plus s.myseqno (pos 1))
          × (mem_eq 8 r.id n.myid ≡ true)
          × (is_gt (seqno_compare r.seqno s.myseqno) ≡ true)
          × (is_hopeless r.seqno s.myseqno ≡ false))

  abbrev IsGood : Requests × List Reaction → Type 0
  IsGood (s', reactions) = AllSound reactions × RaisesOnDemand s'

  pass_on-IsGood :
      (s' : Requests) (o : Option ℕ)
      → leb r.hop_count 1 ≡ false
      → satisfies n r (find_installed_route n.sources r.to s.table) ≡ false
      → is_repeated n r s.resends ≡ false
      → s'.myseqno ≡ s.myseqno
      → IsGood (pass_on n r s' o)
  pass_on-IsGood s' none h e f same = (tt, inl same)
  pass_on-IsGood s' (some successor) h e f same = elim (Bool-cases (successor == r.neigh)) [
    | inl back ↦ rw back (tt, inl same)
    | inr other ↦ rw other (((other, ground (arith, h), ground (arith, h), e, f), tt), inl same)
  ]

  either_way :
      (b : Bool) (x y : Requests × List Reaction)
      → (b ≡ true → IsGood x)
      → (b ≡ false → IsGood y)
      → IsGood (if b then x else y)
  either_way true x y h k = h refl
  either_way false x y h k = k refl

  answered-IsGood : IsGood (s, answered ∷ [])
  answered-IsGood = ((tt, tt), inl refl)

  answer_own-IsGood : IsGood (answer_own n r s)
  unfolding answer_own update_myseqno
  answer_own-IsGood =
      let raised : Requests = update_myseqno n.now s in
      either_way
        (ltb 0 r.hop_count && (mem_eq 8 r.id n.myid && is_gt (seqno_compare r.seqno s.myseqno)))
        (if is_hopeless r.seqno s.myseqno then (s, []) else (raised, answered ∷ []))
        (s, answered ∷ [])
        (λ newer.
          either_way (is_hopeless r.seqno s.myseqno) (s, []) (raised, answered ∷ [])
            (λ e. (tt, inl refl))
            (λ e. ((tt, tt), inr (refl, ground (arith, newer), ground (arith, newer), e))))
        (λ e. answered-IsGood)

  pursue-IsGood :
      satisfies n r (find_installed_route n.sources r.to s.table) ≡ false
      → IsGood (pursue n r (find_installed_route n.sources r.to s.table) s)
  unfolding pursue forward_request
  pursue-IsGood unmet =
      let route : Option BabelRoute = find_installed_route n.sources r.to s.table in
      either_way (is_dropped n r route s.resends) (s, []) (forward_request n r route s)
        (λ e. (tt, inl refl))
        (λ e.
          pass_on-IsGood _ (choose_successor n r route s.table).1 (ground (arith, e)) unmet
            (ground (arith, e)) refl)

  -- handle_request passes a request on only to a neighbour other than the one it came from, with a
  -- hop count that is one less and still positive, and only if the installed route does not answer
  -- it and it is not the repetition of a request that was passed on lately. It raises the node's own
  -- seqno by one at most, and only for a request with the node's router-id and a newer seqno, which
  -- is ahead by no more than 100.
  pub handle_request-RaisesOnDemand :
      AllSound (handle_request n r s).1 × RaisesOnDemand (handle_request n r s).0
  unfolding handle_request
  handle_request-RaisesOnDemand =
      let route : Option BabelRoute = find_installed_route n.sources r.to s.table in
      either_way (is_announced n (find_xroute r.to n.xroutes) route) (answer_own n r s)
        (if satisfies n r route then (s, answered ∷ []) else pursue n r route s)
        (λ own. answer_own-IsGood)
        (λ other.
          either_way (satisfies n r route) (s, answered ∷ []) (pursue n r route s)
            (λ e. answered-IsGood) pursue-IsGood)
