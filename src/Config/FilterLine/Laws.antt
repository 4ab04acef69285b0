-- ===== src/Config/FilterLine/Laws.antt =====
-- configuration.c: what holds of every filter that parse_filter returns.
use rabeld.Prelude.{
  ℕ, suc, ◌≤◌, ◌≡◌, arith, ◌==◌, ◌||◌, ◌&&◌, ltb, List, length, Option, some, none, Bool-cases,
  Option-cases, inl, inr, subst,
}
use rabeld.Prelude.Int.{ℤ, pos, negsuc}
use rabeld.Util.Text.{Libc, Net, bytes_of}
use rabeld.Source.{infinity}
use rabeld.Config.{Filter}
use rabeld.Config.Lexer.{getstring}
use rabeld.Config.Matching.{blank_filter}
use rabeld.Config.Values.{on_value, getint, getip, getid, getnet, parse_words}
use rabeld.Config.Values.Rounds.{
  left, Shortens, AllShorten, left-getstring, of_word-Shortens, on_value-Shortens,
}
use rabeld.Config.Values.Keeps.{Holds, HoldsOf, AllKeep, on_value-Keeps, parse_words-Keeps}
use rabeld.Config.FilterLine.{
  filter_keywords, change_ip, change_src_ip, change_eq, change_le, change_ge, change_src_eq,
  change_src_le, change_src_ge, change_metric, change_table, change_src_prefix, finish_filter,
  parse_filter_in, change_neigh, change_id, change_proto, change_interface, parse_filter,
  join_family, with_family, is_inet,
}

module _ (c : Libc) where
  getint-Shortens : Shortens (getint c)
  unfolding getint
  getint-Shortens = of_word-Shortens _

  getnet-Shortens : Shortens (getnet c)
  unfolding getnet
  getnet-Shortens = of_word-Shortens _

  getip-Shortens : Shortens (getip c)
  unfolding getip
  getip-Shortens = of_word-Shortens _

  getid-Shortens : Shortens (getid c)
  unfolding getid
  getid-Shortens = of_word-Shortens _

  getstring-Shortens : Shortens getstring
  getstring-Shortens cs = omega (arith, left-getstring cs)

  ints :
      (change : ℤ → Filter → Option Filter) (cs : List ℕ) (f : Filter)
      → left (on_value (getint c) change cs f) ≤ suc (length cs)
  ints change = on_value-Shortens (getint c) change getint-Shortens

  nets :
      (change : Net → Filter → Option Filter) (cs : List ℕ) (f : Filter)
      → left (on_value (getnet c) change cs f) ≤ suc (length cs)
  nets change = on_value-Shortens (getnet c) change getnet-Shortens

  pub filter_keywords-AllShorten : AllShorten (filter_keywords c)
  unfolding filter_keywords
  filter_keywords-AllShorten = (
    nets change_ip,
    (
      nets change_src_ip,
      (
        ints change_eq,
        (
          ints change_le,
          (
            ints change_ge,
            (
              ints change_src_eq,
              (
                ints change_src_le,
                (
                  ints change_src_ge,
                  (
                    on_value-Shortens (getip c) change_neigh getip-Shortens,
                    (
                      on_value-Shortens (getid c) change_id getid-Shortens,
                      (
                        ints change_proto,
                        (
                          λ cs f. omega arith,
                          (
                            on_value-Shortens getstring (change_interface c) getstring-Shortens,
                            (
                              λ cs f. omega arith,
                              (
                                λ cs f. omega arith,
                                (
                                  ints change_metric,
                                  (nets change_src_prefix, (ints change_table, tt)),
                                ),
                              ),
                            ),
                          ),
                        ),
                      ),
                    ),
                  ),
                ),
              ),
            ),
          ),
        ),
      ),
    ),
  )

-- The metric that a filter adds is at most infinity.
abbrev pub IsBounded : Filter → Type 0
IsBounded f = f.action.add_metric ≤ infinity

with_family-Keeps : (n : Net) (f : Filter) → IsBounded f → HoldsOf IsBounded (with_family n f)
with_family-Keeps n f h = elim (Option-cases (join_family f.af n.address)) [
  | inl e ↦ rw (e, with_family, HoldsOf) tt
  | inr (af, e) ↦ rw (e, with_family, HoldsOf) h
]

change_metric-Keeps : (p : ℤ) (f : Filter) → IsBounded f → HoldsOf IsBounded (change_metric p f)
change_metric-Keeps (negsuc n) f h = tt
change_metric-Keeps (pos n) f h = elim (Bool-cases (n == 0 || ltb infinity n)) [
  | inl e ↦ rw (e, HoldsOf) tt
  | inr e ↦ rw (e, HoldsOf) (ground arith)
]

change_table-Keeps : (p : ℤ) (f : Filter) → IsBounded f → HoldsOf IsBounded (change_table p f)
change_table-Keeps (negsuc n) f h = tt
change_table-Keeps (pos n) f h = elim (Bool-cases (n == 0 || ltb infinity n)) [
  | inl e ↦ rw (e, HoldsOf) tt
  | inr e ↦ rw (e, HoldsOf) h
]

change_src_prefix-Keeps :
    (n : Net) (f : Filter) → IsBounded f → HoldsOf IsBounded (change_src_prefix n f)
unfolding change_src_prefix
change_src_prefix-Keeps n f h = elim (Option-cases (with_family n f)) [
  | inl e ↦ rw (e, HoldsOf) tt
  | inr (f', e) ↦
      let h' : IsBounded f' = subst (HoldsOf IsBounded) e (with_family-Keeps n f h) in
      elim (Bool-cases (is_inet n.address && n.plen == 96)) [
        | inl y ↦ rw (e, HoldsOf) (rw (y, HoldsOf) (omega arith))
        | inr y ↦ rw (e, HoldsOf) (rw (y, HoldsOf) h')
      ]
]

finish_filter-IsBounded : (f : Filter) → IsBounded f → IsBounded (finish_filter f)
unfolding finish_filter
finish_filter-IsBounded f h = ground arith

finished :
    (o : Option (Filter × List ℕ)) (f : Filter) (rest : List ℕ)
    → Holds IsBounded o
    → ◌≡◌ {A = Option (Filter × List ℕ)}
        (elim o [ none ↦ none | some (g, left_over) ↦ some (finish_filter g, left_over) ])
        (some (f, rest))
    → IsBounded f
finished none f rest h e = cc
finished (some (g, left_over)) f rest h e = subst (Holds IsBounded) e (finish_filter-IsBounded g h)

filter_keywords-AllKeep : (c : Libc) → AllKeep IsBounded (filter_keywords c)
unfolding filter_keywords
filter_keywords-AllKeep c = (
  on_value-Keeps IsBounded (getnet c) change_ip (λ n f h.
      with_family-Keeps n (record f { prefix = some (bytes_of n.address); plen = n.plen }) h),
  (
    on_value-Keeps IsBounded (getnet c) change_src_ip (λ n f h.
        with_family-Keeps n (record f { src_prefix = some (bytes_of n.address); src_plen = n.plen })
          h),
    (
      on_value-Keeps IsBounded (getint c) change_eq (λ a f h. h),
      (
        on_value-Keeps IsBounded (getint c) change_le (λ a f h. h),
        (
          on_value-Keeps IsBounded (getint c) change_ge (λ a f h. h),
          (
            on_value-Keeps IsBounded (getint c) change_src_eq (λ a f h. h),
            (
              on_value-Keeps IsBounded (getint c) change_src_le (λ a f h. h),
              (
                on_value-Keeps IsBounded (getint c) change_src_ge (λ a f h. h),
                (
                  on_value-Keeps IsBounded (getip c) change_neigh (λ a f h. h),
                  (
                    on_value-Keeps IsBounded (getid c) change_id (λ a f h. h),
                    (
                      on_value-Keeps IsBounded (getint c) change_proto (λ a f h. h),
                      (
                        λ cs f h. h,
                        (
                          on_value-Keeps IsBounded getstring (change_interface c) (λ a f h. h),
                          (
                            λ cs f h. omega arith,
                            (
                              λ cs f h. omega arith,
                              (
                                on_value-Keeps IsBounded (getint c) change_metric
                                    change_metric-Keeps,
                                (
                                  on_value-Keeps IsBounded (getnet c) change_src_prefix
                                      change_src_prefix-Keeps,
                                  (
                                    on_value-Keeps IsBounded (getint c) change_table
                                        change_table-Keeps,
                                    tt,
                                  ),
                                ),
                              ),
                            ),
                          ),
                        ),
                      ),
                    ),
                  ),
                ),
              ),
            ),
          ),
        ),
      ),
    ),
  ),
)

-- A filter that parse_filter accepts adds a metric from 0 to INFINITY, whatever the line is.
pub parse_filter-IsBounded :
    (c : Libc) (cs : List ℕ) (f : Filter) (rest : List ℕ)
    → parse_filter c cs ≡ some (f, rest)
    → f.action.add_metric ≤ infinity
unfolding parse_filter parse_filter_in
parse_filter-IsBounded c cs f rest e =
    let o : Option (Filter × List ℕ) =
      parse_words (suc (length cs)) (filter_keywords c) cs blank_filter in
    let kept : Holds IsBounded o =
      parse_words-Keeps IsBounded (suc (length cs)) (filter_keywords c) cs blank_filter
        (filter_keywords-AllKeep c) (omega arith) in
    finished o f rest kept e
