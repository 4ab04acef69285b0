-- ===== src/Config/Line/Laws.antt =====
-- configuration.c: what a line of the configuration can do.
use rabeld.Prelude.{
  ℕ, ◌<◌, ◌≡◌, refl, arith, true, false, ◌&&◌, not, List, Option, some, none, Bool-cases,
  Option-cases, inl, inr,
}
use rabeld.Prelude.Int.{pos}
use rabeld.Util.Text.{Libc}
use rabeld.Config.Lexer.{codes, is_word, skip_eol, getword, skip_whitespace, at_eol}
use rabeld.Config.Values.{getint}
use rabeld.Config.Options.{Options, refused, aborted, done, parse_option, set_small}
use rabeld.Config.Line.{
  Config, ConfigAction, quit, dump, monitor, unmonitor, Caller, LineResult, parse_config_line,
  parse_directive, with_action,
}

-- The option allow-duplicates, which may stand in the configuration file, aborts the daemon with
-- every value that it takes.
pub parse_option-aborted :
    (c : Libc) (cs rest : List ℕ) (v : ℕ) (o : Options)
    → getint c cs ≡ some (pos v, rest)
    → 0 < v
    → v < 0xFFFF
    → parse_option c false (codes "allow-duplicates") cs o ≡ aborted
unfolding parse_option set_small is_word
parse_option-aborted c cs rest v o e low high = rw e (ground arith)

-- A line leaves the state as it was, also where it is refused.
abbrev pub Leaves : Config → LineResult → Type 0
Leaves s (refused (s', a)) = s' ≡ s
Leaves s aborted = ⊥
Leaves s (done (s', a) rest) = s' ≡ s

with_action-Leaves :
    (c : Caller) (a : ConfigAction) (s : Config) (o : Option (List ℕ))
    → Leaves s (with_action c a s o)
with_action-Leaves c a s none = refl
with_action-Leaves c a s (some rest) = elim (Bool-cases (c.wants_action)) [
  | inl e ↦ rw (e, with_action) refl
  | inr e ↦ rw (e, with_action) refl
]

directive :
    (c : Caller) (token cs : List ℕ) (s : Config)
    → s.config_finalised && not s.options.local_server_write ≡ true
    → Leaves s (parse_directive c token cs s)
unfolding parse_directive
directive c token cs s closed =
    let o : Option (List ℕ) = skip_eol cs in
    elim (Bool-cases (is_word token (codes "quit"))) [
      | inl e ↦ rw e (with_action-Leaves c quit s o)
      | inr e ↦ elim (Bool-cases (is_word token (codes "dump"))) [
        | inl e' ↦ rw (e, e') (with_action-Leaves c dump s o)
        | inr e' ↦ elim (Bool-cases (is_word token (codes "monitor"))) [
          | inl e'' ↦ rw (e, e', e'') (with_action-Leaves c monitor s o)
          | inr e'' ↦ elim (Bool-cases (is_word token (codes "unmonitor"))) [
            | inl u ↦ rw (e, e', e'', u) (with_action-Leaves c unmonitor s o)
            | inr u ↦ rw (e, e', e'', u, closed) refl
          ]
        ]
      ]
    ]

-- Once the configuration is final, a client without the right to write changes nothing, and cannot
-- make the daemon abort, whatever line it sends.
pub parse_config_line-read_only :
    (c : Caller) (cs : List ℕ) (s : Config)
    → s.config_finalised && not s.options.local_server_write ≡ true
    → Leaves s (parse_config_line c cs s)
unfolding parse_config_line parse_directive
parse_config_line-read_only c cs s closed = elim (Bool-cases (at_eol (skip_whitespace cs))) [
  | inl e ↦ rw e refl
  | inr e ↦ elim (Option-cases (getword (skip_whitespace cs))) [
    | inl w ↦ rw (e, w, Leaves) refl
    | inr ((token, rest), w) ↦ rw (e, w, Leaves) (directive c token rest s closed)
  ]
]
