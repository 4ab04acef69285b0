-- ===== src/Config/Options.antt =====
-- configuration.c: parse_option, the options of the daemon.
use rabeld.Prelude.{
  ℕ, ltb, Bool, true, false, ◌&&◌, ◌||◌, not, if◌then◌else◌, List, [], ◌∷◌, ◌++◌, Option, some,
  none,
}
use rabeld.Prelude.Int.{ℤ, pos, negsuc}
use rabeld.Util.Text.{Libc, bytes_of, is_digit}
use rabeld.Route.Metric.{HalfLife, change_smoothing_half_life}
use rabeld.Config.Lexer.{codes, is_word, skip_whitespace, skip_eol, getstring}
use rabeld.Config.Values.{BoolChoice, default, no_choice, yes_choice, getint, getbool, getip, getid}
use rabeld.Config.IfConf.{InterfaceConf}

-- What the configuration has the other parts do.
pub data ConfigCall : Type 0 where
  reopen_logfile : ConfigCall
  add_import_table : ℕ → ConfigCall
  add_interface : InterfaceConf → ConfigCall
  flush_interface : List ℕ → ConfigCall

-- The global variables that options set. NULL, and a negative port or limit, is `none`; `calls` is
-- what has been called so far.
pub record Options : Type 0 where
  pub protocol_port : ℕ
  pub kernel_metric : ℕ
  pub allow_duplicates : Option ℕ
  pub local_server_port : Option ℕ
  pub local_server_path : Option (List ℕ)
  pub local_server_write : Bool
  pub export_table : ℕ
  pub keep_unfeasible : Bool
  pub link_detect : Bool
  pub random_id : Bool
  pub do_daemonise : Bool
  pub skip_kernel_setup : Bool
  pub has_ipv6_subtrees : Bool
  pub reflect_kernel_metric : Bool
  pub protocol_group : List ℕ
  pub state_file : Option (List ℕ)
  pub logfile : Option (List ℕ)
  pub pidfile : Option (List ℕ)
  pub debug : ℕ
  pub diversity_kind : ℤ
  pub diversity_factor : ℕ
  pub smoothing : HalfLife
  pub src_table_idx : ℕ
  pub src_table_prio : ℕ
  pub myid : Option (List ℕ)
  pub calls : List ConfigCall

abbrev pub call : ConfigCall → Options → Options
call c o = record o { calls = o.calls ++ c ∷ [] }

-- A return of -2, with the state by then; a call of abort; and the state and the rest of the text.
pub data Outcome (S : Type 0) : Type 0 where
  refused : S → Outcome S
  aborted : Outcome S
  done : S → List ℕ → Outcome S

abbrev is_one_of : List ℕ → List (List ℕ) → Bool
is_one_of token [] = false
is_one_of token (w ∷ ws) = is_word token w || is_one_of token ws

-- The options that are allowed at runtime.
abbrev pub runtime_options : List (List ℕ)
runtime_options =
    codes "keep-unfeasible"
    ∷ codes "link-detect"
    ∷ codes "log-file"
    ∷ codes "diversity"
    ∷ codes "diversity-factor"
    ∷ codes "smoothing-half-life"
    ∷ []

abbrev pub small_options : List (List ℕ)
small_options =
    codes "protocol-port"
    ∷ codes "kernel-priority"
    ∷ codes "allow-duplicates"
    ∷ codes "local-port"
    ∷ codes "local-port-readwrite"
    ∷ codes "export-table"
    ∷ codes "import-table"
    ∷ []

abbrev pub bool_options : List (List ℕ)
bool_options =
    codes "keep-unfeasible"
    ∷ codes "link-detect"
    ∷ codes "random-id"
    ∷ codes "daemonise"
    ∷ codes "skip-kernel-setup"
    ∷ codes "ipv6-subtrees"
    ∷ codes "reflect-kernel-metric"
    ∷ []

abbrev pub file_options : List (List ℕ)
file_options =
    codes "state-file"
    ∷ codes "log-file"
    ∷ codes "pid-file"
    ∷ codes "local-path"
    ∷ codes "local-path-readwrite"
    ∷ []

-- What is set from a value; the last branch of each chain is abort, here `none`.
abbrev pub serve_port : ℕ → Bool → Options → Options
serve_port v write o = record o {
  local_server_port = some v;
  local_server_path = none;
  local_server_write = write;
}

unfoldable pub set_small : List ℕ → ℕ → Options → Option Options
set_small token v o =
    if is_word token (codes "protocol-port")
    then some (record o { protocol_port = v })
    else (if is_word token (codes "kernel-priority")
        then some (record o { kernel_metric = v })
        else (if is_word token (codes "allow_duplicates")
            then some (record o { allow_duplicates = some v })
            else (if is_word token (codes "local-port")
                then some (serve_port v false o)
                else (if is_word token (codes "local-port-readwrite")
                    then some (serve_port v true o)
                    else (if is_word token (codes "export-table")
                        then some (record o { export_table = v })
                        else (if is_word token (codes "import-table")
                            then some (call (add_import_table v) o)
                            else none))))))

unfoldable pub set_bool : List ℕ → Bool → Options → Option Options
set_bool token b o =
    if is_word token (codes "keep-unfeasible")
    then some (record o { keep_unfeasible = b })
    else (if is_word token (codes "link-detect")
        then some (record o { link_detect = b })
        else (if is_word token (codes "random-id")
            then some (record o { random_id = b })
            else (if is_word token (codes "daemonise")
                then some (record o { do_daemonise = b })
                else (if is_word token (codes "skip-kernel-setup")
                    then some (record o { skip_kernel_setup = b })
                    else (if is_word token (codes "ipv6-subtrees")
                        then some (record o { has_ipv6_subtrees = b })
                        else (if is_word token (codes "reflect-kernel-metric")
                            then some (record o { reflect_kernel_metric = b })
                            else none))))))

abbrev pub serve_path : List ℕ → Bool → Options → Options
serve_path file write o = record o {
  local_server_port = none;
  local_server_path = some file;
  local_server_write = write;
}

unfoldable pub set_file : Bool → List ℕ → List ℕ → Options → Option Options
set_file finalised token file o =
    if is_word token (codes "state-file")
    then some (record o { state_file = some file })
    else (if is_word token (codes "log-file")
        then some (
            let o' : Options = record o { logfile = some file } in
            if finalised then call reopen_logfile o' else o')
        else (if is_word token (codes "pid-file")
            then some (record o { pidfile = some file })
            else (if is_word token (codes "local-path")
                then some (serve_path file false o)
                else (if is_word token (codes "local-path-readwrite")
                    then some (serve_path file true o)
                    else none))))

-- The end of parse_option: the line must end behind the value.
abbrev pub ended : Options → List ℕ → Outcome Options
ended o rest = elim (skip_eol rest) [ none ↦ refused o | some rest' ↦ done o rest' ]

abbrev or_abort : Option Options → List ℕ → Outcome Options
or_abort none rest = aborted
or_abort (some o) rest = ended o rest

abbrev or_error : Options → Option Options → List ℕ → Outcome Options
or_error o none rest = refused o
or_error o (some o') rest = ended o' rest

abbrev pub reading :
    {A : Type 0} → Options → Option (A × List ℕ) → (A → List ℕ → Outcome Options) → Outcome Options
reading o none k = refused o
reading o (some (a, rest)) k = k a rest

-- An int from `low` up to `high`.
abbrev between : ℕ → ℕ → ℤ → Option ℕ
between low high (pos n) = if ltb n low || ltb high n then none else some n
between low high (negsuc n) = none

abbrev changed : Option ℕ → (ℕ → Options) → Option Options
changed none f = none
changed (some n) f = some (f n)

abbrev is_yes : BoolChoice → Bool
is_yes default = false
is_yes no_choice = false
is_yes yes_choice = true

abbrev starts_digit : List ℕ → Bool
starts_digit [] = false
starts_digit (c ∷ cs) = is_digit c

unfoldable pub parse_diversity : Libc → List ℕ → Options → Outcome Options
unfolding skip_whitespace
parse_diversity c cs o =
    let cs' : List ℕ = skip_whitespace cs in
    if starts_digit cs'
    then reading o (getint c cs') (λ d rest. ended (record o { diversity_kind = d }) rest)
    else reading o (getbool cs')
        (λ b rest. ended (record o { diversity_kind = if is_yes b then pos 3 else pos 0 }) rest)

abbrev int_max : ℕ
int_max = 0x7FFFFFFF

-- The options that read a number of their own, and the router-id. SRC_TABLE_NUM is 10.
unfoldable pub parse_other : Libc → List ℕ → List ℕ → Options → Outcome Options
unfolding parse_diversity
parse_other c token cs o =
    let number : ℕ → ℕ → (ℕ → Options) → Outcome Options = λ low high set.
      reading o (getint c cs) (λ v rest. or_error o (changed (between low high v) set) rest) in
    if is_word token (codes "protocol-group")
    then reading o (getip c cs) (λ a rest. ended (record o { protocol_group = bytes_of a }) rest)
    else (if is_word token (codes "debug")
        then number 0 int_max (λ d. record o { debug = d })
        else (if is_word token (codes "diversity")
            then parse_diversity c cs o
            else (if is_word token (codes "diversity-factor")
                then number 0 256 (λ f. record o { diversity_factor = f })
                else (if is_word token (codes "smoothing-half-life")
                    then number 0 int_max
                        (λ h. record o { smoothing = change_smoothing_half_life h })
                    else (if is_word token (codes "first-table-number")
                        then number 1 243 (λ n. record o { src_table_idx = n })
                        else (if is_word token (codes "first-rule-priority")
                            then number 1 32754 (λ n. record o { src_table_prio = n })
                            else (if is_word token (codes "router-id")
                                then reading o (getid c cs)
                                    (λ id rest. ended (record o { myid = some id }) rest)
                                else refused o)))))))

unfoldable pub parse_option : Libc → Bool → List ℕ → List ℕ → Options → Outcome Options
unfolding set_small set_bool set_file parse_other
parse_option c finalised token cs o =
    if finalised && not (is_one_of token runtime_options)
    then refused o
    else (if is_one_of token small_options
        then reading o (getint c cs) (λ v rest. elim (between 1 0xFFFE v) [
          | none ↦ refused o
          | some n ↦ or_abort (set_small token n o) rest
        ])
        else (if is_one_of token bool_options
            then reading o (getbool cs) (λ b rest. or_abort (set_bool token (is_yes b) o) rest)
            else (if is_one_of token file_options
                then reading o (getstring cs)
                    (λ file rest. or_abort (set_file finalised token file o) rest)
                else parse_other c token cs o)))
