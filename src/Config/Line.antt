-- ===== src/Config/Line.antt =====
-- configuration.c: parse_config_line, and the functions that are called with a file or a string.
pub mod Laws
use rabeld.Prelude.{
  ℕ, zero, suc, ◌==◌, Bool, true, false, ◌&&◌, ◌||◌, not, if◌then◌else◌, List, [], ◌∷◌, ◌++◌,
  length, Option, some, none,
}
use rabeld.Util.Text.{Libc}
use rabeld.Config.{Filter, Filters}
use rabeld.Config.Lexer.{codes, is_word, skip_whitespace, skip_to_eol, skip_eol, at_eol, getword}
use rabeld.Config.Matching.{add_filter, finalise_filters}
use rabeld.Config.FilterLine.{parse_filter}
use rabeld.Config.IfConf.{
  InterfaceConf, blank_conf, merge_ifconf, add_ifconf, parse_ifconf, parse_anonymous_ifconf,
}
use rabeld.Config.Options.{
  Options, Outcome, refused, aborted, done, call, add_interface, flush_interface, reopen_logfile,
  parse_option,
}

-- The static variables of configuration.c.
pub record Config : Type 0 where
  pub filters : Filters
  pub default_interface_conf : Option InterfaceConf
  pub interface_confs : List InterfaceConf
  pub config_finalised : Bool
  pub options : Options

-- CONFIG_ACTION_*
pub data ConfigAction : Type 0 where
  action_done quit dump monitor unmonitor action_no : ConfigAction

-- What flush_interface returns: negative, 0, or positive.
pub data Flushed : Type 0 where
  flush_failed no_interface flushed : Flushed

-- What surrounds the parser: the C library, what flush_interface will return, and whether the
-- caller wants the action.
pub record Caller : Type 0 where
  pub libc : Libc
  pub flush : List ℕ → Flushed
  pub wants_action : Bool

-- The new state, with the action.
abbrev pub LineResult : Type 0
LineResult = Outcome (Config × ConfigAction)

abbrev pub with_action : Caller → ConfigAction → Config → Option (List ℕ) → LineResult
with_action c a s none = refused (s, action_done)
with_action c a s (some rest) =
    if c.wants_action then done (s, a) rest else refused (s, action_done)

abbrev pub filters_changed : Config → (Filters → Filters) → Config
filters_changed s change = record s { filters = change s.filters }

-- A filter is only taken before the configuration is final.
abbrev pub filter_line : Caller → (Filter → Filters → Filters) → List ℕ → Config → LineResult
filter_line c add cs s =
    if s.config_finalised then refused (s, action_done) else elim (parse_filter c.libc cs) [
      | none ↦ refused (s, action_done)
      | some (f, rest) ↦ done (filters_changed s (add f), action_done) rest
    ]

abbrev pub add_input : Filter → Filters → Filters
add_input f c = record c { input_filters = add_filter f c.input_filters }

abbrev pub add_output : Filter → Filters → Filters
add_output f c = record c { output_filters = add_filter f c.output_filters }

abbrev pub add_redistribute : Filter → Filters → Filters
add_redistribute f c = record c { redistribute_filters = add_filter f c.redistribute_filters }

-- The filter of an install line is parsed, and dropped.
abbrev pub drop_install : Filter → Filters → Filters
drop_install f c = c

-- add_ifconf, with the call of add_interface at its end.
unfoldable pub add_configured : InterfaceConf → Config → Config
unfolding add_ifconf
add_configured if_conf s =
    let (confs, merged) = add_ifconf if_conf s.interface_confs in
    let s' : Config = record s { interface_confs = confs } in
    if s.config_finalised then record s' { options = call (add_interface merged) s.options } else s'

abbrev pub interface_line : Caller → List ℕ → Config → LineResult
interface_line c cs s = elim (parse_ifconf c.libc cs) [
  | none ↦ refused (s, action_done)
  | some (if_conf, rest) ↦ done (add_configured if_conf s, action_done) rest
]

abbrev pub merge_default : Option InterfaceConf → InterfaceConf → InterfaceConf
merge_default none if_conf = if_conf
merge_default (some d) if_conf = merge_ifconf d if_conf d

abbrev pub default_line : Caller → List ℕ → Config → LineResult
default_line c cs s = elim (parse_anonymous_ifconf c.libc cs blank_conf) [
  | none ↦ refused (s, action_done)
  | some (if_conf, rest) ↦
      done
        (
          record s {
            default_interface_conf = some (merge_default s.default_interface_conf if_conf);
          },
          action_done,
        )
        rest
]

abbrev pub flushed_action : Flushed → ConfigAction
flushed_action flush_failed = action_no
flushed_action no_interface = action_no
flushed_action flushed = action_done

abbrev pub flush_named : Caller → List ℕ → Config → LineResult
flush_named c cs s = elim (getword cs) [
  | none ↦ refused (s, action_done)
  | some (ifname, rest) ↦ elim (skip_eol rest) [
    | none ↦ refused (s, action_done)
    | some rest' ↦
        done
          (
            record s { options = call (flush_interface ifname) s.options },
            flushed_action (c.flush ifname),
          )
          rest'
  ]
]

abbrev pub flush_line : Caller → List ℕ → Config → LineResult
flush_line c cs s = elim (getword (skip_whitespace cs)) [
  | none ↦ refused (s, action_done)
  | some (token2, rest) ↦
      if is_word token2 (codes "interface") then flush_named c rest s else refused (s, action_done)
]

abbrev pub reopen_line : Caller → List ℕ → Config → LineResult
reopen_line c cs s = elim (skip_eol cs) [
  | none ↦ refused (s, action_done)
  | some rest ↦
      if c.wants_action
      then done (record s { options = call reopen_logfile s.options }, action_done) rest
      else refused (s, action_done)
]

abbrev pub with_options : Config → Outcome Options → LineResult
with_options s (refused o) = refused (record s { options = o }, action_done)
with_options s aborted = aborted
with_options s (done o rest) = done (record s { options = o }, action_done) rest

-- The directives that need the right to write.
unfoldable pub parse_write_directive : Caller → List ℕ → List ℕ → Config → LineResult
parse_write_directive c token cs s =
    if is_word token (codes "in")
    then filter_line c add_input cs s
    else (if is_word token (codes "out")
        then filter_line c add_output cs s
        else (if is_word token (codes "redistribute")
            then filter_line c add_redistribute cs s
            else (if is_word token (codes "install")
                then filter_line c drop_install cs s
                else (if is_word token (codes "interface")
                    then interface_line c cs s
                    else (if is_word token (codes "default")
                        then default_line c cs s
                        else (if is_word token (codes "flush")
                            then flush_line c cs s
                            else (if is_word token (codes "reopen-logfile")
                                then reopen_line c cs s
                                else with_options s (
                                    parse_option c.libc s.config_finalised token cs
                                      s.options))))))))

unfoldable pub parse_directive : Caller → List ℕ → List ℕ → Config → LineResult
unfolding parse_write_directive
parse_directive c token cs s =
    if is_word token (codes "quit")
    then with_action c quit s (skip_eol cs)
    else (if is_word token (codes "dump")
        then with_action c dump s (skip_eol cs)
        else (if is_word token (codes "monitor")
            then with_action c monitor s (skip_eol cs)
            else (if is_word token (codes "unmonitor")
                then with_action c unmonitor s (skip_eol cs)
                else (if s.config_finalised && not s.options.local_server_write
                    then refused (s, action_done)
                    else parse_write_directive c token cs s))))

unfoldable pub parse_config_line : Caller → List ℕ → Config → LineResult
unfolding parse_directive skip_whitespace
parse_config_line c cs s =
    let cs' : List ℕ = skip_whitespace cs in
    if at_eol cs' then done (s, action_done) (skip_to_eol cs') else elim (getword cs') [
      | none ↦ refused (s, action_done)
      | some (token, rest) ↦ parse_directive c token rest s
    ]

abbrev only_line : LineResult → Option (Config × Option ConfigAction)
only_line aborted = none
only_line (refused (s, a)) = some (s, none)
only_line (done (s, a) []) = some (s, some a)
only_line (done (s, a) (c ∷ cs)) = some (s, none)

-- One line that a client has sent, up to an abort: the action is `none` for -1, as for a string with
-- more than one line.
unfoldable pub parse_config_from_string :
    Caller → List ℕ → Config → Option (Config × Option ConfigAction)
unfolding parse_config_line
parse_config_from_string c [] s = some (s, none)
parse_config_from_string c (x ∷ cs) s = only_line (parse_config_line c (x ∷ cs) s)

-- The calls of add_interface, for each configuration over the default one. `ok` is whether
-- add_interface finds memory; the rest of the list is what is left when it does not.
abbrev pub over_default : Option InterfaceConf → InterfaceConf → InterfaceConf
over_default none c = c
over_default (some d) c = merge_ifconf c c d

unfoldable pub add_interfaces : (InterfaceConf → Bool) → List InterfaceConf → Config → Config × Bool
add_interfaces ok [] s = (record s { interface_confs = [] }, true)
add_interfaces ok (c ∷ cs) s =
    let c' : InterfaceConf = over_default s.default_interface_conf c in
    let s' : Config = record s {
      interface_confs = cs;
      options = call (add_interface c') s.options;
    } in
    let rest : Config × Bool = add_interfaces ok cs s' in if ok c' then rest else (s', false)

unfoldable pub finalise_config : (InterfaceConf → Bool) → Config → Config × Bool
unfolding add_interfaces
finalise_config ok s =
    let s' : Config = filters_changed s finalise_filters in
    let (s'', complete) = add_interfaces ok s.interface_confs s' in
    if complete then (record s'' { config_finalised = true }, true) else (s'', false)
