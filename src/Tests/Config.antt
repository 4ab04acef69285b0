-- ===== src/Tests/Config.antt =====
-- configuration.c and the text forms of util.c at fixed inputs.
use rabeld.Prelude.{
  ℕ, ◌+◌, ◌-◌, ◌*◌, ◌≤◌, ◌≡◌, refl, arith, true, false, if◌then◌else◌, List, [], ◌∷◌, replicate,
  Option, some, none,
}
use rabeld.Prelude.Int.{ℤ, pos}
use rabeld.Prelude.Bytes.{memcmp}
use rabeld.Util.Prefix.{v6_equal, normalize_prefix}
use rabeld.Util.Text.{
  Libc, is_digit, parse_thousands, skip_spaces, take_digits, fraction, with_fraction, three_digits,
  parse_net, with_length, split_slash,
}
use rabeld.Util.Text.Thousands.{format_thousands, parse_thousands-format_thousands}
use rabeld.Source.{infinity}
use rabeld.Config.{Filter, Filters, af_inet}
use rabeld.Config.Lexer.{codes, is_word, skip_whitespace, skip_to_eol, getword, take_word}
use rabeld.Config.Values.{getint, getnet, parse_words, dispatch}
use rabeld.Config.Matching.{
  Query, filter_match, finalise_filters, redistribute_filter, blank_filter, route_query, no_result,
  babel_local, same_int,
}
use rabeld.Config.Matching.First.{matches_any, redistribute_filter-finalise_filters}
use rabeld.Config.FilterLine.{
  parse_filter, parse_filter_in, filter_keywords, finish_filter, change_src_prefix,
}
use rabeld.Config.FilterLine.Ends.{Ends, finished, parse_filter-Ends}
use rabeld.Config.FilterLine.Laws.{parse_filter-IsBounded}
use rabeld.Config.IfConf.{InterfaceConf, blank_conf, add_ifconf}
use rabeld.Config.IfConf.Merge.{conf_of, Merged, add_ifconf-conf_of}
use rabeld.Config.Options.{Options, aborted, parse_option}
use rabeld.Config.Line.{Config, Caller, flushed, parse_config_line}
use rabeld.Config.Line.Laws.{Leaves, parse_option-aborted, parse_config_line-read_only}

-- A C library that reads decimal numbers, and for every address text the address 10.0.0.0.
abbrev digits : ℕ → List ℕ → ℤ × List ℕ
digits n [] = (pos n, [])
digits n (c ∷ cs) = if is_digit c then digits (n * 10 + c - b'0') cs else (pos n, c ∷ cs)

abbrev libc : Libc
libc = record {
  strtol = digits 0;
  inet_pton4 = λ t. some (10 ∷ 0 ∷ 0 ∷ 0 ∷ []);
  inet_pton6 = λ t. none;
  sscanf = λ c t. [];
  if_nametoindex = λ t. 2;
}

parse_thousands-format_thousands_example : parse_thousands (format_thousands 42133) ≡ some 42133
parse_thousands-format_thousands_example = parse_thousands-format_thousands 42133 (omega arith)

-- "42.1337", the example of the source's comment.
thousands_run : parse_thousands (codes "42.1337") ≡ some 42133
unfolding parse_thousands skip_spaces take_digits fraction with_fraction three_digits
thousands_run = refl

abbrev deny_kernel : Filter
deny_kernel = record blank_filter {
  proto = pos 2;
  action = record no_result { add_metric = infinity };
}

abbrev filters : Filters
filters = record {
  input_filters = [];
  output_filters = [];
  redistribute_filters = deny_kernel ∷ [];
  install_filters = [];
}

redistribute_filter-finalise_filters_example :
    redistribute_filter
      (finalise_filters filters)
      (replicate 16 1)
      128
      (replicate 16 0)
      0
      2
      (pos 254)
    ≡ (if matches_any filters.redistribute_filters
          (route_query (replicate 16 1) 128 (replicate 16 0) 0 2 (pos 254))
        then redistribute_filter filters (replicate 16 1) 128 (replicate 16 0) 0 2 (pos 254)
        else ((if same_int (pos 254) babel_local then pos 0 else pos infinity), no_result))
redistribute_filter-finalise_filters_example =
    redistribute_filter-finalise_filters filters (replicate 16 1) 128 (replicate 16 0) 0 2 (pos 254)

abbrev from : ℕ → Query
from n = record (route_query (replicate 16 1) 128 (replicate 16 0) 0 2 (pos 0)) {
  neigh = some (replicate 16 n);
}

abbrev of_neighbour : Filter
of_neighbour = record blank_filter { neigh = some (replicate 16 5) }

-- It matches the routes from the other neighbours.
other_neighbour : filter_match of_neighbour (from 6) ≡ true
unfolding filter_match v6_equal memcmp
other_neighbour = refl

abbrev line : List ℕ
line = codes "proto 3 metric 256"

parse_filter-Ends_example :
    (o : Option (Filter × List ℕ)) × Ends (filter_keywords libc) line blank_filter o
    × (parse_filter libc line ≡ finished o)
parse_filter-Ends_example = parse_filter-Ends libc line

abbrev of_boot : Filter
of_boot = record blank_filter { proto = pos 3; action = record no_result { add_metric = 256 } }

line_run : parse_filter libc line ≡ some (of_boot, [])
unfolding parse_filter parse_filter_in parse_words dispatch filter_keywords is_word getword
    take_word getint skip_whitespace skip_to_eol finish_filter
line_run = refl

parse_filter-IsBounded_example : 256 ≤ infinity
parse_filter-IsBounded_example = parse_filter-IsBounded libc line of_boot [] line_run

-- A source prefix of 0.0.0.0/0 turns a refusal into a permission: memset clears the metric too.
deny_lost :
    (f : Filter) × (parse_filter libc (codes "deny src-prefix 0.0.0.0/0") ≡ some (f, []))
    × (f.action.add_metric ≡ 0)
    × (f.action.src_prefix ≡ none)
unfolding parse_filter parse_filter_in parse_words dispatch filter_keywords is_word getword
    take_word getnet skip_whitespace skip_to_eol finish_filter change_src_prefix parse_net
    with_length split_slash normalize_prefix
deny_lost = (
  record blank_filter {
    af = af_inet;
    plen_ge = 96;
    plen_le = 224;
    action = record no_result { src_plen = 96 };
  },
  refl,
  refl,
  refl,
)

abbrev conf : ℕ → ℕ → InterfaceConf
conf name cost = record blank_conf { ifname = name ∷ []; cost = cost }

add_ifconf-conf_of_example :
    (m : InterfaceConf) × Merged (conf_of (1 ∷ []) (conf 2 10 ∷ conf 1 0 ∷ [])) (conf 1 96) m
    × (conf_of (1 ∷ []) (add_ifconf (conf 1 96) (conf 2 10 ∷ conf 1 0 ∷ [])).0 ≡ (
        if is_word (1 ∷ []) (1 ∷ []) then some m else conf_of (1 ∷ []) (conf 2 10 ∷ conf 1 0 ∷ [])))
add_ifconf-conf_of_example = add_ifconf-conf_of (conf 1 96) (conf 2 10 ∷ conf 1 0 ∷ []) (1 ∷ [])

abbrev options : Options
options = record {
  protocol_port = 6696;
  kernel_metric = 0;
  allow_duplicates = none;
  local_server_port = none;
  local_server_path = none;
  local_server_write = false;
  export_table = 254;
  keep_unfeasible = false;
  link_detect = false;
  random_id = false;
  do_daemonise = false;
  skip_kernel_setup = false;
  has_ipv6_subtrees = false;
  reflect_kernel_metric = false;
  protocol_group = [];
  state_file = none;
  logfile = none;
  pidfile = none;
  debug = 0;
  diversity_kind = pos 0;
  diversity_factor = 256;
  smoothing = record { smoothing_half_life = 0; two_to_the_one_over_hl = 0 };
  src_table_idx = 10;
  src_table_prio = 100;
  myid = none;
  calls = [];
}

number_run : getint libc (codes "20") ≡ some (pos 20, [])
unfolding getint getword take_word skip_whitespace
number_run = refl

duplicates_abort : parse_option libc false (codes "allow-duplicates") (codes "20") options ≡ aborted
duplicates_abort =
    parse_option-aborted libc (codes "20") [] 20 options number_run (omega arith) (omega arith)

abbrev caller : Caller
caller = record { libc = libc; flush = λ name. flushed; wants_action = true }

abbrev config : Config
config = record {
  filters = filters;
  default_interface_conf = none;
  interface_confs = [];
  config_finalised = true;
  options = options;
}

parse_config_line-read_only_example :
    Leaves config (parse_config_line caller (codes "flush interface eth0") config)
parse_config_line-read_only_example =
    parse_config_line-read_only caller (codes "flush interface eth0") config refl
