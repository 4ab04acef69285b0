-- ===== src/Config/IfConf.antt =====
-- configuration.c and interface.h: the configurations of interfaces, and how they are put together.
pub mod Merge
use rabeld.Prelude.{
  ℕ, suc, ◌*◌, Bool, true, false, ltb, leb, ◌==◌, ◌&&◌, ◌||◌, not, if◌then◌else◌, List, [], ◌∷◌,
  length, Option, some, none,
}
use rabeld.Prelude.Int.{ℤ, pos, negsuc, pos_part, neg_part}
use rabeld.Util.Text.{Libc, is_end}
use rabeld.Config.Lexer.{codes, is_word, skip_whitespace, at_eol, getword, getstring}
use rabeld.Config.Values.{
  BoolChoice, default, no_choice, yes_choice, InterfaceType, type_default, wired, wireless, tunnel,
  Keywords, on_value, of_word, getint, getthousands, getbool, get_interface_type, parse_words,
}

-- struct interface_conf; 0, or the default of an enumeration, is what is not configured.
pub record InterfaceConf : Type 0 where
  pub ifname : List ℕ
  pub hello_interval : ℕ
  pub update_interval : ℕ
  pub cost : ℕ
  pub type : InterfaceType
  pub split_horizon : BoolChoice
  pub lq : BoolChoice
  pub faraway : BoolChoice
  pub channel : ℤ
  pub enable_timestamps : BoolChoice
  pub rtt_decay : ℕ
  pub rtt_min : ℕ
  pub rtt_max : ℕ
  pub max_rtt_penalty : ℕ

abbrev pub blank_conf : InterfaceConf
blank_conf = record {
  ifname = [];
  hello_interval = 0;
  update_interval = 0;
  cost = 0;
  type = type_default;
  split_horizon = default;
  lq = default;
  faraway = default;
  channel = pos 0;
  enable_timestamps = default;
  rtt_decay = 0;
  rtt_min = 0;
  rtt_max = 0;
  max_rtt_penalty = 0;
}

-- MERGE for a number, a choice, a type and a channel.
abbrev pub merge_number : ℕ → ℕ → ℕ
merge_number a b = if a == 0 then b else a

abbrev pub merge_choice : BoolChoice → BoolChoice → BoolChoice
merge_choice default b = b
merge_choice no_choice b = no_choice
merge_choice yes_choice b = yes_choice

abbrev pub merge_type : InterfaceType → InterfaceType → InterfaceType
merge_type type_default b = b
merge_type wired b = wired
merge_type wireless b = wireless
merge_type tunnel b = tunnel

abbrev pub merge_channel : ℤ → ℤ → ℤ
merge_channel (pos n) b = if n == 0 then b else pos n
merge_channel (negsuc n) b = negsuc n

-- `dest` keeps its name. (It may be one of the two others: each field is read before it is written.)
unfoldable pub merge_ifconf : InterfaceConf → InterfaceConf → InterfaceConf → InterfaceConf
merge_ifconf dest src1 src2 = record dest {
  hello_interval = merge_number src1.hello_interval src2.hello_interval;
  update_interval = merge_number src1.update_interval src2.update_interval;
  cost = merge_number src1.cost src2.cost;
  type = merge_type src1.type src2.type;
  split_horizon = merge_choice src1.split_horizon src2.split_horizon;
  lq = merge_choice src1.lq src2.lq;
  faraway = merge_choice src1.faraway src2.faraway;
  channel = merge_channel src1.channel src2.channel;
  enable_timestamps = merge_choice src1.enable_timestamps src2.enable_timestamps;
  rtt_decay = merge_number src1.rtt_decay src2.rtt_decay;
  rtt_min = merge_number src1.rtt_min src2.rtt_min;
  rtt_max = merge_number src1.rtt_max src2.rtt_max;
  max_rtt_penalty = merge_number src1.max_rtt_penalty src2.max_rtt_penalty;
}

-- The list after add_ifconf, and the configuration that stands in it for the interface.
unfoldable pub add_ifconf : InterfaceConf → List InterfaceConf → List InterfaceConf × InterfaceConf
add_ifconf c [] = (c ∷ [], c)
add_ifconf c (d ∷ rest) =
    let later : List InterfaceConf × InterfaceConf = add_ifconf c rest in
    if is_word d.ifname c.ifname
    then (merge_ifconf d c d ∷ rest, merge_ifconf d c d)
    else (d ∷ later.0, later.1)

-- `none` is the warning; a configuration is known by its name.
unfoldable pub flush_ifconf : List ℕ → List InterfaceConf → Option (List InterfaceConf)
flush_ifconf name [] = none
flush_ifconf name (d ∷ rest) =
    let later : Option (List InterfaceConf) = flush_ifconf name rest in
    if is_word d.ifname name
    then some rest
    else (elim later [ none ↦ none | some rest' ↦ some (d ∷ rest') ])

-- A number from 1 to `top`.
abbrev pub positive_to : ℕ → ℤ → Option ℕ
positive_to top (pos n) = if n == 0 || ltb top n then none else some n
positive_to top (negsuc n) = none

abbrev pub set_number :
    ℕ → (ℕ → InterfaceConf → InterfaceConf) → ℤ → InterfaceConf → Option InterfaceConf
set_number top change v c = elim (positive_to top v) [ none ↦ none | some n ↦ some (change n c) ]

abbrev pub set_thousands :
    ℕ → (ℕ → InterfaceConf → InterfaceConf) → ℕ → InterfaceConf → Option InterfaceConf
set_thousands top change n c = set_number top change (pos n) c

-- IF_CHANNEL_NONINTERFERING is -2, IF_CHANNEL_INTERFERING is 255.
abbrev pub valid_channel : ℤ → Option ℤ
valid_channel (pos n) = if n == 0 || ltb 255 n then none else some (pos n)
valid_channel (negsuc n) = if n == 1 then some (negsuc 1) else none

abbrev pub channel_word : Libc → List ℕ → Option ℤ
channel_word c t =
    if is_word t (codes "noninterfering")
    then some (negsuc 1)
    else (if is_word t (codes "interfering")
        then some (pos 255)
        else (let (i, end) = c.strtol t in if is_end end then valid_channel i else none))

abbrev pub wired_choice : BoolChoice → InterfaceType
wired_choice yes_choice = wired
wired_choice no_choice = wireless
wired_choice default = wireless

-- `rtt-min` and `rtt-max` have no limit but that of an int.
unfoldable pub ifconf_keywords : Libc → Keywords InterfaceConf
ifconf_keywords c =
    (codes "rxcost", on_value (getint c) (set_number 0xFFFF (λ n i. record i { cost = n })))
    ∷ (
      codes "hello-interval",
      on_value getthousands (set_thousands (10 * 0xFFFF) (λ n i. record i { hello_interval = n })),
    )
    ∷ (
      codes "update-interval",
      on_value getthousands (set_thousands (10 * 0xFFFF) (λ n i. record i { update_interval = n })),
    )
    ∷ (codes "type", on_value get_interface_type (λ t i. some (record i { type = t })))
    ∷ (codes "wired", on_value getbool (λ v i. some (record i { type = wired_choice v })))
    ∷ (codes "faraway", on_value getbool (λ v i. some (record i { faraway = v })))
    ∷ (codes "link-quality", on_value getbool (λ v i. some (record i { lq = v })))
    ∷ (codes "split-horizon", on_value getbool (λ v i. some (record i { split_horizon = v })))
    ∷ (
      codes "channel",
      on_value (of_word (channel_word c)) (λ n i. some (record i { channel = n })),
    )
    ∷ (
      codes "enable-timestamps",
      on_value getbool (λ v i. some (record i { enable_timestamps = v })),
    )
    ∷ (codes "rtt-decay", on_value (getint c) (set_number 256 (λ n i. record i { rtt_decay = n })))
    ∷ (
      codes "rtt-min",
      on_value getthousands (set_thousands 0x7FFFFFFF (λ n i. record i { rtt_min = n })),
    )
    ∷ (
      codes "rtt-max",
      on_value getthousands (set_thousands 0x7FFFFFFF (λ n i. record i { rtt_max = n })),
    )
    ∷ (
      codes "max-rtt-penalty",
      on_value (getint c) (set_number 0xFFFF (λ n i. record i { max_rtt_penalty = n })),
    )
    ∷ []

unfoldable pub parse_anonymous_ifconf :
    Libc → List ℕ → InterfaceConf → Option (InterfaceConf × List ℕ)
unfolding ifconf_keywords
parse_anonymous_ifconf c cs if_conf = parse_words (suc (length cs)) (ifconf_keywords c) cs if_conf

unfoldable pub parse_ifconf : Libc → List ℕ → Option (InterfaceConf × List ℕ)
unfolding parse_anonymous_ifconf skip_whitespace
parse_ifconf c cs = elim (getstring (skip_whitespace cs)) [
  | none ↦ none
  | some (token, rest) ↦ parse_anonymous_ifconf c rest (record blank_conf { ifname = token })
]
