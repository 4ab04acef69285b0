-- ===== src/Config/IfConf/Merge.antt =====
-- configuration.c: the laws of merging configurations.
use rabeld.Prelude.{
  ◌≡◌, refl, arith, true, if◌then◌else◌, List, [], ◌∷◌, Option, some, none, Bool-cases, inl, inr,
  ◌∙◌, ℕ, ◌≢◌, ◌⊎◌, ◌==◌, ==_iff, ap,
}
use rabeld.Prelude.Int.{ℤ, pos, negsuc}
use rabeld.Config.Lexer.{is_word}
use rabeld.Config.Values.{
  BoolChoice, default, no_choice, yes_choice, InterfaceType, type_default, wired, wireless, tunnel,
}
use rabeld.Config.IfConf.{
  InterfaceConf, merge_ifconf, merge_number, merge_choice, merge_type, merge_channel, add_ifconf,
}

merge_number_assoc :
    (a b c : ℕ) → merge_number a (merge_number b c) ≡ merge_number (merge_number a b) c
merge_number_assoc a b c = ground arith

merge_choice_assoc :
    (a b c : BoolChoice) → merge_choice a (merge_choice b c) ≡ merge_choice (merge_choice a b) c
merge_choice_assoc default b c = refl
merge_choice_assoc no_choice b c = refl
merge_choice_assoc yes_choice b c = refl

merge_type_assoc :
    (a b c : InterfaceType) → merge_type a (merge_type b c) ≡ merge_type (merge_type a b) c
merge_type_assoc type_default b c = refl
merge_type_assoc wired b c = refl
merge_type_assoc wireless b c = refl
merge_type_assoc tunnel b c = refl

merge_channel_assoc :
    (a b c : ℤ) → merge_channel a (merge_channel b c) ≡ merge_channel (merge_channel a b) c
merge_channel_assoc (pos n) b c = ground arith
merge_channel_assoc (negsuc n) b c = refl

-- Layers of configuration can be merged in any grouping: the settings of an interface over those of
-- an earlier line over the default ones.
pub merge_ifconf_assoc :
    (dest a b c : InterfaceConf)
    → merge_ifconf dest a (merge_ifconf b b c) ≡ merge_ifconf dest (merge_ifconf a a b) c
unfolding merge_ifconf
merge_ifconf_assoc dest a b c = λ i. record dest {
  hello_interval = merge_number_assoc a.hello_interval b.hello_interval c.hello_interval i;
  update_interval = merge_number_assoc a.update_interval b.update_interval c.update_interval i;
  cost = merge_number_assoc a.cost b.cost c.cost i;
  type = merge_type_assoc a.type b.type c.type i;
  split_horizon = merge_choice_assoc a.split_horizon b.split_horizon c.split_horizon i;
  lq = merge_choice_assoc a.lq b.lq c.lq i;
  faraway = merge_choice_assoc a.faraway b.faraway c.faraway i;
  channel = merge_channel_assoc a.channel b.channel c.channel i;
  enable_timestamps =
      merge_choice_assoc a.enable_timestamps b.enable_timestamps c.enable_timestamps i;
  rtt_decay = merge_number_assoc a.rtt_decay b.rtt_decay c.rtt_decay i;
  rtt_min = merge_number_assoc a.rtt_min b.rtt_min c.rtt_min i;
  rtt_max = merge_number_assoc a.rtt_max b.rtt_max c.rtt_max i;
  max_rtt_penalty = merge_number_assoc a.max_rtt_penalty b.max_rtt_penalty c.max_rtt_penalty i;
}

is_word_sym : (u v : List ℕ) → is_word u v ≡ is_word v u
unfolding is_word
is_word_sym [] [] = refl
is_word_sym [] (c ∷ v) = refl
is_word_sym (c ∷ u) [] = refl
is_word_sym (c ∷ u) (d ∷ v) = ground (arith, is_word_sym u v)

is_word_trans : (u v w : List ℕ) → is_word u v ≡ true → is_word u w ≡ is_word v w
unfolding is_word
is_word_trans [] [] w e = refl
is_word_trans [] (c ∷ v) w e = cc
is_word_trans (c ∷ u) [] w e = cc
is_word_trans (c ∷ u) (d ∷ v) [] e = refl
is_word_trans (c ∷ u) (d ∷ v) (x ∷ w) e = ground (arith, is_word_trans u v w)

-- The first configuration with a name.
abbrev pub conf_of : List ℕ → List InterfaceConf → Option InterfaceConf
conf_of name [] = none
conf_of name (d ∷ rest) = if is_word d.ifname name then some d else conf_of name rest

abbrev merged_with : Option InterfaceConf → InterfaceConf → InterfaceConf
merged_with none c = c
merged_with (some d) c = merge_ifconf d c d

added-conf_of :
    (c : InterfaceConf) (cs : List InterfaceConf) (name : List ℕ)
    → conf_of name (add_ifconf c cs).0 ≡ (
        if is_word c.ifname name
        then some (merged_with (conf_of c.ifname cs) c)
        else conf_of name cs)
unfolding add_ifconf merge_ifconf
added-conf_of c [] name = refl
added-conf_of c (d ∷ rest) name = elim (Bool-cases (is_word d.ifname c.ifname)) [
  | inl e ↦
      let same : is_word d.ifname name ≡ is_word c.ifname name =
        is_word_trans d.ifname c.ifname name e in
      rw (e, same) (elim (Bool-cases (is_word c.ifname name)) [ inl y ↦ rw y | inr n ↦ rw n ])
  | inr e ↦ elim (Bool-cases (is_word d.ifname name)) [
    | inr n ↦ rw (e, n) (added-conf_of c rest name)
    | inl y ↦ elim (Bool-cases (is_word c.ifname name)) [
      | inr n ↦ rw (e, y, n)
      | inl y' ↦
          let both : is_word d.ifname c.ifname ≡ true =
            is_word_trans d.ifname name c.ifname y ∙ is_word_sym name c.ifname ∙ y' in
          absurd (ground (arith, both, e))
    ]
  ]
]

-- A setting is the new one if that is set, and else the old one.
abbrev pub IsOver : {A : Type 0} (unset new old result : A) → Type 0
IsOver unset new old result = ((new ≡ unset) × (result ≡ old)) ⊎ ((new ≢ unset) × (result ≡ new))

-- Every setting of the result, with the name that was there.
abbrev pub AreOver : InterfaceConf → InterfaceConf → InterfaceConf → Type 0
AreOver c d m =
    (m.ifname ≡ d.ifname)
    × IsOver 0 c.hello_interval d.hello_interval m.hello_interval
    × IsOver 0 c.update_interval d.update_interval m.update_interval
    × IsOver 0 c.cost d.cost m.cost
    × IsOver type_default c.type d.type m.type
    × IsOver default c.split_horizon d.split_horizon m.split_horizon
    × IsOver default c.lq d.lq m.lq
    × IsOver default c.faraway d.faraway m.faraway
    × IsOver (pos 0) c.channel d.channel m.channel
    × IsOver default c.enable_timestamps d.enable_timestamps m.enable_timestamps
    × IsOver 0 c.rtt_decay d.rtt_decay m.rtt_decay
    × IsOver 0 c.rtt_min d.rtt_min m.rtt_min
    × IsOver 0 c.rtt_max d.rtt_max m.rtt_max
    × IsOver 0 c.max_rtt_penalty d.max_rtt_penalty m.max_rtt_penalty

merge_number-IsOver : (a b : ℕ) → IsOver 0 a b (merge_number a b)
merge_number-IsOver a b = elim (Bool-cases (a == 0)) [
  | inl z ↦ rw z (inl ((==_iff a 0).0 z, refl))
  | inr z ↦ rw z (inr ((λ e. absurd (ground (arith, e, z))), refl))
]

merge_choice-IsOver : (a b : BoolChoice) → IsOver default a b (merge_choice a b)
merge_choice-IsOver default b = inl (refl, refl)
merge_choice-IsOver no_choice b = inr ((λ e. cc), refl)
merge_choice-IsOver yes_choice b = inr ((λ e. cc), refl)

merge_type-IsOver : (a b : InterfaceType) → IsOver type_default a b (merge_type a b)
merge_type-IsOver type_default b = inl (refl, refl)
merge_type-IsOver wired b = inr ((λ e. cc), refl)
merge_type-IsOver wireless b = inr ((λ e. cc), refl)
merge_type-IsOver tunnel b = inr ((λ e. cc), refl)

merge_channel-IsOver : (a b : ℤ) → IsOver (pos 0) a b (merge_channel a b)
merge_channel-IsOver (pos n) b = elim (Bool-cases (n == 0)) [
  | inl z ↦ rw z (inl (ap pos ((==_iff n 0).0 z), refl))
  | inr z ↦ rw z (inr ((λ e. ground (arith, e, z)), refl))
]
merge_channel-IsOver (negsuc n) b = inr ((λ e. cc), refl)

merge_ifconf-AreOver : (c d : InterfaceConf) → AreOver c d (merge_ifconf d c d)
unfolding merge_ifconf
merge_ifconf-AreOver c d = (
  refl,
  merge_number-IsOver c.hello_interval d.hello_interval,
  merge_number-IsOver c.update_interval d.update_interval,
  merge_number-IsOver c.cost d.cost,
  merge_type-IsOver c.type d.type,
  merge_choice-IsOver c.split_horizon d.split_horizon,
  merge_choice-IsOver c.lq d.lq,
  merge_choice-IsOver c.faraway d.faraway,
  merge_channel-IsOver c.channel d.channel,
  merge_choice-IsOver c.enable_timestamps d.enable_timestamps,
  merge_number-IsOver c.rtt_decay d.rtt_decay,
  merge_number-IsOver c.rtt_min d.rtt_min,
  merge_number-IsOver c.rtt_max d.rtt_max,
  merge_number-IsOver c.max_rtt_penalty d.max_rtt_penalty,
)

-- The configuration of an interface after a line, given the one that it had.
abbrev pub Merged : Option InterfaceConf → InterfaceConf → InterfaceConf → Type 0
Merged none c m = m ≡ c
Merged (some d) c m = AreOver c d m

-- After add_ifconf the interface has a configuration in which each setting is the new one if the new
-- one is set and the one that it had otherwise, or the new configuration itself if it had none, and
-- the other interfaces have what they had.
pub add_ifconf-conf_of :
    (c : InterfaceConf) (cs : List InterfaceConf) (name : List ℕ)
    → (m : InterfaceConf) × Merged (conf_of c.ifname cs) c m
      × (conf_of name (add_ifconf c cs).0
          ≡ (if is_word c.ifname name then some m else conf_of name cs))
add_ifconf-conf_of c cs name =
    (merged_with (conf_of c.ifname cs) c, merged (conf_of c.ifname cs), added-conf_of c cs name)
  where
    merged : (o : Option InterfaceConf) → Merged o c (merged_with o c)
    merged none = refl
    merged (some d) = merge_ifconf-AreOver c d
