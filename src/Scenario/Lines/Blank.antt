-- ===== src/Scenario/Lines/Blank.antt =====
-- Arrays of labels of toml.c with white space before them.
use cm_dotfiles.Prelude.{
  ℕ, ◌≡◌, refl, sym, ap, ◌∙◌, ◌≢◌, inl, inr, true, false, Option, none, some, List, map, arith,
  ◌==◌, Bool-cases, codes, get_or,
}
use cm_dotfiles.Scenario.Text.{at, string_at, lower, str_eq_nocase}
use cm_dotfiles.Scenario.Text.Compare.{str_eq_nocase_iff}
use cm_dotfiles.Scenario.Types.{Scenario}
use cm_dotfiles.Scenario.Values.{parse_string_array}
use cm_dotfiles.Scenario.Handlers.{handle_kv_app, handle_kv_alert_defaults, handle_kv_alert}
use cm_dotfiles.Scenario.Header.{Section, no_section, app_section, defaults_section, alert_section}
use cm_dotfiles.Scenario.Lines.{handle_kv}

-- A key is equal to one name only. The names differ at their first byte or at the second.
other_name :
    (k a b : List ℕ) (i : ℕ)
    → str_eq_nocase k a ≡ true
    → get_or (map lower a) i 0 ≢ get_or (map lower b) i 0
    → str_eq_nocase k b ≡ false
other_name k a b i e ne = elim (Bool-cases (str_eq_nocase k b)) [
  | inl same ↦
      let both : map lower a ≡ map lower b =
        sym ((str_eq_nocase_iff k a).0 e) ∙ (str_eq_nocase_iff k b).0 same in
      absurd (ne (ap (λ (xs : List ℕ). get_or xs i 0) both))
  | inr differs ↦ differs
]

no_array :
    (buf : List ℕ) (sc : Scenario) (start end : ℕ)
    → at buf start ≢ b'['
    → parse_string_array buf sc start end ≡ none
unfolding parse_string_array
no_array buf sc start end ne =
    let test : (at buf start == b'[') ≡ false = ground arith in rw test refl

module _ (buf : List ℕ) (key start end : ℕ) (sc : Scenario)
    (named : str_eq_nocase (string_at buf key) (codes "labels") ≡ true)
    (blank : at buf start ≢ b'[') where
  app_refuses : handle_kv_app buf key start end sc ≡ none
  unfolding handle_kv_app lower
  app_refuses =
      let k = string_at buf key in
      let other = other_name k (codes "labels") in
      let a = other (codes "handle") 0 named (λ e. absurd (omega arith)) in
      let b = other (codes "name") 0 named (λ e. absurd (omega arith)) in
      let c = other (codes "host_name") 0 named (λ e. absurd (omega arith)) in
      let d = other (codes "status") 0 named (λ e. absurd (omega arith)) in
      rw (a, b, c, d, named, no_array buf sc start end blank) refl

  defaults_refuse : handle_kv_alert_defaults buf key start end sc ≡ none
  unfolding handle_kv_alert_defaults lower
  defaults_refuse =
      let a =
        other_name (string_at buf key) (codes "labels") (codes "level") 1 named
          (λ e. absurd (omega arith)) in
      rw (a, named, no_array buf sc start end blank) refl

  alert_refuses : (cur : ℕ) → handle_kv_alert buf key start end sc cur ≡ none
  unfolding handle_kv_alert lower
  alert_refuses cur =
      let k = string_at buf key in
      let other = other_name k (codes "labels") in
      let a = other (codes "title") 0 named (λ e. absurd (omega arith)) in
      let b = other (codes "body") 0 named (λ e. absurd (omega arith)) in
      let c = other (codes "level") 1 named (λ e. absurd (omega arith)) in
      rw (a, b, c, named, no_array buf sc start end blank) refl

  -- In every section the handler of the key labels, in letters of either case, fails unless the
  -- array's bracket stands right behind the equals sign.
  pub handle_kv-labels :
      (section : Section) (cur : Option ℕ) → handle_kv section cur buf key start end sc ≡ none
  unfolding handle_kv
  handle_kv-labels no_section cur = refl
  handle_kv-labels app_section cur = app_refuses
  handle_kv-labels defaults_section cur = defaults_refuse
  handle_kv-labels alert_section none = refl
  handle_kv-labels alert_section (some cur) = alert_refuses cur
