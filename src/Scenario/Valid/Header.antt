-- ===== src/Scenario/Valid/Header.antt =====
-- The headers of sections of toml.c keep the reader's state well-formed.
use cm_dotfiles.Prelude.{
  ℕ, ◌+◌, ◌<◌, ◌≡◌, refl, ◌∙◌, Bool, true, false, ◌&&◌, not, Option, none, some, List, arith, ltb,
  leb, ◌==◌, if◌then◌else◌, codes, get_or, set, length-set, get_or-set_self, get_or-set_ne,
}
use native.Mathlib.Decide.{ℕ_discrete}
use mathlib.Core.Path.{subst}
use cm_dotfiles.Scenario.Types.{Scenario, zero_alert, max_alerts}
use cm_dotfiles.Scenario.Text.{at, trim_left, trim_right, scan_to}
use cm_dotfiles.Scenario.Header.{
  State, Header, bad, no_header, entered, is_closing, fresh_alert, begin_alert, is_named,
  double_header, begin_app, begin_defaults, single_header, parse_section_header,
}
use cm_dotfiles.Scenario.Valid.{AlertIsValid, IsValid, IsValid-app}

abbrev pub IsCurrent : ℕ → Option ℕ → Type 0
IsCurrent n none = Unit {0}
IsCurrent n (some cur) = cur < n

pub record StateIsValid (buf : List ℕ) (limit : ℕ) (st : State) : Type 0 where
  pub scenario : IsValid buf limit st.sc
  pub current : IsCurrent st.sc.alert_count st.current_alert

-- The state behind a header, where there is one.
pub data HeaderIsValid (buf : List ℕ) (limit : ℕ) : Header → Type 0 where
  refused : HeaderIsValid buf limit bad
  skipped : HeaderIsValid buf limit no_header
  begins : {st : State} → StateIsValid buf limit st → HeaderIsValid buf limit (entered st)

HeaderIsValid-if :
    {buf : List ℕ} {limit : ℕ} (b : Bool) {x y : Header}
    → (b ≡ true → HeaderIsValid buf limit x)
    → (b ≡ false → HeaderIsValid buf limit y)
    → HeaderIsValid buf limit (if b then x else y)
HeaderIsValid-if true p q = p refl
HeaderIsValid-if false p q = q refl

-- An alert is begun in the first slot behind those in use.
begun :
    (buf : List ℕ) (limit : ℕ) (sc : Scenario)
    → IsValid buf limit sc
    → sc.alert_count < max_alerts
    → IsValid buf limit (record sc {
      alerts = set sc.alerts sc.alert_count fresh_alert;
      alert_count = sc.alert_count + 1;
    })
begun buf limit sc v room = record {
  labels = v.labels;
  slots = length-set sc.alerts sc.alert_count fresh_alert ∙ v.slots;
  bound = omega arith;
  app = v.app;
  has_level = v.has_level;
  defaults = v.defaults;
  alerts = λ i h. elim (ℕ_discrete sc.alert_count i) [
    | yes e ↦
        subst
          (λ k.
            AlertIsValid buf limit sc.label_count
              (get_or (set sc.alerts sc.alert_count fresh_alert) k zero_alert))
          e
          (rw
            (get_or-set_self sc.alerts sc.alert_count fresh_alert zero_alert
              (omega (arith, v.slots)))
            fresh)
    | no d ↦
        rw (get_or-set_ne sc.alerts sc.alert_count i fresh_alert zero_alert d)
          (v.alerts i (omega arith))
  ];
}
  where
    fresh : AlertIsValid buf limit sc.label_count fresh_alert
    fresh = record {
      title = tt;
      body = tt;
      labels = omega arith;
      positive = omega arith;
      count = omega arith;
      period = omega arith;
      has_at = omega arith;
      at = omega arith;
    }

module _ (buf : List ℕ) (limit : ℕ) (st : State) (v : StateIsValid buf limit st) where
  begin_alert-valid : HeaderIsValid buf limit (begin_alert st)
  unfolding begin_alert
  begin_alert-valid =
      HeaderIsValid-if (leb max_alerts st.sc.alert_count) (λ _. refused)
        (λ room. begins (record {
          scenario = begun buf limit st.sc v.scenario (ground arith);
          current = omega arith;
        }))

  begin_app-valid : StateIsValid buf limit (begin_app st)
  begin_app-valid = record {
    scenario =
        IsValid-app
          (record { name = tt; host_name = tt; handle = omega arith; labels = omega arith })
          v.scenario;
    current = v.current;
  }

  begin_defaults-valid : StateIsValid buf limit (begin_defaults st)
  begin_defaults-valid =
      let s = v.scenario in
      record {
        scenario = record {
          labels = s.labels;
          slots = s.slots;
          bound = s.bound;
          app = s.app;
          has_level = omega arith;
          defaults = omega arith;
          alerts = s.alerts;
        };
        current = v.current;
      }

  module _ (text : List ℕ) (p end : ℕ) where
    double_header-valid : HeaderIsValid buf limit (double_header text p end st)
    unfolding double_header
    double_header-valid =
        let close = scan_to is_closing text p end in
        let inner_start = trim_left text p close in
        let inner_end = trim_right text inner_start close in
        HeaderIsValid-if (leb end close) (λ _. refused)
          (λ _.
            HeaderIsValid-if (leb end (close + 1)) (λ _. refused)
              (λ _.
                HeaderIsValid-if (not (at text (close + 1) == b']')) (λ _. refused)
                  (λ _.
                    HeaderIsValid-if (leb inner_end inner_start) (λ _. refused)
                      (λ _.
                        HeaderIsValid-if (is_named text inner_start inner_end 6 (codes "alerts"))
                          (λ _. begin_alert-valid) (λ _. refused)))))

    single_header-valid : HeaderIsValid buf limit (single_header text p end st)
    unfolding single_header
    single_header-valid =
        let close = scan_to is_closing text p end in
        let inner_start = trim_left text p close in
        let inner_end = trim_right text inner_start close in
        HeaderIsValid-if (leb end close) (λ _. refused)
          (λ _.
            HeaderIsValid-if (leb inner_end inner_start) (λ _. refused)
              (λ _.
                HeaderIsValid-if (is_named text inner_start inner_end 3 (codes "app"))
                  (λ _. begins begin_app-valid)
                  (λ _.
                    HeaderIsValid-if
                      (is_named text inner_start inner_end 14 (codes "alert_defaults"))
                      (λ _. begins begin_defaults-valid) (λ _. refused))))

  pub parse_section_header-valid :
      (text : List ℕ) (line_start end : ℕ)
      → HeaderIsValid buf limit (parse_section_header text line_start end st)
  unfolding parse_section_header
  parse_section_header-valid text line_start end =
      let p = trim_left text line_start end in
      HeaderIsValid-if (leb end p) (λ _. skipped)
        (λ _.
          HeaderIsValid-if (not (at text p == b'[')) (λ _. skipped)
            (λ _.
              HeaderIsValid-if (ltb (p + 1) end && at text (p + 1) == b'[')
                (λ _. double_header-valid text (p + 2) end)
                (λ _. single_header-valid text (p + 1) end)))
