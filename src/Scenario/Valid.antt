-- ===== src/Scenario/Valid.antt =====
-- The well-formedness of a scenario that toml.c has read from a buffer: every string ends with a
-- NUL before the limit, and the counts and the ranges of labels are within the arrays.
pub mod Handlers
pub mod Alerts
pub mod Header
pub mod Lines
pub mod Result
pub mod Strings
use cm_dotfiles.Prelude.{
  ℕ, zero, suc, ◌+◌, ◌-◌, ◌*◌, ◌/◌, ◌%◌, ◌^◌, ◌≤◌, ◌<◌, min, bit_and, bit_or, bit_xor, ◌≡◌, refl,
  sym, ap, ap₂, ◌∙◌, ◌≢◌, ◌↔◌, ◌⊎◌, inl, inr, Bool, true, false, ◌&&◌, ◌||◌, not, Option, none,
  some, List, [], ◌∷◌, ◌++◌, map, append_assoc, append-nil, arith, ltb, leb, ◌==◌, if◌then◌else◌,
  lt→ltb, le→ltb, ==_iff, Bool-cases, Option-cases, ◌>>=◌, codes, length, get_elem?, get_or, set,
  take, drop, replicate, length-append, length-set, length-replicate, get_or-replicate,
  get_or-set_self, get_or-set_ne, take-append-drop, length-take, length-drop, take-all,
  take-of_length, AllBytes, AllBytes-append, u8, u16, u32, u64, ◌<<◌, ◌>>◌, sub64, add64, sub32,
}
use native.Mathlib.Decide.{dec_lt, ℕ_discrete}
use mathlib.Core.Path.{subst}
use cm_dotfiles.Scenario.Types.{Scenario, AppSpec, AlertSpec, zero_alert, max_alerts}
use cm_dotfiles.Scenario.Handlers.{alert_at, put_alert}
use cm_dotfiles.Scenario.Values.Labels.{LabelsAreValid, LabelsAreValid-Keeps, LabelsAreValid-widen}
use cm_dotfiles.Scenario.Values.Arrays.{LabelsOf, SameButLabels}
use cm_dotfiles.Scenario.Frame.{Keeps, EndsBefore, EndsBefore-Keeps, EndsBefore-widen}

-- A null pointer, or one to a string.
abbrev pub StringIsValid : List ℕ → ℕ → Option ℕ → Type 0
StringIsValid buf limit none = Unit {0}
StringIsValid buf limit (some s) = EndsBefore buf limit s

pub record AppIsValid (buf : List ℕ) (limit n : ℕ) (a : AppSpec) : Type 0 where
  pub name : StringIsValid buf limit a.name
  pub host_name : StringIsValid buf limit a.host_name
  pub handle : a.handle < 2 ^ 64
  pub labels : a.label_start + a.label_count ≤ n

pub record AlertIsValid (buf : List ℕ) (limit n : ℕ) (a : AlertSpec) : Type 0 where
  pub title : StringIsValid buf limit a.title
  pub body : StringIsValid buf limit a.body
  pub labels : a.label_start + a.label_count ≤ n
  pub positive : 0 < a.count
  pub count : a.count < 2 ^ 32
  pub period : a.period_ms < 2 ^ 32
  pub has_at : a.has_at_ms < 2 ^ 32
  pub at : a.at_ms < 2 ^ 64

pub record IsValid (buf : List ℕ) (limit : ℕ) (sc : Scenario) : Type 0 where
  pub labels : LabelsOf buf limit sc
  pub slots : length sc.alerts ≡ max_alerts
  pub bound : sc.alert_count ≤ max_alerts
  pub app : AppIsValid buf limit sc.label_count sc.app
  pub has_level : sc.has_default_level < 2 ^ 32
  pub defaults : sc.default_label_start + sc.default_label_count ≤ sc.label_count
  pub alerts : (i : ℕ) → i < sc.alert_count → AlertIsValid buf limit sc.label_count (alert_at sc i)

-- Nothing before the old limit is written, the limit moves on, and there may be more labels.
module _ {limit limit' lo hi n n' : ℕ} {a b : List ℕ} (under : limit ≤ lo) (on : limit ≤ limit')
    (more : n ≤ n') (k : Keeps lo hi a b) where
  StringIsValid-moves : (s : Option ℕ) → StringIsValid a limit s → StringIsValid b limit' s
  StringIsValid-moves none v = tt
  StringIsValid-moves (some s) v = EndsBefore-widen limit' b on (EndsBefore-Keeps {b = b} under k v)

  AppIsValid-moves : {x : AppSpec} → AppIsValid a limit n x → AppIsValid b limit' n' x
  AppIsValid-moves {x} v = record {
    name = StringIsValid-moves x.name v.name;
    host_name = StringIsValid-moves x.host_name v.host_name;
    handle = v.handle;
    labels = omega (arith, v.labels);
  }

  AlertIsValid-moves : {x : AlertSpec} → AlertIsValid a limit n x → AlertIsValid b limit' n' x
  AlertIsValid-moves {x} v = record {
    title = StringIsValid-moves x.title v.title;
    body = StringIsValid-moves x.body v.body;
    labels = omega (arith, v.labels);
    positive = v.positive;
    count = v.count;
    period = v.period;
    has_at = v.has_at;
    at = v.at;
  }

pub IsValid-moves :
    {limit lo hi : ℕ} (limit' : ℕ) {a b : List ℕ} {sc : Scenario}
    → limit ≤ lo
    → limit ≤ limit'
    → Keeps lo hi a b
    → IsValid a limit sc
    → IsValid b limit' sc
IsValid-moves limit' under on k v = record {
  labels = LabelsAreValid-widen limit' on (LabelsAreValid-Keeps under k v.labels);
  slots = v.slots;
  bound = v.bound;
  app = AppIsValid-moves under on (omega arith) k v.app;
  has_level = v.has_level;
  defaults = v.defaults;
  alerts = λ i h. AlertIsValid-moves under on (omega arith) k (v.alerts i h);
}

-- More labels, and nothing else.
pub IsValid-labels :
    {limit lo hi : ℕ} (limit' : ℕ) {a b : List ℕ} {sc r : Scenario}
    → limit ≤ lo
    → limit ≤ limit'
    → Keeps lo hi a b
    → SameButLabels sc r
    → sc.label_count ≤ r.label_count
    → LabelsOf b limit' r
    → IsValid a limit sc
    → IsValid b limit' r
IsValid-labels limit' {b = b} {sc = sc} {r = r} under on k same more labels v =
    let w : IsValid b limit' (record sc { labels = r.labels; label_count = r.label_count }) =
      record {
        labels = labels;
        slots = v.slots;
        bound = v.bound;
        app = AppIsValid-moves under on more k v.app;
        has_level = v.has_level;
        defaults = omega (arith, v.defaults);
        alerts = λ i h. AlertIsValid-moves under on more k (v.alerts i h);
      } in
    subst (λ x. IsValid b limit' x) (sym same) w

pub IsValid-app :
    {limit : ℕ} {a : List ℕ} {sc : Scenario} {x : AppSpec}
    → AppIsValid a limit sc.label_count x
    → IsValid a limit sc
    → IsValid a limit (record sc { app = x })
IsValid-app w v = record {
  labels = v.labels;
  slots = v.slots;
  bound = v.bound;
  app = w;
  has_level = v.has_level;
  defaults = v.defaults;
  alerts = v.alerts;
}

-- One alert of those there are is set.
pub IsValid-alert :
    {limit : ℕ} {a : List ℕ} {sc : Scenario} (cur : ℕ) {x : AlertSpec}
    → cur < sc.alert_count
    → AlertIsValid a limit sc.label_count x
    → IsValid a limit sc
    → IsValid a limit (put_alert sc cur x)
IsValid-alert {limit} {a} {sc} cur {x} lt w v = record {
  labels = v.labels;
  slots = length-set sc.alerts cur x ∙ v.slots;
  bound = v.bound;
  app = v.app;
  has_level = v.has_level;
  defaults = v.defaults;
  alerts = λ i h. elim (ℕ_discrete cur i) [
    | yes e ↦
        subst (λ k. AlertIsValid a limit sc.label_count (get_or (set sc.alerts cur x) k zero_alert))
          e (rw (get_or-set_self sc.alerts cur x zero_alert (omega (arith, v.slots, v.bound))) w)
    | no d ↦ rw (get_or-set_ne sc.alerts cur i x zero_alert d) (v.alerts i h)
  ];
}
