-- ===== src/Scenario/Types.antt =====
-- scenario.h: the data of a scenario. A pointer to a string is an index into the buffer, `none` if
-- it is null.
use cm_dotfiles.Prelude.{ℕ, List, Option, none, replicate}

pub data AppStatus : Type 0 where
  unknown up weak dead ended : AppStatus

pub data AlertLevel : Type 0 where
  unknown positive information warning critical fatal : AlertLevel

abbrev pub max_labels : ℕ
max_labels = 256

abbrev pub max_alerts : ℕ
max_alerts = 64

abbrev pub max_file_size : ℕ
max_file_size = 65536

pub record AppSpec : Type 0 where
  pub handle : ℕ
  pub name : Option ℕ
  pub host_name : Option ℕ
  pub status : AppStatus
  pub label_start : ℕ
  pub label_count : ℕ

pub record AlertSpec : Type 0 where
  pub title : Option ℕ
  pub body : Option ℕ
  pub level : AlertLevel
  pub label_start : ℕ
  pub label_count : ℕ
  pub count : ℕ
  pub period_ms : ℕ
  pub has_at_ms : ℕ
  pub at_ms : ℕ

pub record Scenario : Type 0 where
  pub app : AppSpec
  pub default_level : AlertLevel
  pub has_default_level : ℕ
  pub default_label_start : ℕ
  pub default_label_count : ℕ
  pub alerts : List AlertSpec
  pub alert_count : ℕ
  pub labels : List (Option ℕ)
  pub label_count : ℕ

-- What `memset` leaves, with the handle and the status that are set behind it.
abbrev pub fresh_app : AppSpec
fresh_app = record {
  handle = 1;
  name = none;
  host_name = none;
  status = AppStatus.up;
  label_start = 0;
  label_count = 0;
}

abbrev pub zero_alert : AlertSpec
zero_alert = record {
  title = none;
  body = none;
  level = AlertLevel.unknown;
  label_start = 0;
  label_count = 0;
  count = 0;
  period_ms = 0;
  has_at_ms = 0;
  at_ms = 0;
}

abbrev pub empty_scenario : Scenario
empty_scenario = record {
  app = fresh_app;
  default_level = AlertLevel.unknown;
  has_default_level = 0;
  default_label_start = 0;
  default_label_count = 0;
  alerts = replicate max_alerts zero_alert;
  alert_count = 0;
  labels = replicate max_labels none;
  label_count = 0;
}

-- A success of one of the readers: the buffer that it leaves and what it reads.
pub record Read {ℓ} (A : Type ℓ) : Type ℓ where
  pub buf : List ℕ
  pub result : A
