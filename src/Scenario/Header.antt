-- ===== src/Scenario/Header.antt =====
-- The headers of sections of toml.c, and the state of the reader between the lines.
use cm_dotfiles.Prelude.{
  ℕ, ◌+◌, ◌-◌, List, Option, some, Bool, ◌==◌, ◌&&◌, leb, ltb, if◌then◌else◌, codes, drop, not,
}
use cm_dotfiles.Scenario.Text.{at, trim_left, trim_right, scan_to, strncasecmp_zero}
use cm_dotfiles.Scenario.Types.{AlertSpec, zero_alert, max_alerts, Scenario, fresh_app}
use cm_dotfiles.Scenario.Handlers.{put_alert}

pub data Section : Type 0 where
  no_section app_section defaults_section alert_section : Section

-- `current_alert` is an index into the array of alerts, or null.
pub record State : Type 0 where
  pub section : Section
  pub current_alert : Option ℕ
  pub sc : Scenario

-- -1, 0, and 1 with the new state
pub data Header : Type 0 where
  bad no_header : Header
  entered : State → Header

abbrev pub is_closing : ℕ → Bool
is_closing c = c == b']'

abbrev pub fresh_alert : AlertSpec
fresh_alert = record zero_alert { count = 1 }

unfoldable pub begin_alert : State → Header
begin_alert st =
    if leb max_alerts st.sc.alert_count
    then bad
    else entered (record {
      section = alert_section;
      current_alert = some st.sc.alert_count;
      sc = record (put_alert st.sc st.sc.alert_count fresh_alert) {
        alert_count = st.sc.alert_count + 1;
      };
    })

-- The name between `inner_start` and `inner_end`, without regard to case.
unfoldable pub is_named : List ℕ → ℕ → ℕ → ℕ → List ℕ → Bool
unfolding strncasecmp_zero
is_named buf inner_start inner_end n name =
    inner_end - inner_start == n && strncasecmp_zero n (drop inner_start buf) name

unfoldable pub double_header : List ℕ → ℕ → ℕ → State → Header
unfolding trim_left trim_right scan_to is_named begin_alert
double_header buf p end st =
    let close = scan_to is_closing buf p end in
    let inner_start = trim_left buf p close in
    let inner_end = trim_right buf inner_start close in
    if leb end close
    then bad
    else if leb end (close + 1)
    then bad
    else if not (at buf (close + 1) == b']')
    then bad
    else if leb inner_end inner_start
    then bad
    else if is_named buf inner_start inner_end 6 (codes "alerts")
    then begin_alert st
    else bad

abbrev pub begin_app : State → State
begin_app st = record st { section = app_section; sc = record st.sc { app = fresh_app } }

abbrev pub begin_defaults : State → State
begin_defaults st = record st {
  section = defaults_section;
  sc = record st.sc {
    has_default_level = 0;
    default_label_start = st.sc.label_count;
    default_label_count = 0;
  };
}

unfoldable pub single_header : List ℕ → ℕ → ℕ → State → Header
unfolding trim_left trim_right scan_to is_named
single_header buf p end st =
    let close = scan_to is_closing buf p end in
    let inner_start = trim_left buf p close in
    let inner_end = trim_right buf inner_start close in
    if leb end close
    then bad
    else if leb inner_end inner_start
    then bad
    else if is_named buf inner_start inner_end 3 (codes "app")
    then entered (begin_app st)
    else if is_named buf inner_start inner_end 14 (codes "alert_defaults")
    then entered (begin_defaults st)
    else bad

unfoldable pub parse_section_header : List ℕ → ℕ → ℕ → State → Header
unfolding trim_left double_header single_header
parse_section_header buf line_start line_end st =
    let p = trim_left buf line_start line_end in
    if leb line_end p
    then no_header
    else if not (at buf p == b'[')
    then no_header
    else if ltb (p + 1) line_end && at buf (p + 1) == b'['
    then double_header buf (p + 2) line_end st
    else single_header buf (p + 1) line_end st
