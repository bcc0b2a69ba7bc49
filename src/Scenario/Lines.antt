-- ===== src/Scenario/Lines.antt =====
-- `parse_buffer` of toml.c: the lines of the buffer.
pub mod Blank
use cm_dotfiles.Prelude.{
  ℕ, Bool, zero, suc, ◌+◌, List, Option, none, some, ◌==◌, ◌&&◌, ◌||◌, ◌>>=◌, leb, ltb,
  if◌then◌else◌, set, not,
}
use cm_dotfiles.Scenario.Text.{at, trim_left, trim_right, scan_to}
use cm_dotfiles.Scenario.Types.{Scenario, empty_scenario, Read}
use cm_dotfiles.Scenario.Handlers.{handle_kv_app, handle_kv_alert_defaults, handle_kv_alert}
use cm_dotfiles.Scenario.Header.{
  Section, no_section, app_section, defaults_section, alert_section, State, Header, bad, no_header,
  entered, parse_section_header,
}

abbrev pub with_scenario : State → Read Scenario → Option (Read State)
with_scenario st r = some (record { buf = r.buf; result = record st { sc = r.result } })

-- The handler of the section, for the key at `key` and the value between `start` and `end`.
unfoldable pub handle_kv :
    Section → Option ℕ → List ℕ → ℕ → ℕ → ℕ → Scenario → Option (Read Scenario)
unfolding handle_kv_app handle_kv_alert_defaults handle_kv_alert
handle_kv no_section cur buf key start end sc = none
handle_kv app_section cur buf key start end sc = handle_kv_app buf key start end sc
handle_kv defaults_section cur buf key start end sc = handle_kv_alert_defaults buf key start end sc
handle_kv alert_section none buf key start end sc = none
handle_kv alert_section (some cur) buf key start end sc = handle_kv_alert buf key start end sc cur

abbrev pub is_equals : ℕ → Bool
is_equals c = c == b'='

-- A line with no header, between `p` and `q`: a key and its value, with a NUL behind the key.
unfoldable pub key_value : List ℕ → ℕ → ℕ → State → Option (Read State)
unfolding trim_left trim_right scan_to handle_kv
key_value buf p q st =
    let eq = scan_to is_equals buf p q in
    let key_start = trim_left buf p eq in
    let key_end = trim_right buf key_start eq in
    if leb q eq
    then none
    else if leb key_end key_start
    then none
    else (handle_kv st.section st.current_alert (set buf key_end 0) key_start (eq + 1) q st.sc
        >>= λ r. with_scenario st r)

unfoldable pub behind_header : Header → List ℕ → ℕ → ℕ → State → Option (Read State)
unfolding key_value
behind_header bad buf p q st = none
behind_header no_header buf p q st = key_value buf p q st
behind_header (entered st') buf p q st = some (record { buf = buf; result = st' })

-- The line between the two pointers. A blank one and a comment change nothing.
unfoldable pub parse_line : List ℕ → ℕ → ℕ → State → Option (Read State)
unfolding trim_left trim_right parse_section_header behind_header
parse_line buf line_start line_end st =
    let p = trim_left buf line_start line_end in
    let q = trim_right buf p line_end in
    if ltb p q && not (at buf p == b'#')
    then behind_header (parse_section_header buf p q st) buf p q st
    else some (record { buf = buf; result = st })

-- The loop over the bytes, with those left, and the line that starts at `line_start`.
unfoldable pub line_loop : ℕ → ℕ → ℕ → ℕ → List ℕ → State → Option (Read State)
unfolding parse_line
line_loop zero len i line_start buf st = some (record { buf = buf; result = st })
line_loop (suc n) len i line_start buf st =
    let line = parse_line buf line_start i st >>= λ r.
    (let rest = line_loop n len (i + 1) (i + 1) r.buf r.result in
      if i == len then some r else rest) in
    let rest = line_loop n len (i + 1) line_start buf st in
    if i == len || at buf i == b'\n' then line else rest

abbrev pub initial : State
initial = record { section = no_section; current_alert = none; sc = empty_scenario }

unfoldable pub parse_buffer : List ℕ → ℕ → Option (Read Scenario)
unfolding line_loop
parse_buffer buf len = line_loop (len + 1) len 0 0 buf initial >>= λ r.
    some (record { buf = r.buf; result = r.result.sc })
