-- ===== src/Scenario/Handlers.antt =====
-- The handlers of toml.c, one for each section, of a key and its value. The key is the string
-- without its NUL.
use cm_dotfiles.Prelude.{
  ℕ, List, Option, none, some, ◌==◌, ◌>>=◌, if◌then◌else◌, codes, get_or, set,
}
use cm_dotfiles.Scenario.Number.{parse_app_status, parse_alert_level, parse_uint64, parse_uint32}
use cm_dotfiles.Scenario.Text.{str_eq_nocase, string_at}
use cm_dotfiles.Scenario.Types.{zero_alert, AlertSpec, Scenario, Read}
use cm_dotfiles.Scenario.Values.{parse_value_string_or_ident, parse_string_array}

abbrev pub done : List ℕ → Scenario → Option (Read Scenario)
done buf sc = some (record { buf = buf; result = sc })

-- The value as a string, with what is done with it.
abbrev pub with_string :
    List ℕ → ℕ → ℕ → (List ℕ → ℕ → Option (Read Scenario)) → Option (Read Scenario)
with_string buf start end next =
    parse_value_string_or_ident buf start end >>= λ r. next r.buf r.result

abbrev pub with_array :
    List ℕ → ℕ → ℕ → Scenario → (Scenario → ℕ → ℕ → Scenario) → Option (Read Scenario)
with_array buf start end sc next =
    parse_string_array buf sc start end >>= λ r. done r.0.buf (next r.0.result r.1 r.2)

unfoldable pub handle_kv_app : List ℕ → ℕ → ℕ → ℕ → Scenario → Option (Read Scenario)
unfolding parse_value_string_or_ident parse_string_array str_eq_nocase
handle_kv_app buf key start end sc =
    let k = string_at buf key in
    if str_eq_nocase k (codes "handle")
    then with_string buf start end (λ b s. parse_uint64 (string_at b s) >>= λ v.
        done b (record sc { app = record sc.app { handle = v } }))
    else if str_eq_nocase k (codes "name")
    then with_string buf start end
        (λ b s. done b (record sc { app = record sc.app { name = some s } }))
    else if str_eq_nocase k (codes "host_name")
    then with_string buf start end
        (λ b s. done b (record sc { app = record sc.app { host_name = some s } }))
    else if str_eq_nocase k (codes "status")
    then with_string buf start end (λ b s.
      done b (record sc { app = record sc.app { status = parse_app_status (string_at b s) } }))
    else if str_eq_nocase k (codes "labels")
    then with_array buf start end sc
        (λ r first n. record r { app = record r.app { label_start = first; label_count = n } })
    else done buf sc

unfoldable pub handle_kv_alert_defaults : List ℕ → ℕ → ℕ → ℕ → Scenario → Option (Read Scenario)
unfolding parse_value_string_or_ident parse_string_array str_eq_nocase
handle_kv_alert_defaults buf key start end sc =
    let k = string_at buf key in
    if str_eq_nocase k (codes "level")
    then with_string buf start end (λ b s.
      done b
        (record sc { default_level = parse_alert_level (string_at b s); has_default_level = 1 }))
    else if str_eq_nocase k (codes "labels")
    then with_array buf start end sc
        (λ r first n. record r { default_label_start = first; default_label_count = n })
    else done buf sc

-- `*cur`, the alert that is being read, in the scenario.
abbrev pub alert_at : Scenario → ℕ → AlertSpec
alert_at sc cur = get_or sc.alerts cur zero_alert

abbrev pub put_alert : Scenario → ℕ → AlertSpec → Scenario
put_alert sc cur a = record sc { alerts = set sc.alerts cur a }

unfoldable pub handle_kv_alert : List ℕ → ℕ → ℕ → ℕ → Scenario → ℕ → Option (Read Scenario)
unfolding parse_value_string_or_ident parse_string_array str_eq_nocase
handle_kv_alert buf key start end sc cur =
    let k = string_at buf key in
    let a = alert_at sc cur in
    if str_eq_nocase k (codes "title")
    then with_string buf start end (λ b s. done b (put_alert sc cur (record a { title = some s })))
    else if str_eq_nocase k (codes "body")
    then with_string buf start end (λ b s. done b (put_alert sc cur (record a { body = some s })))
    else if str_eq_nocase k (codes "level")
    then with_string buf start end
        (λ b s. done b (put_alert sc cur (record a { level = parse_alert_level (string_at b s) })))
    else if str_eq_nocase k (codes "labels")
    then with_array buf start end sc (λ r first n.
      put_alert r cur (record (alert_at r cur) { label_start = first; label_count = n }))
    else if str_eq_nocase k (codes "count")
    then with_string buf start end (λ b s. parse_uint32 (string_at b s) >>= λ v.
        if v == 0 then none else done b (put_alert sc cur (record a { count = v })))
    else if str_eq_nocase k (codes "period_ms")
    then with_string buf start end (λ b s.
      parse_uint32 (string_at b s) >>= λ v. done b (put_alert sc cur (record a { period_ms = v })))
    else if str_eq_nocase k (codes "at_ms")
    then with_string buf start end (λ b s. parse_uint64 (string_at b s) >>= λ v.
        done b (put_alert sc cur (record a { has_at_ms = 1; at_ms = v })))
    else done buf sc
