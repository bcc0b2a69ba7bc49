-- ===== src/Scenario/Valid/Lines.antt =====
-- The lines of toml.c keep the reader's state well-formed, and leave the bytes of earlier lines.
use cm_dotfiles.Prelude.{
  ℕ, zero, suc, ◌+◌, ◌≤◌, ◌<◌, ◌≡◌, ◌&&◌, ◌||◌, not, Option, none, some, List, arith, ltb, leb,
  ◌==◌, length, set,
}
use cm_dotfiles.Prelude.Ensures.{Ensures, fails, gives, Ensures-bind, Ensures-if, Ensures-map}
use cm_dotfiles.Scenario.Types.{Scenario, Read}
use cm_dotfiles.Scenario.Text.{at, trim_left, trim_right, scan_to}
use cm_dotfiles.Scenario.Text.Bounds.{trim_left_bounds, trim_right_bounds, scan_to_bounds}
use cm_dotfiles.Scenario.Header.{
  Section, no_section, app_section, defaults_section, alert_section, State, Header, bad, no_header,
  entered, parse_section_header,
}
use cm_dotfiles.Scenario.Lines.{
  handle_kv, is_equals, key_value, behind_header, parse_line, line_loop,
}
use cm_dotfiles.Scenario.Frame.{Keeps, Keeps-refl, Keeps-trans, Keeps-widen, Keeps-set}
use cm_dotfiles.Scenario.Valid.{IsValid, IsValid-moves}
use cm_dotfiles.Scenario.Valid.Handlers.{Handles, handle_kv_app-Handles}
use cm_dotfiles.Scenario.Valid.Alerts.{handle_kv_alert_defaults-Handles, handle_kv_alert-Handles}
use cm_dotfiles.Scenario.Valid.Header.{
  IsCurrent, StateIsValid, HeaderIsValid, refused, skipped, begins, parse_section_header-valid,
}

handle_kv-Handles :
    (section : Section) (cur : Option ℕ) (buf : List ℕ) (key start end : ℕ) (sc : Scenario)
    → start ≤ end
    → end < length buf
    → IsValid buf start sc
    → IsCurrent sc.alert_count cur
    → Ensures (Handles start end buf sc) (handle_kv section cur buf key start end sc)
unfolding handle_kv
handle_kv-Handles no_section cur buf key start end sc le d v c = fails
handle_kv-Handles app_section cur buf key start end sc le d v c =
    handle_kv_app-Handles buf start end sc le d v key
handle_kv-Handles defaults_section cur buf key start end sc le d v c =
    handle_kv_alert_defaults-Handles buf start end sc le d v key
handle_kv-Handles alert_section none buf key start end sc le d v c = fails
handle_kv-Handles alert_section (some cur) buf key start end sc le d v c =
    handle_kv_alert-Handles buf start end sc le d v cur c key

-- What a line from `lo` up to `hi` leaves.
pub record ReadsLine (lo hi : ℕ) (buf : List ℕ) (r : Read State) : Type 0 where
  pub keeps : Keeps lo (hi + 1) buf r.buf
  pub valid : StateIsValid r.buf (hi + 1) r.result

IsCurrent-eq : (n m : ℕ) (cur : Option ℕ) → m ≡ n → IsCurrent n cur → IsCurrent m cur
IsCurrent-eq n m cur e c = rw e c

same_buffer :
    (lo hi : ℕ) (buf : List ℕ) (st : State)
    → lo ≤ hi
    → StateIsValid buf lo st
    → Ensures (ReadsLine lo hi buf) (some (record { buf = buf; result = st }))
same_buffer lo hi buf st le v = gives (record {
  keeps = Keeps-refl lo (hi + 1) buf;
  valid = record {
    scenario = IsValid-moves (hi + 1) (omega arith) (omega arith) (Keeps-refl lo lo buf) v.scenario;
    current = v.current;
  };
})

key_value-ReadsLine :
    (buf : List ℕ) (p q : ℕ) (st : State)
    → p ≤ q
    → q < length buf
    → StateIsValid buf p st
    → Ensures (ReadsLine p q buf) (key_value buf p q st)
unfolding key_value
key_value-ReadsLine buf p q st le d v =
    let eq = scan_to is_equals buf p q in
    let key_start = trim_left buf p eq in
    let key_end = trim_right buf key_start eq in
    let s = scan_to_bounds is_equals buf p q le in
    let l = trim_left_bounds buf p eq s.0 in
    let r = trim_right_bounds buf key_start eq l.1 in
    let written : Keeps p (eq + 1) buf (set buf key_end 0) =
      Keeps-set p (eq + 1) buf key_end 0 (omega arith) (omega arith) in
    Ensures-if (leb q eq) (λ _. fails)
      (λ found.
        let before : eq < q = ground arith in
        Ensures-if (leb key_end key_start) (λ _. fails)
          (λ _.
            Ensures-bind
              (handle_kv-Handles st.section st.current_alert (set buf key_end 0) key_start (eq + 1)
                q st.sc (omega arith) (omega (arith, written.size))
                (IsValid-moves (eq + 1) (omega arith) (omega arith) written v.scenario) v.current)
              (λ b h. gives (record {
                keeps =
                    Keeps-trans (Keeps-widen p (q + 1) (omega arith) (omega arith) written)
                      (Keeps-widen p (q + 1) (omega arith) (omega arith) h.keeps);
                valid = record {
                  scenario = h.valid;
                  current = IsCurrent-eq _ _ st.current_alert h.alerts v.current;
                };
              }))))

behind_header-ReadsLine :
    (h : Header) (buf : List ℕ) (p q : ℕ) (st : State)
    → p ≤ q
    → q < length buf
    → StateIsValid buf p st
    → HeaderIsValid buf p h
    → Ensures (ReadsLine p q buf) (behind_header h buf p q st)
unfolding behind_header
behind_header-ReadsLine bad buf p q st le d v refused = fails
behind_header-ReadsLine no_header buf p q st le d v skipped = key_value-ReadsLine buf p q st le d v
behind_header-ReadsLine (entered st') buf p q st le d v (begins w) = same_buffer p q buf st' le w

StateIsValid-widen :
    (buf : List ℕ) (limit limit' : ℕ) (st : State)
    → limit ≤ limit'
    → StateIsValid buf limit st
    → StateIsValid buf limit' st
StateIsValid-widen buf limit limit' st le v = record {
  scenario = IsValid-moves limit' (omega arith) le (Keeps-refl limit limit buf) v.scenario;
  current = v.current;
}

pub parse_line-ReadsLine :
    (buf : List ℕ) (lo hi : ℕ) (st : State)
    → lo ≤ hi
    → hi < length buf
    → StateIsValid buf lo st
    → Ensures (ReadsLine lo hi buf) (parse_line buf lo hi st)
unfolding parse_line
parse_line-ReadsLine buf lo hi st le d v =
    let p = trim_left buf lo hi in
    let q = trim_right buf p hi in
    let l = trim_left_bounds buf lo hi le in
    let r = trim_right_bounds buf p hi l.1 in
    let w = StateIsValid-widen buf lo p st l.0 v in
    Ensures-if (ltb p q && not (at buf p == b'#'))
      (λ _.
        Ensures-map
          (λ rd x. record {
            keeps = Keeps-widen lo (hi + 1) l.0 (omega arith) x.keeps;
            valid = StateIsValid-widen rd.buf (q + 1) (hi + 1) rd.result (omega arith) x.valid;
          })
          (behind_header-ReadsLine (parse_section_header buf p q st) buf p q st r.0 (omega arith) w
            (parse_section_header-valid buf p st w buf p q)))
      (λ _. same_buffer lo hi buf st le v)

pub line_loop-ReadsLine :
    (n len i lo : ℕ) (buf : List ℕ) (st : State)
    → i + n ≡ len + 1
    → lo ≤ i
    → length buf ≡ len + 1
    → StateIsValid buf lo st
    → Ensures (ReadsLine lo len buf) (line_loop n len i lo buf st)
unfolding line_loop
line_loop-ReadsLine zero len i lo buf st e le size v = gives (record {
  keeps = Keeps-refl lo (len + 1) buf;
  valid = StateIsValid-widen buf lo (len + 1) st (omega arith) v;
})
line_loop-ReadsLine (suc n) len i lo buf st e le size v =
    Ensures-if (i == len || at buf i == b'\n')
      (λ _. Ensures-bind (parse_line-ReadsLine buf lo i st le (omega arith) v) (λ r x.
        Ensures-if (i == len)
          (λ last.
            let here : i ≡ len = ground arith in
            gives (record {
              keeps = Keeps-widen lo (len + 1) (omega arith) (omega arith) x.keeps;
              valid = StateIsValid-widen r.buf (i + 1) (len + 1) r.result (omega arith) x.valid;
            }))
          (λ _.
            Ensures-map
              (λ rd y. record {
                keeps =
                    Keeps-trans (Keeps-widen lo (len + 1) (omega arith) (omega arith) x.keeps)
                      (Keeps-widen lo (len + 1) (omega arith) (omega arith) y.keeps);
                valid = y.valid;
              })
              (line_loop-ReadsLine n len (i + 1) (i + 1) r.buf r.result (omega arith) (omega arith)
                (omega (arith, x.keeps.size)) x.valid))))
      (λ _. line_loop-ReadsLine n len (i + 1) lo buf st (omega arith) (omega arith) size v)
