-- ===== src/Scenario/Values/Refused.antt =====
-- Arrays that toml.c refuses.
use cm_dotfiles.Prelude.{
  ℕ, zero, suc, ◌+◌, ◌-◌, ◌≤◌, ◌<◌, ◌≡◌, refl, sym, ◌≢◌, false, ◌&&◌, Option, none, List, arith,
  ltb, leb, ◌==◌, ==_iff, length, get_or-set_self,
}
use mathlib.Core.Path.{subst}
use cm_dotfiles.Prelude.Ensures.{Ensures, fails, gives, Ensures-bind, Ensures-if, Ensures-none}
use cm_dotfiles.Scenario.Text.{at, is_space_char, trim_left}
use cm_dotfiles.Scenario.Text.Bounds.{trim_left_stops, trim_left_none}
use cm_dotfiles.Scenario.Types.{Scenario, Read, max_labels}
use cm_dotfiles.Scenario.Values.{
  literal_or_ident, array_element, element_start, element_end, behind_element, array_loop, Labels,
}
use cm_dotfiles.Scenario.Values.Arrays.{element_bounds}

-- Bytes as they are are read as an element, with a NUL behind them.
abbrev NulAt : ℕ → Read Scenario → Type 0
NulAt stop r = at r.buf stop ≡ 0

ident_element :
    (buf : List ℕ) (sc : Scenario) (start end : ℕ)
    → end < length buf
    → at buf start ≢ b'"'
    → Ensures (NulAt end) (array_element buf sc start end)
unfolding array_element literal_or_ident
ident_element buf sc start end d ne =
    let bare : (at buf start == b'"' && ltb (start + 1) end && at buf (end - 1) == b'"') ≡ false =
      ground arith in
    Ensures-if (leb end start) (λ _. fails)
      (λ _.
        Ensures-if (leb max_labels sc.label_count) (λ _. fails)
          (λ _. rw bare (gives (get_or-set_self buf end 0 0 d))))

nul_behind :
    (end stop count : ℕ) (r : Read Scenario) (loop : ℕ → Option Labels)
    → at r.buf stop ≡ 0
    → Ensures (λ _. ⊥) (behind_element end r (trim_left r.buf stop end) count loop)
unfolding behind_element is_space_char
nul_behind end stop count r loop z =
    let no_space : is_space_char (at r.buf stop) ≡ false = ground arith in
    let here : trim_left r.buf stop end ≡ stop = trim_left_none r.buf stop end no_space in
    rw here (
      Ensures-if (leb end stop) (λ _. fails)
        (λ _.
          Ensures-if (at r.buf stop == b',') (λ e. absurd (ground arith))
            (λ _. Ensures-if (at r.buf stop == b']') (λ e. absurd (ground arith)) (λ _. fails))))

starts_there :
    (buf : List ℕ) (p end : ℕ) → is_space_char (at buf p) ≡ false → element_start buf p end ≡ p
unfolding element_start
starts_there buf p end e = trim_left_none buf p _ e

-- Where the loop of parse_string_array stands before an element, white space left out, that does
-- not begin with a quote, it fails, however the array goes on: the NUL that is written behind such
-- an element replaces the comma or the bracket that the loop looks for next, or stands before it.
-- The bracket of the array's end is no element.
pub array_loop-unquoted :
    (n : ℕ) (buf : List ℕ) (sc : Scenario) (p end count : ℕ)
    → p ≤ end
    → end < length buf
    → at buf (trim_left buf p end) ≢ b'"'
    → at buf (trim_left buf p end) ≢ b']'
    → array_loop n buf sc p end count ≡ none
unfolding array_loop
array_loop-unquoted zero buf sc p end count le d quote bracket = refl
array_loop-unquoted (suc n) buf sc p end count le d quote bracket =
    let start = trim_left buf p end in
    let stop = element_end buf start end in
    Ensures-none (
      Ensures-if (leb end start) (λ _. fails)
        (λ lt.
          let b = element_bounds buf start end (ground arith) in
          let first : element_start buf start end ≡ start =
            starts_there buf start end (trim_left_stops buf p end le (ground arith)) in
          Ensures-if (at buf start == b']') (λ e. absurd (bracket ((==_iff _ _).0 e)))
            (λ _.
              Ensures-bind
                (ident_element buf sc (element_start buf start end) stop (omega arith)
                  (subst (λ k. at buf k ≢ b'"') (sym first) quote))
                (λ r z.
                  nul_behind end stop (count + 1) r
                    (λ q. array_loop n r.buf r.result q end (count + 1)) z))))
