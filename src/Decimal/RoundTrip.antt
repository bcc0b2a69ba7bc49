-- ===== src/Decimal/RoundTrip.antt =====
-- `dirty_parse_int` on decimal texts.
use cm_dotfiles.Prelude.{
  some, ◌==◌, length, ℕ, ◌+◌, ◌-◌, ◌*◌, ◌^◌, ◌≤◌, ◌<◌, ◌≡◌, refl, ap, ◌∙◌, false, List, [], ◌∷◌,
  arith, u32, sub32,
}
use cm_dotfiles.Prelude.Digits.{is_digit, AllAre, decimal}
use cm_dotfiles.Decimal.Print.{hx_i32_to_str, int_to_str, gga_to_str_i32, is_negative32}
use cm_dotfiles.Decimal.Parse.{dirty_loop, dirty_parse_int}
use cm_dotfiles.Decimal.Text.{IsDecimal}
use cm_dotfiles.Decimal.Printed.{int_to_str-IsSigned}

dirty_loop-decimal :
    (r : ℕ) (s : List ℕ) → AllAre is_digit s → dirty_loop (u32 r) s ≡ u32 (decimal r s)
unfolding dirty_loop decimal is_digit
dirty_loop-decimal r [] h = refl
dirty_loop-decimal r (c ∷ s) (e, h) =
    let digit : (b'0' ≤ c) × (c ≤ b'9') = ground arith in
    let step : u32 (u32 (u32 r * 10) + sub32 c b'0') ≡ u32 (r * 10 + (c - b'0')) = omega arith in
    rw step (dirty_loop-decimal (r * 10 + (c - b'0')) s h)

of_text : (v : ℕ) (s : List ℕ) → v < 2 ^ 32 → IsDecimal v s → dirty_parse_int s ≡ v
unfolding dirty_parse_int
of_text v s h d = dirty_loop-decimal 0 s d.digits ∙ (ap (λ (k : ℕ). u32 k) d.value ∙ omega arith)

-- For a number of 32 bits that is not negative, dirty_parse_int reads back the text that int_to_str
-- prints, whose length int_to_str returns. hx_i32_to_str returns the same text and length, and
-- gga_to_str_i32 the same text.
pub dirty_parse_int-int_to_str :
    (v : ℕ)
    → v < 2 ^ 31
    → (dirty_parse_int (int_to_str v).0 ≡ v)
      × ((int_to_str v).1 ≡ length (int_to_str v).0)
      × (hx_i32_to_str v ≡ int_to_str v)
      × (gga_to_str_i32 v ≡ some (int_to_str v).0)
dirty_parse_int-int_to_str v h =
    let (text, len, by_hx, by_gga) = int_to_str-IsSigned v (omega arith) in
    let positive : is_negative32 v ≡ false = ground arith in
    let other : (v == 2 ^ 31) ≡ false = ground arith in
    (of_text v (int_to_str v).0 (omega arith) (rw positive at text), len, by_hx, rw other at by_gga)
