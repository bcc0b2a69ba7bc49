-- ===== src/Scenario/Number/Digits.antt =====
-- `parse_uint64` of toml.c on a text of digits.
use cm_dotfiles.Prelude.{
  ◌==◌, inr, inl, leb, ◌∙◌, Bool-cases, ap, Option, none, some, if◌then◌else◌, ◌^◌, ltb, ℕ, ◌+◌,
  ◌-◌, ◌*◌, ◌≡◌, refl, Bool, true, false, List, [], ◌∷◌, ◌++◌, arith, sub64,
}
use cm_dotfiles.Prelude.Digits.{is_digit, AllAre, decimal}
use cm_dotfiles.HexTools.Htoi.{is_space}
use cm_dotfiles.Scenario.Text.{is_space_char}
use cm_dotfiles.Scenario.Number.{
  finish_number, parse_uint64, first_digit, strtoull, signed, in_range, digits, only_spaces,
}

-- The sign before the digits.
pub data Sign : Type 0 where
  no_sign plus minus : Sign

abbrev pub sign_text : Sign → List ℕ
sign_text no_sign = []
sign_text plus = b'+' ∷ []
sign_text minus = b'-' ∷ []

abbrev is_minus : Sign → Bool
is_minus minus = true
is_minus _ = false

-- A number behind a sign, as 64 bits.
abbrev pub signed_value : Sign → ℕ → ℕ
signed_value minus v = sub64 0 v
signed_value _ v = v

only_spaces-AllAre : (s : List ℕ) → AllAre is_space_char s → only_spaces s ≡ true
unfolding only_spaces
only_spaces-AllAre [] h = refl
only_spaces-AllAre (c ∷ s) (e, h) = rw e (only_spaces-AllAre s h)

digits-AllAre :
    (neg : Bool) (v : ℕ) (ds after : List ℕ)
    → AllAre is_digit ds
    → AllAre is_space_char after
    → digits neg v (ds ++ after) ≡ in_range neg (decimal v ds) after
unfolding digits decimal is_digit is_space_char
digits-AllAre neg v [] [] h k = refl
digits-AllAre neg v [] (c ∷ after) h (e, k) =
    let no : is_digit c ≡ false = ground arith in rw no refl
digits-AllAre neg v (d ∷ ds) after (e, h) k =
    rw e (digits-AllAre neg (v * 10 + (d - b'0')) ds after h k)

first_digit-AllAre :
    (neg : Bool) (d : ℕ) (ds after : List ℕ)
    → AllAre is_digit (d ∷ ds)
    → AllAre is_space_char after
    → first_digit neg (d ∷ ds ++ after) ≡ in_range neg (decimal 0 (d ∷ ds)) after
unfolding first_digit
first_digit-AllAre neg d ds after (e, h) k =
    rw e (rw e at (digits-AllAre neg 0 (d ∷ ds) after (e, h) k))

signed-AllAre :
    (sign : Sign) (d : ℕ) (ds after : List ℕ)
    → AllAre is_digit (d ∷ ds)
    → AllAre is_space_char after
    → signed (sign_text sign ++ (d ∷ ds ++ after))
      ≡ in_range (is_minus sign) (decimal 0 (d ∷ ds)) after
unfolding signed is_digit
signed-AllAre no_sign d ds after (e, h) k =
    let m : (d == b'-') ≡ false = ground arith in
    let p : (d == b'+') ≡ false = ground arith in
    rw (m, p) (first_digit-AllAre false d ds after (e, h) k)
signed-AllAre plus d ds after h k = first_digit-AllAre false d ds after h k
signed-AllAre minus d ds after h k = first_digit-AllAre true d ds after h k

-- The first byte behind the white space is none.
signed_first :
    (sign : Sign) (d : ℕ) (ds after : List ℕ)
    → is_digit d ≡ true
    → (c : ℕ) × (rest : List ℕ) × ((sign_text sign ++ (d ∷ ds ++ after)) ≡ c ∷ rest)
      × (is_space c ≡ false)
unfolding is_digit is_space
signed_first no_sign d ds after e = (d, ds ++ after, refl, ground arith)
signed_first plus d ds after e = (b'+', d ∷ ds ++ after, refl, refl)
signed_first minus d ds after e = (b'-', d ∷ ds ++ after, refl, refl)

strtoull-spaces :
    (before rest : List ℕ) (c : ℕ)
    → AllAre is_space before
    → is_space c ≡ false
    → strtoull (before ++ c ∷ rest) ≡ signed (c ∷ rest)
unfolding strtoull
strtoull-spaces [] rest c h e = rw e refl
strtoull-spaces (b ∷ before) rest c (s, h) e = rw s (strtoull-spaces before rest c h e)

finish-in_range :
    (sign : Sign) (v : ℕ) (after : List ℕ)
    → AllAre is_space_char after
    → finish_number (in_range (is_minus sign) v after)
      ≡ (if ltb v (2 ^ 64) then some (signed_value sign v) else none)
unfolding finish_number in_range
finish-in_range sign v after k = elim (Bool-cases (leb (2 ^ 64) v)) [
  | inl big ↦ let no : ltb v (2 ^ 64) ≡ false = ground arith in rw (big, no) refl
  | inr fits ↦
      let yes' : ltb v (2 ^ 64) ≡ true = ground arith in
      rw (fits, yes', only_spaces-AllAre after k) (of_sign sign)
]
  where
    of_sign :
        (g : Sign)
        → ◌≡◌ {A = Option ℕ} (some (if is_minus g then sub64 0 v else v)) (some (signed_value g v))
    of_sign no_sign = refl
    of_sign plus = refl
    of_sign minus = refl

-- parse_uint64 reads a text of decimal digits, at least one, with white space before and behind
-- it and a sign or none. Behind no sign or a plus it gives the number, and behind a minus the
-- number's negative modulo 2 ^ 64, so that a negative number is not refused; a number of 2 ^ 64 or
-- more is refused.
pub parse_uint64-decimal :
    (before : List ℕ) (sign : Sign) (d : ℕ) (ds after : List ℕ)
    → AllAre is_space before
    → AllAre is_digit (d ∷ ds)
    → AllAre is_space_char after
    → parse_uint64 (before ++ (sign_text sign ++ (d ∷ ds ++ after))) ≡ (
        if ltb (decimal 0 (d ∷ ds)) (2 ^ 64)
        then some (signed_value sign (decimal 0 (d ∷ ds)))
        else none)
unfolding parse_uint64
parse_uint64-decimal before sign d ds after h k l =
    let (c, rest, e, no_space) = signed_first sign d ds after k.0 in
    let skipped : strtoull (before ++ (sign_text sign ++ (d ∷ ds ++ after)))
        ≡ signed (sign_text sign ++ (d ∷ ds ++ after)) =
      rw e (strtoull-spaces before rest c h no_space) in
    ap finish_number (skipped ∙ signed-AllAre sign d ds after k l)
    ∙ finish-in_range sign (decimal 0 (d ∷ ds)) after l
