-- ===== src/Decimal/Printed.antt =====
-- What the printers of intfuncs.c and int_conv.c print.
use cm_dotfiles.Decimal.Turned.{turned}
use cm_dotfiles.Prelude.{
  none, some, ◌==◌, ◌≢◌, ◌+◌, sub32, append-nil, length, ◌-◌, if◌then◌else◌, Bool, ℕ, zero, suc,
  ◌*◌, ◌/◌, ◌%◌, ◌^◌, ◌<◌, ◌≡◌, refl, sym, ap, ◌∙◌, inl, inr, true, false, List, [], ◌∷◌, ◌++◌,
  append_assoc, arith, ltb, leb, Bool-cases, u32, u64, sub64,
}
use mathlib.Core.List.{reverse, reverse-append}
use cm_dotfiles.Decimal.Print.{
  hx_i32_to_str, gga_to_str_i32, swap_loop, hx_u32_to_str, gga_to_str_i64, rounds, is_negative32,
  is_negative64, gga_to_str_u32, hx_u64_to_str, gga_to_str_u64, int_to_str, pair_high, pair_low,
  pairs_loop, hx_loop, backwards,
}
use cm_dotfiles.Decimal.Text.{digits_of-IsDecimal, IsDecimal, digits_of}

pairs_loop_lem : (n v : ℕ) (p : List ℕ) → pairs_loop n v p ≡ digits_of n v ++ p
unfolding pairs_loop digits_of
pairs_loop_lem zero v p = refl
pairs_loop_lem (suc n) v p = elim (Bool-cases (leb 100 v)) [
  | inl large ↦ rw large (
      pairs_loop_lem n (v / 100) (pair_high (v % 100) ∷ pair_low (v % 100) ∷ p)
      ∙ sym (append_assoc (digits_of n (v / 100)) _ p))
  | inr small ↦ elim (Bool-cases (leb 10 v)) [
    | inl two ↦ rw (small, two) refl
    | inr one ↦ rw (small, one) refl
  ]
]

hx_loop_lem : (n v : ℕ) (p : List ℕ) → v < 2 ^ 64 → hx_loop n v p ≡ digits_of n v ++ p
unfolding hx_loop digits_of
hx_loop_lem zero v p h = refl
hx_loop_lem (suc n) v p h =
    let r : u32 (sub64 v (u64 (v / 100 * 100))) ≡ v % 100 = omega arith in
    elim (Bool-cases (leb 100 v)) [
      | inl large ↦
          rw (large, r)
            (hx_loop_lem n (v / 100) (pair_high (v % 100) ∷ pair_low (v % 100) ∷ p) (omega arith)
              ∙ sym (append_assoc (digits_of n (v / 100)) _ p))
      | inr small ↦ elim (Bool-cases (leb 10 v)) [
        | inl two ↦ let t : ltb v 10 ≡ false = ground arith in rw (small, two, t) refl
        | inr one ↦ let t : ltb v 10 ≡ true = ground arith in rw (small, one, t) refl
      ]
    ]

reverse-backwards : (n v : ℕ) → reverse (backwards n v) ≡ digits_of n v
unfolding backwards digits_of
reverse-backwards zero v = refl
reverse-backwards (suc n) v = elim (Bool-cases (leb 100 v)) [
  | inl large ↦ rw large (
      reverse-append (pair_low (v % 100) ∷ pair_high (v % 100) ∷ []) (backwards n (v / 100))
      ∙ ap (λ (s : List ℕ). s ++ pair_high (v % 100) ∷ pair_low (v % 100) ∷ [])
          (reverse-backwards n (v / 100)))
  | inr small ↦ elim (Bool-cases (leb 10 v)) [
    | inl two ↦ rw (small, two) refl
    | inr one ↦ rw (small, one) refl
  ]
]

-- The text of a signed number, by its sign and its magnitude.
abbrev pub IsSigned : Bool → ℕ → List ℕ → Type 0
IsSigned true m s = (ds : List ℕ) × (s ≡ b'-' ∷ ds) × IsDecimal m ds
IsSigned false m s = IsDecimal m s

u64_text : (v : ℕ) → v < 2 ^ 64 → IsDecimal v (gga_to_str_u64 v)
unfolding gga_to_str_u64
u64_text v h =
    rw (pairs_loop_lem rounds v [], append-nil (digits_of rounds v))
      (digits_of-IsDecimal 9 v (omega arith))

-- For a number of 64 bits gga_to_str_u64 prints its decimal text: digits only, at least one, of
-- which the first is no zero unless it is the only one, and which stand for the number.
-- hx_u64_to_str prints the same text and returns its length, though it takes the digits off in
-- another way. For a number of 32 bits gga_to_str_u32 prints that text too.
pub gga_to_str_u64-IsDecimal :
    (v : ℕ)
    → v < 2 ^ 64
    → IsDecimal v (gga_to_str_u64 v)
      × (hx_u64_to_str v ≡ (gga_to_str_u64 v, length (gga_to_str_u64 v)))
      × (v < 2 ^ 32 → gga_to_str_u32 v ≡ gga_to_str_u64 v)
unfolding hx_u64_to_str gga_to_str_u64 gga_to_str_u32
gga_to_str_u64-IsDecimal v h =
    let same : hx_loop rounds v [] ≡ pairs_loop rounds v [] =
      hx_loop_lem rounds v [] h ∙ sym (pairs_loop_lem rounds v []) in
    (u64_text v h, ap (λ (s : List ℕ). (s, length s)) same, λ _. refl)

-- The magnitude of a signed number of 32 or of 64 bits.
abbrev pub magnitude32 : ℕ → ℕ
magnitude32 v = if is_negative32 v then 2 ^ 32 - v else v

abbrev pub magnitude64 : ℕ → ℕ
magnitude64 v = if is_negative64 v then 2 ^ 64 - v else v

backwards-pos : (n v : ℕ) → 0 < length (backwards (suc n) v)
unfolding backwards
backwards-pos n v = elim (Bool-cases (leb 100 v)) [
  | inl large ↦ rw large (omega arith)
  | inr small ↦ elim (Bool-cases (leb 10 v)) [
    | inl two ↦ rw (small, two) (omega arith)
    | inr one ↦ rw (small, one) (omega arith)
  ]
]

turned_digits :
    (sign : List ℕ) (v : ℕ)
    → ◌≡◌ {A = List ℕ × ℕ}
        (
          swap_loop
              (length (sign ++ backwards rounds v))
              (sign ++ backwards rounds v)
              (length sign)
              (length (sign ++ backwards rounds v) - 1),
          length (sign ++ backwards rounds v),
        )
        (sign ++ digits_of rounds v, length (sign ++ digits_of rounds v))
turned_digits sign v =
    rw (reverse-backwards rounds v) at (turned sign (backwards rounds v) (backwards-pos 9 v))

u32_text : (v : ℕ) → gga_to_str_u32 v ≡ digits_of rounds v
unfolding gga_to_str_u32
u32_text v = pairs_loop_lem rounds v [] ∙ append-nil (digits_of rounds v)

hx_text : (v : ℕ) → v < 2 ^ 64 → hx_u32_to_str v ≡ (digits_of rounds v, length (digits_of rounds v))
unfolding hx_u32_to_str
hx_text v h =
    ap (λ (s : List ℕ). (s, length s)) (hx_loop_lem rounds v [] h ∙ append-nil (digits_of rounds v))

-- The text of a number behind a sign, with its length.
abbrev counted : List ℕ → List ℕ × ℕ
counted s = (s, length s)

module _ (v : ℕ) (h : v < 2 ^ 32) (neg : is_negative32 v ≡ true) where
  negated : sub32 0 v ≡ 2 ^ 32 - v
  negated = ground arith

  i32_negative :
      gga_to_str_i32 v ≡ (if v == 2 ^ 31 then none else some (b'-' ∷ digits_of rounds (2 ^ 32 - v)))
  unfolding gga_to_str_i32
  i32_negative = rw (neg, negated, u32_text (2 ^ 32 - v)) refl

  int_negative : int_to_str v ≡ counted (b'-' ∷ digits_of rounds (2 ^ 32 - v))
  unfolding int_to_str
  int_negative = rw (neg, negated) (turned_digits (b'-' ∷ []) (2 ^ 32 - v))

  hx_negative : hx_i32_to_str v ≡ counted (b'-' ∷ digits_of rounds (2 ^ 32 - v))
  unfolding hx_i32_to_str
  hx_negative =
      rw (neg, negated)
        (ap (λ (r : List ℕ × ℕ). (b'-' ∷ r.0, r.1 + 1)) (hx_text (2 ^ 32 - v) (omega arith))
          ∙ ap (λ (n : ℕ). (b'-' ∷ digits_of rounds (2 ^ 32 - v), n)) (omega arith))

module _ (v : ℕ) (h : v < 2 ^ 32) (positive : is_negative32 v ≡ false) where
  i32_positive : gga_to_str_i32 v ≡ (if v == 2 ^ 31 then none else some (digits_of rounds v))
  unfolding gga_to_str_i32
  i32_positive =
      let other : (v == 2 ^ 31) ≡ false = ground arith in rw (positive, other, u32_text v) refl

  int_positive : int_to_str v ≡ counted (digits_of rounds v)
  unfolding int_to_str
  int_positive = rw positive (turned_digits [] v)

  hx_positive : hx_i32_to_str v ≡ counted (digits_of rounds v)
  unfolding hx_i32_to_str
  hx_positive = rw positive (hx_text v (omega arith))

-- For a signed number of 32 bits int_to_str, which writes the digits backwards and then turns them
-- round in place, prints a minus, if the number is negative, and the decimal text of its magnitude,
-- that of -2 ^ 31 included, and returns the length of the text. hx_i32_to_str prints the same text
-- and returns the same length. gga_to_str_i32 prints the same text, except for -2 ^ 31, where its
-- negation is undefined.
pub int_to_str-IsSigned :
    (v : ℕ)
    → v < 2 ^ 32
    → IsSigned (is_negative32 v) (magnitude32 v) (int_to_str v).0
      × ((int_to_str v).1 ≡ length (int_to_str v).0)
      × (hx_i32_to_str v ≡ int_to_str v)
      × (gga_to_str_i32 v ≡ (if v == 2 ^ 31 then none else some (int_to_str v).0))
int_to_str-IsSigned v h = elim (Bool-cases (is_negative32 v)) [
  | inl neg ↦
      rw (int_negative v h neg, hx_negative v h neg, i32_negative v h neg, neg)
        (
          (digits_of rounds (2 ^ 32 - v), refl, digits_of-IsDecimal 9 (2 ^ 32 - v) (omega arith)),
          refl,
          refl,
          refl,
        )
  | inr pos ↦
      rw (int_positive v h pos, hx_positive v h pos, i32_positive v h pos, pos)
        (digits_of-IsDecimal 9 v (omega arith), refl, refl, refl)
]

-- For a signed number of 64 bits but -2 ^ 63 gga_to_str_i64 prints a minus, if it is negative, and
-- the decimal text of its magnitude.
pub gga_to_str_i64-IsSigned :
    (v : ℕ)
    → v < 2 ^ 64
    → v ≢ 2 ^ 63
    → (s : List ℕ) × (gga_to_str_i64 v ≡ some s) × IsSigned (is_negative64 v) (magnitude64 v) s
unfolding gga_to_str_i64
gga_to_str_i64-IsSigned v h ne =
    let other : (v == 2 ^ 63) ≡ false = ground arith in
    elim (Bool-cases (is_negative64 v)) [
      | inl neg ↦
          let m : sub64 0 v ≡ 2 ^ 64 - v = ground arith in
          rw (neg, other, m)
            (
              b'-' ∷ gga_to_str_u64 (2 ^ 64 - v),
              refl,
              (gga_to_str_u64 (2 ^ 64 - v), refl, u64_text (2 ^ 64 - v) (ground arith)),
            )
      | inr pos ↦ rw pos (gga_to_str_u64 v, refl, u64_text v h)
    ]
