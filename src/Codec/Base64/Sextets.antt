-- ===== src/Codec/Base64/Sextets.antt =====
-- What one group of characters means: the digits that a 24-bit word is cut into, and the bytes
-- that `base64_decode` makes of four digits, of three and of two.
use cm_dotfiles.Prelude.{
  ℕ, ◌+◌, ◌*◌, ◌/◌, ◌%◌, ◌^◌, ◌<◌, ◌≡◌, refl, arith, List, [], ◌∷◌, none, some, get_or, ◌==◌,
  if◌then◌else◌, Bool, true, false, ◌||◌, bit_or, bit_and, ◌<<◌, ◌>>◌, u8, ap, ◌∙◌,
}
use cm_dotfiles.Prelude.Bits.{and_mask, or_fields, or-lt, or_digit}
use cm_dotfiles.Prelude.Finite.{all_below, all_below_at}
use cm_dotfiles.Codec.Tables.{b64_enc_tbl, b64_dec_tbl-b64_enc_tbl, b64_dec_tbl-padding}
use cm_dotfiles.Codec.Base64.{sextet_char, group}

-- The character of a digit.
abbrev pub char_of : ℕ → ℕ
char_of d = get_or b64_enc_tbl d 0

unfoldable pub odd : ℕ → Bool
odd d = d % 2 == 1

-- The word that `base64_encode` builds of three bytes.
pub word_of_bytes :
    (x y z : ℕ) → y < 256 → z < 256 → bit_or (bit_or (x << 16) (y << 8)) z ≡ x * 65536 + y * 256 + z
word_of_bytes x y z hy hz = ground (arith, or_fields 16 x (y * 256), or_fields 8 (x * 256 + y) z)

-- Its four digits.
pub sextets_of_word :
    (v : ℕ)
    → (sextet_char v 18 ≡ char_of (v / 2 ^ 18 % 64))
      × (sextet_char v 12 ≡ char_of (v / 2 ^ 12 % 64))
      × (sextet_char v 6 ≡ char_of (v / 2 ^ 6 % 64))
      × (sextet_char v 0 ≡ char_of (v % 64))
unfolding sextet_char
sextets_of_word v = (
  ap char_of (and_mask 6 (v / 2 ^ 18)),
  ap char_of (and_mask 6 (v / 2 ^ 12)),
  ap char_of (and_mask 6 (v / 2 ^ 6)),
  ground (arith, and_mask 6 v),
)

-- The word that `base64_decode` builds of four digits.
word_of_sextets :
    (p q r s : ℕ)
    → q < 64
    → bit_or (bit_or (bit_or (p << 18) (q << 12)) (bit_and r 63 << 6)) (bit_and s 63)
      ≡ p * 2 ^ 18 + q * 2 ^ 12 + r % 64 * 64 + s % 64
word_of_sextets p q r s hq = ground (
  arith,
  and_mask 6 r,
  and_mask 6 s,
  or_fields 18 p (q * 2 ^ 12),
  or_fields 12 (p * 64 + q) (r % 64 * 64),
  or_fields 6 (p * 64 * 64 + q * 64 + r % 64) (s % 64),
)

padding_table : all_below 64 (λ w. (if bit_or w 0xFE == 0xFF then 1 else 0) == w % 2) ≡ true
unfolding all_below
padding_table = refl

-- With the padding's 0xFE, the test for 0xFF asks whether a digit is odd.
or_padding : (w : ℕ) → w < 64 → (bit_or w 0xFE == 0xFF) ≡ odd w
unfolding odd
or_padding w h = ground (
  arith,
  all_below_at 64 (λ w. (if bit_or w 0xFE == 0xFF then 1 else 0) == w % 2) w padding_table h,
)

double_padding_table :
    all_below 64 (λ w. (if bit_or (bit_or w 0xFE) 0xFE == 0xFF then 1 else 0) == w % 2) ≡ true
unfolding all_below
double_padding_table = refl

or_double_padding : (w : ℕ) → w < 64 → (bit_or (bit_or w 0xFE) 0xFE == 0xFF) ≡ odd w
unfolding odd
or_double_padding w h = ground (
  arith,
  all_below_at 64 (λ w. (if bit_or (bit_or w 0xFE) 0xFE == 0xFF then 1 else 0) == w % 2) w
      double_padding_table h,
)

or_parity : (a b : ℕ) → odd (bit_or a b) ≡ (odd a || odd b)
unfolding odd
or_parity a b = ground (arith, or_digit a b)

-- A digit, and so the union of digits, is neither of the two marks of the decoding table.
digit_ne_marks : (w : ℕ) → w < 64 → ((w == 0xFF) ≡ false) × ((w == 0xFE) ≡ false)
digit_ne_marks w h = ground arith

-- The three bytes of a word.
bytes_of_word :
    (v v' : ℕ)
    → v ≡ v'
    → (u8 (v >> 16) ∷ bit_and (v >> 8) 255 ∷ bit_and v 255 ∷ [])
      ≡ (v' / 65536 % 256 ∷ v' / 256 % 256 ∷ v' % 256 ∷ [])
bytes_of_word v v' e = ground (arith, and_mask 8 v, and_mask 8 (v / 2 ^ 8))

bytes_of_word_two :
    (v v' : ℕ)
    → v / 256 ≡ v' / 256
    → (u8 (v >> 16) ∷ bit_and (v >> 8) 255 ∷ []) ≡ (v' / 65536 % 256 ∷ v' / 256 % 256 ∷ [])
bytes_of_word_two v v' e = ground (arith, and_mask 8 (v / 2 ^ 8))

-- Four digits make three bytes, wherever the group stands.
pub group_full :
    (p q r s : ℕ) (last : Bool)
    → p < 64
    → q < 64
    → r < 64
    → s < 64
    → let v = p * 2 ^ 18 + q * 2 ^ 12 + r * 64 + s in
      group (char_of p) (char_of q) (char_of r) (char_of s) last
      ≡ some (v / 65536 % 256 ∷ v / 256 % 256 ∷ v % 256 ∷ [])
unfolding group
group_full p q r s last hp hq hr hs =
    rw
      (
        b64_dec_tbl-b64_enc_tbl p hp,
        b64_dec_tbl-b64_enc_tbl q hq,
        b64_dec_tbl-b64_enc_tbl r hr,
        b64_dec_tbl-b64_enc_tbl s hs,
        (digit_ne_marks _ (or-lt 6 _ s (or-lt 6 _ r (or-lt 6 p q hp hq) hr) hs)).0,
        (digit_ne_marks p hp).1,
        (digit_ne_marks q hq).1,
        (digit_ne_marks r hr).1,
        (digit_ne_marks s hs).1,
      )
      (ap some (bytes_of_word _ _ (word_of_sextets p q r s hq ∙ omega arith)))

-- Three digits and one padding make two bytes at the end, but only if all three are even.
pub group_three :
    (p q r : ℕ)
    → p < 64
    → q < 64
    → r < 64
    → let v = p * 2 ^ 18 + q * 2 ^ 12 + r * 64 in
      group (char_of p) (char_of q) (char_of r) b'=' true
      ≡ (if odd p || odd q || odd r then none else some (v / 65536 % 256 ∷ v / 256 % 256 ∷ []))
unfolding group
group_three p q r hp hq hr =
    rw
      (
        b64_dec_tbl-b64_enc_tbl p hp,
        b64_dec_tbl-b64_enc_tbl q hq,
        b64_dec_tbl-b64_enc_tbl r hr,
        b64_dec_tbl-padding,
        or_padding _ (or-lt 6 _ r (or-lt 6 p q hp hq) hr),
        or_parity _ r,
        or_parity p q,
        (digit_ne_marks p hp).1,
        (digit_ne_marks q hq).1,
        (digit_ne_marks r hr).1,
      )
      (ap (λ (o : List ℕ). if odd p || odd q || odd r then none else some o)
        (bytes_of_word_two _ (p * 2 ^ 18 + q * 2 ^ 12 + r * 64)
          (omega (arith, word_of_sextets p q r 0xFE hq))))

-- Two digits and two paddings make one byte at the end, but only if both are even.
pub group_two :
    (p q : ℕ)
    → p < 64
    → q < 64
    → let v = p * 2 ^ 18 + q * 2 ^ 12 in
      group (char_of p) (char_of q) b'=' b'=' true
      ≡ (if odd p || odd q then none else some (v / 65536 % 256 ∷ []))
unfolding group
group_two p q hp hq =
    rw
      (
        b64_dec_tbl-b64_enc_tbl p hp,
        b64_dec_tbl-b64_enc_tbl q hq,
        b64_dec_tbl-padding,
        or_double_padding _ (or-lt 6 p q hp hq),
        or_parity p q,
        (digit_ne_marks p hp).1,
        (digit_ne_marks q hq).1,
      )
      (ap (λ (n : ℕ). if odd p || odd q then none else some (n ∷ []))
        (omega (arith, word_of_sextets p q 0xFE 0xFE hq)))
