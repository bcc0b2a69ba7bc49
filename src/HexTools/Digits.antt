-- ===== src/HexTools/Digits.antt =====
-- The bytes that itoh prints, as digits.
use cm_dotfiles.Prelude.{
  ℕ, zero, suc, ◌+◌, ◌*◌, ◌/◌, ◌%◌, ◌<◌, ◌≤◌, ◌≡◌, refl, sym, ap, ◌∙◌, arith, List, [], ◌∷◌, ◌++◌,
  none, some, Bool, true, false, not, ◌==◌, ◌&&◌, leb, bit_or, bit_and, ◌<<◌, ◌>>◌, u8, length,
  length-append, AllBytes,
}
use cm_dotfiles.Prelude.Bits.{and_mask, or_fields}
use cm_dotfiles.Prelude.Finite.{all_below, all_below_at}
use native.Mathlib.Decide.{ℕ_discrete}
use cm_dotfiles.HexTools.Itoh.{hex_char, print_encoded_bytes}
use cm_dotfiles.HexTools.Htoi.{
  is_space, is_xdigit, hex_dec_tbl, behind, sep_at, space_at, or_else, again, store_byte, skip,
  byte, low_digit, high_digit, next_byte, parsed, and_then, read_bytes,
}

-- A separator that cannot be taken for digits: it is empty or begins with no digit.
pub data IsSeparator : List ℕ → Type 0 where
  nothing : IsSeparator []
  mark : {d : ℕ} {sep : List ℕ} → is_xdigit d ≡ false → IsSeparator (d ∷ sep)

digit_ok : ℕ → Bool
digit_ok d = is_xdigit (hex_char d) && not (is_space (hex_char d)) && hex_dec_tbl (hex_char d) == d

pub hex_char_lem :
    (d : ℕ)
    → d < 16
    → (is_xdigit (hex_char d) ≡ true)
      × (is_space (hex_char d) ≡ false)
      × (hex_dec_tbl (hex_char d) ≡ d)
unfolding digit_ok
hex_char_lem d h =
    let t : digit_ok d ≡ true =
      all_below_at 16 digit_ok d (unfold is_xdigit hex_char is_space hex_dec_tbl all_below in refl)
        h in
    ground arith

sep_at-digit :
    (sep : List ℕ) (c : ℕ) (s : List ℕ)
    → IsSeparator sep
    → is_xdigit c ≡ true
    → sep_at sep (c ∷ s) ≡ none
unfolding sep_at behind
sep_at-digit [] c s q x = refl
sep_at-digit (d ∷ sep) c s (mark y) x =
    let differ : (d == c) ≡ false = elim (ℕ_discrete d c) [
      | yes e ↦ absurd (let z = ap is_xdigit e in cc)
      | no ne ↦ ground arith
    ] in
    rw differ refl

space_at-digit :
    (trim : Bool) (c : ℕ) (s : List ℕ) → is_space c ≡ false → space_at trim (c ∷ s) ≡ none
unfolding space_at
space_at-digit true c s n = rw n refl
space_at-digit false c s n = refl

-- A digit is not skipped.
skip-digit :
    (fuel : ℕ) (sep : List ℕ) (trim : Bool) (c : ℕ) (s : List ℕ)
    → IsSeparator sep
    → is_xdigit c ≡ true
    → is_space c ≡ false
    → skip fuel sep trim (c ∷ s) ≡ c ∷ s
unfolding skip or_else again
skip-digit zero sep trim c s q x n = refl
skip-digit (suc fuel) sep trim c s q x n =
    rw (sep_at-digit sep c s q x, space_at-digit trim c s n) refl

behind-append : (sep s : List ℕ) → behind sep (sep ++ s) ≡ some s
unfolding behind
behind-append [] s = refl
behind-append (d ∷ sep) s =
    let same : (d == d) ≡ true = ground arith in rw same (behind-append sep s)

-- A separator before a digit is.
skip-separator :
    (fuel : ℕ) (sep : List ℕ) (trim : Bool) (c : ℕ) (s : List ℕ)
    → IsSeparator sep
    → is_xdigit c ≡ true
    → is_space c ≡ false
    → skip (suc fuel) sep trim (sep ++ (c ∷ s)) ≡ c ∷ s
skip-separator fuel [] trim c s q x n = skip-digit (suc fuel) [] trim c s q x n
skip-separator fuel (d ∷ sep) trim c s q x n =
    unfold skip or_else sep_at again in
    rw (behind-append (d ∷ sep) (c ∷ s)) (skip-digit fuel (d ∷ sep) trim c s q x n)

digits_lem : (b : ℕ) → b < 256 → bit_or (u8 (b / 16 << 4)) (bit_and b 15) ≡ b
digits_lem b h =
    let low = and_mask 4 b in
    let small : b / 16 * 16 % 256 ≡ b / 16 * 16 = omega arith in
    rw (small, or_fields 4 (b / 16) (bit_and b 15) (omega arith)) (omega arith)

-- Both digits of a byte.
next_byte-digits :
    (sep : List ℕ) (trim : Bool) (b : ℕ) (s : List ℕ)
    → IsSeparator sep
    → b < 256
    → next_byte sep trim (hex_char (b >> 4) ∷ hex_char (bit_and b 15) ∷ s) ≡ byte b s
unfolding next_byte high_digit low_digit
next_byte-digits sep trim b s q h =
    let hi = hex_char_lem (b / 16) (omega arith) in
    let low_small : bit_and b 15 < 16 = omega (arith, and_mask 4 b) in
    let lo = hex_char_lem (bit_and b 15) low_small in
    let whole : bit_or (u8 (b / 16 << 4)) (bit_and b 15) ≡ b = digits_lem b h in
    rw
      (
        skip-digit (length (hex_char (b / 16) ∷ hex_char (bit_and b 15) ∷ s)) sep trim
            (hex_char (b / 16)) (hex_char (bit_and b 15) ∷ s) q hi.0 hi.1,
        hi.0,
        skip-digit (length (hex_char (bit_and b 15) ∷ s)) sep trim (hex_char (bit_and b 15)) s q
            lo.0 lo.1,
        lo.0,
        hi.2,
        lo.2,
        whole,
      )
      refl

-- The same behind a separator.
next_byte-separator :
    (sep : List ℕ) (trim : Bool) (b : ℕ) (s : List ℕ)
    → IsSeparator sep
    → b < 256
    → next_byte sep trim (sep ++ (hex_char (b >> 4) ∷ hex_char (bit_and b 15) ∷ s)) ≡ byte b s
next_byte-separator sep trim b s q h =
    unfold next_byte in
    let hi = hex_char_lem (b / 16) (omega arith) in
    let digits = hex_char (b >> 4) ∷ hex_char (bit_and b 15) ∷ s in
    let long : length (sep ++ digits) ≡ suc (length sep + suc (length s)) =
      omega (arith, length-append sep digits) in
    rw
      (
        long,
        skip-separator (length sep + suc (length s)) sep trim (hex_char (b / 16))
            (hex_char (bit_and b 15) ∷ s) q hi.0 hi.1,
      )
      (ap (high_digit sep trim) (
          sym (
            skip-digit (length digits) sep trim (hex_char (b / 16)) (hex_char (bit_and b 15) ∷ s) q
              hi.0 hi.1))
        ∙ next_byte-digits sep trim b s q h)

read_bytes-step :
    (fuel : ℕ) (sep : List ℕ) (trim : Bool) (nbytes b : ℕ) (t rest : List ℕ)
    → 0 < length t
    → nbytes < 8
    → next_byte sep trim t ≡ byte b rest
    → read_bytes (suc fuel) sep trim nbytes t
      ≡ and_then b (read_bytes fuel sep trim (nbytes + 1) rest)
unfolding read_bytes store_byte
read_bytes-step fuel sep trim nbytes b [] rest positive room e = absurd (omega arith)
read_bytes-step fuel sep trim nbytes b (c ∷ t) rest positive room e =
    let more : leb 8 nbytes ≡ false = ground arith in rw (e, more) refl

-- The loop reads the bytes printed, with a separator before them and without.
pub read_bytes-print :
    (bs : List ℕ) (b fuel nbytes : ℕ) (sep : List ℕ) (trim : Bool)
    → IsSeparator sep
    → AllBytes (b ∷ bs)
    → nbytes + length (b ∷ bs) ≤ 8
    → length (b ∷ bs) ≤ fuel
    → (read_bytes fuel sep trim nbytes (print_encoded_bytes sep [] (b ∷ bs)) ≡ parsed (b ∷ bs))
      × (read_bytes fuel sep trim nbytes (sep ++ print_encoded_bytes sep [] (b ∷ bs))
          ≡ parsed (b ∷ bs))
unfolding print_encoded_bytes and_then
read_bytes-print bs b zero nbytes sep trim q h few enough = absurd (omega arith)
read_bytes-print [] b (suc fuel) nbytes sep trim q h few enough = (
  read_bytes-step fuel sep trim nbytes b _ [] (omega arith) (omega arith)
        (next_byte-digits sep trim b [] q h.0)
      ∙ ap (and_then b) (done fuel),
  read_bytes-step fuel sep trim nbytes b _ []
        (long (hex_char (b >> 4)) (hex_char (bit_and b 15) ∷ [])) (omega arith)
        (next_byte-separator sep trim b [] q h.0)
      ∙ ap (and_then b) (done fuel),
)
  where
    done : (fuel : ℕ) → read_bytes fuel sep trim (nbytes + 1) [] ≡ parsed []
    done zero = unfold read_bytes in refl
    done (suc fuel) = unfold read_bytes in refl

    long : (c : ℕ) (s : List ℕ) → 0 < length (sep ++ (c ∷ s))
    long c s = omega (arith, length-append sep (c ∷ s))
read_bytes-print (c ∷ bs) b (suc fuel) nbytes sep trim q h few enough =
    let rest = sep ++ print_encoded_bytes sep [] (c ∷ bs) in
    let ih = read_bytes-print bs c fuel (nbytes + 1) sep trim q h.1 (omega arith) (omega arith) in
    (
      read_bytes-step fuel sep trim nbytes b _ rest (omega arith) (omega arith)
            (next_byte-digits sep trim b rest q h.0)
          ∙ ap (and_then b) ih.1,
      read_bytes-step fuel sep trim nbytes b _ rest
            (long (hex_char (b >> 4)) (hex_char (bit_and b 15) ∷ rest)) (omega arith)
            (next_byte-separator sep trim b rest q h.0)
          ∙ ap (and_then b) ih.1,
    )
  where
    long : (c : ℕ) (s : List ℕ) → 0 < length (sep ++ (c ∷ s))
    long c s = omega (arith, length-append sep (c ∷ s))
