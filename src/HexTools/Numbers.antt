-- ===== src/HexTools/Numbers.antt =====
-- The number that the bytes of a number make, in both orders.
use cm_dotfiles.Prelude.{
  ℕ, zero, suc, ◌+◌, ◌-◌, ◌*◌, ◌/◌, ◌%◌, ◌^◌, ◌<◌, ◌≤◌, ◌≡◌, refl, ap, ap₂, ◌∙◌, arith, bit_or,
  bit_and, ◌<<◌, ◌>>◌, u64, length, AllBytes, take, drop,
}
use native.Mathlib.Decide.{dec_le}
use native.Mathlib.Nat.{mod-lt, one-le-pow}
use cm_dotfiles.Prelude.Bits.{and_mask, or_fields, or_fields'}
use cm_dotfiles.HexTools.Itoh.{le_bytes, be_bytes}
use cm_dotfiles.HexTools.Htoi.{be_number, le_number}

-- A number below 8 as one of the eight.
abbrev Below8 : (ℕ → Type 0) → Type 0
Below8 P = P 0 × P 1 × P 2 × P 3 × P 4 × P 5 × P 6 × P 7

below8 : (P : ℕ → Type 0) → Below8 P → (j : ℕ) → j < 8 → P j
below8 P all zero h = all.0
below8 P all (suc zero) h = all.1
below8 P all (suc (suc zero)) h = all.2
below8 P all (suc (suc (suc zero))) h = all.3
below8 P all (suc (suc (suc (suc zero)))) h = all.4
below8 P all (suc (suc (suc (suc (suc zero))))) h = all.5
below8 P all (suc (suc (suc (suc (suc (suc zero)))))) h = all.6
below8 P all (suc (suc (suc (suc (suc (suc (suc zero))))))) h = all.7
below8 P all (suc (suc (suc (suc (suc (suc (suc (suc j)))))))) h = absurd (omega arith)

-- One more byte at the low end, and at the high end.
low_byte : (m j : ℕ) → j < 8 → m / 256 % 2 ^ (8 * j) * 256 + m % 256 ≡ m % 2 ^ (8 * (j + 1))
low_byte m =
    below8 (λ j. m / 256 % 2 ^ (8 * j) * 256 + m % 256 ≡ m % 2 ^ (8 * (j + 1))) (omega arith)

high_byte :
    (n i : ℕ)
    → i < 8
    → n / 2 ^ (8 * i) % 256 * 2 ^ (8 * i) + n % 2 ^ (8 * i) ≡ n % 2 ^ (8 * (i + 1))
high_byte n =
    below8 (λ i. n / 2 ^ (8 * i) % 256 * 2 ^ (8 * i) + n % 2 ^ (8 * i) ≡ n % 2 ^ (8 * (i + 1)))
      (omega arith)

div_byte : (n k : ℕ) → k < 8 → n / 2 ^ (8 * (k + 1)) ≡ n / 2 ^ (8 * k) / 256
div_byte n = below8 (λ k. n / 2 ^ (8 * (k + 1)) ≡ n / 2 ^ (8 * k) / 256) (omega arith)

shifted-lt : (b i : ℕ) → i < 8 → b < 256 → b * 2 ^ (8 * i) < 2 ^ 64
shifted-lt b i h small = below8 (λ i. b * 2 ^ (8 * i) < 2 ^ 64) (omega arith) i h

room_above : (m j : ℕ) → j < 8 → m / 256 % 2 ^ (8 * j) * 256 < 2 ^ 64
room_above m = below8 (λ j. m / 256 % 2 ^ (8 * j) * 256 < 2 ^ 64) (omega arith)

be_step :
    (m j : ℕ)
    → j < 8
    → bit_or (u64 (m / 256 % 2 ^ (8 * j) << 8)) (bit_and m 0xFF) ≡ m % 2 ^ (8 * (j + 1))
be_step m j h =
    let fits : u64 (m / 256 % 2 ^ (8 * j) << 8) ≡ m / 256 % 2 ^ (8 * j) * 2 ^ 8 =
      omega (arith, room_above m j h) in
    rw (fits, and_mask 8 m, or_fields 8 (m / 256 % 2 ^ (8 * j)) (m % 256) (omega arith))
      (low_byte m j h)

be_number-be_bytes_from :
    (k j n : ℕ)
    → k + j ≤ 8
    → be_number (n / 2 ^ (8 * k) % 2 ^ (8 * j)) (be_bytes k n) ≡ n % 2 ^ (8 * (k + j))
unfolding be_number be_bytes
be_number-be_bytes_from zero j n h =
    ap₂ (λ (m e : ℕ). m % 2 ^ (8 * e)) {y = n} (omega arith) (omega arith)
be_number-be_bytes_from (suc k) j n h =
    ap (λ (v : ℕ). be_number v (be_bytes k n)) (stepped ∙ be_step (n / 2 ^ (8 * k)) j (omega arith))
    ∙ (be_number-be_bytes_from k (j + 1) n (omega arith)
        ∙ ap (λ (e : ℕ). n % 2 ^ (8 * e)) (omega arith))
  where
    next : suc k ≡ k + 1
    next = omega arith

    stepped :
        bit_or (u64 (n / 2 ^ (8 * suc k) % 2 ^ (8 * j) << 8)) (bit_and (n >> (8 * k)) 0xFF)
        ≡ bit_or (u64 (n / 2 ^ (8 * k) / 256 % 2 ^ (8 * j) << 8)) (bit_and (n / 2 ^ (8 * k)) 0xFF)
    stepped =
        ap (λ (q : ℕ). bit_or (u64 (q % 2 ^ (8 * j) << 8)) (bit_and (n / 2 ^ (8 * k)) 0xFF))
          (ap (λ (e : ℕ). n / 2 ^ (8 * e)) next ∙ div_byte n k (omega arith))

-- The bytes, the high one first, of a width up to 8 make the number modulo 256 ^ width.
pub be_number-be_bytes :
    (n width : ℕ) → width ≤ 8 → be_number 0 (be_bytes width n) ≡ n % 2 ^ (8 * width)
be_number-be_bytes n width h =
    ap (λ (v : ℕ). be_number v (be_bytes width n)) none_above
    ∙ (be_number-be_bytes_from width 0 n (omega arith)
        ∙ ap (λ (e : ℕ). n % 2 ^ (8 * e)) (omega arith))
  where
    none_above : 0 ≡ n / 2 ^ (8 * width) % 2 ^ (8 * 0)
    none_above = omega arith

le_number-le_bytes_from :
    (w k i n : ℕ)
    → i + k ≡ 8
    → w ≤ k
    → le_number i (n % 2 ^ (8 * i)) (take w (le_bytes k n)) ≡ n % 2 ^ (8 * (i + w))
unfolding le_number le_bytes
le_number-le_bytes_from zero k i n e h = ap (λ (j : ℕ). n % 2 ^ (8 * j)) (omega arith)
le_number-le_bytes_from (suc w) zero i n e h = absurd (omega arith)
le_number-le_bytes_from (suc w) (suc k) i n e h =
    ap (λ (v : ℕ). le_number (i + 1) v (take w (le_bytes k n))) stored
    ∙ (le_number-le_bytes_from w k (i + 1) n (omega arith) (omega arith)
        ∙ ap (λ (j : ℕ). n % 2 ^ (8 * j)) (omega arith))
  where
    at : 7 - k ≡ i
    at = omega arith

    stored :
        bit_or (n % 2 ^ (8 * i)) (u64 (bit_and (n >> (8 * (7 - k))) 0xFF << (8 * i)))
        ≡ n % 2 ^ (8 * (i + 1))
    stored =
        let b = n / 2 ^ (8 * i) % 256 in
        let fits : u64 (b << (8 * i)) ≡ b * 2 ^ (8 * i) =
          omega (arith, shifted-lt b i (omega arith) (omega arith)) in
        rw
          (
            at,
            and_mask 8 (n / 2 ^ (8 * i)),
            fits,
            or_fields' (8 * i) b (n % 2 ^ (8 * i)) (mod-lt n (one-le-pow (8 * i) 2 (omega arith))),
          )
          (high_byte n i (omega arith))

-- The same for the bytes with the low one first.
pub le_number-le_bytes :
    (n width : ℕ) → width ≤ 8 → le_number 0 0 (take width (le_bytes 8 n)) ≡ n % 2 ^ (8 * width)
le_number-le_bytes n width h =
    ap (λ (v : ℕ). le_number 0 v (take width (le_bytes 8 n))) {y = n % 2 ^ (8 * 0)} (omega arith)
    ∙ (le_number-le_bytes_from width 8 0 n (omega arith) h
        ∙ ap (λ (j : ℕ). n % 2 ^ (8 * j)) (omega arith))

pub be_bytes-AllBytes : (k n : ℕ) → AllBytes (be_bytes k n)
unfolding be_bytes
be_bytes-AllBytes zero n = tt
be_bytes-AllBytes (suc k) n = (omega (arith, and_mask 8 (n >> (8 * k))), be_bytes-AllBytes k n)

pub le_bytes-AllBytes : (k n : ℕ) → AllBytes (le_bytes k n)
unfolding le_bytes
le_bytes-AllBytes zero n = tt
le_bytes-AllBytes (suc k) n =
    (omega (arith, and_mask 8 (n >> (8 * (7 - k)))), le_bytes-AllBytes k n)

pub length-be_bytes : (k n : ℕ) → length (be_bytes k n) ≡ k
unfolding be_bytes
length-be_bytes zero n = refl
length-be_bytes (suc k) n = ap suc (length-be_bytes k n)

pub length-le_bytes : (k n : ℕ) → length (le_bytes k n) ≡ k
unfolding le_bytes
length-le_bytes zero n = refl
length-le_bytes (suc k) n = ap suc (length-le_bytes k n)

-- The low bytes are those at the end.
pub drop-be_bytes : (n width k : ℕ) → width ≤ k → drop (k - width) (be_bytes k n) ≡ be_bytes width n
unfolding be_bytes
drop-be_bytes n zero zero h = refl
drop-be_bytes n (suc width) zero h = absurd (omega arith)
drop-be_bytes n width (suc k) h = elim (dec_le width k) [
  | yes le ↦
      ap (λ (d : ℕ). drop d (be_bytes (suc k) n)) {y = suc (k - width)} (omega arith)
      ∙ drop-be_bytes n width k le
  | no gt ↦
      ap (λ (d : ℕ). drop d (be_bytes (suc k) n)) {y = 0} (omega arith)
      ∙ ap (λ (w : ℕ). be_bytes w n) {x = suc k} (omega arith)
]
