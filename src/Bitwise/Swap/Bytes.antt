-- ===== src/Bitwise/Swap/Bytes.antt =====
-- The bytes of a number after the turn.
use cm_dotfiles.Prelude.{
  ℕ, zero, suc, ◌+◌, ◌*◌, ◌/◌, ◌%◌, ◌^◌, ◌<◌, ◌≡◌, refl, sym, ap, ◌∙◌, arith, List, [], ◌∷◌,
  bit_and, bit_or, ◌<<◌, u64,
}
use mathlib.Core.List.{reverse}
use cm_dotfiles.Prelude.Bits.{and_mask, and_shifted, or_fields'}
use cm_dotfiles.Bitwise.Swap.{be64_to_le, swap_bytes_64}

-- The byte at position `i` of `x`.
abbrev pub byte : ℕ → ℕ → ℕ
byte x i = x / 2 ^ (8 * i) % 256

-- Eight bytes as a number, the low one first.
abbrev pub word : ℕ → ℕ → ℕ → ℕ → ℕ → ℕ → ℕ → ℕ → ℕ
word a b c d e f g h =
    h * 2 ^ 56
    + (g * 2 ^ 48 + (f * 2 ^ 40 + (e * 2 ^ 32 + (d * 2 ^ 24 + (c * 2 ^ 16 + (b * 2 ^ 8 + a))))))

pub masked : (x i : ℕ) → bit_and x (0xFF * 2 ^ (8 * i)) ≡ byte x i * 2 ^ (8 * i)
masked x i =
    and_shifted (8 * i) x 0xFF ∙ ap (λ (b : ℕ). b * 2 ^ (8 * i)) (and_mask 8 (x / 2 ^ (8 * i)))

or_word :
    (a b c d e f g h : ℕ)
    → a < 256
    → b < 256
    → c < 256
    → d < 256
    → e < 256
    → f < 256
    → g < 256
    → bit_or
        (bit_or
          (bit_or
            (bit_or (bit_or (bit_or (bit_or a (b * 2 ^ 8)) (c * 2 ^ 16)) (d * 2 ^ 24)) (e * 2 ^ 32))
            (f * 2 ^ 40))
          (g * 2 ^ 48))
        (h * 2 ^ 56)
      ≡ word a b c d e f g h
or_word a b c d e f g h ha hb hc hd he hf hg =
    rw
      (
        or_fields' 8 b a (omega arith),
        or_fields' 16 c (b * 2 ^ 8 + a) (omega arith),
        or_fields' 24 d (c * 2 ^ 16 + (b * 2 ^ 8 + a)) (omega arith),
        or_fields' 32 e (d * 2 ^ 24 + (c * 2 ^ 16 + (b * 2 ^ 8 + a))) (omega arith),
        or_fields' 40 f (e * 2 ^ 32 + (d * 2 ^ 24 + (c * 2 ^ 16 + (b * 2 ^ 8 + a)))) (omega arith),
        or_fields' 48 g (f * 2 ^ 40 + (e * 2 ^ 32 + (d * 2 ^ 24 + (c * 2 ^ 16 + (b * 2 ^ 8 + a)))))
            (omega arith),
        or_fields' 56 h
            (g * 2 ^ 48
              + (f * 2 ^ 40 + (e * 2 ^ 32 + (d * 2 ^ 24 + (c * 2 ^ 16 + (b * 2 ^ 8 + a))))))
            (omega arith),
      )
      refl

pub be64_to_le_lem :
    (x : ℕ)
    → be64_to_le x
      ≡ word (byte x 7) (byte x 6) (byte x 5) (byte x 4) (byte x 3) (byte x 2) (byte x 1) (byte x 0)
unfolding be64_to_le
be64_to_le_lem x =
    let e7 : bit_and (x / 2 ^ 56) 0xff ≡ byte x 7 = and_mask 8 (x / 2 ^ 56) in
    let e6 : u64 (bit_and (x / 2 ^ 48) 0xff << 8) ≡ byte x 6 * 2 ^ 8 =
      omega (arith, and_mask 8 (x / 2 ^ 48)) in
    let e5 : u64 (bit_and (x / 2 ^ 40) 0xff << 16) ≡ byte x 5 * 2 ^ 16 =
      omega (arith, and_mask 8 (x / 2 ^ 40)) in
    let e4 : u64 (bit_and (x / 2 ^ 32) 0xff << 24) ≡ byte x 4 * 2 ^ 24 =
      omega (arith, and_mask 8 (x / 2 ^ 32)) in
    let e3 : u64 (bit_and (x / 2 ^ 24) 0xff << 32) ≡ byte x 3 * 2 ^ 32 =
      omega (arith, and_mask 8 (x / 2 ^ 24)) in
    let e2 : u64 (bit_and (x / 2 ^ 16) 0xff << 40) ≡ byte x 2 * 2 ^ 40 =
      omega (arith, and_mask 8 (x / 2 ^ 16)) in
    let e1 : u64 (bit_and (x / 2 ^ 8) 0xff << 48) ≡ byte x 1 * 2 ^ 48 =
      omega (arith, and_mask 8 (x / 2 ^ 8)) in
    let e0 : u64 (bit_and x 0xff << 56) ≡ byte x 0 * 2 ^ 56 = omega (arith, and_mask 8 x) in
    rw (e7, e6, e5, e4, e3, e2, e1, e0)
      (or_word (byte x 7) (byte x 6) (byte x 5) (byte x 4) (byte x 3) (byte x 2) (byte x 1)
        (byte x 0) (omega arith) (omega arith) (omega arith) (omega arith) (omega arith)
        (omega arith) (omega arith))

pub swap_bytes_64_lem :
    (x : ℕ)
    → swap_bytes_64 x
      ≡ word (byte x 7) (byte x 6) (byte x 5) (byte x 4) (byte x 3) (byte x 2) (byte x 1) (byte x 0)
unfolding swap_bytes_64
swap_bytes_64_lem x =
    let e7 : bit_and x 0xff00000000000000 / 2 ^ 56 ≡ byte x 7 = omega (arith, masked x 7) in
    let e6 : bit_and x 0xff000000000000 / 2 ^ 40 ≡ byte x 6 * 2 ^ 8 = omega (arith, masked x 6) in
    let e5 : bit_and x 0xff0000000000 / 2 ^ 24 ≡ byte x 5 * 2 ^ 16 = omega (arith, masked x 5) in
    let e4 : bit_and x 0xff00000000 / 2 ^ 8 ≡ byte x 4 * 2 ^ 24 = omega (arith, masked x 4) in
    let e3 : u64 (bit_and x 0xff000000 << 8) ≡ byte x 3 * 2 ^ 32 = omega (arith, masked x 3) in
    let e2 : u64 (bit_and x 0xff0000 << 24) ≡ byte x 2 * 2 ^ 40 = omega (arith, masked x 2) in
    let e1 : u64 (bit_and x 0xff00 << 40) ≡ byte x 1 * 2 ^ 48 = omega (arith, masked x 1) in
    let e0 : u64 (bit_and x 0xff << 56) ≡ byte x 0 * 2 ^ 56 = omega (arith, masked x 0) in
    rw (e7, e6, e5, e4, e3, e2, e1, e0)
      (or_word (byte x 7) (byte x 6) (byte x 5) (byte x 4) (byte x 3) (byte x 2) (byte x 1)
        (byte x 0) (omega arith) (omega arith) (omega arith) (omega arith) (omega arith)
        (omega arith) (omega arith))

-- The lowest `k` bytes of a number, the low one first.
pub low_bytes : ℕ → ℕ → List ℕ
low_bytes zero x = []
low_bytes (suc k) x = x % 256 ∷ low_bytes k (x / 256)

low_bytes-word :
    (a b c d e f g h : ℕ)
    → a < 256
    → b < 256
    → c < 256
    → d < 256
    → e < 256
    → f < 256
    → g < 256
    → h < 256
    → low_bytes 8 (word a b c d e f g h) ≡ a ∷ b ∷ c ∷ d ∷ e ∷ f ∷ g ∷ h ∷ []
unfolding low_bytes
low_bytes-word a b c d e f g h ha hb hc hd he hf hg hh = ground arith

joined :
    (x : ℕ)
    → x < 2 ^ 64
    → word (byte x 0) (byte x 1) (byte x 2) (byte x 3) (byte x 4) (byte x 5) (byte x 6) (byte x 7)
      ≡ x
joined x h = omega arith

byte-word :
    (a b c d e f g h : ℕ)
    → a < 256
    → b < 256
    → c < 256
    → d < 256
    → e < 256
    → f < 256
    → g < 256
    → h < 256
    → let w = word a b c d e f g h in
      word (byte w 7) (byte w 6) (byte w 5) (byte w 4) (byte w 3) (byte w 2) (byte w 1) (byte w 0)
      ≡ word h g f e d c b a
byte-word a b c d e f g h ha hb hc hd he hf hg hh =
    let w = word a b c d e f g h in
    let w7 : byte w 7 ≡ h = omega arith in
    let w6 : byte w 6 ≡ g = omega arith in
    let w5 : byte w 5 ≡ f = omega arith in
    let w4 : byte w 4 ≡ e = omega arith in
    let w3 : byte w 3 ≡ d = omega arith in
    let w2 : byte w 2 ≡ c = omega arith in
    let w1 : byte w 1 ≡ b = omega arith in
    let w0 : byte w 0 ≡ a = omega arith in rw (w7, w6, w5, w4, w3, w2, w1, w0) refl

low_bytes_lem :
    (x : ℕ)
    → x < 2 ^ 64
    → low_bytes 8 x
      ≡ byte x 0 ∷ byte x 1 ∷ byte x 2 ∷ byte x 3 ∷ byte x 4 ∷ byte x 5 ∷ byte x 6 ∷ byte x 7 ∷ []
low_bytes_lem x h =
    ap (low_bytes 8) (sym (joined x h))
    ∙ low_bytes-word (byte x 0) (byte x 1) (byte x 2) (byte x 3) (byte x 4) (byte x 5) (byte x 6)
        (byte x 7) (omega arith) (omega arith) (omega arith) (omega arith) (omega arith)
        (omega arith) (omega arith) (omega arith)

-- `swap_bytes_64` and `__be64_to_le` agree on every number, and turn the order of its eight bytes
-- round, so that doing it twice gives a 64-bit number back.
pub low_bytes-swap_bytes_64 :
    (x : ℕ)
    → x < 2 ^ 64
    → (low_bytes 8 (swap_bytes_64 x) ≡ reverse (low_bytes 8 x))
      × (be64_to_le x ≡ swap_bytes_64 x)
      × (swap_bytes_64 (swap_bytes_64 x) ≡ x)
low_bytes-swap_bytes_64 x h = (
  ap (low_bytes 8) (swap_bytes_64_lem x)
      ∙ (low_bytes-word (byte x 7) (byte x 6) (byte x 5) (byte x 4) (byte x 3) (byte x 2) (byte x 1)
            (byte x 0) (omega arith) (omega arith) (omega arith) (omega arith) (omega arith)
            (omega arith) (omega arith) (omega arith)
          ∙ sym (ap reverse (low_bytes_lem x h))),
  be64_to_le_lem x ∙ sym (swap_bytes_64_lem x),
  ap (λ (y : ℕ). swap_bytes_64 y) (swap_bytes_64_lem x)
      ∙ (swap_bytes_64_lem (
            word (byte x 7) (byte x 6) (byte x 5) (byte x 4) (byte x 3) (byte x 2) (byte x 1)
              (byte x 0))
          ∙ (byte-word (byte x 7) (byte x 6) (byte x 5) (byte x 4) (byte x 3) (byte x 2) (byte x 1)
                (byte x 0) (omega arith) (omega arith) (omega arith) (omega arith) (omega arith)
                (omega arith) (omega arith) (omega arith)
              ∙ joined x h)),
)
