-- ===== src/CuteId/Words.antt =====
-- A uuid as two words of eight bytes each, and its version and variant in terms of them.
use cm_dotfiles.Prelude.{
  ℕ, zero, suc, ◌+◌, ◌*◌, ◌/◌, ◌%◌, ◌^◌, ◌<◌, ◌≡◌, refl, ap, ap₂, sym, ◌∙◌, arith, List, [], ◌∷◌,
  ◌++◌, length, get_or, take, drop, AllBytes, ◌==◌, ==_iff, ltb, true, if◌then◌else◌, bit_and,
  bit_or, ◌<<◌, ◌>>◌, u64, take-append-drop, length-take, length-drop, AllBytes-take, AllBytes-drop,
  take-of_length, AllBytes-append,
}
use cm_dotfiles.Prelude.Finite.{all_below, all_below_at}
use cm_dotfiles.Prelude.Bits.{and_mask, or_fields}
use cm_dotfiles.CuteId.Uuid.{
  Uuid, IsUuid, uuid_version, uuid_variant, variant_of_byte, be_bytes, be_word,
}

variant_table :
    all_below 256 (λ v.
      variant_of_byte v
      == (if ltb v 128 then 0 else if ltb v 192 then 1 else if ltb v 224 then 2 else 3))
    ≡ true
unfolding all_below variant_of_byte
variant_table = refl

-- The variant is read off the two or three leading bits of byte 8.
pub variant_of_byte_lem :
    (v : ℕ)
    → v < 256
    → variant_of_byte v
      ≡ (if ltb v 128 then 0 else if ltb v 192 then 1 else if ltb v 224 then 2 else 3)
variant_of_byte_lem v h = (==_iff _ _).0 (all_below_at 256 _ v variant_table h)

shift_in : (w b : ℕ) → w < 2 ^ 56 → b < 256 → bit_or (u64 (w << 8)) b ≡ w * 256 + b
shift_in w b hw hb = ground (arith, or_fields 8 w b)

abbrev pub word_of : ℕ → ℕ → ℕ → ℕ → ℕ → ℕ → ℕ → ℕ → ℕ
word_of a b c d e f g h =
    a * 2 ^ 56 + b * 2 ^ 48 + c * 2 ^ 40 + d * 2 ^ 32 + e * 2 ^ 24 + f * 2 ^ 16 + g * 2 ^ 8 + h

-- Eight bytes make the word that they spell.
pub be_word_lem :
    (a b c d e f g h : ℕ)
    → AllBytes (a ∷ b ∷ c ∷ d ∷ e ∷ f ∷ g ∷ h ∷ [])
    → be_word 0 (a ∷ b ∷ c ∷ d ∷ e ∷ f ∷ g ∷ h ∷ []) ≡ word_of a b c d e f g h
unfolding be_word
be_word_lem a b c d e f g h p =
    rw
      (
        shift_in 0 a (omega arith) (omega arith),
        shift_in (0 * 256 + a) b (omega arith) (omega arith),
        shift_in ((0 * 256 + a) * 256 + b) c (omega arith) (omega arith),
        shift_in (((0 * 256 + a) * 256 + b) * 256 + c) d (omega arith) (omega arith),
        shift_in ((((0 * 256 + a) * 256 + b) * 256 + c) * 256 + d) e (omega arith) (omega arith),
        shift_in (((((0 * 256 + a) * 256 + b) * 256 + c) * 256 + d) * 256 + e) f (omega arith)
            (omega arith),
        shift_in ((((((0 * 256 + a) * 256 + b) * 256 + c) * 256 + d) * 256 + e) * 256 + f) g
            (omega arith) (omega arith),
        shift_in
            (((((((0 * 256 + a) * 256 + b) * 256 + c) * 256 + d) * 256 + e) * 256 + f) * 256 + g) h
            (omega arith) (omega arith),
      )
      (omega arith)

-- A word is read back from the eight bytes that it is cut into.
pub be_word-be_bytes : (w : ℕ) → w < 2 ^ 64 → be_word 0 (be_bytes 8 w) ≡ w
unfolding be_bytes
be_word-be_bytes w h =
    rw
      (
        and_mask 8 (w / 2 ^ 56),
        and_mask 8 (w / 2 ^ 48),
        and_mask 8 (w / 2 ^ 40),
        and_mask 8 (w / 2 ^ 32),
        and_mask 8 (w / 2 ^ 24),
        and_mask 8 (w / 2 ^ 16),
        and_mask 8 (w / 2 ^ 8),
        and_mask 8 (w / 2 ^ 0),
        be_word_lem (w / 2 ^ 56 % 256) (w / 2 ^ 48 % 256) (w / 2 ^ 40 % 256) (w / 2 ^ 32 % 256)
            (w / 2 ^ 24 % 256) (w / 2 ^ 16 % 256) (w / 2 ^ 8 % 256) (w / 2 ^ 0 % 256) (omega arith),
      )
      (omega arith)

-- Eight bytes are cut again out of the word that they spell.
pub be_bytes-word_of :
    (a b c d e f g h : ℕ)
    → AllBytes (a ∷ b ∷ c ∷ d ∷ e ∷ f ∷ g ∷ h ∷ [])
    → be_bytes 8 (word_of a b c d e f g h) ≡ a ∷ b ∷ c ∷ d ∷ e ∷ f ∷ g ∷ h ∷ []
unfolding be_bytes
be_bytes-word_of a b c d e f g h p =
    let w = word_of a b c d e f g h in
    ground (
      arith,
      and_mask 8 (w / 2 ^ 56),
      and_mask 8 (w / 2 ^ 48),
      and_mask 8 (w / 2 ^ 40),
      and_mask 8 (w / 2 ^ 32),
      and_mask 8 (w / 2 ^ 24),
      and_mask 8 (w / 2 ^ 16),
      and_mask 8 (w / 2 ^ 8),
      and_mask 8 (w / 2 ^ 0),
    )

-- Any eight bytes are cut out of the word that they spell.
pub be_bytes-be_word :
    (bs : List ℕ)
    → length bs ≡ 8
    → AllBytes bs
    → (be_bytes 8 (be_word 0 bs) ≡ bs) × (be_word 0 bs < 2 ^ 64)
be_bytes-be_word (a ∷ b ∷ c ∷ d ∷ e ∷ f ∷ g ∷ h ∷ []) n p =
    rw (be_word_lem a b c d e f g h p) (be_bytes-word_of a b c d e f g h p, omega arith)
be_bytes-be_word bs n p = absurd (omega arith)

-- The uuid whose bytes spell two words.
abbrev pub of_words : ℕ → ℕ → Uuid
of_words hi lo = record { b = be_bytes 8 hi ++ be_bytes 8 lo }

-- Where the version, the variant and the bytes 6 and 7 stand in the words.
pub record Layout (hi lo : ℕ) : Type 0 where
  pub version : uuid_version (of_words hi lo) ≡ hi / 2 ^ 12 % 16
  pub variant : uuid_variant (of_words hi lo) ≡ variant_of_byte (lo / 2 ^ 56 % 256)
  pub byte6 : get_or (of_words hi lo).b 6 0 ≡ hi / 2 ^ 8 % 256
  pub byte7 : get_or (of_words hi lo).b 7 0 ≡ hi % 256
  pub valid : IsUuid (of_words hi lo)
  pub first : take 8 (of_words hi lo).b ≡ be_bytes 8 hi
  pub second : take 8 (drop 8 (of_words hi lo).b) ≡ be_bytes 8 lo

be_byte : (k w : ℕ) → bit_and (w >> k) 255 ≡ w / 2 ^ k % 256
be_byte k w = and_mask 8 (w / 2 ^ k)

be_bytes-AllBytes : (k w : ℕ) → AllBytes (be_bytes k w)
unfolding be_bytes
be_bytes-AllBytes zero w = tt
be_bytes-AllBytes (suc k) w = (omega (arith, and_mask 8 (w / 2 ^ (8 * k))), be_bytes-AllBytes k w)

pub of_words-Layout : (hi lo : ℕ) → Layout hi lo
of_words-Layout hi lo = record {
  version =
      unfold uuid_version be_bytes in
      omega (arith, and_mask 4 (bit_and (hi >> 8) 255 / 2 ^ 4), and_mask 8 (hi / 2 ^ 8));
  variant = unfold uuid_variant be_bytes in ap variant_of_byte (be_byte 56 lo);
  byte6 = unfold be_bytes in be_byte 8 hi;
  byte7 = unfold be_bytes in ground (arith, and_mask 8 hi);
  valid = record {
    sixteen = unfold be_bytes in refl;
    bytes =
        AllBytes-append (be_bytes 8 hi) (be_bytes 8 lo) (be_bytes-AllBytes 8 hi)
          (be_bytes-AllBytes 8 lo);
  };
  first = unfold be_bytes in refl;
  second = unfold be_bytes in refl;
}

-- Every uuid of sixteen bytes spells two words.
pub words_of_uuid :
    (u : Uuid)
    → IsUuid u
    → let hi = be_word 0 (take 8 u.b) in
      let lo = be_word 0 (take 8 (drop 8 u.b)) in
      (u ≡ of_words hi lo) × (hi < 2 ^ 64) × (lo < 2 ^ 64)
words_of_uuid u v =
    let (first, hi_fits) =
      be_bytes-be_word (take 8 u.b) (omega (arith, length-take 8 u.b))
        (AllBytes-take 8 u.b v.bytes) in
    let rest_length : length (drop 8 u.b) ≡ 8 = omega (arith, length-drop 8 u.b) in
    let all_rest : take 8 (drop 8 u.b) ≡ drop 8 u.b = take-of_length 8 (drop 8 u.b) (omega arith) in
    let (second, lo_fits) =
      be_bytes-be_word (take 8 (drop 8 u.b)) (rw all_rest rest_length)
        (AllBytes-take 8 (drop 8 u.b) (AllBytes-drop 8 u.b v.bytes)) in
    let whole : u.b
        ≡ be_bytes 8 (be_word 0 (take 8 u.b)) ++ be_bytes 8 (be_word 0 (take 8 (drop 8 u.b))) =
      sym (ap₂ ◌++◌ first (second ∙ all_rest) ∙ take-append-drop 8 u.b) in
    ((λ i. record { b = whole i }), hi_fits, lo_fits)
