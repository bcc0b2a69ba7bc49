-- ===== src/Codec/Hex/Accepts.antt =====
-- Which inputs `hex_decode` accepts.
use cm_dotfiles.Prelude.{
  ℕ, ◌/◌, ◌%◌, ◌<◌, ◌≡◌, refl, arith, List, [], ◌∷◌, Option, none, some, length, ◌>>=◌, ◌∙◌,
  Bool-cases, ==_iff, inl, inr, Bool, true, false, ◌&&◌, ◌||◌, ◌==◌, leb, if◌then◌else◌, bit_or,
  ◌⊎◌,
}
use cm_dotfiles.Prelude.Bits.{and_mask, or-lt}
use cm_dotfiles.Prelude.Finite.{all_below, all_below_at}
use cm_dotfiles.Codec.Hex.{decode_loop, hex_decode}
use cm_dotfiles.Codec.Tables.{hex_dec_tbl}

-- The twenty-two characters that spell a hex digit.
unfoldable pub is_hex_digit : ℕ → Bool
is_hex_digit c = leb b'0' c && leb c b'9' || leb b'A' c && leb c b'F' || leb b'a' c && leb c b'f'

unfoldable pub all_hex_digits : List ℕ → Bool
all_hex_digits [] = true
all_hex_digits (c ∷ cs) = is_hex_digit c && all_hex_digits cs

-- The function returned something else than -1.
pub accepts {ℓ} : {A : Type ℓ} → Option A → Bool
accepts none = false
accepts (some r) = true

accepts->>= {ℓ κ} :
    {A : Type ℓ} {B : Type κ} (o : Option A) (f : A → B)
    → accepts (o >>= λ a. some (f a)) ≡ accepts o
unfolding accepts
accepts->>= none f = refl
accepts->>= (some out) f = refl

-- A digit's value is below 16, and any other character's is the mark 0xFF.
hex_dec_tbl-cases :
    (c : ℕ)
    → ((is_hex_digit c ≡ true) × (hex_dec_tbl c < 16))
      ⊎ ((is_hex_digit c ≡ false) × (hex_dec_tbl c ≡ 0xFF))
unfolding is_hex_digit hex_dec_tbl
hex_dec_tbl-cases c = ground arith

mark_table : all_below 256 (λ w. bit_or 0xFF w == 0xFF) ≡ true
unfolding all_below
mark_table = refl

mark_table' : all_below 256 (λ w. bit_or w 0xFF == 0xFF) ≡ true
unfolding all_below
mark_table' = refl

-- The test of a pair of values fails exactly if both are digits.
pair_test :
    (c d : ℕ)
    → (bit_or (hex_dec_tbl c) (hex_dec_tbl d) == 0xFF)
      ≡ (if is_hex_digit c && is_hex_digit d then false else true)
pair_test c d = ground (
  arith,
  hex_dec_tbl-cases c,
  hex_dec_tbl-cases d,
  or-lt 4 (hex_dec_tbl c) (hex_dec_tbl d),
  all_below_at 256 _ (hex_dec_tbl c) mark_table',
  all_below_at 256 _ (hex_dec_tbl d) mark_table,
)

accepts-decode_loop :
    (cs : List ℕ) → length cs % 2 ≡ 0 → accepts (decode_loop cs) ≡ all_hex_digits cs
unfolding decode_loop all_hex_digits
accepts-decode_loop [] h = unfold accepts in refl
accepts-decode_loop (c ∷ []) h = absurd (omega arith)
accepts-decode_loop (c ∷ d ∷ cs) h = rw (pair_test c d) (
    pair (is_hex_digit c) (is_hex_digit d) (decode_loop cs) (all_hex_digits cs) _
      (accepts-decode_loop cs (omega arith)))
  where
    pair :
        (p q : Bool) (o : Option (List ℕ)) (all : Bool) (byte : ℕ)
        → accepts o ≡ all
        → accepts
            (if (if p && q then false else true) then none else (o >>= λ out. some (byte ∷ out)))
          ≡ (p && (q && all))
    pair true true o all byte e = accepts->>= o (λ out. byte ∷ out) ∙ e
    pair true false o all byte e = unfold accepts in refl
    pair false q o all byte e = unfold accepts in refl

-- `hex_decode` accepts exactly the strings of even length that hold hex digits of either case
-- only; every other input is refused.
pub hex_decode-accepts :
    (cs : List ℕ) → accepts (hex_decode cs) ≡ (length cs % 2 == 0 && all_hex_digits cs)
unfolding hex_decode
hex_decode-accepts cs = elim (Bool-cases (length cs % 2 == 0)) [
  | inl even ↦
      rw (and_mask 1 (length cs), even)
        (accepts->>= (decode_loop cs) (λ out. (length cs / 2, out))
          ∙ accepts-decode_loop cs ((==_iff _ _).0 even))
  | inr odd ↦ rw (and_mask 1 (length cs), odd) (unfold accepts in refl)
]
