-- ===== src/Decimal/Permissive.antt =====
-- `parse_bool` of parse.c on words.
use cm_dotfiles.Prelude.{
  ℕ, ◌<◌, bit_or, ◌≡◌, refl, ◌≢◌, true, false, ◌||◌, not, some, List, [], ◌∷◌, arith, ◌==◌,
}
use cm_dotfiles.Prelude.Finite.{all_below, all_below_at}
use cm_dotfiles.Decimal.Parse.{cstreq_i_zero, parse_bool}

other_byte :
    all_below 256 (λ x. x == b'1' || x == 0x11 || not (bit_or x 32 == bit_or b'1' 32)) ≡ true
unfolding all_below
other_byte = refl

-- Behind its first byte one of the strings has ended.
ended : (a : List ℕ) → cstreq_i_zero a [] ≡ true
unfolding cstreq_i_zero
ended [] = refl
ended (x ∷ a) = refl

-- parse_bool takes the empty string and every string whose first byte is neither "1" nor that byte
-- less 32 for true, the words for false among them.
pub parse_bool-true :
    (parse_bool [] ≡ some 1)
    × ((x : ℕ) (a : List ℕ) → x < 256 → x ≢ b'1' → x ≢ 0x11 → parse_bool (x ∷ a) ≡ some 1)
unfolding parse_bool
parse_bool-true = (refl, differs)
  where
    differs : (x : ℕ) (a : List ℕ) → x < 256 → x ≢ b'1' → x ≢ 0x11 → parse_bool (x ∷ a) ≡ some 1
    differs x a lt p q =
        let t =
          all_below_at 256 (λ k. k == b'1' || k == 0x11 || not (bit_or k 32 == bit_or b'1' 32)) x
            other_byte lt in
        let ne : (bit_or x 32 == bit_or b'1' 32) ≡ false = ground arith in rw (ne, ended a) refl
