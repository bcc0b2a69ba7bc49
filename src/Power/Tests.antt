-- ===== src/Power/Tests.antt =====
-- Powers at concrete numbers.
use cm_dotfiles.Prelude.{◌-◌, ◌%◌, ◌^◌, ◌≡◌, refl, none, some, [], ◌∷◌, map, arith}
use cm_dotfiles.Power.{highest_bit_set, cases_from, large_exponent, ipow}
use cm_dotfiles.Power.Result.{ipow-power}

small_powers :
    map (ipow 3) (0 ∷ 1 ∷ 2 ∷ 5 ∷ 40 ∷ []) ≡ some 1 ∷ some 3 ∷ some 9 ∷ some 243 ∷ none ∷ []
unfolding ipow highest_bit_set cases_from
small_powers = refl

-- -2 to the 63rd is the least number of 64 bits, and ipow gives 0.
least_number : ipow (2 ^ 64 - 2) 63 ≡ some 0
unfolding ipow highest_bit_set large_exponent
least_number = refl

ipow-power_example : ipow (2 ^ 64 - 5) 7 ≡ some ((2 ^ 64 - 5) ^ 7 % 2 ^ 64)
ipow-power_example = ipow-power (2 ^ 64 - 5) 7 (omega arith) (omega arith) (omega arith)
