-- ===== src/PowerTools/Tests.antt =====
-- The tools with a function that counts zeros.
use cm_dotfiles.Prelude.{ℕ, ◌+◌, ◌-◌, ◌^◌, ◌≡◌, refl, sym, [], ◌∷◌, ◌++◌, map, arith}
use mathlib.Core.Path.{subst}
use cm_dotfiles.PowerTools.{p2below, p2above}
use cm_dotfiles.PowerTools.Clz.{CountsZeros, p2above-next_pow2_gt_u64}
use cm_dotfiles.Bitwise.Pow2.{next_pow2_gt_u64, floor_loop}
use cm_dotfiles.Bitwise.Pow2.Least.{Greatest, floor_loop-Greatest, floor_loop_lt}

-- The zeros above the highest bit.
unfoldable zeros : ℕ → ℕ
zeros x = 63 - floor_loop 64 0 x

zeros-CountsZeros : CountsZeros zeros
unfolding zeros CountsZeros
zeros-CountsZeros x one fits =
    let greatest = floor_loop-Greatest 64 0 x (omega arith) fits in
    let short = floor_loop_lt 64 0 x (omega arith) fits in
    let back : 63 - (63 - floor_loop 64 0 x) ≡ floor_loop 64 0 x = omega (arith, short) in
    (omega arith, subst (λ (k : ℕ). Greatest k x) (sym back) greatest)

above_and_below :
    map (p2above zeros) (5 ∷ 64 ∷ (2 ^ 63 + 1) ∷ []) ++ map (p2below zeros) (0 ∷ 5 ∷ 64 ∷ [])
    ≡ 8 ∷ 64 ∷ 0 ∷ 0 ∷ 4 ∷ 64 ∷ []
unfolding p2above p2below zeros floor_loop
above_and_below = refl

p2above-next_pow2_gt_u64_example : p2above zeros 70000 ≡ next_pow2_gt_u64 70000
p2above-next_pow2_gt_u64_example =
    p2above-next_pow2_gt_u64 zeros 70000 zeros-CountsZeros (omega arith) (omega arith)
