-- ===== src/Bitwise/Tests.antt =====
-- Byte order, digits, powers of two and ints on concrete numbers.
use cm_dotfiles.Prelude.{◌-◌, ◌^◌, ◌≡◌, refl, true, arith, some, none}
use cm_dotfiles.Bitwise.Signed.{from_least, safe_average, did_add_wrap, fast_abs}
use cm_dotfiles.Bitwise.Signed.Sums.{did_add_wrap-fits}
use cm_dotfiles.Bitwise.Swap.{swap_bytes_64}
use cm_dotfiles.Bitwise.Pow2.{
  next_pow2_gt, next_pow2_gt_u64, log2_floor, log2_ceil, floor_loop, ceil_loop,
}
use cm_dotfiles.Bitwise.Pow2.Least.{Least, next_pow2_gt-log2_ceil}
use cm_dotfiles.Bitwise.Digit.{msd_u64, msd_loop, Leads, msd_u64-Leads}

turned : swap_bytes_64 0x0102030405060708 ≡ 0x0807060504030201
unfolding swap_bytes_64
turned = refl

leading : msd_u64 70512 ≡ (7, 10000)
unfolding msd_u64 msd_loop
leading = refl

msd_u64-Leads_example : Leads 70512 20 (msd_u64 70512)
msd_u64-Leads_example = msd_u64-Leads 70512 (omega arith) (omega arith)

next_pow2_gt-log2_ceil_example :
    (next_pow2_gt 1000 ≡ 2 ^ log2_ceil 1000)
    × ((next_pow2_gt_u64 1000 ≡ 2 ^ log2_ceil 1000) × Least (log2_ceil 1000) 1000)
next_pow2_gt-log2_ceil_example = next_pow2_gt-log2_ceil 1000 (omega arith) (omega arith)

logarithms : (log2_floor 1000 ≡ 9) × (log2_ceil 1000 ≡ 10)
unfolding log2_floor log2_ceil floor_loop ceil_loop
logarithms = (refl, refl)

-- -5 and 2, and the greatest int and 1.
signed :
    (from_least (safe_average (2 ^ 32 - 5) 2) ≡ 2 ^ 31 - 2)
    × (did_add_wrap (2 ^ 31 - 1) 1 ≡ none)
    × (fast_abs (2 ^ 32 - 5) ≡ some 5)
unfolding safe_average did_add_wrap fast_abs
signed = (refl, refl, refl)

sum_of_five : did_add_wrap 5 5 ≡ some (10, true)
unfolding did_add_wrap
sum_of_five = refl

did_add_wrap-fits_example : did_add_wrap (2 ^ 32 - 5) 2 ≡ some (2 ^ 32 - 3, true)
did_add_wrap-fits_example = did_add_wrap-fits (2 ^ 32 - 5) 2 (omega arith) (omega arith)
