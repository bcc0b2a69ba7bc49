-- ===== src/Decimal/Endless.antt =====
-- The loop of `roughpow` of intfuncs.c.
use cm_dotfiles.Prelude.{ℕ, zero, suc, ◌*◌, ◌≡◌, refl, ◌≢◌, false, none, arith, ◌==◌, u32}
use cm_dotfiles.Decimal.Parse.{roughpow_loop}

-- roughpow never returns for an exponent other than 0, whatever the number of rounds, since no
-- statement of the loop changes the exponent.
pub roughpow_loop-endless : (n base exp res : ℕ) → exp ≢ 0 → roughpow_loop n base exp res ≡ none
unfolding roughpow_loop
roughpow_loop-endless zero base exp res h = refl
roughpow_loop-endless (suc n) base exp res h =
    let more : (exp == 0) ≡ false = ground arith in
    rw more (roughpow_loop-endless n (u32 (base * base)) exp _ h)
