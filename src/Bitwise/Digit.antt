-- ===== src/Bitwise/Digit.antt =====
-- `msd_u64` and `msd_u32`: the leading decimal digit and its power of ten.
use cm_dotfiles.Prelude.{
  ℕ, zero, suc, ◌+◌, ◌*◌, ◌/◌, ◌^◌, ◌<◌, ◌≤◌, ◌≡◌, refl, arith, List, [], ◌∷◌, Bool, true, false,
  ◌==◌, leb, if◌then◌else◌, get_or, ==_iff,
}
use cm_dotfiles.Prelude.Finite.{all_below, all_below_at}
use native.Mathlib.Nat.{mod-lt, div-add-mod', pow-suc}
use native.Mathlib.Decide.{dec_le}

abbrev pub pow10_u64 : List ℕ
pow10_u64 =
    1 ∷ 10 ∷ 100 ∷ 1000 ∷ 10000 ∷ 100000 ∷ 1000000 ∷ 10000000 ∷ 100000000 ∷ 1000000000 ∷ 10000000000
    ∷ 100000000000 ∷ 1000000000000 ∷ 10000000000000 ∷ 100000000000000 ∷ 1000000000000000
    ∷ 10000000000000000 ∷ 100000000000000000 ∷ 1000000000000000000 ∷ 10000000000000000000 ∷ []

abbrev pub pow10_u32 : List ℕ
pow10_u32 = 1 ∷ 10 ∷ 100 ∷ 1000 ∷ 10000 ∷ 100000 ∷ 1000000 ∷ 10000000 ∷ 100000000 ∷ 1000000000 ∷ []

-- The loop from index `k - 1` down, and what stands behind it: `*digit` and `*value`.
unfoldable pub msd_loop : List ℕ → ℕ → ℕ → ℕ × ℕ
msd_loop powers zero n = (0, 0)
msd_loop powers (suc i) n =
    let p = get_or powers i 0 in
    let rest = msd_loop powers i n in if leb p n then (n / p, p) else rest

unfoldable pub msd_u64 : ℕ → ℕ × ℕ
msd_u64 n = msd_loop pow10_u64 20 n

unfoldable pub msd_u32 : ℕ → ℕ × ℕ
msd_u32 n = msd_loop pow10_u32 10 n

-- A digit and a power of ten below `10 ^ k` that begin the number `n`.
pub record Leads (n k : ℕ) (r : ℕ × ℕ) : Type 0 where
  pub exponent : ℕ
  pub power : r.1 ≡ 10 ^ exponent
  pub inside : exponent < k
  pub some_digit : 1 ≤ r.0
  pub one_digit : r.0 ≤ 9
  pub below : r.0 * r.1 ≤ n
  pub above : n < (r.0 + 1) * r.1

digit_lem :
    (n p : ℕ)
    → p ≤ n
    → n < 10 * p
    → (1 ≤ n / p) × (n / p ≤ 9) × (n / p * p ≤ n) × (n < (n / p + 1) * p)
digit_lem n p le lt =
    let whole = div-add-mod' n p in let rest = mod-lt n {m = p} (omega arith) in grind arith

module _ (powers : List ℕ) (size : ℕ)
    (table : (i : ℕ) → i < size → get_or powers i 0 ≡ 10 ^ i) where
  msd_loop-Leads : (k n : ℕ) → k ≤ size → 1 ≤ n → n < 10 ^ k → Leads n k (msd_loop powers k n)
  unfolding msd_loop
  msd_loop-Leads zero n h positive lt = absurd (omega arith)
  msd_loop-Leads (suc k) n h positive lt = rw (table k h) (elim (dec_le (10 ^ k) n) [
    | yes le ↦
        let d = digit_lem n (10 ^ k) le (omega (arith, lt, pow-suc 10 k)) in
        let taken : leb (10 ^ k) n ≡ true = ground arith in
        rw taken (record {
          exponent = k;
          power = refl;
          inside = omega arith;
          some_digit = d.0;
          one_digit = d.1;
          below = d.2;
          above = d.3;
        })
    | no gt ↦
        let passed : leb (10 ^ k) n ≡ false = ground arith in
        let l = msd_loop-Leads k n (omega arith) positive (omega arith) in
        rw passed (record {
          exponent = l.exponent;
          power = l.power;
          inside = omega (arith, l.inside);
          some_digit = l.some_digit;
          one_digit = l.one_digit;
          below = l.below;
          above = l.above;
        })
  ])

is_power : List ℕ → ℕ → Bool
is_power powers i = get_or powers i 0 == 10 ^ i

power_at :
    (powers : List ℕ) (size : ℕ)
    → all_below size (is_power powers) ≡ true
    → (i : ℕ) → i < size
    → get_or powers i 0 ≡ 10 ^ i
unfolding is_power
power_at powers size e i h =
    (==_iff (get_or powers i 0) (10 ^ i)).0 (all_below_at size (is_power powers) i e h)

-- For a 64-bit number other than 0 `msd_u64` finds its leading decimal digit, from 1 to 9, and the
-- power of ten at which it stands.
pub msd_u64-Leads : (n : ℕ) → 1 ≤ n → n < 2 ^ 64 → Leads n 20 (msd_u64 n)
unfolding msd_u64
msd_u64-Leads n positive h =
    msd_loop-Leads pow10_u64 20 (power_at pow10_u64 20 (unfold all_below is_power in refl)) 20 n
      (omega arith) positive (omega arith)

-- The same for a 32-bit number and `msd_u32`.
pub msd_u32-Leads : (n : ℕ) → 1 ≤ n → n < 2 ^ 32 → Leads n 10 (msd_u32 n)
unfolding msd_u32
msd_u32-Leads n positive h =
    msd_loop-Leads pow10_u32 10 (power_at pow10_u32 10 (unfold all_below is_power in refl)) 10 n
      (omega arith) positive (omega arith)
