-- ===== src/Prelude/Remainder.antt =====
-- Indices round a ring.
use Prim.Native.Nat.{ℕ, ◌+◌, ◌-◌, ◌%◌, ◌≤◌, ◌<◌}
use mathlib.Core.Path.{◌≡◌, ap, sym, ◌∙◌}
use mathlib.Core.Logic.{◌≢◌, ◌⊎◌, inl, inr}
use native.Mathlib.Omega.{arith}
use native.Mathlib.Nat.{mod-lt, mod-eq_of_lt, mod-eq-sub-mod, mod-add-mod}
use native.Mathlib.Decide.{dec_lt}

-- An index past the end of the buffer by less than its size.
pub wrap_cases :
    (i span : ℕ)
    → i < span + span
    → ((i % span ≡ i) × (i < span)) ⊎ ((i % span ≡ i - span) × (span ≤ i))
wrap_cases i span h = elim (dec_lt i span) [
  | yes lt ↦ inl (mod-eq_of_lt lt, lt)
  | no ge ↦
      let le : span ≤ i = omega arith in inr (mod-eq-sub-mod le ∙ mod-eq_of_lt (omega arith), le)
]

-- Indices less than a round apart are different.
pub mod-ne : (i j span : ℕ) → i < j → j < i + span → i % span ≢ j % span
mod-ne i j span lt near e =
    let r = i % span in
    let small : r < span = mod-lt i (omega arith) in
    let d = j - i in
    let around : (r + d) % span ≡ r = mod-add-mod i span d ∙ (same ∙ sym e) in
    elim (wrap_cases (r + d) span (omega arith)) [
      | inl w ↦ absurd (omega (arith, around, w.0))
      | inr w ↦ absurd (omega (arith, around, w.0, w.1))
    ]
  where
    same : (i + (j - i)) % span ≡ j % span
    same = ap (λ (k : ℕ). k % span) (omega arith)
