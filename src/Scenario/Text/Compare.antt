-- ===== src/Scenario/Text/Compare.antt =====
-- The comparison of strings without regard to case.
use cm_dotfiles.Prelude.{
  ℕ, ◌≡◌, refl, ap₂, ◌↔◌, inl, inr, true, List, [], ◌∷◌, map, arith, ◌==◌, ==_iff, Bool-cases,
}
use cm_dotfiles.Scenario.Text.{lower, str_eq_nocase}

-- Two strings are equal to str_eq_nocase exactly when they are the same with their capital letters
-- made small.
pub str_eq_nocase_iff : (a b : List ℕ) → (str_eq_nocase a b ≡ true) ↔ (map lower a ≡ map lower b)
unfolding str_eq_nocase
str_eq_nocase_iff [] [] = (λ _. refl, λ _. refl)
str_eq_nocase_iff [] (b ∷ bs) = (λ h. cc, λ h. cc)
str_eq_nocase_iff (a ∷ as') [] = (λ h. cc, λ h. cc)
str_eq_nocase_iff (a ∷ as') (b ∷ bs) =
    let ih = str_eq_nocase_iff as' bs in
    elim (Bool-cases (lower a == lower b)) [
      | inl same ↦
          let e : lower a ≡ lower b = (==_iff (lower a) (lower b)).0 same in
          rw same (λ h. ap₂ (λ (x : ℕ) (xs : List ℕ). x ∷ xs) e (ih.0 h), λ h. ih.1 (cc))
      | inr ne ↦ rw ne (λ h. cc, λ h. let e : lower a ≡ lower b = cc in absurd (ground arith))
    ]
