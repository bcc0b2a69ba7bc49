-- ===== src/Scenario/Values/Labels.antt =====
-- The array of labels of a scenario, and the strings that they point to.
use cm_dotfiles.Prelude.{
  ℕ, ◌+◌, ◌≤◌, ◌<◌, ◌≡◌, ◌∙◌, ap, List, Option, none, some, length, length-set, set, get_or,
  get_or-set_self, get_or-set_ne, arith,
}
use native.Mathlib.Decide.{ℕ_discrete}
use cm_dotfiles.Scenario.Types.{max_labels}
use cm_dotfiles.Scenario.Frame.{Keeps, EndsBefore, EndsBefore-Keeps, EndsBefore-widen}

-- A label points to a string with its NUL before the limit.
abbrev pub PointsTo : List ℕ → ℕ → Option ℕ → Type 0
PointsTo buf limit o = (s : ℕ) × (o ≡ some s) × EndsBefore buf limit s

pub record LabelsAreValid (buf : List ℕ) (limit : ℕ) (labels : List (Option ℕ)) (n : ℕ)
    : Type 0 where
  pub slots : length labels ≡ max_labels
  pub bound : n ≤ max_labels
  pub each : (i : ℕ) → i < n → PointsTo buf limit (get_or labels i none)

pub LabelsAreValid-Keeps :
    {limit lo hi n : ℕ} {a b : List ℕ} {labels : List (Option ℕ)}
    → limit ≤ lo
    → Keeps lo hi a b
    → LabelsAreValid a limit labels n
    → LabelsAreValid b limit labels n
LabelsAreValid-Keeps {b = b} le k v = record {
  slots = v.slots;
  bound = v.bound;
  each = λ i h. let (s, e, z) = v.each i h in (s, e, EndsBefore-Keeps {b = b} le k z);
}

pub LabelsAreValid-widen :
    {limit n : ℕ} (limit' : ℕ) {a : List ℕ} {labels : List (Option ℕ)}
    → limit ≤ limit'
    → LabelsAreValid a limit labels n
    → LabelsAreValid a limit' labels n
LabelsAreValid-widen limit' {a = a} le v = record {
  slots = v.slots;
  bound = v.bound;
  each = λ i h. let (s, e, z) = v.each i h in (s, e, EndsBefore-widen limit' a le z);
}

pub LabelsAreValid-push :
    {limit n : ℕ} {a : List ℕ} {labels : List (Option ℕ)} (s : ℕ)
    → n < max_labels
    → EndsBefore a limit s
    → LabelsAreValid a limit labels n
    → LabelsAreValid a limit (set labels n (some s)) (n + 1)
LabelsAreValid-push {limit} {n} {a} {labels} s lt z v = record {
  slots = length-set labels n (some s) ∙ v.slots;
  bound = omega arith;
  each = λ i h. elim (ℕ_discrete n i) [
    | yes e ↦ (
      s,
      ap (λ (k : ℕ). get_or (set labels n (some s)) k none) (omega arith)
          ∙ get_or-set_self labels n (some s) none (omega (arith, v.slots)),
      z,
    )
    | no d ↦
        let (t, e, y) = v.each i (omega arith) in
        (t, get_or-set_ne labels n i (some s) none d ∙ e, y)
  ];
}
