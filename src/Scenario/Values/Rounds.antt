-- ===== src/Scenario/Values/Rounds.antt =====
-- The rounds of the two loops of toml.c that read values.
use cm_dotfiles.Prelude.{
  ℕ, zero, suc, ◌+◌, ◌-◌, ◌≤◌, ◌<◌, ◌≡◌, refl, sym, ◌∙◌, inl, inr, true, Option, none, some, List,
  arith, leb, Bool-cases, ◌>>=◌, set,
}
use native.Mathlib.Decide.{dec_lt}
use cm_dotfiles.Scenario.Text.{at, trim_left}
use cm_dotfiles.Scenario.Text.Bounds.{trim_left_bounds}
use cm_dotfiles.Scenario.Types.{Scenario, Read}
use cm_dotfiles.Scenario.Values.{
  literal_loop, array_element, element_start, element_end, behind_element, array_loop, Labels,
}
use cm_dotfiles.Scenario.Values.Arrays.{element_bounds, array_loop-past}

literal_loop-past :
    (n : ℕ) (buf : List ℕ) (p w end : ℕ) → end ≤ p → literal_loop n buf p w end ≡ none
unfolding literal_loop
literal_loop-past zero buf p w end h = refl
literal_loop-past (suc n) buf p w end h = let e : leb end p ≡ true = ground arith in rw e refl

literal_loop-rounds :
    (n k : ℕ) (buf : List ℕ) (p w end : ℕ)
    → end ≤ p + n
    → literal_loop (n + k) buf p w end ≡ literal_loop n buf p w end
unfolding literal_loop
literal_loop-rounds zero k buf p w end h =
    literal_loop-past (0 + k) buf p w end (omega arith)
    ∙ sym (literal_loop-past 0 buf p w end (omega arith))
literal_loop-rounds (suc n) k buf p w end h =
    let e : suc n + k ≡ suc (n + k) = omega arith in
    let special =
      literal_loop-rounds n k (set buf w (at buf (p + 1))) (p + 2) (w + 1) end (omega arith) in
    let plain = literal_loop-rounds n k (set buf w (at buf p)) (p + 1) (w + 1) end (omega arith) in
    rw (e, special, plain) refl

behind_element-same :
    (end q count : ℕ) (r : Read Scenario) (loop loop' : ℕ → Option Labels)
    → (q < end → loop (q + 1) ≡ loop' (q + 1))
    → behind_element end r q count loop ≡ behind_element end r q count loop'
unfolding behind_element
behind_element-same end q count r loop loop' same = elim (Bool-cases (leb end q)) [
  | inl past ↦ rw past refl
  | inr more ↦ rw (more, same (ground arith)) refl
]

bind-same :
    {A B : Type 0} (m : Option A) (f g : A → Option B)
    → ((a : A) → f a ≡ g a)
    → (m >>= f) ≡ (m >>= g)
bind-same none f g h = refl
bind-same (some a) f g h = h a

array_loop-rounds :
    (n k : ℕ) (buf : List ℕ) (sc : Scenario) (p end count : ℕ)
    → end < p + n
    → array_loop (n + k) buf sc p end count ≡ array_loop n buf sc p end count
unfolding array_loop
array_loop-rounds zero k buf sc p end count h =
    array_loop-past (0 + k) buf sc p end count (omega arith)
    ∙ sym (array_loop-past 0 buf sc p end count (omega arith))
array_loop-rounds (suc n) k buf sc p end count h = elim (dec_lt p end) [
  | no past ↦
      array_loop-past (suc n + k) buf sc p end count (omega arith)
      ∙ sym (array_loop-past (suc n) buf sc p end count (omega arith))
  | yes lt ↦
      let e : suc n + k ≡ suc (n + k) = omega arith in
      let start = trim_left buf p end in
      let l = trim_left_bounds buf p end (omega arith) in
      let b = element_bounds buf start end l.1 in
      let stop = element_end buf start end in
      let long =
        λ (r : Read Scenario) (q : ℕ). array_loop (n + k) r.buf r.result q end (count + 1) in
      let short = λ (r : Read Scenario) (q : ℕ). array_loop n r.buf r.result q end (count + 1) in
      let same =
        bind-same (array_element buf sc (element_start buf start end) stop)
          (λ r. behind_element end r (trim_left r.buf stop end) (count + 1) (long r))
          (λ r. behind_element end r (trim_left r.buf stop end) (count + 1) (short r))
          (λ r.
            let q = trim_left_bounds r.buf stop end b.2 in
            behind_element-same end (trim_left r.buf stop end) (count + 1) r (long r) (short r)
              (λ _.
                array_loop-rounds n k r.buf r.result (trim_left r.buf stop end + 1) end (count + 1)
                  (omega (arith, q.0, b.0, b.1, l.0)))) in
      rw (e, same) refl
]

-- With more rounds than they are given, the two loops give the same result. The one reads a literal
-- and the other an array, between the two pointers.
pub rounds_enough :
    (k : ℕ) (buf : List ℕ) (sc : Scenario) (start end : ℕ)
    → (literal_loop (end - start + k) buf (start + 1) (start + 1) end
        ≡ literal_loop (end - start) buf (start + 1) (start + 1) end)
      × (array_loop (end + 1 - start + k) buf sc (start + 1) end 0
          ≡ array_loop (end + 1 - start) buf sc (start + 1) end 0)
rounds_enough k buf sc start end = (
  literal_loop-rounds (end - start) k buf (start + 1) (start + 1) end (omega arith),
  array_loop-rounds (end + 1 - start) k buf sc (start + 1) end 0 (omega arith),
)
