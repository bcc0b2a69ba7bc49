-- ===== src/SfMap/Probe.antt =====
-- What the loop over the slots finds, when it ends, and that a write to one slot does not disturb
-- the search for other keys.
use cm_dotfiles.Prelude.{
  ℕ, zero, suc, ◌+◌, ◌-◌, ◌%◌, ◌<◌, ◌≤◌, ◌≡◌, ◌≢◌, ◌⊎◌, inl, inr, refl, ap, arith, List, none, some,
  ◌==◌, Bool, true, false, ◌||◌, bit_and, Bool-cases,
}
use native.Mathlib.Nat.{mod-lt, mod-eq_of_lt, mod-add-mod, add-zero, one-le-pow}
use native.Mathlib.Decide.{dec_le}
use cm_dotfiles.Prelude.Bits.{and_mask}
use cm_dotfiles.SfMap.Defs.{MapSlot, mcap, mmask, key_at, probe}

abbrev pub stops : List MapSlot → ℕ → ℕ → Bool
stops slots key i = key_at slots i == key || key_at slots i == 0

pub empty-stops : (slots : List MapSlot) (key i : ℕ) → key_at slots i ≡ 0 → stops slots key i ≡ true
empty-stops slots key i e = ground arith

pub key-stops : (slots : List MapSlot) (key i : ℕ) → key_at slots i ≡ key → stops slots key i ≡ true
key-stops slots key i e = ground arith

module _ (bits : ℕ) where
  in_table : (i : ℕ) → bit_and i (mmask bits) < mcap bits
  in_table i = rw (and_mask bits i) (mod-lt i (one-le-pow bits 2 (omega arith)))

  -- The loop ends at a slot of the table that holds the key or is empty.
  pub probe-stops :
      (fuel : ℕ) (slots : List MapSlot) (key i : ℕ) {p : ℕ}
      → i < mcap bits
      → probe bits fuel slots key i ≡ some p
      → (p < mcap bits) × ((key_at slots p ≡ key) ⊎ (key_at slots p ≡ 0))
  unfolding probe
  probe-stops zero slots key i h e = cc
  probe-stops (suc fuel) slots key i h e = elim (Bool-cases (stops slots key i)) [
    | inl stop ↦ ground arith
    | inr on ↦
        probe-stops fuel slots key (bit_and (i + 1) (mmask bits)) (in_table (i + 1)) (rw on at e)
  ]

  -- Two tables that stop the search for `key` at the same slots have the same result.
  pub probe-congr :
      (fuel : ℕ) (slots slots' : List MapSlot) (key i : ℕ)
      → ((j : ℕ) → stops slots' key j ≡ stops slots key j)
      → probe bits fuel slots' key i ≡ probe bits fuel slots key i
  unfolding probe
  probe-congr zero slots slots' key i same = refl
  probe-congr (suc fuel) slots slots' key i same =
      rw (same i, probe-congr fuel slots slots' key (bit_and (i + 1) (mmask bits)) same)

  -- A search that ended elsewhere than at an empty slot `p` did not pass it, so it does not
  -- notice a write there.
  pub probe-set_ne :
      (fuel : ℕ) (slots slots' : List MapSlot) (key p i : ℕ) {q : ℕ}
      → ((j : ℕ) → j ≢ p → stops slots' key j ≡ stops slots key j)
      → stops slots key p ≡ true
      → probe bits fuel slots key i ≡ some q
      → q ≢ p
      → probe bits fuel slots' key i ≡ some q
  unfolding probe
  probe-set_ne zero slots slots' key p i same at e ne = cc
  probe-set_ne (suc fuel) slots slots' key p i same at e ne =
      elim (Bool-cases (stops slots key i)) [
        | inl stop ↦
            let here : i ≢ p = λ same_slot. ne (ground arith) in
            rw (same i here, stop) (rw stop at e)
        | inr on ↦
            let other : i ≢ p = λ same_slot. cc (at, on, ap (stops slots key) same_slot) in
            rw (same i other, on)
              (probe-set_ne fuel slots slots' key p (bit_and (i + 1) (mmask bits)) same at
                (rw on at e) ne)
      ]

  -- With an empty slot `d` places on, more than `d` units of fuel are enough.
  probe_ahead :
      (fuel d : ℕ) (slots : List MapSlot) (key i : ℕ)
      → i < mcap bits
      → key_at slots ((i + d) % mcap bits) ≡ 0
      → d < fuel
      → probe bits fuel slots key i ≢ none
  unfolding probe
  probe_ahead zero d slots key i h e lt = absurd (omega arith)
  probe_ahead (suc fuel) zero slots key i h e lt = rw (empty-stops slots key i at_i) (λ bad. cc)
    where
      at_i : key_at slots i ≡ 0
      at_i = cc (
        e,
        ap (key_at slots) (mod-eq_of_lt h),
        ap (λ (k : ℕ). key_at slots (k % mcap bits)) (add-zero i),
      )
  probe_ahead (suc fuel) (suc d) slots key i h e lt = elim (Bool-cases (stops slots key i)) [
    | inl stop ↦ rw stop (λ bad. cc)
    | inr on ↦ rw on (
        probe_ahead fuel d slots key (bit_and (i + 1) (mmask bits)) (in_table (i + 1)) same
          (omega arith))
  ]
    where
      same : key_at slots ((bit_and (i + 1) (mmask bits) + d) % mcap bits) ≡ 0
      same =
          rw (and_mask bits (i + 1), mod-add-mod (i + 1) (mcap bits) d)
            (cc (e, ap (λ (k : ℕ). key_at slots (k % mcap bits)) shift))
        where
          shift : i + suc d ≡ i + 1 + d
          shift = omega arith

  -- The search ends if some slot of the table is empty.
  pub probe_total :
      (slots : List MapSlot) (key i j : ℕ)
      → i < mcap bits
      → j < mcap bits
      → key_at slots j ≡ 0
      → probe bits (mcap bits) slots key i ≢ none
  probe_total slots key i j hi hj e = elim (dec_le i j) [
    | yes le ↦
        probe_ahead (mcap bits) (j - i) slots key i hi (rw (reach (omega arith)) e) (omega arith)
    | no gt ↦
        probe_ahead (mcap bits) (j + mcap bits - i) slots key i hi (rw (around (omega arith)) e)
          (omega arith)
  ]
    where
      reach : i ≤ j → (i + (j - i)) % mcap bits ≡ j
      reach le = rw (sum le) (mod-eq_of_lt hj)
        where
          sum : i ≤ j → i + (j - i) ≡ j
          sum le = omega arith

      around : j < i → (i + (j + mcap bits - i)) % mcap bits ≡ j
      around lt = grind arith

  -- In a table with no empty slot the search for a key that no slot holds never ends.
  pub probe_endless :
      (fuel : ℕ) (slots : List MapSlot) (key i : ℕ)
      → ((j : ℕ) → j < mcap bits → (key_at slots j ≢ 0) × (key_at slots j ≢ key))
      → i < mcap bits
      → probe bits fuel slots key i ≡ none
  unfolding probe
  probe_endless zero slots key i full h = refl
  probe_endless (suc fuel) slots key i full h =
      rw (passes i (full i h))
        (probe_endless fuel slots key (bit_and (i + 1) (mmask bits)) full (in_table (i + 1)))
    where
      passes : (j : ℕ) → (key_at slots j ≢ 0) × (key_at slots j ≢ key) → stops slots key j ≡ false
      passes j ne = ground arith
