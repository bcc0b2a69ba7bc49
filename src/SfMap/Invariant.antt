-- ===== src/SfMap/Invariant.antt =====
-- The well-formedness of the table of lookup.h, for `sf_map_put` and
-- `sf_map_get_or_create`.
use cm_dotfiles.Prelude.{
  ℕ, ◌*◌, ◌<◌, ◌≡◌, ◌≢◌, ◌⊎◌, inl, inr, refl, arith, List, Option, some, length, set, true,
  length-set, get_or-set_self, get_or-set_ne, ap, sym, ◌∙◌,
}
use native.Mathlib.Nat.{mod-lt, one-le-pow}
use native.Mathlib.Decide.{ℕ_discrete}
use cm_dotfiles.Prelude.{u64}
use cm_dotfiles.SfMap.Defs.{fb}
use cm_dotfiles.Prelude.Bits.{and_mask}
use cm_dotfiles.SfMap.Defs.{MapSlot, no_slot, mcap, key_at, probe, sf_hash}
use cm_dotfiles.SfMap.Probe.{stops, empty-stops, key-stops, probe-stops, probe-congr, probe-set_ne}

-- The slots after `slot[p]` was given a key and its value.
unfoldable pub store : List MapSlot → ℕ → ℕ → ℕ → List MapSlot
store slots key v p = set slots p (record { k = key; v = v })

module _ (bits : ℕ) where
  abbrev pub search : List MapSlot → ℕ → Option ℕ
  search slots key = probe bits (mcap bits) slots key (sf_hash bits key)

  -- The search for a key that stands in the table ends at that key.
  pub record IsValid (slots : List MapSlot) : Type 0 where
    pub size : length slots ≡ mcap bits
    pub found :
        (key j : ℕ)
        → key ≢ 0
        → key_at slots j ≡ key
        → (q : ℕ) × (search slots key ≡ some q) × (key_at slots q ≡ key)

  pub sf_hash-lt : (key : ℕ) → sf_hash bits key < mcap bits
  unfolding sf_hash
  sf_hash-lt key =
      rw (and_mask bits (u64 (key * fb)))
        (mod-lt (u64 (key * fb)) (one-le-pow bits 2 (omega arith)))

  -- A write of `key` at the slot where its search ended.
  module _ (slots : List MapSlot) (key v p : ℕ) (valid : IsValid slots) (nonzero : key ≢ 0)
      (at : search slots key ≡ some p) where
    abbrev pub written : List MapSlot
    written = store slots key v p

    pub stop : (p < mcap bits) × ((key_at slots p ≡ key) ⊎ (key_at slots p ≡ 0))
    stop = probe-stops bits (mcap bits) slots key (sf_hash bits key) (sf_hash-lt key) at

    pub key-written : key_at written p ≡ key
    unfolding store
    key-written =
        ap (λ (e : MapSlot). e.k)
          (get_or-set_self slots p (record { k = key; v = v }) no_slot (rw valid.size stop.0))

    pub key-written_ne : (j : ℕ) → j ≢ p → key_at written j ≡ key_at slots j
    unfolding store
    key-written_ne j ne =
        ap (λ (e : MapSlot). e.k)
          (get_or-set_ne slots p j (record { k = key; v = v }) no_slot (λ e. ne (sym e)))

    pub stops-written_ne : (other j : ℕ) → j ≢ p → stops written other j ≡ stops slots other j
    stops-written_ne other j ne = rw (key-written_ne j ne) refl

    -- Where the key stood already, nothing changes for any search.
    pub stops-written_same :
        (other : ℕ) → key_at slots p ≡ key → (j : ℕ) → stops written other j ≡ stops slots other j
    stops-written_same other here j = elim (ℕ_discrete j p) [
      | yes e ↦ rw (e, key-written, here) refl
      | no ne ↦ stops-written_ne other j ne
    ]

    stops-written_key : (j : ℕ) → stops written key j ≡ stops slots key j
    stops-written_key j = elim (ℕ_discrete j p) [
      | yes e ↦ rw e (key-stops written key p key-written ∙ sym stopped)
      | no ne ↦ stops-written_ne key j ne
    ]
      where
        stopped : stops slots key p ≡ true
        stopped = elim stop.1 [
          | inl e ↦ key-stops slots key p e
          | inr e ↦ empty-stops slots key p e
        ]

    -- Its own search ends there again.
    pub search-written : search written key ≡ some p
    search-written =
        probe-congr bits (mcap bits) slots written key (sf_hash bits key) stops-written_key ∙ at

    -- The search for another key that was found is not disturbed.
    pub search-written_ne :
        (other q : ℕ)
        → other ≢ 0
        → search slots other ≡ some q
        → key_at slots q ≡ other
        → search written other ≡ some q
    search-written_ne other q nz e found = elim stop.1 [
      | inl here ↦
          probe-congr bits (mcap bits) slots written other (sf_hash bits other)
            (stops-written_same other here)
          ∙ e
      | inr empty ↦
          probe-set_ne bits (mcap bits) slots written other p (sf_hash bits other)
            (stops-written_ne other) (empty-stops slots other p empty) e
            (λ same. nz (sym found ∙ (ap (key_at slots) same ∙ empty)))
    ]

    pub written-IsValid : IsValid written
    written-IsValid = record {
      size = unfold store in (length-set slots p (record { k = key; v = v }) ∙ valid.size);
      found = λ other j nz e. elim (ℕ_discrete other key) [
        | yes same ↦ (p, rw same search-written, rw same key-written)
        | no ne ↦ still other j ne nz e
      ];
    }
      where
        still :
            (other j : ℕ)
            → other ≢ key
            → other ≢ 0
            → key_at written j ≡ other
            → (q : ℕ) × (search written other ≡ some q) × (key_at written q ≡ other)
        still other j ne nz e =
            let not_p : j ≢ p = λ same. ne (sym e ∙ (ap (key_at written) same ∙ key-written)) in
            let (q, searched, found) = valid.found other j nz (sym (key-written_ne j not_p) ∙ e) in
            let apart : q ≢ p = λ same.
              let here : other ≡ key_at slots p = sym found ∙ ap (key_at slots) same in
              elim stop.1 [ inl mine ↦ ne (here ∙ mine) | inr empty ↦ nz (here ∙ empty) ] in
            (q, search-written_ne other q nz searched found, key-written_ne q apart ∙ found)
