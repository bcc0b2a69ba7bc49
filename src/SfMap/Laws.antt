-- ===== src/SfMap/Laws.antt =====
-- What `sf_map_get` returns after `sf_map_put` and `sf_map_get_or_create`, and when the three
-- functions return at all.
use cm_dotfiles.Prelude.{
  ℕ, ◌<◌, ◌≡◌, ◌≢◌, inl, inr, arith, List, some, get_or, ◌==◌, Option-cases, get_or-set_self,
  get_or-set_ne, ap, sym, ◌∙◌, if◌then◌else◌,
}
use mathlib.Core.Option.{some-injective}
use cm_dotfiles.SfMap.Defs.{
  MapSlot, SfMap, no_slot, uint32_max, mcap, key_at, locate, sf_hash, sf_map_get,
}
use cm_dotfiles.SfMap.Probe.{probe-stops, probe_total}
use cm_dotfiles.SfMap.Invariant.{
  IsValid, search, store, sf_hash-lt, written, stop, search-written, search-written_ne,
}

module _ (bits : ℕ) where
  -- Some slot is empty, so that every search ends.
  abbrev pub HasEmpty : List MapSlot → Type 0
  HasEmpty slots = (j : ℕ) × (j < mcap bits) × (key_at slots j ≡ 0)

  -- A search in a table with an empty slot ends.
  pub search_ends :
      (slots : List MapSlot) (key : ℕ) → HasEmpty slots → (p : ℕ) × (search bits slots key ≡ some p)
  search_ends slots key (j, lt, e) = elim (Option-cases (search bits slots key)) [
    | inl bad ↦
        absurd (probe_total bits slots key (sf_hash bits key) j (sf_hash-lt bits key) lt e bad)
    | inr found ↦ found
  ]

  -- `sf_map_get` by where the search ended.
  get_lem :
      (m : SfMap) (key p : ℕ)
      → search bits m.slot key ≡ some p
      → sf_map_get bits m key
        ≡ some (if key_at m.slot p == key then (get_or m.slot p no_slot).v else uint32_max)
  unfolding sf_map_get locate
  get_lem m key p e = rw e (ground arith)

  -- A missing key is one whose search ends at an empty slot.
  pub get_missing :
      (m : SfMap) (key p : ℕ)
      → key ≢ 0
      → search bits m.slot key ≡ some p
      → key_at m.slot p ≡ 0
      → sf_map_get bits m key ≡ some uint32_max
  get_missing m key p nz e empty = get_lem m key p e ∙ ground arith

  pub get_found :
      (m : SfMap) (key p : ℕ)
      → search bits m.slot key ≡ some p
      → key_at m.slot p ≡ key
      → sf_map_get bits m key ≡ some (get_or m.slot p no_slot).v
  get_found m key p e here = get_lem m key p e ∙ ground arith

  -- A table after a write, and the map that has it.
  module _ (m : SfMap) (key value p : ℕ) (valid : IsValid bits m.slot) (nonzero : key ≢ 0)
      (at : search bits m.slot key ≡ some p) (m' : SfMap)
      (stored : m'.slot ≡ store m.slot key value p) where
    key_at-stored :
        (j : ℕ) → key_at m'.slot j ≡ key_at (written bits m.slot key value p valid nonzero at) j
    key_at-stored j = ap (λ (slots : List MapSlot). key_at slots j) stored

    slot_at_p : get_or m'.slot p no_slot ≡ record { k = key; v = value }
    unfolding store
    slot_at_p = rw stored (
        get_or-set_self m.slot p (record { k = key; v = value }) no_slot
          (rw valid.size (stop bits m.slot key value p valid nonzero at).0))

    pub get-stored : sf_map_get bits m' key ≡ some value
    get-stored =
        get_found m' key p
          (ap (λ (slots : List MapSlot). search bits slots key) stored
            ∙ search-written bits m.slot key value p valid nonzero at)
          (ap (λ (e : MapSlot). e.k) slot_at_p)
        ∙ ap (λ (e : MapSlot). some e.v) slot_at_p

    not_at_p : (other : ℕ) → other ≢ key → key_at m'.slot p ≢ other
    not_at_p other ne e = ne (sym e ∙ ap (λ (e : MapSlot). e.k) slot_at_p)

    -- Another slot is the same in both.
    slot_ne : (q : ℕ) → q ≢ p → get_or m'.slot q no_slot ≡ get_or m.slot q no_slot
    unfolding store
    slot_ne q ne =
        ap (λ (slots : List MapSlot). get_or slots q no_slot) stored
        ∙ get_or-set_ne m.slot p q (record { k = key; v = value }) no_slot (λ e. ne (sym e))

    key_ne : (other q : ℕ) → other ≢ key → key_at m'.slot q ≡ other → key_at m.slot q ≡ other
    key_ne other q ne e =
        let apart : q ≢ p = λ same. not_at_p other ne (sym (ap (key_at m'.slot) same) ∙ e) in
        sym (ap (λ (e : MapSlot). e.k) (slot_ne q apart)) ∙ e

    get_held :
        (other q : ℕ)
        → other ≢ key
        → other ≢ 0
        → search bits m.slot other ≡ some q
        → key_at m.slot q ≡ other
        → sf_map_get bits m' other ≡ sf_map_get bits m other
    get_held other q ne nz e held =
        get_found m' other q searched (ap (λ (e : MapSlot). e.k) (slot_ne q apart) ∙ held)
        ∙ (ap (λ (e : MapSlot). some e.v) (slot_ne q apart) ∙ sym (get_found m other q e held))
      where
        apart : q ≢ p
        apart same =
            let here : other ≡ key_at m.slot p = sym held ∙ ap (key_at m.slot) same in
            elim (stop bits m.slot key value p valid nonzero at).1 [
              | inl mine ↦ ne (here ∙ mine)
              | inr empty ↦ nz (here ∙ empty)
            ]

        searched : search bits m'.slot other ≡ some q
        searched =
            ap (λ (slots : List MapSlot). search bits slots other) stored
            ∙ search-written_ne bits m.slot key value p valid nonzero at other q nz e held

    get_absent :
        (other q : ℕ)
        → other ≢ key
        → other ≢ 0
        → HasEmpty m'.slot
        → search bits m.slot other ≡ some q
        → key_at m.slot q ≡ 0
        → sf_map_get bits m' other ≡ some uint32_max
    get_absent other q ne nz empty e absent =
        let (q', e') = search_ends m'.slot other empty in
        elim (probe-stops bits (mcap bits) m'.slot other (sf_hash bits other)
          (sf_hash-lt bits other) e').1 [
            | inl held ↦
                let (r, searched, here) = valid.found other q' nz (key_ne other q' ne held) in
                let same : r ≡ q = some-injective r q (sym searched ∙ e) in
                absurd (nz (sym here ∙ (ap (key_at m.slot) same ∙ absent)))
            | inr gone ↦ get_missing m' other q' nz e' gone
          ]

    pub get-stored_ne :
        (other : ℕ)
        → other ≢ key
        → other ≢ 0
        → HasEmpty m'.slot
        → sf_map_get bits m' other ≡ sf_map_get bits m other
    get-stored_ne other ne nz (j, lt, gap) =
        let gap_m = key_ne 0 j (λ e. nonzero (sym e)) gap in
        let (q, e) = search_ends m.slot other (j, lt, gap_m) in
        elim (probe-stops bits (mcap bits) m.slot other (sf_hash bits other) (sf_hash-lt bits other)
          e).1 [
            | inl held ↦ get_held other q ne nz e held
            | inr absent ↦
                get_absent other q ne nz (j, lt, gap) e absent
                ∙ sym (get_missing m other q nz e absent)
          ]
