-- ===== src/SfMap/Fresh.antt =====
-- About the ids that `sf_map_get_or_create` hands out.
use cm_dotfiles.Prelude.{
  ℕ, ◌+◌, ◌^◌, ◌<◌, ◌≤◌, ◌≡◌, ◌≢◌, inl, inr, arith, List, some, get_or, false, ap, sym, ◌∙◌, u32,
  get_or-set_self, get_or-set_ne, length, length-set, replicate, get_or-replicate,
}
use native.Mathlib.Decide.{ℕ_discrete}
use native.Mathlib.Nat.{pow-le-pow_right}
use cm_dotfiles.SfMap.Defs.{
  sf_hash, MapSlot, SfMap, no_slot, mcap, key_at, sf_map_init, sf_map_get_or_create, sf_map_full,
}
use cm_dotfiles.SfMap.Probe.{probe-stops}
use cm_dotfiles.SfMap.Invariant.{store, sf_hash-lt}
use cm_dotfiles.SfMap.Results.{create_lem}

abbrev pub id_at : List MapSlot → ℕ → ℕ
id_at slots i = (get_or slots i no_slot).v

-- The ids in the table are below `next_id`, and no two slots with a key have the same id.
pub record Numbered (m : SfMap) : Type 0 where
  pub below : (j : ℕ) → key_at m.slot j ≢ 0 → id_at m.slot j < m.next_id
  pub apart :
      (i j : ℕ)
      → key_at m.slot i ≢ 0
      → key_at m.slot j ≢ 0
      → id_at m.slot i ≡ id_at m.slot j
      → i ≡ j

module _ (bits : ℕ) (small : bits < 32) where
  next_lem : (m : SfMap) → sf_map_full bits m ≡ false → u32 (m.next_id + 1) ≡ m.next_id + 1
  unfolding sf_map_full
  next_lem m room =
      let le : bits ≤ 31 = omega arith in
      let table : 2 ^ bits ≤ 2 ^ 31 = pow-le-pow_right (omega arith) {j = 31} le in ground arith

  -- A new slot with the next id.
  stored-Numbered :
      (m m' : SfMap) (key p : ℕ)
      → Numbered m
      → p < length m.slot
      → m'.slot ≡ store m.slot key m.next_id p
      → m'.next_id ≡ m.next_id + 1
      → Numbered m'
  unfolding store
  stored-Numbered m m' key p numbered lt stored next = record {
    below = λ j nz. elim (ℕ_discrete j p) [
      | yes same ↦ cc_below j same
      | no ne ↦
          let old = numbered.below j (λ e. nz (key_ne j ne ∙ e)) in
          let same = id_ne j ne in omega arith
    ];
    apart = λ i j nzi nzj e. elim (ℕ_discrete i p) [
      | yes at_i ↦ elim (ℕ_discrete j p) [
        | yes at_j ↦ at_i ∙ sym at_j
        | no ne ↦ absurd (id_fresh j ne nzj (sym e ∙ ap (id_at m'.slot) at_i))
      ]
      | no ne ↦ elim (ℕ_discrete j p) [
        | yes at_j ↦ absurd (id_fresh i ne nzi (e ∙ ap (id_at m'.slot) at_j))
        | no ne_j ↦
            numbered.apart i j (λ z. nzi (key_ne i ne ∙ z)) (λ z. nzj (key_ne j ne_j ∙ z))
              (sym (id_ne i ne) ∙ (e ∙ id_ne j ne_j))
      ]
    ];
  }
    where
      id_p : id_at m'.slot p ≡ m.next_id
      id_p =
          ap (λ (slots : List MapSlot). id_at slots p) stored
          ∙ ap (λ (e : MapSlot). e.v)
              (get_or-set_self m.slot p (record { k = key; v = m.next_id }) no_slot lt)

      elsewhere : (j : ℕ) → j ≢ p → get_or m'.slot j no_slot ≡ get_or m.slot j no_slot
      elsewhere j ne =
          ap (λ (slots : List MapSlot). get_or slots j no_slot) stored
          ∙ get_or-set_ne m.slot p j (record { k = key; v = m.next_id }) no_slot (λ e. ne (sym e))

      key_ne : (j : ℕ) → j ≢ p → key_at m'.slot j ≡ key_at m.slot j
      key_ne j ne = ap (λ (e : MapSlot). e.k) (elsewhere j ne)

      id_ne : (j : ℕ) → j ≢ p → id_at m'.slot j ≡ id_at m.slot j
      id_ne j ne = ap (λ (e : MapSlot). e.v) (elsewhere j ne)

      id_fresh : (j : ℕ) → j ≢ p → key_at m'.slot j ≢ 0 → id_at m'.slot j ≢ id_at m'.slot p
      id_fresh j ne nz e =
          let old = numbered.below j (λ z. nz (key_ne j ne ∙ z)) in
          let same = id_ne j ne in let mine = id_p in omega arith

      cc_below : (j : ℕ) → j ≡ p → id_at m'.slot j < m'.next_id
      cc_below j same =
          let mine : id_at m'.slot j ≡ m.next_id = ap (id_at m'.slot) same ∙ id_p in omega arith

  -- `sf_map_get_or_create` keeps the table numbered.
  pub create-Numbered :
      (m m' : SfMap) (key id : ℕ)
      → Numbered m
      → length m.slot ≡ mcap bits
      → sf_map_full bits m ≡ false
      → sf_map_get_or_create bits m key ≡ some (id, m')
      → Numbered m'
  create-Numbered m m' key id numbered size room e =
      let (p, at, found) = create_lem bits m m' key id room e in
      elim found [
        | inl (here, same, is_id) ↦ rw same numbered
        | inr (new, stored, fresh, next) ↦
            stored-Numbered m m' key p numbered
              (rw size
                (probe-stops bits (mcap bits) m.slot key (sf_hash bits key) (sf_hash-lt bits key)
                  at).0)
              (stored ∙ ap (λ (v : ℕ). store m.slot key v p) fresh) (next ∙ next_lem m room)
      ]

  create-size :
      (m m' : SfMap) (key id : ℕ)
      → length m.slot ≡ mcap bits
      → sf_map_full bits m ≡ false
      → sf_map_get_or_create bits m key ≡ some (id, m')
      → length m'.slot ≡ mcap bits
  unfolding store
  create-size m m' key id size room e =
      let (p, at, found) = create_lem bits m m' key id room e in
      elim found [
        | inl (here, same, is_id) ↦ rw same size
        | inr (new, stored, fresh, next) ↦
            ap (λ (slots : List MapSlot). length slots) stored
            ∙ (length-set m.slot p (record { k = key; v = id }) ∙ size)
      ]

  -- After the call the key stands in a slot with the returned id.
  created :
      (m m' : SfMap) (key id : ℕ)
      → length m.slot ≡ mcap bits
      → sf_map_full bits m ≡ false
      → sf_map_get_or_create bits m key ≡ some (id, m')
      → (p : ℕ) × (key_at m'.slot p ≡ key) × (id_at m'.slot p ≡ id)
  unfolding store
  created m m' key id size room e =
      let (p, at, found) = create_lem bits m m' key id room e in
      elim found [
        | inl (here, same, is_id) ↦ (p, rw same here, rw same (sym is_id))
        | inr (new, stored, fresh, next) ↦
            let held =
              get_or-set_self m.slot p (record { k = key; v = id }) no_slot
                (rw size
                  (probe-stops bits (mcap bits) m.slot key (sf_hash bits key) (sf_hash-lt bits key)
                    at).0) in
            (
              p,
              rw stored (ap (λ (e : MapSlot). e.k) held),
              rw stored (ap (λ (e : MapSlot). e.v) held),
            )
      ]

  -- The table of `sf_map_init` is numbered.
  pub sf_map_init-Numbered : Numbered (sf_map_init bits)
  unfolding sf_map_init
  sf_map_init-Numbered = record {
    below = λ j nz. absurd (nz (all_empty j));
    apart = λ i j nz nzj e. absurd (nz (all_empty i));
  }
    where
      all_empty : (j : ℕ) → key_at (replicate (mcap bits) no_slot) j ≡ 0
      all_empty j = ap (λ (e : MapSlot). e.k) (get_or-replicate (mcap bits) j no_slot)

  -- Two calls of `sf_map_get_or_create` in turn for different keys, neither of them 0, on a map of
  -- fewer than 2^32 slots, whose ids are different and below `next_id`, and that is not full
  -- before either call, return different ids, and the ids of the map stay different.
  pub sf_map_get_or_create-ne :
      (m m' m'' : SfMap) (a b i j : ℕ)
      → Numbered m
      → length m.slot ≡ mcap bits
      → a ≢ 0
      → b ≢ 0
      → a ≢ b
      → sf_map_full bits m ≡ false
      → sf_map_get_or_create bits m a ≡ some (i, m')
      → sf_map_full bits m' ≡ false
      → sf_map_get_or_create bits m' b ≡ some (j, m'')
      → Numbered m'' × (i ≢ j)
  sf_map_get_or_create-ne m m' m'' a b i j numbered size nza nzb ne room e room' e' =
      let size' = create-size m m' a i size room e in
      let after = create-Numbered m m' a i numbered size room e in
      let (p, key_p, id_p) = created m m' a i size room e in
      let (q, at, found) = create_lem bits m' m'' b j room' e' in
      (
        create-Numbered m' m'' b j after size' room' e',
        elim found [
          | inl (here, same, is_id) ↦ λ equal.
              let slot : p ≡ q =
                after.apart p q (λ z. nza (sym key_p ∙ z)) (λ z. nzb (sym here ∙ z))
                  (id_p ∙ (equal ∙ is_id)) in
              ne (sym key_p ∙ (ap (key_at m'.slot) slot ∙ here))
          | inr (new, stored, fresh, next) ↦ λ equal.
              let old = after.below p (λ z. nza (sym key_p ∙ z)) in
              omega (arith, id_p, fresh, equal)
        ],
      )
