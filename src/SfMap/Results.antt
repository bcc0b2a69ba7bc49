-- ===== src/SfMap/Results.antt =====
-- What callers of the map rely on: lookups after writes, the errors of a full map, and when the
-- loops end.
use cm_dotfiles.Prelude.{
  get_or-set_ne, get_or-set_self, length, ℕ, ◌+◌, ◌<◌, ◌≡◌, ◌≢◌, ◌⊎◌, inl, inr, arith, List, none,
  some, get_or, set, replicate, length-replicate, get_or-replicate, ◌==◌, Bool, true, false,
  Option-cases, ap, sym, ◌∙◌, if◌then◌else◌, u32,
}
use native.Mathlib.Decide.{ℕ_discrete}
use native.Mathlib.Nat.{one-le-pow}
use mathlib.Core.Option.{some-injective}
use cm_dotfiles.SfMap.Defs.{
  MapSlot, SfMap, no_slot, uint32_max, mcap, key_at, probe, locate, sf_hash, sf_map_init,
  sf_map_get, sf_map_put, sf_map_get_or_create, sf_map_full,
}
use cm_dotfiles.SfMap.Probe.{probe_endless, probe-stops}
use cm_dotfiles.SfMap.Invariant.{IsValid, search, store, sf_hash-lt, written-IsValid}
use cm_dotfiles.SfMap.Laws.{
  HasEmpty, search_ends, get_found, get_missing, get-stored, get-stored_ne,
}

pick_ne {ℓ} : {A : Type ℓ} (b : Bool) (x y : A) → (if b then some x else some y) ≢ none
pick_ne true x y bad = cc
pick_ne false x y bad = cc

pick_ne₂ {ℓ} :
    {A : Type ℓ} (b c : Bool) (x y z : A)
    → (if b then some x else (if c then some y else some z)) ≢ none
pick_ne₂ true c x y z bad = cc
pick_ne₂ false c x y z bad = pick_ne c y z bad

module _ (bits : ℕ) where
  -- `sf_map_put` where its search ended.
  put_lem :
      (m m' : SfMap) (key value : ℕ)
      → sf_map_put bits m key value ≡ some m'
      → (p : ℕ) × (search bits m.slot key ≡ some p) × (m'.slot ≡ store m.slot key value p)
  unfolding sf_map_put locate store
  put_lem m m' key value e = elim (Option-cases (search bits m.slot key)) [
    | inl bad ↦ absurd (let e' = rw bad at e in cc)
    | inr (p, at) ↦
        let e' = rw at at e in (p, at, sym (ap (λ (n : SfMap). n.slot) (some-injective _ m' e')))
  ]

  ap-IsValid :
      {slots slots' : List MapSlot} → IsValid bits slots → slots' ≡ slots → IsValid bits slots'
  ap-IsValid valid e = rw e valid

  -- After `sf_map_put` of a key other than 0 into a valid table that ends with a slot empty, the
  -- table is valid, and `sf_map_get` returns the new value for that key and what it returned
  -- before for every other key but 0.
  pub sf_map_get-sf_map_put :
      (m m' : SfMap) (key value other : ℕ)
      → IsValid bits m.slot
      → key ≢ 0
      → other ≢ 0
      → sf_map_put bits m key value ≡ some m'
      → HasEmpty bits m'.slot
      → IsValid bits m'.slot
        × (sf_map_get bits m' other
            ≡ (if other == key then some value else sf_map_get bits m other))
  sf_map_get-sf_map_put m m' key value other valid nz nz_other e empty =
      let (p, at, stored) = put_lem m m' key value e in
      (
        ap-IsValid (written-IsValid bits m.slot key value p valid nz at) stored,
        elim (ℕ_discrete other key) [
          | yes same ↦ rw same (get-stored bits m key value p valid nz at m' stored ∙ ground arith)
          | no apart ↦
              get-stored_ne bits m key value p valid nz at m' stored other apart nz_other empty
              ∙ ground arith
        ],
      )

  pub create_lem :
      (m m' : SfMap) (key id : ℕ)
      → sf_map_full bits m ≡ false
      → sf_map_get_or_create bits m key ≡ some (id, m')
      → (p : ℕ) × (search bits m.slot key ≡ some p)
        × ((key_at m.slot p ≡ key) × (m' ≡ m) × (id ≡ (get_or m.slot p no_slot).v)
            ⊎ (key_at m.slot p ≢ key)
              × (m'.slot ≡ store m.slot key id p)
              × (id ≡ m.next_id)
              × (m'.next_id ≡ u32 (m.next_id + 1)))
  unfolding sf_map_get_or_create locate store
  create_lem m m' key id room e = elim (Option-cases (search bits m.slot key)) [
    | inl bad ↦ absurd (let e' = rw bad at e in cc)
    | inr (p, at) ↦
        let e' = rw (at, room) at e in
        (
          p,
          at,
          elim (ℕ_discrete (key_at m.slot p) key) [
            | yes here ↦ inl (
                let t : (key_at m.slot p == key) ≡ true = ground arith in
                let w = some-injective _ (id, m') (rw t at e') in
                (here, ap (λ (x : ℕ × SfMap). x.1) (sym w), ap (λ (x : ℕ × SfMap). x.0) (sym w)))
            | no new ↦ inr (
                let t : (key_at m.slot p == key) ≡ false = ground arith in
                let w = sym (some-injective _ (id, m') (rw t at e')) in
                let i = ap (λ (x : ℕ × SfMap). x.0) w in
                (
                  new,
                  ap (λ (x : ℕ × SfMap). x.1.slot) w
                      ∙ ap (λ v. set m.slot p (record { k = key; v = v })) (sym i),
                  i,
                  ap (λ (x : ℕ × SfMap). x.1.next_id) w,
                ))
          ],
        )
  ]

  -- After `sf_map_get_or_create` of a key other than 0, on a valid map that is not full and ends
  -- with a slot empty, the table is valid, and `sf_map_get` returns the id that the call returned
  -- for that key and what it returned before for every other key but 0.
  pub sf_map_get-sf_map_get_or_create :
      (m m' : SfMap) (key id other : ℕ)
      → IsValid bits m.slot
      → key ≢ 0
      → other ≢ 0
      → sf_map_full bits m ≡ false
      → sf_map_get_or_create bits m key ≡ some (id, m')
      → HasEmpty bits m'.slot
      → IsValid bits m'.slot
        × (sf_map_get bits m' other ≡ (if other == key then some id else sf_map_get bits m other))
  sf_map_get-sf_map_get_or_create m m' key id other valid nz nz_other room e empty =
      let (p, at, found) = create_lem m m' key id room e in
      elim found [
        | inl (here, same, is_id) ↦ (
          rw same valid,
          elim (ℕ_discrete other key) [
            | yes equal ↦ rw (same, equal, get_found bits m key p at here, is_id) (ground arith)
            | no apart ↦ rw same (ground arith)
          ],
        )
        | inr (new, stored, fresh, next) ↦ (
          ap-IsValid (written-IsValid bits m.slot key id p valid nz at) stored,
          elim (ℕ_discrete other key) [
            | yes same ↦ rw same (get-stored bits m key id p valid nz at m' stored ∙ ground arith)
            | no apart ↦
                get-stored_ne bits m key id p valid nz at m' stored other apart nz_other empty
                ∙ ground arith
          ],
        )
      ]

  -- The table of `sf_map_init` is valid, and no key but 0 is in it.
  pub sf_map_init-IsValid :
      (key : ℕ)
      → key ≢ 0
      → IsValid bits (sf_map_init bits).slot
        × (sf_map_get bits (sf_map_init bits) key ≡ some uint32_max)
  unfolding sf_map_init
  sf_map_init-IsValid key nz =
      let (p, at) =
        search_ends bits (replicate (mcap bits) no_slot) key
          (0, one-le-pow bits 2 (omega arith), all_empty 0) in
      (
        record {
          size = length-replicate (mcap bits) no_slot;
          found = λ k j other e. absurd (other (sym e ∙ all_empty j));
        },
        get_missing bits (sf_map_init bits) key p nz at (all_empty p),
      )
    where
      all_empty : (j : ℕ) → key_at (replicate (mcap bits) no_slot) j ≡ 0
      all_empty j = ap (λ (e : MapSlot). e.k) (get_or-replicate (mcap bits) j no_slot)

  -- On a table with an empty slot each of the three functions returns.
  pub sf_map_get-ends :
      (m : SfMap) (key value : ℕ)
      → HasEmpty bits m.slot
      → (sf_map_get bits m key ≢ none)
        × (sf_map_get_or_create bits m key ≢ none)
        × (sf_map_put bits m key value ≢ none)
  unfolding sf_map_get sf_map_get_or_create sf_map_put locate
  sf_map_get-ends m key value empty =
      let (p, at) = search_ends bits m.slot key empty in
      rw at (
        pick_ne (key_at m.slot p == key) _ _,
        pick_ne₂ (key_at m.slot p == key) (sf_map_full bits m) _ _ _,
        λ bad. cc,
      )

  -- When no slot is empty and none holds the key, no number of turns of the loop of the three
  -- functions is enough, though it comes to every slot of the table: if any one of them were empty,
  -- the loop would stop there, within as many turns as there are slots.
  pub probe-endless :
      (m : SfMap) (key fuel i : ℕ)
      → length m.slot ≡ mcap bits
      → i < mcap bits
      → ((j : ℕ) → j < mcap bits → (key_at m.slot j ≢ 0) × (key_at m.slot j ≢ key))
      → (probe bits fuel m.slot key (sf_hash bits key) ≡ none)
        × (probe bits (mcap bits) (set m.slot i no_slot) key (sf_hash bits key) ≡ some i)
  probe-endless m key fuel i size lt full =
      let slots = set m.slot i no_slot in
      let gap : key_at slots i ≡ 0 =
        ap (λ (s : MapSlot). s.k) (get_or-set_self m.slot i no_slot no_slot (omega arith)) in
      let (p, e) = search_ends bits slots key (i, lt, gap) in
      let stop =
        probe-stops bits (mcap bits) slots key (sf_hash bits key) (sf_hash-lt bits key) e in
      (
        probe_endless bits fuel m.slot key (sf_hash bits key) full (sf_hash-lt bits key),
        elim (ℕ_discrete p i) [
          | yes here ↦ e ∙ ap (λ (k : ℕ). some k) here
          | no away ↦
              let same : key_at slots p ≡ key_at m.slot p =
                ap (λ (s : MapSlot). s.k)
                  (get_or-set_ne m.slot i p no_slot no_slot (λ q. away (sym q))) in
              elim stop.1 [
                | inl held ↦ absurd ((full p stop.0).1 (sym same ∙ held))
                | inr empty ↦ absurd ((full p stop.0).0 (sym same ∙ empty))
              ]
        ],
      )
