-- ===== src/SfMap/Tests.antt =====
-- The map with four slots on concrete keys. 5 and 13 meet in one slot.
use cm_dotfiles.Prelude.{set, ℕ, ◌≡◌, ◌≢◌, ◌<◌, refl, arith, [], ◌∷◌, none, some, false, zero, suc}
use cm_dotfiles.SfMap.Defs.{
  mcap, SfMap, no_slot, key_at, probe, locate, sf_hash, sf_map_init, sf_map_get, sf_map_put,
  sf_map_get_or_create, sf_map_full,
}
use cm_dotfiles.SfMap.Invariant.{IsValid}
use cm_dotfiles.SfMap.Results.{
  sf_map_get-sf_map_put, sf_map_get-sf_map_get_or_create, sf_map_init-IsValid, probe-endless,
  sf_map_get-ends,
}
use cm_dotfiles.SfMap.Fresh.{Numbered, sf_map_init-Numbered, sf_map_get_or_create-ne}

hashes : (sf_hash 2 5 ≡ 1) × (sf_hash 2 13 ≡ 1) × (sf_hash 2 8 ≡ 0)
unfolding sf_hash
hashes = (refl, refl, refl)

abbrev initial : SfMap
initial = record { slot = no_slot ∷ no_slot ∷ no_slot ∷ no_slot ∷ []; next_id = 0 }

-- After 5 was put with 7
abbrev one_put : SfMap
one_put = record { slot = no_slot ∷ record { k = 5; v = 7 } ∷ no_slot ∷ no_slot ∷ []; next_id = 8 }

-- and 13 with 9
abbrev two_put : SfMap
two_put = record {
  slot = no_slot ∷ record { k = 5; v = 7 } ∷ record { k = 13; v = 9 } ∷ no_slot ∷ [];
  next_id = 10;
}

-- After the first id was created for 5
abbrev one_created : SfMap
one_created = record {
  slot = no_slot ∷ record { k = 5; v = 0 } ∷ no_slot ∷ no_slot ∷ [];
  next_id = 1;
}

abbrev two_created : SfMap
two_created = record {
  slot = no_slot ∷ record { k = 5; v = 0 } ∷ record { k = 13; v = 1 } ∷ no_slot ∷ [];
  next_id = 2;
}

-- No slot is empty, and 5 is in none.
abbrev crowded : SfMap
crowded = record {
  slot =
      record { k = 1; v = 0 }
      ∷ record { k = 2; v = 1 }
      ∷ record { k = 3; v = 2 }
      ∷ record { k = 4; v = 3 }
      ∷ [];
  next_id = 4;
}

put_five : sf_map_put 2 initial 5 7 ≡ some one_put
unfolding sf_map_put locate probe sf_hash
put_five = refl

put_thirteen : sf_map_put 2 one_put 13 9 ≡ some two_put
unfolding sf_map_put locate probe sf_hash
put_thirteen = refl

create_five : sf_map_get_or_create 2 initial 5 ≡ some (0, one_created)
unfolding sf_map_get_or_create locate probe sf_hash sf_map_full
create_five = refl

create_thirteen : sf_map_get_or_create 2 one_created 13 ≡ some (1, two_created)
unfolding sf_map_get_or_create locate probe sf_hash sf_map_full
create_thirteen = refl

has_room : (sf_map_full 2 initial ≡ false) × (sf_map_full 2 one_created ≡ false)
unfolding sf_map_full
has_room = (refl, refl)

initial-IsValid : IsValid 2 initial.slot
unfolding sf_map_init
initial-IsValid = (sf_map_init-IsValid 2 5 (omega arith)).0

initial-Numbered : Numbered initial
unfolding sf_map_init
initial-Numbered = sf_map_init-Numbered 2 (omega arith)

one_put-IsValid : IsValid 2 one_put.slot
one_put-IsValid =
    (sf_map_get-sf_map_put 2 initial one_put 5 7 5 initial-IsValid (omega arith) (omega arith)
      put_five (3, omega arith, refl)).0

sf_map_get-sf_map_put_example :
    IsValid 2 two_put.slot × (sf_map_get 2 two_put 5 ≡ sf_map_get 2 one_put 5)
sf_map_get-sf_map_put_example =
    sf_map_get-sf_map_put 2 one_put two_put 13 9 5 one_put-IsValid (omega arith) (omega arith)
      put_thirteen (3, omega arith, refl)

sf_map_get-sf_map_get_or_create_example :
    IsValid 2 one_created.slot × (sf_map_get 2 one_created 5 ≡ some 0)
sf_map_get-sf_map_get_or_create_example =
    sf_map_get-sf_map_get_or_create 2 initial one_created 5 0 5 initial-IsValid (omega arith)
      (omega arith) has_room.0 create_five (3, omega arith, refl)

sf_map_get_or_create-ne_example : Numbered two_created × (◌≢◌ {A = ℕ} 0 1)
sf_map_get_or_create-ne_example =
    sf_map_get_or_create-ne 2 (omega arith) initial one_created two_created 5 13 0 1
      initial-Numbered refl (omega arith) (omega arith) (omega arith) has_room.0 create_five
      has_room.1 create_thirteen

sf_map_get-ends_example :
    (sf_map_get 2 one_put 13 ≢ none)
    × (sf_map_get_or_create 2 one_put 13 ≢ none)
    × (sf_map_put 2 one_put 13 9 ≢ none)
sf_map_get-ends_example = sf_map_get-ends 2 one_put 13 9 (3, omega arith, refl)

crowded_keys : (j : ℕ) → j < 4 → (key_at crowded.slot j ≢ 0) × (key_at crowded.slot j ≢ 5)
crowded_keys zero h = omega arith
crowded_keys (suc zero) h = omega arith
crowded_keys (suc (suc zero)) h = omega arith
crowded_keys (suc (suc (suc zero))) h = omega arith
crowded_keys (suc (suc (suc (suc j)))) h = absurd (omega arith)

probe-endless_example :
    (probe 2 1000000 crowded.slot 5 (sf_hash 2 5) ≡ none)
    × (probe 2 (mcap 2) (set crowded.slot 3 no_slot) 5 (sf_hash 2 5) ≡ some 3)
probe-endless_example = probe-endless 2 crowded 5 1000000 3 refl (omega arith) crowded_keys
