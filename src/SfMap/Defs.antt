-- ===== src/SfMap/Defs.antt =====
-- The table and its operations. `bits` is MAP_BITS, which a build may set. Each function's loop
-- stops at the first slot from the hash on that holds the key or is empty; `probe` is that loop
-- with fuel, and the fuel is the number of slots: a loop that passes every slot never stops.
use cm_dotfiles.Prelude.{
  ℕ, zero, suc, ◌+◌, ◌-◌, ◌*◌, ◌^◌, List, Option, none, some, get_or, set, replicate, ◌==◌, Bool,
  ◌||◌, leb, if◌then◌else◌, ◌>>=◌, bit_and, u32, u64,
}

-- FB
abbrev pub fb : ℕ
fb = 11400714819323198485

abbrev pub uint32_max : ℕ
uint32_max = 2 ^ 32 - 1

-- `map_slot_t`
pub record MapSlot : Type 0 where
  pub k : ℕ
  pub v : ℕ

abbrev pub no_slot : MapSlot
no_slot = record { k = 0; v = 0 }

-- `sf_map_t`
pub record SfMap : Type 0 where
  pub slot : List MapSlot
  pub next_id : ℕ

-- MCAP and MMASK
abbrev pub mcap : ℕ → ℕ
mcap bits = 2 ^ bits

abbrev pub mmask : ℕ → ℕ
mmask bits = 2 ^ bits - 1

abbrev pub key_at : List MapSlot → ℕ → ℕ
key_at slots i = (get_or slots i no_slot).k

module _ (bits : ℕ) where
  unfoldable pub sf_hash : ℕ → ℕ
  sf_hash k = bit_and (u64 (k * fb)) (mmask bits)

  unfoldable pub sf_map_init : SfMap
  sf_map_init = record { slot = replicate (mcap bits) no_slot; next_id = 0 }

  unfoldable pub sf_map_full : SfMap → Bool
  sf_map_full m = leb (mcap bits) m.next_id

  unfoldable pub probe : ℕ → List MapSlot → ℕ → ℕ → Option ℕ
  probe zero slots key i = none
  probe (suc fuel) slots key i =
      let rest = probe fuel slots key (bit_and (i + 1) (mmask bits)) in
      if key_at slots i == key || key_at slots i == 0 then some i else rest

  -- Where the loops of the functions below stop.
  unfoldable pub locate : SfMap → ℕ → Option ℕ
  locate m key = probe (mcap bits) m.slot key (sf_hash key)

  unfoldable pub sf_map_get : SfMap → ℕ → Option ℕ
  sf_map_get m key = locate m key >>= λ i.
      if key_at m.slot i == key then some (get_or m.slot i no_slot).v else some uint32_max

  unfoldable pub sf_map_get_or_create : SfMap → ℕ → Option (ℕ × SfMap)
  sf_map_get_or_create m key = locate m key >>= λ i.
      if key_at m.slot i == key
      then some ((get_or m.slot i no_slot).v, m)
      else if sf_map_full m
      then some (uint32_max, m)
      else some (
        m.next_id,
        record {
          slot = set m.slot i (record { k = key; v = m.next_id });
          next_id = u32 (m.next_id + 1);
        },
      )

  unfoldable pub sf_map_put : SfMap → ℕ → ℕ → Option SfMap
  sf_map_put m key value = locate m key >>= λ i. some (record {
    slot = set m.slot i (record { k = key; v = value });
    next_id =
        if key_at m.slot i == 0
        then if leb m.next_id value then u32 (value + 1) else m.next_id
        else m.next_id;
  })
