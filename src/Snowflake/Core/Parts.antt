-- ===== src/Snowflake/Core/Parts.antt =====
-- Composing an id against taking it apart.
use cm_dotfiles.Prelude.{ℕ, ◌+◌, ◌-◌, ◌*◌, ◌/◌, ◌%◌, ◌^◌, ◌≤◌, ◌<◌, ◌≡◌, arith}
use cm_dotfiles.Prelude.Bits.{and_mask, or_fields}
use cm_dotfiles.Snowflake.Core.{epoch_millis, snowflake_compose, sf_extract_parts}

-- The id as a sum of its three fields.
pub snowflake_compose_lem :
    (ts node_id seq : ℕ)
    → epoch_millis ≤ ts
    → ts < epoch_millis + 2 ^ 42
    → snowflake_compose ts node_id seq
      ≡ (ts - epoch_millis) * 2 ^ 22 + node_id % 2 ^ 10 * 2 ^ 12 + seq % 2 ^ 12
unfolding snowflake_compose
snowflake_compose_lem ts node_id seq lo hi = ground (
  arith,
  and_mask 10 node_id,
  and_mask 12 seq,
  or_fields 22 (ts - epoch_millis) (node_id % 2 ^ 10 * 2 ^ 12),
  or_fields 12 ((ts - epoch_millis) * 2 ^ 10 + node_id % 2 ^ 10) (seq % 2 ^ 12),
)

-- For 2 ^ 42 milliseconds from the epoch on, an id gives back the time that it was composed of,
-- the low 10 bits of the node and the low 12 bits of the sequence number.
pub sf_extract_parts-snowflake_compose :
    (ts node_id seq : ℕ)
    → epoch_millis ≤ ts
    → ts < epoch_millis + 2 ^ 42
    → sf_extract_parts (snowflake_compose ts node_id seq)
      ≡ record { ts = ts; node_id = node_id % 2 ^ 10; seq = seq % 2 ^ 12 }
unfolding sf_extract_parts
sf_extract_parts-snowflake_compose ts node_id seq lo hi =
    let id = snowflake_compose ts node_id seq in
    ground
      (arith, and_mask 10 (id / 2 ^ 12), and_mask 12 id, snowflake_compose_lem ts node_id seq lo hi)

-- Composing the parts of any 64-bit id gives the id back.
pub snowflake_compose-sf_extract_parts :
    (id : ℕ)
    → id < 2 ^ 64
    → let p = sf_extract_parts id in snowflake_compose p.ts p.node_id p.seq ≡ id
unfolding sf_extract_parts
snowflake_compose-sf_extract_parts id h =
    let p = sf_extract_parts id in
    omega (
      arith,
      and_mask 10 (id / 2 ^ 12),
      and_mask 12 id,
      snowflake_compose_lem p.ts p.node_id p.seq (omega arith) (omega arith),
    )
