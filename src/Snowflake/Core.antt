-- ===== src/Snowflake/Core.antt =====
-- dot_examples/c/ids/sf.h: composing an id, taking it apart, and the generator.
pub mod Parts
pub mod Order
use cm_dotfiles.Prelude.{
  ℕ, ◌+◌, ◌-◌, ◌*◌, ◌/◌, ◌%◌, ◌^◌, List, [], ◌∷◌, ◌==◌, ltb, if◌then◌else◌, bit_and, bit_or, ◌<<◌,
  ◌>>◌, u16, u64, add64, sub64,
}

-- SF_EPOCH_MILLIS, SF_NODE_MAX and SF_SEQ_MAX
abbrev pub epoch_millis : ℕ
epoch_millis = 1700000000000

abbrev pub node_max : ℕ
node_max = 2 ^ 10 - 1

abbrev pub seq_max : ℕ
seq_max = 2 ^ 12 - 1

-- `sf_parts_t`
pub record SfParts : Type 0 where
  pub ts : ℕ
  pub node_id : ℕ
  pub seq : ℕ

-- `sf_gen_t`
pub record SfGen : Type 0 where
  pub node_id : ℕ
  pub seq : ℕ
  pub last_ms : ℕ

unfoldable pub snowflake_compose : ℕ → ℕ → ℕ → ℕ
snowflake_compose ts node_id seq =
    bit_or (bit_or (u64 (sub64 ts epoch_millis << 22)) (bit_and node_id node_max << 12))
      (bit_and seq seq_max)

-- What `snowflake_gen_next` leaves in `*last_ms` and `*seq`.
unfoldable pub advance : ℕ → ℕ → ℕ → ℕ × ℕ
advance last_ms seq now_ms =
    let now = if ltb now_ms last_ms then last_ms else now_ms in
    let bumped = u16 (seq + 1) in
    if now == last_ms
    then if ltb seq_max bumped then (add64 now 1, 0) else (now, bumped)
    else (now, 0)

unfoldable pub snowflake_gen_next : ℕ → ℕ → ℕ → ℕ → ℕ × ℕ × ℕ
unfolding advance
snowflake_gen_next last_ms node_id seq now_ms =
    let (now, seq') = advance last_ms seq now_ms in (snowflake_compose now node_id seq', now, seq')

unfoldable pub sf_gen_init : ℕ → SfGen
sf_gen_init node_id = record { node_id = bit_and node_id node_max; seq = 0; last_ms = 0 }

unfoldable pub sf_gen_next : SfGen → ℕ → ℕ × SfGen
sf_gen_next c now_ms =
    let (id, last_ms, seq) = snowflake_gen_next c.last_ms c.node_id c.seq now_ms in
    (id, record c { seq = seq; last_ms = last_ms })

unfoldable pub sf_extract_parts : ℕ → SfParts
sf_extract_parts id = record {
  ts = add64 (id >> 22) epoch_millis;
  node_id = bit_and (id >> 12) node_max;
  seq = bit_and id seq_max;
}

-- The three results of `sf_extract_raw_parts`.
unfoldable pub sf_extract_raw_parts : ℕ → ℕ × ℕ × ℕ
sf_extract_raw_parts id =
    (add64 (id >> 22) epoch_millis, bit_and (id >> 12) node_max, bit_and id seq_max)
