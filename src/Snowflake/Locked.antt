-- ===== src/Snowflake/Locked.antt =====
-- dot_config/nvim/skeletons/snowflake.h/snowflake.h, the generator without a mask on the sequence
-- number, and snowflake_mtx.h/mutex.h, which calls it under a mutex. The mutex is the platform's:
-- the value that its initialisation returns is an argument, and between lock and unlock no other
-- call touches the generator, so a call is one step.
use cm_dotfiles.Prelude.{
  ℕ, ◌+◌, ◌^◌, ◌<◌, ◌≡◌, arith, ◌==◌, ltb, if◌then◌else◌, bit_and, bit_or, ◌<<◌, u16, u64, add64,
  sub64, Option, none, some, refl, ap, sym,
}
use cm_dotfiles.Prelude.Bits.{and_mask}
use cm_dotfiles.Snowflake.Core
use cm_dotfiles.Snowflake.Core.{epoch_millis, node_max, seq_max, SfGen, advance, snowflake_compose}
use cm_dotfiles.Snowflake.Core.Order.{IsValid}

-- What `snowflake_gen_next` leaves in `*last_ms` and `*seq`.
gen_step : ℕ → ℕ → ℕ → ℕ × ℕ
gen_step last_ms seq now_ms =
    let now = if ltb now_ms last_ms then last_ms else now_ms in
    let bumped = u16 (seq + 1) in
    if now == last_ms
    then if ltb seq_max bumped then (add64 now 1, 0) else (now, bumped)
    else (now, 0)

pub snowflake_gen_next : ℕ → ℕ → ℕ → ℕ → ℕ × ℕ × ℕ
unfolding gen_step
snowflake_gen_next last_ms node_id seq now_ms =
    let (now, seq') = gen_step last_ms seq now_ms in
    (
      bit_or (bit_or (u64 (sub64 now epoch_millis << 22)) (bit_and node_id node_max << 12)) seq',
      now,
      seq',
    )

-- What `snowflake_init` returns: EINVAL, ERANGE, or what the mutex returns.
pub data Init : Type 0 where
  einval erange : Init
  mutex : ℕ → Init

-- The pointer `sf` may be null. A node that is out of range leaves the generator alone.
pub snowflake_init : Option SfGen → ℕ → ℕ → Init × Option SfGen
snowflake_init none node_id rc = (einval, none)
snowflake_init (some sf) node_id rc =
    if ltb node_max node_id
    then (erange, some sf)
    else (mutex rc, some (record { node_id = node_id; seq = 0; last_ms = 0 }))

pub snowflake_next : SfGen → ℕ → ℕ × SfGen
unfolding snowflake_gen_next
snowflake_next sf now_ms =
    let (id, last_ms, seq) = snowflake_gen_next sf.last_ms sf.node_id sf.seq now_ms in
    (id, record sf { seq = seq; last_ms = last_ms })

advance-seq_fits : (last_ms seq now_ms : ℕ) → seq < 2 ^ 12 → (advance last_ms seq now_ms).1 < 2 ^ 12
unfolding advance
advance-seq_fits last_ms seq now_ms s = ground arith

gen_step-eq-advance :
    (last_ms seq now_ms : ℕ) → gen_step last_ms seq now_ms ≡ advance last_ms seq now_ms
unfolding gen_step advance
gen_step-eq-advance last_ms seq now_ms = refl

-- The generator under the mutex issues the same id and reaches the same state as the one of
-- dot_examples/c/ids/sf.h, from every valid state and at every reading of the clock.
pub snowflake_next-eq-sf_gen_next :
    (g : SfGen) (now_ms : ℕ) → IsValid g → snowflake_next g now_ms ≡ Core.sf_gen_next g now_ms
snowflake_next-eq-sf_gen_next g now_ms v =
    unfold snowflake_next Core.sf_gen_next Core.snowflake_gen_next snowflake_compose in
    let a = advance g.last_ms g.seq now_ms in
    let whole : bit_and a.1 seq_max ≡ a.1 =
      omega (arith, and_mask 12 a.1, advance-seq_fits g.last_ms g.seq now_ms v.seq_fits) in
    let head = bit_or (u64 (sub64 a.0 epoch_millis << 22)) (bit_and g.node_id node_max << 12) in
    ap (λ (q : ℕ). (bit_or head q, record g { seq = a.1; last_ms = a.0 })) (sym whole)
