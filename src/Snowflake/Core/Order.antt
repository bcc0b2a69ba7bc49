-- ===== src/Snowflake/Core/Order.antt =====
-- About the order of the ids of one generator.
use cm_dotfiles.Prelude.{ℕ, ◌+◌, ◌^◌, ◌≤◌, ◌<◌, ◌≡◌, ◌≢◌, ◌⊎◌, arith, List, [], ◌∷◌, length, refl}
use mathlib.Core.Path.{subst}
use cm_dotfiles.Prelude.Bits.{and_mask}
use cm_dotfiles.Snowflake.Core.{
  SfGen, epoch_millis, advance, snowflake_compose, snowflake_gen_next, sf_gen_init, sf_gen_next,
}
use cm_dotfiles.Snowflake.Core.Parts.{snowflake_compose_lem}

-- The pair of time and sequence number goes up: the clock may stand or run backwards.
pub record Advances (last_ms seq now_ms : ℕ) (r : ℕ × ℕ) : Type 0 where
  pub seq_fits : r.1 < 2 ^ 12
  pub later : (last_ms < r.0) ⊎ ((last_ms ≡ r.0) × (seq < r.1))
  pub not_before : now_ms ≤ r.0
  pub close : (r.0 ≤ now_ms) ⊎ (r.0 ≤ last_ms + 1)

-- With a sequence number of 12 bits and times below 2 ^ 63, a call moves to a later time, or to a
-- greater sequence number of the same time, which again has 12 bits. The new time is not before
-- the clock, and is at most the clock's or one millisecond after the last time.
pub advance-Advances :
    (last_ms seq now_ms : ℕ)
    → seq < 2 ^ 12
    → last_ms < 2 ^ 63
    → now_ms < 2 ^ 63
    → Advances last_ms seq now_ms (advance last_ms seq now_ms)
unfolding advance
advance-Advances last_ms seq now_ms s l n = ground arith

-- A generator keeps its fields in their ranges.
pub record IsValid (g : SfGen) : Type 0 where
  pub node_fits : g.node_id < 2 ^ 10
  pub seq_fits : g.seq < 2 ^ 12

pub sf_gen_init-IsValid : (node_id : ℕ) → IsValid (sf_gen_init node_id)
unfolding sf_gen_init
sf_gen_init-IsValid node_id = omega (arith, and_mask 10 node_id)

-- The calls of a generator with the clock readings in order.
unfoldable pub ids : SfGen → List ℕ → List ℕ
ids g [] = []
ids g (now ∷ nows) = let (id, g') = sf_gen_next g now in id ∷ ids g' nows

-- Each element is above the one before it, and the first above `b`.
abbrev pub Increasing : ℕ → List ℕ → Type 0
Increasing b [] = Unit {0}
Increasing b (x ∷ xs) = (b < x) × Increasing x xs

abbrev pub Ascending : List ℕ → Type 0
Ascending [] = Unit {0}
Ascending (x ∷ xs) = Increasing x xs

abbrev pub Within : ℕ → ℕ → List ℕ → Type 0
Within lo hi [] = Unit {0}
Within lo hi (x ∷ xs) = (lo ≤ x) × (x < hi) × Within lo hi xs

-- What one call does to a valid generator with a clock reading from the epoch on.
record Issued (g : SfGen) (now_ms : ℕ) (r : ℕ × SfGen) : Type 0 where
  valid : IsValid r.1
  same_node : r.1.node_id ≡ g.node_id
  from_epoch : epoch_millis ≤ r.1.last_ms
  close : (r.1.last_ms ≤ now_ms) ⊎ (r.1.last_ms ≤ g.last_ms + 1)
  later : (g.last_ms < r.1.last_ms) ⊎ ((g.last_ms ≡ r.1.last_ms) × (g.seq < r.1.seq))
  id : r.0 ≡ snowflake_compose r.1.last_ms g.node_id r.1.seq

Within-mono : (lo hi : ℕ) (xs : List ℕ) → Within lo hi xs → Within lo (hi + 1) xs
Within-mono lo hi [] w = tt
Within-mono lo hi (x ∷ xs) w = (w.0, omega arith, Within-mono lo hi xs w.2)

sf_gen_next-Issued :
    (g : SfGen) (now_ms : ℕ)
    → IsValid g
    → epoch_millis ≤ now_ms
    → now_ms < 2 ^ 63
    → g.last_ms < 2 ^ 63
    → Issued g now_ms (sf_gen_next g now_ms)
unfolding sf_gen_next snowflake_gen_next
sf_gen_next-Issued g now_ms v e n l =
    let a = advance-Advances g.last_ms g.seq now_ms v.seq_fits l n in
    record {
      valid = omega arith;
      same_node = refl;
      from_epoch = omega arith;
      close = a.close;
      later = a.later;
      id = refl;
    }

ids-Increasing :
    (g : SfGen) (nows : List ℕ) (limit : ℕ)
    → IsValid g
    → epoch_millis ≤ g.last_ms
    → g.last_ms < limit
    → limit + length nows ≤ epoch_millis + 2 ^ 42
    → Within epoch_millis limit nows
    → Increasing (snowflake_compose g.last_ms g.node_id g.seq) (ids g nows)
unfolding ids
ids-Increasing g [] limit v e l room w = tt
ids-Increasing g (now ∷ nows) limit v e l room w =
    let s = sf_gen_next-Issued g now v w.0 (omega arith) (omega arith) in
    let g' = (sf_gen_next g now).1 in
    let rest =
      ids-Increasing g' nows (limit + 1) s.valid s.from_epoch (omega arith) (omega arith)
        (Within-mono epoch_millis limit nows w.2) in
    (
      omega (
        arith,
        snowflake_compose_lem g.last_ms g.node_id g.seq,
        snowflake_compose_lem g'.last_ms g.node_id g'.seq,
        s.id,
      ),
      subst (λ b. Increasing b (ids g' nows)) (cc (s.id, s.same_node)) rest,
    )

-- The ids that a fresh generator issues are strictly ascending, so no two are the same, for any
-- clock readings from the epoch on, in any order, that leave one millisecond for each call.
pub ids-Ascending :
    (node_id : ℕ) (nows : List ℕ) (limit : ℕ)
    → limit + length nows ≤ epoch_millis + 2 ^ 42
    → Within epoch_millis limit nows
    → Ascending (ids (sf_gen_init node_id) nows)
unfolding ids
ids-Ascending node_id [] limit room w = tt
ids-Ascending node_id (now ∷ nows) limit room w =
    let g = sf_gen_init node_id in
    let fresh : g.last_ms ≡ 0 = unfold sf_gen_init in refl in
    let s =
      sf_gen_next-Issued g now (sf_gen_init-IsValid node_id) w.0 (omega arith) (omega arith) in
    let g' = (sf_gen_next g now).1 in
    let rest =
      ids-Increasing g' nows (limit + 1) s.valid s.from_epoch (omega arith) (omega arith)
        (Within-mono epoch_millis limit nows w.2) in
    subst (λ b. Increasing b (ids g' nows)) (cc (s.id, s.same_node)) rest

-- Two valid generators of different nodes never issue the same id, while their clocks and their
-- last times are within 2 ^ 41 milliseconds of the epoch.
pub sf_gen_next-ne :
    (g h : SfGen) (now now' : ℕ)
    → IsValid g
    → IsValid h
    → Within epoch_millis (epoch_millis + 2 ^ 41) (now ∷ now' ∷ [])
    → g.last_ms < epoch_millis + 2 ^ 41
    → h.last_ms < epoch_millis + 2 ^ 41
    → g.node_id ≢ h.node_id
    → (sf_gen_next g now).0 ≢ (sf_gen_next h now').0
sf_gen_next-ne g h now now' vg vh w p q ne same =
    let s = sf_gen_next-Issued g now vg w.0 (omega arith) (omega arith) in
    let t = sf_gen_next-Issued h now' vh (omega arith) (omega arith) (omega arith) in
    let (g', h') = both in
    absurd (
      omega (
        arith,
        s.id,
        t.id,
        same,
        ne,
        snowflake_compose_lem g'.last_ms g.node_id g'.seq,
        snowflake_compose_lem h'.last_ms h.node_id h'.seq,
      ))
  where
    both : SfGen × SfGen
    both = ((sf_gen_next g now).1, (sf_gen_next h now').1)
