-- ===== src/Snowflake/Tests.antt =====
-- The id generators on concrete inputs.
use cm_dotfiles.Prelude.{ℕ, ◌+◌, ◌≡◌, refl, arith, List, [], ◌∷◌, length}
use cm_dotfiles.Snowflake.Core.{epoch_millis, sf_gen_init}
use cm_dotfiles.Snowflake.Core.Order.{Ascending, ids, ids-Ascending}
use cm_dotfiles.Snowflake.Atomic.{
  System, Reach, here, next, call, load, exchange, retry, pack, attempt, make_id,
}
use cm_dotfiles.Snowflake.Atomic.Unique.{Distinct, Reach-Distinct}

abbrev noon : ℕ
noon = epoch_millis + 1000

-- The clock stands, and then runs backwards.
abbrev readings : List ℕ
readings = noon ∷ noon ∷ epoch_millis ∷ []

ids-Ascending_example : Ascending (ids (sf_gen_init 5) readings)
ids-Ascending_example = ids-Ascending 5 readings (noon + 1) (omega arith) (omega arith)

-- Two threads load the same word; the second one's exchange succeeds, the first one's fails, and
-- it loads again.
abbrev raced_ids : List ℕ
raced_ids = make_id noon 0 1 ∷ make_id noon 1 0 ∷ []

raced : (s : System) × (Reach (λ i. i) epoch_millis (noon + 1) s) × (length s.issued ≡ 2)
unfolding attempt pack
raced = (
  _,
  next
      (next
        (next
          (next
            (next
              (next
                (next (next here (call 0 noon refl (omega arith) (omega arith)))
                  (call 1 noon refl (omega arith) (omega arith)))
                (load 0 noon refl))
              (load 1 noon refl))
            (exchange 1 0 noon 0 refl refl))
          (retry 0 0 noon 0 refl))
        (load 0 noon refl))
      (exchange 0 (pack noon 0) noon 1 refl refl),
  refl,
)

Reach-Distinct_example : Distinct raced.0.issued
unfolding raced
Reach-Distinct_example =
    Reach-Distinct (λ i. i) epoch_millis (noon + 1) raced.1 (omega arith) (omega arith)
