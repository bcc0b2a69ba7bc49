-- ===== src/Snowflake/Atomic/Unique.antt =====
-- About interleaved calls of `snf_next` on one generator.
use cm_dotfiles.Prelude.{
  ℕ, ◌+◌, ◌-◌, ◌*◌, ◌/◌, ◌%◌, ◌^◌, ◌≤◌, ◌<◌, ◌≡◌, ◌≢◌, ◌⊎◌, inl, inr, arith, List, [], ◌∷◌, length,
  ◌==◌, ap, bit_and, Bool-cases,
}
use mathlib.Core.Path.{subst}
use cm_dotfiles.Prelude.Bits.{and_mask, or_fields}
use cm_dotfiles.Snowflake.Atomic.{
  epoch_millis, node_max, pack, make_id, attempt, Thread, idle, looping, tried, System, update,
  Step, call, load, exchange, retry, Reach, here, next,
}

-- The order in which an id was issued: the word that the exchange stored.
order : ℕ → ℕ
order id = (id / 2 ^ 22 + epoch_millis) * 2 ^ 12 + id % 2 ^ 12

-- What one attempt computes from the word, while the time is far from wrapping.
record Attempts (old now_ms : ℕ) (r : ℕ × ℕ) : Type 0 where
  seq_fits : r.1 < 2 ^ 12
  grows : old < r.0 * 2 ^ 12 + r.1
  not_before : now_ms ≤ r.0
  close : (r.0 ≤ now_ms) ⊎ (r.0 ≤ old / 2 ^ 12 + 1)

attempt-Attempts :
    (old now_ms : ℕ)
    → old / 2 ^ 12 < 2 ^ 63
    → now_ms < 2 ^ 63
    → Attempts old now_ms (attempt old now_ms)
unfolding attempt
attempt-Attempts old now_ms p q = ground (arith, and_mask 12 old)

pack_lem : (ms seq : ℕ) → ms < 2 ^ 52 → seq < 2 ^ 12 → pack ms seq ≡ ms * 2 ^ 12 + seq
unfolding pack
pack_lem ms seq p q = ground (arith, or_fields 12 ms seq)

make_id_lem :
    (ms node seq : ℕ)
    → epoch_millis ≤ ms
    → ms < epoch_millis + 2 ^ 42
    → seq < 2 ^ 12
    → make_id ms (bit_and node node_max) seq
      ≡ (ms - epoch_millis) * 2 ^ 22 + node % 2 ^ 10 * 2 ^ 12 + seq
unfolding make_id
make_id_lem ms node seq lo hi q = ground (
  arith,
  and_mask 10 node,
  or_fields 22 (ms - epoch_millis) (node % 2 ^ 10 * 2 ^ 12),
  or_fields 12 ((ms - epoch_millis) * 2 ^ 10 + node % 2 ^ 10) seq,
)

order-make_id :
    (ms node seq : ℕ)
    → epoch_millis ≤ ms
    → ms < epoch_millis + 2 ^ 42
    → seq < 2 ^ 12
    → order (make_id ms (bit_and node node_max) seq) ≡ ms * 2 ^ 12 + seq
unfolding order
order-make_id ms node seq lo hi q = omega (arith, make_id_lem ms node seq lo hi q)

-- The ids were stored in ascending order, all up to `top`.
abbrev Ordered : ℕ → List ℕ → Type 0
Ordered top [] = Unit {0}
Ordered top (id ∷ ids) = (order id ≤ top) × ((0 < order id) × Ordered (order id - 1) ids)

-- What holds of a thread's local variables, when the time of no thread is past `ahead`.
abbrev Fits : ℕ → Thread → Type 0
Fits ahead idle = Unit {0}
Fits ahead (looping now_ms) = (epoch_millis ≤ now_ms) × (now_ms ≤ ahead)
Fits ahead (tried old now_ms seq) =
    (epoch_millis ≤ now_ms) × (now_ms ≤ ahead) × (seq < 2 ^ 12) × (old < now_ms * 2 ^ 12 + seq)

-- The invariant: each id issued may put the time ahead of the clock's limit by one millisecond.
record Inv (limit : ℕ) (s : System) : Type 0 where
  ordered : Ordered s.packed s.issued
  near : s.packed / 2 ^ 12 ≤ limit + length s.issued
  threads : (i : ℕ) → Fits (limit + length s.issued + 1) (s.threads i)

Ordered-mono : (top top' : ℕ) (ids : List ℕ) → top ≤ top' → Ordered top ids → Ordered top' ids
Ordered-mono top top' [] h o = tt
Ordered-mono top top' (id ∷ ids) h o = (omega arith, o.1)

Fits-mono : (a a' : ℕ) (t : Thread) → a ≤ a' → Fits a t → Fits a' t
Fits-mono a a' idle h f = tt
Fits-mono a a' (looping now_ms) h f = omega arith
Fits-mono a a' (tried old now_ms seq) h f = omega arith

-- A thread's move leaves what holds of the others.
Fits-update :
    (a : ℕ) (ts : ℕ → Thread) (i : ℕ) (t : Thread)
    → ((j : ℕ) → Fits a (ts j))
    → Fits a t
    → (j : ℕ) → Fits a (update ts i t j)
Fits-update a ts i t all own j = elim (Bool-cases (i == j)) [
  | inl same ↦ rw same own
  | inr other ↦ rw other (all j)
]

-- What holds of the thread that moves.
own :
    (a : ℕ) (ts : ℕ → Thread) (i : ℕ) (t : Thread) → ((j : ℕ) → Fits a (ts j)) → ts i ≡ t → Fits a t
own a ts i t all e = subst (Fits a) e (all i)

-- The time that the generator may reach stays within the 42 bits of an id.
abbrev HasRoom : ℕ → System → Type 0
HasRoom limit s = limit + length s.issued + 1 < epoch_millis + 2 ^ 42

Step-Inv :
    {node : ℕ → ℕ} {first limit : ℕ} {s t : System}
    → Step node first limit s t
    → epoch_millis ≤ first
    → HasRoom limit t
    → Inv limit s
    → Inv limit t
Step-Inv {s} (call i now_ms e lo hi) from room v = record {
  ordered = v.ordered;
  near = v.near;
  threads = Fits-update _ s.threads i (looping now_ms) v.threads (omega arith);
}
Step-Inv {s} (load i now_ms e) from room v =
    let f = own _ s.threads i (looping now_ms) v.threads e in
    let r = attempt s.packed now_ms in
    let a = attempt-Attempts s.packed now_ms (omega arith) (omega arith) in
    record {
      ordered = v.ordered;
      near = v.near;
      threads = Fits-update _ s.threads i (tried s.packed r.0 r.1) v.threads (omega arith);
    }
Step-Inv {node} {first} {limit} {s} (exchange i old now_ms seq e same) from room v =
    let f = own _ s.threads i (tried old now_ms seq) v.threads e in
    let stored = pack_lem now_ms seq (omega arith) f.2 in
    let last = order-make_id now_ms (node i) seq f.0 (omega arith) f.2 in
    record {
      ordered =
          (omega arith, (omega arith, Ordered-mono s.packed _ s.issued (omega arith) v.ordered));
      near = omega arith;
      threads =
          Fits-update _ s.threads i idle
            (λ j. Fits-mono _ _ (s.threads j) (omega arith) (v.threads j)) tt;
    }
Step-Inv {s} (retry i old now_ms seq e) from room v =
    let f = own _ s.threads i (tried old now_ms seq) v.threads e in
    record {
      ordered = v.ordered;
      near = v.near;
      threads = Fits-update _ s.threads i (looping now_ms) v.threads (f.0, f.1);
    }

-- Steps only add to what was issued, so there was room before if there is room now.
room_before :
    {node : ℕ → ℕ} {first limit : ℕ} {s t : System}
    → Step node first limit s t
    → HasRoom limit t
    → HasRoom limit s
room_before (call i now_ms e lo hi) room = room
room_before (load i now_ms e) room = room
room_before (exchange i old now_ms seq e same) room = omega arith
room_before (retry i old now_ms seq e) room = room

Reach-Inv :
    {node : ℕ → ℕ} {first limit : ℕ} {s : System}
    → Reach node first limit s
    → epoch_millis ≤ first
    → HasRoom limit s
    → Inv limit s
Reach-Inv here from room = record { ordered = tt; near = omega arith; threads = λ i. tt }
Reach-Inv (next r st) from room = Step-Inv st from room (Reach-Inv r from (room_before st room))

abbrev pub Absent : ℕ → List ℕ → Type 0
Absent id [] = Unit {0}
Absent id (x ∷ xs) = (id ≢ x) × Absent id xs

abbrev pub Distinct : List ℕ → Type 0
Distinct [] = Unit {0}
Distinct (x ∷ xs) = Absent x xs × Distinct xs

Ordered-Absent : (id top : ℕ) (ids : List ℕ) → top < order id → Ordered top ids → Absent id ids
Ordered-Absent id top [] h o = tt
Ordered-Absent id top (x ∷ xs) h o = (
  (λ same. absurd (omega (arith, ap order same))),
  Ordered-Absent id (order x - 1) xs (omega arith) o.1.1,
)

Ordered-Distinct : (top : ℕ) (ids : List ℕ) → Ordered top ids → Distinct ids
Ordered-Distinct top [] o = tt
Ordered-Distinct top (id ∷ ids) o = (
  Ordered-Absent id (order id - 1) ids (omega arith) o.1.1,
  Ordered-Distinct (order id - 1) ids o.1.1,
)

-- However the calls of any number of threads interleave on one generator, and whether or not
-- exchanges fail spuriously, all ids returned are different, if no clock reading is before the
-- epoch, and while the clock's limit and the number of ids leave the time within 42 bits.
pub Reach-Distinct :
    (node : ℕ → ℕ) (first limit : ℕ) {s : System}
    → Reach node first limit s
    → epoch_millis ≤ first
    → limit + length s.issued + 1 < epoch_millis + 2 ^ 42
    → Distinct s.issued
Reach-Distinct node first limit {s} r from room =
    Ordered-Distinct s.packed s.issued (Reach-Inv r from room).ordered
