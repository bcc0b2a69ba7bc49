-- ===== src/Snowflake/Atomic.antt =====
-- dot_config/nvim/skeletons/snowflake_atomic.h: `snf_next` as the steps of its threads on the one
-- shared word. A load and a compare-exchange are one step each; the weak exchange may also fail
-- though the word has not changed. Each thread has its own node, and the clock readings that calls
-- bring are the environment's.
pub mod Unique
use cm_dotfiles.Prelude.{
  ℕ, ◌+◌, ◌-◌, ◌*◌, ◌/◌, ◌%◌, ◌^◌, ◌≤◌, ◌<◌, ◌≡◌, List, [], ◌∷◌, ◌==◌, ltb, if◌then◌else◌, bit_and,
  bit_or, ◌<<◌, ◌>>◌, u16, u64, add64, sub64,
}

-- SNF_EPOCH_MILLIS, SNF_NODE_MAX and SNF_SEQ_MAX
abbrev pub epoch_millis : ℕ
epoch_millis = 1700000000000

abbrev pub node_max : ℕ
node_max = 2 ^ 10 - 1

abbrev pub seq_max : ℕ
seq_max = 2 ^ 12 - 1

unfoldable pub pack : ℕ → ℕ → ℕ
pack ms seq = bit_or (u64 (ms << 12)) seq

unfoldable pub make_id : ℕ → ℕ → ℕ → ℕ
make_id ms node seq = bit_or (bit_or (u64 (sub64 ms epoch_millis << 22)) (node << 12)) seq

-- The body of the loop between the load of `old` and the exchange: the new `now_ms` and `seq`.
unfoldable pub attempt : ℕ → ℕ → ℕ × ℕ
attempt old now_ms =
    let last_ms = old >> 12 in
    let seq = bit_and old seq_max in
    let now = if ltb now_ms last_ms then last_ms else now_ms in
    let bumped = u16 (seq + 1) in
    if now == last_ms
    then if ltb seq_max bumped then (add64 now 1, 0) else (now, bumped)
    else (now, 0)

-- Where a thread stands in `snf_next`, with the local variables that are live there.
pub data Thread : Type 0 where
  idle : Thread
  looping : (now_ms : ℕ) → Thread
  tried : (old now_ms seq : ℕ) → Thread

-- The shared word, the threads, their nodes, and the ids returned so far, the latest first.
pub record System : Type 0 where
  pub packed : ℕ
  pub threads : ℕ → Thread
  pub issued : List ℕ

abbrev pub update : (ℕ → Thread) → ℕ → Thread → ℕ → Thread
update ts i t j = if i == j then t else ts j

-- A step of thread `i`: a call at some clock reading, a load with the computation behind it, and
-- the exchange with its two outcomes. `node` gives the node that each thread passes, and the clock's
-- readings are from `first` on and below `limit`.
pub data Step (node : ℕ → ℕ) (first limit : ℕ) (s : System) : System → Type 0 where
  call :
      (i now_ms : ℕ)
      → s.threads i ≡ idle
      → first ≤ now_ms
      → now_ms < limit
      → Step node first limit s (record s { threads = update s.threads i (looping now_ms) })
  load :
      (i now_ms : ℕ)
      → s.threads i ≡ looping now_ms
      → Step node first limit s (record s {
        threads =
            update s.threads i
              (tried s.packed (attempt s.packed now_ms).0 (attempt s.packed now_ms).1);
      })
  exchange :
      (i old now_ms seq : ℕ)
      → s.threads i ≡ tried old now_ms seq
      → s.packed ≡ old
      → Step node first limit s (record {
        packed = pack now_ms seq;
        threads = update s.threads i idle;
        issued = make_id now_ms (bit_and (node i) node_max) seq ∷ s.issued;
      })
  retry :
      (i old now_ms seq : ℕ)
      → s.threads i ≡ tried old now_ms seq
      → Step node first limit s (record s { threads = update s.threads i (looping now_ms) })

-- A zeroed generator with no call in progress.
abbrev pub start : System
start = record { packed = 0; threads = λ i. idle; issued = [] }

pub data Reach (node : ℕ → ℕ) (first limit : ℕ) : System → Type 0 where
  here : Reach node first limit start
  next :
      {s t : System}
      → Reach node first limit s
      → Step node first limit s t
      → Reach node first limit t
