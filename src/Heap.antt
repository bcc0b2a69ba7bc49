-- ===== src/Heap.antt =====
-- dot_config/nvim/skeletons/max_heap/max_heap.h: a binary heap in an array, with the root at 1 and
-- the greatest int at 0.
-- The code only compares ints, so an int is its distance from INT_MIN.
use cm_dotfiles.Prelude.{
  ℕ, zero, suc, ◌+◌, ◌-◌, ◌*◌, ◌/◌, ◌%◌, ◌^◌, ◌≤◌, ◌<◌, min, bit_and, bit_or, bit_xor, ◌≡◌, refl,
  sym, ap, ap₂, ◌∙◌, ◌≢◌, ◌↔◌, ◌⊎◌, inl, inr, Bool, true, false, ◌&&◌, ◌||◌, not, Option, none,
  some, List, [], ◌∷◌, ◌++◌, map, append_assoc, append-nil, arith, ltb, leb, ◌==◌, if◌then◌else◌,
  lt→ltb, le→ltb, ==_iff, Bool-cases, Option-cases, ◌>>=◌, codes, length, get_elem?, get_or, set,
  take, drop, replicate, length-append, length-set, length-replicate, get_or-replicate,
  get_or-set_self, get_or-set_ne, take-append-drop, length-take, length-drop, take-all,
  take-of_length, AllBytes, AllBytes-append, u8, u16, u32, u64, ◌<<◌, ◌>>◌, sub64, add64, sub32,
}
use native.Mathlib.Decide.{dec_lt, ℕ_discrete}
use mathlib.Core.Path.{subst}
pub mod Count
pub mod Down
pub mod Up
pub mod Steps
pub mod Kth
mod Tests

abbrev pub int_max : ℕ
int_max = 2 ^ 32 - 1

abbrev pub int_zero : ℕ
int_zero = 2 ^ 31

abbrev pub max_size : ℕ
max_size = 2 ^ 17

-- A read of the array.
abbrev pub at : List ℕ → ℕ → ℕ
at heap i = get_or heap i int_zero

-- The child of i to compare with.
unfoldable pub larger_child : List ℕ → ℕ → ℕ → ℕ
larger_child heap n i =
    let l = i << 1 in let r = l + 1 in if leb r n && ltb (at heap l) (at heap r) then r else l

-- The loop of sift_down, with the write behind it, in at most the given number of turns.
unfoldable pub down_loop : ℕ → List ℕ → ℕ → ℕ → ℕ → List ℕ
unfolding larger_child
down_loop zero heap n i key = heap
down_loop (suc fuel) heap n i key =
    let m = larger_child heap n i in
    let rest = down_loop fuel (set heap i (at heap m)) n m key in
    if ltb n (i << 1)
    then set heap i key
    else if not (ltb key (at heap m))
    then set heap i key
    else rest

-- The position doubles in each turn.
unfoldable pub sift_down : List ℕ → ℕ → ℕ → List ℕ
unfolding down_loop
sift_down heap n i = down_loop (suc n) heap n i (at heap i)

unfoldable pub up_loop : ℕ → List ℕ → ℕ → ℕ → List ℕ
up_loop zero heap i key = heap
up_loop (suc fuel) heap i key =
    let rest = up_loop fuel (set heap i (at heap (i >> 1))) (i >> 1) key in
    if leb key (at heap (i >> 1)) then set heap i key else rest

-- The position is halved in each turn.
unfoldable pub sift_up : List ℕ → ℕ → List ℕ
unfolding up_loop
sift_up heap i = up_loop (suc i) heap i (at heap i)

-- The loop over the numbers that are left, which gives the heap and its count.
unfoldable pub build : List ℕ → List ℕ → ℕ → List ℕ × ℕ
unfolding sift_up
build [] heap count = (heap, count)
build (x ∷ nums) heap count = build nums (sift_up (set heap (suc count) x) (suc count)) (suc count)

-- The loop that removes the greatest number as often as k is left above 0 when it has been
-- decremented. With a count of 0 one turn copies the entry at 0; a further one reads below the
-- array, and is none here.
unfoldable pub pops : ℕ → List ℕ → ℕ → Option (List ℕ)
unfolding sift_down
pops zero heap count = some heap
pops (suc k) heap (suc count) = pops k (sift_down (set heap 1 (at heap (suc count))) count 1) count
pops (suc zero) heap zero = some (set heap 1 (at heap 0))
pops (suc (suc k)) heap zero = none

-- With an array of `size` ints. More numbers than it holds behind the first entry are written
-- behind it, and a k of 0 is decremented below 0: none here.
unfoldable pub kth_largest : ℕ → List ℕ → ℕ → Option ℕ
unfolding build pops
kth_largest size [] k = some int_zero
kth_largest size (x ∷ nums) zero = none
kth_largest size (x ∷ nums) (suc k) =
    let built = build nums (set (set (replicate size int_zero) 0 int_max) 1 x) 1 in
    let result = pops k built.0 built.1 >>= λ heap. some (at heap 1) in
    if ltb (suc (length nums)) size then result else none

unfoldable pub find_kth_largest : List ℕ → ℕ → Option ℕ
unfolding kth_largest
find_kth_largest nums k = kth_largest max_size nums k
