-- ===== src/Circ/Chunks.antt =====
-- Lemmas on `copy_complete_messages` of circ.h, read as frames of the ring's bytes.
use cm_dotfiles.Prelude.{
  ℕ, zero, suc, ◌+◌, ◌-◌, ◌^◌, ◌<◌, ◌≤◌, ◌≡◌, ◌≢◌, refl, sym, ap, ap₂, ◌∙◌, arith, List, [], ◌∷◌,
  ◌++◌, length, take, drop, get_or, Option, none, some, AllBytes, ltb, if◌then◌else◌, ◌==◌, Bool,
  true, false, min, bit_and, sub32, length-append, append-nil,
}
use native.Mathlib.Decide.{ℕ_discrete, dec_le}
use native.Mathlib.Nat.{mod-eq_of_lt, mod_self, one-le-pow, pow-le-pow_right}
use cm_dotfiles.Prelude.Bits.{and_mask}
use cm_dotfiles.Circ.Frames.{ready, copy_chunks, bad_capacity, copied, copy_complete_messages}
use cm_dotfiles.Circ.View.{
  bytes_at, next_frame, length-bytes_at, bytes_at-mod, bytes_at-append, take-bytes_at,
}
use cm_dotfiles.Circ.Messages.{frames, take-length_append}
use cm_dotfiles.Circ.Copy.{count_loop-frames}

-- The buffer and the indices that the function takes.
pub record IsRing (buff : List ℕ) (capacity read_head write_head : ℕ) : Type 0 where
  pub whole : length buff ≡ capacity
  pub fits : capacity < 2 ^ 31
  pub read_in : read_head < capacity
  pub write_in : write_head < capacity

drop-step : (bs : List ℕ) (i : ℕ) → i < length bs → drop i bs ≡ get_or bs i 0 ∷ drop (i + 1) bs
drop-step [] i h = absurd (omega arith)
drop-step (b ∷ bs) zero h = ap (λ (k : ℕ). b ∷ drop k (b ∷ bs)) {x = 1} {y = 0 + 1} (omega arith)
drop-step (b ∷ bs) (suc i) h =
    drop-step bs i (omega arith)
    ∙ ap (λ (k : ℕ). get_or bs i 0 ∷ drop k (b ∷ bs)) {x = suc (i + 1)} {y = suc i + 1}
        (omega arith)

-- Before the end of the buffer the bytes are a segment of it.
segment :
    (buff : List ℕ) (capacity i n : ℕ)
    → length buff ≡ capacity
    → i + n ≤ capacity
    → take n (drop i buff) ≡ bytes_at buff capacity i n
unfolding bytes_at
segment buff capacity i zero size h = refl
segment buff capacity i (suc n) size h =
    rw (drop-step buff i (omega arith), mod-eq_of_lt {n = i} {m = capacity} (omega arith))
      (ap (λ (bs : List ℕ). get_or buff i 0 ∷ bs)
        (segment buff capacity (i + 1) n size (omega arith)))

length-zero : (bs : List ℕ) → length bs ≡ 0 → bs ≡ []
length-zero [] e = refl
length-zero (b ∷ bs) e = absurd (omega arith)

module _ (buff : List ℕ) (read_head write_head size capacity : ℕ)
    (v : IsRing buff capacity read_head write_head) where
  pub ready-le : ready read_head write_head size capacity ≤ capacity
  unfolding ready
  ready-le = let a = v.fits in let b = v.read_in in let c = v.write_in in ground arith

  -- The two chunks are the bytes from `read_head` on.
  copy_chunks_lem :
      (n : ℕ)
      → n ≤ ready read_head write_head size capacity
      → copy_chunks buff read_head write_head capacity n ≡ bytes_at buff capacity read_head n
  unfolding copy_chunks ready
  copy_chunks_lem n h =
      let a = v.fits in
      let b = v.read_in in
      let c = v.write_in in
      let room : sub32 capacity read_head ≡ capacity - read_head = omega arith in
      elim (dec_le (read_head + n) capacity) [
        | yes straight ↦
            let first : (if ltb read_head write_head then n else min n (sub32 capacity read_head))
                ≡ n =
              ground arith in
            let no_more : ltb n n ≡ false = ground arith in
            rw (first, no_more) (append-nil _ ∙ segment buff capacity read_head n v.whole straight)
        | no round ↦
            let head_size = capacity - read_head in
            let behind : write_head ≤ read_head = ground arith in
            let all : n ≤ capacity = ground arith in
            let first : (if ltb read_head write_head then n else min n (sub32 capacity read_head))
                ≡ head_size =
              ground arith in
            let more : ltb head_size n ≡ true = ground arith in
            rw (first, more)
              (ap₂ (λ (xs ys : List ℕ). xs ++ ys)
                  (segment buff capacity read_head head_size v.whole (omega arith))
                  (segment buff capacity 0 (n - head_size) v.whole (omega arith)
                    ∙ (ap (λ (k : ℕ). bytes_at buff capacity k (n - head_size))
                          (sym (mod_self capacity))
                        ∙ (bytes_at-mod buff capacity capacity (n - head_size)
                            ∙ ap (λ (k : ℕ). bytes_at buff capacity k (n - head_size))
                                {y = read_head + head_size} (omega arith))))
                ∙ (sym (bytes_at-append buff capacity read_head head_size (n - head_size))
                    ∙ ap (bytes_at buff capacity read_head) (omega arith)))
      ]

  -- `copy_complete_messages` on a buffer of bytes whose capacity is not a power of two and is below
  -- 2 ^ 31, with indices inside it, that holds whole frames from `read_head` on, and behind them no
  -- whole frame: it copies the frames, round the end of the buffer, and returns their length.
  pub copy_complete_messages-frames :
      (ms : List (List ℕ)) (rest : List ℕ)
      → AllBytes buff
      → bit_and capacity (sub32 capacity 1) ≢ 0
      → bytes_at buff capacity read_head (ready read_head write_head size capacity)
        ≡ frames ms ++ rest
      → next_frame rest ≡ none
      → copy_complete_messages (some buff) false read_head write_head size capacity
        ≡ copied (length (frames ms)) (frames ms)
  unfolding copy_complete_messages
  copy_complete_messages-frames ms rest bytes odd e last =
      let n = ready read_head write_head size capacity in
      let counted =
        count_loop-frames buff capacity bytes v.fits ms rest n read_head n v.read_in e last
          (omega arith) in
      let guard : (bit_and capacity (sub32 capacity 1) == 0) ≡ false = ground arith in
      rw (counted, guard)
        (elim (ℕ_discrete (length (frames ms)) 0) [
          | yes nothing ↦
              rw nothing (ap (λ (bs : List ℕ). copied 0 bs) (sym (length-zero (frames ms) nothing)))
          | no some_bytes ↦
              let test : (length (frames ms) == 0) ≡ false = ground arith in
              rw test (
                ap (copied (length (frames ms))) (
                  copy_chunks_lem (length (frames ms)) (front ms rest n e).0
                  ∙ (sym (
                        take-bytes_at buff capacity read_head n (length (frames ms))
                          (front ms rest n e).0)
                      ∙ (front ms rest n e).1)))
        ])
    where
      front :
          (ms : List (List ℕ)) (rest : List ℕ) (n : ℕ)
          → bytes_at buff capacity read_head n ≡ frames ms ++ rest
          → (length (frames ms) ≤ n)
            × (take (length (frames ms)) (bytes_at buff capacity read_head n) ≡ frames ms)
      front ms rest n e = (
        omega (
          arith,
          length-bytes_at buff capacity read_head n,
          ap length e,
          length-append (frames ms) rest,
        ),
        ap (take (length (frames ms))) e ∙ take-length_append (frames ms) rest,
      )

-- A capacity that is a power of two, up to 2 ^ 31, is refused, whatever else is passed.
pub copy_complete_messages-power_of_two :
    (buff : Option (List ℕ)) (out_null : Bool) (read_head write_head size k : ℕ)
    → k < 32
    → copy_complete_messages buff out_null read_head write_head size (2 ^ k) ≡ bad_capacity
unfolding copy_complete_messages
copy_complete_messages-power_of_two buff out_null read_head write_head size k h = refuse buff
  where
    low_bits : bit_and (2 ^ k) (sub32 (2 ^ k) 1) ≡ 0
    low_bits =
        let le : k ≤ 31 = omega arith in
        let top : 2 ^ k ≤ 2 ^ 31 = pow-le-pow_right (omega arith) {j = 31} le in
        let positive = one-le-pow k 2 (omega arith) in
        let less : sub32 (2 ^ k) 1 ≡ 2 ^ k - 1 = omega arith in
        rw less (and_mask k (2 ^ k) ∙ mod_self (2 ^ k))

    refuse :
        (b : Option (List ℕ))
        → copy_complete_messages b out_null read_head write_head size (2 ^ k) ≡ bad_capacity
    refuse none = rw low_bits refl
    refuse (some bs) = rw low_bits refl
