-- ===== src/Spsc/Tests.antt =====
-- A ring of two bytes. The consumer loads the head between the write of the second byte and the
-- end of its push, so it takes out the first one only.
use cm_dotfiles.Prelude.{
  true, false, ℕ, ◌+◌, ◌^◌, ◌≤◌, ◌≡◌, refl, arith, List, [], ◌∷◌, some, length, take,
}
use cm_dotfiles.Spsc.Defs.{
  Ring, System, Reach, here, next, push_load, push_write, push_commit, pop_load, pop_read,
  pop_commit, pop_early, pop_late, start, write, commit_push, commit_pop, read, is_full, is_empty,
  push,
}
use cm_dotfiles.Spsc.Invariant.{bytes}
use cm_dotfiles.Spsc.Fifo.{Reach-take}

abbrev two_zeros : List ℕ
two_zeros = 0 ∷ 0 ∷ []

raced : (s : System) × Reach true 1 two_zeros s × (s.popped ≡ 7 ∷ []) × (s.pushed ≡ 7 ∷ 300 ∷ [])
unfolding write commit_push commit_pop read is_full is_empty
raced = (
  _,
  next
      (next
        (next
          (next
            (next
              (next
                (next (next (next here (push_load 7 refl)) (push_write 7 0 refl refl))
                  (push_commit 7 refl))
                (push_load 300 refl))
              (push_write 300 0 refl refl))
            (pop_load refl))
          (push_commit 300 refl))
        (pop_read 1 refl refl))
      (pop_commit 7 refl),
  refl,
  refl,
)

Reach-take_example :
    (raced.0.popped ≡ take (length raced.0.popped) (bytes raced.0.pushed))
    × (length raced.0.popped ≤ length raced.0.pushed)
    × (length raced.0.pushed ≤ length raced.0.popped + 2 ^ 1)
Reach-take_example = Reach-take 1 (omega arith) refl raced.1

abbrev one_in : Ring
one_in = record { head = 1; tail = 0; mask = 1; buf = 44 ∷ 0 ∷ [] }

push_300 : push (start 1 two_zeros).ring 300 ≡ some one_in
unfolding push write commit_push is_full
push_300 = refl

-- A ring of one byte. The consumer's store of tail takes effect before its read of the byte, and the
-- producer writes the next byte in between: the first one is lost.
overtaken : (s : System) × Reach false 0 (0 ∷ []) s × (s.popped ≡ 8 ∷ []) × (s.pushed ≡ 7 ∷ 8 ∷ [])
unfolding write commit_push commit_pop read is_full is_empty
overtaken = (
  _,
  next
      (next
        (next
          (next
            (next
              (next
                (next (next (next here (push_load 7 refl)) (push_write 7 0 refl refl))
                  (push_commit 7 refl))
                (pop_load refl))
              (pop_early 1 refl refl refl))
            (push_load 8 refl))
          (push_write 8 1 refl refl))
        (push_commit 8 refl))
      (pop_late 0 refl),
  refl,
  refl,
)
