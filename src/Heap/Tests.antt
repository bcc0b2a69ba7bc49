-- ===== src/Heap/Tests.antt =====
-- The heap on a few numbers.
use cm_dotfiles.Prelude.{ℕ, ◌-◌, ◌^◌, ◌≤◌, ◌≡◌, refl, ◌↔◌, none, some, List, [], ◌∷◌, map, arith}
use cm_dotfiles.Heap.{
  kth_largest, pops, build, sift_up, up_loop, sift_down, down_loop, larger_child, find_kth_largest,
}
use cm_dotfiles.Heap.Count.{count_at_least}
use cm_dotfiles.Heap.Kth.{find_kth_largest-kth}

abbrev some_nums : List ℕ
some_nums = 30 ∷ 10 ∷ 50 ∷ 20 ∷ 50 ∷ []

third : kth_largest 16 some_nums 3 ≡ some 30
unfolding kth_largest pops build sift_up up_loop sift_down down_loop larger_child
third = refl

-- A k above the number of numbers gives the last one, then the entry at 0.
past_the_end :
    map (kth_largest 16 (7 ∷ [])) (1 ∷ 2 ∷ 3 ∷ 4 ∷ [])
    ≡ some 7 ∷ some 7 ∷ some (2 ^ 32 - 1) ∷ none ∷ []
unfolding kth_largest pops build sift_up up_loop sift_down down_loop larger_child
past_the_end = refl

find_kth_largest-kth_example :
    (x : ℕ) × ((find_kth_largest some_nums 3 ≡ some x)
      × ((t : ℕ) → (t ≤ x) ↔ (3 ≤ count_at_least some_nums t)))
find_kth_largest-kth_example =
    find_kth_largest-kth some_nums 3
      (omega arith, (omega arith, (omega arith, (omega arith, (omega arith, tt))))) (omega arith)
      (omega arith) (omega arith)
