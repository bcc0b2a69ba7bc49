-- ===== src/Scenario/File/Contents.antt =====
-- `read_all_fd` of toml.c on a file that can be read.
use cm_dotfiles.Prelude.{
  ℕ, ◌≡◌, refl, sym, ap, ◌∙◌, inl, inr, true, false, Option, none, some, List, [], ◌∷◌, ◌++◌,
  append_assoc, append-nil, arith, ltb, leb, if◌then◌else◌, Bool-cases, length, length-append,
}
use cm_dotfiles.Scenario.Types.{max_file_size}
use cm_dotfiles.Scenario.File.{
  ReadResult, interrupted, failed, bytes, on_bytes, read_loop, read_all_fd,
}

-- The bytes that the reads bring up to the end of the file.
unfoldable pub contents : List ReadResult → List ℕ
contents [] = []
contents (interrupted ∷ rs) = contents rs
contents (failed ∷ rs) = []
contents (bytes [] ∷ rs) = []
contents (bytes (b ∷ bs) ∷ rs) = (b ∷ bs) ++ contents rs

-- The reads come to the end of the file with no error but interruptions.
abbrev pub ReachesEnd : List ReadResult → Type 0
ReachesEnd [] = ⊥
ReachesEnd (interrupted ∷ rs) = ReachesEnd rs
ReachesEnd (failed ∷ rs) = ⊥
ReachesEnd (bytes [] ∷ rs) = Unit {0}
ReachesEnd (bytes (b ∷ bs) ∷ rs) = ReachesEnd rs

abbrev if_small : List ℕ → Option (List ℕ)
if_small got = if ltb (length got) max_file_size then some got else none

too_much :
    (got more : List ℕ) → leb max_file_size (length got) ≡ true → if_small (got ++ more) ≡ none
too_much got more e =
    let no : ltb (length (got ++ more)) max_file_size ≡ false =
      ground (arith, length-append got more) in
    rw no refl

read_loop-contents :
    (got : List ℕ) (rs : List ReadResult)
    → ReachesEnd rs
    → read_loop got rs ≡ if_small (got ++ contents rs)
unfolding read_loop on_bytes contents
read_loop-contents got [] h = elim h [ ]
read_loop-contents got (interrupted ∷ rs) h = elim (Bool-cases (leb max_file_size (length got))) [
  | inl full ↦ rw full (sym (too_much got (contents rs) full))
  | inr room ↦ rw room (read_loop-contents got rs h)
]
read_loop-contents got (failed ∷ rs) h = elim h [ ]
read_loop-contents got (bytes [] ∷ rs) h = elim (Bool-cases (leb max_file_size (length got))) [
  | inl full ↦ rw full (sym (too_much got [] full))
  | inr room ↦
      let small : ltb (length got) max_file_size ≡ true = ground arith in
      rw (room, append-nil got, small) refl
]
read_loop-contents got (bytes (b ∷ bs) ∷ rs) h =
    elim (Bool-cases (leb max_file_size (length got))) [
      | inl full ↦ rw full (sym (too_much got ((b ∷ bs) ++ contents rs) full))
      | inr room ↦ rw room (
          read_loop-contents (got ++ b ∷ bs) rs h
          ∙ ap if_small (append_assoc got (b ∷ bs) (contents rs)))
    ]

-- When the reads come to the end of the file with no error but interruptions, read_all_fd returns
-- all the bytes, with a NUL behind them, and their number, if they are fewer than 65536; else it
-- fails, also for a file of just 65536 bytes.
pub read_all_fd-contents :
    (rs : List ReadResult)
    → ReachesEnd rs
    → read_all_fd true rs ≡ (
        if ltb (length (contents rs)) max_file_size
        then some (record { buf = contents rs ++ 0 ∷ []; result = length (contents rs) })
        else none)
unfolding read_all_fd
read_all_fd-contents rs h = elim (Bool-cases (ltb (length (contents rs)) max_file_size)) [
  | inl small ↦ rw (read_loop-contents [] rs h, small) refl
  | inr large ↦ rw (read_loop-contents [] rs h, large) refl
]
