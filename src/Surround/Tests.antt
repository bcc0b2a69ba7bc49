-- ===== src/Surround/Tests.antt =====
-- A word on a line with a newline.
use cm_dotfiles.Prelude.{ℕ, List, min, ◌≡◌, refl, true, false, if◌then◌else◌, codes, length}
use cm_dotfiles.Surround.{surround, is_word_char, is_big_word_char}
use cm_dotfiles.Surround.Word.{Strips, Surrounds, surround-Surrounds}

in_brackets :
    surround false (codes "one two-three\n") b'(' 5
    ≡ record { out = codes "one (two)-three"; new_cursor = 5 }
unfolding surround
in_brackets = refl

surround-Surrounds_example :
    (line : List ℕ) × Strips (codes "one two-three\n") line
    × Surrounds
        (if true then is_big_word_char else is_word_char)
        line
        b'('
        (min 5 (length line))
        (surround true (codes "one two-three\n") b'(' 5)
surround-Surrounds_example = surround-Surrounds true (codes "one two-three\n") b'(' 5
