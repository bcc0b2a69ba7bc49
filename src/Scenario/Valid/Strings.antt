-- ===== src/Scenario/Valid/Strings.antt =====
-- The strings of earlier lines, while `parse_buffer` of toml.c reads on.
use cm_dotfiles.Prelude.{ℕ, ◌+◌, ◌-◌, ◌≤◌, ◌≡◌, some, List, arith, length}
use cm_dotfiles.Prelude.Ensures.{Ensures-some}
use cm_dotfiles.Scenario.Text.{string_at}
use cm_dotfiles.Scenario.Text.Holds.{string_at-same}
use cm_dotfiles.Scenario.Types.{Read}
use cm_dotfiles.Scenario.Header.{State}
use cm_dotfiles.Scenario.Lines.{line_loop}
use cm_dotfiles.Scenario.Frame.{Keeps, EndsBefore}
use cm_dotfiles.Scenario.Valid.Header.{StateIsValid}
use cm_dotfiles.Scenario.Valid.Lines.{line_loop-ReadsLine}

Keeps-string_at :
    {lo hi : ℕ} (a b : List ℕ) (s : ℕ)
    → Keeps lo hi a b
    → EndsBefore a lo s
    → string_at b s ≡ string_at a s
Keeps-string_at a b s k (e, le, lt, z) =
    string_at-same (e - s) a b s e (omega arith) z (λ j h. k.below j (omega arith))

-- When the loop of parse_buffer, at a byte of a line that starts at lo and with a well-formed
-- state, comes to the end of the buffer, a string that ends with its NUL before lo is the same
-- string as before: what is read later never changes it, though it is read in place.
pub line_loop-string_at :
    (n len i lo : ℕ) (buf : List ℕ) (st : State) (s : ℕ) (r : Read State)
    → i + n ≡ len + 1
    → lo ≤ i
    → length buf ≡ len + 1
    → StateIsValid buf lo st
    → EndsBefore buf lo s
    → line_loop n len i lo buf st ≡ some r
    → string_at r.buf s ≡ string_at buf s
line_loop-string_at n len i lo buf st s r e le size v z ran =
    let x = Ensures-some (line_loop-ReadsLine n len i lo buf st e le size v) r ran in
    Keeps-string_at buf r.buf s x.keeps z
