-- ===== src/Quote/Shell.antt =====
-- How a POSIX shell reads one word that has single quotes and backslashes.
use cm_dotfiles.Prelude.{ℕ, Option, none, some, List, [], ◌∷◌, ◌==◌, if◌then◌else◌}

-- Outside of quotes, between single quotes, and behind a backslash.
pub data Mode : Type 0 where
  plain quoted escaped : Mode

abbrev pub cons : ℕ → Option (List ℕ) → Option (List ℕ)
cons c none = none
cons c (some s) = some (c ∷ s)

-- Between single quotes only the quote is special. Outside of them no byte is taken for itself
-- without a backslash, since it may be special to the shell. A quote that is not closed and a
-- backslash at the end are no word.
unfoldable pub word : Mode → List ℕ → Option (List ℕ)
word plain [] = some []
word quoted [] = none
word escaped [] = none
word plain (c ∷ s) =
    if c == b'\'' then word quoted s else if c == b'\\' then word escaped s else none
word quoted (c ∷ s) = if c == b'\'' then word plain s else cons c (word quoted s)
word escaped (c ∷ s) = cons c (word plain s)
