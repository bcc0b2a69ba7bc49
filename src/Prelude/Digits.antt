-- ===== src/Prelude/Digits.antt =====
-- Texts of decimal digits, and the numbers that they stand for.
use cm_dotfiles.Prelude.Tests.{leb}
use Prim.Native.Nat.{ℕ, ◌+◌, ◌-◌, ◌*◌}
use mathlib.Core.Path.{◌≡◌, refl}
use mathlib.Core.Bool.{Bool, true, ◌&&◌}
use mathlib.Core.List.{List, [], ◌∷◌, ◌++◌}

-- `isdigit`
unfoldable pub is_digit : ℕ → Bool
is_digit c = leb b'0' c && leb c b'9'

-- Every byte passes the test.
abbrev pub AllAre : (ℕ → Bool) → List ℕ → Type 0
AllAre test [] = Unit {0}
AllAre test (c ∷ s) = (test c ≡ true) × AllAre test s

pub AllAre-append :
    (test : ℕ → Bool) (s t : List ℕ) → AllAre test s → AllAre test t → AllAre test (s ++ t)
AllAre-append test [] t h k = k
AllAre-append test (c ∷ s) t (e, h) k = (e, AllAre-append test s t h k)

-- The number that digits stand for, behind those whose number is `v`.
unfoldable pub decimal : ℕ → List ℕ → ℕ
decimal v [] = v
decimal v (c ∷ s) = decimal (v * 10 + (c - b'0')) s

pub decimal-append : (v : ℕ) (s t : List ℕ) → decimal v (s ++ t) ≡ decimal (decimal v s) t
unfolding decimal
decimal-append v [] t = refl
decimal-append v (c ∷ s) t = decimal-append (v * 10 + (c - b'0')) s t
