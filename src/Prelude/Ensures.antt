-- ===== src/Prelude/Ensures.antt =====
-- Total reading of fallible code: what holds of a result where there is one.
use mathlib.Core.Path.{◌≡◌, refl, subst}
use mathlib.Core.Bool.{Bool, true, false}
use mathlib.Core.Option.{Option, none, some}
use cm_dotfiles.Prelude.Tests.{if◌then◌else◌, ◌>>=◌}

pub data Ensures {ℓ κ} {A : Type ℓ} (P : A → Type κ) : Option A → Type (ℓ ⊔ κ) where
  fails : Ensures P none
  gives : {a : A} → P a → Ensures P (some a)

pub Ensures-bind {ℓ κ} :
    {A B : Type ℓ} {Q : A → Type κ} {P : B → Type κ} {m : Option A} {f : A → Option B}
    → Ensures Q m
    → ((a : A) → Q a → Ensures P (f a))
    → Ensures P (m >>= f)
Ensures-bind fails k = fails
Ensures-bind (gives q) k = k _ q

pub Ensures-if {ℓ κ} :
    {A : Type ℓ} {P : A → Type κ} (b : Bool) {x y : Option A}
    → (b ≡ true → Ensures P x)
    → (b ≡ false → Ensures P y)
    → Ensures P (if b then x else y)
Ensures-if true p q = p refl
Ensures-if false p q = q refl

pub Ensures-map {ℓ κ} :
    {A : Type ℓ} {P Q : A → Type κ} {o : Option A}
    → ((a : A) → P a → Q a)
    → Ensures P o
    → Ensures Q o
Ensures-map k fails = fails
Ensures-map k (gives p) = gives (k _ p)

pub Ensures-some {ℓ κ} :
    {A : Type ℓ} {P : A → Type κ} {o : Option A} → Ensures P o → (a : A) → o ≡ some a → P a
Ensures-some fails a e = cc
Ensures-some {P = P} (gives p) a e = let same : _ ≡ a = cc in subst P same p

-- What can hold of no result is a failure.
pub Ensures-none {ℓ} : {A : Type ℓ} {o : Option A} → Ensures (λ _. ⊥) o → o ≡ none
Ensures-none fails = refl
Ensures-none (gives h) = absurd h
