-- ===== src/Spsc/Invariant.antt =====
-- What holds of the ring and the two threads at all times.
use cm_dotfiles.Prelude.{
  ℕ, zero, suc, ◌+◌, ◌-◌, ◌%◌, ◌^◌, ◌<◌, ◌≤◌, ◌≡◌, refl, sym, ap, ◌∙◌, arith, List, [], ◌∷◌, ◌++◌,
  ◌==◌, bit_and, u8, u32, sub32, get_or, length, take,
}
use native.Mathlib.Nat.{mod-mod_of_dvd, dvd_refl, dvd-mul_right_of_dvd, pow-suc}
use mathlib.Core.Path.{subst}
use cm_dotfiles.Prelude.Bits.{and_mask}
use Prim.Native.Nat.{◌∣◌}
use cm_dotfiles.Spsc.Defs.{
  Producer, out, loaded, written, Consumer, away, seen, taken, late, System,
}

-- The bytes of the values pushed: a slot holds the low eight bits.
unfoldable pub bytes : List ℕ → List ℕ
bytes [] = []
bytes (v ∷ vs) = u8 v ∷ bytes vs

-- An index loaded earlier by the producer is a count of pops that was right at some time, and
-- nothing was pushed since then.
abbrev pub ProducerOk : ℕ → ℕ → ℕ → List ℕ → Producer → Type 0
ProducerOk span pushes pops buf out = Unit {0}
ProducerOk span pushes pops buf (loaded v t) =
    (n : ℕ) × (t ≡ u32 n) × (n ≤ pops) × (pushes ≤ n + span)
ProducerOk span pushes pops buf (written v) =
    (pushes < pops + span) × (get_or buf (pushes % span) 0 ≡ u8 v)

abbrev pub ConsumerOk : ℕ → ℕ → List ℕ → Consumer → Type 0
ConsumerOk pushes pops bs away = Unit {0}
ConsumerOk pushes pops bs (seen h) = (n : ℕ) × (h ≡ u32 n) × (pops ≤ n) × (n ≤ pushes)
ConsumerOk pushes pops bs (late t) = ⊥
ConsumerOk pushes pops bs (taken o) = (pops < pushes) × (o ≡ get_or bs pops 0)

pub record Inv (order : ℕ) (s : System) : Type 0 where
  pub mask : s.ring.mask ≡ 2 ^ order - 1
  pub size : length s.ring.buf ≡ 2 ^ order
  pub head : s.ring.head ≡ u32 (length s.pushed)
  pub tail : s.ring.tail ≡ u32 (length s.popped)
  pub behind : length s.popped ≤ length s.pushed
  pub near : length s.pushed ≤ length s.popped + 2 ^ order
  pub kept :
      (i : ℕ)
      → length s.popped ≤ i
      → i < length s.pushed
      → get_or s.ring.buf (i % 2 ^ order) 0 ≡ get_or (bytes s.pushed) i 0
  pub order_kept : s.popped ≡ take (length s.popped) (bytes s.pushed)
  pub producer : ProducerOk (2 ^ order) (length s.pushed) (length s.popped) s.ring.buf s.producer
  pub consumer : ConsumerOk (length s.pushed) (length s.popped) (bytes s.pushed) s.consumer

pow-dvd : (k d : ℕ) → 2 ^ k ∣ 2 ^ (k + d)
pow-dvd k zero = subst (λ (m : ℕ). 2 ^ k ∣ 2 ^ m) {x = k} (omega arith) (dvd_refl (2 ^ k))
pow-dvd k (suc d) =
    subst (λ (m : ℕ). 2 ^ k ∣ m) (sym (pow-suc 2 (k + d)) ∙ ap (λ (e : ℕ). 2 ^ e) (omega arith))
      (dvd-mul_right_of_dvd (2 ^ k) (pow-dvd k d) 2)

-- The index in the buffer of the index `n` as it is stored.
pub slot_lem : (order n : ℕ) → order < 32 → bit_and (u32 n) (2 ^ order - 1) ≡ n % 2 ^ order
slot_lem order n small =
    and_mask order (u32 n)
    ∙ mod-mod_of_dvd (2 ^ order) n
        (subst (λ (m : ℕ). 2 ^ order ∣ 2 ^ m) whole (pow-dvd order (32 - order)))
  where
    whole : order + (32 - order) ≡ 32
    whole = omega arith

pub count_up : (n : ℕ) → u32 (u32 n + 1) ≡ u32 (n + 1)
count_up n = omega arith

-- The two tests, on counts that are no more than a ring apart.
pub full_lem :
    (h n span : ℕ)
    → n ≤ h
    → h ≤ n + span
    → span ≤ 2 ^ 31
    → (sub32 (u32 h) (u32 n) == u32 span) ≡ (h - n == span)
full_lem h n span le near small =
    let apart : sub32 (u32 h) (u32 n) ≡ h - n = omega arith in
    let whole : u32 span ≡ span = omega arith in rw (apart, whole) refl

pub empty_lem : (n h span : ℕ) → n ≤ h → h ≤ n + span → span ≤ 2 ^ 31 → (u32 n == u32 h) ≡ (n == h)
empty_lem n h span le near small = ground arith

pub length-bytes : (vs : List ℕ) → length (bytes vs) ≡ length vs
unfolding bytes
length-bytes [] = refl
length-bytes (v ∷ vs) = ap suc (length-bytes vs)

pub bytes-append : (vs : List ℕ) (v : ℕ) → bytes (vs ++ (v ∷ [])) ≡ bytes vs ++ (u8 v ∷ [])
unfolding bytes
bytes-append [] v = refl
bytes-append (w ∷ vs) v = ap (λ (bs : List ℕ). u8 w ∷ bs) (bytes-append vs v)

-- One more element at the end.
pub get_or-append_last : (xs : List ℕ) (x i : ℕ) → i ≡ length xs → get_or (xs ++ (x ∷ [])) i 0 ≡ x
get_or-append_last [] x i e = rw e refl
get_or-append_last (y ∷ xs) x zero e = absurd (omega arith)
get_or-append_last (y ∷ xs) x (suc i) e = get_or-append_last xs x i (omega arith)

pub get_or-append_before :
    (xs : List ℕ) (x i : ℕ) → i < length xs → get_or (xs ++ (x ∷ [])) i 0 ≡ get_or xs i 0
get_or-append_before [] x i h = absurd (omega arith)
get_or-append_before (y ∷ xs) x zero h = refl
get_or-append_before (y ∷ xs) x (suc i) h = get_or-append_before xs x i (omega arith)

pub take-append_last : (xs ys : List ℕ) (n : ℕ) → n ≤ length xs → take n (xs ++ ys) ≡ take n xs
take-append_last xs ys zero h = refl
take-append_last [] ys (suc n) h = absurd (omega arith)
take-append_last (x ∷ xs) ys (suc n) h =
    ap (λ (zs : List ℕ). x ∷ zs) (take-append_last xs ys n (omega arith))

pub take_one_more :
    (xs : List ℕ) (n : ℕ) → n < length xs → take (n + 1) xs ≡ take n xs ++ (get_or xs n 0 ∷ [])
take_one_more [] n h = absurd (omega arith)
take_one_more (x ∷ xs) zero h = refl
take_one_more (x ∷ xs) (suc n) h =
    ap (λ (k : ℕ). take k (x ∷ xs)) {x = suc n + 1} {y = suc (n + 1)} (omega arith)
    ∙ ap (λ (zs : List ℕ). x ∷ zs) (take_one_more xs n (omega arith))
