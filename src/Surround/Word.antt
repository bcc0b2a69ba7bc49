-- ===== src/Surround/Word.antt =====
-- The word that surround.c finds, and what it prints.
use cm_dotfiles.Prelude.{
  ==_iff, ◌≢◌, ◌⊎◌, ◌==◌, not, ℕ, zero, suc, ◌+◌, ◌-◌, ◌≤◌, ◌<◌, min, ◌≡◌, refl, sym, ap, ◌∙◌, inl,
  inr, Bool, true, false, List, [], ◌∷◌, ◌++◌, arith, ltb, if◌then◌else◌, Bool-cases, length,
  get_or, take, drop, take-append-drop, length-take, length-drop,
}
use native.Mathlib.Decide.{dec_lt, ℕ_discrete}
use cm_dotfiles.Prelude.Digits.{AllAre}
use cm_dotfiles.Surround.{
  until_nul, before_newlines, match_close, expand_left, expand_right, Output, surround_at, surround,
  strip_newlines, is_word_char, is_big_word_char,
}

expand_left_bounds :
    (boundary : ℕ → Bool) (line : List ℕ) (c : ℕ)
    → (expand_left boundary line c ≤ c)
      × ((i : ℕ) → expand_left boundary line c ≤ i → i < c → boundary (get_or line i 0) ≡ true)
      × (0 < expand_left boundary line c
          → boundary (get_or line (expand_left boundary line c - 1) 0) ≡ false)
unfolding expand_left
expand_left_bounds boundary line zero =
    (omega arith, λ i p q. absurd (omega arith), λ h. absurd (omega arith))
expand_left_bounds boundary line (suc c) = elim (Bool-cases (boundary (get_or line c 0))) [
  | inl on ↦
      let (le, all, before) = expand_left_bounds boundary line c in
      rw on (
        omega arith,
        λ i p q. elim (ℕ_discrete i c) [ yes e ↦ rw e on | no ne ↦ all i p (omega arith) ],
        before,
      )
  | inr off ↦ rw off (omega arith, λ i p q. absurd (omega arith), λ h. at_end c off)
]
  where
    at_end :
        (c' : ℕ)
        → boundary (get_or line c' 0) ≡ false
        → boundary (get_or line (suc c' - 1) 0) ≡ false
    at_end c' e = let k : suc c' - 1 ≡ c' = omega arith in rw k e

expand_right_bounds :
    (boundary : ℕ → Bool) (n : ℕ) (line : List ℕ) (w : ℕ)
    → (w ≤ expand_right boundary n line w)
      × (expand_right boundary n line w ≤ w + n)
      × ((i : ℕ) → w ≤ i → i < expand_right boundary n line w → boundary (get_or line i 0) ≡ true)
      × (expand_right boundary n line w < w + n
          → boundary (get_or line (expand_right boundary n line w) 0) ≡ false)
unfolding expand_right
expand_right_bounds boundary zero line w =
    (omega arith, omega arith, λ i p q. absurd (omega arith), λ h. absurd (omega arith))
expand_right_bounds boundary (suc n) line w = elim (Bool-cases (boundary (get_or line w 0))) [
  | inl on ↦
      let (le, ge, all, behind) = expand_right_bounds boundary n line (w + 1) in
      rw on (
        omega arith,
        omega arith,
        λ i p q. elim (ℕ_discrete i w) [ yes e ↦ rw e on | no ne ↦ all i (omega arith) q ],
        λ h. behind (omega arith),
      )
  | inr off ↦ rw off (omega arith, omega arith, λ i p q. absurd (omega arith), λ h. off)
]

AllAre-take :
    (test : ℕ → Bool) (n m : ℕ) (line : List ℕ)
    → ((i : ℕ) → m ≤ i → i < m + n → test (get_or line i 0) ≡ true)
    → m + n ≤ length line
    → AllAre test (take n (drop m line))
AllAre-take test zero m line h le = tt
AllAre-take test (suc n) m [] h le = absurd (omega arith)
AllAre-take test (suc n) zero (x ∷ line) h le = (
  h 0 (omega arith) (omega arith),
  AllAre-take test n zero line (λ i p q. h (suc i) (omega arith) (omega arith)) (omega arith),
)
AllAre-take test (suc n) (suc m) (x ∷ line) h le =
    AllAre-take test (suc n) m line (λ i p q. h (suc i) (omega arith) (omega arith)) (omega arith)

drop-drop : (n m k : ℕ) (s : List ℕ) → m + n ≡ k → drop n (drop m s) ≡ drop k s
drop-drop n zero k s e = ap (λ (i : ℕ). drop i s) (omega arith)
drop-drop zero (suc m) zero s e = absurd (omega arith)
drop-drop zero (suc m) (suc k) [] e = refl
drop-drop (suc n) (suc m) zero [] e = absurd (omega arith)
drop-drop (suc n) (suc m) (suc k) [] e = refl
drop-drop n (suc m) zero (x ∷ s) e = absurd (omega arith)
drop-drop n (suc m) (suc k) (x ∷ s) e = drop-drop n m k s (omega arith)

-- The brackets that belong together.
abbrev pub pairs : List (ℕ × ℕ)
pairs = (b'(', b')') ∷ (b'[', b']') ∷ (b'{', b'}') ∷ (b'<', b'>') ∷ []

-- The bracket that belongs to c, or c itself.
abbrev pub mate : List (ℕ × ℕ) → ℕ → ℕ
mate [] c = c
mate ((a, b) ∷ ps) c = if c == a then b else if c == b then a else mate ps c

match_close_lem : (c : ℕ) → match_close c ≡ mate pairs c
unfolding match_close
match_close_lem c = ground arith

until_nul_lem :
    (s : List ℕ)
    → (cut : List ℕ) × (s ≡ until_nul s ++ cut)
      × AllAre (λ c. not (c == 0)) (until_nul s)
      × ((cut ≡ []) ⊎ (get_or cut 0 1 ≡ 0))
unfolding until_nul
until_nul_lem [] = ([], refl, tt, inl refl)
until_nul_lem (c ∷ s) = elim (Bool-cases (c == 0)) [
  | inl nul ↦ rw nul (c ∷ s, refl, tt, inr ((==_iff c 0).0 nul))
  | inr other ↦
      let (cut, parts, all, at) = until_nul_lem s in
      rw other (cut, ap (λ (r : List ℕ). c ∷ r) parts, (ap (λ (b : Bool). not b) other, all), at)
]

-- The line is the input without the newlines at its end, and ends with no newline.
pub record Strips (input line : List ℕ) : Type 0 where
  pub newlines : List ℕ
  pub parts : input ≡ line ++ newlines
  pub all : AllAre (λ c. c == b'\n') newlines
  pub last : get_or line (length line - 1) 0 ≢ b'\n'

Strips-step : (c : ℕ) (s line : List ℕ) → Strips s line → Strips (c ∷ s) (before_newlines c line)
unfolding before_newlines
Strips-step c s [] v = elim (Bool-cases (c == b'\n')) [
  | inl newline ↦ rw newline (record {
    newlines = c ∷ v.newlines;
    parts = ap (λ (r : List ℕ). c ∷ r) v.parts;
    all = (newline, v.all);
    last = λ e. absurd (omega arith);
  })
  | inr other ↦ rw other (record {
    newlines = v.newlines;
    parts = ap (λ (r : List ℕ). c ∷ r) v.parts;
    all = v.all;
    last = λ e. ground arith;
  })
]
Strips-step c s (d ∷ line) v = record {
  newlines = v.newlines;
  parts = ap (λ (r : List ℕ). c ∷ r) v.parts;
  all = v.all;
  last = λ e.
      let up : suc (suc (length line)) - 1 ≡ suc (length line) = omega arith in
      let down : suc (length line) - 1 ≡ length line = omega arith in v.last (rw down (rw up at e));
}

strip_newlines-Strips : (input : List ℕ) → Strips input (strip_newlines input)
unfolding strip_newlines
strip_newlines-Strips [] = record {
  newlines = [];
  parts = refl;
  all = tt;
  last = λ e. absurd (omega arith);
}
strip_newlines-Strips (c ∷ s) = Strips-step c s (strip_newlines s) (strip_newlines-Strips s)

-- The word of a line round a cursor, with the line printed and the new cursor.
pub record Surrounds (boundary : ℕ → Bool) (line : List ℕ) (open_ch cursor : ℕ) (o : Output)
    : Type 0 where
  pub before : List ℕ
  pub mid : List ℕ
  pub rest : List ℕ
  pub parts : line ≡ before ++ (mid ++ rest)
  pub close_ch : ℕ
  pub mates : close_ch ≡ mate pairs open_ch
  pub cut : List ℕ
  pub printed : before ++ (open_ch ∷ (mid ++ close_ch ∷ rest)) ≡ o.out ++ cut
  pub no_nul : AllAre (λ c. not (c == 0)) o.out
  pub at_nul : (cut ≡ []) ⊎ (get_or cut 0 1 ≡ 0)
  pub moved : o.new_cursor ≡ length before + 1
  pub left : length before ≤ cursor
  pub right : cursor ≤ length before + length mid
  pub word : AllAre boundary mid
  pub starts : 0 < length before → boundary (get_or line (length before - 1) 0) ≡ false
  pub ends :
      length before + length mid < length line
      → boundary (get_or line (length before + length mid) 0) ≡ false

surround_at-Surrounds :
    (boundary : ℕ → Bool) (line : List ℕ) (open_ch cursor : ℕ)
    → cursor ≤ length line
    → Surrounds boundary line open_ch cursor (surround_at boundary line open_ch cursor)
unfolding surround_at
surround_at-Surrounds boundary line open_ch cursor le =
    let ws = expand_left boundary line cursor in
    let we = expand_right boundary (length line - cursor) line cursor in
    let l = expand_left_bounds boundary line cursor in
    let r = expand_right_bounds boundary (length line - cursor) line cursor in
    let before = take ws line in
    let mid = take (we - ws) (drop ws line) in
    let rest = drop we line in
    let n : length before ≡ ws = omega (arith, length-take ws line, l.0) in
    let k : length mid ≡ we - ws =
      omega (arith, length-take (we - ws) (drop ws line), length-drop ws line, l.0, r.0, r.1) in
    let behind : drop (we - ws) (drop ws line) ≡ rest =
      drop-drop (we - ws) ws we line (omega (arith, l.0, r.0)) in
    let parts : line ≡ before ++ (mid ++ rest) = sym (
      ap (λ (t : List ℕ). before ++ (mid ++ t)) (sym behind)
      ∙ (ap (λ (t : List ℕ). before ++ t) (take-append-drop (we - ws) (drop ws line))
          ∙ take-append-drop ws line)) in
    let sum : length before + length mid ≡ we = omega (arith, n, k, l.0, r.0) in
    let (cut, whole, no_nul, at) =
      until_nul_lem (before ++ (open_ch ∷ (mid ++ match_close open_ch ∷ rest))) in
    record {
      before = before;
      mid = mid;
      rest = rest;
      parts = parts;
      close_ch = match_close open_ch;
      mates = match_close_lem open_ch;
      cut = cut;
      printed = whole;
      no_nul = no_nul;
      at_nul = at;
      moved = omega (arith, n);
      left = omega (arith, n, l.0);
      right = omega (arith, sum, r.0);
      word =
          AllAre-take boundary (we - ws) ws line
            (λ i p q. elim (dec_lt i cursor) [
              | yes lt ↦ l.1 i p lt
              | no ge ↦ r.2 i (omega arith) (omega (arith, l.0, r.0))
            ])
            (omega (arith, l.0, r.0, r.1));
      starts = rw n l.2;
      ends = rw sum (λ h. r.3 (omega arith));
    }

-- surround strips the newlines at the end of its input, moves a cursor behind the line back to its
-- end, and splits the line in three: the word at the cursor, what stands before it and what stands
-- behind it. It prints the three in order, with the character before the word and its mate behind
-- the word, which is the other bracket of its pair, or the character itself; all that is cut before
-- the first NUL. The cursor that it prints is one behind the start of the word. The cursor given
-- stands in the word or at one of its ends, every byte of the word is a word's byte in the sense of
-- the option, and the word cannot be made longer on either side.
pub surround-Surrounds :
    (bigword : Bool) (input : List ℕ) (open_ch cursor : ℕ)
    → (line : List ℕ) × Strips input line
      × Surrounds
          (if bigword then is_big_word_char else is_word_char)
          line
          open_ch
          (min cursor (length line))
          (surround bigword input open_ch cursor)
unfolding surround
surround-Surrounds bigword input open_ch cursor =
    let line = strip_newlines input in
    let clamped : (if ltb (length line) cursor then length line else cursor)
        ≡ min cursor (length line) =
      ground arith in
    (
      line,
      strip_newlines-Strips input,
      rw clamped (surround_at-Surrounds _ line open_ch (min cursor (length line)) (omega arith)),
    )
