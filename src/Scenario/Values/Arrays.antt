-- ===== src/Scenario/Values/Arrays.antt =====
-- Lemmas on `parse_string_array` of toml.c: the bytes written and the labels read.
use native.Mathlib.Decide.{dec_lt}
use cm_dotfiles.Prelude.{
  zero, ◌-◌, none, suc, Option, ℕ, ◌+◌, ◌≤◌, ◌<◌, ◌≡◌, refl, List, length, leb, ◌==◌, arith,
}
use cm_dotfiles.Prelude.Ensures.{Ensures-map, Ensures, fails, gives, Ensures-bind, Ensures-if}
use cm_dotfiles.Scenario.Text.{at, skip_spaces, trim_left, scan_to}
use cm_dotfiles.Scenario.Text.Bounds.{trim_left_bounds, trim_right_bounds, scan_to_bounds}
use cm_dotfiles.Scenario.Types.{Scenario, Read, max_labels}
use cm_dotfiles.Scenario.Values.{
  array_element, close_array, is_separator, element_start, element_end, array_loop,
  parse_string_array, behind_element, Labels, with_labels,
}
use cm_dotfiles.Scenario.Values.Strings.{literal_or_ident-reads}
use cm_dotfiles.Scenario.Values.Labels.{
  LabelsAreValid, LabelsAreValid-Keeps, LabelsAreValid-widen, LabelsAreValid-push,
}
use cm_dotfiles.Scenario.Frame.{Keeps, Keeps-refl, Keeps-trans, Keeps-widen}

-- The labels of a scenario whose strings end before the limit.
abbrev pub LabelsOf : List ℕ → ℕ → Scenario → Type 0
LabelsOf buf limit sc = LabelsAreValid buf limit sc.labels sc.label_count

-- The same scenario but for its labels.
abbrev pub SameButLabels : Scenario → Scenario → Type 0
SameButLabels sc r = r ≡ record sc { labels = r.labels; label_count = r.label_count }

pub element_bounds :
    (buf : List ℕ) (p end : ℕ)
    → p ≤ end
    → (p ≤ element_start buf p end)
      × (element_start buf p end ≤ element_end buf p end)
      × (element_end buf p end ≤ end)
unfolding element_start element_end
element_bounds buf p end h =
    let s = scan_to_bounds is_separator buf p end h in
    let l = trim_left_bounds buf p (scan_to is_separator buf p end) s.0 in
    let r =
      trim_right_bounds buf (trim_left buf p (scan_to is_separator buf p end))
        (scan_to is_separator buf p end) l.1 in
    (l.0, r.0, omega arith)

-- One element: a label more, whose string ends before `end + 1`.
record ReadsElement (lo hi : ℕ) (buf : List ℕ) (sc : Scenario) (r : Read Scenario) : Type 0 where
  keeps : Keeps lo (hi + 1) buf r.buf
  same : SameButLabels sc r.result
  counted : r.result.label_count ≡ sc.label_count + 1
  valid : LabelsOf r.buf (hi + 1) r.result

array_element-reads :
    (buf : List ℕ) (sc : Scenario) (start end : ℕ)
    → start ≤ end
    → end < length buf
    → LabelsOf buf start sc
    → Ensures (ReadsElement start end buf sc) (array_element buf sc start end)
unfolding array_element
array_element-reads buf sc start end le d v =
    Ensures-if (leb end start) (λ _. fails)
      (λ _.
        Ensures-if (leb max_labels sc.label_count) (λ _. fails)
          (λ room. Ensures-bind (literal_or_ident-reads buf start end le d) (λ r w. gives (record {
            keeps = w.keeps;
            same = refl;
            counted = refl;
            valid = LabelsAreValid-push r.result (ground arith) w.ends (
                LabelsAreValid-widen (end + 1) (omega arith)
                  (LabelsAreValid-Keeps (omega arith) w.keeps v));
          }))))

-- The elements from the count on.
pub record ReadsLabels (lo hi : ℕ) (buf : List ℕ) (sc : Scenario) (count : ℕ) (r : Labels)
    : Type 0 where
  pub keeps : Keeps lo (hi + 1) buf r.0.buf
  pub same : SameButLabels sc r.0.result
  pub counted : r.0.result.label_count + count ≡ sc.label_count + r.1
  pub valid : LabelsOf r.0.buf (hi + 1) r.0.result

close_array-reads :
    (buf : List ℕ) (p end count : ℕ) → Ensures (λ n. n ≡ count) (close_array buf p end count)
unfolding close_array
close_array-reads buf p end count =
    Ensures-if (trim_left buf (p + 1) end == end) (λ _. gives refl) (λ _. fails)

nothing_more :
    (lo p hi : ℕ) (buf : List ℕ) (sc : Scenario) (count n : ℕ)
    → p ≤ hi
    → n ≡ count
    → LabelsOf buf p sc
    → ReadsLabels lo hi buf sc count (with_labels buf sc n)
nothing_more lo p hi buf sc count n le e v = record {
  keeps = Keeps-refl lo (hi + 1) buf;
  same = refl;
  counted = omega arith;
  valid = LabelsAreValid-widen (hi + 1) (omega arith) v;
}

-- An element, and what the rest of the loop reads.
one_more :
    (p start stop q hi : ℕ) (buf : List ℕ) (sc : Scenario) (count : ℕ)
    → (r : Read Scenario) (rs : Labels) → p ≤ start
    → p ≤ q
    → stop ≤ hi
    → ReadsElement start stop buf sc r
    → ReadsLabels q hi r.buf r.result (count + 1) rs
    → ReadsLabels p hi buf sc count rs
one_more p start stop q hi buf sc count r rs a b c w v = record {
  keeps =
      Keeps-trans (Keeps-widen p (hi + 1) a (omega arith) w.keeps)
        (Keeps-widen p (hi + 1) b (omega arith) v.keeps);
  same = cc (v.same, w.same);
  counted = omega (arith, v.counted, w.counted);
  valid = v.valid;
}

behind_element-reads :
    (p start stop q hi : ℕ) (buf : List ℕ) (sc : Scenario) (count : ℕ) (r : Read Scenario)
    → (loop : ℕ → Option Labels) → p ≤ start
    → start ≤ stop
    → stop ≤ q
    → stop ≤ hi
    → ReadsElement start stop buf sc r
    → ((k : ℕ) → q < k → k ≤ hi → Ensures (ReadsLabels k hi r.buf r.result (count + 1)) (loop k))
    → Ensures (ReadsLabels p hi buf sc count) (behind_element hi r q (count + 1) loop)
unfolding behind_element
behind_element-reads p start stop q hi buf sc count r loop a a' b c w ih =
    Ensures-if (leb hi q) (λ _. fails)
      (λ lt.
        let above : q + 1 ≤ hi = ground arith in
        Ensures-if (at r.buf q == b',')
          (λ _.
            Ensures-map
              (λ rs v. one_more p start stop (q + 1) hi buf sc count r rs a (omega arith) c w v)
              (ih (q + 1) (omega arith) above))
          (λ _.
            Ensures-if (at r.buf q == b']')
              (λ _. Ensures-bind (close_array-reads r.buf q hi (count + 1)) (λ n e. gives (
                one_more p start stop (q + 1) hi buf sc count r (r, n) a (omega arith) c w
                  (nothing_more (q + 1) (stop + 1) hi r.buf r.result (count + 1) n (omega arith) e
                    w.valid))))
              (λ _. fails)))

-- Behind an element of which the labels before are valid.
array_loop-reads :
    (n : ℕ) (buf : List ℕ) (sc : Scenario) (p hi count : ℕ)
    → p ≤ hi
    → hi < length buf
    → LabelsOf buf p sc
    → Ensures (ReadsLabels p hi buf sc count) (array_loop n buf sc p hi count)
unfolding array_loop
array_loop-reads zero buf sc p hi count a d v = fails
array_loop-reads (suc n) buf sc p hi count a d v =
    let start = trim_left buf p hi in
    let l = trim_left_bounds buf p hi a in
    let e = element_bounds buf start hi l.1 in
    let stop = element_end buf start hi in
    let first = element_start buf start hi in
    Ensures-if (leb hi start) (λ _. fails)
      (λ _.
        Ensures-if (at buf start == b']')
          (λ _.
            Ensures-bind (close_array-reads buf start hi count)
              (λ k same. gives (nothing_more p p hi buf sc count k a same v)))
          (λ _.
            Ensures-bind
              (array_element-reads buf sc first stop e.1 (omega arith)
                (LabelsAreValid-widen first (omega arith) v))
              (λ r w.
                let q = trim_left_bounds r.buf stop hi e.2 in
                behind_element-reads p first stop (trim_left r.buf stop hi) hi buf sc count r _
                  (omega arith) e.1 q.0 e.2 w
                  (λ k above le.
                    array_loop-reads n r.buf r.result k hi (count + 1) le
                      (omega (arith, w.keeps.size))
                      (LabelsAreValid-widen k (omega arith) w.valid)))))

-- The result: the array's labels are the last ones of the scenario's.
pub record ReadsArray (lo hi : ℕ) (buf : List ℕ) (sc : Scenario) (r : Read Scenario × ℕ × ℕ)
    : Type 0 where
  pub keeps : Keeps lo (hi + 1) buf r.0.buf
  pub same : SameButLabels sc r.0.result
  pub first : r.1 ≡ sc.label_count
  pub counted : r.0.result.label_count ≡ r.1 + r.2
  pub valid : LabelsOf r.0.buf (hi + 1) r.0.result

-- Behind the end the loop finds nothing.
pub array_loop-past :
    (n : ℕ) (buf : List ℕ) (sc : Scenario) (p hi count : ℕ)
    → hi ≤ p
    → array_loop n buf sc p hi count ≡ none
unfolding array_loop trim_left skip_spaces
array_loop-past zero buf sc p hi count h = refl
array_loop-past (suc n) buf sc p hi count h =
    let e : hi - p ≡ 0 = omega arith in rw e (ground arith)

pub parse_string_array-reads :
    (buf : List ℕ) (sc : Scenario) (start end : ℕ)
    → start ≤ end
    → end < length buf
    → LabelsOf buf start sc
    → Ensures (ReadsArray start end buf sc) (parse_string_array buf sc start end)
unfolding parse_string_array
parse_string_array-reads buf sc start end le d v =
    Ensures-if (at buf start == b'[')
      (λ open_bracket. elim (dec_lt start end) [
        | yes lt ↦
            Ensures-bind
              (array_loop-reads (end + 1 - start) buf sc (start + 1) end 0 (omega arith) d
                (LabelsAreValid-widen (start + 1) (omega arith) v))
              (λ r w. gives (record {
                keeps = Keeps-widen start (end + 1) (omega arith) (omega arith) w.keeps;
                same = w.same;
                first = refl;
                counted = omega (arith, w.counted);
                valid = w.valid;
              }))
        | no ge ↦
            rw (array_loop-past (end + 1 - start) buf sc (start + 1) end 0 (omega arith)) fails
      ])
      (λ _. fails)
