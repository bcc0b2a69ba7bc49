-- ===== src/Scenario/Values/Strings.antt =====
-- Lemmas on the literals and identifiers of toml.c: the bytes written, and the NUL.
use cm_dotfiles.Prelude.{
  ℕ, zero, suc, ◌+◌, ◌-◌, ◌≤◌, ◌<◌, List, length, length-set, set, leb, ◌==◌, ◌&&◌, not, arith, ltb,
}
use cm_dotfiles.Prelude.Ensures.{Ensures, fails, gives, Ensures-bind, Ensures-if, Ensures-map}
use cm_dotfiles.Scenario.Text.{at, skip_spaces, trim_left, trim_right}
use cm_dotfiles.Scenario.Text.Bounds.{trim_left_bounds, trim_right_bounds}
use cm_dotfiles.Scenario.Types.{Read}
use cm_dotfiles.Scenario.Values.{
  close_literal, literal_loop, parse_string_literal, literal_or_ident, parse_value_string_or_ident,
  is_escapable,
}
use cm_dotfiles.Scenario.Frame.{
  Keeps, Keeps-trans, Keeps-widen, Keeps-set, EndsBefore, EndsBefore-set, EndsBefore-widen,
}

-- What a reader of a string between `lo` and `hi` leaves: the NUL may stand at `hi`.
pub record ReadsString (lo hi : ℕ) (buf : List ℕ) (r : Read ℕ) : Type 0 where
  pub keeps : Keeps lo (hi + 1) buf r.buf
  pub starts : lo ≤ r.result
  pub ends : EndsBefore r.buf (hi + 1) r.result

-- The loop's state: the bytes of the literal from `start` on are written up to `w`.
record WritesLiteral (start w end : ℕ) (buf buf' : List ℕ) : Type 0 where
  keeps : Keeps w end buf buf'
  ends : EndsBefore buf' end start

close_literal-writes :
    (buf : List ℕ) (start p w end : ℕ)
    → start ≤ w
    → w ≤ p
    → p < end
    → end ≤ length buf
    → Ensures (WritesLiteral start w end buf) (close_literal buf p w end)
unfolding close_literal
close_literal-writes buf start p w end a b c d =
    Ensures-if (skip_spaces (end - (p + 1)) buf (p + 1) == end)
      (λ _. gives (record {
        keeps = Keeps-set w end buf w 0 (omega arith) (omega arith);
        ends = EndsBefore-set buf w end start a (omega arith) (omega arith);
      }))
      (λ _. fails)

step-writes :
    (start w end v : ℕ) (buf buf' : List ℕ)
    → w < end
    → WritesLiteral start (w + 1) end (set buf w v) buf'
    → WritesLiteral start w end buf buf'
step-writes start w end v buf buf' lt r = record {
  keeps =
      Keeps-trans (Keeps-set w end buf w v (omega arith) lt)
        (Keeps-widen w end (omega arith) (omega arith) r.keeps);
  ends = r.ends;
}

literal_loop-writes :
    (n : ℕ) (buf : List ℕ) (start p w end : ℕ)
    → start ≤ w
    → w ≤ p
    → end ≤ length buf
    → Ensures (WritesLiteral start w end buf) (literal_loop n buf p w end)
unfolding literal_loop
literal_loop-writes zero buf start p w end a b d = fails
literal_loop-writes (suc n) buf start p w end a b d =
    Ensures-if (leb end p) (λ _. fails)
      (λ h.
        Ensures-if (at buf p == b'\\')
          (λ _.
            Ensures-if (leb end (p + 1)) (λ _. fails)
              (λ h2.
                Ensures-if (is_escapable (at buf (p + 1)))
                  (λ _.
                    Ensures-map (λ b' r. step-writes start w end _ buf b' (ground arith) r)
                      (literal_loop-writes n (set buf w (at buf (p + 1))) start (p + 2) (w + 1) end
                        (omega arith) (omega arith)
                        (omega (arith, length-set buf w (at buf (p + 1))))))
                  (λ _. fails)))
          (λ _.
            Ensures-if (at buf p == b'"')
              (λ _. close_literal-writes buf start p w end a b (ground arith) d)
              (λ _.
                Ensures-map (λ b' r. step-writes start w end _ buf b' (ground arith) r)
                  (literal_loop-writes n (set buf w (at buf p)) start (p + 1) (w + 1) end
                    (omega arith) (omega arith) (omega (arith, length-set buf w (at buf p)))))))

pub parse_string_literal-reads :
    (buf : List ℕ) (start end : ℕ)
    → end < length buf
    → Ensures (ReadsString start end buf) (parse_string_literal buf start end)
unfolding parse_string_literal
parse_string_literal-reads buf start end d =
    Ensures-if (leb end start) (λ _. fails)
      (λ h.
        Ensures-if (not (at buf start == b'"')) (λ _. fails)
          (λ _.
            Ensures-bind
              (literal_loop-writes (end - start) buf (start + 1) (start + 1) (start + 1) end
                (omega arith) (omega arith) (omega arith))
              (λ b' r. gives (record {
                keeps = Keeps-widen start (end + 1) (omega arith) (omega arith) r.keeps;
                starts = omega arith;
                ends = EndsBefore-widen (end + 1) _ (omega arith) r.ends;
              }))))

pub literal_or_ident-reads :
    (buf : List ℕ) (start end : ℕ)
    → start ≤ end
    → end < length buf
    → Ensures (ReadsString start end buf) (literal_or_ident buf start end)
unfolding literal_or_ident
literal_or_ident-reads buf start end le d =
    Ensures-if (at buf start == b'"' && ltb (start + 1) end && at buf (end - 1) == b'"')
      (λ _. parse_string_literal-reads buf start end d)
      (λ _. gives (record {
        keeps = Keeps-set start (end + 1) buf end 0 le (omega arith);
        starts = omega arith;
        ends = EndsBefore-set buf end (end + 1) start le (omega arith) d;
      }))

pub value-reads :
    (buf : List ℕ) (start end : ℕ)
    → start ≤ end
    → end < length buf
    → Ensures (ReadsString start end buf) (parse_value_string_or_ident buf start end)
unfolding parse_value_string_or_ident
value-reads buf start end le d =
    let l = trim_left_bounds buf start end le in
    let r = trim_right_bounds buf (trim_left buf start end) end l.1 in
    Ensures-if (leb (trim_right buf (trim_left buf start end) end) (trim_left buf start end))
      (λ _. fails)
      (λ _.
        Ensures-map
          (λ rd w. record {
            keeps = Keeps-widen start (end + 1) (omega arith) (omega arith) w.keeps;
            starts = omega (arith, w.starts);
            ends = EndsBefore-widen (end + 1) _ (omega arith) w.ends;
          })
          (literal_or_ident-reads buf (trim_left buf start end) _ r.0 (omega arith)))
