-- ===== src/Scenario/Text/Bounds.antt =====
-- Where the pointers of toml.c come to stand.
use cm_dotfiles.Prelude.{
  refl, false, ℕ, zero, suc, ◌+◌, ◌-◌, ◌≤◌, ◌<◌, ◌≡◌, List, Bool, true, arith,
}
use cm_dotfiles.Scenario.Text.{
  is_space_char, at, skip_spaces, trim_left, drop_spaces, trim_right, scan, scan_to,
}

skip_spaces_bounds :
    (n : ℕ) (buf : List ℕ) (s : ℕ) → (s ≤ skip_spaces n buf s) × (skip_spaces n buf s ≤ s + n)
unfolding skip_spaces
skip_spaces_bounds zero buf s = omega arith
skip_spaces_bounds (suc n) buf s = ground (arith, skip_spaces_bounds n buf (s + 1))

pub trim_left_bounds :
    (buf : List ℕ) (s end : ℕ) → s ≤ end → (s ≤ trim_left buf s end) × (trim_left buf s end ≤ end)
unfolding trim_left
trim_left_bounds buf s end h = omega (arith, skip_spaces_bounds (end - s) buf s)

skip_spaces_stops :
    (n : ℕ) (buf : List ℕ) (s : ℕ)
    → skip_spaces n buf s < s + n
    → is_space_char (at buf (skip_spaces n buf s)) ≡ false
unfolding skip_spaces
skip_spaces_stops zero buf s h = absurd (omega arith)
skip_spaces_stops (suc n) buf s h = ground (arith, skip_spaces_stops n buf (s + 1))

-- Where it stops before the end it stops at a byte that is no white space, and such a byte stops it.
pub trim_left_stops :
    (buf : List ℕ) (s end : ℕ)
    → s ≤ end
    → trim_left buf s end < end
    → is_space_char (at buf (trim_left buf s end)) ≡ false
unfolding trim_left
trim_left_stops buf s end le lt = skip_spaces_stops (end - s) buf s (omega arith)

skip_spaces_none :
    (n : ℕ) (buf : List ℕ) (s : ℕ) → is_space_char (at buf s) ≡ false → skip_spaces n buf s ≡ s
unfolding skip_spaces
skip_spaces_none zero buf s e = omega arith
skip_spaces_none (suc n) buf s e = rw e refl

pub trim_left_none :
    (buf : List ℕ) (s end : ℕ) → is_space_char (at buf s) ≡ false → trim_left buf s end ≡ s
unfolding trim_left
trim_left_none buf s end e = skip_spaces_none (end - s) buf s e

drop_spaces_bounds :
    (n : ℕ) (buf : List ℕ) (end : ℕ)
    → (drop_spaces n buf end ≤ end) × (end ≤ drop_spaces n buf end + n)
unfolding drop_spaces
drop_spaces_bounds zero buf end = omega arith
drop_spaces_bounds (suc n) buf end = ground (arith, drop_spaces_bounds n buf (end - 1))

pub trim_right_bounds :
    (buf : List ℕ) (s end : ℕ) → s ≤ end → (s ≤ trim_right buf s end) × (trim_right buf s end ≤ end)
unfolding trim_right
trim_right_bounds buf s end h = omega (arith, drop_spaces_bounds (end - s) buf end)

scan_bounds :
    (stop : ℕ → Bool) (n : ℕ) (buf : List ℕ) (p : ℕ)
    → (p ≤ scan stop n buf p) × (scan stop n buf p ≤ p + n)
unfolding scan
scan_bounds stop zero buf p = omega arith
scan_bounds stop (suc n) buf p = ground (arith, scan_bounds stop n buf (p + 1))

pub scan_to_bounds :
    (stop : ℕ → Bool) (buf : List ℕ) (p end : ℕ)
    → p ≤ end
    → (p ≤ scan_to stop buf p end) × (scan_to stop buf p end ≤ end)
unfolding scan_to
scan_to_bounds stop buf p end h = omega (arith, scan_bounds stop (end - p) buf p)

scan_stops :
    (stop : ℕ → Bool) (n : ℕ) (buf : List ℕ) (p : ℕ)
    → scan stop n buf p < p + n
    → stop (at buf (scan stop n buf p)) ≡ true
unfolding scan
scan_stops stop zero buf p h = absurd (omega arith)
scan_stops stop (suc n) buf p h = ground (arith, scan_stops stop n buf (p + 1))

-- Where it stops before the end it stops by the test.
pub scan_to_stops :
    (stop : ℕ → Bool) (buf : List ℕ) (p end : ℕ)
    → p ≤ end
    → scan_to stop buf p end < end
    → stop (at buf (scan_to stop buf p end)) ≡ true
unfolding scan_to
scan_to_stops stop buf p end h lt = scan_stops stop (end - p) buf p (omega arith)
