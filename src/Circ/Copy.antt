-- ===== src/Circ/Copy.antt =====
-- Lemmas on the loop of `copy_complete_messages` of circ.h.
use cm_dotfiles.Prelude.{
  ℕ, zero, suc, ◌+◌, ◌-◌, ◌*◌, ◌%◌, ◌^◌, ◌<◌, ◌≤◌, ◌≡◌, inl, inr, refl, sym, ap, ap₂, ◌∙◌, arith,
  List, [], ◌∷◌, ◌++◌, length, get_or, none, some, AllBytes, leb, ltb, if◌then◌else◌, bit_or, ◌<<◌,
  u16, u32, length-append, Bool-cases, append_assoc,
}
use mathlib.Core.Option.{some-injective}
use native.Mathlib.Decide.{dec_lt}
use native.Mathlib.Nat.{mod-lt, mod-eq_of_lt, mod_self}
use cm_dotfiles.Prelude.Bits.{or_fields}
use cm_dotfiles.Circ.Frames.{count_loop}
use cm_dotfiles.Circ.View.{
  bytes_at, next_frame, frame, length-bytes_at, bytes_at-mod, take-bytes_at, drop-bytes_at,
  AllBytes-get_or,
}
use cm_dotfiles.Circ.Messages.{frames, next_frame-frame}

-- The length field of the frame at index `i`.
abbrev pub field : List ℕ → ℕ → ℕ → ℕ
field buff capacity i = get_or buff (i % capacity) 0 * 256 + get_or buff ((i + 1) % capacity) 0

front_frame :
    (m : List ℕ) (ms : List (List ℕ)) (rest : List ℕ)
    → frames (m ∷ ms) ++ rest ≡ frame m ++ (frames ms ++ rest)
unfolding frames
front_frame m ms rest = append_assoc (frame m) (frames ms) rest

length-frames :
    (m : List ℕ) (ms : List (List ℕ)) → length (frames (m ∷ ms)) ≡ 2 + length m + length (frames ms)
unfolding frames frame
length-frames m ms = omega (arith, length-append m (frames ms))

module _ (buff : List ℕ) (capacity : ℕ) (bytes : AllBytes buff) (fits : capacity < 2 ^ 31) where
  -- The length field as the loop reads it.
  field_lem :
      (i : ℕ)
      → i < capacity
      → (if ltb (u32 (i + 1)) capacity
          then u16 (bit_or (get_or buff i 0 << 8) (get_or buff (i + 1) 0))
          else u16 (bit_or (get_or buff i 0 << 8) (get_or buff 0 0)))
        ≡ field buff capacity i
  field_lem i h =
      let narrow = fits in
      let x : get_or buff i 0 < 256 = AllBytes-get_or buff i bytes in
      let y : get_or buff (i + 1) 0 < 256 = AllBytes-get_or buff (i + 1) bytes in
      let z : get_or buff 0 0 < 256 = AllBytes-get_or buff 0 bytes in
      rw
        (
          mod-eq_of_lt h,
          or_fields 8 (get_or buff i 0) (get_or buff (i + 1) 0) y,
          or_fields 8 (get_or buff i 0) (get_or buff 0 0) z,
        )
        (elim (dec_lt (i + 1) capacity) [
          | yes lt ↦ rw (mod-eq_of_lt lt) (ground arith)
          | no ge ↦
              let last : i + 1 ≡ capacity = omega arith in
              rw (last, mod_self capacity) (ground arith)
        ])

  field-lt : (i : ℕ) → field buff capacity i < 2 ^ 16
  field-lt i =
      let x : get_or buff (i % capacity) 0 < 256 = AllBytes-get_or buff (i % capacity) bytes in
      let y : get_or buff ((i + 1) % capacity) 0 < 256 =
        AllBytes-get_or buff ((i + 1) % capacity) bytes in
      omega arith

  count_stop :
      (fuel i remaining : ℕ)
      → i < capacity
      → remaining < 2 + field buff capacity i
      → count_loop fuel buff capacity i remaining ≡ 0
  unfolding count_loop
  count_stop zero i remaining h few = refl
  count_stop (suc fuel) i remaining h few = rw (field_lem i h) (ground arith)

  count_step :
      (fuel i remaining : ℕ)
      → i < capacity
      → 2 + field buff capacity i ≤ remaining
      → count_loop (suc fuel) buff capacity i remaining
        ≡ 2
          + field buff capacity i
          + count_loop fuel buff capacity
              ((i + (2 + field buff capacity i)) % capacity)
              (remaining - (2 + field buff capacity i))
  unfolding count_loop
  count_step fuel i remaining h enough =
      let narrow = fits in
      let len = field buff capacity i in
      let short = field-lt i in
      let moved : u32 (i + len + 2) ≡ i + (2 + len) = omega arith in
      let swap : len + 2 ≡ 2 + len = omega arith in rw (field_lem i h, moved, swap) (ground arith)

  -- The first frame of the bytes from `i` on.
  next_frame_lem :
      (i n : ℕ)
      → let len = field buff capacity i in
        next_frame (bytes_at buff capacity i (suc (suc n))) ≡ (
          if leb len n
          then some
              (bytes_at buff capacity (i + 2) len, bytes_at buff capacity (i + 2 + len) (n - len))
          else none)
  unfolding next_frame bytes_at
  next_frame_lem i n = elim (Bool-cases (leb (field buff capacity i) n)) [
    | inl whole ↦
        rw (length-bytes_at buff capacity (i + 1 + 1) n, whole)
          (ap₂ (λ (m r : List ℕ). some (m, r))
            (take-bytes_at buff capacity (i + 1 + 1) n (field buff capacity i) (ground arith)
              ∙ ap (λ (k : ℕ). bytes_at buff capacity k (field buff capacity i)) (omega arith))
            (drop-bytes_at buff capacity (i + 1 + 1) n (field buff capacity i) (ground arith)
              ∙ ap
                  (λ (k : ℕ).
                    bytes_at buff capacity (k + field buff capacity i) (n - field buff capacity i))
                  (omega arith)))
    | inr short ↦ rw (length-bytes_at buff capacity (i + 1 + 1) n, short) refl
  ]

  no_frame :
      (i n : ℕ) → next_frame (bytes_at buff capacity i n) ≡ none → n < 2 + field buff capacity i
  no_frame i zero e = omega arith
  no_frame i (suc zero) e = omega arith
  no_frame i (suc (suc n)) e = elim (Bool-cases (leb (field buff capacity i) n)) [
    | inl whole ↦ absurd (let p = rw whole at (sym (next_frame_lem i n) ∙ e) in cc)
    | inr short ↦ ground arith
  ]

  first_frame :
      (i n : ℕ) (msg rest : List ℕ)
      → next_frame (bytes_at buff capacity i n) ≡ some (msg, rest)
      → (field buff capacity i ≡ length msg)
        × (2 + field buff capacity i ≤ n)
        × (bytes_at buff capacity (i + 2 + field buff capacity i) (n - (2 + field buff capacity i))
            ≡ rest)
  first_frame i zero msg rest e = absurd (unfold next_frame bytes_at in cc)
  first_frame i (suc zero) msg rest e = absurd (unfold next_frame bytes_at in cc)
  first_frame i (suc (suc n)) msg rest e = elim (Bool-cases (leb (field buff capacity i) n)) [
    | inl whole ↦
        let p = some-injective _ (msg, rest) (rw whole at (sym (next_frame_lem i n) ∙ e)) in
        (
          sym (length-bytes_at buff capacity (i + 2) (field buff capacity i))
              ∙ ap (λ (q : List ℕ × List ℕ). length q.0) p,
          ground arith,
          ap (λ (k : ℕ). bytes_at buff capacity (i + 2 + field buff capacity i) k) (omega arith)
              ∙ ap (λ (q : List ℕ × List ℕ). q.1) p,
        )
    | inr short ↦ absurd (let p = rw short at (sym (next_frame_lem i n) ∙ e) in cc)
  ]

  -- The loop counts the bytes of the whole frames.
  pub count_loop-frames :
      (ms : List (List ℕ)) (rest : List ℕ) (fuel i remaining : ℕ)
      → i < capacity
      → bytes_at buff capacity i remaining ≡ frames ms ++ rest
      → next_frame rest ≡ none
      → remaining ≤ fuel
      → count_loop fuel buff capacity i remaining ≡ length (frames ms)
  count_loop-frames [] rest fuel i remaining h e last enough =
      count_stop fuel i remaining h (no_frame i remaining (ap next_frame (e ∙ nothing) ∙ last))
      ∙ none_long
    where
      nothing : frames [] ++ rest ≡ rest
      nothing = unfold frames in refl

      none_long : 0 ≡ length (frames [])
      none_long = unfold frames in refl
  count_loop-frames (m ∷ ms) rest zero i remaining h e last enough = absurd (
      omega (
        arith,
        (first_frame i remaining m (frames ms ++ rest)
            (ap next_frame (e ∙ front_frame m ms rest) ∙ next_frame-frame m (frames ms ++ rest))).1,
      ))
  count_loop-frames (m ∷ ms) rest (suc fuel) i remaining h e last enough =
      let len = field buff capacity i in
      let (size, whole, left) =
        first_frame i remaining m (frames ms ++ rest)
          (ap next_frame (e ∙ front_frame m ms rest) ∙ next_frame-frame m (frames ms ++ rest)) in
      let behind =
        bytes_at-mod buff capacity (i + (2 + len)) (remaining - (2 + len))
        ∙ (ap (λ (k : ℕ). bytes_at buff capacity k (remaining - (2 + len))) (omega arith) ∙ left) in
      let ih =
        count_loop-frames ms rest fuel ((i + (2 + len)) % capacity) (remaining - (2 + len))
          (mod-lt (i + (2 + len)) (omega arith)) behind last (omega arith) in
      count_step fuel i remaining h whole ∙ omega (arith, ih, size, length-frames m ms)
