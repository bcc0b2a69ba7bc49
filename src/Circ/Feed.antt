-- ===== src/Circ/Feed.antt =====
-- What `feed_fd` adds to the ring.
use cm_dotfiles.Prelude.{
  ℕ, ◌+◌, ◌-◌, ◌%◌, ◌<◌, ◌≤◌, ◌≡◌, inl, inr, refl, sym, ap, ◌∙◌, arith, List, [], ◌∷◌, ◌++◌, length,
  leb, if◌then◌else◌, ◌==◌, false, add64, sub64, Bool-cases, append-nil,
}
use cm_dotfiles.Prelude.Remainder.{wrap_cases}
use cm_dotfiles.Circ.Ring.{Answer, again, failed, error, store, feed_fd, circ_space, circ_avail}
use cm_dotfiles.Circ.View.{bytes_at, held, contents, IsValid, held-lt}
use native.Mathlib.Decide.{ℕ_discrete}
use cm_dotfiles.Circ.Fill.{came, AtMost, stored-IsValid, stored-contents}

-- How much `feed_fd` asks for.
unfoldable pub feed_asked : ℕ → ℕ → ℕ → ℕ
feed_asked size wpos rpos = if leb rpos wpos then size - wpos else rpos - wpos - 1

pub feed_given : (ℕ → Answer) → ℕ → ℕ → ℕ → Answer
unfolding feed_asked
feed_given read size wpos rpos =
    if held size wpos rpos == size - 1 then Answer.bytes [] else read (feed_asked size wpos rpos)

-- `feed_fd` returns -1 for EAGAIN too.
pub feed_outcome : Answer → ℕ
feed_outcome (Answer.bytes bs) = length bs
feed_outcome again = error
feed_outcome failed = error

module _ (read : ℕ → Answer) (buf : List ℕ) (size wpos rpos : ℕ)
    (v : IsValid buf size wpos rpos) where
  feed_handle : Answer → ℕ × List ℕ × ℕ
  feed_handle (Answer.bytes []) = (0, buf, wpos)
  feed_handle (Answer.bytes (b ∷ bs)) =
      (length (b ∷ bs), store buf wpos (b ∷ bs), add64 wpos (length (b ∷ bs)) % size)
  feed_handle again = (error, buf, wpos)
  feed_handle failed = (error, buf, wpos)

  space_lem : (circ_space rpos wpos size == 0) ≡ (held size wpos rpos == size - 1)
  unfolding circ_space circ_avail
  space_lem = let a = v.fits in let b = v.head_in in let c = v.tail_in in ground arith

  ask_lem :
      (if leb rpos wpos then sub64 size wpos else sub64 (sub64 rpos wpos) 1)
      ≡ feed_asked size wpos rpos
  unfolding feed_asked
  ask_lem = let a = v.fits in let b = v.head_in in let c = v.tail_in in ground arith

  feed_fd_lem : feed_fd read buf size rpos wpos ≡ feed_handle (feed_given read size wpos rpos)
  unfolding feed_fd feed_handle feed_given
  feed_fd_lem =
      rw (space_lem, ask_lem)
        (elim (Bool-cases (held size wpos rpos == size - 1)) [
          | inl none_free ↦ rw none_free refl
          | inr some_free ↦ rw some_free refl
        ])

  -- As much as fills the last free slot makes the indices equal, and the ring counts as empty.
  filled :
      (bs : List ℕ)
      → wpos + length bs ≤ size
      → held size wpos rpos + length bs ≡ size
      → contents (store buf wpos bs) size (add64 wpos (length bs) % size) rpos ≡ []
  unfolding bytes_at
  filled bs inside full =
      let a = v.fits in
      let b = v.head_in in
      let c = v.tail_in in
      let sum : add64 wpos (length bs) ≡ wpos + length bs = omega arith in
      let back : (wpos + length bs) % size ≡ rpos =
        elim (wrap_cases (wpos + length bs) size (omega arith)) [
          | inl w ↦ rw w.0 (ground arith)
          | inr w ↦ rw w.0 (ground arith)
        ] in
      rw (sum, back) (ap (bytes_at (store buf wpos bs) size rpos) {y = 0} (ground arith))

  more : (n : ℕ) → held size wpos rpos + n < size → (held size wpos rpos + n == size) ≡ false
  more n h = ground arith

  fed :
      (a : Answer)
      → wpos + length (came a) ≤ size
      → held size wpos rpos + length (came a) ≤ size
      → let r = feed_handle a in
        (r.0 ≡ feed_outcome a)
        × (contents r.1 size r.2 rpos ≡ (
            if held size wpos rpos + length (came a) == size
            then []
            else contents buf size wpos rpos ++ came a))
        × IsValid r.1 size r.2 rpos
  unfolding came feed_outcome feed_handle
  fed (Answer.bytes []) inside free =
      let few = held-lt buf size wpos rpos v in
      (refl, rw (more 0 (omega arith)) (sym (append-nil _)), v)
  fed (Answer.bytes (b ∷ bs)) inside free = (
    refl,
    elim (ℕ_discrete (held size wpos rpos + length (b ∷ bs)) size) [
      | yes full ↦ filled (b ∷ bs) inside full ∙ ground arith
      | no part ↦
          stored-contents read buf size wpos rpos v (b ∷ bs) inside (omega arith) ∙ ground arith
    ],
    stored-IsValid read buf size wpos rpos v (b ∷ bs) inside,
  )
  fed again inside free =
      let few = held-lt buf size wpos rpos v in
      (refl, rw (more 0 (omega arith)) (sym (append-nil _)), v)
  fed failed inside free =
      let few = held-lt buf size wpos rpos v in
      (refl, rw (more 0 (omega arith)) (sym (append-nil _)), v)

  brought :
      AtMost (feed_asked size wpos rpos) (read (feed_asked size wpos rpos))
      → length (came (feed_given read size wpos rpos)) ≤ feed_asked size wpos rpos
  unfolding came feed_given AtMost
  brought most = elim (Bool-cases (held size wpos rpos == size - 1)) [
    | inl none_free ↦ rw none_free (omega arith)
    | inr some_free ↦ rw some_free most
  ]

  -- On a valid ring `feed_fd` adds the bytes that `read` brings behind the bytes held, if `read`
  -- brings no more than was asked for, but for one case: when they fill the last slot too, the
  -- ring counts as empty, and all bytes in it are lost. It does not read when only one slot is
  -- free. It returns the number of bytes read, 0 at the end of the file, and -1 for any error. The
  -- indices stay in the buffer.
  pub feed_fd-append :
      AtMost (feed_asked size wpos rpos) (read (feed_asked size wpos rpos))
      → let r = feed_fd read buf size rpos wpos in
        let answer = feed_given read size wpos rpos in
        (r.0 ≡ feed_outcome answer)
        × (contents r.1 size r.2 rpos ≡ (
            if held size wpos rpos + length (came answer) == size
            then []
            else contents buf size wpos rpos ++ came answer))
        × IsValid r.1 size r.2 rpos
  feed_fd-append most = rw feed_fd_lem (
      let few = brought most in
      let b = v.head_in in
      let c = v.tail_in in
      fed (feed_given read size wpos rpos) (unfold feed_asked in ground arith)
        (unfold feed_asked in ground arith))
