-- ===== src/Spsc/Fifo.antt =====
-- About the bytes the consumer takes out and those the producer put in.
use cm_dotfiles.Prelude.{
  true, ℕ, ◌+◌, ◌^◌, ◌<◌, ◌≤◌, ◌≡◌, refl, ap, ◌∙◌, arith, List, [], ◌∷◌, ◌++◌, get_or, length, take,
}
use mathlib.Core.Path.{subst}
use cm_dotfiles.Spsc.Defs.{
  Producer, loaded, Consumer, away, seen, taken, late, Ring, is_full, read, out, System, Step,
  push_load, push_full, push_write, push_commit, pop_load, pop_empty, pop_read, pop_commit,
  pop_early, pop_late, Reach, here, next,
}
use cm_dotfiles.Spsc.Invariant.{bytes, ProducerOk, ConsumerOk, Inv}
use cm_dotfiles.Spsc.Order.{consumed, not_empty, slot_of_tail, write-Inv, push-Inv, pop-Inv}
use cm_dotfiles.Spsc.Defs.{push}
use cm_dotfiles.Prelude.{some, Bool-cases, inl, inr}
use mathlib.Core.Option.{some-injective}

-- A step that leaves the ring as it is moves only one of the two.
moved :
    (order : ℕ) (s : System) (p : Producer) (c : Consumer)
    → Inv order s
    → ProducerOk (2 ^ order) (length s.pushed) (length s.popped) s.ring.buf p
    → ConsumerOk (length s.pushed) (length s.popped) (bytes s.pushed) c
    → Inv order (record s { producer = p; consumer = c })
moved order s p c v producer consumer = record {
  mask = v.mask;
  size = v.size;
  head = v.head;
  tail = v.tail;
  behind = v.behind;
  near = v.near;
  kept = v.kept;
  order_kept = v.order_kept;
  producer = producer;
  consumer = consumer;
}

next_byte :
    (order : ℕ) (s : System)
    → order < 32
    → Inv order s
    → length s.popped < length s.pushed
    → read s.ring ≡ get_or (bytes s.pushed) (length s.popped) 0
unfolding read
next_byte order s small v some_byte =
    ap (λ (k : ℕ). get_or s.ring.buf k 0) (slot_of_tail order small s v)
    ∙ v.kept (length s.popped) (omega arith) some_byte

Step-Inv : (order : ℕ) {s t : System} → order < 32 → Step true s t → Inv order s → Inv order t
Step-Inv order {s} small (push_load x e) v =
    moved order s (loaded x s.ring.tail) s.consumer v (length s.popped, v.tail, omega arith, v.near)
      v.consumer
Step-Inv order {s} small (push_full x t e test) v = moved order s out s.consumer v tt v.consumer
Step-Inv order {s} small (push_write x t e test) v = write-Inv order small s v x t e test
Step-Inv order {s} small (push_commit x e) v = push-Inv order small s v x e
Step-Inv order {s} small (pop_load e) v =
    moved order s s.producer (seen s.ring.head) v v.producer
      (length s.pushed, v.head, v.behind, omega arith)
Step-Inv order {s} small (pop_empty h e test) v = moved order s s.producer away v v.producer tt
Step-Inv order {s} small (pop_read h e test) v =
    let some_byte = not_empty order small s v h e test in
    moved order s s.producer (taken (read s.ring)) v v.producer
      (some_byte, next_byte order s small v some_byte)
Step-Inv order {s} small (pop_commit o e) v = pop-Inv order small s v o e
Step-Inv order {s} small (pop_early h bad e test) v = cc
Step-Inv order {s} small (pop_late t e) v = absurd (consumed order small s v (late t) e)

Reach-Inv :
    (order : ℕ) {buf : List ℕ} {s : System}
    → order < 32
    → length buf ≡ 2 ^ order
    → Reach true order buf s
    → Inv order s
Reach-Inv order small size here = record {
  mask = refl;
  size = size;
  head = refl;
  tail = refl;
  behind = omega arith;
  near = omega arith;
  kept = λ i from upto. absurd (omega arith);
  order_kept = refl;
  producer = tt;
  consumer = tt;
}
Reach-Inv order small size (next r step) = Step-Inv order small step (Reach-Inv order small size r)

-- If the accesses of each function take effect in the order in which it is written, which the plain
-- store of tail does not ensure: however the steps of one producer and one consumer interleave on a
-- ring of 2 ^ order bytes, order below 32, and however often its indices wrap, the values popped
-- are, in order, the first ones of those pushed, cut to bytes, and at most 2 ^ order of them have
-- not been popped.
pub Reach-take :
    (order : ℕ) {buf : List ℕ} {s : System}
    → order < 32
    → length buf ≡ 2 ^ order
    → Reach true order buf s
    → (s.popped ≡ take (length s.popped) (bytes s.pushed))
      × (length s.popped ≤ length s.pushed)
      × (length s.pushed ≤ length s.popped + 2 ^ order)
Reach-take order small size r =
    let v = Reach-Inv order small size r in (v.order_kept, v.behind, v.near)

-- A call of `push` that nothing interrupts, from any state that can be reached with the producer
-- outside, is three of its steps when it returns 0, and leads to the state with the value pushed.
pub push-Reach :
    (order : ℕ) {buf : List ℕ} (s : System) (x : ℕ) (r : Ring)
    → Reach true order buf s
    → s.producer ≡ out
    → push s.ring x ≡ some r
    → Reach true order buf (record s { ring = r; producer = out; pushed = s.pushed ++ (x ∷ []) })
unfolding push
push-Reach order {buf} s x r reach e pushed = elim (Bool-cases (is_full s.ring s.ring.tail)) [
  | inl full ↦ absurd (let p = rw full at pushed in cc)
  | inr free ↦
      let made = some-injective _ r (rw free at pushed) in
      subst
        (λ (q : Ring).
          Reach true order buf
            (record s { ring = q; producer = out; pushed = s.pushed ++ (x ∷ []) }))
        made
        (next (next (next reach (push_load x e)) (push_write x s.ring.tail refl free))
          (push_commit x refl))
]
