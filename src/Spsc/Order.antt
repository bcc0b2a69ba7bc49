-- ===== src/Spsc/Order.antt =====
-- Lemmas on the steps that write a byte, and on those that end a call.
use cm_dotfiles.Prelude.{
  ℕ, ◌+◌, ◌-◌, ◌%◌, ◌^◌, ◌<◌, ◌≤◌, ◌≡◌, sym, ap, ◌∙◌, arith, List, [], ◌∷◌, ◌++◌, false, ◌==◌,
  bit_and, u8, u32, sub32, get_or, set, length, length-append, length-set, take, get_or-set_self,
  get_or-set_ne,
}
use mathlib.Core.Path.{subst}
use native.Mathlib.Nat.{mod-lt, one-le-pow, pow-le-pow_right}
use native.Mathlib.Decide.{ℕ_discrete}
use cm_dotfiles.Prelude.Remainder.{mod-ne}
use cm_dotfiles.Spsc.Defs.{
  is_full, write, commit_push, is_empty, commit_pop, Producer, out, loaded, written, Consumer, away,
  seen, taken, late, System,
}
use cm_dotfiles.Spsc.Invariant.{
  bytes, ProducerOk, ConsumerOk, Inv, slot_lem, count_up, full_lem, empty_lem, length-bytes,
  bytes-append, get_or-append_last, get_or-append_before, take-append_last, take_one_more,
}

module _ (order : ℕ) (small : order < 32) (s : System) (v : Inv order s) where
  span-le : 2 ^ order ≤ 2 ^ 31
  span-le = let le : order ≤ 31 = omega arith in pow-le-pow_right (omega arith) {j = 31} le

  pub produced :
      (p : Producer)
      → s.producer ≡ p
      → ProducerOk (2 ^ order) (length s.pushed) (length s.popped) s.ring.buf p
  produced p e =
      subst (ProducerOk (2 ^ order) (length s.pushed) (length s.popped) s.ring.buf) e v.producer

  pub consumed :
      (c : Consumer)
      → s.consumer ≡ c
      → ConsumerOk (length s.pushed) (length s.popped) (bytes s.pushed) c
  consumed c e =
      subst (ConsumerOk (length s.pushed) (length s.popped) (bytes s.pushed)) e v.consumer

  -- The test with an old tail lets a push pass only where the slot is free.
  not_full :
      (x t : ℕ)
      → s.producer ≡ loaded x t
      → is_full s.ring t ≡ false
      → length s.pushed < length s.popped + 2 ^ order
  unfolding is_full
  not_full x t e test =
      let (n, is_t, old, near) = produced (loaded x t) e in
      let mask_up : s.ring.mask + 1 ≡ 2 ^ order = omega (arith, v.mask, one-le-pow order 2) in
      let b = v.behind in
      let same : (sub32 (u32 (length s.pushed)) (u32 n) == u32 (2 ^ order))
          ≡ (length s.pushed - n == 2 ^ order) =
        full_lem (length s.pushed) n (2 ^ order) (omega arith) near span-le in
      let test' : (length s.pushed - n == 2 ^ order) ≡ false =
        sym same ∙ (rw (v.head, is_t, mask_up) at test) in
      ground arith

  slot_of_head : bit_and s.ring.head s.ring.mask ≡ length s.pushed % 2 ^ order
  slot_of_head = rw (v.head, v.mask) (slot_lem order (length s.pushed) small)

  pub slot_of_tail : bit_and s.ring.tail s.ring.mask ≡ length s.popped % 2 ^ order
  slot_of_tail = rw (v.tail, v.mask) (slot_lem order (length s.popped) small)

  -- The test with an old head lets a pop pass only where a byte is.
  pub not_empty :
      (h : ℕ) → s.consumer ≡ seen h → is_empty s.ring h ≡ false → length s.popped < length s.pushed
  unfolding is_empty
  not_empty h e test =
      let (n, is_h, from, upto) = consumed (seen h) e in
      let near = v.near in
      let same : (u32 (length s.popped) == u32 n) ≡ (length s.popped == n) =
        empty_lem (length s.popped) n (2 ^ order) from (omega arith) span-le in
      let test' : (length s.popped == n) ≡ false = sym same ∙ (rw (v.tail, is_h) at test) in
      ground arith

  pub write-Inv :
      (x t : ℕ)
      → s.producer ≡ loaded x t
      → is_full s.ring t ≡ false
      → Inv order (record s { producer = written x; ring = write s.ring x })
  unfolding write
  write-Inv x t e test =
      let room = not_full x t e test in
      let slot = bit_and s.ring.head s.ring.mask in
      let inside : slot < length s.ring.buf = omega (
        arith,
        slot_of_head,
        v.size,
        mod-lt (length s.pushed) (one-le-pow order 2 (omega arith)),
      ) in
      record {
        mask = v.mask;
        size = length-set s.ring.buf slot (u8 x) ∙ v.size;
        head = v.head;
        tail = v.tail;
        behind = v.behind;
        near = v.near;
        kept = λ i from upto.
            get_or-set_ne s.ring.buf slot (i % 2 ^ order) (u8 x) 0 (λ same.
              mod-ne i (length s.pushed) (2 ^ order) upto (omega arith) (sym same ∙ slot_of_head))
            ∙ v.kept i from upto;
        order_kept = v.order_kept;
        producer = (
          room,
          ap (λ (k : ℕ). get_or (set s.ring.buf slot (u8 x)) k 0) (sym slot_of_head)
              ∙ get_or-set_self s.ring.buf slot (u8 x) 0 inside,
        );
        consumer = v.consumer;
      }

ConsumerOk-more :
    (pushes pops x : ℕ) (bs : List ℕ) (c : Consumer)
    → pushes ≡ length bs
    → ConsumerOk pushes pops bs c
    → ConsumerOk (pushes + 1) pops (bs ++ (x ∷ [])) c
ConsumerOk-more pushes pops x bs away size ok = tt
ConsumerOk-more pushes pops x bs (seen h) size (n, is_h, from, upto) = (n, is_h, from, omega arith)
ConsumerOk-more pushes pops x bs (late t) size ok = elim ok [ ]
ConsumerOk-more pushes pops x bs (taken o) size (some_byte, is_o) =
    (omega arith, is_o ∙ sym (get_or-append_before bs x pops (omega arith)))

ProducerOk-more :
    (span pushes pops : ℕ) (buf : List ℕ) (p : Producer)
    → ProducerOk span pushes pops buf p
    → ProducerOk span pushes (pops + 1) buf p
ProducerOk-more span pushes pops buf out ok = tt
ProducerOk-more span pushes pops buf (loaded v t) (n, is_t, old, near) =
    (n, is_t, omega arith, near)
ProducerOk-more span pushes pops buf (written v) (room, at) = (omega arith, at)

module _ (order : ℕ) (small : order < 32) (s : System) (v : Inv order s) where
  pub push-Inv :
      (x : ℕ)
      → s.producer ≡ written x
      → Inv order
          (record s { producer = out; ring = commit_push s.ring; pushed = s.pushed ++ (x ∷ []) })
  unfolding commit_push
  push-Inv x e =
      let (room, at) = produced order small s v (written x) e in
      let count : length (s.pushed ++ (x ∷ [])) ≡ length s.pushed + 1 =
        omega (arith, length-append s.pushed (x ∷ [])) in
      let size = length-bytes s.pushed in
      let extended = bytes-append s.pushed x in
      let fewer = v.behind in
      record {
        mask = v.mask;
        size = v.size;
        head = rw (count, v.head) (count_up (length s.pushed));
        tail = v.tail;
        behind = omega (arith, v.behind, count);
        near = omega (arith, room, count);
        kept = λ i from upto. elim (ℕ_discrete i (length s.pushed)) [
          | yes last ↦
              ap (λ (k : ℕ). get_or s.ring.buf (k % 2 ^ order) 0) last
              ∙ (at
                  ∙ sym (
                      ap (λ (bs : List ℕ). get_or bs i 0) extended
                      ∙ get_or-append_last (bytes s.pushed) (u8 x) i (last ∙ sym size)))
          | no before ↦
              v.kept i from (omega (arith, count, upto, before))
              ∙ sym (
                  ap (λ (bs : List ℕ). get_or bs i 0) extended
                  ∙ get_or-append_before (bytes s.pushed) (u8 x) i
                      (omega (arith, count, upto, before, size)))
        ];
        order_kept =
            v.order_kept
            ∙ sym (
                ap (take (length s.popped)) extended
                ∙ take-append_last (bytes s.pushed) (u8 x ∷ []) (length s.popped) (omega arith));
        producer = tt;
        consumer =
            rw (count, extended)
              (ConsumerOk-more (length s.pushed) (length s.popped) (u8 x) (bytes s.pushed)
                s.consumer (sym size) v.consumer);
      }

  pub pop-Inv :
      (o : ℕ)
      → s.consumer ≡ taken o
      → Inv order
          (record s { consumer = away; ring = commit_pop s.ring; popped = s.popped ++ (o ∷ []) })
  unfolding commit_pop
  pop-Inv o e =
      let (some_byte, is_o) = consumed order small s v (taken o) e in
      let count : length (s.popped ++ (o ∷ [])) ≡ length s.popped + 1 =
        omega (arith, length-append s.popped (o ∷ [])) in
      let size = length-bytes s.pushed in
      record {
        mask = v.mask;
        size = v.size;
        head = v.head;
        tail = rw (count, v.tail) (count_up (length s.popped));
        behind = omega (arith, some_byte, count);
        near = omega (arith, v.near, count);
        kept = λ i from upto. v.kept i (omega (arith, from, count)) upto;
        order_kept =
            ap (λ (bs : List ℕ). bs ++ (o ∷ [])) v.order_kept
            ∙ (ap (λ (b : ℕ). take (length s.popped) (bytes s.pushed) ++ (b ∷ [])) is_o
                ∙ (sym (take_one_more (bytes s.pushed) (length s.popped) (omega arith))
                    ∙ ap (λ (k : ℕ). take k (bytes s.pushed)) (sym count)));
        producer = rw count (
            ProducerOk-more (2 ^ order) (length s.pushed) (length s.popped) s.ring.buf s.producer
              v.producer);
        consumer = tt;
      }
