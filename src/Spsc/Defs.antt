-- ===== src/Spsc/Defs.antt =====
-- `struct ring`, `push` and `pop`, and the same two functions as the steps of a producer and a
-- consumer that run at the same time. Each read or write of what the other one reads or writes is
-- a step of its own.
use cm_dotfiles.Prelude.{
  ℕ, ◌+◌, ◌-◌, ◌^◌, ◌≡◌, List, [], ◌∷◌, ◌++◌, Option, none, some, Bool, true, false, ◌==◌,
  if◌then◌else◌, bit_and, u8, u32, sub32, get_or, set,
}

-- `struct ring`; `len` is never read.
pub record Ring : Type 0 where
  pub head : ℕ
  pub tail : ℕ
  pub mask : ℕ
  pub buf : List ℕ

-- The tests and the accesses of the two functions, on the indices that they have loaded.
unfoldable pub is_full : Ring → ℕ → Bool
is_full r t = sub32 r.head t == u32 (r.mask + 1)

unfoldable pub write : Ring → ℕ → Ring
write r v = record r { buf = set r.buf (bit_and r.head r.mask) (u8 v) }

unfoldable pub commit_push : Ring → Ring
commit_push r = record r { head = u32 (r.head + 1) }

unfoldable pub is_empty : Ring → ℕ → Bool
is_empty r h = r.tail == h

unfoldable pub read : Ring → ℕ
read r = get_or r.buf (bit_and r.tail r.mask) 0

unfoldable pub commit_pop : Ring → Ring
commit_pop r = record r { tail = u32 (r.tail + 1) }

-- One call with nothing in between; `none` is -1.
unfoldable pub push : Ring → ℕ → Option Ring
push r v = if is_full r r.tail then none else some (commit_push (write r v))

unfoldable pub pop : Ring → Option (ℕ × Ring)
pop r = if is_empty r r.head then none else some (read r, commit_pop r)

-- Where the producer stands: outside of `push`, with `t` loaded, or with the byte written.
pub data Producer : Type 0 where
  out : Producer
  loaded : (v t : ℕ) → Producer
  written : (v : ℕ) → Producer

-- The consumer: outside of `pop`, with `head` loaded, with the byte read, or with the new `tail`
-- stored and the byte at the old one still to be read.
pub data Consumer : Type 0 where
  away : Consumer
  seen : (h : ℕ) → Consumer
  taken : (o : ℕ) → Consumer
  late : (t : ℕ) → Consumer

-- The ring, the two, and the values of the calls that have returned 0, the first ones first.
pub record System : Type 0 where
  pub ring : Ring
  pub producer : Producer
  pub consumer : Consumer
  pub pushed : List ℕ
  pub popped : List ℕ

-- `pop` stores `tail` with a plain store, which nothing orders behind its read of the byte. If
-- `ordered` is false, the store may take effect first: `pop_early` and `pop_late`.
pub data Step (ordered : Bool) (s : System) : System → Type 0 where
  push_load :
      (v : ℕ) → s.producer ≡ out → Step ordered s (record s { producer = loaded v s.ring.tail })
  push_full :
      (v t : ℕ)
      → s.producer ≡ loaded v t
      → is_full s.ring t ≡ true
      → Step ordered s (record s { producer = out })
  push_write :
      (v t : ℕ)
      → s.producer ≡ loaded v t
      → is_full s.ring t ≡ false
      → Step ordered s (record s { producer = written v; ring = write s.ring v })
  push_commit :
      (v : ℕ)
      → s.producer ≡ written v
      → Step ordered s
          (record s { producer = out; ring = commit_push s.ring; pushed = s.pushed ++ (v ∷ []) })
  pop_load : s.consumer ≡ away → Step ordered s (record s { consumer = seen s.ring.head })
  pop_empty :
      (h : ℕ)
      → s.consumer ≡ seen h
      → is_empty s.ring h ≡ true
      → Step ordered s (record s { consumer = away })
  pop_read :
      (h : ℕ)
      → s.consumer ≡ seen h
      → is_empty s.ring h ≡ false
      → Step ordered s (record s { consumer = taken (read s.ring) })
  pop_commit :
      (o : ℕ)
      → s.consumer ≡ taken o
      → Step ordered s
          (record s { consumer = away; ring = commit_pop s.ring; popped = s.popped ++ (o ∷ []) })
  pop_early :
      (h : ℕ)
      → ordered ≡ false
      → s.consumer ≡ seen h
      → is_empty s.ring h ≡ false
      → Step ordered s (record s { consumer = late s.ring.tail; ring = commit_pop s.ring })
  pop_late :
      (t : ℕ)
      → s.consumer ≡ late t
      → Step ordered s (record s {
        consumer = away;
        popped = s.popped ++ (read (record s.ring { tail = t }) ∷ []);
      })

-- An empty ring of `2 ^ order` bytes, with nobody in a call.
abbrev pub start : ℕ → List ℕ → System
start order buf = record {
  ring = record { head = 0; tail = 0; mask = 2 ^ order - 1; buf = buf };
  producer = out;
  consumer = away;
  pushed = [];
  popped = [];
}

pub data Reach (ordered : Bool) (order : ℕ) (buf : List ℕ) : System → Type 0 where
  here : Reach ordered order buf (start order buf)
  next : {s t : System} → Reach ordered order buf s → Step ordered s t → Reach ordered order buf t
