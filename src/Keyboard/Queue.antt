-- ===== src/Keyboard/Queue.antt =====
-- The input queue as a bounded first-in first-out queue of bytes.
use info.Prelude.{
  ℕ, zero, suc, ◌+◌, ◌-◌, ◌%◌, ◌<◌, ◌≡◌, refl, ap, Option, none, some, List, [], ◌∷◌, ◌++◌, ltb,
  if◌then◌else◌, Bool-cases, ltb→lt, inl, inr, length, get_or, take, drop, length-set, arith,
}
use info.Prelude.Ring.{stored, length-stored, stored-first, stored-none, stored-set}
use info.Keyboard.{InputQueue, buffer_size, advance, init, insert, peek, has_data, read_buffer}

pub record IsValid (q : InputQueue) : Type 0 where
  pub storage : length q.buffer ≡ buffer_size
  pub head_in : q.head < buffer_size
  pub count_in : q.count < buffer_size
  pub tail_at : q.tail ≡ (q.head + q.count) % buffer_size

-- What the queue holds, oldest first.
abbrev pub contents : InputQueue → List ℕ
contents q = stored buffer_size q.buffer q.head q.count

pub init-IsValid : IsValid init
unfolding init
init-IsValid = omega arith

pub insert-IsValid : (c : ℕ) {q : InputQueue} → IsValid q → IsValid (insert c q)
unfolding insert
insert-IsValid c {q} v = ground (arith, length-set q.buffer q.tail c)

pub peek-IsValid : {q : InputQueue} → IsValid q → IsValid (peek q).1
unfolding peek
peek-IsValid v = ground arith

-- The abstract queue: bytes beyond 127 are dropped.
pub enqueue : ℕ → List ℕ → List ℕ
enqueue c l = if ltb (length l) (buffer_size - 1) then l ++ c ∷ [] else l

pub dequeue : List ℕ → Option ℕ × List ℕ
dequeue [] = (none, [])
dequeue (c ∷ l) = (some c, l)

-- Insert on a valid queue appends the byte if fewer than 127 are held, and else changes nothing.
pub insert_lem :
    (c : ℕ) {q : InputQueue} → IsValid q → contents (insert c q) ≡ enqueue c (contents q)
unfolding insert enqueue
insert_lem c {q} v = ground (
  arith,
  length-stored buffer_size q.buffer q.head q.count,
  stored-set buffer_size q.buffer q.head q.count q.tail c,
)

-- Peek on a valid queue returns and removes the oldest byte, and returns false and changes
-- nothing on an empty one.
peek_lem : {q : InputQueue} → IsValid q → ((peek q).0, contents (peek q).1) ≡ dequeue (contents q)
unfolding peek dequeue
peek_lem {q} v = ground (arith, stored-first buffer_size q.buffer q.head q.count)

pub has_data_lem : (q : InputQueue) → has_data q ≡ ltb 0 (length (contents q))
unfolding has_data
has_data_lem q = rw length-stored

advance-IsValid : {q : InputQueue} → IsValid q → 0 < q.count → IsValid (advance q)
advance-IsValid v h = omega arith

pub read_buffer-IsValid : (size : ℕ) {q : InputQueue} → IsValid q → IsValid (read_buffer size q).1
unfolding read_buffer
read_buffer-IsValid zero v = v
read_buffer-IsValid (suc n) {q} v = elim (Bool-cases (ltb 0 q.count)) [
  | inl some_left ↦
      rw some_left (read_buffer-IsValid n (advance-IsValid v (ltb→lt 0 q.count some_left)))
  | inr empty ↦ rw empty v
]

-- ReadBuffer on a valid queue returns the oldest bytes, at most as many as asked for, and leaves
-- the others in order.
read_buffer_lem :
    (size : ℕ) {q : InputQueue}
    → IsValid q
    → ((read_buffer size q).0 ≡ take size (contents q))
      × (contents (read_buffer size q).1 ≡ drop size (contents q))
unfolding read_buffer
read_buffer_lem zero v = (refl, refl)
read_buffer_lem (suc n) {q} v =
    let first = stored-first buffer_size q.buffer q.head q.count in
    elim (Bool-cases (ltb 0 q.count)) [
      | inl some_left ↦
          let h = ltb→lt 0 q.count some_left in
          let rest = read_buffer_lem n (advance-IsValid v h) in
          rw (some_left, first h) (ap (λ l. get_or q.buffer q.head 0 ∷ l) rest.0, rest.1)
      | inr empty ↦
          let e : q.count ≡ 0 = ground arith in
          rw (empty, stored-none buffer_size q.buffer q.head q.count e) (refl, refl)
    ]
