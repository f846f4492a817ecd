-- ===== src/Task/Pipe.antt =====
-- task/pipe.cc: the table of pipes. A call runs without preemption between taking and giving back
-- the pipe's lock; a wait on a semaphore that blocks ends the run of the call (`blocked`), since
-- no code of the kernel makes the waiting process ready again. Allocation of the two semaphores
-- is taken to succeed, and the fields `reader` and `writer` are written and never read.
use info.Prelude.{
  ℕ, zero, suc, ◌+◌, ◌-◌, ◌*◌, ◌/◌, ◌%◌, ◌^◌, ◌≤◌, ◌<◌, min, ◌≡◌, refl, sym, ap, ◌∙◌, ◌≢◌, ◌↔◌, ◌⊎◌,
  inl, inr, Bool, true, false, not, ◌&&◌, ◌||◌, Option, none, some, List, [], ◌∷◌, ◌++◌, map,
  append-nil, append_assoc, arith, add-zero, ltb, leb, ◌==◌, if◌then◌else◌, ltb→lt, lt→ltb, leb→le,
  ==_iff, tests, Bool-cases, Option-cases, length, get_elem?, set, length-append, length-set,
  get_elem?-set_self, get_elem?-set_ne, get_or, take, drop, replicate, take-append-drop,
  length-take, length-drop, length-replicate, length-map, take_all, drop_all, All, All-get_elem?,
  All-set, All-replicate, get_elem?-some,
}
use info.Prelude.Int.{ℤ, pos, negsuc}
pub mod Fifo
pub mod Reads
pub mod Writes
pub mod Table
pub mod Ends
mod Tests
use info.Task.Sem.{Sem, passes, blocks, wait, signal, units}

abbrev pub pipe_size : ℕ
pipe_size = 4096

abbrev pub max_pipes : ℕ
max_pipes = 64

-- `Pipe`
pub record Pipe : Type 0 where
  pub buffer : List ℕ
  pub read_pos : ℕ
  pub write_pos : ℕ
  pub buffer_size : ℕ
  pub readable : Sem
  pub writable : Sem
  pub is_closed : Bool

empty_pipe : Pipe
empty_pipe = record {
  buffer = replicate pipe_size 0;
  read_pos = 0;
  write_pos = 0;
  buffer_size = 0;
  readable = record { value = pos 0 };
  writable = record { value = pos 0 };
  is_closed = false;
}

-- `pipe_table` and `pipe_count`
pub record Pipes : Type 0 where
  pub table : List Pipe
  pub count : ℕ

-- What a call leaves: its return value and, for a read, the bytes copied to `buf`.
pub data Outcome : Type 0 where
  returned : ℤ → List ℕ → Outcome
  blocked : Outcome
  out_of_fuel : Outcome

-- The table before any call, which static storage sets to zero.
pub boot : Pipes
boot = record { table = replicate max_pipes empty_pipe; count = 0 }

-- What `PipeCreate` makes of an entry of the table.
pub reset : Pipe → Pipe
reset p = record p {
  read_pos = 0;
  write_pos = 0;
  buffer_size = 0;
  readable = record { value = pos 0 };
  writable = record { value = pos pipe_size };
  is_closed = false;
}

-- The entry of the table at an index that the caller has checked.
abbrev pub update : ℕ → (Pipe → Pipe) → List Pipe → List Pipe
update i f [] = []
update zero f (p ∷ ps) = f p ∷ ps
update (suc i) f (p ∷ ps) = p ∷ update i f ps

-- `PipeCreate`: the two descriptors, or `none` for -1.
pub create : Pipes → Option (ℕ × ℕ) × Pipes
create t = if leb max_pipes t.count then (none, t) else (
  some (t.count * 2, t.count * 2 + 1),
  record { table = update t.count reset t.table; count = t.count + 1 },
)

-- The loop of `PipeRead` that copies `n` bytes: the bytes, and the new `read_pos`.
pub copy_out : List ℕ → ℕ → ℕ → List ℕ × ℕ
copy_out buffer zero read_pos = ([], read_pos)
copy_out buffer (suc n) read_pos =
    let (bytes, end) = copy_out buffer n ((read_pos + 1) % pipe_size) in
    (get_or buffer read_pos 0 ∷ bytes, end)

-- The loop of `PipeWrite`: the new buffer and `write_pos`.
pub copy_in : List ℕ → List ℕ → ℕ → List ℕ × ℕ
copy_in [] buffer write_pos = (buffer, write_pos)
copy_in (c ∷ cs) buffer write_pos =
    copy_in cs (set buffer write_pos c) ((write_pos + 1) % pipe_size)

-- `PipeRead` from its `lock` to its end, on the pipe of the descriptor. A wait that passes tests the
-- buffer again; the first number bounds the waits.
pub read_loop : ℕ → ℕ → Pipe → Outcome × Pipe
read_loop zero size p = (out_of_fuel, p)
read_loop (suc waits) size p =
    let again : Outcome × Pipe = elim (wait p.readable) [
      | passes s ↦ read_loop waits size (record p { readable = s })
      | blocks s ↦ (blocked, record p { readable = s })
    ] in
    if p.buffer_size == 0 && not p.is_closed
    then again
    else if p.buffer_size == 0
    then (returned (pos 0) [], p)
    else let read_size : ℕ = if ltb size p.buffer_size then size else p.buffer_size in
      let (bytes, read_pos) = copy_out p.buffer read_size p.read_pos in
      (
        returned (pos read_size) bytes,
        record p {
          read_pos = read_pos;
          buffer_size = p.buffer_size - read_size;
          writable = signal p.writable;
        },
      )

-- Each wait that passes takes a unit of the semaphore, so that many rounds and one more are enough.
pub read_pipe : ℕ → Pipe → Outcome × Pipe
read_pipe size p = read_loop (suc (units p.readable.value)) size p

-- `PipeWrite` from its `lock` to its end; `src` holds the `size` bytes of `buf`.
pub write_loop : ℕ → List ℕ → Pipe → Outcome × Pipe
write_loop zero src p = (out_of_fuel, p)
write_loop (suc waits) src p =
    let again : Outcome × Pipe = elim (wait p.writable) [
      | passes s ↦ write_loop waits src (record p { writable = s })
      | blocks s ↦ (blocked, record p { writable = s })
    ] in
    if p.buffer_size == pipe_size && not p.is_closed
    then again
    else if p.is_closed
    then (returned (negsuc 0) [], p)
    else let room = pipe_size - p.buffer_size in
      let write_size : ℕ = if ltb (length src) room then length src else room in
      let (buffer, write_pos) = copy_in (take write_size src) p.buffer p.write_pos in
      (
        returned (pos write_size) [],
        record p {
          buffer = buffer;
          write_pos = write_pos;
          buffer_size = p.buffer_size + write_size;
          readable = signal p.readable;
        },
      )

pub write_pipe : List ℕ → Pipe → Outcome × Pipe
write_pipe src p = write_loop (suc (units p.writable.value)) src p

-- `PipeClose` on the pipe of the descriptor.
pub close_pipe : Pipe → Pipe
close_pipe p = record p {
  is_closed = true;
  readable = signal p.readable;
  writable = signal p.writable;
}

-- The pipe of a descriptor, or `none` where the call's guards fail.
pub pipe_id : ℤ → Pipes → Option ℕ
pipe_id (negsuc n) t = none
pipe_id (pos fd) t =
    if leb (max_pipes * 2) fd then none else if leb t.count (fd / 2) then none else some (fd / 2)

-- A call on the entry at an index; outside the table there is none.
abbrev pub on_entry : ℕ → (Pipe → Outcome × Pipe) → Pipes → Outcome × Pipes
on_entry i f t = elim (get_elem? t.table i) [
  | none ↦ (returned (negsuc 0) [], t)
  | some p ↦ ((f p).0, record t { table = set t.table i (f p).1 })
]

-- `PipeRead`
pub read : ℤ → ℕ → Pipes → Outcome × Pipes
read fd size t = elim (pipe_id fd t) [
  | none ↦ (returned (negsuc 0) [], t)
  | some i ↦ on_entry i (read_pipe size) t
]

-- `PipeWrite`
pub write : ℤ → List ℕ → Pipes → Outcome × Pipes
write fd src t = elim (pipe_id fd t) [
  | none ↦ (returned (negsuc 0) [], t)
  | some i ↦ on_entry i (write_pipe src) t
]

-- `PipeClose`
pub close : ℤ → Pipes → Pipes
close fd t = elim (pipe_id fd t) [
  | none ↦ t
  | some i ↦ record t { table = update i close_pipe t.table }
]
