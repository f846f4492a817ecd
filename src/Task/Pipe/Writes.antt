-- ===== src/Task/Pipe/Writes.antt =====
-- `PipeWrite` against the abstract pipe.
use info.Prelude.{
  ℕ, zero, suc, ◌+◌, ◌-◌, ◌<◌, ◌≡◌, refl, sym, ◌∙◌, inl, inr, true, false, not, ◌&&◌, List, [],
  ◌++◌, arith, ltb, ◌==◌, ltb→lt, Bool-cases, length, take, length-take, take_all,
}
use info.Prelude.Int.{pos, negsuc}
use info.Task.Sem.{wait-cases, signal, units}
use info.Task.Pipe.{Pipe, pipe_size, Outcome, returned, blocked, copy_in, write_loop, write_pipe}
use info.Task.Pipe.Fifo.{
  IsValid, contents, length-contents, copy_in-end, length-copy_in, copy_in-stored, view, put_bytes,
  Starved, clip, Refines,
}

write_loop-Starved :
    (waits : ℕ) (src : List ℕ) (p : Pipe)
    → units p.writable.value < waits
    → p.buffer_size ≡ pipe_size
    → p.is_closed ≡ false
    → Starved p (write_loop waits src p)
unfolding write_loop
write_loop-Starved zero src p h e o = absurd (omega arith)
write_loop-Starved (suc waits) src p h e o =
    let now : (p.buffer_size == pipe_size && not p.is_closed) ≡ true = ground arith in
    elim (wait-cases p.writable) [
      | inl stop ↦ rw (now, stop) (record { outcome = refl; same = refl; valid = λ v. omega arith })
      | inr (n, left, go) ↦
          rw (now, go)
            (let next =
                write_loop-Starved waits src (record p { writable = record { value = pos n } })
                  (omega arith) e o in
              record {
                outcome = next.outcome;
                same = next.same;
                valid = λ v. next.valid (omega arith);
              })
    ]

-- `write_pipe` with room in an open pipe.
write_some : List ℕ → Pipe → Outcome × Pipe
write_some src p =
    let n : ℕ = clip (length src) (pipe_size - p.buffer_size) in
    (
      returned (pos n) [],
      record p {
        buffer = (copy_in (take n src) p.buffer p.write_pos).0;
        write_pos = (copy_in (take n src) p.buffer p.write_pos).1;
        buffer_size = p.buffer_size + n;
        readable = signal p.readable;
      },
    )

write_pipe_some :
    (src : List ℕ) (p : Pipe)
    → p.buffer_size < pipe_size
    → p.is_closed ≡ false
    → write_pipe src p ≡ write_some src p
unfolding write_pipe write_loop write_some
write_pipe_some src p h o = ground arith

write_pipe_closed :
    (src : List ℕ) (p : Pipe) → p.is_closed ≡ true → write_pipe src p ≡ (returned (negsuc 0) [], p)
unfolding write_pipe write_loop
write_pipe_closed src p c = ground arith

put_bytes_closed :
    (src : List ℕ) (p : Pipe)
    → p.is_closed ≡ true
    → put_bytes src (view p) ≡ (returned (negsuc 0) [], view p)
unfolding put_bytes
put_bytes_closed src p c = ground arith

put_bytes_open :
    (src : List ℕ) (p : Pipe)
    → p.buffer_size < pipe_size
    → p.is_closed ≡ false
    → let l = take (pipe_size - p.buffer_size) src in
      put_bytes src (view p) ≡ (returned (pos (length l)) [], (p.is_closed, contents p ++ l))
unfolding put_bytes
put_bytes_open src p h o =
    let room : (pipe_size - p.buffer_size == 0) ≡ false = ground arith in
    simp (length-contents, o, room)

put_bytes_full :
    (src : List ℕ) (p : Pipe)
    → p.buffer_size ≡ pipe_size
    → p.is_closed ≡ false
    → put_bytes src (view p) ≡ (blocked, view p)
unfolding put_bytes
put_bytes_full src p e o = ground (arith, length-contents p)

write_pipe-Starved :
    (src : List ℕ) (p : Pipe)
    → p.buffer_size ≡ pipe_size
    → p.is_closed ≡ false
    → Starved p (write_pipe src p)
unfolding write_pipe
write_pipe-Starved src p e o =
    write_loop-Starved (suc (units p.writable.value)) src p (omega arith) e o

take_to : (room : ℕ) (src : List ℕ) → take (clip (length src) room) src ≡ take room src
take_to room src = elim (Bool-cases (ltb (length src) room)) [
  | inl small ↦
      rw small (take_all (length src) src (omega arith) ∙ sym (take_all room src (ground arith)))
  | inr big ↦ rw big
]

length-take_to : (room : ℕ) (src : List ℕ) → length (take room src) ≡ clip (length src) room
length-take_to room src = ground (arith, length-take room src)

write_some-IsValid : (src : List ℕ) {p : Pipe} → IsValid p → IsValid (write_some src p).1
unfolding write_some
write_some-IsValid src {p} v =
    let room = pipe_size - p.buffer_size in
    let count = length-take_to room src in
    rw (take_to room src) (
      ground (
        arith,
        count,
        length-copy_in (take room src) p.buffer p.write_pos,
        copy_in-end (take room src) p.buffer p.write_pos,
      ))

write_some-refines :
    (src : List ℕ) {p : Pipe}
    → IsValid p
    → p.buffer_size < pipe_size
    → p.is_closed ≡ false
    → ((write_some src p).0, view (write_some src p).1) ≡ put_bytes src (view p)
unfolding write_some
write_some-refines src {p} v h o =
    let room = pipe_size - p.buffer_size in
    let l = take room src in
    let count = sym (length-take_to room src) in
    let bytes =
      copy_in-stored l p.buffer p.read_pos p.buffer_size p.write_pos v.storage v.read_in
        (ground (arith, length-take room src)) v.write_at in
    rw (take_to room src, count, bytes, put_bytes_open src p h o) refl

pub write_pipe-Refines :
    (src : List ℕ) {p : Pipe} → IsValid p → Refines (write_pipe src p) (put_bytes src (view p))
write_pipe-Refines src {p} v = elim (Bool-cases p.is_closed) [
  | inl c ↦ rw (write_pipe_closed src p c, put_bytes_closed src p c) (refl, v)
  | inr o ↦ elim (Bool-cases (ltb p.buffer_size pipe_size)) [
    | inl room ↦
        let h = ltb→lt p.buffer_size pipe_size room in
        rw (write_pipe_some src p h o) (write_some-refines src v h o, write_some-IsValid src v)
    | inr full ↦
        let e : p.buffer_size ≡ pipe_size = ground arith in
        let out = write_pipe-Starved src p e o in
        ((λ i. (out.outcome i, out.same i)) ∙ sym (put_bytes_full src p e o), out.valid v)
  ]
]
