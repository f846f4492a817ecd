-- ===== src/Task/Pipe/Reads.antt =====
-- `PipeRead` against the abstract pipe.
use info.Prelude.{
  ℕ, zero, suc, ◌-◌, ◌≤◌, ◌<◌, ◌≡◌, refl, sym, ap, ◌∙◌, inl, inr, true, false, not, ◌&&◌, [], arith,
  ltb, ◌==◌, ltb→lt, Bool-cases, take_all, drop_all,
}
use info.Prelude.Int.{pos}
use info.Prelude.Ring.{stored, stored-none, stored-take, stored-drop}
use info.Task.Sem.{wait-cases, signal, units}
use info.Task.Pipe.{Pipe, pipe_size, Outcome, returned, blocked, copy_out, read_loop, read_pipe}
use info.Task.Pipe.Fifo.{
  IsValid, contents, length-contents, copy_out-bytes, copy_out-end, view, take_bytes, Starved, clip,
  take-clip, drop-clip, length-take-clip, is_nil_of_length, Refines,
}

read_loop-Starved :
    (waits size : ℕ) (p : Pipe)
    → units p.readable.value < waits
    → p.buffer_size ≡ 0
    → p.is_closed ≡ false
    → Starved p (read_loop waits size p)
unfolding read_loop
read_loop-Starved zero size p h e o = absurd (omega arith)
read_loop-Starved (suc waits) size p h e o =
    let now : (p.buffer_size == 0 && not p.is_closed) ≡ true = ground arith in
    elim (wait-cases p.readable) [
      | inl stop ↦ rw (now, stop) (record { outcome = refl; same = refl; valid = λ v. omega arith })
      | inr (n, left, go) ↦
          rw (now, go)
            (let next =
                read_loop-Starved waits size (record p { readable = record { value = pos n } })
                  (omega arith) e o in
              record {
                outcome = next.outcome;
                same = next.same;
                valid = λ v. next.valid (omega arith);
              })
    ]

-- `read_pipe` with something to read.
read_some : ℕ → Pipe → Outcome × Pipe
read_some size p =
    let n : ℕ = clip size p.buffer_size in
    (
      returned (pos n) (copy_out p.buffer n p.read_pos).0,
      record p {
        read_pos = (copy_out p.buffer n p.read_pos).1;
        buffer_size = p.buffer_size - n;
        writable = signal p.writable;
      },
    )

read_pipe_some : (size : ℕ) (p : Pipe) → 0 < p.buffer_size → read_pipe size p ≡ read_some size p
unfolding read_pipe read_loop read_some
read_pipe_some size p h =
    let some_left : (p.buffer_size == 0) ≡ false = ground arith in rw some_left refl

read_some-refines :
    (size : ℕ) {p : Pipe}
    → IsValid p
    → 0 < p.buffer_size
    → ((read_some size p).0, view (read_some size p).1) ≡ take_bytes size (view p)
unfolding read_some take_bytes
read_some-refines size {p} v h =
    let m = p.buffer_size in
    let l = contents p in
    let n : ℕ = clip size m in
    let same_length = length-contents p in
    let small : n ≤ m = ground arith in
    let bytes =
      copy_out-bytes p.buffer n p.read_pos
      ∙ sym (stored-take pipe_size p.buffer p.read_pos n m small)
      ∙ take-clip size m l same_length in
    let rest =
      ap (λ e. stored pipe_size p.buffer e (m - n)) (copy_out-end p.buffer n p.read_pos v.read_in)
      ∙ sym (stored-drop pipe_size p.buffer p.read_pos n m v.read_in small)
      ∙ drop-clip size m l same_length in
    let count = sym (length-take-clip size m l same_length) in
    rw (is_nil_of_length l (omega arith))
      (λ i. (returned (pos (count i)) (bytes i), (p.is_closed, rest i)))

read_some-IsValid :
    (size : ℕ) {p : Pipe} → IsValid p → 0 < p.buffer_size → IsValid (read_some size p).1
unfolding read_some
read_some-IsValid size {p} v h =
    let n : ℕ = clip size p.buffer_size in
    ground (arith, copy_out-end p.buffer n p.read_pos v.read_in)

read_pipe_closed :
    (size : ℕ) (p : Pipe)
    → p.buffer_size ≡ 0
    → p.is_closed ≡ true
    → read_pipe size p ≡ (returned (pos 0) [], p)
unfolding read_pipe read_loop
read_pipe_closed size p e c = ground arith

take_bytes_closed :
    (size : ℕ) (p : Pipe)
    → p.buffer_size ≡ 0
    → p.is_closed ≡ true
    → take_bytes size (view p) ≡ (returned (pos 0) [], view p)
unfolding take_bytes
take_bytes_closed size p e c =
    let none_left = stored-none pipe_size p.buffer p.read_pos p.buffer_size e in
    ground (arith, none_left, take_all {A = ℕ} size [], drop_all {A = ℕ} size [])

take_bytes_open :
    (size : ℕ) (p : Pipe)
    → p.buffer_size ≡ 0
    → p.is_closed ≡ false
    → take_bytes size (view p) ≡ (blocked, view p)
unfolding take_bytes
take_bytes_open size p e c =
    let none_left = stored-none pipe_size p.buffer p.read_pos p.buffer_size e in
    ground (arith, none_left)

read_pipe-Starved :
    (size : ℕ) (p : Pipe) → p.buffer_size ≡ 0 → p.is_closed ≡ false → Starved p (read_pipe size p)
unfolding read_pipe
read_pipe-Starved size p e o =
    read_loop-Starved (suc (units p.readable.value)) size p (omega arith) e o

pub read_pipe-Refines :
    (size : ℕ) {p : Pipe} → IsValid p → Refines (read_pipe size p) (take_bytes size (view p))
read_pipe-Refines size {p} v = elim (Bool-cases (ltb 0 p.buffer_size)) [
  | inl some_left ↦
      let h = ltb→lt 0 p.buffer_size some_left in
      rw (read_pipe_some size p h) (read_some-refines size v h, read_some-IsValid size v h)
  | inr empty ↦
      let e : p.buffer_size ≡ 0 = ground arith in
      elim (Bool-cases p.is_closed) [
        | inl c ↦ rw (read_pipe_closed size p e c, take_bytes_closed size p e c) (refl, v)
        | inr o ↦
            let out = read_pipe-Starved size p e o in
            ((λ i. (out.outcome i, out.same i)) ∙ sym (take_bytes_open size p e o), out.valid v)
      ]
]
