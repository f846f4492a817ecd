-- ===== src/Task/Pipe/Fifo.antt =====
-- A pipe as a bounded first-in first-out queue of bytes: the abstract pipe and the loops.
use info.Prelude.{
  ℕ, zero, suc, ◌+◌, ◌-◌, ◌%◌, ◌≤◌, ◌<◌, ◌≡◌, refl, sym, ap, ◌∙◌, inl, inr, Bool, true, false, not,
  ◌&&◌, List, [], ◌∷◌, ◌++◌, append-nil, append_assoc, arith, add-zero, ltb, ◌==◌, if◌then◌else◌,
  Bool-cases, length, set, length-set, get_or, take, drop, length-take, take_all, drop_all,
}
use info.Prelude.Int.{pos, negsuc}
use info.Prelude.Ring.{stored, length-stored, stored-set, next_slot}
use info.Task.Pipe.{Pipe, pipe_size, Outcome, returned, blocked, copy_out, copy_in}

pub record IsValid (p : Pipe) : Type 0 where
  pub storage : length p.buffer ≡ pipe_size
  pub read_in : p.read_pos < pipe_size
  pub size_in : p.buffer_size ≤ pipe_size
  pub write_at : p.write_pos ≡ (p.read_pos + p.buffer_size) % pipe_size

-- The bytes under way, oldest first.
abbrev pub contents : Pipe → List ℕ
contents p = stored pipe_size p.buffer p.read_pos p.buffer_size

pub length-contents : (p : Pipe) → length (contents p) ≡ p.buffer_size
length-contents p = length-stored pipe_size p.buffer p.read_pos p.buffer_size

pub copy_out-bytes :
    (buf : List ℕ) (n head : ℕ) → (copy_out buf n head).0 ≡ stored pipe_size buf head n
unfolding copy_out
copy_out-bytes buf zero head = refl
copy_out-bytes buf (suc n) head =
    ap (λ l. get_or buf head 0 ∷ l) (copy_out-bytes buf n ((head + 1) % pipe_size))

pub copy_out-end :
    (buf : List ℕ) (n head : ℕ)
    → head < pipe_size
    → (copy_out buf n head).1 ≡ (head + n) % pipe_size
unfolding copy_out
copy_out-end buf zero head h = omega arith
copy_out-end buf (suc n) head h =
    copy_out-end buf n ((head + 1) % pipe_size) (omega arith) ∙ next_slot pipe_size head n

pub copy_in-end :
    (cs buf : List ℕ) (head : ℕ)
    → head < pipe_size
    → (copy_in cs buf head).1 ≡ (head + length cs) % pipe_size
unfolding copy_in
copy_in-end [] buf head h = omega arith
copy_in-end (c ∷ cs) buf head h =
    copy_in-end cs (set buf head c) ((head + 1) % pipe_size) (omega arith)
    ∙ next_slot pipe_size head (length cs)

pub length-copy_in : (cs buf : List ℕ) (head : ℕ) → length (copy_in cs buf head).0 ≡ length buf
unfolding copy_in
length-copy_in [] buf head = refl
length-copy_in (c ∷ cs) buf head =
    length-copy_in cs (set buf head c) ((head + 1) % pipe_size) ∙ length-set buf head c

pub copy_in-stored :
    (cs buf : List ℕ) (head n at : ℕ)
    → length buf ≡ pipe_size
    → head < pipe_size
    → n + length cs ≤ pipe_size
    → at ≡ (head + n) % pipe_size
    → stored pipe_size (copy_in cs buf at).0 head (n + length cs)
      ≡ stored pipe_size buf head n ++ cs
unfolding copy_in
copy_in-stored [] buf head n at hb hh hn e = rw (add-zero, append-nil)
copy_in-stored (c ∷ cs) buf head n at hb hh hn e =
    ap (stored pipe_size (copy_in cs (set buf at c) ((at + 1) % pipe_size)).0 head) (omega arith)
    ∙ copy_in-stored cs (set buf at c) head (suc n) ((at + 1) % pipe_size)
        (length-set buf at c ∙ hb) hh (omega arith) (omega arith)
    ∙ ap (λ l. l ++ cs) (stored-set pipe_size buf head n at c e (omega arith) hh (omega arith))
    ∙ append_assoc (stored pipe_size buf head n) (c ∷ []) cs

-- The abstract pipe: whether it is closed, and the bytes under way.
abbrev pub View : Type 0
View = Bool × List ℕ

abbrev pub view : Pipe → View
view p = (p.is_closed, contents p)

abbrev pub is_nil : List ℕ → Bool
is_nil [] = true
is_nil (c ∷ l) = false

unfoldable pub take_bytes : ℕ → View → Outcome × View
take_bytes size (closed, l) =
    if is_nil l && not closed
    then (blocked, (closed, l))
    else (returned (pos (length (take size l))) (take size l), (closed, drop size l))

unfoldable pub put_bytes : List ℕ → View → Outcome × View
put_bytes src (closed, l) =
    let room = pipe_size - length l in
    if closed
    then (returned (negsuc 0) [], (closed, l))
    else if room == 0
    then (blocked, (closed, l))
    else (returned (pos (length (take room src))) [], (closed, l ++ take room src))

-- A reader of an open pipe with nothing in it uses up the units of `readable` and stays blocked.
pub record Starved (p : Pipe) (out : Outcome × Pipe) : Type 0 where
  pub outcome : out.0 ≡ blocked
  pub same : view out.1 ≡ view p
  pub valid : IsValid p → IsValid out.1

-- The smaller of two sizes, as the code takes it.
abbrev pub clip : ℕ → ℕ → ℕ
clip size total = if ltb size total then size else total

pub take-clip : (n m : ℕ) (l : List ℕ) → length l ≡ m → take (clip n m) l ≡ take n l
take-clip n m l h = elim (Bool-cases (ltb n m)) [
  | inl small ↦ rw small
  | inr big ↦ rw big (take_all m l (omega arith) ∙ sym (take_all n l (ground arith)))
]

pub drop-clip : (n m : ℕ) (l : List ℕ) → length l ≡ m → drop (clip n m) l ≡ drop n l
drop-clip n m l h = elim (Bool-cases (ltb n m)) [
  | inl small ↦ rw small
  | inr big ↦ rw big (drop_all m l (omega arith) ∙ sym (drop_all n l (ground arith)))
]

pub length-take-clip : (n m : ℕ) (l : List ℕ) → length l ≡ m → length (take n l) ≡ clip n m
length-take-clip n m l h = ground (arith, length-take n l)

pub is_nil_of_length : (l : List ℕ) → 0 < length l → is_nil l ≡ false
is_nil_of_length [] h = absurd (omega arith)
is_nil_of_length (c ∷ l) h = refl

-- A call on a pipe does what the abstract pipe does, and leaves a pipe.
abbrev pub Refines : Outcome × Pipe → Outcome × View → Type 0
Refines out spec = ((out.0, view out.1) ≡ spec) × IsValid out.1
