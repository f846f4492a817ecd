-- ===== src/Task/Pipe/Ends.antt =====
-- The two ends of a new pipe.
use info.Prelude.{
  ℕ, ◌+◌, ◌*◌, ◌≤◌, ◌<◌, ◌≡◌, refl, sym, ap, ◌∙◌, inl, inr, true, false, none, some, List, [],
  arith, ◌==◌, if◌then◌else◌, Bool-cases, length, take_all, drop_all, get_elem?-some,
}
use mathlib.Core.Option.{some-injective}
use info.Prelude.Int.{ℤ, pos, negsuc}
use info.Task.Pipe.{
  Pipes, pipe_size, max_pipes, Outcome, returned, reset, update, create, pipe_id, read, write,
}
use info.Task.Pipe.Fifo.{View, take_bytes, put_bytes, is_nil_of_length}
use info.Task.Pipe.Table.{
  IsTable, entry, get_elem?-update, create-IsTable, ActsOn, read_lem, write_lem,
}

create-some :
    (t : Pipes)
    → t.count < max_pipes
    → create t ≡ (
      some (t.count * 2, t.count * 2 + 1),
      record { table = update t.count reset t.table; count = t.count + 1 },
    )
unfolding create
create-some t h = ground arith

pub create_full : (t : Pipes) → max_pipes ≤ t.count → create t ≡ (none, t)
unfolding create
create_full t h = ground arith

entry-create :
    (t : Pipes) (j : ℕ)
    → IsTable t
    → t.count < max_pipes
    → entry (create t).1 j ≡ (if t.count == j then some (false, []) else entry t j)
unfolding reset
entry-create t j v h =
    rw (create-some t h, get_elem?-update reset t.table t.count j)
      (elim (Bool-cases (t.count == j)) [
        | inl here ↦
            let (p, e) = get_elem?-some t.table j (ground (arith, v.entries)) in rw (here, e) refl
        | inr other ↦ rw other refl
      ])

-- PipeCreate on a well-formed table with fewer than 64 pipes returns the descriptors 2i and 2i+1
-- of the next entry i; both reach that entry, which is open and empty; every other entry keeps
-- its contents, and the table stays well formed.
create_lem :
    {t : Pipes}
    → IsTable t
    → t.count < max_pipes
    → let i = t.count in
      ((create t).0 ≡ some (i * 2, i * 2 + 1))
      × (pipe_id (pos (i * 2)) (create t).1 ≡ some i)
      × (pipe_id (pos (i * 2 + 1)) (create t).1 ≡ some i)
      × ((j : ℕ) → entry (create t).1 j ≡ (if i == j then some (false, []) else entry t j))
      × IsTable (create t).1
unfolding pipe_id
create_lem {t} v h = (
  rw (create-some t h),
  rw (create-some t h) (ground arith),
  rw (create-some t h) (ground arith),
  λ j. entry-create t j v h,
  create-IsTable v,
)

pipe_id-count : (fd : ℤ) (t u : Pipes) → t.count ≡ u.count → pipe_id fd u ≡ pipe_id fd t
unfolding pipe_id
pipe_id-count (pos fd) t u e = ground arith
pipe_id-count (negsuc n) t u e = refl

write-count : (fd : ℤ) (src : List ℕ) (t : Pipes) → (write fd src t).1.count ≡ t.count
unfolding write
write-count fd src t = ground arith

-- A call through a descriptor of an entry whose contents are known.
at_entry :
    (t : Pipes) (i : ℕ) (spec : View → Outcome × View) (out : Outcome × Pipes) (c : View)
    → ActsOn t i spec out
    → entry t i ≡ some c
    → (out.0 ≡ (spec c).0) × (entry out.1 i ≡ some (spec c).1) × IsTable out.1
at_entry t i spec out c (c', e, o, after, v) e' =
    let same : c' ≡ c = some-injective c' c (sym e ∙ e') in
    let here : (i == i) ≡ true = ground arith in
    (
      o ∙ ap (λ x. (spec x).0) same,
      after i
          ∙ ap (λ b. if b then some (spec c').1 else entry t i) here
          ∙ ap (λ x. some (spec x).1) same,
      v,
    )

put_fits :
    (src : List ℕ)
    → length src ≤ pipe_size
    → put_bytes src (false, []) ≡ (returned (pos (length src)) [], (false, src))
unfolding put_bytes
put_fits src h = rw (take_all pipe_size src h) refl

take_whole :
    (size : ℕ) (l : List ℕ)
    → 0 < length l
    → length l ≤ size
    → take_bytes size (false, l) ≡ (returned (pos (length l)) l, (false, []))
unfolding take_bytes
take_whole size l h room =
    rw (is_nil_of_length l h, take_all size l room, drop_all size l room) refl

-- On a well-formed table with room for a pipe, at most 4096 bytes and at least one that are
-- written to the second descriptor of a new pipe are what a read of at least that size from the
-- first descriptor returns, and the pipe is then open and empty.
pub write-read :
    {t : Pipes} (src : List ℕ) (size : ℕ)
    → IsTable t
    → t.count < max_pipes
    → 0 < length src
    → length src ≤ pipe_size
    → length src ≤ size
    → let sent = (write (pos (t.count * 2 + 1)) src (create t).1).1 in
      let got = read (pos (t.count * 2)) size sent in
      (got.0 ≡ returned (pos (length src)) src) × (entry got.1 t.count ≡ some (false, []))
write-read {t} src size v h some_src fits room =
    let i = t.count in
    let r = pos (i * 2) in
    let w = pos (i * 2 + 1) in
    let (_, opens, opens', entries, v1) = create_lem v h in
    let here : (i == i) ≡ true = ground arith in
    let fresh = entries i ∙ ap (λ b. if b then some (false, []) else entry t i) here in
    let (_, full, v2) =
      at_entry (create t).1 i (put_bytes src) (write w src (create t).1) (false, [])
        (write_lem w (create t).1 i v1 opens' src) fresh in
    let sent = (write w src (create t).1).1 in
    let full' = full ∙ ap (λ (o : Outcome × View). some o.1) (put_fits src fits) in
    let still = pipe_id-count r (create t).1 sent (sym (write-count w src (create t).1)) ∙ opens in
    let (out, left, _) =
      at_entry sent i (take_bytes size) (read r size sent) (false, src)
        (read_lem r sent i v2 still size) full' in
    let whole = take_whole size src some_src room in
    (
      out ∙ ap (λ (o : Outcome × View). o.0) whole,
      left ∙ ap (λ (o : Outcome × View). some o.1) whole,
    )
