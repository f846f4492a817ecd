-- ===== src/Task/Pipe/Table.antt =====
-- The table of pipes and its descriptors: `2 * i` and `2 * i + 1` are the ends of entry `i`.
use info.Prelude.{
  ℕ, zero, suc, ◌≤◌, ◌<◌, ◌≡◌, refl, ap, ◌∙◌, inl, inr, Option, some, List, [], ◌∷◌, arith, ◌==◌,
  if◌then◌else◌, Option-cases, length, get_elem?, set, length-set, length-replicate, All,
  All-get_elem?, All-set, All-replicate, get_elem?-some,
}
use mathlib.Core.Option
use info.Prelude.Int.{ℤ, pos, negsuc}
use info.Task.Pipe.{
  Pipe, Pipes, pipe_size, max_pipes, Outcome, reset, update, create, read_pipe, write_pipe,
  close_pipe, pipe_id, on_entry, empty_pipe, boot, read, write, close,
}
use info.Task.Pipe.Fifo.{IsValid, View, view, take_bytes, put_bytes, Refines}
use info.Task.Pipe.Reads.{read_pipe-Refines}
use info.Task.Pipe.Writes.{write_pipe-Refines}

pub record IsTable (t : Pipes) : Type 0 where
  pub entries : length t.table ≡ max_pipes
  pub count_in : t.count ≤ max_pipes
  pub valid : All IsValid t.table

-- What the descriptors of entry `i` reach.
abbrev pub entry : Pipes → ℕ → Option View
entry t i = Option.map view (get_elem? t.table i)

empty-IsValid : IsValid empty_pipe
unfolding empty_pipe
empty-IsValid = record {
  storage = length-replicate {A = ℕ} pipe_size 0;
  read_in = omega arith;
  size_in = omega arith;
  write_at = omega arith;
}

reset-IsValid : (p : Pipe) → IsValid p → IsValid (reset p)
unfolding reset
reset-IsValid p v = omega arith

close-IsValid : (p : Pipe) → IsValid p → IsValid (close_pipe p)
unfolding close_pipe
close-IsValid p v = omega arith

update-All :
    (f : Pipe → Pipe) (ps : List Pipe) (i : ℕ)
    → ((p : Pipe) → IsValid p → IsValid (f p))
    → All IsValid ps
    → All IsValid (update i f ps)
update-All f [] i k h = h
update-All f (p ∷ ps) zero k h = (k p h.0, h.1)
update-All f (p ∷ ps) (suc i) k h = (h.0, update-All f ps i k h.1)

length-update : (f : Pipe → Pipe) (ps : List Pipe) (i : ℕ) → length (update i f ps) ≡ length ps
length-update f [] i = refl
length-update f (p ∷ ps) zero = refl
length-update f (p ∷ ps) (suc i) = ap suc (length-update f ps i)

pub get_elem?-update :
    (f : Pipe → Pipe) (ps : List Pipe) (i j : ℕ)
    → get_elem? (update i f ps) j
      ≡ (if i == j then Option.map f (get_elem? ps j) else get_elem? ps j)
get_elem?-update f [] i j = ground arith
get_elem?-update f (p ∷ ps) zero zero = refl
get_elem?-update f (p ∷ ps) zero (suc j) = ground arith
get_elem?-update f (p ∷ ps) (suc i) zero = ground arith
get_elem?-update f (p ∷ ps) (suc i) (suc j) = ground (arith, get_elem?-update f ps i j)

pub boot-IsTable : IsTable boot
unfolding boot
boot-IsTable = record {
  entries = length-replicate max_pipes empty_pipe;
  count_in = omega arith;
  valid = All-replicate IsValid max_pipes empty_pipe empty-IsValid;
}

pub create-IsTable : {t : Pipes} → IsTable t → IsTable (create t).1
unfolding create
create-IsTable {t} v = ground (
  arith,
  length-update reset t.table t.count,
  update-All reset t.table t.count reset-IsValid v.valid,
)

-- PipeClose, of any descriptor, keeps the table of pipes well formed.
close-IsTable : (fd : ℤ) {t : Pipes} → IsTable t → IsTable (close fd t)
unfolding close
close-IsTable fd {t} v = elim (Option-cases (pipe_id fd t)) [
  | inl bad ↦ rw (bad, close) v
  | inr (i, e) ↦
      rw (e, close)
        (record {
          entries = length-update close_pipe t.table i ∙ v.entries;
          count_in = v.count_in;
          valid = update-All close_pipe t.table i close-IsValid v.valid;
        })
]

-- A descriptor that passes the guards names an entry that has been created.
pipe_id-lt : (fd : ℤ) (t : Pipes) (i : ℕ) → pipe_id fd t ≡ some i → i < t.count
unfolding pipe_id
pipe_id-lt (pos fd) t i e = ground arith
pipe_id-lt (negsuc n) t i e = cc

get_elem?-set_if :
    (ps : List Pipe) (i j : ℕ) (p : Pipe)
    → i < length ps
    → get_elem? (set ps i p) j ≡ (if i == j then some p else get_elem? ps j)
get_elem?-set_if [] i j p h = absurd (omega arith)
get_elem?-set_if (q ∷ ps) zero zero p h = refl
get_elem?-set_if (q ∷ ps) zero (suc j) p h = ground arith
get_elem?-set_if (q ∷ ps) (suc i) zero p h = ground arith
get_elem?-set_if (q ∷ ps) (suc i) (suc j) p h = ground (arith, get_elem?-set_if ps i j p)

-- A call through a descriptor of entry `i`: its outcome and what it leaves are the abstract pipe's,
-- and no other entry changes.
abbrev pub ActsOn : Pipes → ℕ → (View → Outcome × View) → Outcome × Pipes → Type 0
ActsOn t i spec out =
    (c : View) × (entry t i ≡ some c)
    × (out.0 ≡ (spec c).0)
    × ((j : ℕ) → entry out.1 j ≡ (if i == j then some (spec c).1 else entry t j))
    × IsTable out.1

module _ (f : Pipe → Outcome × Pipe) (spec : View → Outcome × View)
    (refines : (p : Pipe) → IsValid p → Refines (f p) (spec (view p))) where
  on_entry-some :
      (t : Pipes) (i : ℕ) (p : Pipe)
      → get_elem? t.table i ≡ some p
      → on_entry i f t ≡ ((f p).0, record t { table = set t.table i (f p).1 })
  on_entry-some t i p e = rw (e, on_entry)

  entry-set :
      (ps : List Pipe) (i j : ℕ) (p : Pipe)
      → i < length ps
      → Option.map view (get_elem? (set ps i p) j)
        ≡ (if i == j then some (view p) else Option.map view (get_elem? ps j))
  entry-set ps i j p h = rw (get_elem?-set_if ps i j p h) (ground arith)

  on_entry-ActsOn :
      (t : Pipes) (i : ℕ) → IsTable t → i < length t.table → ActsOn t i spec (on_entry i f t)
  on_entry-ActsOn t i v h =
      let (p, e) = get_elem?-some t.table i h in
      let r = refines p (All-get_elem? IsValid t.table i v.valid e) in
      rw (on_entry-some t i p e) (
        view p,
        ap (Option.map view) e,
        ap (λ (o : Outcome × View). o.0) r.0,
        λ j.
            entry-set t.table i j (f p).1 h
            ∙ ap (λ (o : Outcome × View). if i == j then some o.1 else entry t j) r.0,
        record {
          entries = length-set t.table i (f p).1 ∙ v.entries;
          count_in = v.count_in;
          valid = All-set IsValid t.table i (f p).1 v.valid r.1;
        },
      )

module _ (fd : ℤ) (t : Pipes) (i : ℕ) (v : IsTable t) (opens : pipe_id fd t ≡ some i) where
  entry_in : i < length t.table
  entry_in = omega (arith, pipe_id-lt fd t i opens, v.entries, v.count_in)

  -- PipeRead through a descriptor that reaches entry i of a well-formed table: its outcome
  -- (bytes and count, 0 at the end of a closed pipe, or blocked on an empty open one, and never
  -- out of fuel) and the contents it leaves are those of the abstract bounded queue, no other
  -- entry changes, and the table stays well formed.
  pub read_lem : (size : ℕ) → ActsOn t i (take_bytes size) (read fd size t)
  unfolding read
  read_lem size =
      rw (opens, read)
        (on_entry-ActsOn (read_pipe size) (take_bytes size) (λ p. read_pipe-Refines size) t i v
          entry_in)

  -- PipeWrite through a descriptor that reaches entry i of a well-formed table: its outcome (the
  -- count of bytes that fit, -1 on a closed pipe, or blocked on a full open one, and never out
  -- of fuel) and the contents it leaves are those of the abstract bounded queue, no other entry
  -- changes, and the table stays well formed.
  pub write_lem : (src : List ℕ) → ActsOn t i (put_bytes src) (write fd src t)
  unfolding write
  write_lem src =
      rw (opens, write)
        (on_entry-ActsOn (write_pipe src) (put_bytes src) (λ p. write_pipe-Refines src) t i v
          entry_in)
