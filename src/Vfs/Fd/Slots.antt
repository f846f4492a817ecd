-- ===== src/Vfs/Fd/Slots.antt =====
-- Entries of a descriptor table.
use info.Prelude.{
  ℕ, zero, suc, ◌+◌, ◌≤◌, ◌<◌, ◌≡◌, refl, sym, ap, ◌∙◌, inl, inr, true, false, ◌&&◌, none, some, [],
  ◌∷◌, arith, ltb, ◌==◌, if◌then◌else◌, ==_iff, Bool-cases, length, set,
}
use info.Prelude.Int.{pos}
use info.Vfs.Fd.{max_fd, FileDescriptor, Fds, slot, find_free, in_use}

pub slot-set :
    (t : Fds) (i j : ℕ) (d : FileDescriptor)
    → i < length t
    → slot (set t i d) j ≡ (if i == j then d else slot t j)
slot-set [] i j d h = absurd (omega arith)
slot-set (x ∷ t) zero zero d h = refl
slot-set (x ∷ t) zero (suc j) d h = ground arith
slot-set (x ∷ t) (suc i) zero d h = ground arith
slot-set (x ∷ t) (suc i) (suc j) d h = ground (arith, slot-set t i j d)

-- What the search finds: the first entry in its range that is not in use.
pub find_free-some :
    (rounds i : ℕ) (t : Fds) (fd : ℕ)
    → find_free rounds i t ≡ some fd
    → (i ≤ fd)
      × (fd < i + rounds)
      × ((slot t fd).used ≡ false)
      × ((j : ℕ) → i ≤ j → j < fd → (slot t j).used ≡ true)
unfolding find_free
find_free-some zero i t fd h = cc
find_free-some (suc rounds) i t fd h = elim (Bool-cases (slot t i).used) [
  | inl taken ↦
      let (lo, hi, free, below) = find_free-some rounds (i + 1) t fd (ground arith) in
      (
        omega arith,
        omega arith,
        free,
        λ j a b. elim (Bool-cases (i == j)) [
          | inl here ↦ ap (λ k. (slot t k).used) (sym ((==_iff i j).0 here)) ∙ taken
          | inr other ↦ below j (ground arith) b
        ],
      )
  | inr open_slot ↦
      let here : i ≡ fd = ground arith in
      (
        omega arith,
        omega arith,
        ap (λ k. (slot t k).used) (sym here) ∙ open_slot,
        λ j a b. absurd (omega arith),
      )
]

pub find_free-none :
    (rounds i : ℕ) (t : Fds)
    → find_free rounds i t ≡ none
    → (j : ℕ) → i ≤ j
    → j < i + rounds
    → (slot t j).used ≡ true
unfolding find_free
find_free-none zero i t h j lo hi = absurd (omega arith)
find_free-none (suc rounds) i t h j lo hi = elim (Bool-cases (slot t i).used) [
  | inl taken ↦ elim (Bool-cases (i == j)) [
    | inl here ↦ ap (λ k. (slot t k).used) (sym ((==_iff i j).0 here)) ∙ taken
    | inr other ↦ find_free-none rounds (i + 1) t (ground arith) j (ground arith) (omega arith)
  ]
  | inr open_slot ↦ absurd (ground arith)
]

pub in_use_iff :
    (fd : ℕ) (t : Fds)
    → in_use (pos fd) t ≡ (if ltb fd max_fd && (slot t fd).used then some fd else none)
unfolding in_use
in_use_iff fd t = ground arith
