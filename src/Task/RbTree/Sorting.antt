-- ===== src/Task/RbTree/Sorting.antt =====
-- What a run queue promises: the processes sorted by their virtual run times.
use info.Prelude.{
  ℕ, ◌+◌, ◌≤◌, ◌≡◌, refl, sym, ap, ◌∙◌, inl, inr, true, false, List, [], ◌∷◌, ◌++◌, append_assoc,
  arith, ltb, if◌then◌else◌, Bool-cases, length, length-append, All,
}
use info.Task.RbTree.{left, right}
use info.Task.RbTree.Trees.{Tree, leaf, node, Ctx, under, count, is}
use info.Task.RbTree.Keys.{size, keys, before, after}
use info.Task.RbTree.Ways.{way}

-- A process in its place, after those with the same virtual run time.
unfoldable pub insert_by : (ℕ → ℕ) → ℕ → List ℕ → List ℕ
insert_by v n [] = n ∷ []
insert_by v n (k ∷ ks) =
    let rest = insert_by v n ks in if ltb (v n) (v k) then n ∷ k ∷ ks else k ∷ rest

unfoldable pub Sorted : (ℕ → ℕ) → List ℕ → Type 0
Sorted v [] = Unit {0}
Sorted v (k ∷ ks) = All (λ j. v k ≤ v j) ks × Sorted v ks

-- How often a process is in a list.
unfoldable pub times : ℕ → List ℕ → ℕ
times n [] = 0
times n (k ∷ ks) = is n k + times n ks

pub times-append : (n : ℕ) (a b : List ℕ) → times n (a ++ b) ≡ times n a + times n b
unfolding times
times-append n [] b = omega arith
times-append n (k ∷ a) b = omega (arith, times-append n a b)

pub count-times : (n : ℕ) (t : Tree) → count n t ≡ times n (keys t)
unfolding count times keys
count-times n leaf = refl
count-times n (node c l k r) =
    omega (arith, times-append n (keys l) (k ∷ keys r), count-times n l, count-times n r)

pub size-keys : (t : Tree) → size t ≡ length (keys t)
unfolding size keys
size-keys leaf = refl
size-keys (node c l k r) =
    omega (arith, length-append (keys l) (k ∷ keys r), size-keys l, size-keys r)

insert_by-less :
    (v : ℕ → ℕ) (n k : ℕ) (a b : List ℕ)
    → ltb (v n) (v k) ≡ true
    → insert_by v n (a ++ k ∷ b) ≡ insert_by v n a ++ k ∷ b
unfolding insert_by
insert_by-less v n k [] b less = rw less refl
insert_by-less v n k (y ∷ a) b less = elim (Bool-cases (ltb (v n) (v y))) [
  | inl here ↦ rw here refl
  | inr on ↦ rw on (ap (λ l. y ∷ l) (insert_by-less v n k a b less))
]

All-here : (P : ℕ → Type 0) (a : List ℕ) (k : ℕ) (b : List ℕ) → All P (a ++ k ∷ b) → P k
All-here P [] k b h = h.0
All-here P (y ∷ a) k b h = All-here P a k b h.1

insert_by-more :
    (v : ℕ → ℕ) (n k : ℕ) (a b : List ℕ)
    → Sorted v (a ++ k ∷ b)
    → ltb (v n) (v k) ≡ false
    → insert_by v n (a ++ k ∷ b) ≡ a ++ k ∷ insert_by v n b
unfolding insert_by Sorted
insert_by-more v n k [] b s more = rw more refl
insert_by-more v n k (y ∷ a) b s more =
    let le : v y ≤ v k = All-here (λ j. v y ≤ v j) a k b s.0 in
    let on : ltb (v n) (v y) ≡ false = ground (arith, le, more) in
    rw on (ap (λ l. y ∷ l) (insert_by-more v n k a b s.1 more))

Sorted-right : (v : ℕ → ℕ) (a b : List ℕ) → Sorted v (a ++ b) → Sorted v b
unfolding Sorted
Sorted-right v [] b s = s
Sorted-right v (y ∷ a) b s = Sorted-right v a b s.1

All-left : (P : ℕ → Type 0) (a b : List ℕ) → All P (a ++ b) → All P a
All-left P [] b h = tt
All-left P (y ∷ a) b h = (h.0, All-left P a b h.1)

Sorted-left : (v : ℕ → ℕ) (a b : List ℕ) → Sorted v (a ++ b) → Sorted v a
unfolding Sorted
Sorted-left v [] b s = tt
Sorted-left v (y ∷ a) b s = (All-left (λ j. v y ≤ v j) a b s.0, Sorted-left v a b s.1)

assoc_less : (a b m e : List ℕ) (k : ℕ) → (a ++ b) ++ (k ∷ (m ++ e)) ≡ (a ++ (b ++ (k ∷ m))) ++ e
assoc_less a b m e k = simp (append_assoc)

assoc_more :
    (a b m e : List ℕ) (k : ℕ) → (((a ++ b) ++ (k ∷ [])) ++ m) ++ e ≡ (a ++ (b ++ (k ∷ m))) ++ e
assoc_more a b m e k = simp (append_assoc)

-- The place that the way leads to is the one in the sorted list.
pub way-insert_by :
    (v : ℕ → ℕ) (n : ℕ) (c : Ctx) (t : Tree)
    → Sorted v (keys t)
    → let d = way v n c t in before d ++ n ∷ after d ≡ before c ++ insert_by v n (keys t) ++ after c
unfolding way keys before after insert_by Sorted
way-insert_by v n c leaf s = simp (append_assoc)
way-insert_by v n c (node d l k r) s =
    let below = way-insert_by v n (under left d k r c) l (Sorted-left v (keys l) (k ∷ keys r) s) in
    let over =
      way-insert_by v n (under right d k l c) r (Sorted-right v (keys l) (k ∷ keys r) s).1 in
    let whole : List ℕ → List ℕ = λ m. before c ++ m ++ after c in
    elim (Bool-cases (ltb (v n) (v k))) [
      | inl less ↦
          let inside = insert_by-less v n k (keys l) (keys r) less in
          let assoc = assoc_less (before c) (insert_by v n (keys l)) (keys r) (after c) k in
          rw less (below ∙ assoc ∙ ap whole (sym inside))
      | inr more ↦
          let inside = insert_by-more v n k (keys l) (keys r) s more in
          let assoc = assoc_more (before c) (keys l) (insert_by v n (keys r)) (after c) k in
          rw more (over ∙ assoc ∙ ap whole (sym inside))
    ]

All-le :
    (v : ℕ → ℕ) (n k : ℕ) (ks : List ℕ)
    → v n ≤ v k
    → All (λ j. v k ≤ v j) ks
    → All (λ j. v n ≤ v j) ks
All-le v n k [] le h = tt
All-le v n k (y ∷ ks) le h = (omega (arith, h.0), All-le v n k ks le h.1)

All-insert_by :
    (v : ℕ → ℕ) (k n : ℕ) (ks : List ℕ)
    → v k ≤ v n
    → All (λ j. v k ≤ v j) ks
    → All (λ j. v k ≤ v j) (insert_by v n ks)
unfolding insert_by
All-insert_by v k n [] le h = (le, tt)
All-insert_by v k n (y ∷ ks) le h = elim (Bool-cases (ltb (v n) (v y))) [
  | inl less ↦ rw less (le, h)
  | inr more ↦ rw more (h.0, All-insert_by v k n ks le h.1)
]

pub Sorted-insert_by : (v : ℕ → ℕ) (n : ℕ) (ks : List ℕ) → Sorted v ks → Sorted v (insert_by v n ks)
unfolding Sorted insert_by
Sorted-insert_by v n [] s = (tt, tt)
Sorted-insert_by v n (k ∷ ks) s = elim (Bool-cases (ltb (v n) (v k))) [
  | inl less ↦
      let le : v n ≤ v k = ground (arith, less) in rw less ((le, All-le v n k ks le s.0), s)
  | inr more ↦
      let le : v k ≤ v n = ground (arith, more) in
      rw more (All-insert_by v k n ks le s.0, Sorted-insert_by v n ks s.1)
]
