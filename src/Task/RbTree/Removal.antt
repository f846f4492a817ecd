-- ===== src/Task/RbTree/Removal.antt =====
-- What `RbErase` does to the sorted list, and where its loop starts.
use info.Prelude.{
  ℕ, subst, zero, suc, ◌+◌, ◌≤◌, ◌<◌, ◌≡◌, refl, sym, ap, ◌∙◌, ◌≢◌, inl, inr, Bool, true, false,
  List, [], ◌∷◌, ◌++◌, append_assoc, arith, ◌==◌, if◌then◌else◌, Bool-cases, length, All,
}
use info.Task.RbTree.{left, right, Rq, find_leftmost, unlink}
use info.Task.RbTree.Trees.{
  Tree, leaf, node, fork, plug, Ctx, top, under, root, above, count, At, Around, Zip, is_self,
}
use info.Task.RbTree.Fixup.{depth}
use info.Task.RbTree.Keys.{keys, size, size-fork, before, after, keys-plug}
use info.Task.RbTree.Insert.{first, find_leftmost_lem}
use info.Task.RbTree.Sorting.{Sorted, times, times-append}
use info.Task.RbTree.Lift.{unleft}
use info.Task.RbTree.Erase.{without, unlink-Zip, keys-without}
use info.Task.RbTree.Places.{count-plug}
use info.Task.RbTree.Repair.{Climbs, parent_there}

-- A list of processes without one.
unfoldable pub remove : ℕ → List ℕ → List ℕ
remove n [] = []
remove n (k ∷ ks) = let rest = remove n ks in if n == k then ks else k ∷ rest

pub remove-append : (n : ℕ) (a b : List ℕ) → times n a ≡ 0 → remove n (a ++ n ∷ b) ≡ a ++ b
unfolding remove times
remove-append n [] b gone = let self : (n == n) ≡ true = ground arith in rw self refl
remove-append n (k ∷ a) b gone =
    let other : (n == k) ≡ false = ground (arith, gone) in
    rw other (ap (λ l. k ∷ l) (remove-append n a b (omega (arith, gone))))

All-remove : (P : ℕ → Type 0) (n : ℕ) (ks : List ℕ) → All P ks → All P (remove n ks)
unfolding remove
All-remove P n [] h = tt
All-remove P n (k ∷ ks) h = elim (Bool-cases (n == k)) [
  | inl e ↦ rw e h.1
  | inr e ↦ rw e (h.0, All-remove P n ks h.1)
]

pub Sorted-remove : (v : ℕ → ℕ) (n : ℕ) (ks : List ℕ) → Sorted v ks → Sorted v (remove n ks)
unfolding remove Sorted
Sorted-remove v n [] s = tt
Sorted-remove v n (k ∷ ks) s = elim (Bool-cases (n == k)) [
  | inl e ↦ rw e s.1
  | inr e ↦ rw e (All-remove (λ j. v k ≤ v j) n ks s.0, Sorted-remove v n ks s.1)
]

pub length-remove : (n : ℕ) (ks : List ℕ) → 0 < times n ks → length ks ≡ suc (length (remove n ks))
unfolding remove times
length-remove n [] has = absurd (omega arith)
length-remove n (k ∷ ks) has = elim (Bool-cases (n == k)) [
  | inl e ↦ rw e refl
  | inr e ↦
      let later : 0 < times n ks = ground (arith, has, e) in
      rw e (omega (arith, length-remove n ks later))
]

assoc_at : (a l r e : List ℕ) (n : ℕ) → (a ++ (l ++ (n ∷ r))) ++ e ≡ (a ++ l) ++ (n ∷ (r ++ e))
assoc_at a l r e n = simp (append_assoc)

assoc_gap : (a l r e : List ℕ) → (a ++ l) ++ (r ++ e) ≡ (a ++ (l ++ r)) ++ e
assoc_gap a l r e = simp (append_assoc)

-- The processes of the tree without one.
pub keys-removed :
    (c : Ctx) (d : Bool) (l r : Tree) (n : ℕ)
    → times n (keys (plug c (node d l n r))) ≤ 1
    → keys (plug c (without d l r)) ≡ remove n (keys (plug c (node d l n r)))
unfolding keys times
keys-removed c d l r n once =
    let shape : keys (plug c (node d l n r)) ≡ (before c ++ keys l) ++ (n ∷ (keys r ++ after c)) =
      keys-plug c (node d l n r) ∙ assoc_at (before c) (keys l) (keys r) (after c) n in
    let split = times-append n (before c ++ keys l) (n ∷ (keys r ++ after c)) in
    let gone : times n (before c ++ keys l) ≡ 0 =
      omega (arith, split, is_self n, once, ap (times n) shape) in
    keys-plug c (without d l r)
    ∙ ap (λ m. before c ++ m ++ after c) (keys-without d l r)
    ∙ sym (assoc_gap (before c) (keys l) (keys r) (after c))
    ∙ sym (remove-append n (before c ++ keys l) (keys r ++ after c) gone)
    ∙ ap (remove n) (sym shape)

pub depth-plug : (c : Ctx) (t : Tree) → depth c + size t ≤ size (plug c t)
unfolding depth plug
depth-plug top t = omega arith
depth-plug (under sd b k far up) t =
    omega (arith, depth-plug up (fork sd b t k far), size-fork sd b t k far)

Climbs-more : (f : ℕ → ℕ) (k p : ℕ) → Climbs f k p → Climbs f (suc k) p
unfolding Climbs
Climbs-more f zero p e = inl e
Climbs-more f (suc k) p (inl e) = inl e
Climbs-more f (suc k) p (inr c) = inr (Climbs-more f k (f p) c)

Climbs-ctx : (q : Rq) (x : ℕ) (c : Ctx) → Around q x c → Climbs q.parent (depth c) (above c)
unfolding Climbs Around depth
Climbs-ctx q x top a = refl
Climbs-ctx q x (under sd b k far up) a =
    inr (subst (λ m. Climbs q.parent (depth up) m) (sym a.1) (Climbs-ctx q k up a.6))

start_above :
    (c : Ctx) (t : Tree) (q : Rq) (p : ℕ)
    → p ≡ above c
    → Zip q c t
    → (p ≢ 0 → 0 < count p (plug c t)) × Climbs q.parent (suc (depth c)) p
start_above c t q p e z = (
  λ nz. subst (λ m. 0 < count m (plug c t)) (sym e) (parent_there c t (λ i. nz (e ∙ i))),
  Climbs-more q.parent (depth c) p
      (subst (Climbs q.parent (depth c)) (sym e) (Climbs-ctx q (root t) c z.around)),
)

start_at :
    (c : Ctx) (d : Bool) (l r : Tree) (q : Rq) (p y : ℕ)
    → p ≡ y
    → Zip q c (node d l y r)
    → (p ≢ 0 → 0 < count p (plug c (node d l y r))) × Climbs q.parent (suc (depth c)) p
unfolding At Climbs count
start_at c d l r q p y e z =
    let up = subst (Climbs q.parent (depth c)) (sym z.inside.1) (Climbs-ctx q y c z.around) in
    (
      λ nz.
          subst (λ m. 0 < count m (plug c (node d l y r))) (sym e)
            (omega (arith, count-plug y c (node d l y r), is_self y)),
      subst (Climbs q.parent (suc (depth c))) (sym e) (inr up),
    )

-- Where the loop starts: at a process of the tree, or nowhere.
pub unlink-start :
    (rounds : ℕ) (c : Ctx) (d : Bool) (l r : Tree) (n : ℕ) (q : Rq)
    → size r < rounds
    → Zip q c (node d l n r)
    → let out = unlink rounds n q in
      (out.2 ≢ 0 → 0 < count out.2 (plug c (without d l r)))
      × Climbs out.0.parent (suc (depth c)) out.2
unfolding At unlink without
unlink-start rounds c d leaf r n q enough z =
    let a = z.inside in
    let no : (q.child left n == 0) ≡ true = ground (arith, a.3) in
    let parent_is : (unlink rounds n q).2 ≡ q.parent n = rw no refl in
    start_above c r (unlink rounds n q).0 (unlink rounds n q).2 (parent_is ∙ a.1)
      (unlink-Zip rounds c d leaf r n q enough z)
unlink-start rounds c d (node dl ll kl rl) leaf n q enough z =
    let l : Tree = node dl ll kl rl in
    let a = z.inside in
    let some_left : (q.child left n == 0) ≡ false = ground (arith, a.3, a.5.0) in
    let no : (q.child right n == 0) ≡ true = ground (arith, a.4) in
    let parent_is : (unlink rounds n q).2 ≡ q.parent n = rw (some_left, no) refl in
    start_above c l (unlink rounds n q).0 (unlink rounds n q).2 (parent_is ∙ a.1)
      (unlink-Zip rounds c d l leaf n q enough z)
unlink-start rounds c d (node dl ll kl rl) (node dr lr kr rr) n q enough z =
    let l : Tree = node dl ll kl rl in
    let r : Tree = node dr lr kr rr in
    let a = z.inside in
    let some_left : (q.child left n == 0) ≡ false = ground (arith, a.3, a.5.0) in
    let some_right : (q.child right n == 0) ≡ false = ground (arith, a.4, a.6.0) in
    let found : find_leftmost rounds (q.child right n) q ≡ first (keys r) =
      ap (λ x. find_leftmost rounds x q) a.4 ∙ find_leftmost_lem rounds n r q enough a.6.0 a.6 in
    let parent_is : (unlink rounds n q).2 ≡ find_leftmost rounds (q.child right n) q =
      rw (some_left, some_right) refl in
    start_at c d l (unleft r) (unlink rounds n q).0 (unlink rounds n q).2 (first (keys r))
      (parent_is ∙ found) (unlink-Zip rounds c d l r n q enough z)
