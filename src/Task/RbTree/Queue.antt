-- ===== src/Task/RbTree/Queue.antt =====
-- The run queue as a sorted list of processes, and `RbInsert` on it.
use info.Prelude.{
  ℕ, subst, suc, ◌<◌, ◌≡◌, refl, sym, ap, ◌∙◌, ◌≢◌, inl, inr, false, List, [], ◌∷◌, ◌++◌,
  append-nil, append_assoc, arith, ltb, ◌==◌, Bool-cases, length,
}
use info.Task.RbTree.{Rq, rb_insert, after_insert, find_leftmost}
use info.Task.RbTree.Trees.{Tree, leaf, node, plug, Ctx, top, under, root, count, At, Around, Zip}
use info.Task.RbTree.Fixup.{fix}
use info.Task.RbTree.Keys.{size, keys, before, after, keys-plug, keys-fix}
use info.Task.RbTree.Ways.{way}
use info.Task.RbTree.Attach.{red_node, blacken}
use info.Task.RbTree.Insert.{place, first, find_leftmost_lem, after_Zip, repaired, rb_insert-Zip}
use info.Task.RbTree.Sorting.{
  insert_by, Sorted, times, count-times, size-keys, way-insert_by, Sorted-insert_by,
}

keys-blacken : (t : Tree) → keys (blacken t) ≡ keys t
unfolding keys
keys-blacken leaf = refl
keys-blacken (node c l k r) = refl

keys-place : (n : ℕ) (c : Ctx) → keys (place n c) ≡ before c ++ n ∷ after c
unfolding keys place before after fix plug
keys-place n top = refl
keys-place n (under sd d k far top) =
    keys-plug (under sd d k far top) (red_node n) ∙ simp (append_assoc)
keys-place n (under sd d k far (under sd' g j uncle up)) =
    let c : Ctx = under sd d k far (under sd' g j uncle up) in
    keys-blacken (fix c (red_node n))
    ∙ keys-fix c (red_node n) (omega (arith, size-keys (red_node n)))
    ∙ keys-plug c (red_node n)
    ∙ simp (append_assoc)

keys-way :
    (v : ℕ → ℕ) (n : ℕ) (t : Tree)
    → Sorted v (keys t)
    → keys (place n (way v n top t)) ≡ insert_by v n (keys t)
unfolding before after
keys-way v n t s =
    keys-place n (way v n top t) ∙ way-insert_by v n top t s ∙ append-nil (insert_by v n (keys t))

pub length-insert_by :
    (v : ℕ → ℕ) (n : ℕ) (ks : List ℕ) → length (insert_by v n ks) ≡ suc (length ks)
unfolding insert_by
length-insert_by v n [] = refl
length-insert_by v n (k ∷ ks) = elim (Bool-cases (ltb (v n) (v k))) [
  | inl less ↦ rw less refl
  | inr more ↦ rw more (omega (arith, length-insert_by v n ks))
]

-- The links are those of a tree of some processes in order, sorted by the virtual run times, and
-- `leftmost` is the first of them.
pub record IsQueue (v : ℕ → ℕ) (q : Rq) (ks : List ℕ) : Type 0 where
  pub tree : Tree
  pub zip : Zip q top tree
  pub in_order : keys tree ≡ ks
  pub sorted : Sorted v ks
  pub leftmost_is : q.leftmost ≡ first ks

pub root-size : (q : Rq) (p : ℕ) (t : Tree) → 0 < size t → At q p t → root t ≢ 0
unfolding At size
root-size q p leaf has a = absurd (omega arith)
root-size q p (node c l k r) has a = a.0

-- The end of `RbInsert` finds the first process.
after_first :
    (rounds : ℕ) (v : ℕ → ℕ) (t : Tree) (q : Rq)
    → size t < rounds
    → root t ≢ 0
    → Zip q top t
    → let q' = after_insert rounds v q in
      (q'.leftmost ≡ first (keys t)) × (q'.min_vruntime ≡ v (first (keys t)))
unfolding after_insert Around
after_first rounds v t q high nz z =
    let full : (q.rb_root == 0) ≡ false = ground (arith, nz, z.around) in
    let found : find_leftmost rounds q.rb_root q ≡ first (keys t) =
      ap (λ x. find_leftmost rounds x q) z.around
      ∙ find_leftmost_lem rounds 0 t q high nz z.inside in
    rw full (found, ap v found)

-- If the links are those of a tree of the processes of a list in order, the list is sorted by
-- the virtual run times and leftmost is its first process, then RbInsert of a process that is
-- not in it, with more rounds than it would have processes, returns links of such a tree for the
-- list with the process in its sorted place, behind those with the same time, with leftmost its
-- first process and min_vruntime the time of that.
pub rb_insert-IsQueue :
    (rounds : ℕ) (v : ℕ → ℕ) (n : ℕ) (ks : List ℕ) (q : Rq)
    → n ≢ 0
    → times n ks ≡ 0
    → suc (length ks) < rounds
    → IsQueue v q ks
    → let q' = rb_insert rounds v n q in
      IsQueue v q' (insert_by v n ks) × (q'.min_vruntime ≡ v (first (insert_by v n ks)))
rb_insert-IsQueue rounds v n ks q nz new enough queue =
    let t : Tree = queue.tree in
    let ordered = subst (Sorted v) (sym queue.in_order) queue.sorted in
    let long : size t ≡ length ks = size-keys t ∙ ap length queue.in_order in
    let gone : count n t ≡ 0 = count-times n t ∙ ap (times n) queue.in_order ∙ new in
    let t' : Tree = place n (way v n top t) in
    let q3 = repaired rounds v n t q in
    let (e, z) = rb_insert-Zip rounds v n t q nz gone (omega arith) queue.zip in
    let in_order' : keys t' ≡ insert_by v n ks =
      keys-way v n t ordered ∙ ap (insert_by v n) queue.in_order in
    let long' : size t' ≡ suc (length ks) =
      size-keys t' ∙ ap length in_order' ∙ length-insert_by v n ks in
    let nz' = root-size q3 0 t' (omega arith) z.inside in
    let (found, least) = after_first rounds v t' q3 (omega arith) nz' z in
    subst (λ r. IsQueue v r (insert_by v n ks) × (r.min_vruntime ≡ v (first (insert_by v n ks))))
      (sym e)
      (
        record {
          tree = t';
          zip = after_Zip rounds v t' q3 z;
          in_order = in_order';
          sorted = Sorted-insert_by v n ks queue.sorted;
          leftmost_is = found ∙ ap first in_order';
        },
        least ∙ ap (λ l. v (first l)) in_order',
      )
