-- ===== src/Task/RbTree/EraseQueue.antt =====
-- `RbErase` on the run queue as a sorted list of processes.
use info.Prelude.{
  ℕ, subst, suc, ◌+◌, ◌≤◌, ◌<◌, ◌≡◌, refl, sym, ap, ◌∙◌, ◌≢◌, Bool, true, false, ◌||◌, List, arith,
  ◌==◌, if◌then◌else◌, length,
}
use info.Task.RbTree.{
  left, Rq, Fixed, fixed, fault, unfinished, erase_fixup, unlink, after_erase, rb_erase,
  find_leftmost,
}
use info.Task.RbTree.Trees.{
  Tree, leaf, node, fork, plug, Ctx, root, count_ctx, At, Around, Zip, AgreeAt, At-Agree,
}
use info.Task.RbTree.Fixup.{depth}
use info.Task.RbTree.Moves.{Zip-plug}
use info.Task.RbTree.Keys.{keys, size, size-fork}
use info.Task.RbTree.Insert.{first, find_leftmost_lem}
use info.Task.RbTree.Sorting.{Sorted, times, count-times, size-keys}
use info.Task.RbTree.Queue.{IsQueue}
use info.Task.RbTree.Erase.{without, unlink-Zip}
use info.Task.RbTree.Places.{Holds, Place-of}
use info.Task.RbTree.Kept.{Outcome}
use info.Task.RbTree.Repair.{fixup_Outcome}
use info.Task.RbTree.Removal.{
  remove, keys-removed, Sorted-remove, length-remove, depth-plug, unlink-start,
}

first_found :
    (rounds : ℕ) (t : Tree) (q : Rq)
    → size t < rounds
    → q.rb_root ≡ root t
    → At q 0 t
    → (if q.rb_root == 0 then 0 else find_leftmost rounds q.rb_root q) ≡ first (keys t)
unfolding keys first At
first_found rounds leaf q enough e a = let no : (q.rb_root == 0) ≡ true = ground arith in rw no refl
first_found rounds (node d l k r) q enough e a =
    let full : (q.rb_root == 0) ≡ false = ground (arith, a.0) in
    rw full (
      ap (λ x. find_leftmost rounds x q) e
      ∙ find_leftmost_lem rounds 0 (node d l k r) q enough a.0 a)

-- The end of `RbErase` finds the first process, if there is one.
after_Queue :
    (rounds : ℕ) (v : ℕ → ℕ) (q : Rq) (ks : List ℕ)
    → Holds q ks
    → Sorted v ks
    → length ks < rounds
    → IsQueue v (after_erase rounds v q) ks
unfolding after_erase Around AgreeAt
after_Queue rounds v q ks h s enough = record {
  tree = h.tree;
  zip = record {
    around = h.zip.around;
    inside =
        At-Agree q (after_erase rounds v q) 0 h.tree (λ k i. (refl, refl, refl, refl)) h.zip.inside;
    once = h.zip.once;
  };
  in_order = h.in_order;
  sorted = s;
  leftmost_is =
      first_found rounds h.tree q (omega (arith, enough, size-keys h.tree, ap length h.in_order))
        h.zip.around h.zip.inside
      ∙ ap first h.in_order;
}

-- What comes of `RbErase`: the queue of the processes, or a null pointer.
abbrev pub Erased : (ℕ → ℕ) → List ℕ → Type 0 → Fixed → Type 0
Erased v ks called (fixed q) = IsQueue v q ks
Erased v ks called fault = called
Erased v ks called unfinished = ⊥

-- The two ways that the loop may be called, and the end.
finish :
    (rounds : ℕ) (v : ℕ → ℕ) (ks : List ℕ) (called : Type 0) (f : Fixed)
    → Sorted v ks
    → length ks < rounds
    → Outcome ks f
    → called
    → Erased v ks called (elim f [
      | fixed q ↦ fixed (after_erase rounds v q)
      | fault ↦ fault
      | unfinished ↦ unfinished
    ])
finish rounds v ks called (fixed q) s enough h c = after_Queue rounds v q ks h s enough
finish rounds v ks called fault s enough h c = c
finish rounds v ks called unfinished s enough h c = h

finish_if :
    (rounds : ℕ) (v : ℕ → ℕ) (ks : List ℕ) (called : Type 0) (b : Bool) (q : Rq) (f : Fixed)
    → Sorted v ks
    → length ks < rounds
    → Holds q ks
    → (b ≡ false → Outcome ks f × called)
    → Erased v ks called (elim (if b then fixed q else f) [
      | fixed r ↦ fixed (after_erase rounds v r)
      | fault ↦ fault
      | unfinished ↦ unfinished
    ])
finish_if rounds v ks called true q f s enough h next = after_Queue rounds v q ks h s enough
finish_if rounds v ks called false q f s enough h next =
    finish rounds v ks called f s enough (next refl).0 (next refl).1

skip :
    (v : ℕ → ℕ) (ks : List ℕ) (called : Type 0) (b : Bool) (f g : Fixed)
    → b ≡ false
    → Erased v ks called g
    → Erased v ks called (if b then f else g)
skip v ks called b f g e h = subst (λ a. Erased v ks called (if a then f else g)) (sym e) h

or_false : (a b : Bool) → (a || b) ≡ false → (a ≡ false) × (b ≡ false)
or_false true b e = ground (arith, e)
or_false false b e = (refl, e)

-- The links without the process, and the calls of the loop from there.
unlinked :
    (rounds : ℕ) (c : Ctx) (d : Bool) (l r : Tree) (n : ℕ) (q : Rq) (ks : List ℕ)
    → size r < rounds
    → suc (suc (depth c)) < rounds
    → keys (plug c (without d l r)) ≡ ks
    → Zip q c (node d l n r)
    → let (links, x, x_parent, was_red) = unlink rounds n q in
      Holds links ks × Outcome ks (erase_fixup rounds x x_parent links)
unlinked rounds c d l r n q ks enough deep e z =
    let t : Tree = without d l r in
    let (links, x, x_parent, was_red) = unlink rounds n q in
    let h : Holds (unlink rounds n q).0 ks = record {
      tree = plug c t;
      zip = Zip-plug (unlink rounds n q).0 c t (unlink-Zip rounds c d l r n q enough z);
      in_order = e;
    } in
    let (inn, climbs) = unlink-start rounds c d l r n q enough z in
    (
      h,
      fixup_Outcome (suc (depth c)) rounds x x_parent (unlink rounds n q).0 ks h
          (λ nz.
            subst (λ m. 0 < m) (count-times x_parent (plug c t) ∙ ap (times x_parent) e) (inn nz))
          climbs deep,
    )

-- If the links are those of a tree of the processes of a list in order, the list is sorted by
-- the virtual run times and leftmost is its first process, then RbErase of a process of the
-- list, with more rounds than it has processes and one, either returns links of such a tree for
-- the list without the process, with leftmost its first; or reads through a null pointer, and
-- then only in RbEraseColorFixup, which is called if what leaves its place, the process or its
-- successor, is black and has a child. Its loops always end.
pub rb_erase-IsQueue :
    (rounds : ℕ) (v : ℕ → ℕ) (n : ℕ) (ks : List ℕ) (q : Rq)
    → n ≢ 0
    → 0 < times n ks
    → suc (length ks) < rounds
    → IsQueue v q ks
    → let (links, x, x_parent, was_red) = unlink rounds n q in
      Erased v (remove n ks) ((x ≢ 0) × (was_red ≡ false)) (rb_erase rounds v n q)
unfolding rb_erase fork count_ctx plug
rb_erase-IsQueue rounds v n ks q nz has enough queue =
    let holds : Holds q ks = record {
      tree = queue.tree;
      zip = queue.zip;
      in_order = queue.in_order;
    } in
    let at = Place-of q ks left n holds has in
    let c : Ctx = at.ctx in
    let t : Tree = node at.red at.near n at.far in
    let ks' : List ℕ = remove n ks in
    let once : times n (keys (plug c t)) ≤ 1 =
      omega (arith, (Zip-plug q c t at.zip).once n, count-times n (plug c t)) in
    let order : keys (plug c (without at.red at.near at.far)) ≡ ks' =
      keys-removed c at.red at.near at.far n once ∙ ap (remove n) at.in_order in
    let shorter = length-remove n ks has in
    let long : size (plug c t) ≡ length ks = size-keys (plug c t) ∙ ap length at.in_order in
    let deep = depth-plug c t in
    let parts : size t ≡ suc (size at.near + size at.far) =
      size-fork left at.red at.near n at.far in
    let (links, x, x_parent, was_red) = unlink rounds n q in
    let (h, looped) =
      unlinked rounds c at.red at.near at.far n q ks' (omega (arith, long, deep, parts, enough))
        (omega (arith, long, deep, parts, enough)) order at.zip in
    let called : Type 0 = (x ≢ 0) × (was_red ≡ false) in
    skip v ks' called (n == 0) (fixed q) _ (ground arith) (
      finish_if rounds v ks' called (x == 0 || was_red) links (erase_fixup rounds x x_parent links)
        (Sorted-remove v n ks queue.sorted) (omega (arith, shorter, enough)) h
        (λ goes.
          let (some_x, black) = or_false (x == 0) was_red goes in
          (looped, (λ e. ground (arith, some_x, e), black))))
