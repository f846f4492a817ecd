-- ===== src/Task/RbTree/Fixup.antt =====
-- `RbInsertColorFixup` on the tree.
use info.Prelude.{ℕ, subst, zero, suc, ◌<◌, ◌≡◌, refl, sym, ap, ◌∙◌, ◌≢◌, Bool, true, false, arith}
use info.Task.RbTree.{Side, left, right, flip, Rq, rb_is_red, insert_round, insert_loop}
use info.Task.RbTree.Trees.{
  Tree, leaf, node, fork, plug, Ctx, top, under, root, above, Around, Zip, root-fork, At→Fork,
}
use info.Task.RbTree.Moves.{Zip-up, Zip-plug, present}
use info.Task.RbTree.Rounds.{colour, round-recolor, round-outer, round-inner}
use info.Task.RbTree.Stops.{stop, stop-parent, stop-grand, parent-root, round_of}

-- A red node `k` with a red child `t`, below a black `j` with a black other child: what they turn into.
unfoldable pub settle : Side → Side → Tree → ℕ → Tree → ℕ → Tree → Tree
settle left left t k o j uncle = fork left false t k (fork left true o j uncle)
settle right right t k o j uncle = fork right false t k (fork right true o j uncle)
settle right left (node rt ta n tb) k o j uncle =
    fork left false (fork left true o k ta) n (fork left true tb j uncle)
settle left right (node rt tb n ta) k o j uncle =
    fork right false (fork right true o k ta) n (fork right true tb j uncle)
settle right left leaf k o j uncle = leaf
settle left right leaf k o j uncle = leaf

-- A tree whose root may be red below a red one, in its place, turned into one without.
unfoldable pub fix : Ctx → Tree → Tree
fix top t = t
fix (under sd false k o up) t = plug (under sd false k o up) t
fix (under sd true k o top) t = plug (under sd true k o top) t
fix (under sd true k o (under sd' g j (node true ul u ur) up)) t =
    fix up (fork sd' true (fork sd false t k o) j (node false ul u ur))
fix (under sd true k o (under sd' g j (node false ul u ur) up)) t =
    plug up (settle sd sd' t k o j (node false ul u ur))
fix (under sd true k o (under sd' g j leaf up)) t = plug up (settle sd sd' t k o j leaf)

unfoldable pub depth : Ctx → ℕ
depth top = 0
depth (under sd c k far up) = suc (depth up)

fork-left : (c : Bool) (a : Tree) (n : ℕ) (b : Tree) → fork left c a n b ≡ node c a n b
unfolding fork
fork-left c a n b = refl

fork-right : (c : Bool) (a : Tree) (n : ℕ) (b : Tree) → fork right c a n b ≡ node c b n a
unfolding fork
fork-right c a n b = refl

outer_Zip :
    (rounds : ℕ) (sd : Side) (g : Bool) (k j : ℕ) (o uncle : Tree) (up : Ctx) (t : Tree) (q : Rq)
    → root t ≢ 0
    → colour uncle ≡ false
    → Zip q (under sd true k o (under sd g j uncle up)) t
    → Zip
        (insert_loop (suc rounds) (root t) q)
        top
        (plug up (fork sd false t k (fork sd true o j uncle)))
outer_Zip rounds sd g k j o uncle up t q nz black z =
    let new : Tree = fork sd false t k (fork sd true o j uncle) in
    let out = insert_round sd (root t) k j q in
    let (e, z1) = round-outer sd sd true g k j o up t q uncle refl nz black z in
    let f = At→Fork out.1 (above up) sd false t k (fork sd true o j uncle) z1.inside in
    let parent = parent-root out.1 k t nz f.near_at in
    let same : insert_loop (suc rounds) (root t) q ≡ out.1 =
      round_of rounds sd sd g k j o uncle up t q nz z
      ∙ ap (λ n. insert_loop rounds n out.1) e
      ∙ stop-parent rounds (root t) out.1 up sd t k (fork sd true o j uncle) z1 parent in
    subst (λ r. Zip r top (plug up new)) (sym same) (Zip-plug out.1 up new z1)

inner_Zip :
    (rounds : ℕ) (sd : Side) (rt g : Bool) (n k j : ℕ) (ta tb o uncle : Tree) (up : Ctx) (q : Rq)
    → colour uncle ≡ false
    → Zip q (under (flip sd) true k o (under sd g j uncle up)) (fork sd rt ta n tb)
    → Zip
        (insert_loop (suc rounds) (root (fork sd rt ta n tb)) q)
        top
        (plug up (fork sd false (fork sd true o k ta) n (fork sd true tb j uncle)))
inner_Zip rounds sd rt g n k j ta tb o uncle up q black z =
    let t : Tree = fork sd rt ta n tb in
    let new : Tree = fork sd false (fork sd true o k ta) n (fork sd true tb j uncle) in
    let is_n : root t ≡ n = root-fork sd rt ta n tb in
    let nz : root t ≢ 0 = λ e.
      present q (under (flip sd) true k o (under sd g j uncle up)) sd rt ta n tb z (sym is_n ∙ e) in
    let out = insert_round sd n k j q in
    let (e, z1) = round-inner (flip sd) sd true g k j o up t q uncle rt ta tb n refl black z in
    let f =
      At→Fork out.1 (above up) sd false (fork sd true o k ta) n (fork sd true tb j uncle)
        z1.inside in
    let parent = (At→Fork out.1 n sd true o k ta f.near_at).parent_is in
    let same : insert_loop (suc rounds) (root t) q ≡ out.1 =
      round_of rounds (flip sd) sd g k j o uncle up t q nz z
      ∙ ap (λ m. insert_loop rounds (insert_round sd m k j q).0 (insert_round sd m k j q).1) is_n
      ∙ ap (λ m. insert_loop rounds m out.1) e
      ∙ stop-parent rounds k out.1 up sd (fork sd true o k ta) n (fork sd true tb j uncle) z1
          parent in
    subst (λ r. Zip r top (plug up new)) (sym same) (Zip-plug out.1 up new z1)

settle-Zip :
    (rounds : ℕ) (sd sd' : Side) (g : Bool) (k j : ℕ) (o uncle : Tree) (up : Ctx) (t : Tree)
    (q : Rq)
    → root t ≢ 0
    → colour uncle ≡ false
    → Zip q (under sd true k o (under sd' g j uncle up)) t
    → Zip (insert_loop (suc rounds) (root t) q) top (plug up (settle sd sd' t k o j uncle))
unfolding settle
settle-Zip rounds left left g k j o uncle up t q nz black z =
    outer_Zip rounds left g k j o uncle up t q nz black z
settle-Zip rounds right right g k j o uncle up t q nz black z =
    outer_Zip rounds right g k j o uncle up t q nz black z
settle-Zip rounds right left g k j o uncle up leaf q nz black z = absurd (nz refl)
settle-Zip rounds left right g k j o uncle up leaf q nz black z = absurd (nz refl)
settle-Zip rounds right left g k j o uncle up (node rt ta n tb) q nz black z =
    subst
      (λ t.
        Zip (insert_loop (suc rounds) (root t) q) top
          (plug up (settle right left (node rt ta n tb) k o j uncle)))
      (fork-left rt ta n tb)
      (inner_Zip rounds left rt g n k j ta tb o uncle up q black (
        subst (Zip q (under right true k o (under left g j uncle up))) (sym (fork-left rt ta n tb))
          z))
settle-Zip rounds left right g k j o uncle up (node rt tb n ta) q nz black z =
    subst
      (λ t.
        Zip (insert_loop (suc rounds) (root t) q) top
          (plug up (settle left right (node rt tb n ta) k o j uncle)))
      (fork-right rt ta n tb)
      (inner_Zip rounds right rt g n k j ta tb o uncle up q black (
        subst (Zip q (under left true k o (under right g j uncle up))) (sym (fork-right rt ta n tb))
          z))

-- If the links are those of a tree in a context, with no process twice, then the loop of
-- RbInsertColorFixup from the root of the tree, with more rounds than the context is deep, ends
-- with the links of the tree that a recursion on the context gives.
pub loop_Zip :
    (rounds : ℕ) (c : Ctx) (t : Tree) (q : Rq)
    → root t ≢ 0
    → depth c < rounds
    → Zip q c t
    → Zip (insert_loop rounds (root t) q) top (fix c t)
unfolding fix depth Around
loop_Zip zero c t q nz deep z = absurd (omega arith)
loop_Zip (suc rounds) top t q nz deep z =
    let parent : q.parent (root t) ≡ 0 = parent-root q 0 t nz z.inside in
    let black : rb_is_red (q.parent (root t)) q ≡ false = rw parent refl in
    subst (λ r. Zip r top t) (sym (stop (suc rounds) (root t) q black)) z
loop_Zip (suc rounds) (under sd false k o up) t q nz deep z =
    let z1 = Zip-up q sd false k o up t z in
    let same = stop-parent (suc rounds) (root t) q up sd t k o z1 (parent-root q k t nz z.inside) in
    subst (λ r. Zip r top (plug (under sd false k o up) t)) (sym same)
      (Zip-plug q (under sd false k o up) t z)
loop_Zip (suc rounds) (under sd true k o top) t q nz deep z =
    let parent = parent-root q k t nz z.inside in
    let same = stop-grand (suc rounds) (root t) q (ap q.parent parent ∙ z.around.1) in
    subst (λ r. Zip r top (plug (under sd true k o top) t)) (sym same)
      (Zip-plug q (under sd true k o top) t z)
loop_Zip (suc rounds) (under sd true k o (under sd' g j (node true ul u ur) up)) t q nz deep z =
    let out = insert_round sd' (root t) k j q in
    let new : Tree = fork sd' true (fork sd false t k o) j (node false ul u ur) in
    let is_j : root new ≡ j = root-fork sd' true (fork sd false t k o) j (node false ul u ur) in
    let (e, z1) = round-recolor sd sd' true g k j o up t q ul ur u z in
    let next =
      loop_Zip rounds up new out.1 (λ zero_j. z.around.6.0 (sym is_j ∙ zero_j)) (omega arith) z1 in
    subst (λ r. Zip r top (fix up new))
      (ap (λ m. insert_loop rounds m out.1) (is_j ∙ sym e)
        ∙ sym (round_of rounds sd sd' g k j o (node true ul u ur) up t q nz z))
      next
loop_Zip (suc rounds) (under sd true k o (under sd' g j (node false ul u ur) up)) t q nz deep z =
    settle-Zip rounds sd sd' g k j o (node false ul u ur) up t q nz refl z
loop_Zip (suc rounds) (under sd true k o (under sd' g j leaf up)) t q nz deep z =
    settle-Zip rounds sd sd' g k j o leaf up t q nz refl z
