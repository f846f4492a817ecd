-- ===== src/Task/RbTree/Rounds.antt =====
-- A round of `RbInsertColorFixup` on the tree.
use info.Prelude.{ℕ, subst, ◌≡◌, refl, ◌∙◌, ◌≢◌, Bool, true, false, arith, ◌==◌}
use info.Task.RbTree.{
  Side, left, right, flip, Rq, rb_set_red, rb_set_black, rb_is_red, rotate, side_of, insert_round,
}
use info.Task.RbTree.Trees.{
  Tree, leaf, node, fork, Ctx, under, root, count_ctx, At, Around, Zip, count-root, root-fork,
  At→Fork,
}
use info.Task.RbTree.Links.{not_root}
use info.Task.RbTree.Rotate.{rotate-Zip}
use info.Task.RbTree.Moves.{fork-flip, Zip-up, paint_black, paint_red, paint_far}

abbrev pub colour : Tree → Bool
colour leaf = false
colour (node c l k r) = c

pub rb_is_red-root : (q : Rq) (p : ℕ) (t : Tree) → At q p t → rb_is_red (root t) q ≡ colour t
unfolding At
rb_is_red-root q p leaf a = refl
rb_is_red-root q p (node c l k r) a =
    let has : (k == 0) ≡ false = ground (arith, a.0) in rw (has, a.2) refl

-- The other child is another process.
pub other_child :
    (q : Rq) (sd : Side) (c : Bool) (k : ℕ) (far : Tree) (up : Ctx) (t : Tree)
    → root t ≢ 0
    → Zip q (under sd c k far up) t
    → root t ≢ q.child (flip sd) k
unfolding Around count_ctx
other_child q sd c k far up t nz z e =
    not_root (root t) far (omega (arith, z.once (root t), count-root t nz)) nz (e ∙ z.around.4)

pub side_of_lem :
    (q : Rq) (sd : Side) (c : Bool) (k : ℕ) (far : Tree) (up : Ctx) (t : Tree)
    → root t ≢ 0
    → Zip q (under sd c k far up) t
    → side_of (root t) k q ≡ sd
unfolding side_of Around
side_of_lem q left c k far up t nz z =
    let here : (root t == q.child left k) ≡ true = ground (arith, z.around.3) in rw here refl
side_of_lem q right c k far up t nz z =
    let there : (root t == q.child left k) ≡ false =
      ground (arith, other_child q right c k far up t nz z) in
    rw there refl

-- Two forks seen from the other side.
mirror :
    (sd : Side) (c d : Bool) (a b t : Tree) (x y : ℕ)
    → fork sd c (fork sd d t y b) x a ≡ fork (flip sd) c a x (fork (flip sd) d b y t)
unfolding fork
mirror left c d a b t x y = refl
mirror right c d a b t x y = refl

mirror_back :
    (sd : Side) (c d : Bool) (a b t : Tree) (x y : ℕ)
    → fork (flip sd) c (fork (flip sd) d a x b) y t ≡ fork sd c t y (fork sd d b x a)
unfolding fork
mirror_back left c d a b t x y = refl
mirror_back right c d a b t x y = refl

-- The parent `k` and the grandparent `j` of the node, with their sides and other children.
module _ (sd sd' : Side) (r g : Bool) (k j : ℕ) (o : Tree) (up : Ctx) (t : Tree) (q : Rq) where
  pub round-recolor :
      (ul ur : Tree) (u : ℕ)
      → Zip q (under sd r k o (under sd' g j (node true ul u ur) up)) t
      → let out = insert_round sd' (root t) k j q in
        (out.0 ≡ j) × Zip out.1 up (fork sd' true (fork sd false t k o) j (node false ul u ur))
  unfolding insert_round Around
  round-recolor ul ur u z =
      let uncle : Tree = node true ul u ur in
      let z1 = Zip-up q sd r k o (under sd' g j uncle up) t z in
      let q1 = rb_set_black k q in
      let z2 = paint_black q (under sd' g j uncle up) sd r t k o z1 in
      let z3 = Zip-up q1 sd' g j uncle up (fork sd false t k o) z2 in
      let q2 = rb_set_black u q1 in
      let z4 = paint_far q1 up sd' g true (fork sd false t k o) j ul ur u z3 in
      let z5 = paint_red q2 up sd' g (fork sd false t k o) j (node false ul u ur) z4 in
      let where_u : q.child (flip sd') j ≡ u = z.around.6.4 in
      let red_u : rb_is_red u q ≡ true = rb_is_red-root q j uncle z.around.6.5 in
      rw (where_u, red_u) (refl, z5)

  -- The uncle is black, and the node on the outer side.
  pub round-outer :
      (uncle : Tree)
      → sd ≡ sd'
      → root t ≢ 0
      → colour uncle ≡ false
      → Zip q (under sd r k o (under sd' g j uncle up)) t
      → let out = insert_round sd' (root t) k j q in
        (out.0 ≡ root t) × Zip out.1 up (fork sd' false t k (fork sd' true o j uncle))
  unfolding insert_round Around
  round-outer uncle e nz black z =
      let z0 : Zip q (under sd' r k o (under sd' g j uncle up)) t =
        subst (λ s. Zip q (under s r k o (under sd' g j uncle up)) t) e z in
      let z1 = Zip-up q sd' r k o (under sd' g j uncle up) t z0 in
      let q1 = rb_set_black k q in
      let z2 = paint_black q (under sd' g j uncle up) sd' r t k o z1 in
      let z3 = Zip-up q1 sd' g j uncle up (fork sd' false t k o) z2 in
      let q2 = rb_set_red j q1 in
      let z4 = paint_red q1 up sd' g (fork sd' false t k o) j uncle z3 in
      let z5 = subst (Zip q2 up) (mirror sd' true false uncle o t j k) z4 in
      let z6 = rotate-Zip (flip sd') up true false uncle o t j k q2 z5 in
      let z7 =
        subst (Zip (rotate (flip sd') j q2) up) (mirror_back sd' false true uncle o t j k) z6 in
      let where_u : q.child (flip sd') j ≡ root uncle = z.around.6.4 in
      let black_u : rb_is_red (root uncle) q ≡ false =
        rb_is_red-root q j uncle z.around.6.5 ∙ black in
      let outer : (root t == q.child (flip sd') k) ≡ false =
        ground (arith, other_child q sd' r k o (under sd' g j uncle up) t nz z0) in
      rw (where_u, black_u, outer) (refl, z7)

  -- The uncle is black, and the node on the inner side.
  pub round-inner :
      (uncle : Tree) (rt : Bool) (ta tb : Tree) (n : ℕ)
      → sd ≡ flip sd'
      → colour uncle ≡ false
      → Zip q (under sd r k o (under sd' g j uncle up)) (fork sd' rt ta n tb)
      → let out = insert_round sd' n k j q in
        (out.0 ≡ k) × Zip out.1 up (fork sd' false (fork sd' r o k ta) n (fork sd' true tb j uncle))
  unfolding insert_round Around
  round-inner uncle rt ta tb n e black z =
      let around_j : Ctx = under sd' g j uncle up in
      let z0 : Zip q (under (flip sd') r k o around_j) (fork sd' rt ta n tb) =
        subst (λ s. Zip q (under s r k o around_j) (fork sd' rt ta n tb)) e z in
      let z1 : Zip q around_j (fork sd' r o k (fork sd' rt ta n tb)) =
        subst (Zip q around_j) (fork-flip sd' r o k (fork sd' rt ta n tb))
          (Zip-up q (flip sd') r k o around_j (fork sd' rt ta n tb) z0) in
      let q1 = rotate sd' k q in
      let z2 = rotate-Zip sd' around_j r rt o ta tb k n q z1 in
      let inside = At→Fork q1 j sd' rt (fork sd' r o k ta) n tb z2.inside in
      let parent_k : q1.parent k ≡ n = (At→Fork q1 n sd' r o k ta inside.near_at).parent_is in
      let q2 = rb_set_black n q1 in
      let z3 = paint_black q1 around_j sd' rt (fork sd' r o k ta) n tb z2 in
      let z4 = Zip-up q2 sd' g j uncle up (fork sd' false (fork sd' r o k ta) n tb) z3 in
      let q3 = rb_set_red j q2 in
      let z5 = paint_red q2 up sd' g (fork sd' false (fork sd' r o k ta) n tb) j uncle z4 in
      let z6 = subst (Zip q3 up) (mirror sd' true false uncle tb (fork sd' r o k ta) j n) z5 in
      let z7 = rotate-Zip (flip sd') up true false uncle tb (fork sd' r o k ta) j n q3 z6 in
      let z8 =
        subst (Zip (rotate (flip sd') j q3) up)
          (mirror_back sd' false true uncle tb (fork sd' r o k ta) j n) z7 in
      let where_u : q.child (flip sd') j ≡ root uncle = z.around.6.4 in
      let black_u : rb_is_red (root uncle) q ≡ false =
        rb_is_red-root q j uncle z.around.6.5 ∙ black in
      let inner : (n == q.child (flip sd') k) ≡ true =
        ground (arith, z0.around.3, root-fork sd' rt ta n tb) in
      rw (where_u, black_u, inner, parent_k) (refl, z8)
