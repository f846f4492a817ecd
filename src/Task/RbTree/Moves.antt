-- ===== src/Task/RbTree/Moves.antt =====
-- Moves of the hole, and colours.
use info.Prelude.{ℕ, subst, ◌≡◌, refl, sym, ◌≢◌, Bool, true, false, arith, ◌==◌}
use info.Prelude.Maps.{put_self}
use info.Task.RbTree.{Side, left, right, flip, Rq, set_red, rb_set_red, rb_set_black}
use info.Task.RbTree.Trees.{
  Tree, node, fork, plug, Ctx, top, under, above, count_ctx, Around, Zip, At-Agree, Around-Agree,
  is_self, count-fork, root-fork, At→Fork, Fork→At,
}
use info.Task.RbTree.Links.{absent, absent_ctx, Agree-set_red}

pub fork-flip :
    (sd : Side) (c : Bool) (a : Tree) (k : ℕ) (b : Tree) → fork (flip sd) c b k a ≡ fork sd c a k b
unfolding fork
fork-flip left c a k b = refl
fork-flip right c a k b = refl

flip-flip : (sd : Side) → flip (flip sd) ≡ sd
flip-flip left = refl
flip-flip right = refl

pub Zip-up :
    (q : Rq) (sd : Side) (c : Bool) (k : ℕ) (far : Tree) (up : Ctx) (t : Tree)
    → Zip q (under sd c k far up) t
    → Zip q up (fork sd c t k far)
unfolding Around count_ctx
Zip-up q sd c k far up t z =
    let a = z.around in
    record {
      around = subst (λ n. Around q n up) (sym (root-fork sd c t k far)) a.6;
      inside = Fork→At q (above up) sd c t k far (record {
        present = a.0;
        parent_is = a.1;
        red_is = a.2;
        near_is = a.3;
        far_is = a.4;
        near_at = z.inside;
        far_at = a.5;
      });
      once = λ j. omega (arith, z.once j, count-fork j sd c t k far);
    }

pub Zip-down :
    (q : Rq) (sd : Side) (c : Bool) (k : ℕ) (far : Tree) (up : Ctx) (t : Tree)
    → Zip q up (fork sd c t k far)
    → Zip q (under sd c k far up) t
unfolding Around count_ctx
Zip-down q sd c k far up t z =
    let f = At→Fork q (above up) sd c t k far z.inside in
    record {
      around = (
        f.present,
        f.parent_is,
        f.red_is,
        f.near_is,
        f.far_is,
        f.far_at,
        subst (λ n. Around q n up) (root-fork sd c t k far) z.around,
      );
      inside = f.near_at;
      once = λ j. omega (arith, z.once j, count-fork j sd c t k far);
    }

pub Zip-plug : (q : Rq) (c : Ctx) (t : Tree) → Zip q c t → Zip q top (plug c t)
unfolding plug
Zip-plug q top t z = z
Zip-plug q (under sd c k far up) t z =
    Zip-plug q up (fork sd c t k far) (Zip-up q sd c k far up t z)

pub recolor :
    (q : Rq) (ctx : Ctx) (sd : Side) (c d : Bool) (near : Tree) (k : ℕ) (far : Tree)
    → Zip q ctx (fork sd c near k far)
    → Zip (set_red k d q) ctx (fork sd d near k far)
recolor q ctx sd c d near k far z =
    let f = At→Fork q (above ctx) sd c near k far z.inside in
    let self = is_self k in
    let total = count-fork k sd c near k far in
    let all = z.once k in
    record {
      around =
          subst (λ n. Around (set_red k d q) n ctx) (sym (root-fork sd d near k far))
            (Around-Agree q (set_red k d q) k ctx refl
              (λ j h. Agree-set_red j k d q (absent_ctx k j ctx (omega arith) h))
              (subst (λ n. Around q n ctx) (root-fork sd c near k far) z.around));
      inside = Fork→At (set_red k d q) (above ctx) sd d near k far (record {
        present = f.present;
        parent_is = f.parent_is;
        red_is = put_self q.is_red k d;
        near_is = f.near_is;
        far_is = f.far_is;
        near_at =
            At-Agree q (set_red k d q) k near
              (λ j h. Agree-set_red j k d q (absent k j near (omega arith) h)) f.near_at;
        far_at =
            At-Agree q (set_red k d q) k far
              (λ j h. Agree-set_red j k d q (absent k j far (omega arith) h)) f.far_at;
      });
      once =
          λ j. omega (arith, z.once j, count-fork j sd c near k far, count-fork j sd d near k far);
    }

pub rb_set_black-set : (k : ℕ) (q : Rq) → k ≢ 0 → rb_set_black k q ≡ set_red k false q
rb_set_black-set k q nz = let has : (k == 0) ≡ false = ground arith in rw has refl

pub rb_set_red-set : (k : ℕ) (q : Rq) → k ≢ 0 → rb_set_red k q ≡ set_red k true q
rb_set_red-set k q nz = let has : (k == 0) ≡ false = ground arith in rw has refl

pub present :
    (q : Rq) (ctx : Ctx) (sd : Side) (c : Bool) (near : Tree) (k : ℕ) (far : Tree)
    → Zip q ctx (fork sd c near k far)
    → k ≢ 0
present q ctx sd c near k far z = (At→Fork q (above ctx) sd c near k far z.inside).present

pub paint_black :
    (q : Rq) (ctx : Ctx) (sd : Side) (c : Bool) (near : Tree) (k : ℕ) (far : Tree)
    → Zip q ctx (fork sd c near k far)
    → Zip (rb_set_black k q) ctx (fork sd false near k far)
paint_black q ctx sd c near k far z =
    subst (λ r. Zip r ctx (fork sd false near k far))
      (sym (rb_set_black-set k q (present q ctx sd c near k far z)))
      (recolor q ctx sd c false near k far z)

pub paint_red :
    (q : Rq) (ctx : Ctx) (sd : Side) (c : Bool) (near : Tree) (k : ℕ) (far : Tree)
    → Zip q ctx (fork sd c near k far)
    → Zip (rb_set_red k q) ctx (fork sd true near k far)
paint_red q ctx sd c near k far z =
    subst (λ r. Zip r ctx (fork sd true near k far))
      (sym (rb_set_red-set k q (present q ctx sd c near k far z)))
      (recolor q ctx sd c true near k far z)

-- The child on the other side, turned black.
pub paint_far :
    (q : Rq) (ctx : Ctx) (sd : Side) (c d : Bool) (near : Tree) (k : ℕ) (l r : Tree) (u : ℕ)
    → Zip q ctx (fork sd c near k (node d l u r))
    → Zip (rb_set_black u q) ctx (fork sd c near k (node false l u r))
unfolding fork
paint_far q ctx sd c d near k l r u z =
    let q' = rb_set_black u q in
    let seen : Zip q ctx (fork (flip sd) c (node d l u r) k near) =
      subst (Zip q ctx) (sym (fork-flip sd c near k (node d l u r))) z in
    let down = Zip-down q (flip sd) c k near ctx (node d l u r) seen in
    let painted = paint_black q (under (flip sd) c k near ctx) left d l u r down in
    subst (Zip q' ctx) (fork-flip sd c near k (node false l u r))
      (Zip-up q' (flip sd) c k near ctx (node false l u r) painted)
