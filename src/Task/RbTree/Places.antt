-- ===== src/Task/RbTree/Places.antt =====
-- The place of a process in the tree, and the changes of links that leave the processes in order.
use info.Prelude.{
  ℕ, subst, ◌+◌, ◌<◌, ◌≡◌, refl, sym, ap, ◌∙◌, ◌≢◌, inl, inr, Bool, true, false, List, ◌∷◌,
  append_assoc, arith, ◌==◌, Bool-cases,
}
use info.Task.RbTree.{Side, left, right, Rq, set_red, rb_set_red, rb_set_black}
use info.Task.RbTree.Trees.{
  Tree, leaf, node, fork, plug, Ctx, top, under, root, above, count, count_ctx, Around, Zip,
  At-Agree, count-root, count-fork, At→Fork,
}
use info.Task.RbTree.Links.{absent, Agree-set_red}
use info.Task.RbTree.Moves.{Zip-down, Zip-plug, recolor}
use info.Task.RbTree.Keys.{keys, plug_same, recoloured}
use info.Task.RbTree.Sorting.{times, count-times}

-- The links are those of a tree of some processes in order.
pub record Holds (q : Rq) (ks : List ℕ) : Type 0 where
  pub tree : Tree
  pub zip : Zip q top tree
  pub in_order : keys tree ≡ ks

-- A process in its place, with the children seen from a side.
pub record Place (q : Rq) (ks : List ℕ) (sd : Side) (p : ℕ) : Type 0 where
  pub ctx : Ctx
  pub red : Bool
  pub near : Tree
  pub far : Tree
  pub zip : Zip q ctx (fork sd red near p far)
  pub in_order : keys (plug ctx (fork sd red near p far)) ≡ ks

pub Place-node :
    (q : Rq) (ks : List ℕ) (sd : Side) (c : Ctx) (d : Bool) (l : Tree) (k : ℕ) (r : Tree)
    → Zip q c (node d l k r)
    → keys (plug c (node d l k r)) ≡ ks
    → Place q ks sd k
unfolding fork
Place-node q ks left c d l k r z e = record {
  ctx = c;
  red = d;
  near = l;
  far = r;
  zip = z;
  in_order = e;
}
Place-node q ks right c d l k r z e = record {
  ctx = c;
  red = d;
  near = r;
  far = l;
  zip = z;
  in_order = e;
}

Place-in :
    (q : Rq) (ks : List ℕ) (sd : Side) (p : ℕ) (c : Ctx) (t : Tree)
    → 0 < count p t
    → Zip q c t
    → keys (plug c t) ≡ ks
    → Place q ks sd p
unfolding count plug fork
Place-in q ks sd p c leaf has z e = absurd (omega arith)
Place-in q ks sd p c (node d l k r) has z e = elim (Bool-cases (p == k)) [
  | inl here ↦
      let same : k ≡ p = ground (arith, here) in
      subst (Place q ks sd) same (Place-node q ks sd c d l k r z e)
  | inr other ↦ elim (Bool-cases (count p l == 0)) [
    | inl not_left ↦
        Place-in q ks sd p (under right d k l c) r (ground (arith, not_left, other, has))
          (Zip-down q right d k l c r z) e
    | inr in_left ↦
        Place-in q ks sd p (under left d k r c) l (ground (arith, in_left))
          (Zip-down q left d k r c l z) e
  ]
]

pub Place-of :
    (q : Rq) (ks : List ℕ) (sd : Side) (p : ℕ) → Holds q ks → 0 < times p ks → Place q ks sd p
unfolding plug
Place-of q ks sd p h has =
    Place-in q ks sd p top h.tree
      (subst (λ m. 0 < m) (ap (times p) (sym h.in_order) ∙ sym (count-times p h.tree)) has) h.zip
      h.in_order

pub Place-Holds : (q : Rq) (ks : List ℕ) (sd : Side) (p : ℕ) → Place q ks sd p → Holds q ks
Place-Holds q ks sd p h =
    let t : Tree = fork sd h.red h.near p h.far in
    record { tree = plug h.ctx t; zip = Zip-plug q h.ctx t h.zip; in_order = h.in_order }

-- A colour changes nothing of the order.
set_red-Holds : (q : Rq) (ks : List ℕ) (p : ℕ) (b : Bool) → Holds q ks → Holds (set_red p b q) ks
unfolding Around
set_red-Holds q ks p b h = elim (Bool-cases (times p ks == 0)) [
  | inl out ↦
      let gone : count p h.tree ≡ 0 =
        count-times p h.tree ∙ ap (times p) h.in_order ∙ ground (arith, out) in
      record {
        tree = h.tree;
        zip = record {
          around = h.zip.around;
          inside =
              At-Agree q (set_red p b q) 0 h.tree
                (λ k i. Agree-set_red k p b q (absent p k h.tree gone i)) h.zip.inside;
          once = h.zip.once;
        };
        in_order = h.in_order;
      }
  | inr inn ↦
      let at = Place-of q ks left p h (ground (arith, inn)) in
      let t : Tree = fork left b at.near p at.far in
      Place-Holds (set_red p b q) ks left p (record {
        ctx = at.ctx;
        red = b;
        near = at.near;
        far = at.far;
        zip = recolor q at.ctx left at.red b at.near p at.far at.zip;
        in_order =
            plug_same at.ctx t (fork left at.red at.near p at.far)
              (recoloured left b at.red at.near at.near at.far at.far p refl refl)
            ∙ at.in_order;
      })
]

pub rb_set_red-Holds : (q : Rq) (ks : List ℕ) (p : ℕ) → Holds q ks → Holds (rb_set_red p q) ks
rb_set_red-Holds q ks p h = elim (Bool-cases (p == 0)) [
  | inl z ↦ rw z h
  | inr z ↦ rw z (set_red-Holds q ks p true h)
]

pub rb_set_black-Holds : (q : Rq) (ks : List ℕ) (p : ℕ) → Holds q ks → Holds (rb_set_black p q) ks
rb_set_black-Holds q ks p h = elim (Bool-cases (p == 0)) [
  | inl z ↦ rw z h
  | inr z ↦ rw z (set_red-Holds q ks p false h)
]

pub keys-turn :
    (sd : Side) (d e d' e' : Bool) (a b m : Tree) (x y : ℕ)
    → keys (fork sd d' (fork sd e' a x b) y m) ≡ keys (fork sd e a x (fork sd d b y m))
unfolding keys fork
keys-turn left d e d' e' a b m x y = append_assoc (keys a) (x ∷ keys b) (y ∷ keys m)
keys-turn right d e d' e' a b m x y = sym (append_assoc (keys m) (y ∷ keys b) (x ∷ keys a))

pub count-plug : (k : ℕ) (c : Ctx) (t : Tree) → count k (plug c t) ≡ count_ctx k c + count k t
unfolding plug count_ctx
count-plug k top t = omega arith
count-plug k (under sd c x far up) t =
    omega (arith, count-plug k up (fork sd c t x far), count-fork k sd c t x far)

-- A child of a process in the tree is in the tree.
pub child_in :
    (sd : Side) (p : ℕ) (q : Rq) (ks : List ℕ)
    → Holds q ks
    → 0 < times p ks
    → q.child sd p ≢ 0
    → 0 < times (q.child sd p) ks
child_in sd p q ks h has nz =
    let at = Place-of q ks sd p h has in
    let t : Tree = fork sd at.red at.near p at.far in
    let f = At→Fork q (above at.ctx) sd at.red at.near p at.far at.zip.inside in
    let m : ℕ = root at.near in
    let there = count-root at.near (λ e. nz (f.near_is ∙ e)) in
    let known : times m ks ≡ count m (plug at.ctx t) =
      ap (times m) (sym at.in_order) ∙ sym (count-times m (plug at.ctx t)) in
    let found : 0 < times m ks =
      omega (arith, known, count-plug m at.ctx t, count-fork m sd at.red at.near p at.far, there) in
    subst (λ k. 0 < times k ks) (sym f.near_is) found
