-- ===== src/Task/RbTree/Stops.antt =====
-- Where the loop of `RbInsertColorFixup` stops, and where it goes on.
use info.Prelude.{
  ℕ, subst, zero, suc, ◌≡◌, refl, sym, ap, ◌∙◌, ◌≢◌, Bool, true, false, not, ◌||◌, arith, ◌==◌,
  if◌then◌else◌,
}
use info.Task.RbTree.{Side, Rq, rb_is_red, side_of, insert_round, insert_loop}
use info.Task.RbTree.Trees.{
  Tree, leaf, node, fork, Ctx, under, root, above, count_ctx, At, Around, Zip, is_self, is-zero,
  count-root, root-fork, At→Fork,
}
use info.Task.RbTree.Moves.{Zip-up}
use info.Task.RbTree.Rounds.{side_of_lem}

-- The loop stops below a black parent.
pub stop : (rounds n : ℕ) (q : Rq) → rb_is_red (q.parent n) q ≡ false → insert_loop rounds n q ≡ q
unfolding insert_loop
stop zero n q black = refl
stop (suc rounds) n q black =
    let ends : (n == 0 || true) ≡ true = ground arith in rw (black, ends) refl

pub stop-parent :
    (rounds n : ℕ) (q : Rq) (up : Ctx) (sd : Side) (near : Tree) (k : ℕ) (far : Tree)
    → Zip q up (fork sd false near k far)
    → q.parent n ≡ k
    → insert_loop rounds n q ≡ q
stop-parent rounds n q up sd near k far z e =
    let f = At→Fork q (above up) sd false near k far z.inside in
    let has : (k == 0) ≡ false = ground (arith, f.present) in
    let black : rb_is_red k q ≡ false = rw (has, f.red_is) refl in
    stop rounds n q (ap (λ p. rb_is_red p q) e ∙ black)

if_same : (b : Bool) (a : Rq) → (if b then a else a) ≡ a
if_same true a = refl
if_same false a = refl

-- The loop ends where there is no grandparent.
pub stop-grand : (rounds n : ℕ) (q : Rq) → q.parent (q.parent n) ≡ 0 → insert_loop rounds n q ≡ q
unfolding insert_loop
stop-grand zero n q gone = refl
stop-grand (suc rounds) n q gone =
    let no : (q.parent (q.parent n) == 0) ≡ true = ground arith in
    rw no (if_same (n == 0 || not (rb_is_red (q.parent n) q)) q)

-- A round where there is a red parent, with a grandparent.
goes_on :
    (rounds n k j : ℕ) (sd : Side) (q : Rq)
    → n ≢ 0
    → q.parent n ≡ k
    → rb_is_red k q ≡ true
    → q.parent k ≡ j
    → j ≢ 0
    → k ≢ n
    → j ≢ k
    → j ≢ n
    → side_of k j q ≡ sd
    → let out = insert_round sd n k j q in
      insert_loop (suc rounds) n q ≡ insert_loop rounds out.0 out.1
unfolding insert_loop
goes_on rounds n k j sd q nz parent red grand has kn jk jn side =
    let a : (n == 0) ≡ false = ground arith in
    let b : (j == 0) ≡ false = ground arith in
    let c : (k == n) ≡ false = ground arith in
    let d : (j == k) ≡ false = ground arith in
    let e : (j == n) ≡ false = ground arith in rw (parent, grand, red, side, a, b, c, d, e) refl

pub parent-root : (q : Rq) (p : ℕ) (t : Tree) → root t ≢ 0 → At q p t → q.parent (root t) ≡ p
unfolding At
parent-root q p leaf nz a = absurd (nz refl)
parent-root q p (node c l k r) nz a = a.1

-- A round of the loop where the parent is red and has a parent.
pub round_of :
    (rounds : ℕ) (sd sd' : Side) (g : Bool) (k j : ℕ) (o uncle : Tree) (up : Ctx) (t : Tree)
    (q : Rq)
    → root t ≢ 0
    → Zip q (under sd true k o (under sd' g j uncle up)) t
    → let out = insert_round sd' (root t) k j q in
      insert_loop (suc rounds) (root t) q ≡ insert_loop rounds out.0 out.1
unfolding Around count_ctx
round_of rounds sd sd' g k j o uncle up t q nz z =
    let a = z.around in
    let has : (k == 0) ≡ false = ground (arith, a.0) in
    let red : rb_is_red k q ≡ true = rw (has, a.2) refl in
    let z1 = Zip-up q sd true k o (under sd' g j uncle up) t z in
    let nz1 : root (fork sd true t k o) ≢ 0 = λ e. a.0 (sym (root-fork sd true t k o) ∙ e) in
    let side : side_of k j q ≡ sd' =
      subst (λ n. side_of n j q ≡ sd') (root-fork sd true t k o)
        (side_of_lem q sd' g j uncle up (fork sd true t k o) nz1 z1) in
    let n_once = z.once (root t) in
    let n_here = count-root t nz in
    let k_once = z.once k in
    let k_here = is_self k in
    goes_on rounds (root t) k j sd' q nz (parent-root q k t nz z.inside) red a.1 a.6.0
      (λ e. is-zero (root t) k (omega arith) (sym e)) (λ e. is-zero k j (omega arith) (sym e))
      (λ e. is-zero (root t) j (omega arith) (sym e)) side
