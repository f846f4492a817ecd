-- ===== src/Task/RbTree/Kept.antt =====
-- `RbEraseColorFixup` leaves the processes in order, whatever process it is called with, and ends.
use info.Prelude.{
  ℕ, subst, ◌<◌, ◌≡◌, refl, sym, ◌∙◌, inl, inr, Bool, true, false, ◌||◌, Option, none, some, List,
  arith, ◌==◌, if◌then◌else◌, Bool-cases,
}
use info.Task.RbTree.{
  Side, left, right, flip, Rq, set_parent, set_child, hang, rb_set_red, rb_set_black, rb_is_red,
  rotate, Fixed, fixed, fault, unfinished, erase_turn, erase_sibling,
}
use info.Task.RbTree.Trees.{Tree, leaf, node, fork, plug, Ctx, above, Zip, At→Fork}
use info.Task.RbTree.Rotate.{rotate-Zip}
use info.Task.RbTree.Moves.{Zip-plug}
use info.Task.RbTree.Keys.{keys, plug_same}
use info.Task.RbTree.Sorting.{times}
use info.Task.RbTree.Places.{Holds, Place-of, rb_set_red-Holds, rb_set_black-Holds, keys-turn}

-- A rotation at a process without a child on the other side.
rotate_idle : (sd : Side) (p : ℕ) (q : Rq) → q.child (flip sd) p ≡ 0 → rotate sd p q ≡ q
unfolding rotate
rotate_idle sd p q e =
    let no : (q.child (flip sd) p == 0) ≡ true = ground arith in
    elim (Bool-cases (p == 0)) [ inl z ↦ rw z refl | inr z ↦ rw (z, no) refl ]

-- A rotation at a process with one.
turn_at :
    (sd : Side) (c : Ctx) (b d : Bool) (near m far : Tree) (p y : ℕ) (q : Rq) (ks : List ℕ)
    → Zip q c (fork sd b near p (fork sd d m y far))
    → keys (plug c (fork sd b near p (fork sd d m y far))) ≡ ks
    → Holds (rotate sd p q) ks
turn_at sd c b d near m far p y q ks z e =
    let new : Tree = fork sd d (fork sd b near p m) y far in
    record {
      tree = plug c new;
      zip = Zip-plug (rotate sd p q) c new (rotate-Zip sd c b d near m far p y q z);
      in_order =
          plug_same c new (fork sd b near p (fork sd d m y far))
            (keys-turn sd d b d b near m far p y)
          ∙ e;
    }

rotate_at :
    (sd : Side) (c : Ctx) (b : Bool) (near : Tree) (p : ℕ) (far : Tree) (q : Rq) (ks : List ℕ)
    → Zip q c (fork sd b near p far)
    → keys (plug c (fork sd b near p far)) ≡ ks
    → Holds (rotate sd p q) ks
unfolding fork
rotate_at sd c b near p leaf q ks z e =
    let f = At→Fork q (above c) sd b near p leaf z.inside in
    let t : Tree = fork sd b near p leaf in
    subst (λ r. Holds r ks) (sym (rotate_idle sd p q f.far_is))
      (record { tree = plug c t; zip = Zip-plug q c t z; in_order = e })
rotate_at left c b near p (node d m y far) q ks z e = turn_at left c b d near m far p y q ks z e
rotate_at right c b near p (node d far y m) q ks z e = turn_at right c b d near m far p y q ks z e

pub rotate-Holds :
    (sd : Side) (p : ℕ) (q : Rq) (ks : List ℕ)
    → Holds q ks
    → 0 < times p ks
    → Holds (rotate sd p q) ks
rotate-Holds sd p q ks h has =
    let at = Place-of q ks sd p h has in
    rotate_at sd at.ctx at.red at.near p at.far q ks at.zip at.in_order

-- A rotation leaves the colours.
hang-is_red : (sd : Side) (x y : ℕ) (q : Rq) → (hang sd x y q).is_red ≡ q.is_red
unfolding hang
hang-is_red sd x y q = elim (Bool-cases (q.parent x == 0)) [
  | inl z ↦ rw z refl
  | inr z ↦ elim (Bool-cases (x == q.child sd (q.parent x))) [
    | inl h ↦ rw (z, h) refl
    | inr h ↦ rw (z, h) refl
  ]
]

step-is_red : (b x : ℕ) (q : Rq) → (if b == 0 then q else set_parent b x q).is_red ≡ q.is_red
step-is_red b x q = elim (Bool-cases (b == 0)) [ inl z ↦ rw z refl | inr z ↦ rw z refl ]

either :
    (b : Bool) (q r s : Rq)
    → q.is_red ≡ s.is_red
    → r.is_red ≡ s.is_red
    → (if b then q else r).is_red ≡ s.is_red
either true q r s e f = e
either false q r s e f = f

pub rotate-is_red : (sd : Side) (x : ℕ) (q : Rq) → (rotate sd x q).is_red ≡ q.is_red
unfolding rotate
rotate-is_red sd x q =
    let y : ℕ = q.child (flip sd) x in
    let b : ℕ = q.child sd y in
    let q1 = set_child (flip sd) x b q in
    let q2 = if b == 0 then q1 else set_parent b x q1 in
    let q3 = set_parent y (q2.parent x) q2 in
    let q4 = hang sd x y q3 in
    either (x == 0 || y == 0 || y == x) q (set_parent x y (set_child sd y x q4)) q refl
      (hang-is_red sd x y q3 ∙ step-is_red b x q1)

-- What may come of the loop: the processes in order, or a null pointer; never that it goes on.
abbrev pub Outcome : List ℕ → Fixed → Type 0
Outcome ks (fixed q) = Holds q ks
Outcome ks fault = Unit {0}
Outcome ks unfinished = ⊥

pub if_Outcome :
    (ks : List ℕ) (b : Bool) (x y : Fixed)
    → Outcome ks x
    → (b ≡ false → Outcome ks y)
    → Outcome ks (if b then x else y)
if_Outcome ks true x y hx hy = hx
if_Outcome ks false x y hx hy = hy refl

pub erase_sibling-Holds :
    (sd : Side) (p : ℕ) (q : Rq) (ks : List ℕ)
    → Holds q ks
    → 0 < times p ks
    → Holds (erase_sibling sd p q) ks
unfolding erase_sibling
erase_sibling-Holds sd p q ks h has =
    let s : ℕ = q.child (flip sd) p in
    let h1 = rb_set_black-Holds q ks s h in
    let h2 = rb_set_red-Holds (rb_set_black s q) ks p h1 in
    let h3 = rotate-Holds sd p (rb_set_red p (rb_set_black s q)) ks h2 has in
    elim (Bool-cases (rb_is_red s q)) [ inl r ↦ rw r h3 | inr b ↦ rw b h ]

-- What a round with a red nephew makes.
unfoldable pub Turned : List ℕ → Option Rq → Type 0
Turned ks none = Unit {0}
Turned ks (some q) = Holds q ks

Turned-if : (ks : List ℕ) (b : Bool) (q : Rq) → Holds q ks → Turned ks (if b then none else some q)
unfolding Turned
Turned-if ks true q h = tt
Turned-if ks false q h = h

one_of :
    (ks : List ℕ) (b : Bool) (q r : Rq) → Holds q ks → Holds r ks → Holds (if b then q else r) ks
one_of ks true q r h i = h
one_of ks false q r h i = i

pub erase_turn-Holds :
    (sd : Side) (p s : ℕ) (q : Rq) (ks : List ℕ)
    → Holds q ks
    → 0 < times p ks
    → 0 < times s ks
    → Turned ks (erase_turn sd p s q)
unfolding erase_turn Turned
erase_turn-Holds sd p s q ks h has_p has_s =
    let near : ℕ = q.child sd s in
    let far : ℕ = q.child (flip sd) s in
    let q1 = rb_set_red s (rb_set_black near q) in
    let turned = rotate (flip sd) s q1 in
    let h1 = rb_set_red-Holds (rb_set_black near q) ks s (rb_set_black-Holds q ks near h) in
    let q' = if rb_is_red far q then q else turned in
    let h2 = one_of ks (rb_is_red far q) q turned h (rotate-Holds (flip sd) s q1 ks h1 has_s) in
    let s' : ℕ = q'.child (flip sd) p in
    let m : ℕ = q'.child (flip sd) s' in
    let painted = rb_set_red p (rb_set_black m q') in
    let h3 = rb_set_red-Holds (rb_set_black m q') ks p (rb_set_black-Holds q' ks m h2) in
    Turned-if ks (s' == 0) (rotate sd p painted) (rotate-Holds sd p painted ks h3 has_p)
