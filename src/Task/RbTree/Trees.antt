-- ===== src/Task/RbTree/Trees.antt =====
-- Trees of processes, and the trees that the links stand for. A context is a tree with a hole, seen
-- from the hole.
use info.Prelude.{ℕ, ◌+◌, ◌≤◌, ◌<◌, ◌≡◌, refl, ◌∙◌, ◌≢◌, Bool, arith, ◌==◌, if◌then◌else◌}
use info.Task.RbTree.{Side, left, right, flip, Rq}

pub data Tree : Type 0 where
  leaf : Tree
  node : Bool → Tree → ℕ → Tree → Tree

-- `under sd c k t above`: the hole is the child of `k` on side `sd`, `t` is the other one.
pub data Ctx : Type 0 where
  top : Ctx
  under : Side → Bool → ℕ → Tree → Ctx → Ctx

-- A node with the child on a side first.
unfoldable pub fork : Side → Bool → Tree → ℕ → Tree → Tree
fork left c near k far = node c near k far
fork right c near k far = node c far k near

unfoldable pub plug : Ctx → Tree → Tree
plug top t = t
plug (under sd c k far above) t = plug above (fork sd c t k far)

abbrev pub root : Tree → ℕ
root leaf = 0
root (node c l k r) = k

abbrev pub above : Ctx → ℕ
above top = 0
above (under sd c k far up) = k

-- How often a process occurs.
abbrev pub is : ℕ → ℕ → ℕ
is k x = if k == x then 1 else 0

unfoldable pub count : ℕ → Tree → ℕ
count k leaf = 0
count k (node c l x r) = count k l + is k x + count k r

unfoldable pub count_ctx : ℕ → Ctx → ℕ
count_ctx k top = 0
count_ctx k (under sd c x far up) = is k x + count k far + count_ctx k up

-- The links below a process `p` are those of a tree.
unfoldable pub At : Rq → ℕ → Tree → Type 0
At q p leaf = Unit {0}
At q p (node c l k r) =
    (k ≢ 0)
    × (q.parent k ≡ p)
    × (q.is_red k ≡ c)
    × (q.child left k ≡ root l)
    × (q.child right k ≡ root r)
    × At q k l
    × At q k r

-- The links around a hole are those of a context, with `x` in the hole.
unfoldable pub Around : Rq → ℕ → Ctx → Type 0
Around q x top = q.rb_root ≡ x
Around q x (under sd c k far up) =
    (k ≢ 0)
    × (q.parent k ≡ above up)
    × (q.is_red k ≡ c)
    × (q.child sd k ≡ x)
    × (q.child (flip sd) k ≡ root far)
    × At q k far
    × Around q k up

-- The links are those of a context with a tree in its hole, and no process occurs twice.
pub record Zip (q : Rq) (c : Ctx) (t : Tree) : Type 0 where
  pub around : Around q (root t) c
  pub inside : At q (above c) t
  pub once : (k : ℕ) → count_ctx k c + count k t ≤ 1

pub count-fork :
    (k : ℕ) (sd : Side) (c : Bool) (near : Tree) (x : ℕ) (far : Tree)
    → count k (fork sd c near x far) ≡ count k near + is k x + count k far
unfolding count fork
count-fork k left c near x far = refl
count-fork k right c near x far = omega arith

pub root-fork :
    (sd : Side) (c : Bool) (near : Tree) (x : ℕ) (far : Tree) → root (fork sd c near x far) ≡ x
unfolding fork
root-fork left c near x far = refl
root-fork right c near x far = refl

-- A node with the child on a side first.
pub record Fork (q : Rq) (p : ℕ) (sd : Side) (c : Bool) (near : Tree) (k : ℕ) (far : Tree)
    : Type 0 where
  pub present : k ≢ 0
  pub parent_is : q.parent k ≡ p
  pub red_is : q.is_red k ≡ c
  pub near_is : q.child sd k ≡ root near
  pub far_is : q.child (flip sd) k ≡ root far
  pub near_at : At q k near
  pub far_at : At q k far

pub At→Fork :
    (q : Rq) (p : ℕ) (sd : Side) (c : Bool) (near : Tree) (k : ℕ) (far : Tree)
    → At q p (fork sd c near k far)
    → Fork q p sd c near k far
unfolding At fork
At→Fork q p left c near k far (nz, e, r, l, m, a, b) = record {
  present = nz;
  parent_is = e;
  red_is = r;
  near_is = l;
  far_is = m;
  near_at = a;
  far_at = b;
}
At→Fork q p right c near k far (nz, e, r, l, m, a, b) = record {
  present = nz;
  parent_is = e;
  red_is = r;
  near_is = m;
  far_is = l;
  near_at = b;
  far_at = a;
}

pub Fork→At :
    (q : Rq) (p : ℕ) (sd : Side) (c : Bool) (near : Tree) (k : ℕ) (far : Tree)
    → Fork q p sd c near k far
    → At q p (fork sd c near k far)
unfolding At fork
Fork→At q p left c near k far f =
    (f.present, f.parent_is, f.red_is, f.near_is, f.far_is, f.near_at, f.far_at)
Fork→At q p right c near k far f =
    (f.present, f.parent_is, f.red_is, f.far_is, f.near_is, f.far_at, f.near_at)

pub is_self : (k : ℕ) → is k k ≡ 1
is_self k = ground arith

pub is-zero : (k x : ℕ) → is k x ≡ 0 → k ≢ x
is-zero k x h = ground arith

-- The root of a tree occurs in it, unless it is 0.
pub count-root : (t : Tree) → root t ≢ 0 → 0 < count (root t) t
unfolding count
count-root leaf h = absurd (h refl)
count-root (node c l k r) h = omega (arith, is_self k)

-- Two states with the same links at every process of a tree.
unfoldable pub AgreeAt : ℕ → Rq → Rq → Type 0
AgreeAt k q q' =
    (q'.parent k ≡ q.parent k)
    × (q'.is_red k ≡ q.is_red k)
    × (q'.child left k ≡ q.child left k)
    × (q'.child right k ≡ q.child right k)

pub At-Agree :
    (q q' : Rq) (p : ℕ) (t : Tree)
    → ((k : ℕ) → 0 < count k t → AgreeAt k q q')
    → At q p t
    → At q' p t
unfolding At AgreeAt count
At-Agree q q' p leaf same a = tt
At-Agree q q' p (node c l k r) same (nz, e, d, f, g, a, b) =
    let here = same k (omega (arith, is_self k)) in
    (
      nz,
      here.0 ∙ e,
      here.1 ∙ d,
      here.2 ∙ f,
      here.3 ∙ g,
      At-Agree q q' k l (λ j h. same j (omega arith)) a,
      At-Agree q q' k r (λ j h. same j (omega arith)) b,
    )

pub Agree-side : (k : ℕ) (q q' : Rq) (sd : Side) → AgreeAt k q q' → q'.child sd k ≡ q.child sd k
unfolding AgreeAt
Agree-side k q q' left a = a.2
Agree-side k q q' right a = a.3

pub Around-Agree :
    (q q' : Rq) (x : ℕ) (c : Ctx)
    → q'.rb_root ≡ q.rb_root
    → ((k : ℕ) → 0 < count_ctx k c → AgreeAt k q q')
    → Around q x c
    → Around q' x c
unfolding Around count_ctx AgreeAt
Around-Agree q q' x top r same a = r ∙ a
Around-Agree q q' x (under sd c k far up) r same (nz, e, d, f, g, a, b) =
    let here = same k (omega (arith, is_self k)) in
    (
      nz,
      here.0 ∙ e,
      here.1 ∙ d,
      Agree-side k q q' sd here ∙ f,
      Agree-side k q q' (flip sd) here ∙ g,
      At-Agree q q' k far (λ j h. same j (omega arith)) a,
      Around-Agree q q' k up r (λ j h. same j (omega arith)) b,
    )
