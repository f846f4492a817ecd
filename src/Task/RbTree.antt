-- ===== src/Task/RbTree.antt =====
-- task/rbtree.cc: the red-black tree of the run queue, on the links of the processes. A process is a
-- number, 0 is the null pointer. The code has two copies of what follows a side, with left and right
-- exchanged: here the side is an argument.
pub mod Trees
pub mod Links
pub mod Rotations
pub mod Rotate
pub mod Moves
pub mod Rounds
pub mod Stops
pub mod Fixup
pub mod Keys
pub mod Ways
pub mod Attach
pub mod Insert
pub mod Sorting
pub mod Queue
pub mod Replace
pub mod Succeed
pub mod Lift
pub mod Unlink
pub mod Erase
pub mod Places
pub mod Kept
pub mod Repair
pub mod Removal
pub mod EraseQueue
mod Tests
use info.Prelude.{
  ℕ, subst, ap₂, zero, suc, ◌+◌, ◌-◌, ◌*◌, ◌/◌, ◌%◌, ◌^◌, ◌≤◌, ◌<◌, min, ◌≡◌, refl, sym, ap, ◌∙◌,
  ◌≢◌, ◌↔◌, ◌⊎◌, inl, inr, Bool, true, false, not, ◌&&◌, ◌||◌, Option, none, some, List, [], ◌∷◌,
  ◌++◌, map, append-nil, append_assoc, arith, add-zero, ltb, leb, ◌==◌, if◌then◌else◌, ltb→lt,
  lt→ltb, leb→le, ==_iff, tests, Bool-cases, Option-cases, length, get_elem?, set, length-append,
  length-set, get_elem?-set_self, get_elem?-set_ne, get_or, take, drop, replicate, take-append-drop,
  length-take, length-drop, length-replicate, length-map, take_all, drop_all, All, All-get_elem?,
  All-set, All-replicate, get_elem?-some, get_or-set_self, get_or-set_ne,
}
use info.Prelude.Maps.{put}

pub data Side : Type 0 where
  left : Side
  right : Side

abbrev pub flip : Side → Side
flip left = right
flip right = left

-- The links `rb_left` and `rb_right`, `rb_parent` and `rb_is_red` of every process, and the fields
-- of `Rq` that the tree's calls change.
pub record Rq : Type 0 where
  pub child : Side → ℕ → ℕ
  pub parent : ℕ → ℕ
  pub is_red : ℕ → Bool
  pub rb_root : ℕ
  pub leftmost : ℕ
  pub min_vruntime : ℕ

-- Links with one changed.
unfoldable pub relink : Side → ℕ → ℕ → (Side → ℕ → ℕ) → Side → ℕ → ℕ
relink left p v child left = put (child left) p v
relink left p v child right = child right
relink right p v child left = child left
relink right p v child right = put (child right) p v

abbrev pub set_child : Side → ℕ → ℕ → Rq → Rq
set_child sd p v q = record q { child = relink sd p v q.child }

abbrev pub set_parent : ℕ → ℕ → Rq → Rq
set_parent p v q = record q { parent = put q.parent p v }

abbrev pub set_red : ℕ → Bool → Rq → Rq
set_red p c q = record q { is_red = put q.is_red p c }

abbrev pub set_root : ℕ → Rq → Rq
set_root p q = record q { rb_root = p }

-- `RbSetParent`, `RbSetRed`, `RbSetBlack` and `RbIsRed`, which take a null pointer.
abbrev pub rb_set_parent : ℕ → ℕ → Rq → Rq
rb_set_parent p v q = if p == 0 then q else set_parent p v q

abbrev pub rb_set_red : ℕ → Rq → Rq
rb_set_red p q = if p == 0 then q else set_red p true q

abbrev pub rb_set_black : ℕ → Rq → Rq
rb_set_black p q = if p == 0 then q else set_red p false q

abbrev pub rb_is_red : ℕ → Rq → Bool
rb_is_red p q = not (p == 0) && q.is_red p

-- Where a process hangs from its parent, with the tests of each copy of the code in its order.
unfoldable pub hang : Side → ℕ → ℕ → Rq → Rq
hang sd x y q =
    let p : ℕ = q.parent x in
    if p == 0
    then set_root y q
    else if x == q.child sd p
    then set_child sd p y q
    else set_child (flip sd) p y q

-- The rotation of `x` to a side: `RbLeftRotate` to the left, `RbRightRotate` to the right.
unfoldable pub rotate : Side → ℕ → Rq → Rq
rotate sd x q =
    let y : ℕ = q.child (flip sd) x in
    let b : ℕ = q.child sd y in
    let q1 = set_child (flip sd) x b q in
    let q2 = if b == 0 then q1 else set_parent b x q1 in
    let q3 = set_parent y (q2.parent x) q2 in
    let q4 = hang sd x y q3 in
    if x == 0 || y == 0 || y == x then q else set_parent x y (set_child sd y x q4)

abbrev pub rb_left_rotate : ℕ → Rq → Rq
rb_left_rotate = rotate left

abbrev pub rb_right_rotate : ℕ → Rq → Rq
rb_right_rotate = rotate right

-- The side of a parent that a process is taken to be on.
unfoldable pub side_of : ℕ → ℕ → Rq → Side
side_of n p q = if n == q.child left p then left else right

-- A round of `RbInsertColorFixup` with the parent, the grandparent and the side of the parent: the node
-- of the next round.
unfoldable pub insert_round : Side → ℕ → ℕ → ℕ → Rq → ℕ × Rq
insert_round sd n parent grand q =
    let uncle : ℕ = q.child (flip sd) grand in
    let inner : Bool = n == q.child (flip sd) parent in
    let turned = rotate sd parent q in
    let n' : ℕ = if inner then parent else n in
    let q' = if inner then turned else q in
    let parent' : ℕ = if inner then turned.parent parent else parent in
    if rb_is_red uncle q
    then (grand, rb_set_red grand (rb_set_black uncle (rb_set_black parent q)))
    else (n', rotate (flip sd) grand (rb_set_red grand (rb_set_black parent' q')))

-- The loop of `RbInsertColorFixup`, with a bound for its rounds.
unfoldable pub insert_loop : ℕ → ℕ → Rq → Rq
insert_loop zero n q = q
insert_loop (suc rounds) n q =
    let parent : ℕ = q.parent n in
    let grand : ℕ = q.parent parent in
    let (n', q') = insert_round (side_of parent grand q) n parent grand q in
    let rest = insert_loop rounds n' q' in
    if n == 0 || not (rb_is_red parent q)
    then q
    else if grand == 0 || parent == n || grand == parent || grand == n
    then q
    else rest

-- `RbInsertColorFixup`
unfoldable pub insert_fixup : ℕ → ℕ → Rq → Rq
insert_fixup rounds n q = let q' = insert_loop rounds n q in rb_set_black q'.rb_root q'

-- `RbInitNode`
unfoldable pub init_node : ℕ → Rq → Rq
init_node n q = set_red n true (set_parent n 0 (set_child right n 0 (set_child left n 0 q)))

-- The loop of `RbInsert` from `x` on, which `y` is the parent of: the parent of the new node.
unfoldable pub descend : ℕ → (ℕ → ℕ) → ℕ → ℕ → ℕ → Rq → ℕ
descend zero vruntime n y x q = y
descend (suc rounds) vruntime n y x q =
    let sd : Side = if ltb (vruntime n) (vruntime x) then left else right in
    let rest = descend rounds vruntime n x (q.child sd x) q in if x == 0 then y else rest

-- The loop that finds the leftmost process below one.
unfoldable pub find_leftmost : ℕ → ℕ → Rq → ℕ
find_leftmost zero x q = x
find_leftmost (suc rounds) x q =
    let rest = find_leftmost rounds (q.child left x) q in if q.child left x == 0 then x else rest

-- The end of `RbInsert`.
unfoldable pub after_insert : ℕ → (ℕ → ℕ) → Rq → Rq
after_insert rounds vruntime q =
    let first : ℕ = find_leftmost rounds q.rb_root q in
    if q.rb_root == 0 then q else record q { leftmost = first; min_vruntime = vruntime first }

-- The new node below its parent, in `RbInsert`.
unfoldable pub attach : (ℕ → ℕ) → ℕ → ℕ → Rq → Rq
attach vruntime n y q =
    let q' = set_parent n y q in
    if y == 0
    then set_red n false (set_root n q')
    else if ltb (vruntime n) (vruntime y)
    then set_child left y n q'
    else set_child right y n q'

-- The colours after the new node is attached, in `RbInsert`.
unfoldable pub repair : ℕ → ℕ → Rq → Rq
repair rounds n q =
    let fixed_up = insert_fixup rounds n q in
    if q.parent n == 0
    then record q { leftmost = n }
    else if not (q.parent (q.parent n) == 0)
    then fixed_up
    else q

-- `RbInsert`, with the virtual run times of the processes, and a bound for the rounds of its loops.
unfoldable pub rb_insert : ℕ → (ℕ → ℕ) → ℕ → Rq → Rq
rb_insert rounds vruntime n q =
    let q1 = init_node n q in
    let q2 = attach vruntime n (descend rounds vruntime n 0 q1.rb_root q1) q1 in
    let q3 = repair rounds n q2 in if n == 0 then q else after_insert rounds vruntime q3

-- `RbReplaceNode`
unfoldable pub replace_node : ℕ → ℕ → Rq → Rq
replace_node u v q = rb_set_parent v ((hang left u v q).parent u) (hang left u v q)

-- How `RbEraseColorFixup` ends: with the tree, at a null pointer, or not within its rounds.
pub data Fixed : Type 0 where
  fixed : Rq → Fixed
  fault : Fixed
  unfinished : Fixed

-- The end of a round that has a red nephew, with the sibling.
unfoldable pub erase_turn : Side → ℕ → ℕ → Rq → Option Rq
erase_turn sd parent sibling q =
    let near : ℕ = q.child sd sibling in
    let far : ℕ = q.child (flip sd) sibling in
    let turned = rotate (flip sd) sibling (rb_set_red sibling (rb_set_black near q)) in
    let q' = if rb_is_red far q then q else turned in
    let sibling' : ℕ = q'.child (flip sd) parent in
    let painted = rb_set_red parent (rb_set_black (q'.child (flip sd) sibling') q') in
    if sibling' == 0 then none else some (rotate sd parent painted)

-- The sibling that a round goes on with.
unfoldable pub erase_sibling : Side → ℕ → Rq → Rq
erase_sibling sd parent q =
    let sibling : ℕ = q.child (flip sd) parent in
    if rb_is_red sibling q then rotate sd parent (rb_set_red parent (rb_set_black sibling q)) else q

-- The loop of `RbEraseColorFixup`, and what follows it.
unfoldable pub erase_fixup : ℕ → ℕ → ℕ → Rq → Fixed
erase_fixup zero n parent q = unfinished
erase_fixup (suc rounds) n parent q =
    let sd : Side = side_of n parent q in
    let q1 = erase_sibling sd parent q in
    let sibling : ℕ = q1.child (flip sd) parent in
    let black_nephews : Bool =
      not (rb_is_red (q1.child sd sibling) q1) && not (rb_is_red (q1.child (flip sd) sibling) q1) in
    let q2 = rb_set_red sibling q1 in
    let rest = erase_fixup rounds parent (q2.parent parent) q2 in
    if n == q.rb_root || parent == 0 || rb_is_red n q
    then fixed (rb_set_black n q)
    else if q.child (flip sd) parent == 0
    then fixed (rb_set_black n q)
    else if sibling == 0
    then fault
    else if black_nephews
    then rest
    else elim (erase_turn sd parent sibling q1) [
      | none ↦ fault
      | some q3 ↦ fixed (rb_set_black q3.rb_root q3)
    ]

-- The place of a process with two children is taken by its successor `y`, whose child is `x`.
unfoldable pub replace_by : ℕ → ℕ → Rq → Rq
replace_by n y q =
    let x : ℕ = q.child right y in
    let q1 = rb_set_parent x y q in
    let lifted = replace_node y x q1 in
    let moved = set_child right y (lifted.child right n) lifted in
    let q2 = if q1.parent y == n then q1 else rb_set_parent (moved.child right n) y moved in
    let q3 = replace_node n y q2 in
    let q4 = set_child left y (q3.child left n) q3 in
    let q5 = rb_set_parent (q4.child left n) y q4 in set_red y (q5.is_red n) q5

-- The branches of `RbErase`: the tree without the process, `x` and `x_parent`, and whether the colour that
-- is gone is red.
unfoldable pub unlink : ℕ → ℕ → Rq → Rq × ℕ × ℕ × Bool
unlink rounds n q =
    let l : ℕ = q.child left n in
    let r : ℕ = q.child right n in
    let y : ℕ = find_leftmost rounds r q in
    if l == 0
    then (replace_node n r q, r, q.parent n, rb_is_red n q)
    else if r == 0
    then (replace_node n l q, l, q.parent n, rb_is_red n q)
    else (replace_by n y q, q.child right y, y, rb_is_red y q)

-- The end of `RbErase`.
unfoldable pub after_erase : ℕ → (ℕ → ℕ) → Rq → Rq
after_erase rounds vruntime q =
    let first : ℕ = if q.rb_root == 0 then 0 else find_leftmost rounds q.rb_root q in
    record q { leftmost = first; min_vruntime = if first == 0 then 0 else vruntime first }

-- `RbErase`
unfoldable pub rb_erase : ℕ → (ℕ → ℕ) → ℕ → Rq → Fixed
rb_erase rounds vruntime n q =
    let (q1, x, x_parent, was_red) = unlink rounds n q in
    if n == 0
    then fixed q
    else elim (if x == 0 || was_red then fixed q1 else erase_fixup rounds x x_parent q1) [
      | fixed q2 ↦ fixed (after_erase rounds vruntime q2)
      | fault ↦ fault
      | unfinished ↦ unfinished
    ]
