-- ===== src/Task/RbTree/Keys.antt =====
-- The processes of a tree in order, and what keeps that order.
use info.Prelude.{
  ℕ, ap₂, suc, ◌+◌, ◌<◌, ◌≡◌, refl, sym, ap, ◌∙◌, Bool, true, false, List, [], ◌∷◌, ◌++◌,
  append-nil, append_assoc, arith,
}
use info.Task.RbTree.{Side, left, right}
use info.Task.RbTree.Trees.{Tree, leaf, node, fork, plug, Ctx, top, under}
use info.Task.RbTree.Fixup.{settle, fix}

unfoldable pub keys : Tree → List ℕ
keys leaf = []
keys (node c l k r) = keys l ++ k ∷ keys r

unfoldable pub size : Tree → ℕ
size leaf = 0
size (node c l k r) = suc (size l + size r)

pub size-fork :
    (sd : Side) (c : Bool) (near : Tree) (k : ℕ) (far : Tree)
    → size (fork sd c near k far) ≡ suc (size near + size far)
unfolding size fork
size-fork left c near k far = refl
size-fork right c near k far = omega arith

-- The processes before and after the hole.
unfoldable pub before : Ctx → List ℕ
before top = []
before (under left c k far up) = before up
before (under right c k far up) = before up ++ keys far ++ k ∷ []

unfoldable pub after : Ctx → List ℕ
after top = []
after (under left c k far up) = k ∷ keys far ++ after up
after (under right c k far up) = after up

pub keys-plug : (c : Ctx) (t : Tree) → keys (plug c t) ≡ before c ++ keys t ++ after c
unfolding keys plug before after fork
keys-plug top t = sym (append-nil (keys t))
keys-plug (under left c k far up) t = keys-plug up (node c t k far) ∙ simp (append_assoc)
keys-plug (under right c k far up) t = keys-plug up (node c far k t) ∙ simp (append_assoc)

-- The same processes in a hole.
pub plug_same : (c : Ctx) (s t : Tree) → keys s ≡ keys t → keys (plug c s) ≡ keys (plug c t)
plug_same c s t e = keys-plug c s ∙ ap (λ l. before c ++ l ++ after c) e ∙ sym (keys-plug c t)

pub recoloured :
    (sd : Side) (c d : Bool) (near near' far far' : Tree) (k : ℕ)
    → keys near ≡ keys near'
    → keys far ≡ keys far'
    → keys (fork sd c near k far) ≡ keys (fork sd d near' k far')
unfolding keys fork
recoloured left c d near near' far far' k e f = ap₂ (λ l m. l ++ k ∷ m) e f
recoloured right c d near near' far far' k e f = ap₂ (λ l m. m ++ k ∷ l) e f

same_keys : (l r : Tree) (k : ℕ) → keys (node false l k r) ≡ keys (node true l k r)
unfolding keys
same_keys l r k = refl

keys-settle :
    (sd sd' : Side) (g : Bool) (t : Tree) (k : ℕ) (o : Tree) (j : ℕ) (uncle : Tree)
    → 0 < size t
    → keys (settle sd sd' t k o j uncle) ≡ keys (fork sd' g (fork sd true t k o) j uncle)
unfolding settle keys fork size
keys-settle left left g t k o j uncle has =
    sym (append_assoc (keys t) (k ∷ keys o) (j ∷ keys uncle))
keys-settle right right g t k o j uncle has = append_assoc (keys uncle) (j ∷ keys o) (k ∷ keys t)
keys-settle right left g leaf k o j uncle has = absurd (omega arith)
keys-settle left right g leaf k o j uncle has = absurd (omega arith)
keys-settle right left g (node rt ta n tb) k o j uncle has = simp (append_assoc)
keys-settle left right g (node rt tb n ta) k o j uncle has = simp (append_assoc)

-- What `fix` turns a tree into has the same processes in the same order.
pub keys-fix : (c : Ctx) (t : Tree) → 0 < size t → keys (fix c t) ≡ keys (plug c t)
unfolding fix plug
keys-fix top t has = refl
keys-fix (under sd false k o up) t has = refl
keys-fix (under sd true k o top) t has = refl
keys-fix (under sd true k o (under sd' g j (node true ul u ur) up)) t has =
    let new : Tree = fork sd' true (fork sd false t k o) j (node false ul u ur) in
    keys-fix up new (omega (arith, size-fork sd' true (fork sd false t k o) j (node false ul u ur)))
    ∙ plug_same up new (fork sd' g (fork sd true t k o) j (node true ul u ur)) (
        recoloured sd' true g (fork sd false t k o) (fork sd true t k o) (node false ul u ur)
          (node true ul u ur) j (recoloured sd false true t t o o k refl refl) (same_keys ul ur u))
keys-fix (under sd true k o (under sd' g j (node false ul u ur) up)) t has =
    plug_same up (settle sd sd' t k o j (node false ul u ur))
      (fork sd' g (fork sd true t k o) j (node false ul u ur))
      (keys-settle sd sd' g t k o j (node false ul u ur) has)
keys-fix (under sd true k o (under sd' g j leaf up)) t has =
    plug_same up (settle sd sd' t k o j leaf) (fork sd' g (fork sd true t k o) j leaf)
      (keys-settle sd sd' g t k o j leaf has)
