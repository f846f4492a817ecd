-- ===== src/Task/Lock/Holders.antt =====
-- Who holds the spin lock.
use info.Prelude.{
  ℕ, suc, ◌≡◌, refl, ap, ◌∙◌, inl, inr, Bool, true, false, not, ◌&&◌, ◌||◌, some, List, [], ◌∷◌,
  arith, ◌==◌, Bool-cases,
}
use info.Task.Lock.{
  attempt, lock, try_lock, unlock, Call, locks, unlocks, Shared, without, turn, turns,
}

-- Whether a processor is among the holders.
unfoldable pub holds : ℕ → List ℕ → Bool
holds p [] = false
holds p (q ∷ qs) = p == q || holds p qs

-- What the calls of a processor alone say: whether it holds the lock after them, if it did before.
unfoldable pub after_own : ℕ → List Call → Bool → Bool
after_own p [] before = before
after_own p (locks q r ∷ cs) before = after_own p cs (p == q || before)
after_own p (unlocks q ∷ cs) before = after_own p cs (not (p == q) && before)

holds-without : (p q : ℕ) (qs : List ℕ) → holds p (without q qs) ≡ not (p == q) && holds p qs
unfolding holds without
holds-without p q [] = elim (Bool-cases (p == q)) [ inl e ↦ rw e refl | inr e ↦ rw e refl ]
holds-without p q (k ∷ qs) =
    let rest = holds-without p q qs in
    elim (Bool-cases (q == k)) [
      | inl e ↦ elim (Bool-cases (p == q)) [
        | inl f ↦ rw e (rest ∙ rw f refl)
        | inr f ↦ let g : (p == k) ≡ false = ground arith in rw (e, g) (rest ∙ rw f refl)
      ]
      | inr e ↦ elim (Bool-cases (p == k)) [
        | inl f ↦ let g : (p == q) ≡ false = ground arith in rw (e, f, g) refl
        | inr f ↦ rw (e, f) rest
      ]
    ]

own_calls :
    (p : ℕ) (cs : List Call) (s : Shared)
    → holds p (turns cs s).holders ≡ after_own p cs (holds p s.holders)
unfolding attempt lock unlock turn turns after_own holds
own_calls p [] s = refl
own_calls p (locks q r ∷ cs) s =
    own_calls p cs (record { spin = record { state = r }; holders = q ∷ s.holders })
own_calls p (unlocks q ∷ cs) s =
    own_calls p cs (record { spin = record { state = 0 }; holders = without q s.holders })
    ∙ ap (after_own p cs) (holds-without p q s.holders)

-- Whatever the state of the lock and whatever the register holds, SpinLock::lock returns in its
-- first round and try_lock returns true; and after any sequence of calls of lock and unlock by
-- processors, whether a processor holds the lock is decided by its own calls and by whether it
-- held it before, whatever the others do, so that any number of processors hold it at once.
pub turns-holds :
    (p : ℕ) (cs : List Call) (s : Shared)
    → ((rounds r : ℕ) → lock (suc rounds) r s.spin ≡ some (record { state = r }))
      × ((r : ℕ) → (try_lock r s.spin).0 ≡ true)
      × (holds p (turns cs s).holders ≡ after_own p cs (holds p s.holders))
unfolding attempt lock try_lock
turns-holds p cs s = (λ rounds r. refl, λ r. refl, own_calls p cs s)
