-- ===== src/Ext2/Dir/Entries.antt =====
-- The entries of a block of a directory, and what a loop over them finds.
use info.Prelude.{
  ℕ, subst, zero, suc, ◌+◌, ◌≤◌, ◌<◌, ◌≡◌, refl, sym, inl, inr, true, false, List, arith, ltb, ◌==◌,
  ltb→lt, Bool-cases,
}
use info.Ext2.Dir.{d_rec_len, Scan, hit, miss, endless, matches, find_in}

-- The offset of the entry that comes `k` after the one at an offset.
unfoldable pub entry_at : ℕ → ℕ → List ℕ → ℕ
entry_at zero at buf = at
entry_at (suc k) at buf = entry_at k (at + d_rec_len at buf) buf

-- What a search from an offset should give: the first entry of the block that matches; that none
-- does; or that an entry of length 0 comes before one that does.
unfoldable pub Finds : ℕ → List ℕ → ℕ → List ℕ → Scan ℕ → Type 0
Finds size name at buf (hit p) =
    (k : ℕ) × (p ≡ entry_at k at buf)
    × (p < size)
    × (matches name p buf ≡ true)
    × ((j : ℕ) → j < k → matches name (entry_at j at buf) buf ≡ false)
Finds size name at buf miss =
    (k : ℕ) → entry_at k at buf < size → matches name (entry_at k at buf) buf ≡ false
Finds size name at buf endless =
    (k : ℕ) × (entry_at k at buf < size)
    × (d_rec_len (entry_at k at buf) buf ≡ 0)
    × ((j : ℕ) → j ≤ k → matches name (entry_at j at buf) buf ≡ false)

entry_at-grows : (k at : ℕ) (buf : List ℕ) → at ≤ entry_at k at buf
unfolding entry_at
entry_at-grows zero at buf = omega arith
entry_at-grows (suc k) at buf = omega (arith, entry_at-grows k (at + d_rec_len at buf) buf)

each : (P : ℕ → Type 0) → P 0 → ((j : ℕ) → P (suc j)) → (j : ℕ) → P j
each P p f zero = p
each P p f (suc j) = f j

module _ (size : ℕ) (name : List ℕ) where
  -- A search past an entry that does not match.
  Finds-next :
      (at : ℕ) (buf : List ℕ) (r : Scan ℕ)
      → matches name at buf ≡ false
      → Finds size name (at + d_rec_len at buf) buf r
      → Finds size name at buf r
  unfolding Finds entry_at
  Finds-next at buf (hit p) m (k, e, f, g, before) = (
    suc k,
    e,
    f,
    g,
    each (λ j. j < suc k → matches name (entry_at j at buf) buf ≡ false) (λ h. m)
        (λ j h. before j (omega arith)),
  )
  Finds-next at buf miss m none_below =
      each (λ k. entry_at k at buf < size → matches name (entry_at k at buf) buf ≡ false) (λ h. m)
        none_below
  Finds-next at buf endless m (k, f, g, before) = (
    suc k,
    f,
    g,
    each (λ j. j ≤ suc k → matches name (entry_at j at buf) buf ≡ false) (λ h. m)
        (λ j h. before j (omega arith)),
  )

  Finds-past : (at : ℕ) (buf : List ℕ) → size ≤ at → Finds size name at buf miss
  unfolding Finds
  Finds-past at buf h k below = absurd (omega (arith, entry_at-grows k at buf))

  -- An entry of length 0 keeps the loop in place.
  find_in-stuck :
      (rounds at : ℕ) (buf : List ℕ)
      → at < size
      → matches name at buf ≡ false
      → d_rec_len at buf ≡ 0
      → find_in rounds size name at buf ≡ endless
  unfolding find_in
  find_in-stuck zero at buf l m z = let on : ltb at size ≡ true = ground arith in rw (on, find_in)
  find_in-stuck (suc rounds) at buf l m z =
      let on : ltb at size ≡ true = ground arith in
      let again : at + d_rec_len at buf ≡ at = omega (arith, z) in
      rw (on, m, again) (find_in-stuck rounds at buf l m z)

  -- With enough rounds to cross the block, the loop of FindEntry from an offset on stops at the
  -- first entry that matches, with none before it; or passes the end, and then no entry of the
  -- block matches; or stays at an entry of length 0 for ever, and then one is reached in the
  -- block with no match up to it.
  pub find_in_lem :
      (rounds at : ℕ) (buf : List ℕ)
      → size ≤ at + rounds
      → Finds size name at buf (find_in rounds size name at buf)
  unfolding find_in Finds entry_at
  find_in_lem zero at buf enough =
      let past : ltb at size ≡ false = ground arith in rw past (Finds-past at buf (omega arith))
  find_in_lem (suc rounds) at buf enough = elim (Bool-cases (ltb at size)) [
    | inr past ↦ rw past (Finds-past at buf (ground arith))
    | inl on ↦ elim (Bool-cases (matches name at buf)) [
      | inl m ↦ rw (on, m) (0, refl, ltb→lt at size on, m, λ j h. absurd (omega arith))
      | inr m ↦ elim (Bool-cases (d_rec_len at buf == 0)) [
        | inl z ↦
            let zero_length : d_rec_len at buf ≡ 0 = ground arith in
            let l = ltb→lt at size on in
            subst (Finds size name at buf) (sym (find_in-stuck (suc rounds) at buf l m zero_length))
              (
                0,
                l,
                zero_length,
                each (λ j. j ≤ 0 → matches name (entry_at j at buf) buf ≡ false) (λ h. m)
                    (λ j h. absurd (omega arith)),
              )
        | inr p ↦
            rw (on, m)
              (Finds-next at buf (find_in rounds size name (at + d_rec_len at buf) buf) m
                (find_in_lem rounds (at + d_rec_len at buf) buf (ground arith)))
      ]
    ]
  ]
