-- ===== src/Vfs/Path/Longest.antt =====
-- `FindMountPoint` chooses the longest mount path that begins the path.
use info.Prelude.{
  ℕ, subst, ◌≤◌, ◌<◌, ◌≡◌, refl, sym, ap, ◌∙◌, ◌⊎◌, inl, inr, true, ◌&&◌, Option, none, some, List,
  [], ◌∷◌, arith, ltb, ◌==◌, Bool-cases, length,
}
use mathlib.Core.Option.{some-injective}
use info.Prelude.Bytes.{is_prefix}
use info.Vfs.Path.{MountFs, best_mount, find_mount_point}

abbrev pub Member : MountFs → List MountFs → Type 0
Member m [] = ⊥
Member m (x ∷ ms) = (m ≡ x) ⊎ Member m ms

-- `best` is `none` with length 0, or a prefix of the path of that length.
abbrev Candidate : List ℕ → Option MountFs → ℕ → Type 0
Candidate path none n = n ≡ 0
Candidate path (some m) n = (length m.path ≡ n) × (0 < n) × (is_prefix m.path path ≡ true)

-- The result of the loop is a candidate that is at least as long as each prefix in the list.
best_mount-Candidate :
    (path : List ℕ) (ms : List MountFs) (best : Option MountFs) (n : ℕ)
    → Candidate path best n
    → (len : ℕ) × Candidate path (best_mount path ms best n) len
      × (n ≤ len)
      × ((m : MountFs) → Member m ms → is_prefix m.path path ≡ true → length m.path ≤ len)
unfolding best_mount
best_mount-Candidate path [] best n c = (n, c, omega arith, λ m e. absurd e)
best_mount-Candidate path (x ∷ ms) best n c =
    elim (Bool-cases (is_prefix x.path path && ltb n (length x.path))) [
      | inl better ↦
          let (len, c', le, all) =
            best_mount-Candidate path ms (some x) (length x.path) (ground arith) in
          rw better (
            len,
            c',
            ground arith,
            λ m e. elim e [
              | inl here ↦ λ h. omega (arith, ap (λ (y : MountFs). length y.path) here, le)
              | inr later ↦ all m later
            ],
          )
      | inr worse ↦
          let (len, c', le, all) = best_mount-Candidate path ms best n c in
          rw worse (
            len,
            c',
            le,
            λ m e. elim e [
              | inl here ↦ λ h.
                  let e = ap (λ (y : MountFs). length y.path) here in
                  let h' = sym (ap (λ (y : MountFs). is_prefix y.path path) here) ∙ h in
                  ground arith
              | inr later ↦ all m later
            ],
          )
    ]

best_mount-Member :
    (path : List ℕ) (ms : List MountFs) (best : Option MountFs) (n : ℕ) (m : MountFs)
    → best_mount path ms best n ≡ some m
    → (best ≡ some m) ⊎ Member m ms
unfolding best_mount
best_mount-Member path [] best n m h = inl h
best_mount-Member path (x ∷ ms) best n m h =
    elim (Bool-cases (is_prefix x.path path && ltb n (length x.path))) [
      | inl better ↦ elim (best_mount-Member path ms (some x) (length x.path) m (rw better at h)) [
        | inl e ↦ inr (inl (sym (some-injective x m e)))
        | inr later ↦ inr (inr later)
      ]
      | inr worse ↦ elim (best_mount-Member path ms best n m (rw worse at h)) [
        | inl e ↦ inl e
        | inr later ↦ inr (inr later)
      ]
    ]

-- What it means for a mount to be the one of a path: it is in the list, its path begins the path, and
-- no other path that does is longer.
pub record IsLongest (path : List ℕ) (ms : List MountFs) (m : MountFs) : Type 0 where
  pub mounted : Member m ms
  pub begins : is_prefix m.path path ≡ true
  pub longest :
      (x : MountFs) → Member x ms → is_prefix x.path path ≡ true → length x.path ≤ length m.path

best_mount-IsLongest :
    (path : List ℕ) (ms : List MountFs) (m : MountFs)
    → best_mount path ms none 0 ≡ some m
    → IsLongest path ms m
best_mount-IsLongest path ms m h =
    let (len, c, _, all) = best_mount-Candidate path ms none 0 refl in
    let (same, _, begins) = subst (λ b. Candidate path b len) h c in
    record {
      mounted = elim (best_mount-Member path ms none 0 m h) [ inl e ↦ cc | inr e ↦ e ];
      begins = begins;
      longest = λ x e p. omega (arith, all x e p, same);
    }

-- The mount that FindMountPoint returns is in the list, its path is a prefix of the path, and no
-- mount in the list whose path is a prefix has a longer one.
pub find_mount_point-some :
    (path : List ℕ) (ms : List MountFs) (m : MountFs)
    → find_mount_point path ms ≡ some m
    → IsLongest path ms m
unfolding find_mount_point
find_mount_point-some [] ms m h = cc
find_mount_point-some (c ∷ path) ms m h = elim (Bool-cases (c == b'/')) [
  | inl slash ↦ best_mount-IsLongest (c ∷ path) ms m (rw slash at h)
  | inr other ↦ cc (rw other at h)
]

nil_of_length : (l : List ℕ) → length l ≤ 0 → l ≡ []
nil_of_length [] h = refl
nil_of_length (c ∷ l) h = absurd (omega arith)

-- If FindMountPoint finds nothing for a path that begins with a slash, every mount in the list
-- whose path is a prefix of it has the empty path.
find_mount_point-none :
    (path : List ℕ) (ms : List MountFs)
    → find_mount_point (b'/' ∷ path) ms ≡ none
    → (m : MountFs) → Member m ms
    → is_prefix m.path (b'/' ∷ path) ≡ true
    → m.path ≡ []
unfolding find_mount_point
find_mount_point-none path ms h m e p =
    let (len, c, _, all) = best_mount-Candidate (b'/' ∷ path) ms none 0 refl in
    let zero_len = subst (λ b. Candidate (b'/' ∷ path) b len) h c in
    nil_of_length m.path (omega (arith, all m e p, zero_len))
