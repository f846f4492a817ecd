-- ===== src/Vfs/Mounts/Laws.antt =====
-- What the lists of file systems and mounts keep to.
use info.Prelude.{
  ℕ, ◌<◌, ◌≡◌, refl, sym, ap, ◌∙◌, ◌≢◌, ◌↔◌, inl, inr, Bool, true, false, ◌||◌, Option, none, some,
  List, [], ◌∷◌, arith, Bool-cases, Option-cases, length,
}
use info.Prelude.Int.{ℤ, pos, negsuc}
use info.Prelude.Bytes.{bytes_eq, bytes_eq→eq, bytes_eq_refl}
use info.Vfs.Path.{MountFs}
use info.Vfs.Mounts.{
  FileSystem, fault, search_name, register, get_file_system, is_mounted, mount, unlink, umount,
}

search_name-fault :
    (name : List ℕ) (fs : List FileSystem)
    → get_file_system name fs ≡ none
    → search_name name fs ≡ fault
unfolding search_name get_file_system
search_name-fault name [] h = refl
search_name-fault name (x ∷ fs) h = ground (arith, search_name-fault name fs)

-- Registering a file system of a name that is neither empty nor known, while another one is
-- registered, reads through a null pointer.
register-fault :
    (fs x : FileSystem) (registered : List FileSystem)
    → fs.name ≢ []
    → get_file_system fs.name (x ∷ registered) ≡ none
    → register fs (x ∷ registered) ≡ fault
unfolding register
register-fault fs x registered n h =
    ground (arith, search_name-fault fs.name (x ∷ registered), nonempty fs.name n)
  where
    nonempty : (l : List ℕ) → l ≢ [] → 0 < length l
    nonempty [] k = absurd (k refl)
    nonempty (c ∷ l) k = omega arith

-- No path is mounted twice.
abbrev pub Distinct : List MountFs → Type 0
Distinct [] = Unit {0}
Distinct (m ∷ ms) = (is_mounted m.path ms ≡ false) × Distinct ms

-- A file system whose `mount` keeps the path, which has room for 63 bytes.
abbrev pub KeepsPath : FileSystem → Type 0
KeepsPath fs =
    (make : List ℕ → List ℕ → ℕ → Option MountFs)
    → fs.mount ≡ some make
    → (device path : List ℕ) (flags : ℕ) (m : MountFs) → length path < 64
    → make device path flags ≡ some m
    → m.path ≡ path

umount-some :
    (path : List ℕ) (ms : List MountFs) (m : MountFs)
    → (unlink path ms).0 ≡ some m
    → umount path ms ≡ (pos 0, some m, (unlink path ms).1)
unfolding umount
umount-some path ms m e = rw (e, umount)

umount-none :
    (path : List ℕ) (ms : List MountFs)
    → (unlink path ms).0 ≡ none
    → umount path ms ≡ (negsuc 1, none, ms)
unfolding umount
umount-none path ms e = rw (e, umount)

unlink-first :
    (m : MountFs) (ms : List MountFs) (path : List ℕ)
    → m.path ≡ path
    → unlink path (m ∷ ms) ≡ (some m, ms)
unfolding unlink
unlink-first m ms path e =
    let same : bytes_eq m.path path ≡ true = ap (bytes_eq m.path) (sym e) ∙ bytes_eq_refl m.path in
    rw same

umount_first :
    (m : MountFs) (ms : List MountFs) (path : List ℕ)
    → m.path ≡ path
    → umount path (m ∷ ms) ≡ (pos 0, some m, ms)
umount_first m ms path e =
    let out = unlink-first m ms path e in
    umount-some path (m ∷ ms) m (ap (λ (o : Option MountFs × List MountFs). o.0) out)
    ∙ ap (λ (o : Option MountFs × List MountFs). (pos 0, some m, o.1)) out

-- The four ways in which `Mount` ends.
data Mounted (path : List ℕ) (ms : List MountFs) : ℤ × List MountFs → Type 0 where
  unknown : Mounted path ms (negsuc 1, ms)
  taken : Mounted path ms (negsuc 2, ms)
  failed : Mounted path ms (negsuc 3, ms)
  added :
      (m : MountFs) → is_mounted path ms ≡ false → m.path ≡ path → Mounted path ms (pos 0, m ∷ ms)

module _ (device path fs_type : List ℕ) (flags : ℕ) (registered : List FileSystem)
    (ms : List MountFs)
    (keeps : (fs : FileSystem) → get_file_system fs_type registered ≡ some fs → KeepsPath fs)
    (short : length path < 64) where
  mount_cases : Mounted path ms (mount device path fs_type flags registered ms)
  unfolding mount
  mount_cases = elim (Option-cases (get_file_system fs_type registered)) [
    | inl e ↦ rw (e, mount) unknown
    | inr (fs, e) ↦ elim (Option-cases fs.mount) [
      | inl e' ↦ simp (e, mount, e') unknown
      | inr (make, e') ↦ elim (Bool-cases (is_mounted path ms)) [
        | inl b ↦ simp (e, mount, e', b) taken
        | inr b ↦ elim (Option-cases (make device path flags)) [
          | inl r ↦ simp (e, mount, e', b, r) failed
          | inr (m, r) ↦
              simp (e, mount, e', b, r) (added m b (keeps fs e make e' device path flags m short r))
        ]
      ]
    ]
  ]

  -- If the file system found for the type keeps the path that it is given, and the path has
  -- fewer than 64 bytes, Mount keeps the paths of the mounts distinct, whether it succeeds or
  -- not.
  pub mount-Distinct : Distinct ms → Distinct (mount device path fs_type flags registered ms).1
  mount-Distinct d = go mount_cases
    where
      go : {out : ℤ × List MountFs} → Mounted path ms out → Distinct out.1
      go unknown = d
      go taken = d
      go failed = d
      go (added m fresh e) = (ap (λ p. is_mounted p ms) e ∙ fresh, d)

  -- If the file system found for the type keeps the path that it is given, and the path has
  -- fewer than 64 bytes, Umount of the path after a Mount that succeeds succeeds, takes out one
  -- mount, and gives back the list of mounts before.
  pub umount-mount :
      (mount device path fs_type flags registered ms).0 ≡ pos 0
      → (m : MountFs) × (umount path (mount device path fs_type flags registered ms).1
          ≡ (pos 0, some m, ms))
  umount-mount ok = go mount_cases ok
    where
      go :
          {out : ℤ × List MountFs}
          → Mounted path ms out
          → out.0 ≡ pos 0
          → (m : MountFs) × (umount path out.1 ≡ (pos 0, some m, ms))
      go unknown h = cc
      go taken h = cc
      go failed h = cc
      go (added m fresh e) h = (m, umount_first m ms path e)

unlink-is_mounted :
    (path q : List ℕ) (ms : List MountFs)
    → bytes_eq path q ≡ false
    → is_mounted q (unlink path ms).1 ≡ is_mounted q ms
unfolding unlink is_mounted
unlink-is_mounted path q [] h = refl
unlink-is_mounted path q (m ∷ ms) h = elim (Bool-cases (bytes_eq m.path path)) [
  | inl e ↦ rw e (ground (arith, ap (λ p. bytes_eq p q) (bytes_eq→eq m.path path e)))
  | inr n ↦ rw n (ap (λ b. bytes_eq m.path q || b) (unlink-is_mounted path q ms h))
]

unlink-gone :
    (path : List ℕ) (ms : List MountFs) → Distinct ms → is_mounted path (unlink path ms).1 ≡ false
unfolding unlink is_mounted
unlink-gone path [] d = refl
unlink-gone path (m ∷ ms) d = elim (Bool-cases (bytes_eq m.path path)) [
  | inl e ↦ rw e (ap (λ p. is_mounted p ms) (sym (bytes_eq→eq m.path path e)) ∙ d.0)
  | inr n ↦ rw n (rw n (unlink-gone path ms d.1))
]

abbrev is_some : Option MountFs → Bool
is_some none = false
is_some (some m) = true

is_mounted-unlink :
    (path : List ℕ) (ms : List MountFs) → is_mounted path ms ≡ is_some (unlink path ms).0
unfolding unlink is_mounted
is_mounted-unlink path [] = refl
is_mounted-unlink path (m ∷ ms) = elim (Bool-cases (bytes_eq m.path path)) [
  | inl e ↦ rw e refl
  | inr n ↦ rw n (is_mounted-unlink path ms)
]

-- On mounts with distinct paths, Umount succeeds exactly if the path is mounted; afterwards it
-- is not mounted, and every other path is mounted or not as before.
umount_lem :
    (path : List ℕ) (ms : List MountFs)
    → Distinct ms
    → let out = umount path ms in
      ((out.0 ≡ pos 0) ↔ (is_mounted path ms ≡ true))
      × (is_mounted path out.2 ≡ false)
      × ((q : List ℕ) → bytes_eq path q ≡ false → is_mounted q out.2 ≡ is_mounted q ms)
umount_lem path ms d = elim (Option-cases (unlink path ms).0) [
  | inl e ↦
      let absent = is_mounted-unlink path ms ∙ ap is_some e in
      rw (umount-none path ms e) ((λ h. cc, λ h. cc), absent, λ q n. refl)
  | inr (m, e) ↦
      let present = is_mounted-unlink path ms ∙ ap is_some e in
      rw (umount-some path ms m e)
        ((λ h. present, λ h. refl), unlink-gone path ms d, λ q n. unlink-is_mounted path q ms n)
]
