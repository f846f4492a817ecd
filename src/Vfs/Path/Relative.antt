-- ===== src/Vfs/Path/Relative.antt =====
-- What `ExtractRelativePath` hands to the file system of a mount.
use info.Prelude.{
  ℕ, ◌-◌, ◌≤◌, ◌<◌, ◌≡◌, refl, sym, ◌≢◌, inl, inr, true, ◌&&◌, List, [], ◌∷◌, ◌++◌, arith, ◌==◌,
  Bool-cases, length, length-append, drop, length-take, take_all,
}
use info.Prelude.Bytes.{bytes_eq, drop-append}
use info.Vfs.Path.{MountFs, skip_slash, copy_path, extract_relative_path}

-- The path below a mount, after one slash; the mount itself is "/".
abbrev pub below : List ℕ → List ℕ
below [] = b'/' ∷ []
below (c ∷ rel) = c ∷ rel

copy_path-fits : (rel : List ℕ) (size : ℕ) → length rel < size → copy_path rel size ≡ below rel
unfolding copy_path
copy_path-fits [] size h = refl
copy_path-fits (c ∷ rel) size h = take_all (size - 1) (c ∷ rel) (omega arith)

length-copy_path : (rel : List ℕ) (size : ℕ) → 1 < size → length (copy_path rel size) < size
unfolding copy_path
length-copy_path [] size h = h
length-copy_path (c ∷ rel) size h = omega (arith, length-take (size - 1) (c ∷ rel))

-- Whatever the mount and the path, what ExtractRelativePath writes fits a buffer of more than
-- one byte with its terminator.
length-extract_relative_path :
    (m : MountFs) (full : List ℕ) (size : ℕ)
    → 1 < size
    → length (extract_relative_path m full size) < size
unfolding extract_relative_path
length-extract_relative_path m full size h =
    elim (Bool-cases (bytes_eq m.path (b'/' ∷ []) && length full == 1)) [
      | inl root ↦ rw root h
      | inr other ↦ rw other (length-copy_path (skip_slash (drop (length m.path) full)) size h)
    ]

below_nil : (rest : List ℕ) → rest ≡ [] → below (skip_slash rest) ≡ b'/' ∷ []
unfolding skip_slash
below_nil [] e = refl
below_nil (c ∷ rest) e = cc

nil_of_root :
    (p r : List ℕ) → p ≢ [] → (bytes_eq p (b'/' ∷ []) && length (p ++ r) == 1) ≡ true → r ≡ []
nil_of_root [] r n h = absurd (n refl)
nil_of_root (c ∷ p) [] n h = refl
nil_of_root (c ∷ p) (d ∷ r) n h = ground (arith, length-append p (d ∷ r))

length-skip_slash : (r : List ℕ) → length (skip_slash r) ≤ length r
unfolding skip_slash
length-skip_slash [] = omega arith
length-skip_slash (c ∷ r) = ground arith

-- For a path that is a mount path, not empty, followed by a rest shorter than the buffer,
-- ExtractRelativePath gives the rest less one leading slash, or "/" if nothing is left; the rest
-- need not begin with a slash.
extract_append :
    (m : MountFs) (rest : List ℕ) (size : ℕ)
    → m.path ≢ []
    → length rest < size
    → extract_relative_path m (m.path ++ rest) size ≡ below (skip_slash rest)
unfolding extract_relative_path
extract_append m rest size h fits =
    elim (Bool-cases (bytes_eq m.path (b'/' ∷ []) && length (m.path ++ rest) == 1)) [
      | inl root ↦ rw root (sym (below_nil rest (nil_of_root m.path rest h root)))
      | inr other ↦
          rw (other, drop-append m.path rest)
            (copy_path-fits (skip_slash rest) size (omega (arith, length-skip_slash rest)))
    ]
