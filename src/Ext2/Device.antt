-- ===== src/Ext2/Device.antt =====
-- `BlockDevice` of include/kernel/block.h, as far as ext2 uses it: `Read` and `Write`, which each
-- driver defines. A driver is a parameter.
use info.Prelude.{ℕ, ◌+◌, ◌*◌, ◌≤◌, ◌≡◌, ◌⊎◌, Bool, true, Option, some, List, length}

-- `D` is the state of the disk. The arguments are the first sector and the number of sectors; `none`
-- and `false` are results other than 0. `behind` is what lies in memory behind a buffer that a read
-- has filled: some calls read past the end of the buffer, and no code says what is there.
pub record BlockDevice (D : Type 0) : Type 0 where
  pub read : ℕ → ℕ → D → Option (List ℕ)
  pub write : ℕ → ℕ → List ℕ → D → Bool × D
  pub behind : List ℕ

-- `dev->sector_size`
abbrev pub sector_size : ℕ
sector_size = 512

-- What is asked of a device that stores: a write that goes through is read back, and what is read
-- elsewhere stays. A read can fail.
pub record Stores {D : Type 0} (dev : BlockDevice D) : Type 0 where
  pub read_size :
      {s n : ℕ} {d : D} {buf : List ℕ} → dev.read s n d ≡ some buf → length buf ≡ n * sector_size
  pub writes : (s n : ℕ) (buf : List ℕ) (d : D) → (dev.write s n buf d).0 ≡ true
  pub read-write_self :
      (s n : ℕ) (buf : List ℕ) (d : D)
      → length buf ≡ n * sector_size
      → dev.read s n (dev.write s n buf d).1 ≡ some buf
  pub read-write_apart :
      (s n t m : ℕ) (buf : List ℕ) (d : D)
      → (t + m ≤ s) ⊎ (s + n ≤ t)
      → dev.read t m (dev.write s n buf d).1 ≡ dev.read t m d
