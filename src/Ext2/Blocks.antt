-- ===== src/Ext2/Blocks.antt =====
-- Blocks of a device that stores.
use native.Mathlib.Nat.{mul-le-mul_right, add-mul}
use info.Prelude.{
  ℕ, ◌+◌, ◌*◌, ◌≤◌, ◌≡◌, refl, ◌≢◌, inl, inr, true, some, List, arith, ltb, Bool-cases, length,
}
use info.Ext2.{Fs, sectors, read_block, write_block}
use info.Ext2.Device.{BlockDevice, Stores, sector_size}

-- The number of bytes that a block has on the device.
abbrev pub block_bytes : List ℕ → ℕ
block_bytes sb = sectors sb * sector_size

module _ {D : Type 0} {dev : BlockDevice D} (stores : Stores dev) (lba : ℕ) where
  pub read_block-length :
      (b : ℕ) (fs : Fs D) {buf : List ℕ}
      → read_block dev lba b fs ≡ some buf
      → length buf ≡ block_bytes fs.sb
  unfolding read_block
  read_block-length b fs e = stores.read_size e

  pub write_block-true :
      (b : ℕ) (buf : List ℕ) (fs : Fs D) → (write_block dev lba b buf fs).0 ≡ true
  unfolding write_block
  write_block-true b buf fs = stores.writes _ _ buf fs.disk

  pub read_block-write_block_self :
      (b : ℕ) (buf : List ℕ) (fs : Fs D)
      → length buf ≡ block_bytes fs.sb
      → read_block dev lba b (write_block dev lba b buf fs).1 ≡ some buf
  unfolding read_block write_block
  read_block-write_block_self b buf fs h = stores.read-write_self _ _ buf fs.disk h

  pub read_block-write_block_ne :
      (b c : ℕ) (buf : List ℕ) (fs : Fs D)
      → b ≢ c
      → read_block dev lba c (write_block dev lba b buf fs).1 ≡ read_block dev lba c fs
  unfolding read_block write_block
  read_block-write_block_ne b c buf fs ne =
      stores.read-write_apart _ _ _ _ buf fs.disk (elim (Bool-cases (ltb c b)) [
        | inl l ↦
            let below : c + 1 ≤ b = ground arith in
            inl (omega (arith, mul-le-mul_right (sectors fs.sb) below, add-mul c 1 (sectors fs.sb)))
        | inr l ↦
            let below : b + 1 ≤ c = ground arith in
            inr (omega (arith, mul-le-mul_right (sectors fs.sb) below, add-mul b 1 (sectors fs.sb)))
      ])

  pub write_block-sb :
      (b : ℕ) (buf : List ℕ) (fs : Fs D) → (write_block dev lba b buf fs).1.sb ≡ fs.sb
  unfolding write_block
  write_block-sb b buf fs = refl
