-- ===== src/Ext2/BlockMap/Chains.antt =====
-- Chains of blocks of pointers, and what a write to a block leaves of them.
use info.Prelude.{
  ℕ, ◌+◌, ◌*◌, ◌≤◌, ◌≡◌, refl, sym, ◌∙◌, ◌≢◌, inl, inr, false, some, List, [], ◌∷◌, arith, ◌==◌,
  Option-cases, length,
}
use info.Prelude.Words.{word32}
use info.Ext2.Device.{BlockDevice, Stores}
use info.Ext2.{Fs, read_block, write_block}
use info.Ext2.Blocks.{read_block-write_block_ne}
use info.Ext2.BlockMap.{walk}

module _ {D : Type 0} (dev : BlockDevice D) (lba : ℕ) where
  -- The block `c` is none of the blocks of pointers that the walk reads.
  unfoldable pub NotOn : ℕ → List ℕ → ℕ → Fs D → Type 0
  NotOn c [] b fs = Unit {0}
  NotOn c (i ∷ is) b fs =
      (c ≢ b)
      × ((buf : List ℕ) → read_block dev lba b fs ≡ some buf → NotOn c is (word32 (4 * i) buf) fs)

  -- Every block of pointers of the walk is there, can be read and holds the index, and none comes
  -- twice.
  unfoldable pub Chain : List ℕ → ℕ → Fs D → Type 0
  Chain [] b fs = Unit {0}
  Chain (i ∷ is) b fs =
      (b ≢ 0)
      × ((buf : List ℕ) × (read_block dev lba b fs ≡ some buf)
          × (4 * i + 4 ≤ length buf)
          × NotOn b is (word32 (4 * i) buf) fs
          × Chain is (word32 (4 * i) buf) fs)

  -- Two states that read every block of the walk alike.
  unfoldable pub Same : ℕ → Fs D → Fs D → Type 0
  Same c fs fs' = (d : ℕ) → c ≢ d → read_block dev lba d fs' ≡ read_block dev lba d fs

  pub NotOn-Same :
      (c x : ℕ) (is : List ℕ) (b : ℕ) (fs fs' : Fs D)
      → Same c fs fs'
      → NotOn c is b fs
      → NotOn x is b fs
      → NotOn x is b fs'
  unfolding NotOn Same
  NotOn-Same c x [] b fs fs' same off on = tt
  NotOn-Same c x (i ∷ is) b fs fs' same off on = (
    on.0,
    λ buf e.
        let f = sym (same b off.0) ∙ e in
        NotOn-Same c x is (word32 (4 * i) buf) fs fs' same (off.1 buf f) (on.1 buf f),
  )

  pub Chain-Same :
      (c : ℕ) (is : List ℕ) (b : ℕ) (fs fs' : Fs D)
      → Same c fs fs'
      → NotOn c is b fs
      → Chain is b fs
      → Chain is b fs'
  unfolding NotOn Chain Same
  Chain-Same c [] b fs fs' same off on = tt
  Chain-Same c (i ∷ is) b fs fs' same off (nz, (buf, e, fits, alone, rest)) =
      let below = off.1 buf e in
      (
        nz,
        (
          buf,
          same b off.0 ∙ e,
          fits,
          NotOn-Same c b is (word32 (4 * i) buf) fs fs' same below alone,
          Chain-Same c is (word32 (4 * i) buf) fs fs' same below rest,
        ),
      )

  pub walk-some :
      (i : ℕ) (is : List ℕ) (b : ℕ) (fs : Fs D) {buf : List ℕ}
      → b ≢ 0
      → read_block dev lba b fs ≡ some buf
      → walk dev lba (i ∷ is) b fs ≡ walk dev lba is (word32 (4 * i) buf) fs
  unfolding walk
  walk-some i is b fs nz e =
      let not_zero : (b == 0) ≡ false = ground arith in rw (not_zero, e, walk)

  pub Same-write_block :
      (stores : Stores dev) (c : ℕ) (buf : List ℕ) (fs : Fs D)
      → Same c fs (write_block dev lba c buf fs).1
  unfolding Same
  Same-write_block stores c buf fs d ne = read_block-write_block_ne stores lba c d buf fs ne

  -- A walk is the same in both.
  pub walk-Same :
      (c : ℕ) (is : List ℕ) (b : ℕ) (fs fs' : Fs D)
      → Same c fs fs'
      → NotOn c is b fs
      → walk dev lba is b fs' ≡ walk dev lba is b fs
  unfolding walk NotOn Same
  walk-Same c [] b fs fs' same off = refl
  walk-Same c (i ∷ is) b fs fs' same off = elim (Option-cases (read_block dev lba b fs)) [
    | inl e ↦ rw (same b off.0, e) refl
    | inr (buf, e) ↦
        let below = walk-Same c is (word32 (4 * i) buf) fs fs' same (off.1 buf e) in
        rw (same b off.0, e, below) refl
  ]
