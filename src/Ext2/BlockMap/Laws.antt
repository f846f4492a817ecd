-- ===== src/Ext2/BlockMap/Laws.antt =====
-- What `SetBlockNum` stores where no block of pointers is missing, and what `GetBlockNum` then gives.
use info.Prelude.{
  ℕ, subst, ◌*◌, ◌^◌, ◌<◌, ◌≡◌, refl, sym, ap, ◌∙◌, ◌≢◌, true, false, some, List, [], ◌∷◌, arith,
  ◌==◌, if◌then◌else◌,
}
use info.Prelude.Int.{ℤ, pos, negsuc}
use info.Prelude.Words.{word32, put32, length-put32, word32-put32_self}
use info.Ext2.Device.{BlockDevice, Stores}
use info.Ext2.{Fs, read_block, write_block}
use info.Ext2.Blocks.{
  read_block-length, write_block-true, read_block-write_block_self, write_block-sb,
}
use info.Ext2.BlockMap.{go, walk, next_block, store}
use info.Ext2.BlockMap.Chains.{
  NotOn, Chain, Same, NotOn-Same, Chain-Same, walk-some, Same-write_block,
}

module _ {D : Type 0} (dev : BlockDevice D) (lba : ℕ) where
  -- What a call that stored `num` at the end of a walk left.
  pub record Stored (is : List ℕ) (b num : ℕ) (fs : Fs D) (out : ℤ × Fs D) : Type 0 where
    pub succeeds : out.0 ≡ pos 0
    pub found : walk dev lba is b out.1 ≡ num
    pub others :
        (d : ℕ) → NotOn dev lba d is b fs → read_block dev lba d out.1 ≡ read_block dev lba d fs
    pub same_sb : out.1.sb ≡ fs.sb

  store-last :
      (i b num : ℕ) (fs : Fs D) {buf : List ℕ}
      → read_block dev lba b fs ≡ some buf
      → store dev lba (i ∷ []) b num fs ≡ (
        if (write_block dev lba b (put32 (4 * i) num buf) fs).0 then pos 0 else negsuc 4,
        (write_block dev lba b (put32 (4 * i) num buf) fs).1,
      )
  unfolding store
  store-last i b num fs e = rw (e, store)

  next_block-go :
      (i : ℕ) (buf : List ℕ) (num : ℕ) (fs : Fs D)
      → word32 (4 * i) buf ≢ 0
      → next_block dev lba i buf num fs ≡ go (word32 (4 * i) buf) buf fs
  unfolding next_block
  next_block-go i buf num fs nz =
      let there : (word32 (4 * i) buf == 0) ≡ false = ground arith in rw there refl

  store-next :
      (i j : ℕ) (is : List ℕ) (b num : ℕ) (fs : Fs D) {buf : List ℕ}
      → read_block dev lba b fs ≡ some buf
      → word32 (4 * i) buf ≢ 0
      → (write_block dev lba b buf fs).0 ≡ true
      → store dev lba (i ∷ j ∷ is) b num fs
        ≡ store dev lba (j ∷ is) (word32 (4 * i) buf) num (write_block dev lba b buf fs).1
  unfolding store
  store-next i j is b num fs {buf} e nz ok =
      let on = next_block-go i buf num fs nz in rw (e, on, ok, store)

  module _ (stores : Stores dev) where
    store_last_lem :
        (i b num : ℕ) (fs : Fs D)
        → num < 2 ^ 32
        → Chain dev lba (i ∷ []) b fs
        → Stored (i ∷ []) b num fs (store dev lba (i ∷ []) b num fs)
    unfolding Chain NotOn walk Same
    store_last_lem i b num fs small (nz, (buf, e, fits, alone, rest)) =
        let new : List ℕ = put32 (4 * i) num buf in
        let fs' : Fs D = (write_block dev lba b new fs).1 in
        let ok = write_block-true stores lba b new fs in
        let size = length-put32 (4 * i) num buf ∙ read_block-length stores lba b fs e in
        let back = read_block-write_block_self stores lba b new fs size in
        let call : store dev lba (i ∷ []) b num fs ≡ (pos 0, fs') =
          store-last i b num fs {buf = buf} e ∙ ap (λ c. (if c then pos 0 else negsuc 4, fs')) ok in
        subst (Stored (i ∷ []) b num fs) (sym call) (record {
          succeeds = refl;
          found =
              walk-some dev lba i [] b fs' {buf = new} nz back
              ∙ word32-put32_self (4 * i) num buf fits small;
          others = λ d off. Same-write_block dev lba stores b new fs d (λ q. off.0 (sym q));
          same_sb = write_block-sb stores lba b new fs;
        })

    pub store_lem :
        (i : ℕ) (is : List ℕ) (b num : ℕ) (fs : Fs D)
        → num < 2 ^ 32
        → Chain dev lba (i ∷ is) b fs
        → Stored (i ∷ is) b num fs (store dev lba (i ∷ is) b num fs)
    unfolding Chain NotOn Same
    store_lem i [] b num fs small chain = store_last_lem i b num fs small chain
    store_lem i (j ∷ is) b num fs small (nz, (buf, e, fits, alone, rest)) =
        let next : ℕ = word32 (4 * i) buf in
        let fs1 : Fs D = (write_block dev lba b buf fs).1 in
        let same : Same dev lba b fs fs1 = Same-write_block dev lba stores b buf fs in
        let size = read_block-length stores lba b fs e in
        let back = read_block-write_block_self stores lba b buf fs size in
        let call =
          store-next i j is b num fs {buf = buf} e rest.0 (write_block-true stores lba b buf fs) in
        let below : Chain dev lba (j ∷ is) next fs1 =
          Chain-Same dev lba b (j ∷ is) next fs fs1 same alone rest in
        let out : ℤ × Fs D = store dev lba (j ∷ is) next num fs1 in
        let k : Stored (j ∷ is) next num fs1 out = store_lem j is next num fs1 small below in
        let alone1 : NotOn dev lba b (j ∷ is) next fs1 =
          NotOn-Same dev lba b b (j ∷ is) next fs fs1 same alone alone in
        subst (Stored (i ∷ j ∷ is) b num fs) (sym call) (record {
          succeeds = k.succeeds;
          found =
              walk-some dev lba i (j ∷ is) b out.1 {buf = buf} nz (k.others b alone1 ∙ back)
              ∙ k.found;
          others = λ d off.
              k.others d (NotOn-Same dev lba b d (j ∷ is) next fs fs1 same alone (off.1 buf e))
              ∙ same d (λ q. off.0 (sym q));
          same_sb = k.same_sb ∙ write_block-sb stores lba b buf fs;
        })
