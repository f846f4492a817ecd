-- ===== src/Ext2/BlockMap.antt =====
-- `GetBlockNum` and `SetBlockNum` of fs/ext2/inode.cc: the direct, indirect, double and triple
-- indirect blocks of an inode.
pub mod Chains
pub mod Laws
use info.Prelude.{
  ℕ, subst, ap₂, zero, suc, ◌+◌, ◌-◌, ◌*◌, ◌/◌, ◌%◌, ◌^◌, ◌≤◌, ◌<◌, min, ◌≡◌, refl, sym, ap, ◌∙◌,
  ◌≢◌, ◌↔◌, ◌⊎◌, inl, inr, Bool, true, false, not, ◌&&◌, ◌||◌, Option, none, some, List, [], ◌∷◌,
  ◌++◌, map, append-nil, append_assoc, arith, add-zero, ltb, leb, ◌==◌, if◌then◌else◌, ltb→lt,
  lt→ltb, leb→le, ==_iff, tests, Bool-cases, Option-cases, length, get_elem?, set, length-append,
  length-set, get_elem?-set_self, get_elem?-set_ne, get_or, take, drop, replicate, take-append-drop,
  length-take, length-drop, length-replicate, length-map, take_all, drop_all, All, All-get_elem?,
  All-set, All-replicate, get_elem?-some, get_or-set_self, get_or-set_ne,
}
use info.Prelude.Int.{ℤ, pos, negsuc}
use info.Prelude.Words.{word32, put32}
use info.Ext2.Device.{BlockDevice}
use info.Ext2.{Fs, block_size, read_block, write_block}
use info.Ext2.Balloc.{alloc_block}
use info.Ext2.Inode.{i_block, set_i_block}

-- `ptrs_per_block`
abbrev pub ptrs_per_block : List ℕ → ℕ
ptrs_per_block sb = block_size sb / 4

-- The tests on the number of a block that both calls make, with `p` pointers in a block: the entry
-- of `i_block`, and the indices in the blocks below it.
unfoldable pub block_path : ℕ → ℕ → ℕ × List ℕ
block_path p block =
    let pp : ℕ = p * p % 2 ^ 32 in
    let single : ℕ = block - 12 in
    let double : ℕ = single - p in
    let triple : ℕ = double - pp in
    if ltb block 12
    then (block, [])
    else if ltb single p
    then (12, single ∷ [])
    else if ltb double pp
    then (13, double / p ∷ double % p ∷ [])
    else (14, triple / pp ∷ triple % pp / p ∷ triple % pp % p ∷ [])

-- What `SetBlockNum` does at a pointer on the way: it ends, or goes on to a block, with the block
-- of pointers to be written first.
pub data Next (D : Type 0) : Type 0 where
  stop : ℤ → Fs D → Next D
  go : ℕ → List ℕ → Fs D → Next D

module _ {D : Type 0} (dev : BlockDevice D) (lba : ℕ) where
  -- The branches of `GetBlockNum`, from a block of pointers on.
  unfoldable pub walk : List ℕ → ℕ → Fs D → ℕ
  walk [] b fs = b
  walk (i ∷ is) b fs =
      if b == 0
      then 0
      else elim (read_block dev lba b fs) [ none ↦ 0 | some buf ↦ walk is (word32 (4 * i) buf) fs ]

  -- `GetBlockNum`; 0 is no block.
  unfoldable pub get_block_num : List ℕ → ℕ → Fs D → ℕ
  get_block_num inode block fs =
      let path = block_path (ptrs_per_block fs.sb) block in walk path.1 (i_block path.0 inode) fs

  -- A pointer of `SetBlockNum`: a new block if there is none, unless 0 is to be set.
  unfoldable pub next_block : ℕ → List ℕ → ℕ → Fs D → Next D
  next_block i buf num fs =
      let next : ℕ = word32 (4 * i) buf in
      let fresh = alloc_block dev lba fs in
      if not (next == 0)
      then go next buf fs
      else if num == 0
      then stop (pos 0) fs
      else if fresh.0 == 0
      then stop (negsuc 1) fresh.1
      else go fresh.0 (put32 (4 * i) fresh.0 buf) fresh.1

  -- The branches of `SetBlockNum`, from a block of pointers on.
  unfoldable pub store : List ℕ → ℕ → ℕ → Fs D → ℤ × Fs D
  store [] b num fs = (pos 0, fs)
  store (i ∷ []) b num fs = elim (read_block dev lba b fs) [
    | none ↦ (negsuc 3, fs)
    | some buf ↦
        let out = write_block dev lba b (put32 (4 * i) num buf) fs in
        (if out.0 then pos 0 else negsuc 4, out.1)
  ]
  store (i ∷ j ∷ is) b num fs = elim (read_block dev lba b fs) [
    | none ↦ (negsuc 3, fs)
    | some buf ↦ elim (next_block i buf num fs) [
      | stop r s ↦ (r, s)
      | go next new s ↦
          let out = write_block dev lba b new s in
          let rest = store (j ∷ is) next num out.1 in if out.0 then rest else (negsuc 4, out.1)
    ]
  ]

  -- `SetBlockNum` for a block that is not direct, with its entry of `i_block`.
  unfoldable pub set_indirect : ℕ → List ℕ → ℕ → List ℕ → Fs D → ℤ × List ℕ × Fs D
  set_indirect slot is num inode fs =
      let root : ℕ = i_block slot inode in
      let kept = store is root num fs in
      let fresh = alloc_block dev lba fs in
      let rooted = set_i_block slot fresh.0 inode in
      let grown = store is fresh.0 num fresh.1 in
      if not (root == 0)
      then (kept.0, inode, kept.1)
      else if num == 0
      then (pos 0, inode, fs)
      else if fresh.0 == 0
      then (negsuc 1, rooted, fresh.1)
      else (grown.0, rooted, grown.1)

  -- `SetBlockNum`: the result, and the inode in memory.
  unfoldable pub set_block_num : ℕ → ℕ → List ℕ → Fs D → ℤ × List ℕ × Fs D
  set_block_num block num inode fs =
      let path = block_path (ptrs_per_block fs.sb) block in
      elim path.1 [
        | [] ↦ (pos 0, set_i_block path.0 num inode, fs)
        | i ∷ is ↦ set_indirect path.0 (i ∷ is) num inode fs
      ]
