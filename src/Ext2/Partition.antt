-- ===== src/Ext2/Partition.antt =====
-- `FindExt2Partition` of fs/ext2/super.cc.
use info.Prelude.{ℕ, zero, suc, ◌+◌, ◌*◌, none, some, List, ◌==◌, if◌then◌else◌, get_or}
use info.Prelude.Words.{word16, word32}
use info.Ext2.Device.{BlockDevice}

-- Fields of `MBR` and of its entry `i` of `partitions`.
abbrev pub signature : List ℕ → ℕ
signature = word16 510

abbrev pub partition_type : ℕ → List ℕ → ℕ
partition_type i mbr = get_or mbr (446 + 16 * i + 4) 0

abbrev pub starting_lba : ℕ → List ℕ → ℕ
starting_lba i = word32 (446 + 16 * i + 8)

-- The loop over the partitions, with the number of them that is left.
unfoldable pub linux_lba : ℕ → ℕ → List ℕ → ℕ
linux_lba zero i mbr = 0
linux_lba (suc left) i mbr =
    let rest = linux_lba left (i + 1) mbr in
    if partition_type i mbr == 0x83 then starting_lba i mbr else rest

-- `FindExt2Partition`; 0 is no partition.
unfoldable pub find_ext2_partition : {D : Type 0} (dev : BlockDevice D) → D → ℕ
find_ext2_partition dev disk = elim (dev.read 0 1 disk) [
  | none ↦ 0
  | some mbr ↦ if signature mbr == 0xAA55 then linux_lba 4 0 mbr else 0
]
