-- ===== src/Ext2/Dir.antt =====
-- fs/ext2/dir.cc: the entries of one block of a directory, and what the loops over a block make of
-- it. A name has no zero byte, so that `strncmp` and the test of the terminator are an equality.
pub mod Calls
pub mod Lookup
pub mod Entries
pub mod Adds
pub mod Puts
pub mod Inserts
use info.Prelude.{
  ℕ, subst, ap₂, zero, suc, ◌+◌, ◌-◌, ◌*◌, ◌/◌, ◌%◌, ◌^◌, ◌≤◌, ◌<◌, min, ◌≡◌, refl, sym, ap, ◌∙◌,
  ◌≢◌, ◌↔◌, ◌⊎◌, inl, inr, Bool, true, false, not, ◌&&◌, ◌||◌, Option, none, some, List, [], ◌∷◌,
  ◌++◌, map, append-nil, append_assoc, arith, add-zero, ltb, leb, ◌==◌, if◌then◌else◌, ltb→lt,
  lt→ltb, leb→le, ==_iff, tests, Bool-cases, Option-cases, length, get_elem?, set, length-append,
  length-set, get_elem?-set_self, get_elem?-set_ne, get_or, take, drop, replicate, take-append-drop,
  length-take, length-drop, length-replicate, length-map, take_all, drop_all, All, All-get_elem?,
  All-set, All-replicate, get_elem?-some, get_or-set_self, get_or-set_ne,
}
use info.Prelude.Bytes.{bytes_eq}
use info.Prelude.Words.{put_bytes, slice, word16, word32, put16, put32}

-- Fields of the `Ext2DirEntry` at an offset of the block.
abbrev pub d_inode : ℕ → List ℕ → ℕ
d_inode at = word32 at

abbrev pub d_rec_len : ℕ → List ℕ → ℕ
d_rec_len at = word16 (at + 4)

abbrev pub d_name_len : ℕ → List ℕ → ℕ
d_name_len at buf = get_or buf (at + 6) 0

abbrev pub d_file_type : ℕ → List ℕ → ℕ
d_file_type at buf = get_or buf (at + 7) 0

abbrev pub d_name : ℕ → List ℕ → List ℕ
d_name at buf = slice (at + 8) (d_name_len at buf) buf

-- The length of an entry with a name of `n` bytes: `(sizeof(Ext2DirEntry) - 256 + n + 3) & ~3`.
abbrev pub entry_length : ℕ → ℕ
entry_length n = (8 + n + 3) / 4 * 4

-- An entry written at an offset.
unfoldable pub put_entry : ℕ → ℕ → ℕ → ℕ → List ℕ → List ℕ → List ℕ
put_entry at inode rec_len file_type name buf = put_bytes (at + 8) name (
    set (set (put16 (at + 4) rec_len (put32 at inode buf)) (at + 6) (length name)) (at + 7)
      file_type)

-- How a loop over a block ends; `endless` is a loop that an entry of length 0 keeps in place.
pub data Scan (A : Type 0) : Type 0 where
  hit : A → Scan A
  miss : Scan A
  endless : Scan A

-- The test of `FindEntry` and `RemoveEntry` on the entry at an offset.
unfoldable pub matches : List ℕ → ℕ → List ℕ → Bool
matches name at buf =
    not (d_inode at buf == 0) && ltb 0 (d_name_len at buf) && bytes_eq name (d_name at buf)

-- The loop of `FindEntry` over a block of `size` bytes; `buf` can hold what lies behind the block too. An entry moves the offset by a byte at least,
-- or by none for ever, so that `size` rounds from offset 0 are enough.
unfoldable pub find_in : ℕ → ℕ → List ℕ → ℕ → List ℕ → Scan ℕ
find_in zero size name at buf = if ltb at size then endless else miss
find_in (suc rounds) size name at buf =
    let rest = find_in rounds size name (at + d_rec_len at buf) buf in
    if not (ltb at size) then miss else if matches name at buf then hit at else rest

-- The branches of `AddEntry` at an entry: the new block, if there is room.
unfoldable pub add_at : ℕ → ℕ → List ℕ → ℕ → List ℕ → Option (List ℕ)
add_at inode file_type name at buf =
    let used : ℕ = entry_length (d_name_len at buf) in
    let needed : ℕ = entry_length (length name) in
    let split =
      put16 (at + 4) used
        (put_entry (at + used) inode (d_rec_len at buf - used) file_type name buf) in
    let reused = put_entry at inode needed file_type name buf in
    if not (d_inode at buf == 0)
    then (if leb (used + needed) (d_rec_len at buf) then some split else none)
    else if leb needed (d_rec_len at buf)
    then some reused
    else none

-- The loop of `AddEntry` over a block.
unfoldable pub add_in : ℕ → ℕ → ℕ → ℕ → List ℕ → ℕ → List ℕ → Scan (List ℕ)
add_in zero size inode file_type name at buf = if ltb at size then endless else miss
add_in (suc rounds) size inode file_type name at buf =
    let rest = add_in rounds size inode file_type name (at + d_rec_len at buf) buf in
    if not (ltb at size)
    then miss
    else elim (add_at inode file_type name at buf) [ none ↦ rest | some new ↦ hit new ]

-- What `RemoveEntry` does to the entry that it finds, and the one before it in the block, if any.
unfoldable pub remove_at : Option ℕ → ℕ → List ℕ → List ℕ
remove_at none at buf = put32 at 0 buf
remove_at (some prev) at buf =
    put16 (prev + 4) ((d_rec_len prev buf + d_rec_len at buf) % 2 ^ 16) buf

-- The loop of `RemoveEntry` over a block.
unfoldable pub remove_in : ℕ → ℕ → List ℕ → Option ℕ → ℕ → List ℕ → Scan (List ℕ)
remove_in zero size name prev at buf = if ltb at size then endless else miss
remove_in (suc rounds) size name prev at buf =
    let rest = remove_in rounds size name (some at) (at + d_rec_len at buf) buf in
    if not (ltb at size)
    then miss
    else if matches name at buf
    then hit (remove_at prev at buf)
    else rest

-- `vfs::DirEntry`
pub record DirEntry : Type 0 where
  pub inode : ℕ
  pub file_type : ℕ
  pub name : List ℕ

-- The loop of `Readdir` over a block: the entry of an index, or the index that is left.
unfoldable pub read_in : ℕ → ℕ → ℕ → ℕ → List ℕ → Scan (DirEntry) × ℕ
read_in zero size index at buf = (if ltb at size then endless else miss, index)
read_in (suc rounds) size index at buf =
    let skip = read_in rounds size index (at + d_rec_len at buf) buf in
    let next = read_in rounds size (index - 1) (at + d_rec_len at buf) buf in
    let here : DirEntry = record {
      inode = d_inode at buf;
      file_type = d_file_type at buf;
      name = d_name at buf;
    } in
    if not (ltb at size)
    then (miss, index)
    else if d_inode at buf == 0 || d_name_len at buf == 0
    then skip
    else if index == 0
    then (hit here, 0)
    else next
