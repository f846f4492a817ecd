-- ===== src/Vfs/File.antt =====
-- `Read`, `Write`, `Seek` and `Close` of fs/vfs.cc: the position of an open file, over the operations
-- of the mount that it is on. `S` is the state of the file systems. Buffers are not null.
mod Tests
use info.Prelude.{
  ℕ, subst, ap₂, zero, suc, ◌+◌, ◌-◌, ◌*◌, ◌/◌, ◌%◌, ◌^◌, ◌≤◌, ◌<◌, min, ◌≡◌, refl, sym, ap, ◌∙◌,
  ◌≢◌, ◌↔◌, ◌⊎◌, inl, inr, Bool, true, false, not, ◌&&◌, ◌||◌, Option, none, some, List, [], ◌∷◌,
  ◌++◌, map, append-nil, append_assoc, arith, add-zero, ltb, leb, ◌==◌, if◌then◌else◌, ltb→lt,
  lt→ltb, leb→le, ==_iff, tests, Bool-cases, Option-cases, length, get_elem?, set, length-append,
  length-set, get_elem?-set_self, get_elem?-set_ne, get_or, take, drop, replicate, take-append-drop,
  length-take, length-drop, length-replicate, length-map, take_all, drop_all, All, All-get_elem?,
  All-set, All-replicate, get_elem?-some,
}
use info.Prelude.Int.{ℤ, pos, negsuc}

-- A 64-bit word read as a signed number, and the word of a signed number.
pub to_signed : ℕ → ℤ
to_signed w = if ltb w (2 ^ 63) then pos w else negsuc (2 ^ 64 - 1 - w)

pub to_word : ℤ → ℕ
to_word (pos n) = n % 2 ^ 64
to_word (negsuc n) = 2 ^ 64 - 1 - n % 2 ^ 64

module _ (S : Type 0) where
  -- The pointers to functions of a `MountFs` that these calls use; a file is its `private_data`. The
  -- arguments after it are those of the pointers: a count or the bytes, and an offset.
  pub record MountOps : Type 0 where
    pub read : Option (ℕ → ℕ → ℕ → S → ℤ × List ℕ)
    pub write : Option (ℕ → List ℕ → ℕ → S → ℤ × S)
    pub close : Option (ℕ → S → ℤ × S)

  -- `File`
  pub record File : Type 0 where
    pub flags : ℕ
    pub position : ℕ
    pub mount : Option MountOps
    pub private_data : ℕ

module _ {S : Type 0} where
  -- `if (ret > 0) file->position += ret`
  unfoldable pub advance : ℤ → File S → File S
  advance (pos n) f = record f { position = (f.position + n) % 2 ^ 64 }
  advance (negsuc n) f = f

  -- `Read` once the operation of the mount is known.
  unfoldable pub read_by :
      Option (ℕ → ℕ → ℕ → S → ℤ × List ℕ) → ℕ → File S → S → (ℤ × List ℕ) × File S
  read_by none count f s = ((negsuc 1, []), f)
  read_by (some op) count f s =
      let out = op f.private_data count f.position s in (out, advance out.0 f)

  -- `Write` once the operation of the mount is known.
  unfoldable pub write_by :
      Option (ℕ → List ℕ → ℕ → S → ℤ × S) → List ℕ → File S → S → ℤ × File S × S
  write_by none bytes f s = (negsuc 1, f, s)
  write_by (some op) bytes f s =
      let out = op f.private_data bytes f.position s in (out.0, advance out.0 f, out.1)

  abbrev pub read_op : Option (MountOps S) → Option (ℕ → ℕ → ℕ → S → ℤ × List ℕ)
  read_op none = none
  read_op (some m) = m.read

  abbrev pub write_op : Option (MountOps S) → Option (ℕ → List ℕ → ℕ → S → ℤ × S)
  write_op none = none
  write_op (some m) = m.write

  -- `Read`, with the bytes that reach the buffer; `none` is a null pointer.
  unfoldable pub read : Option (File S) → ℕ → S → (ℤ × List ℕ) × Option (File S)
  read none count s = ((negsuc 0, []), none)
  read (some f) count s =
      let (out, after) = read_by (read_op f.mount) count f s in
      if count == 0 then ((negsuc 0, []), some f) else (out, some after)

  -- `Write`
  unfoldable pub write : Option (File S) → List ℕ → S → ℤ × Option (File S) × S
  write none bytes s = (negsuc 0, none, s)
  write (some f) bytes s =
      let (out, after, t) = write_by (write_op f.mount) bytes f s in
      if length bytes == 0 then (negsuc 0, some f, s) else (out, some after, t)

  -- `Close`
  unfoldable pub close : Option (File S) → S → ℤ × S
  close none s = (negsuc 0, s)
  close (some f) s = elim f.mount [
    | none ↦ (negsuc 1, s)
    | some m ↦ elim m.close [ none ↦ (negsuc 1, s) | some op ↦ op f.private_data s ]
  ]

  -- The switch of `Seek`, with 0, 1 and 2 for the three origins; `none` is the default case.
  unfoldable pub new_position : ℤ → ℕ → File S → Option ℤ
  new_position offset zero f = some offset
  new_position offset (suc zero) f = some (to_signed ((f.position + to_word offset) % 2 ^ 64))
  new_position offset (suc (suc zero)) f = some (negsuc 0)
  new_position offset (suc (suc (suc n))) f = none

  -- The end of `Seek`.
  unfoldable pub move_to : Option ℤ → File S → ℤ × File S
  move_to none f = (negsuc 2, f)
  move_to (some (negsuc n)) f = (negsuc 3, f)
  move_to (some (pos n)) f = (pos n, record f { position = n })

  -- `Seek`
  unfoldable pub seek : Option (File S) → ℤ → ℕ → ℤ × Option (File S)
  seek none offset whence = (negsuc 0, none)
  seek (some f) offset whence =
      let (out, after) = move_to (new_position offset whence f) f in (out, some after)
