-- ===== src/FileSys/Image.antt =====
-- The image that the boot loader leaves in memory, and read_dentry_by_index, read_dentry_by_name
-- and read_data. `none` is a read outside of the image or of a string.
use linux_like_os.Base.{
  ℕ, zero, suc, ◌+◌, ◌-◌, ◌/◌, ◌%◌, ◌^◌, ltb, leb, ◌==◌, if◌then◌else◌, update, Bool, Option, none,
  some, List, [], ◌∷◌, ◌++◌, get_elem?, get_or, ℤ, pos, minus_one, eqb_ℤ,
}
use linux_like_os.Memory.{Mem}
use linux_like_os.CString.{strlen, strncmp, strcpy}

abbrev pub max_name_length : ℕ
max_name_length = 32

abbrev pub data_block_size : ℕ
data_block_size = 4096

-- `filename` has 32 bytes, `reserved` 24.
pub record Dentry : Type 0 where
  pub filename : List ℕ
  pub filetype : ℕ
  pub inode_num : ℕ
  pub reserved : List ℕ

-- `direntries` has 63 elements.
pub record BootBlock : Type 0 where
  pub dir_count : ℕ
  pub inode_count : ℕ
  pub data_count : ℕ
  pub direntries : List Dentry

pub record Inode : Type 0 where
  pub byte_length : ℕ
  pub data_block_num : List ℕ

pub record Image : Type 0 where
  pub boot_block : BootBlock
  pub open boot_block use *
  pub inodes : List Inode
  pub dblocks : List (List ℕ)

-- The bytes of a 32-bit word, the lowest first.
abbrev pub le32 : ℕ → List ℕ
le32 w = w % 256 ∷ w / 2 ^ 8 % 256 ∷ w / 2 ^ 16 % 256 ∷ w / 2 ^ 24 % 256 ∷ []

-- A directory entry as the bytes of its `struct`: a string that fills `filename` runs on into
-- `filetype`.
abbrev pub raw : Dentry → List ℕ
raw d = d.filename ++ (le32 d.filetype ++ (le32 d.inode_num ++ d.reserved))

abbrev pub mem_of : List ℕ → Mem
mem_of xs a = get_or xs a 0

abbrev pub bytes_at : Mem → ℕ → ℕ → List ℕ
bytes_at m a zero = []
bytes_at m a (suc n) = m a ∷ bytes_at m (a + 1) n

-- `strcpy` of the name, then the assignments of the other fields. What of a long name runs over
-- the end of `filename` is overwritten by them.
unfoldable pub copy_dentry : Dentry → Dentry → Option Dentry
copy_dentry out d = elim (strcpy (mem_of (raw out)) 0 (raw d)) [
  | none ↦ none
  | some m ↦ some (record d { filename = bytes_at m 0 max_name_length })
]

-- Results are the returned code and `*dentry`.
unfoldable pub read_dentry_by_index : Image → ℕ → Dentry → Option (ℤ × Dentry)
read_dentry_by_index fs index out =
    if leb fs.inode_count index
    then some (minus_one, out)
    else elim (get_elem? fs.direntries index) [
      | none ↦ none
      | some d ↦ elim (copy_dentry out d) [ none ↦ none | some d' ↦ some (pos 0, d') ]
    ]

-- A file name as `read_dentry_by_name` meets it: the byte before the pointer, which is read when
-- the name is empty, and those from the pointer on.
pub record Name : Type 0 where
  pub before : ℕ
  pub bytes : List ℕ

-- `file_name_length` as an `unsigned int`: the length, less one for a last newline.
unfoldable pub trimmed_length : Name → ℕ → ℕ
trimmed_length fname zero = if fname.before == b'\n' then 2 ^ 32 - 1 else 0
trimmed_length fname (suc n) = if get_or fname.bytes n 0 == b'\n' then n else suc n

-- The inner `while`, with `n` bytes left of the name.
unfoldable pub name_length : ℕ → List ℕ → ℕ
name_length zero name = 0
name_length (suc n) [] = 0
name_length (suc n) (c ∷ name) = if c == 0 then 0 else suc (name_length n name)

-- Whether directory entry `d` has the wanted name.
unfoldable pub same_name : List ℕ → ℕ → Dentry → Option Bool
same_name fname n d =
    if n == name_length max_name_length d.filename
    then elim (strncmp fname d.filename n) [ none ↦ none | some r ↦ some (eqb_ℤ r (pos 0)) ]
    else some Bool.false

-- The `for` loop, with `rounds` entries left from entry `i` on.
unfoldable pub search_dentry : Image → List ℕ → ℕ → (rounds i : ℕ) → Dentry → Option (ℤ × Dentry)
search_dentry fs fname n zero i out = some (minus_one, out)
search_dentry fs fname n (suc rounds) i out = elim (get_elem? fs.direntries i) [
  | none ↦ none
  | some d ↦ elim (same_name fname n d) [
    | none ↦ none
    | some b ↦ elim b [
      | Bool.true ↦ read_dentry_by_index fs i out
      | Bool.false ↦ search_dentry fs fname n rounds (i + 1) out
    ]
  ]
]

-- `none` as the name is the null pointer.
unfoldable pub read_dentry_by_name : Image → Option Name → Dentry → Option (ℤ × Dentry)
read_dentry_by_name fs none out = some (minus_one, out)
read_dentry_by_name fs (some fname) out = elim (strlen fname.bytes) [
  | none ↦ none
  | some len ↦
      let n = trimmed_length fname len in
      if ltb max_name_length n
      then some (minus_one, out)
      else search_dentry fs fname.bytes n fs.dir_count 0 out
]

-- One byte of a data block.
unfoldable pub block_byte : Image → Inode → ℕ → ℕ → Option ℕ
block_byte fs node block byte = elim (get_elem? node.data_block_num block) [
  | none ↦ none
  | some b ↦ elim (get_elem? fs.dblocks b) [ none ↦ none | some bytes ↦ get_elem? bytes byte ]
]

-- The loop of `read_data`, with `rounds` bytes left.
unfoldable pub read_loop : Image → Inode → ℕ → (rounds i block byte : ℕ) → Mem → Option Mem
read_loop fs node buf zero i block byte m = some m
read_loop fs node buf (suc rounds) i block byte m = elim (block_byte fs node block byte) [
  | none ↦ none
  | some v ↦
      read_loop fs node buf rounds (i + 1)
        (if leb data_block_size (byte + 1) then block + 1 else block)
        (if leb data_block_size (byte + 1) then 0 else byte + 1) (update m (buf + i) v)
]

-- `len` after the two adjustments; `offset + len` is a `uint32_t`.
unfoldable pub clipped : (size offset len : ℕ) → ℕ
clipped size offset len =
    let l = if ltb size len then size else len in
    if ltb size ((offset + l) % 2 ^ 32) then size - offset else l

-- The number of bytes read and memory after. `inode_ptr + inode` is followed only for a valid
-- number.
unfoldable pub read_data : Image → (inode offset buf len : ℕ) → Mem → Option (ℕ × Mem)
read_data fs inode offset buf len m =
    if leb fs.inode_count inode then some (0, m) else elim (get_elem? fs.inodes inode) [
      | none ↦ none
      | some node ↦
          if leb node.byte_length offset
          then some (0, m)
          else (let n = clipped node.byte_length offset len in
              elim (read_loop fs node buf n 0 (offset / data_block_size) (offset % data_block_size)
                m) [ none ↦ none | some m' ↦ some (n, m') ])
    ]
