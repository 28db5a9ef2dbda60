-- ===== src/FileSys/Descriptors.antt =====
-- fileSystem_init and the operations on files and directories, over the global
-- `file_descriptor_array`. A result is the returned value with the array, and memory where it is
-- written; `none` is a read outside of an object.
use linux_like_os.Base.{
  ℕ, zero, suc, ◌+◌, ◌-◌, ◌*◌, ◌%◌, ◌^◌, ltb, ◌==◌, if◌then◌else◌, update, ◌||◌, ◌&&◌, Bool, Option,
  none, some, List, [], ◌∷◌, get_or, set, ℤ, pos, minus_one, ltb_ℤ, eqb_ℤ, to_u32, for_range,
  pos_part,
}
use linux_like_os.Memory.{Mem, memset}
use linux_like_os.CString.{strlen, strncpy}
use linux_like_os.FileSys.Image.{
  Dentry, Image, Name, raw, read_dentry_by_index, read_dentry_by_name, read_data, max_name_length,
}

abbrev pub fd_count : ℕ
fd_count = 8

abbrev pub reg_file_num : ℕ
reg_file_num = 2

-- `file_operation_table_ptr` is the index of the table, `none` the null pointer. `flags` is 1 for
-- an open descriptor, 0 for a closed one.
pub record Descriptor : Type 0 where
  pub file_operation_table_ptr : Option ℕ
  pub inode : ℕ
  pub file_position : ℕ
  pub flags : ℕ

abbrev pub Fds : Type 0
Fds = List Descriptor

abbrev pub no_descriptor : Descriptor
no_descriptor = record { file_operation_table_ptr = none; inode = 0; file_position = 0; flags = 0 }

abbrev pub fd_at : Fds → ℕ → Descriptor
fd_at fds i = get_or fds i no_descriptor

-- The addresses of the three parts; a boot block, an inode and a data block take 4096 bytes each.
pub record Pointers : Type 0 where
  pub boot_block_ptr : ℕ
  pub inode_ptr : ℕ
  pub dblock_ptr : ℕ

-- One round of the loop of `fileSystem_init`.
unfoldable pub reset_fd : ℕ → Fds → Fds
reset_fd i fds = set fds i (record (fd_at fds i) { inode = 0; file_position = 0; flags = 0 })

unfoldable pub set_flags : ℕ → ℕ → Fds → Fds
set_flags i f fds = set fds i (record (fd_at fds i) { flags = f })

unfoldable pub file_system_init : (fs_start inode_count : ℕ) → Fds → Pointers × Fds
file_system_init fs_start inode_count fds = (
  record {
    boot_block_ptr = fs_start;
    inode_ptr = fs_start + 4096;
    dblock_ptr = fs_start + 4096 + 4096 * inode_count;
  },
  set_flags 1 1 (set_flags 0 1 (for_range fd_count 0 reset_fd fds)),
)

-- `fd > MAX_FD || fd < MIN_FD`
abbrev pub bad_fd : ℤ → Bool
bad_fd fd = ltb_ℤ (pos 7) fd || ltb_ℤ fd (pos 0)

unfoldable pub file_read :
    Image → Fds → (fd : ℤ) (buf : ℕ) (nbytes : ℤ) → Mem → Option (ℤ × Fds × Mem)
file_read fs fds fd buf nbytes m =
    if bad_fd fd
    then some (pos 0, fds, m)
    else (let i = pos_part fd in
        let d = fd_at fds i in
        elim (read_data fs d.inode d.file_position buf (to_u32 nbytes)
          (memset m buf 0 (to_u32 nbytes))) [
            | none ↦ none
            | some (n, m') ↦
                some (
                  pos n,
                  set fds i (record d { file_position = (d.file_position + n) % 2 ^ 32 }),
                  m',
                )
          ])

unfoldable pub file_write : (fd : ℤ) (buf : ℕ) (nbytes : ℤ) → ℤ
file_write fd buf nbytes = minus_one

-- The loop for the first closed descriptor. `free_fd` has no initial value: `garbage` is what it
-- holds where every descriptor is open.
unfoldable pub free_fd : Fds → ℕ → ℤ → ℤ
free_fd [] i garbage = garbage
free_fd (d ∷ fds) i garbage = if d.flags == 0 then pos i else free_fd fds (i + 1) garbage

-- `curr_dentry` and `free_fd` are uninitialised: their contents are arguments.
unfoldable pub file_open :
    Image → (curr_dentry : Dentry) (garbage : ℤ) → Fds → Option Name → Option (ℤ × Fds)
file_open fs curr_dentry garbage fds filename = elim (read_dentry_by_name fs filename curr_dentry) [
  | none ↦ none
  | some (r, d) ↦
      if eqb_ℤ r minus_one
      then some (minus_one, fds)
      else (let free = free_fd fds 0 garbage in
          if bad_fd free
          then some (minus_one, fds)
          else some (
            free,
            set fds (pos_part free) (record (fd_at fds (pos_part free)) {
              inode = if d.filetype == reg_file_num then d.inode_num else 0;
              file_position = 0;
            }),
          ))
]

-- `file_close` and `dir_close` have one body.
unfoldable pub file_close : Fds → (fd : ℤ) → ℤ × Fds
file_close fds fd =
    if ltb_ℤ (pos 1) fd && ltb_ℤ fd (pos 8)
    then (pos 0, set_flags (pos_part fd) 0 fds)
    else (minus_one, fds)

unfoldable pub dir_close : Fds → (fd : ℤ) → ℤ × Fds
dir_close fds fd =
    if ltb_ℤ (pos 1) fd && ltb_ℤ fd (pos 8)
    then (pos 0, set_flags (pos_part fd) 0 fds)
    else (minus_one, fds)

-- `strlen` of a string in memory, `fuel` bytes at most.
unfoldable pub strlen_at : ℕ → Mem → ℕ → ℕ
strlen_at zero m a = 0
strlen_at (suc fuel) m a = let rest = strlen_at fuel m (a + 1) in if m a == 0 then 0 else suc rest

-- The copy of the name into the buffer: `nbytes` is compared as an unsigned number, and the
-- terminator goes behind the name, wherever `nbytes` ends. `file_length + 1` rounds of the last
-- `strlen` are enough, since it stops at that terminator.
unfoldable pub put_name : Dentry → ℕ → ℤ → Mem → Option (ℤ × Mem)
unfolding strlen_at
put_name d buf nbytes m = elim (strlen (raw d)) [
  | none ↦ none
  | some len ↦
      let n = if ltb len (to_u32 nbytes) then len else to_u32 nbytes in
      let file_length = if ltb max_name_length len then max_name_length else len in
      elim (strncpy (memset m buf 0 (to_u32 nbytes)) buf (raw d) n) [
        | none ↦ none
        | some m' ↦
            let m'' = update m' (buf + file_length) 0 in
            some (pos (strlen_at (file_length + 1) m'' buf), m'')
      ]
]

unfoldable pub dir_read :
    Image
    → (curr_dentry : Dentry) → Fds
    → (fd : ℤ) (buf : ℕ) (nbytes : ℤ) → Mem
    → Option (ℤ × Fds × Mem)
dir_read fs curr_dentry fds fd buf nbytes m =
    if bad_fd fd
    then some (minus_one, fds, m)
    else (let i = pos_part fd in
        let d = fd_at fds i in
        let fds' = set fds i (record d { file_position = (d.file_position + 1) % 2 ^ 32 }) in
        elim (read_dentry_by_index fs d.file_position curr_dentry) [
          | none ↦ none
          | some (r, dentry) ↦
              if eqb_ℤ r minus_one
              then some (pos 0, fds', m)
              else elim (put_name dentry buf nbytes m) [
                | none ↦ none
                | some (len, m') ↦ some (len, fds', m')
              ]
        ])

unfoldable pub dir_write : (fd : ℤ) (buf : ℕ) (nbytes : ℤ) → ℤ
dir_write fd buf nbytes = minus_one

-- The inode -1 is stored as an unsigned number.
unfoldable pub dir_open :
    Image → (curr_dentry : Dentry) (garbage : ℤ) → Fds → Option Name → Option (ℤ × Fds)
dir_open fs curr_dentry garbage fds filename = elim (read_dentry_by_name fs filename curr_dentry) [
  | none ↦ none
  | some (r, d) ↦
      if eqb_ℤ r minus_one
      then some (minus_one, fds)
      else (let free = free_fd fds 0 garbage in
          let inode = if d.filetype == 1 then 0 else 2 ^ 32 - 1 in
          if bad_fd free
          then some (minus_one, fds)
          else some (
            if inode == 2 ^ 32 - 1 then minus_one else free,
            set fds (pos_part free)
                (record (fd_at fds (pos_part free)) { inode = inode; file_position = 0 }),
          ))
]
