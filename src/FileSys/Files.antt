-- ===== src/FileSys/Files.antt =====
-- Descriptors: which ones are free, what reading a file does to its position, and what
-- initialisation and closing leave open.
use linux_like_os.Base.{
  ℕ, zero, suc, ◌+◌, ◌-◌, ◌%◌, ◌^◌, ◌<◌, ◌≤◌, ◌≡◌, ◌≢◌, refl, ◌∙◌, ltb, ◌==◌, ◌&&◌, ◌||◌,
  if◌then◌else◌, false, some, [], ◌∷◌, length, get_elem?, set, length-set, get_or-set,
  for_range_inv, ℤ, pos, minus_one, min, arith, for_range,
}
use linux_like_os.Memory.{Mem, memset}
use linux_like_os.FileSys.Image.{Image, Inode}
use linux_like_os.FileSys.Data.{HasContents, with_file, read_data-with_file}
use linux_like_os.FileSys.Descriptors.{
  Descriptor, Fds, fd_at, no_descriptor, reset_fd, set_flags, file_system_init, file_read, free_fd,
  file_close,
}

-- Reading `nbytes` bytes of an open file of less than 2^31 bytes returns how many were left to
-- read, `nbytes` at most; moves the position of this descriptor, and of no other, by that number;
-- and puts the bytes from the old position on into the cleared buffer.
pub file_read-with_file :
    {fs : Image} {node : Inode} {contents : ℕ → ℕ} (fds : Fds) (i buf nbytes : ℕ) (m : Mem)
    → HasContents fs node contents
    → i < 8
    → (fd_at fds i).inode < fs.inode_count
    → get_elem? fs.inodes (fd_at fds i).inode ≡ some node
    → node.byte_length < 2 ^ 31
    → (fd_at fds i).file_position ≤ node.byte_length
    → nbytes < 2 ^ 31
    → let d = fd_at fds i in
      let n = min nbytes (node.byte_length - d.file_position) in
      file_read fs fds (pos i) buf (pos nbytes) m
      ≡ some (
        pos n,
        set fds i (record d { file_position = d.file_position + n }),
        with_file (memset m buf 0 nbytes) contents buf d.file_position n,
      )
unfolding file_read
file_read-with_file {fs} {node} {contents} fds i buf nbytes m h lt valid e small at few =
    let d = fd_at fds i in
    let u : nbytes % 2 ^ 32 ≡ nbytes = omega arith in
    let good : (ltb 7 (i + 0) || ltb (i + 0) 0) ≡ false = ground arith in
    let sum : (d.file_position + min nbytes (node.byte_length - d.file_position)) % 2 ^ 32
        ≡ d.file_position + min nbytes (node.byte_length - d.file_position) =
      omega arith in
    rw (
      good,
      u,
      read_data-with_file d.inode d.file_position buf nbytes (memset m buf 0 nbytes) h valid e
          small,
      sum,
    )

-- The first closed descriptor from `i` on.
free_fd-first :
    (fds : Fds) (i : ℕ) (garbage : ℤ) (k : ℕ)
    → k < length fds
    → (fd_at fds k).flags ≡ 0
    → ((j : ℕ) → j < k → (fd_at fds j).flags ≢ 0)
    → free_fd fds i garbage ≡ pos (i + k)
unfolding free_fd
free_fd-first [] i garbage k h c o = absurd (omega arith)
free_fd-first (d ∷ fds) i garbage zero h c o = ground arith
free_fd-first (d ∷ fds) i garbage (suc k) h c o = ground (
  arith,
  o 0,
  free_fd-first fds (i + 1) garbage k (omega arith) c (λ j lt. o (suc j) (omega arith)),
)

pub fd_at-set :
    (fds : Fds) (i j : ℕ) (d : Descriptor)
    → length fds ≡ 8
    → i < 8
    → fd_at (set fds i d) j ≡ (if i == j then d else fd_at fds j)
fd_at-set fds i j d e h = get_or-set fds i j d no_descriptor (omega arith)

record Reset (i : ℕ) (fds : Fds) : Type 0 where
  size : length fds ≡ 8
  fresh :
      (j : ℕ)
      → j < i
      → ((fd_at fds j).flags ≡ 0) × ((fd_at fds j).file_position ≡ 0) × ((fd_at fds j).inode ≡ 0)

reset_fd-Reset : (i : ℕ) (fds : Fds) → i < 8 → Reset i fds → Reset (i + 1) (reset_fd i fds)
unfolding reset_fd
reset_fd-Reset i fds h r = record {
  size = length-set fds i _ ∙ r.size;
  fresh = λ j lt. ground (
    arith,
    r.fresh j,
    fd_at-set fds i j (record (fd_at fds i) { inode = 0; file_position = 0; flags = 0 }) r.size h,
  );
}

set_flags_lem :
    (fds : Fds) (i f j : ℕ)
    → length fds ≡ 8
    → i < 8
    → (fd_at (set_flags i f fds) j
        ≡ (if i == j then record (fd_at fds i) { flags = f } else fd_at fds j))
      × (length (set_flags i f fds) ≡ 8)
unfolding set_flags
set_flags_lem fds i f j e h = (
  fd_at-set fds i j (record (fd_at fds i) { flags = f }) e h,
  length-set fds i (record (fd_at fds i) { flags = f }) ∙ e,
)

-- After initialisation the table of eight holds stdin and stdout open, and the others closed, all
-- at position 0.
pub file_system_init-flags :
    (fs_start inode_count : ℕ) (fds : Fds) (i : ℕ)
    → length fds ≡ 8
    → i < 8
    → let d = fd_at (file_system_init fs_start inode_count fds).1 i in
      (d.flags ≡ (if ltb i 2 then 1 else 0)) × (d.file_position ≡ 0) × (d.inode ≡ 0)
file_system_init-flags fs_start inode_count fds i e h = unfold file_system_init in goal
  where
    reset : Reset 8 (for_range 8 0 reset_fd fds)
    reset =
        for_range_inv Reset reset_fd 8 reset_fd-Reset 8 0 8 fds refl (omega arith)
          (record { size = e; fresh = λ j lt. absurd (omega arith) })

    goal :
        let d = fd_at (set_flags 1 1 (set_flags 0 1 (for_range 8 0 reset_fd fds))) i in
        (d.flags ≡ (if ltb i 2 then 1 else 0)) × (d.file_position ≡ 0) × (d.inode ≡ 0)
    goal = ground (
      arith,
      reset.fresh i,
      reset.fresh 0,
      reset.fresh 1,
      reset.size,
      set_flags_lem (for_range 8 0 reset_fd fds) 0 1 i,
      set_flags_lem (for_range 8 0 reset_fd fds) 0 1 1,
      set_flags_lem (set_flags 0 1 (for_range 8 0 reset_fd fds)) 1 1 i,
    )

-- `file_close` never closes stdin or stdout, and succeeds for every other descriptor of the table,
-- which alone it closes.
pub file_close-flags :
    (fds : Fds) (fd j : ℕ)
    → length fds ≡ 8
    → let r = file_close fds (pos fd) in
      (r.0 ≡ (if ltb 1 fd && ltb fd 8 then pos 0 else minus_one))
      × ((fd_at r.1 j).flags
          ≡ (if (fd == j) && (ltb 1 fd && ltb fd 8) then 0 else (fd_at fds j).flags))
file_close-flags fds fd j e = (
  unfold file_close in ground arith,
  unfold file_close in ground (arith, set_flags_lem fds fd 0 j e),
)
