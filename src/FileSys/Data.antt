-- ===== src/FileSys/Data.antt =====
-- read_data copies the bytes of a file.
use linux_like_os.Base.{
  fun_ext, Bool-cases, gt→leb, ℕ, zero, suc, ◌+◌, ◌-◌, ◌/◌, ◌%◌, ◌^◌, ◌<◌, ◌≤◌, ◌≡◌, ap, ◌∙◌, leb,
  if◌then◌else◌, update, Option, some, get_elem?, min, arith, inl, inr,
}
use linux_like_os.Memory.{Mem, within}
use linux_like_os.FileSys.Image.{Image, Inode, block_byte, read_loop, clipped, read_data}

-- Byte `k` of a file: the files are laid out in blocks of 4096 bytes.
abbrev pub file_byte : Image → Inode → ℕ → Option ℕ
file_byte fs node k = block_byte fs node (k / 4096) (k % 4096)

-- The bytes of the file, where the image has all of them.
pub record HasContents (fs : Image) (node : Inode) (contents : ℕ → ℕ) : Type 0 where
  pub stored : (k : ℕ) → k < node.byte_length → file_byte fs node k ≡ some (contents k)

-- Memory after `n` bytes of the file, from `offset` on, were put at `buf`.
abbrev pub with_file : Mem → (ℕ → ℕ) → (buf offset n : ℕ) → Mem
with_file m contents buf offset n a = if within buf n a then contents (offset + (a - buf)) else m a

next_block : (k : ℕ) → (if leb 4096 (k % 4096 + 1) then k / 4096 + 1 else k / 4096) ≡ (k + 1) / 4096
next_block k = ground arith

next_byte : (k : ℕ) → (if leb 4096 (k % 4096 + 1) then 0 else k % 4096 + 1) ≡ (k + 1) % 4096
next_byte k = ground arith

with_file_step :
    (contents : ℕ → ℕ) (rounds i k buf : ℕ) (m : Mem) (a : ℕ)
    → with_file (update m (buf + i) (contents k)) contents (buf + (i + 1)) (k + 1) rounds a
      ≡ with_file m contents (buf + i) k (suc rounds) a
with_file_step contents rounds i k buf m a = ground arith

read_step :
    (fs : Image) (node : Inode) (buf rounds i block byte : ℕ) (m : Mem) (v : ℕ)
    → block_byte fs node block byte ≡ some v
    → read_loop fs node buf (suc rounds) i block byte m
      ≡ read_loop fs node buf rounds
          (i + 1)
          (if leb 4096 (byte + 1) then block + 1 else block)
          (if leb 4096 (byte + 1) then 0 else byte + 1)
          (update m (buf + i) v)
unfolding read_loop
read_step fs node buf rounds i block byte m v e = rw (e, read_loop)

loop-with_file :
    (fs : Image) (node : Inode) (contents : ℕ → ℕ) (rounds i k buf : ℕ) (m : Mem)
    → HasContents fs node contents
    → k + rounds ≤ node.byte_length
    → read_loop fs node buf rounds i (k / 4096) (k % 4096) m
      ≡ some (with_file m contents (buf + i) k rounds)
loop-with_file fs node contents zero i k buf m h le =
    unfold read_loop in ap some (fun_ext (λ a. ground arith))
loop-with_file fs node contents (suc rounds) i k buf m h le =
    read_step fs node buf rounds i (k / 4096) (k % 4096) m (contents k) (h.stored k (omega arith))
    ∙ rw (next_block k, next_byte k)
        (loop-with_file fs node contents rounds (i + 1) (k + 1) buf _ h (omega arith)
          ∙ ap some (fun_ext (with_file_step contents rounds i k buf m)))

clipped-min :
    (size offset len : ℕ)
    → offset < size
    → size < 2 ^ 31
    → clipped size offset len ≡ min len (size - offset)
unfolding clipped
clipped-min size offset len lt small = ground arith

module _ {fs : Image} {node : Inode} {contents : ℕ → ℕ} (inode offset buf len : ℕ) (m : Mem) where
  -- For a file of less than 2^31 bytes that the image holds, `read_data` reads as many bytes as are
  -- asked for and left after `offset`, none from the end on: it returns their number, puts them in
  -- order at `buf`, and changes no other byte of memory.
  pub read_data-with_file :
      HasContents fs node contents
      → inode < fs.inode_count
      → get_elem? fs.inodes inode ≡ some node
      → node.byte_length < 2 ^ 31
      → let n = min len (node.byte_length - offset) in
        read_data fs inode offset buf len m ≡ some (n, with_file m contents buf offset n)
  unfolding read_data
  read_data-with_file h valid e small = elim (Bool-cases (leb node.byte_length offset)) [
    | inl past ↦
        let z : min len (node.byte_length - offset) ≡ 0 = ground arith in
        rw (gt→leb _ _ valid, e, past, z) (ap (λ f. some (0, f)) (fun_ext (λ a. ground arith)))
    | inr before ↦
        rw
          (
            gt→leb _ _ valid,
            e,
            before,
            clipped-min node.byte_length offset len (ground arith) small,
            loop-with_file fs node contents (min len (node.byte_length - offset)) 0 offset buf m h
                (ground arith),
            clipped-min node.byte_length offset len (ground arith) small,
          )
          (ap (λ f. some (min len (node.byte_length - offset), f)) (fun_ext (λ a. ground arith)))
  ]
