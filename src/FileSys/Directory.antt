-- ===== src/FileSys/Directory.antt =====
-- Reading a directory: the name of the entry at the position, and the byte behind it.
use linux_like_os.Base.{
  ℕ, zero, suc, ◌+◌, ◌-◌, ◌%◌, ◌^◌, ◌<◌, ◌≤◌, ◌≡◌, refl, ap, ◌∙◌, ltb, ◌==◌, if◌then◌else◌, update,
  some, List, [], ◌∷◌, length, get_or, ℤ, pos, false, ◌||◌, arith, ge→ltb,
}
use linux_like_os.Memory.{Mem, memset, within}
use linux_like_os.Memory.Fill.{memset-fill}
use linux_like_os.CString.{strlen}
use linux_like_os.CString.Compare.{cstr, strlen-length}
use linux_like_os.CString.Copy.{padded, strncpy-padded}
use linux_like_os.FileSys.Image.{Dentry, raw}
use linux_like_os.FileSys.Lookup.{IsEntry, NoZero, cstr-NoZero, raw-terminated}
use linux_like_os.FileSys.Descriptors.{strlen_at, put_name}

-- The name with which `put_name` works.
abbrev pub dir_name : Dentry → List ℕ
dir_name d = cstr (raw d)

strlen_at-length :
    (t : List ℕ) (m : Mem) (a : ℕ)
    → NoZero t
    → ((i : ℕ) → i ≤ length t → m (a + i) ≡ get_or t i 0)
    → strlen_at (length t + 1) m a ≡ length t
unfolding strlen_at
strlen_at-length [] m a z h = ground (arith, h 0)
strlen_at-length (c ∷ t) m a z h =
    let e : suc (length t) + 1 ≡ suc (length t + 1) = omega arith in
    rw e (ground (arith, h 0, strlen_at-length t m (a + 1) z.1 tail))
  where
    tail : (i : ℕ) → i ≤ length t → m (a + 1 + i) ≡ get_or t i 0
    tail i le = let e : a + 1 + i ≡ a + suc i = omega arith in ap m e ∙ h (suc i) (omega arith)

past : (t : List ℕ) (i : ℕ) → length t ≤ i → get_or t i 0 ≡ 0
past [] i h = refl
past (c ∷ t) zero h = absurd (omega arith)
past (c ∷ t) (suc i) h = past t i (omega arith)

padded_name :
    (m : Mem) (t : List ℕ) (buf i : ℕ)
    → i ≤ length t
    → update (padded m buf t (length t)) (buf + length t) 0 (buf + i) ≡ get_or t i 0
padded_name m t buf i h = let e : buf + i - buf ≡ i = omega arith in rw e (ground (arith, past t i))

-- Memory after the copy of a name of at most 32 bytes to a cleared buffer of `k` bytes, of which
-- `n` are copied.
abbrev pub named : Dentry → (buf k n : ℕ) → Mem → Mem
named d buf k n m =
    update (padded (memset m buf 0 k) buf (dir_name d) n) (buf + length (dir_name d)) 0

put_name-named :
    (d : Dentry) (buf k len n : ℕ) (m : Mem)
    → IsEntry d
    → k < 2 ^ 31
    → length (dir_name d) ≡ len
    → len ≤ 32
    → (if ltb len k then len else k) ≡ n
    → put_name d buf (pos k) m
      ≡ some (pos (strlen_at (length (dir_name d) + 1) (named d buf k n m) buf), named d buf k n m)
unfolding put_name
put_name-named d buf k len n m h few size short e =
    let u : k % 2 ^ 32 ≡ k = omega arith in
    let l : strlen (raw d) ≡ some len = strlen-length (raw d) (raw-terminated d h) ∙ ap some size in
    rw (
      l,
      u,
      e,
      strncpy-padded (memset m buf 0 k) buf (raw d) n (raw-terminated d h),
      put_name,
      ge→ltb 32 len short,
      size,
    )

-- For a name of at most 32 bytes that fits into the buffer, the name goes to the start of the
-- buffer, the rest of which is cleared, and its length is returned. The byte behind the name is
-- cleared too; no other byte changes.
pub put_name-fits :
    (d : Dentry) (buf k : ℕ) (m : Mem)
    → IsEntry d
    → length (dir_name d) ≤ 32
    → length (dir_name d) ≤ k
    → k < 2 ^ 31
    → (m' : Mem) × (put_name d buf (pos k) m ≡ some (pos (length (dir_name d)), m'))
      × ((a : ℕ)
          → m' a ≡ (
              if within buf k a || (a == buf + length (dir_name d))
              then get_or (dir_name d) (a - buf) 0
              else m a))
put_name-fits d buf k m h short room few = (
  named d buf k (length (dir_name d)) m,
  put_name-named d buf k (length (dir_name d)) (length (dir_name d)) m h few refl short
        (ground arith)
      ∙ ap (λ j. some (pos j, named d buf k (length (dir_name d)) m))
          (strlen_at-length (dir_name d) _ buf (cstr-NoZero (raw d))
            (padded_name (memset m buf 0 k) (dir_name d) buf)),
  λ a. ground (arith, memset-fill m buf 0 k a, past (dir_name d) (a - buf)),
)

-- Where the buffer is shorter than the name, a byte behind the buffer is overwritten with 0.
pub put_name_overruns :
    (d : Dentry) (buf k : ℕ) (m : Mem)
    → IsEntry d
    → length (dir_name d) ≤ 32
    → k < length (dir_name d)
    → (r : ℤ) × (m' : Mem) × (put_name d buf (pos k) m ≡ some (r, m'))
      × (m' (buf + length (dir_name d)) ≡ 0)
      × (within buf k (buf + length (dir_name d)) ≡ false)
put_name_overruns d buf k m h short less = (
  pos (strlen_at (length (dir_name d) + 1) (named d buf k k m) buf),
  named d buf k k m,
  put_name-named d buf k (length (dir_name d)) k m h (omega arith) refl short (ground arith),
  ground arith,
  ground arith,
)
