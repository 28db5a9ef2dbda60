-- ===== src/FileSys/Lookup.antt =====
-- read_dentry_by_index and read_dentry_by_name against the list of directory entries.
use linux_like_os.Base.{
  ℕ, zero, suc, ◌+◌, ◌-◌, ◌^◌, ◌<◌, ◌≤◌, ◌≡◌, ◌≢◌, refl, sym, ap, ◌∙◌, ◌==◌, true, Bool-cases, inl,
  inr, some, List, [], ◌∷◌, ◌++◌, length, get_elem?, get_or, take, pos, arith, gt→leb,
}
use linux_like_os.Memory.{Mem}
use linux_like_os.CString.Compare.{text, terminated, cstr, IsBytes, pasted, strcpy-pasted}
use linux_like_os.FileSys.Image.{
  Dentry, Image, le32, raw, mem_of, bytes_at, copy_dentry, read_dentry_by_index,
}

-- The name of an entry: at most 32 bytes, up to a terminator.
abbrev pub entry_name : Dentry → List ℕ
entry_name d = text 32 d.filename

-- Two entries that agree in all that a caller reads.
pub record SameEntry (d d' : Dentry) : Type 0 where
  pub name : entry_name d' ≡ entry_name d
  pub filetype : d'.filetype ≡ d.filetype
  pub inode_num : d'.inode_num ≡ d.inode_num
  pub reserved : d'.reserved ≡ d.reserved

pub record IsEntry (d : Dentry) : Type 0 where
  pub size : length d.filename ≡ 32
  pub bytes : IsBytes d.filename
  pub small_type : d.filetype < 2 ^ 24

-- The text of a C string has no NUL.
abbrev pub NoZero : List ℕ → Type 0
NoZero [] = Unit {0}
NoZero (c ∷ t) = (c ≢ 0) × NoZero t

pub cstr-NoZero : (s : List ℕ) → NoZero (cstr s)
cstr-NoZero [] = tt
cstr-NoZero (c ∷ s) = elim (Bool-cases (c == 0)) [
  | inl e ↦ rw e tt
  | inr e ↦ rw e (ground arith, cstr-NoZero s)
]

terminated-append : (xs ys : List ℕ) → terminated ys ≡ true → terminated (xs ++ ys) ≡ true
terminated-append [] ys h = h
terminated-append (x ∷ xs) ys h = ground (arith, terminated-append xs ys h)

le32-terminated : (w : ℕ) (ys : List ℕ) → w < 2 ^ 24 → terminated (le32 w ++ ys) ≡ true
le32-terminated w ys h = ground arith

pub raw-terminated : (d : Dentry) → IsEntry d → terminated (raw d) ≡ true
raw-terminated d h =
    terminated-append d.filename (le32 d.filetype ++ (le32 d.inode_num ++ d.reserved))
      (le32-terminated d.filetype (le32 d.inode_num ++ d.reserved) h.small_type)

text-take-cstr : (n : ℕ) (xs ys : List ℕ) → length xs ≡ n → text n xs ≡ take n (cstr (xs ++ ys))
text-take-cstr zero xs ys h = refl
text-take-cstr (suc n) [] ys h = absurd (omega arith)
text-take-cstr (suc n) (c ∷ xs) ys h = elim (Bool-cases (c == 0)) [
  | inl e ↦ rw (e) refl
  | inr e ↦ rw (e, text-take-cstr n xs ys (omega arith)) refl
]

text-bytes_at :
    (n : ℕ) (t : List ℕ) (m : Mem) (a : ℕ)
    → NoZero t
    → ((i : ℕ) → i ≤ length t → m (a + i) ≡ get_or t i 0)
    → text n (bytes_at m a n) ≡ take n t
text-bytes_at zero t m a z h = refl
text-bytes_at (suc n) [] m a z h = ground (arith, h 0)
text-bytes_at (suc n) (c ∷ t) m a z h = ground (arith, h 0, text-bytes_at n t m (a + 1) z.1 tail)
  where
    tail : (i : ℕ) → i ≤ length t → m (a + 1 + i) ≡ get_or t i 0
    tail i le = let e : a + 1 + i ≡ a + suc i = omega arith in ap m e ∙ h (suc i) (omega arith)

pasted-at :
    (m : Mem) (dest : ℕ) (t : List ℕ) (i : ℕ)
    → i ≤ length t
    → pasted m dest t (dest + i) ≡ get_or t i 0
pasted-at m dest t i h = let e : dest + i - dest ≡ i = omega arith in rw e (ground arith)

copy_dentry-SameEntry :
    (out d : Dentry) → IsEntry d → (d' : Dentry) × (copy_dentry out d ≡ some d') × SameEntry d d'
unfolding copy_dentry
copy_dentry-SameEntry out d h = (
  record d { filename = bytes_at (pasted (mem_of (raw out)) 0 (cstr (raw d))) 0 32 },
  rw (strcpy-pasted (mem_of (raw out)) 0 (raw d) (raw-terminated d h), copy_dentry) refl,
  record {
    name =
        text-bytes_at 32 (cstr (raw d)) (pasted (mem_of (raw out)) 0 (cstr (raw d))) 0
          (cstr-NoZero (raw d)) (pasted-at (mem_of (raw out)) 0 (cstr (raw d)))
        ∙ sym (
            text-take-cstr 32 d.filename (le32 d.filetype ++ (le32 d.inode_num ++ d.reserved))
              h.size);
    filetype = refl;
    inode_num = refl;
    reserved = refl;
  },
)

-- For an index below the number of inodes `read_dentry_by_index` returns 0 and the entry there.
pub read_dentry_by_index-SameEntry :
    (fs : Image) (index : ℕ) (out d : Dentry)
    → index < fs.inode_count
    → get_elem? fs.direntries index ≡ some d
    → IsEntry d
    → (d' : Dentry) × (read_dentry_by_index fs index out ≡ some (pos 0, d')) × SameEntry d d'
unfolding read_dentry_by_index
read_dentry_by_index-SameEntry fs index out d lt e h =
    let (d', copies, same) = copy_dentry-SameEntry out d h in
    (d', rw (gt→leb _ _ lt, e, copies), same)
