-- ===== src/FileSys/Search.antt =====
-- read_dentry_by_name finds the first entry with the wanted name.
use linux_like_os.Base.{
  ℕ, zero, suc, ◌+◌, ◌<◌, ◌≤◌, ◌≡◌, refl, sym, ap, ◌∙◌, ltb, ◌==◌, if◌then◌else◌, true, false,
  Bool-cases, inl, inr, Option, none, some, List, [], ◌∷◌, length, get_elem?, get_or, take, drop, ℤ,
  pos, minus_one, arith,
}
use linux_like_os.CString.{strlen}
use linux_like_os.CString.Compare.{text, readable, terminated, cstr, IsBytes, strlen-length}
use linux_like_os.FileSys.Image.{
  Dentry, Image, Name, read_dentry_by_index, trimmed_length, same_name, search_dentry,
  read_dentry_by_name,
}
use linux_like_os.FileSys.Lookup.{entry_name, SameEntry, IsEntry, read_dentry_by_index-SameEntry}
use linux_like_os.FileSys.Names.{same_text, Wanted, same_name-same_text}

-- The first of the entries that has the name.
abbrev pub find_entry : List ℕ → List Dentry → Option Dentry
find_entry name [] = none
find_entry name (d ∷ ds) = if same_text name (entry_name d) then some d else find_entry name ds

-- The answers of the code for an entry that was found or not.
abbrev pub Answers : Dentry → Option Dentry → Option (ℤ × Dentry) → Type 0
Answers out none r = r ≡ some (minus_one, out)
Answers out (some d) r = (d' : Dentry) × (r ≡ some (pos 0, d')) × SameEntry d d'

-- A directory that can be searched: its entries are in the table and well formed, and there are no
-- more of them than inodes.
pub record IsDirectory (fs : Image) : Type 0 where
  pub in_table : fs.dir_count ≤ length fs.direntries
  pub in_inodes : fs.dir_count ≤ fs.inode_count
  pub entries : (i : ℕ) (d : Dentry) → get_elem? fs.direntries i ≡ some d → IsEntry d

get_elem?-drop :
    {A : Type 0} (xs : List A) (i : ℕ)
    → i < length xs
    → (x : A) × (get_elem? xs i ≡ some x) × (drop i xs ≡ x ∷ drop (i + 1) xs)
get_elem?-drop [] i h = absurd (omega arith)
get_elem?-drop (x ∷ xs) zero h = (x, refl, refl)
get_elem?-drop (x ∷ xs) (suc i) h =
    let (y, here, rest) = get_elem?-drop xs i (omega arith) in
    let e : suc i + 1 ≡ suc (i + 1) = omega arith in (y, here, rw e rest)

module _ (fs : Image) (s : List ℕ) (n rounds i : ℕ) (out d : Dentry)
    (here : get_elem? fs.direntries i ≡ some d) where
  search_hit :
      same_name s n d ≡ some true
      → search_dentry fs s n (suc rounds) i out ≡ read_dentry_by_index fs i out
  unfolding search_dentry
  search_hit e = rw (here, e, search_dentry)

  search_miss :
      same_name s n d ≡ some false
      → search_dentry fs s n (suc rounds) i out ≡ search_dentry fs s n rounds (i + 1) out
  unfolding search_dentry
  search_miss e = rw (here, e, search_dentry)

search-Answers :
    (fs : Image) (fname : Name) (n rounds i : ℕ) (out : Dentry)
    → IsDirectory fs
    → Wanted fname n
    → i + rounds ≤ fs.dir_count
    → Answers out
        (find_entry (text n fname.bytes) (take rounds (drop i fs.direntries)))
        (search_dentry fs fname.bytes n rounds i out)
search-Answers fs fname n zero i out dir w h = unfold search_dentry in refl
search-Answers fs fname n (suc rounds) i out dir w h =
    let (d, here, rest) = get_elem?-drop fs.direntries i (omega (arith, dir.in_table)) in
    let tests = same_name-same_text fname n d w (dir.entries i d here) in
    elim (Bool-cases (same_text (text n fname.bytes) (entry_name d))) [
      | inl e ↦
          rw (rest, e, search_hit fs fname.bytes n rounds i out d here (rw e at tests))
            (read_dentry_by_index-SameEntry fs i out d (omega (arith, dir.in_inodes)) here
              (dir.entries i d here))
      | inr e ↦
          rw (rest, e, search_miss fs fname.bytes n rounds i out d here (rw e at tests))
            (search-Answers fs fname n rounds (i + 1) out dir w (omega arith))
    ]

-- A text without its last newline.
abbrev pub chomp : List ℕ → List ℕ
chomp [] = []
chomp (c ∷ []) = if c == b'\n' then [] else c ∷ []
chomp (c ∷ d ∷ t) = c ∷ chomp (d ∷ t)

text_within :
    (n : ℕ) (s : List ℕ) → n ≤ length (cstr s) → (length (text n s) ≡ n) × (readable n s ≡ true)
text_within zero s h = (refl, refl)
text_within (suc n) [] h = absurd (omega arith)
text_within (suc n) (c ∷ s) h = (ground (arith, text_within n s), ground (arith, text_within n s))

chomp_cons : (c k : ℕ) (t : List ℕ) → length t ≡ suc k → chomp (c ∷ t) ≡ c ∷ chomp t
chomp_cons c k [] h = absurd (omega arith)
chomp_cons c k (d ∷ t) h = refl

chomp_one : (c : ℕ) (t : List ℕ) → length t ≡ 0 → chomp (c ∷ t) ≡ (if c == 10 then [] else c ∷ [])
chomp_one c [] h = refl
chomp_one c (d ∷ t) h = absurd (omega arith)

cstr_nonzero : (c k : ℕ) (s : List ℕ) → length (cstr (c ∷ s)) ≡ suc k → (c == 0) ≡ false
cstr_nonzero c k s h = ground arith

text-chomp :
    (k : ℕ) (s : List ℕ)
    → length (cstr s) ≡ suc k
    → text (if get_or s k 0 == b'\n' then k else suc k) s ≡ chomp (cstr s)
text-chomp k [] h = absurd (omega arith)
text-chomp zero (c ∷ s) h =
    let nz = cstr_nonzero c 0 s h in ground (arith, nz, chomp_one c (cstr s))
text-chomp (suc k) (c ∷ s) h =
    let nz = cstr_nonzero c (suc k) s h in
    ground (arith, nz, chomp_cons c k (cstr s), text-chomp k s)

-- The name that is looked for.
abbrev pub wanted_name : Name → List ℕ
wanted_name fname = chomp (cstr fname.bytes)

-- What is asked of a name: a terminated byte string that is not empty.
pub record IsName (fname : Name) : Type 0 where
  pub bytes : IsBytes fname.bytes
  pub ended : terminated fname.bytes ≡ true
  pub not_empty : 0 < length (cstr fname.bytes)

trimmed_lem :
    (fname : Name) (len : ℕ)
    → length (cstr fname.bytes) ≡ len
    → 0 < len
    → (text (trimmed_length fname len) fname.bytes ≡ wanted_name fname)
      × (trimmed_length fname len ≤ len)
unfolding trimmed_length
trimmed_lem fname zero e h = absurd (omega arith)
trimmed_lem fname (suc k) e h = (text-chomp k fname.bytes e, ground arith)

pub by_name_eq :
    (fs : Image) (fname : Name) (out : Dentry) (len : ℕ)
    → strlen fname.bytes ≡ some len
    → read_dentry_by_name fs (some fname) out ≡ (
        if ltb 32 (trimmed_length fname len)
        then some (minus_one, out)
        else search_dentry fs fname.bytes (trimmed_length fname len) fs.dir_count 0 out)
unfolding read_dentry_by_name
by_name_eq fs fname out len e = rw (e, read_dentry_by_name)

-- The same for the trimmed length `n` in place of the length of the name.
pub by_name-Answers :
    (fs : Image) (fname : Name) (n : ℕ) (out : Dentry)
    → IsDirectory fs
    → Wanted fname n
    → Answers out
        (if ltb 32 n
          then none
          else find_entry (text n fname.bytes) (take fs.dir_count fs.direntries))
        (if ltb 32 n
          then some (minus_one, out)
          else search_dentry fs fname.bytes n fs.dir_count 0 out)
by_name-Answers fs fname n out dir w = elim (Bool-cases (ltb 32 n)) [
  | inl long ↦ rw long refl
  | inr fits ↦ rw fits (search-Answers fs fname n fs.dir_count 0 out dir w (omega arith))
]

-- In a well formed directory `read_dentry_by_name` looks up a name, less a last newline: it returns
-- 0 and the first of the `dir_count` entries with that name, or -1 where there is none or the name
-- has more than 32 bytes, with `*dentry` untouched.
pub read_dentry_by_name-Answers :
    (fs : Image) (fname : Name) (out : Dentry)
    → IsDirectory fs
    → IsName fname
    → let name = wanted_name fname in
      Answers out
        (if ltb 32 (length name) then none else find_entry name (take fs.dir_count fs.direntries))
        (read_dentry_by_name fs (some fname) out)
read_dentry_by_name-Answers fs fname out dir w =
    let len = length (cstr fname.bytes) in
    let n = trimmed_length fname len in
    let (name, short) = trimmed_lem fname len refl w.not_empty in
    let (whole, inside) = text_within n fname.bytes short in
    let size : n ≡ length (wanted_name fname) = sym whole ∙ ap length name in
    let goal =
      by_name-Answers fs fname n out dir
        (record { bytes = w.bytes; whole = whole; inside = inside }) in
    rw (by_name_eq fs fname out len (strlen-length fname.bytes w.ended), ← name, whole) goal
