-- ===== src/FileSys/Names.antt =====
-- How read_dentry_by_name of student-distrib/file_sys.c compares a name with an entry's.
use linux_like_os.Base.{
  ℕ, zero, suc, ◌<◌, ◌≡◌, ◌≢◌, refl, sym, ap, ◌∙◌, ◌==◌, ◌&&◌, Bool, true, false, some, List, [],
  ◌∷◌, length, ℤ, pos, eqb_ℤ, arith, ==_refl, ==_ne,
}
use native.Mathlib.Decide.{ℕ_discrete}
use linux_like_os.CString.{strncmp, minus, signed8}
use linux_like_os.CString.Compare.{text, readable, IsBytes}
use linux_like_os.FileSys.Image.{Dentry, Name, name_length, same_name}
use linux_like_os.FileSys.Lookup.{entry_name, IsEntry}

abbrev pub same_text : List ℕ → List ℕ → Bool
same_text [] [] = true
same_text [] (y ∷ ys) = false
same_text (x ∷ xs) [] = false
same_text (x ∷ xs) (y ∷ ys) = (x == y) && same_text xs ys

minus_zero :
    (a b : ℕ) → a < 256 → b < 256 → eqb_ℤ (minus (signed8 a) (signed8 b)) (pos 0) ≡ (a == b)
minus_zero a b ha hb = ground arith

pub same_text_refl : (xs : List ℕ) → same_text xs xs ≡ true
same_text_refl [] = refl
same_text_refl (x ∷ xs) = ground (arith, same_text_refl xs)

pub eq_of_same_text : (xs ys : List ℕ) → same_text xs ys ≡ true → xs ≡ ys
eq_of_same_text [] [] h = refl
eq_of_same_text [] (y ∷ ys) h = absurd (ground arith)
eq_of_same_text (x ∷ xs) [] h = absurd (ground arith)
eq_of_same_text (x ∷ xs) (y ∷ ys) h = ground (arith, eq_of_same_text xs ys)

same_text-length : (xs ys : List ℕ) → length xs ≢ length ys → same_text xs ys ≡ false
same_text-length [] [] h = absurd (h refl)
same_text-length [] (y ∷ ys) h = refl
same_text-length (x ∷ xs) [] h = refl
same_text-length (x ∷ xs) (y ∷ ys) h = ground (arith, same_text-length xs ys)

-- What the caller of `strncmp` tests.
strncmp-same_text :
    (s1 s2 : List ℕ) (n : ℕ)
    → IsBytes s1
    → IsBytes s2
    → readable n s1 ≡ true
    → readable n s2 ≡ true
    → (r : ℤ) × (strncmp s1 s2 n ≡ some r) × (eqb_ℤ r (pos 0) ≡ same_text (text n s1) (text n s2))
unfolding strncmp
strncmp-same_text s1 s2 zero b1 b2 r1 r2 = (pos 0, refl, refl)
strncmp-same_text [] s2 (suc n) b1 b2 r1 r2 = absurd (ground arith)
strncmp-same_text (a ∷ s1) [] (suc n) b1 b2 r1 r2 = absurd (ground arith)
strncmp-same_text (a ∷ s1) (b ∷ s2) (suc n) b1 b2 r1 r2 = elim (ℕ_discrete a b) [
  | no ne ↦ (
    minus (signed8 a) (signed8 b),
    rw (==_ne a b ne) refl,
    ground (arith, minus_zero a b b1.0 b2.0),
  )
  | yes e ↦ elim (ℕ_discrete a 0) [
    | yes z ↦
        (minus (signed8 a) (signed8 b), ground arith, ground (arith, minus_zero a b b1.0 b2.0))
    | no nz ↦
        let (r, runs, tests) = strncmp-same_text s1 s2 n b1.1 b2.1 (ground arith) (ground arith) in
        (r, ground arith, ground arith)
  ]
]

name_length-text : (n : ℕ) (s : List ℕ) → name_length n s ≡ length (text n s)
unfolding name_length
name_length-text zero s = refl
name_length-text (suc n) [] = refl
name_length-text (suc n) (c ∷ s) = ground (arith, name_length-text n s)

-- At the length of the name within the 32 bytes, comparing stays inside of it.
text-name_length :
    (n : ℕ) (s : List ℕ)
    → (text (name_length n s) s ≡ text n s) × (readable (name_length n s) s ≡ true)
unfolding name_length
text-name_length zero s = (refl, refl)
text-name_length (suc n) [] = (refl, refl)
text-name_length (suc n) (c ∷ s) =
    (ground (arith, text-name_length n s), ground (arith, text-name_length n s))

-- The length `n` at which the names are compared: the text has `n` bytes, all inside the string.
pub record Wanted (fname : Name) (n : ℕ) : Type 0 where
  pub bytes : IsBytes fname.bytes
  pub whole : length (text n fname.bytes) ≡ n
  pub inside : readable n fname.bytes ≡ true

same_name_eq :
    (s : List ℕ) (n : ℕ) (d : Dentry) (r : ℤ)
    → n ≡ name_length 32 d.filename
    → strncmp s d.filename n ≡ some r
    → same_name s n d ≡ some (eqb_ℤ r (pos 0))
unfolding same_name
same_name_eq s n d r e runs = rw (← e, ==_refl n, runs, same_name)

pub same_name-same_text :
    (fname : Name) (n : ℕ) (d : Dentry)
    → Wanted fname n
    → IsEntry d
    → same_name fname.bytes n d ≡ some (same_text (text n fname.bytes) (entry_name d))
unfolding same_name
same_name-same_text fname n d w h = elim (ℕ_discrete n (name_length 32 d.filename)) [
  | no ne ↦ rw (==_ne _ _ ne) (
      ap some (
        sym (
          same_text-length (text n fname.bytes) (entry_name d)
            (λ e. ne (sym w.whole ∙ e ∙ sym (name_length-text 32 d.filename))))))
  | yes e ↦
      let texts : text n d.filename ≡ entry_name d = rw e (text-name_length 32 d.filename).0 in
      let (r, runs, tests) =
        strncmp-same_text fname.bytes d.filename n w.bytes h.bytes w.inside
          (rw e (text-name_length 32 d.filename).1) in
      same_name_eq fname.bytes n d r e runs
      ∙ ap some (tests ∙ ap (same_text (text n fname.bytes)) texts)
]
