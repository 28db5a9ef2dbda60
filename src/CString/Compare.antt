-- ===== src/CString/Compare.antt =====
-- What strlen, strncmp and strcpy compute of the text that a C string holds.
use linux_like_os.Base.{
  ℕ, zero, suc, ◌+◌, ◌-◌, ◌<◌, ◌≡◌, ◌↔◌, refl, ap, fun_ext, ◌∙◌, Bool-cases, inl, inr, ◌==◌,
  if◌then◌else◌, update, Bool, true, false, ◌||◌, pos, some, List, [], ◌∷◌, length, get_or, arith,
}
use native.Mathlib.Nat.{zero-add}
use linux_like_os.Memory.{Mem, within}
use linux_like_os.CString.{strlen_from, strlen, strncmp, strcpy, minus, signed8}

-- The bytes before the terminator, `n` at most.
abbrev pub text : ℕ → List ℕ → List ℕ
text zero s = []
text (suc n) [] = []
text (suc n) (c ∷ s) = if c == 0 then [] else c ∷ text n s

-- Reading `n` bytes, or up to the terminator, stays inside the object.
abbrev pub readable : ℕ → List ℕ → Bool
readable zero s = true
readable (suc n) [] = false
readable (suc n) (c ∷ s) = (c == 0) || readable n s

-- The text with its terminator, where there is one.
abbrev pub terminated : List ℕ → Bool
terminated [] = false
terminated (c ∷ s) = (c == 0) || terminated s

abbrev pub cstr : List ℕ → List ℕ
cstr [] = []
cstr (c ∷ s) = if c == 0 then [] else c ∷ cstr s

strlen_from_lem :
    (len : ℕ) (s : List ℕ) → terminated s ≡ true → strlen_from len s ≡ some (len + length (cstr s))
unfolding strlen_from
strlen_from_lem len [] h = ground arith
strlen_from_lem len (c ∷ s) h = ground (arith, strlen_from_lem (len + 1) s)

-- `strlen` of a terminated string returns the number of bytes before the terminator.
pub strlen-length : (s : List ℕ) → terminated s ≡ true → strlen s ≡ some (length (cstr s))
unfolding strlen
strlen-length s h = rw (strlen_from_lem 0 s h, zero-add)

minus_zero : (a b : ℕ) → a < 256 → b < 256 → minus (signed8 a) (signed8 b) ≡ pos 0 → a ≡ b
minus_zero a b ha hb h = ground arith

abbrev pub IsBytes : List ℕ → Type 0
IsBytes [] = Unit {0}
IsBytes (c ∷ s) = (c < 256) × IsBytes s

strncmp_zero :
    (s1 s2 : List ℕ) (n : ℕ)
    → IsBytes s1
    → IsBytes s2
    → strncmp s1 s2 n ≡ some (pos 0)
    → text n s1 ≡ text n s2
unfolding strncmp
strncmp_zero s1 s2 zero b1 b2 h = refl
strncmp_zero [] s2 (suc n) b1 b2 h = ground arith
strncmp_zero (a ∷ s1) [] (suc n) b1 b2 h = ground arith
strncmp_zero (a ∷ s1) (b ∷ s2) (suc n) b1 b2 h =
    ground (arith, strncmp_zero s1 s2 n b1.1 b2.1, minus_zero a b b1.0 b2.0)

strncmp_same :
    (s1 s2 : List ℕ) (n : ℕ)
    → readable n s1 ≡ true
    → readable n s2 ≡ true
    → text n s1 ≡ text n s2
    → strncmp s1 s2 n ≡ some (pos 0)
unfolding strncmp
strncmp_same s1 s2 zero r1 r2 e = refl
strncmp_same [] s2 (suc n) r1 r2 e = ground arith
strncmp_same (a ∷ s1) [] (suc n) r1 r2 e = ground arith
strncmp_same (a ∷ s1) (b ∷ s2) (suc n) r1 r2 e = ground (arith, strncmp_same s1 s2 n)

-- Of two byte strings that can be read for `n` bytes or up to their terminators, `strncmp` returns
-- 0 exactly when their texts agree in the first `n` bytes.
pub strncmp-text :
    (s1 s2 : List ℕ) (n : ℕ)
    → IsBytes s1
    → IsBytes s2
    → readable n s1 ≡ true
    → readable n s2 ≡ true
    → (strncmp s1 s2 n ≡ some (pos 0)) ↔ (text n s1 ≡ text n s2)
strncmp-text s1 s2 n b1 b2 r1 r2 =
    (λ h. strncmp_zero s1 s2 n b1 b2 h, λ e. strncmp_same s1 s2 n r1 r2 e)

-- A text and its terminator from `dest` on.
abbrev pub pasted : Mem → ℕ → List ℕ → Mem
pasted m dest t a = if within dest (length t + 1) a then get_or t (a - dest) 0 else m a

pub get_or-cons :
    (c : ℕ) (s : List ℕ) (a dest : ℕ)
    → dest < a
    → get_or (c ∷ s) (a - dest) 0 ≡ get_or s (a - (dest + 1)) 0
get_or-cons c s a dest h =
    let e : a - dest ≡ suc (a - (dest + 1)) = omega arith in ap (λ k. get_or (c ∷ s) k 0) e

pub get_or-head : (c : ℕ) (s : List ℕ) (a dest : ℕ) → a ≡ dest → get_or (c ∷ s) (a - dest) 0 ≡ c
get_or-head c s a dest h = let e : a - dest ≡ 0 = omega arith in ap (λ k. get_or (c ∷ s) k 0) e

pasted_cons :
    (m : Mem) (dest c : ℕ) (t : List ℕ) (a : ℕ)
    → pasted (update m dest c) (dest + 1) t a ≡ pasted m dest (c ∷ t) a
pasted_cons m dest c t a = ground (arith, get_or-cons c t a dest, get_or-head c t a dest)

pub cstr_cons : (c : ℕ) (s : List ℕ) → (c == 0) ≡ false → cstr (c ∷ s) ≡ c ∷ cstr s
cstr_cons c s h = rw h

pub cstr_end : (c : ℕ) (s : List ℕ) → (c == 0) ≡ true → cstr (c ∷ s) ≡ []
cstr_end c s h = rw h

-- `strcpy` of a terminated string succeeds: it leaves the text and one terminator at `dest`, and
-- changes no other byte.
pub strcpy-pasted :
    (m : Mem) (dest : ℕ) (src : List ℕ)
    → terminated src ≡ true
    → strcpy m dest src ≡ some (pasted m dest (cstr src))
unfolding strcpy
strcpy-pasted m dest [] h = absurd (ground arith)
strcpy-pasted m dest (c ∷ src) h = elim (Bool-cases (c == 0)) [
  | inl e ↦ rw (cstr_end c src e, e) (ap some (fun_ext (λ a. ground arith)))
  | inr e ↦
      rw (cstr_cons c src e, e)
        (strcpy-pasted (update m dest c) (dest + 1) src (ground arith)
          ∙ ap some (fun_ext (λ a. pasted_cons m dest c (cstr src) a)))
]
