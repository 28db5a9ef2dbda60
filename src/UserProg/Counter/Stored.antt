-- ===== src/UserProg/Counter/Stored.antt =====
-- Texts that syscalls/ece391counter.c stores in its array, and the digits of itoa.
use linux_like_os.Base.{
  ℕ, zero, suc, ◌+◌, ◌/◌, ◌%◌, ◌<◌, ◌≡◌, ◌≢◌, refl, ap, ◌∙◌, arith, ltb, ◌==◌, ==_ne, ==_refl, not,
  true, Bool-cases, inl, inr, List, [], ◌∷◌, ◌++◌, length, get_or, reverse, update, passes_below,
  passes_below_each,
}
use mathlib.Core.List.{reverse-cons}
use native.Mathlib.Nat.{mod-lt}
use linux_like_os.Memory.{Mem}
use linux_like_os.CString.{lookup, itoa, itoa_loop}
use linux_like_os.CString.Compare.{cstr, terminated}
use linux_like_os.CString.Reverse.{strrev-reverse}
use linux_like_os.FileSys.Image.{bytes_at, mem_of}
use linux_like_os.FileSys.Lookup.{NoZero}
use linux_like_os.Process.Memory.{store_bytes}
use linux_like_os.UserProg.Shell.Lines.{Stands, Stands-head, Stands-tail, cstr-bytes_at}

NoZero-append : (xs : List ℕ) (c : ℕ) → NoZero xs → c ≢ 0 → NoZero (xs ++ (c ∷ []))
NoZero-append [] c z ne = (ne, tt)
NoZero-append (x ∷ xs) c z ne = (z.0, NoZero-append xs c z.1 ne)

NoZero-reverse : (xs : List ℕ) → NoZero xs → NoZero (reverse xs)
NoZero-reverse [] z = tt
NoZero-reverse (x ∷ xs) z =
    rw (reverse-cons x xs) (NoZero-append (reverse xs) x (NoZero-reverse xs z.1) z.0)

digit_table : passes_below 36 (λ d. not (get_or lookup d 0 == 0)) ≡ true
unfolding passes_below
digit_table = refl

digit_nonzero : (d : ℕ) → d < 36 → get_or lookup d 0 ≢ 0
digit_nonzero d h e = ground (arith, e, passes_below_each 36 _ d digit_table h)

itoa_loop-NoZero : (fuel v : ℕ) → NoZero (itoa_loop fuel v 10)
unfolding itoa_loop
itoa_loop-NoZero zero v = tt
itoa_loop-NoZero (suc fuel) v = elim (Bool-cases (ltb 0 v)) [
  | inl e ↦
      rw (e)
        (digit_nonzero (v % 10) (omega (arith, mod-lt v {m = 10})), itoa_loop-NoZero fuel (v / 10))
  | inr e ↦ rw (e) tt
]

pub itoa-NoZero : (v : ℕ) → NoZero (itoa v 10)
unfolding itoa
itoa-NoZero v = elim (Bool-cases (v == 0)) [
  | inl e ↦ rw (e) ((λ z. omega (arith, z)), tt)
  | inr e ↦
      rw (e, strrev-reverse (itoa_loop v v 10))
        (NoZero-reverse (itoa_loop v v 10) (itoa_loop-NoZero v v))
]

-- A text that stands in memory is what is there.
pub bytes_at-Stands : (l : List ℕ) (a : ℕ) (m : Mem) → Stands l a m → bytes_at m a (length l) ≡ l
bytes_at-Stands [] a m s = refl
bytes_at-Stands (c ∷ l) a m s =
    rw (Stands-head c l a m s)
      (ap (λ t. c ∷ t) (bytes_at-Stands l (a + 1) m (Stands-tail c l a m s)))

pub get_or-front : (l t : List ℕ) (i : ℕ) → i < length l → get_or (l ++ t) i 0 ≡ get_or l i 0
get_or-front [] t i lt = absurd (omega (arith, lt))
get_or-front (c ∷ l) t zero lt = refl
get_or-front (c ∷ l) t (suc i) lt = get_or-front l t i (omega (arith, lt))

pub get_or-end : (l : List ℕ) (c : ℕ) → get_or (l ++ (c ∷ [])) (length l) 0 ≡ c
get_or-end [] c = refl
get_or-end (d ∷ l) c = get_or-end l c

length-end : (l : List ℕ) (c : ℕ) → length (l ++ (c ∷ [])) ≡ length l + 1
length-end [] c = refl
length-end (d ∷ l) c = omega (arith, length-end l c)

Stands-front : (l : List ℕ) (c a : ℕ) (m : Mem) → Stands (l ++ (c ∷ [])) a m → Stands l a m
Stands-front l c a m s = record {
  bytes = λ i lt. s.bytes i (omega (arith, length-end l c, lt)) ∙ get_or-front l (c ∷ []) i lt;
}

Stands-end : (l : List ℕ) (c a : ℕ) (m : Mem) → Stands (l ++ (c ∷ [])) a m → m (a + length l) ≡ c
Stands-end l c a m s = s.bytes (length l) (omega (arith, length-end l c)) ∙ get_or-end l c

pub Stands-cons :
    (c : ℕ) (l : List ℕ) (a : ℕ) (m : Mem) → m a ≡ c → Stands l (a + 1) m → Stands (c ∷ l) a m
Stands-cons c l a m e s = record { bytes = byte }
  where
    byte : (i : ℕ) → i < length (c ∷ l) → m (a + i) ≡ get_or (c ∷ l) i 0
    byte zero lt = ap m (omega arith) ∙ e
    byte (suc i) lt = ap m (omega arith) ∙ s.bytes i (omega (arith, lt))

get_or-cstr : (s : List ℕ) (i : ℕ) → i < length (cstr s) → get_or s i 0 ≡ get_or (cstr s) i 0
get_or-cstr [] i lt = absurd (omega (arith, lt))
get_or-cstr (c ∷ s) zero lt = elim (Bool-cases (c == 0)) [
  | inl e ↦ absurd (ground (arith, e, lt))
  | inr e ↦ rw (e) refl
]
get_or-cstr (c ∷ s) (suc i) lt = elim (Bool-cases (c == 0)) [
  | inl e ↦ absurd (ground (arith, e, lt))
  | inr e ↦ rw (e) (get_or-cstr s i (ground (arith, e, lt)))
]

pub cstr-Stands : (s : List ℕ) → Stands (cstr s) 0 (mem_of s)
cstr-Stands s = record { bytes = λ i lt. ap (mem_of s) (omega arith) ∙ get_or-cstr s i lt }

store_bytes-below : (m : Mem) (a : ℕ) (l : List ℕ) (x : ℕ) → x < a → store_bytes m a l x ≡ m x
unfolding store_bytes
store_bytes-below m a [] x lt = refl
store_bytes-below m a (c ∷ l) x lt =
    store_bytes-below (update m a c) (a + 1) l x (omega (arith, lt))
    ∙ rw (==_ne a x (λ e. omega (arith, e, lt))) refl

-- What has been stored stands in memory.
store_bytes-Stands : (l : List ℕ) (a : ℕ) (m : Mem) → Stands l a (store_bytes m a l)
unfolding store_bytes
store_bytes-Stands [] a m = record { bytes = λ i lt. absurd (omega (arith, lt)) }
store_bytes-Stands (c ∷ l) a m =
    Stands-cons c l a (store_bytes (update m a c) (a + 1) l)
      (store_bytes-below (update m a c) (a + 1) l a (omega arith) ∙ rw (==_refl a) refl)
      (store_bytes-Stands l (a + 1) (update m a c))

-- The array after a text with its terminator has been stored.
pub stored_text :
    (l : List ℕ) (n a : ℕ) (m : Mem)
    → NoZero l
    → length l < n
    → (cstr (bytes_at (store_bytes m a (l ++ (0 ∷ []))) a n) ≡ l)
      × (terminated (bytes_at (store_bytes m a (l ++ (0 ∷ []))) a n) ≡ true)
stored_text l n a m z lt =
    let at = store_bytes-Stands (l ++ (0 ∷ [])) a m in
    cstr-bytes_at l n a (store_bytes m a (l ++ (0 ∷ []))) z lt (Stands-front l 0 a _ at)
      (Stands-end l 0 a _ at)
