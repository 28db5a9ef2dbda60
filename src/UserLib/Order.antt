-- ===== src/UserLib/Order.antt =====
-- ece391_strcmp as a comparison of texts.
use linux_like_os.Base.{
  ℕ, zero, suc, ◌<◌, ◌≡◌, ◌≢◌, ◌↔◌, refl, sym, arith, ◌==◌, ==_refl, ==_ne, get_or, if◌then◌else◌,
  ℤ, pos, true, ltb_ℤ, some, List, [], ◌∷◌,
}
use linux_like_os.CString.{minus}
use linux_like_os.CString.Compare.{cstr, terminated}
use linux_like_os.FileSys.Lookup.{NoZero, cstr-NoZero}
use linux_like_os.UserLib.{ece391_strcmp}

-- The first byte in which two texts differ decides, where a text is followed by a zero.
abbrev pub difference : List ℕ → List ℕ → ℤ
difference [] [] = pos 0
difference [] (b ∷ t) = minus (pos 0) (pos b)
difference (a ∷ s) [] = minus (pos a) (pos 0)
difference (a ∷ s) (b ∷ t) =
    let rest = difference s t in if a == b then rest else minus (pos a) (pos b)

ece391_strcmp-difference :
    (s1 s2 : List ℕ)
    → terminated s1 ≡ true
    → terminated s2 ≡ true
    → ece391_strcmp s1 s2 ≡ some (difference (cstr s1) (cstr s2))
unfolding ece391_strcmp
ece391_strcmp-difference [] s2 h1 h2 = ground arith
ece391_strcmp-difference (a ∷ s1) [] h1 h2 = ground arith
ece391_strcmp-difference (a ∷ s1) (b ∷ s2) h1 h2 = ground (arith, ece391_strcmp-difference s1 s2)

minus_zero : (a b : ℕ) → minus (pos a) (pos b) ≡ pos 0 → a ≡ b
minus_zero a b e = ground (arith, e)

difference_self : (s : List ℕ) → difference s s ≡ pos 0
difference_self [] = refl
difference_self (c ∷ s) = ground (arith, difference_self s)

difference_zero : (s t : List ℕ) → NoZero s → NoZero t → difference s t ≡ pos 0 → s ≡ t
difference_zero [] [] hs ht e = refl
difference_zero [] (b ∷ t) hs ht e = absurd (ground (arith, minus_zero 0 b e, ht.0))
difference_zero (a ∷ s) [] hs ht e = absurd (ground (arith, minus_zero a 0 e, hs.0))
difference_zero (a ∷ s) (b ∷ t) hs ht e =
    ground (arith, difference_zero s t hs.1 ht.1, minus_zero a b)

minus_swap :
    (a b : ℕ) → ltb_ℤ (minus (pos a) (pos b)) (pos 0) ≡ ltb_ℤ (pos 0) (minus (pos b) (pos a))
minus_swap a b = ground arith

difference_swap : (s t : List ℕ) → ltb_ℤ (difference s t) (pos 0) ≡ ltb_ℤ (pos 0) (difference t s)
difference_swap [] [] = refl
difference_swap [] (b ∷ t) = minus_swap 0 b
difference_swap (a ∷ s) [] = minus_swap a 0
difference_swap (a ∷ s) (b ∷ t) = ground (arith, difference_swap s t, minus_swap a b)

difference_first :
    (i : ℕ) (s t : List ℕ)
    → NoZero s
    → NoZero t
    → ((j : ℕ) → j < i → get_or s j 0 ≡ get_or t j 0)
    → get_or s i 0 ≢ get_or t i 0
    → difference s t ≡ minus (pos (get_or s i 0)) (pos (get_or t i 0))
difference_first i [] [] hs ht same ne = absurd (ne refl)
difference_first zero [] (b ∷ t) hs ht same ne = refl
difference_first zero (a ∷ s) [] hs ht same ne = refl
difference_first zero (a ∷ s) (b ∷ t) hs ht same ne = rw (==_ne a b ne) refl
difference_first (suc i) [] (b ∷ t) hs ht same ne = absurd (ht.0 (sym (same 0 (omega arith))))
difference_first (suc i) (a ∷ s) [] hs ht same ne = absurd (hs.0 (same 0 (omega arith)))
difference_first (suc i) (a ∷ s) (b ∷ t) hs ht same ne =
    rw (same 0 (omega arith), ==_refl b)
      (difference_first i s t hs.1 ht.1 (λ j lt. same (suc j) (omega (arith, lt))) ne)

-- For two terminated strings, `ece391_strcmp` returns the difference of the first bytes in which
-- the texts differ, each followed by a zero, 0 exactly for equal texts, and a negative number
-- exactly where it returns a positive one for the strings in the other order.
pub ece391_strcmp-order :
    (s1 s2 : List ℕ)
    → terminated s1 ≡ true
    → terminated s2 ≡ true
    → (r r' : ℤ) × (ece391_strcmp s1 s2 ≡ some r)
      × (ece391_strcmp s2 s1 ≡ some r')
      × ((i : ℕ)
          → ((j : ℕ) → j < i → get_or (cstr s1) j 0 ≡ get_or (cstr s2) j 0)
          → get_or (cstr s1) i 0 ≢ get_or (cstr s2) i 0
          → r ≡ minus (pos (get_or (cstr s1) i 0)) (pos (get_or (cstr s2) i 0)))
      × ((r ≡ pos 0) ↔ (cstr s1 ≡ cstr s2))
      × (ltb_ℤ r (pos 0) ≡ ltb_ℤ (pos 0) r')
ece391_strcmp-order s1 s2 h1 h2 = (
  _,
  _,
  ece391_strcmp-difference s1 s2 h1 h2,
  ece391_strcmp-difference s2 s1 h2 h1,
  λ i same ne. difference_first i (cstr s1) (cstr s2) (cstr-NoZero s1) (cstr-NoZero s2) same ne,
  (
    difference_zero (cstr s1) (cstr s2) (cstr-NoZero s1) (cstr-NoZero s2),
    λ e. rw (e) (difference_self (cstr s2)),
  ),
  difference_swap (cstr s1) (cstr s2),
)
