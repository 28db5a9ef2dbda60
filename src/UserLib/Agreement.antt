-- ===== src/UserLib/Agreement.antt =====
-- The user library computes what the kernel's string functions compute.
use linux_like_os.Base.{
  ℕ, zero, suc, ◌+◌, ◌-◌, ◌/◌, ◌<◌, ◌≡◌, refl, arith, ◌==◌, if◌then◌else◌, update, pos, List, [],
  ◌∷◌, length, get_or, set, Bool-cases, inl, inr,
}
use linux_like_os.Memory.{Mem}
use linux_like_os.CString.{
  minus, signed8, strlen_from, strlen, strcpy, strncmp, strrev, strrev_loop, itoa, itoa_loop,
}
use linux_like_os.UserLib.{
  ece391_strlen_from, ece391_strlen, ece391_strcpy, ece391_strncmp, ece391_strrev,
  ece391_strrev_loop, ece391_itoa, ece391_itoa_loop,
}

strlen_from-same : (len : ℕ) (s : List ℕ) → ece391_strlen_from len s ≡ strlen_from len s
unfolding ece391_strlen_from strlen_from
strlen_from-same len [] = refl
strlen_from-same len (c ∷ s) = ground (arith, strlen_from-same (len + 1) s)

strcpy-same : (m : Mem) (dst : ℕ) (s : List ℕ) → ece391_strcpy m dst s ≡ strcpy m dst s
unfolding ece391_strcpy strcpy
strcpy-same m dst [] = refl
strcpy-same m dst (c ∷ s) = elim (Bool-cases (c == 0)) [
  | inl e ↦ ground (arith, e)
  | inr e ↦ ground (arith, e, strcpy-same (update m dst c) (dst + 1) s)
]

strrev_loop-same :
    (fuel beg end : ℕ) (s : List ℕ) → ece391_strrev_loop fuel beg end s ≡ strrev_loop fuel beg end s
unfolding ece391_strrev_loop strrev_loop
strrev_loop-same zero beg end s = refl
strrev_loop-same (suc fuel) beg end s =
    rw
      (strrev_loop-same fuel (beg + 1) (end - 1)
        (set (set s end (get_or s beg 0)) beg (get_or s end 0)))
      refl

strrev_loop-short : (fuel : ℕ) (s : List ℕ) → strrev_loop fuel 0 0 s ≡ s
unfolding strrev_loop
strrev_loop-short zero s = refl
strrev_loop-short (suc fuel) s = refl

strrev_guard :
    (fuel n : ℕ) (s : List ℕ)
    → (if n == 0 then s else strrev_loop fuel 0 n s) ≡ strrev_loop fuel 0 n s
strrev_guard fuel n s = ground (arith, strrev_loop-short fuel s)

strrev-same : (s : List ℕ) → ece391_strrev s ≡ strrev s
unfolding ece391_strrev strrev
strrev-same s =
    rw (strrev_loop-same (length s) 0 (length s - 1) s) (strrev_guard (length s) (length s - 1) s)

itoa_loop-same :
    (fuel newval radix : ℕ) → ece391_itoa_loop fuel newval radix ≡ itoa_loop fuel newval radix
unfolding ece391_itoa_loop itoa_loop
itoa_loop-same zero newval radix = refl
itoa_loop-same (suc fuel) newval radix = rw (itoa_loop-same fuel (newval / radix) radix) refl

itoa-same : (value radix : ℕ) → ece391_itoa value radix ≡ itoa value radix
unfolding ece391_itoa itoa
itoa-same value radix =
    rw (itoa_loop-same value value radix, strrev-same (itoa_loop value value radix)) refl

-- ASCII text.
abbrev pub IsAscii : List ℕ → Type 0
IsAscii [] = Unit {0}
IsAscii (c ∷ s) = (c < 128) × IsAscii s

minus_ascii : (a b : ℕ) → a < 128 → b < 128 → minus (signed8 a) (signed8 b) ≡ minus (pos a) (pos b)
minus_ascii a b ha hb = ground arith

minus_same : (a : ℕ) → a < 128 → minus (signed8 a) (signed8 a) ≡ pos 0
minus_same a h = ground arith

strncmp-same :
    (s1 s2 : List ℕ) (n : ℕ) → IsAscii s1 → IsAscii s2 → ece391_strncmp s1 s2 n ≡ strncmp s1 s2 n
unfolding ece391_strncmp strncmp
strncmp-same s1 s2 zero h1 h2 = refl
strncmp-same [] s2 (suc n) h1 h2 = refl
strncmp-same (a ∷ s1) [] (suc n) h1 h2 = refl
strncmp-same (a ∷ s1) (b ∷ s2) (suc n) h1 h2 =
    ground (arith, strncmp-same s1 s2 n h1.1 h2.1, minus_ascii a b h1.0 h2.0, minus_same a h1.0)

-- The two libraries side by side.
pub record Agrees : Type 0 where
  pub strlen_agrees : (s : List ℕ) → ece391_strlen s ≡ strlen s
  pub strcpy_agrees : (m : Mem) (dst : ℕ) (s : List ℕ) → ece391_strcpy m dst s ≡ strcpy m dst s
  pub strrev_agrees : (s : List ℕ) → ece391_strrev s ≡ strrev s
  pub itoa_agrees : (value radix : ℕ) → ece391_itoa value radix ≡ itoa value radix
  pub strncmp_agrees :
      (s1 s2 : List ℕ) (n : ℕ) → IsAscii s1 → IsAscii s2 → ece391_strncmp s1 s2 n ≡ strncmp s1 s2 n

strlen-same : (s : List ℕ) → ece391_strlen s ≡ strlen s
unfolding ece391_strlen strlen
strlen-same s = strlen_from-same 0 s

pub ece391-Agrees : Agrees
ece391-Agrees = record {
  strlen_agrees = strlen-same;
  strcpy_agrees = strcpy-same;
  strrev_agrees = strrev-same;
  itoa_agrees = itoa-same;
  strncmp_agrees = strncmp-same;
}
