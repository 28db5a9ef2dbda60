-- ===== src/CString/Number.antt =====
-- itoa prints a number that reads back as itself.
use linux_like_os.Base.{
  ℕ, zero, suc, ◌+◌, ◌-◌, ◌*◌, ◌/◌, ◌%◌, ◌^◌, ◌<◌, ◌≤◌, ◌≡◌, refl, ◌∙◌, ltb, ◌==◌, if◌then◌else◌,
  List, [], ◌∷◌, ◌++◌, length, get_or, reverse, passes_below, passes_below_each, arith, ==_iff,
  Bool-cases, inl, inr, true,
}
use Prim.Native.Nat.pow
use mathlib.Core.List.{reverse-cons}
use native.Mathlib.Nat.{pow-suc, div-lt_self, div-lt_iff_lt-mul, div-add-mod, mod-lt}
use linux_like_os.CString.{lookup, itoa_loop, itoa}
use linux_like_os.CString.Reverse.{strrev-reverse, length-reverse}

abbrev pub digit_value : ℕ → ℕ
digit_value b = if ltb b 58 then b - 48 else b - 55

-- The number that a text of digits denotes, the highest place first.
unfoldable pub parse : ℕ → ℕ → List ℕ → ℕ
parse radix acc [] = acc
parse radix acc (b ∷ t) = parse radix (acc * radix + digit_value b) t

low_first : ℕ → List ℕ → ℕ
low_first radix [] = 0
low_first radix (b ∷ t) = low_first radix t * radix + digit_value b

parse-append :
    (radix acc : ℕ) (xs : List ℕ) (b : ℕ)
    → parse radix acc (xs ++ (b ∷ [])) ≡ parse radix acc xs * radix + digit_value b
unfolding parse
parse-append radix acc [] b = refl
parse-append radix acc (x ∷ xs) b = parse-append radix (acc * radix + digit_value x) xs b

parse-reverse : (radix : ℕ) (xs : List ℕ) → parse radix 0 (reverse xs) ≡ low_first radix xs
unfolding low_first parse
parse-reverse radix [] = refl
parse-reverse radix (x ∷ xs) =
    rw (reverse-cons x xs, parse-append radix 0 (reverse xs) x, parse-reverse radix xs) refl

digit_table : passes_below 36 (λ d. digit_value (get_or lookup d 0) == d) ≡ true
unfolding passes_below
digit_table = refl

digit_lem : (d : ℕ) → d < 36 → digit_value (get_or lookup d 0) ≡ d
digit_lem d h = (==_iff _ d).0 (passes_below_each 36 _ d digit_table h)

div_falls : (v r : ℕ) → 2 ≤ r → 0 < v → v / r < v
div_falls v r h p = div-lt_self p h

loop-low_first :
    (fuel v radix : ℕ)
    → v ≤ fuel
    → 2 ≤ radix
    → radix ≤ 36
    → low_first radix (itoa_loop fuel v radix) ≡ v
unfolding low_first itoa_loop
loop-low_first zero v radix f lo hi = omega arith
loop-low_first (suc fuel) v radix f lo hi = ground (
  arith,
  loop-low_first fuel (v / radix) radix,
  div_falls v radix lo,
  digit_lem (v % radix),
  div-add-mod v radix,
  mod-lt v {m = radix},
)

zero_text : (radix : ℕ) → parse radix 0 (48 ∷ []) ≡ 0
unfolding parse
zero_text radix = omega arith

-- The text that `itoa` prints in a radix between 2 and 36 denotes the number that it was given.
pub parse-itoa :
    (value radix : ℕ) → 2 ≤ radix → radix ≤ 36 → parse radix 0 (itoa value radix) ≡ value
unfolding itoa
parse-itoa value radix lo hi = elim (Bool-cases (value == 0)) [
  | inl e ↦ rw e (ground (arith, zero_text radix))
  | inr e ↦
      rw (e, strrev-reverse (itoa_loop value value radix))
        (parse-reverse radix (itoa_loop value value radix)
          ∙ loop-low_first value value radix (omega arith) lo hi)
]

length-loop-le :
    (k fuel v radix : ℕ) → v < radix ^ k → 2 ≤ radix → length (itoa_loop fuel v radix) ≤ k
unfolding itoa_loop
length-loop-le k zero v radix h lo = omega arith
length-loop-le zero (suc fuel) v radix h lo =
    let e : v ≡ 0 = omega (arith, pow.zero radix) in rw e (omega arith)
length-loop-le (suc k) (suc fuel) v radix h lo = elim (Bool-cases (ltb 0 v)) [
  | inl e ↦ rw e (omega (arith, length-loop-le k fuel (v / radix) radix smaller lo))
  | inr e ↦ rw e (omega arith)
]
  where
    smaller : v / radix < radix ^ k
    smaller = (div-lt_iff_lt-mul (omega arith)).1 (rw pow-suc at h)

loop-some : (v radix : ℕ) → 0 < v → 1 ≤ length (itoa_loop v v radix)
unfolding itoa_loop
loop-some zero radix lt = absurd (omega (arith, lt))
loop-some (suc v) radix lt = ground arith

pub length-itoa-le :
    (k value radix : ℕ)
    → value < radix ^ suc k
    → 2 ≤ radix
    → (1 ≤ length (itoa value radix)) × (length (itoa value radix) ≤ suc k)
unfolding itoa itoa_loop
length-itoa-le k value radix h lo = elim (Bool-cases (value == 0)) [
  | inl e ↦ rw e (omega arith, omega arith)
  | inr e ↦
      rw (e, strrev-reverse (itoa_loop value value radix))
        (
          omega (
            arith,
            length-reverse (itoa_loop value value radix),
            loop-some value radix (ground (arith, e)),
          ),
          omega (
            arith,
            length-reverse (itoa_loop value value radix),
            length-loop-le (suc k) value value radix h lo,
          ),
        )
]
