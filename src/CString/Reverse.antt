-- ===== src/CString/Reverse.antt =====
-- strrev reverses its string in place.
use linux_like_os.Base.{
  ℕ, zero, suc, ◌+◌, ◌-◌, ◌<◌, ◌≡◌, refl, ap, ◌∙◌, ltb, if◌then◌else◌, List, [], ◌∷◌, ◌++◌, length,
  get_or, set, length-set, length-append, get_or-set, reverse, arith, ◌&&◌, leb, ◌==◌, ap₂, sym,
  lt→ltb, ge→ltb,
}
use mathlib.Core.List.{reverse-cons}
use native.Mathlib.Decide.{dec_lt}
use linux_like_os.CString.{strrev_loop, strrev}

abbrev swapped : List ℕ → ℕ → ℕ → List ℕ
swapped s beg end = set (set s end (get_or s beg 0)) beg (get_or s end 0)

length-swapped : (s : List ℕ) (beg end : ℕ) → length (swapped s beg end) ≡ length s
length-swapped s beg end = length-set _ beg _ ∙ length-set s end _

get_or-swapped :
    (s : List ℕ) (beg end i : ℕ)
    → end < length s
    → beg < end
    → get_or (swapped s beg end) i 0
      ≡ (if beg == i then get_or s end 0 else if end == i then get_or s beg 0 else get_or s i 0)
get_or-swapped s beg end i h k =
    get_or-set (set s end (get_or s beg 0)) beg i (get_or s end 0) 0
      (omega (arith, length-set s end (get_or s beg 0)))
    ∙ ground (arith, get_or-set s end i (get_or s beg 0) 0 h)

-- The elements from `beg` to `end` in the opposite order, the others as they are.
abbrev flipped : List ℕ → ℕ → ℕ → ℕ → ℕ
flipped s beg end i = if leb beg i && leb i end then get_or s (beg + end - i) 0 else get_or s i 0

loop_lem :
    (fuel beg end : ℕ) (s : List ℕ) (i : ℕ)
    → end < beg + fuel
    → end < length s
    → get_or (strrev_loop fuel beg end s) i 0 ≡ flipped s beg end i
unfolding strrev_loop
loop_lem zero beg end s i f h = ground arith
loop_lem (suc fuel) beg end s i f h = ground (
  arith,
  loop_lem fuel (beg + 1) (end - 1) (swapped s beg end) i,
  length-swapped s beg end,
  get_or-swapped s beg end i h,
  get_or-swapped s beg end (beg + 1 + (end - 1) - i) h,
)

length-loop : (fuel beg end : ℕ) (s : List ℕ) → length (strrev_loop fuel beg end s) ≡ length s
unfolding strrev_loop
length-loop zero beg end s = refl
length-loop (suc fuel) beg end s =
    ground
      (arith, length-loop fuel (beg + 1) (end - 1) (swapped s beg end), length-swapped s beg end)

get_or-append :
    (xs ys : List ℕ) (i : ℕ)
    → get_or (xs ++ ys) i 0
      ≡ (if ltb i (length xs) then get_or xs i 0 else get_or ys (i - length xs) 0)
get_or-append [] ys i = ground arith
get_or-append (x ∷ xs) ys zero = ground arith
get_or-append (x ∷ xs) ys (suc i) = ground (arith, get_or-append xs ys i)

pub length-reverse : (s : List ℕ) → length (reverse s) ≡ length s
length-reverse [] = refl
length-reverse (x ∷ s) =
    omega
      (arith, ap length (reverse-cons x s), length-append (reverse s) (x ∷ []), length-reverse s)

get_or-reverse :
    (s : List ℕ) (i : ℕ) → i < length s → get_or (reverse s) i 0 ≡ get_or s (length s - 1 - i) 0
get_or-reverse [] i h = absurd (omega arith)
get_or-reverse (x ∷ s) i h = elim (dec_lt i (length s)) [
  | yes p ↦
      let e : suc (length s) - 1 - i ≡ suc (length s - 1 - i) = omega arith in
      rw (reverse-cons x s, get_or-append (reverse s) (x ∷ []) i, length-reverse s, lt→ltb _ _ p, e)
        (get_or-reverse s i p)
  | no p ↦
      let e : i ≡ length s = omega arith in
      let z : length s - length s ≡ 0 = omega arith in
      let w : suc (length s) - 1 - length s ≡ 0 = omega arith in
      rw
        (
          reverse-cons x s,
          get_or-append (reverse s) (x ∷ []) i,
          length-reverse s,
          e,
          ge→ltb (length s) (length s) (omega arith),
          z,
          w,
        )
        refl
]

pub ext :
    (xs ys : List ℕ)
    → length xs ≡ length ys
    → ((i : ℕ) → i < length xs → get_or xs i 0 ≡ get_or ys i 0)
    → xs ≡ ys
ext [] [] e h = refl
ext [] (y ∷ ys) e h = absurd (omega arith)
ext (x ∷ xs) [] e h = absurd (omega arith)
ext (x ∷ xs) (y ∷ ys) e h =
    ap₂ ◌∷◌ (h 0 (omega arith)) (ext xs ys (omega arith) (λ i lt. h (suc i) (omega arith)))

strrev_at :
    (s : List ℕ) (i : ℕ) → i < length s → get_or (strrev s) i 0 ≡ get_or s (length s - 1 - i) 0
unfolding strrev
strrev_at s i h =
    ground (arith, loop_lem (length s) 0 (length s - 1) s i, ap (λ (k : ℕ). get_or s k 0) e)
  where
    e : 0 + (length s - 1) - i ≡ length s - 1 - i
    e = omega arith

length-strrev : (s : List ℕ) → length (strrev s) ≡ length s
unfolding strrev
length-strrev s = length-loop (length s) 0 (length s - 1) s

-- `strrev` leaves its string in the opposite order.
pub strrev-reverse : (s : List ℕ) → strrev s ≡ reverse s
strrev-reverse s =
    ext (strrev s) (reverse s) (length-strrev s ∙ sym (length-reverse s))
      λ i h. strrev_at s i (at s i h) ∙ sym (get_or-reverse s i (at s i h))
  where
    at : (s : List ℕ) (i : ℕ) → i < length (strrev s) → i < length s
    at s i h = omega (arith, length-strrev s)
