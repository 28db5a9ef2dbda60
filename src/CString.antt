-- ===== src/CString.antt =====
-- The string routines of student-distrib/lib.c. A C string is the list of bytes from its pointer to
-- the end of the object that it points into; `none` is a read past that end.
pub mod Compare
pub mod Reverse
pub mod Copy
pub mod Number
mod Examples
use linux_like_os.Base.{
  ℕ, zero, suc, ◌+◌, ◌-◌, ◌/◌, ◌%◌, ltb, ◌==◌, if◌then◌else◌, update, Bool, true, false, ◌||◌, ℤ,
  pos, negsuc, pos_part, neg_part, Option, none, some, List, [], ◌∷◌, ◌++◌, length, get_or, set,
  leb,
}
use linux_like_os.Memory.{Mem}

unfoldable pub strlen_from : ℕ → List ℕ → Option ℕ
strlen_from len [] = none
strlen_from len (c ∷ s) = if c == 0 then some len else strlen_from (len + 1) s

unfoldable pub strlen : List ℕ → Option ℕ
unfolding strlen_from
strlen s = strlen_from 0 s

-- An `int8_t` is a signed byte.
abbrev pub signed8 : ℕ → ℤ
signed8 b = if ltb b 128 then pos b else negsuc (255 - b)

abbrev pub minus : ℤ → ℤ → ℤ
minus a b =
    if leb (neg_part a + pos_part b) (pos_part a + neg_part b)
    then pos (pos_part a + neg_part b - (neg_part a + pos_part b))
    else negsuc (neg_part a + pos_part b - (pos_part a + neg_part b) - 1)

unfoldable pub strncmp : List ℕ → List ℕ → ℕ → Option ℤ
strncmp s1 s2 zero = some (pos 0)
strncmp [] s2 (suc n) = none
strncmp (a ∷ s1) [] (suc n) = none
strncmp (a ∷ s1) (b ∷ s2) (suc n) =
    if (if a == b then false else true) || (a == 0)
    then some (minus (signed8 a) (signed8 b))
    else strncmp s1 s2 n

unfoldable pub strcpy : Mem → ℕ → List ℕ → Option Mem
strcpy m dest [] = none
strcpy m dest (c ∷ src) =
    let rest = strcpy (update m dest c) (dest + 1) src in
    if c == 0 then some (update m dest 0) else rest

-- The second loop of `strncpy`.
unfoldable pub pad_zero : Mem → ℕ → ℕ → Mem
pad_zero m dest zero = m
pad_zero m dest (suc n) = pad_zero (update m dest 0) (dest + 1) n

-- `src[i]` is read before `i < n` is tested.
unfoldable pub strncpy : Mem → ℕ → List ℕ → ℕ → Option Mem
unfolding pad_zero
strncpy m dest [] n = none
strncpy m dest (c ∷ src) zero = some m
strncpy m dest (c ∷ src) (suc n) =
    let rest = strncpy (update m dest c) (dest + 1) src n in
    if c == 0 then some (pad_zero m dest (suc n)) else rest

-- The loop of `strrev`. `end` is `strlen(s) - 1`; where that is -1 the test fails, as at 0.
unfoldable pub strrev_loop : ℕ → ℕ → ℕ → List ℕ → List ℕ
strrev_loop zero beg end s = s
strrev_loop (suc fuel) beg end s =
    let rest =
      strrev_loop fuel (beg + 1) (end - 1)
        (set (set s end (get_or s beg 0)) beg (get_or s end 0)) in
    if ltb beg end then rest else s

-- `s` is the text before the terminator, which stays in place.
unfoldable pub strrev : List ℕ → List ℕ
unfolding strrev_loop
strrev s = strrev_loop (length s) 0 (length s - 1) s

abbrev pub lookup : List ℕ
lookup =
    48 ∷ 49 ∷ 50 ∷ 51 ∷ 52 ∷ 53 ∷ 54 ∷ 55 ∷ 56 ∷ 57 ∷ 65 ∷ 66 ∷ 67 ∷ 68 ∷ 69 ∷ 70 ∷ 71 ∷ 72 ∷ 73
    ∷ 74 ∷ 75 ∷ 76 ∷ 77 ∷ 78 ∷ 79 ∷ 80 ∷ 81 ∷ 82 ∷ 83 ∷ 84 ∷ 85 ∷ 86 ∷ 87 ∷ 88 ∷ 89 ∷ 90 ∷ []

-- The division loop of `itoa`: the digits from the lowest place up.
unfoldable pub itoa_loop : ℕ → ℕ → ℕ → List ℕ
itoa_loop zero newval radix = []
itoa_loop (suc fuel) newval radix =
    let rest = itoa_loop fuel (newval / radix) radix in
    if ltb 0 newval then get_or lookup (newval % radix) 0 ∷ rest else []

-- The text that `itoa` leaves in its buffer, without the terminator. Each round at least halves
-- the value, so `value` rounds are enough.
unfoldable pub itoa : ℕ → ℕ → List ℕ
itoa value radix = if value == 0 then 48 ∷ [] else strrev (itoa_loop value value radix)
