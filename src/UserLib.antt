-- ===== src/UserLib.antt =====
-- syscalls/ece391support.c: the string functions that the user programs are linked with. Strings are
-- as in CString: the list of bytes from the pointer to the end of the object, and `none` is a read
-- past that end.
pub mod Agreement
pub mod Order
mod Examples
use linux_like_os.Base.{
  ℕ, zero, suc, ◌+◌, ◌-◌, ◌/◌, ◌%◌, ltb, ◌==◌, if◌then◌else◌, ◌||◌, update, ℤ, pos, Option, none,
  some, List, [], ◌∷◌, length, get_or, set,
}
use linux_like_os.Memory.{Mem}
use linux_like_os.CString.{minus, lookup}

unfoldable pub ece391_strlen_from : ℕ → List ℕ → Option ℕ
ece391_strlen_from len [] = none
ece391_strlen_from len (c ∷ s) = if 0 == c then some len else ece391_strlen_from (len + 1) s

unfoldable pub ece391_strlen : List ℕ → Option ℕ
unfolding ece391_strlen_from
ece391_strlen s = ece391_strlen_from 0 s

unfoldable pub ece391_strcpy : Mem → ℕ → List ℕ → Option Mem
ece391_strcpy m dst [] = none
ece391_strcpy m dst (c ∷ src) =
    let rest = ece391_strcpy (update m dst c) (dst + 1) src in
    if 0 == c then some (update m dst c) else rest

-- The difference is that of two `int32_t`.
unfoldable pub ece391_strcmp : List ℕ → List ℕ → Option ℤ
ece391_strcmp [] s2 = none
ece391_strcmp (a ∷ s1) [] = none
ece391_strcmp (a ∷ s1) (b ∷ s2) =
    let rest = ece391_strcmp s1 s2 in
    if a == b then (if a == 0 then some (pos 0) else rest) else some (minus (pos a) (pos b))

-- The loop is left where `--n` reaches 0, so that it goes on with at least one byte to compare.
unfoldable pub ece391_strncmp : List ℕ → List ℕ → ℕ → Option ℤ
ece391_strncmp s1 s2 zero = some (pos 0)
ece391_strncmp [] s2 (suc n) = none
ece391_strncmp (a ∷ s1) [] (suc n) = none
ece391_strncmp (a ∷ s1) (b ∷ s2) (suc n) =
    let rest = ece391_strncmp s1 s2 n in
    if a == b
    then (if (a == 0) || (n == 0) then some (pos 0) else rest)
    else some (minus (pos a) (pos b))

-- The loop of `ece391_strrev`. `end` is the length less one; where that is -1 or 0 the function
-- returns before the loop, which would not run either.
unfoldable pub ece391_strrev_loop : ℕ → ℕ → ℕ → List ℕ → List ℕ
ece391_strrev_loop zero beg end s = s
ece391_strrev_loop (suc fuel) beg end s =
    let tmp = get_or s end 0 in
    let rest =
      ece391_strrev_loop fuel (beg + 1) (end - 1) (set (set s end (get_or s beg 0)) beg tmp) in
    if ltb beg end then rest else s

-- `s` is the text before the terminator, which stays in place.
unfoldable pub ece391_strrev : List ℕ → List ℕ
unfolding ece391_strrev_loop
ece391_strrev s = if length s - 1 == 0 then s else ece391_strrev_loop (length s) 0 (length s - 1) s

unfoldable pub ece391_itoa_loop : ℕ → ℕ → ℕ → List ℕ
ece391_itoa_loop zero newval radix = []
ece391_itoa_loop (suc fuel) newval radix =
    let rest = ece391_itoa_loop fuel (newval / radix) radix in
    if ltb 0 newval then get_or lookup (newval % radix) 0 ∷ rest else []

-- The text that is left in the buffer, without the terminator; `value` rounds are enough for a
-- radix of two or more.
unfoldable pub ece391_itoa : ℕ → ℕ → List ℕ
ece391_itoa value radix =
    if value == 0 then 48 ∷ [] else ece391_strrev (ece391_itoa_loop value value radix)
