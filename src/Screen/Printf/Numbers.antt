-- ===== src/Screen/Printf/Numbers.antt =====
-- The eight digits of `%#x`.
use linux_like_os.Base.{
  ℕ, zero, suc, ◌-◌, ◌^◌, ◌<◌, ◌≤◌, ◌≡◌, refl, ap, ◌∙◌, List, ◌++◌, length, length-append,
  replicate, arith,
}
use linux_like_os.CString.{itoa}
use linux_like_os.CString.Number.{parse, parse-itoa, length-itoa-le}
use linux_like_os.Screen.Printf.{alternate_text}

length-replicate : (n a : ℕ) → length (replicate n a) ≡ n
length-replicate zero a = refl
length-replicate (suc n) a = ap suc (length-replicate n a)

parse-zeros : (n : ℕ) (t : List ℕ) → parse 16 0 (replicate n 48 ++ t) ≡ parse 16 0 t
unfolding parse
parse-zeros zero t = refl
parse-zeros (suc n) t = parse-zeros n t

-- `%#x` prints a 32-bit word in exactly eight hexadecimal digits, which denote the word.
pub alternate_text-eight :
    (value : ℕ)
    → value < 2 ^ 32
    → (length (alternate_text value) ≡ 8) × (parse 16 0 (alternate_text value) ≡ value)
unfolding alternate_text
alternate_text-eight value h = rw none_dropped (
  omega (
    arith,
    length-append (replicate (8 - length (itoa value 16)) 48) (itoa value 16),
    length-replicate (8 - length (itoa value 16)) 48,
    short,
  ),
  parse-zeros (8 - length (itoa value 16)) (itoa value 16)
      ∙ parse-itoa value 16 (omega arith) (omega arith),
)
  where
    short : length (itoa value 16) ≤ 8
    short = (length-itoa-le 7 value 16 h (omega arith)).1

    none_dropped : length (itoa value 16) - 8 ≡ 0
    none_dropped = omega (arith, short)
