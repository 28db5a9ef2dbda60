-- ===== src/CString/Examples.antt =====
-- Runs of the string functions.
use linux_like_os.Base.{ℕ, ◌≡◌, refl, arith, List, [], ◌∷◌}
use linux_like_os.Memory.{Mem}
use linux_like_os.CString.{strrev, itoa_loop, itoa}
use linux_like_os.CString.Number.{parse, parse-itoa}

abbrev zeros : Mem
zeros a = 0

abbrev word_ls : List ℕ
word_ls = b'l' ∷ b's' ∷ 0 ∷ []

abbrev word_lsx : List ℕ
word_lsx = b'l' ∷ b's' ∷ b'x' ∷ 0 ∷ []

parse-itoa_example : parse 16 0 (itoa 48879 16) ≡ 48879
parse-itoa_example = parse-itoa 48879 16 (omega arith) (omega arith)

itoa_hex : itoa 48879 16 ≡ b'B' ∷ b'E' ∷ b'E' ∷ b'F' ∷ []
unfolding itoa strrev itoa_loop
itoa_hex = refl
