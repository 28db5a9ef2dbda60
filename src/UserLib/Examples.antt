-- ===== src/UserLib/Examples.antt =====
-- Runs of the user library.
use linux_like_os.CString.{minus}
use linux_like_os.Base.{ℕ, ◌<◌, ◌≢◌, get_or, ◌≡◌, ◌↔◌, refl, ℤ, pos, ltb_ℤ, some, List, [], ◌∷◌}
use linux_like_os.CString.Compare.{cstr}
use linux_like_os.UserLib.{ece391_strcmp}
use linux_like_os.UserLib.Order.{ece391_strcmp-order}

abbrev cat : List ℕ
cat = b'c' ∷ b'a' ∷ b't' ∷ 0 ∷ []

abbrev car : List ℕ
car = b'c' ∷ b'a' ∷ b'r' ∷ 0 ∷ []

ece391_strcmp-order_example :
    (r r' : ℤ) × (ece391_strcmp cat car ≡ some r)
    × (ece391_strcmp car cat ≡ some r')
    × ((i : ℕ)
        → ((j : ℕ) → j < i → get_or (cstr cat) j 0 ≡ get_or (cstr car) j 0)
        → get_or (cstr cat) i 0 ≢ get_or (cstr car) i 0
        → r ≡ minus (pos (get_or (cstr cat) i 0)) (pos (get_or (cstr car) i 0)))
    × ((r ≡ pos 0) ↔ (cstr cat ≡ cstr car))
    × (ltb_ℤ r (pos 0) ≡ ltb_ℤ (pos 0) r')
ece391_strcmp-order_example = ece391_strcmp-order cat car refl refl
