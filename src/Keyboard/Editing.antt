-- ===== src/Keyboard/Editing.antt =====
-- Typing a key and deleting it again.
use linux_like_os.Base.{
  ℕ, ◌+◌, ◌-◌, ◌<◌, ◌≡◌, ◌≢◌, ◌⊎◌, refl, leb, ◌==◌, if◌then◌else◌, arith, ap, ◌∙◌, Bool, not, ◌&&◌,
  ◌||◌, get_or, bit_xor, passes_below, passes_below_each, ◌≤◌, true, lt→ltb, zero, suc,
}
use linux_like_os.Screen.{row, col, putc, del_c}
use linux_like_os.Screen.Invariant.{OnScreen}
use linux_like_os.Screen.Delete.{IsGlyph, blank_at_cursor, del_c-putc, putc-current, del_c-current}
use linux_like_os.Terminal.{Console, current, typed, typed_count}
use linux_like_os.Keyboard.{
  plain_keys, shifted_keys, pressed_key, dict_entry, add_key, delete_key, plain_key,
}

module _ (key : ℕ) (c : Console) (v : OnScreen c.screen) (g : IsGlyph key)
    (room : (row c.screen < 24) ⊎ (col c.screen < 79)) where
  added_current : current (add_key key c) ≡ current c
  unfolding add_key
  added_current = putc-current key c.screen v g room

  added_count : typed_count (add_key key c) ≡ typed_count c + 1
  unfolding add_key
  added_count = ground (arith, putc-current key c.screen v g room)

  added_keys : (j : ℕ) → typed (add_key key c) j ≡ (if typed_count c == j then key else typed c j)
  unfolding add_key
  added_keys j = ground (arith, putc-current key c.screen v g room)

  added_screen : (add_key key c).screen ≡ putc key c.screen
  unfolding add_key
  added_screen = refl

module _ (c : Console) (full : 0 < typed_count c) (ne : typed c (typed_count c - 1) ≢ 9) where
  deleted_screen : (delete_key c).screen ≡ del_c c.screen
  unfolding delete_key
  deleted_screen = ground (arith, full, ne)

  deleted_count : typed_count (delete_key c) ≡ typed_count c - 1
  unfolding delete_key
  deleted_count = ground (arith, full, ne, del_c-current c.screen)

  deleted_keys :
      (j : ℕ) → typed (delete_key c) j ≡ (if typed_count c - 1 == j then 0 else typed c j)
  unfolding delete_key
  deleted_keys j = ground (arith, full, ne, del_c-current c.screen)

delete_key-add_key :
    (key : ℕ) (c : Console)
    → OnScreen c.screen
    → IsGlyph key
    → (row c.screen < 24) ⊎ (col c.screen < 79)
    → (typed_count (delete_key (add_key key c)) ≡ typed_count c)
      × ((j : ℕ) → j < typed_count c → typed (delete_key (add_key key c)) j ≡ typed c j)
      × (col (delete_key (add_key key c)).screen ≡ col c.screen)
      × (row (delete_key (add_key key c)).screen ≡ row c.screen)
      × ((a : ℕ) → (delete_key (add_key key c)).screen.video_mem a ≡ blank_at_cursor c.screen a)
delete_key-add_key key c v g room =
    let d = add_key key c in
    let count = added_count key c v g room in
    let full : 0 < typed_count d = omega (arith, count) in
    let ne : typed d (typed_count d - 1) ≢ 9 =
      ground (arith, count, added_keys key c v g room (typed_count d - 1), g) in
    let (x, y, cells) = del_c-putc key c.screen v g room in
    let screen = deleted_screen d full ne ∙ ap del_c (added_screen key c v g room) in
    (
      omega (arith, deleted_count d full ne, count),
      λ j lt. ground (arith, deleted_keys d full ne j, added_keys key c v g room j, count),
      ap col screen ∙ x,
      ap row screen ∙ y,
      λ a. ap (λ s. s.video_mem a) screen ∙ cells a,
    )

-- Where fewer than 127 keys are in the buffer and a printable key does not scroll the screen,
-- typing it and then pressing backspace puts back the length of the buffer, the keys before it and
-- the cursor, and leaves the cell of the key blank and every other byte of video memory as it was.
pub delete_key-plain_key :
    (key : ℕ) (c : Console)
    → typed_count c < 127
    → OnScreen c.screen
    → IsGlyph key
    → (row c.screen < 24) ⊎ (col c.screen < 79)
    → (typed_count (delete_key (plain_key key c)) ≡ typed_count c)
      × ((j : ℕ) → j < typed_count c → typed (delete_key (plain_key key c)) j ≡ typed c j)
      × (col (delete_key (plain_key key c)).screen ≡ col c.screen)
      × (row (delete_key (plain_key key c)).screen ≡ row c.screen)
      × ((a : ℕ) → (delete_key (plain_key key c)).screen.video_mem a ≡ blank_at_cursor c.screen a)
unfolding plain_key
delete_key-plain_key key c fits v g room =
    rw (lt→ltb (typed_count c) 127 fits) (delete_key-add_key key c v g room)

-- What the key of a scancode gives alone, and with shift.
unfoldable pub letter : ℕ → ℕ
letter k = get_or plain_keys k 0

unfoldable capital : ℕ → ℕ
capital k = get_or shifted_keys k 0

unfoldable case_kept : ℕ → Bool
case_kept k = not (leb b'a' (letter k) && leb (letter k) b'z') || (capital k == letter k - 32)

cases-kept : passes_below 59 case_kept ≡ true
unfolding passes_below case_kept letter capital
cases-kept = refl

capital-letter : (k : ℕ) → k < 59 → b'a' ≤ letter k → letter k ≤ b'z' → capital k ≡ letter k - 32
unfolding case_kept
capital-letter k lt lo hi = ground (arith, passes_below_each 59 case_kept k cases-kept lt, lo, hi)

xor-flags : (s t : ℕ) → s < 2 → t < 2 → bit_xor s t ≡ (if s == t then 0 else 1)
xor-flags zero zero hs ht = refl
xor-flags zero (suc zero) hs ht = refl
xor-flags (suc zero) zero hs ht = refl
xor-flags (suc zero) (suc zero) hs ht = refl
xor-flags (suc (suc s)) t hs ht = absurd (omega arith)
xor-flags zero (suc (suc t)) hs ht = absurd (omega arith)
xor-flags (suc zero) (suc (suc t)) hs ht = absurd (omega arith)

dict_entry_lem :
    (beyond : ℕ → ℕ → ℕ) (k shift : ℕ)
    → k < 59
    → dict_entry beyond k shift ≡ (if shift == 0 then letter k else capital k)
unfolding dict_entry letter capital
dict_entry_lem beyond k shift lt = rw (lt→ltb k 59 lt, dict_entry) refl

pressed_key_lem :
    (beyond : ℕ → ℕ → ℕ) (k : ℕ) (c : Console)
    → k < 59
    → pressed_key beyond k c ≡ (
        if leb b'a' (letter k) && leb (letter k) b'z'
        then dict_entry beyond k (bit_xor c.shift_flag c.caps_flag)
        else dict_entry beyond k c.shift_flag)
unfolding pressed_key letter
pressed_key_lem beyond k c lt = rw (lt→ltb k 59 lt, pressed_key) refl

-- The key of a letter gives the lower-case letter, or the upper-case one, which is 32 below it,
-- where exactly one of shift and caps lock is on.
pub pressed_key-letter :
    (beyond : ℕ → ℕ → ℕ) (k : ℕ) (c : Console)
    → k < 59
    → c.shift_flag < 2
    → c.caps_flag < 2
    → b'a' ≤ letter k
    → letter k ≤ b'z'
    → pressed_key beyond k c ≡ (if c.shift_flag == c.caps_flag then letter k else letter k - 32)
pressed_key-letter beyond k c lt hs hc lo hi =
    pressed_key_lem beyond k c lt
    ∙ ground (
      arith,
      dict_entry_lem beyond k (bit_xor c.shift_flag c.caps_flag) lt,
      xor-flags c.shift_flag c.caps_flag hs hc,
      capital-letter k lt lo hi,
      lo,
      hi,
    )
