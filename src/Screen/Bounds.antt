-- ===== src/Screen/Bounds.antt =====
-- Printing and deleting write inside the 4000 bytes of the text screen only.
use linux_like_os.Base.{
  ℕ, ◌-◌, ◌≤◌, ◌≡◌, refl, ◌∙◌, ◌==◌, for_range, for_range_inv, if_both, ◌||◌, arith, List, [], ◌∷◌,
}
use linux_like_os.Screen.{
  Screen, row, update_cursor, settle, new_line, put_glyph, put_space, putc, puts, del_c,
}
use linux_like_os.Screen.Cells.{scroll_screen_lem}
use linux_like_os.Screen.Invariant.{OnScreen, put_space-OnScreen, putc-OnScreen}

-- The bytes behind the text screen are those of `s`.
abbrev pub SameBehind : Screen → Screen → Type 0
SameBehind s t = (a : ℕ) → 4000 ≤ a → t.video_mem a ≡ s.video_mem a

settle-SameBehind : (s : Screen) → SameBehind s (settle s)
unfolding settle update_cursor
settle-SameBehind s a h = ground (arith, scroll_screen_lem s)

put_glyph-SameBehind : (c : ℕ) (s : Screen) → OnScreen s → SameBehind s (put_glyph c s)
unfolding put_glyph
put_glyph-SameBehind c s v a h =
    ground (arith, v.columns s.current_terminal, v.rows s.current_terminal)

tab-SameBehind : (s : Screen) → OnScreen s → SameBehind s (for_range 5 0 put_space s)
unfolding put_space
tab-SameBehind s v =
    (for_range_inv (λ i t. OnScreen t × SameBehind s t) put_space 5
      (λ i t h k. (
        put_space-OnScreen i t k.0,
        λ a b. settle-SameBehind _ a b ∙ put_glyph-SameBehind _ t k.0 a b ∙ k.1 a b,
      ))
      5 0 5 s refl (omega arith) (v, λ a h. refl)).1

settled : (s t : Screen) → SameBehind s t → SameBehind s (settle t)
settled s t k a h = settle-SameBehind t a h ∙ k a h

putc-SameBehind : (c : ℕ) (s : Screen) → OnScreen s → SameBehind s (putc c s)
unfolding putc new_line
putc-SameBehind c s v =
    if_both (SameBehind s) (c == 0) (λ a h. refl)
      (if_both (SameBehind s) ((c == 10) || (c == 13)) (settled s _ (λ a h. refl)) (
        if_both (SameBehind s) (c == 9) (settled s _ (tab-SameBehind s v))
          (settled s _ (put_glyph-SameBehind c s v))))

-- Printing a text from a valid cursor changes no byte of video memory behind the 4000 bytes of the
-- text screen.
pub puts-SameBehind : (t : List ℕ) (s : Screen) → OnScreen s → SameBehind s (puts t s)
unfolding puts
puts-SameBehind [] s v a h = refl
puts-SameBehind (c ∷ t) s v a h =
    puts-SameBehind t (putc c s) (putc-OnScreen c s v) a h ∙ putc-SameBehind c s v a h

-- Nor does deleting a character.
pub del_c-SameBehind : (s : Screen) → OnScreen s → SameBehind s (del_c s)
unfolding del_c update_cursor
del_c-SameBehind s v a h =
    ground (arith, v.columns s.current_terminal, v.rows s.current_terminal, v.ends (row s - 1))
