-- ===== src/Os/Displays.antt =====
-- Which terminal is on display changes only by open_terminal of student-distrib/terminal.c.
use linux_like_os.Base.{
  ℕ, ◌<◌, ◌≡◌, refl, sym, subst, ◌∙◌, arith, ltb, ◌==◌, ◌||◌, if_both, for_range, for_range_inv,
  List, [], ◌∷◌, pos, some, Option-cases, inl, inr,
}
use linux_like_os.Screen.{
  Screen, settle, new_line, put_glyph, put_space, putc, puts, clear_screen, update_cursor,
}
use linux_like_os.Screen.Cells.{scroll_screen_lem, clear_lem}
use linux_like_os.Screen.Delete.{del_c-current}
use linux_like_os.Terminal.{
  Console, current, typed, typed_count, open_terminal, show_terminal, clear_buffer,
}
use linux_like_os.Terminal.Line.{clear_buffer_lem}
use linux_like_os.Port.{Device}
use linux_like_os.Keyboard.{
  Outcome, returns, halts, with_screen, modifier, pressed_key, add_key, erase_cell, delete_key,
  enter_key, plain_key, act, with_sti, handle_scancode, keyboard_irq_handler,
}
use linux_like_os.Keyboard.Buffer.{after}

-- The same terminal is on display.
abbrev pub SameDisplay : Screen → Screen → Type 0
SameDisplay s t = t.current_terminal ≡ s.current_terminal

settle-SameDisplay : (s : Screen) → SameDisplay s (settle s)
unfolding settle update_cursor
settle-SameDisplay s = ground (arith, scroll_screen_lem s)

put_glyph-SameDisplay : (c : ℕ) (s : Screen) → SameDisplay s (put_glyph c s)
unfolding put_glyph
put_glyph-SameDisplay c s = ground arith

put_spaces-SameDisplay : (s : Screen) → SameDisplay s (for_range 5 0 put_space s)
unfolding put_space
put_spaces-SameDisplay s =
    for_range_inv (λ i t. SameDisplay s t) put_space 5
      (λ i t lt h. settle-SameDisplay (put_glyph b' ' t) ∙ put_glyph-SameDisplay b' ' t ∙ h) 5 0 5 s
      refl (omega arith) refl

pub putc-SameDisplay : (c : ℕ) (s : Screen) → SameDisplay s (putc c s)
unfolding putc new_line
putc-SameDisplay c s = if_both (SameDisplay s) (c == 0) refl (
    if_both (SameDisplay s) ((c == 10) || (c == 13)) (settle-SameDisplay (new_line s)) (
      if_both (SameDisplay s) (c == 9) (settle-SameDisplay _ ∙ put_spaces-SameDisplay s)
        (settle-SameDisplay _ ∙ put_glyph-SameDisplay c s)))

pub puts-SameDisplay : (t : List ℕ) (s : Screen) → SameDisplay s (puts t s)
unfolding puts
puts-SameDisplay [] s = refl
puts-SameDisplay (c ∷ t) s = puts-SameDisplay t (putc c s) ∙ putc-SameDisplay c s

clear_screen-SameDisplay : (s : Screen) → SameDisplay s (clear_screen s)
unfolding clear_screen update_cursor
clear_screen-SameDisplay s = ground (arith, clear_lem s)

pub open_terminal-display :
    (t : ℕ) (s : Screen) → s.current_terminal < 3 → (open_terminal (pos t) s).current_terminal < 3
unfolding open_terminal show_terminal update_cursor
open_terminal-display t s h = ground (arith, h)

pub clear_buffer-display : (c : Console) → current (clear_buffer c) ≡ current c
clear_buffer-display c = rw (clear_buffer_lem c) refl

-- One of the three terminals is on display.
record Shows (o : Outcome) : Type 0 where
  shows : current (after o) < 3

shows : (o : Outcome) → current (after o) < 3 → Shows o
shows o h = record { shows = h }

add_key-display : (key : ℕ) (c : Console) → current (add_key key c) ≡ current c
unfolding add_key
add_key-display key c = putc-SameDisplay key c.screen

delete_key-display : (c : Console) → current (delete_key c) ≡ current c
unfolding delete_key erase_cell
delete_key-display c =
    if_both (λ d. current d ≡ current c) (typed_count c == 0) refl
      (if_both (λ d. current d ≡ current c) (typed c _ == b'\t') erased (del_c-current c.screen))
  where
    erased : current (for_range 5 0 erase_cell c) ≡ current c
    erased =
        for_range_inv (λ i d. current d ≡ current c) erase_cell 5
          (λ i d lt h. del_c-current d.screen ∙ h) 5 0 5 c refl (omega arith) refl

act-Shows : (scancode key : ℕ) (c : Console) → current c < 3 → Shows (act scancode key c)
unfolding act enter_key plain_key
act-Shows scancode key c h =
    let same : (d : Console) → current d ≡ current c → Shows (returns d) =
      λ d e. shows (returns d) (omega (arith, e, h)) in
    let opened : (t : ℕ) → Shows (returns (with_screen (open_terminal (pos t)) c)) =
      λ t. shows (returns _) (open_terminal-display t c.screen h) in
    if_both Shows _ (same _ (delete_key-display c)) (
      if_both Shows _ (same _ (clear_screen-SameDisplay c.screen)) (
        if_both Shows _ (shows (halts 42 c) h) (
          if_both Shows _
            (same _ (
              if_both (λ d. current d ≡ current c) (ltb (typed_count c) 128) (add_key-display key c)
                refl))
            (if_both Shows _ (opened 0) (
              if_both Shows _ (opened 1) (
                if_both Shows _ (opened 2) (
                  same _ (
                    if_both (λ d. current d ≡ current c) (ltb (typed_count c) 127)
                      (add_key-display key c) refl))))))))

sti-Shows : (o : Outcome) → Shows o → Shows (with_sti o)
sti-Shows (returns c) h = shows (returns _) h.shows
sti-Shows (halts status c) h = h

modifier-screen :
    (scancode : ℕ) (c d : Console) → modifier scancode c ≡ some d → d.screen ≡ c.screen
unfolding modifier
modifier-screen scancode c d e = ground (arith, e)

handle_scancode-Shows :
    (beyond : ℕ → ℕ → ℕ) (scancode : ℕ) (c : Console)
    → current c < 3
    → Shows (handle_scancode beyond scancode c)
unfolding handle_scancode
handle_scancode-Shows beyond scancode c h = elim (Option-cases (modifier scancode c)) [
  | inl e ↦
      rw (e, handle_scancode)
        (if_both Shows _ (shows (returns c) h)
          (sti-Shows _ (act-Shows scancode (pressed_key beyond scancode c) c h)))
  | inr (d, e) ↦
      rw (e, handle_scancode)
        (shows (returns _)
          (subst (λ s. s.current_terminal < 3) (sym (modifier-screen scancode c d e)) h))
]

pub keyboard_irq_handler-display :
    (beyond : ℕ → ℕ → ℕ) (dev : Device) (c : Console)
    → current c < 3
    → current (after (keyboard_irq_handler beyond dev c)) < 3
unfolding keyboard_irq_handler
keyboard_irq_handler-display beyond dev c h = (handle_scancode-Shows beyond _ _ h).shows
