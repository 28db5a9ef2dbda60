-- ===== src/Keyboard/Examples.antt =====
-- Runs of the keyboard handler.
use linux_like_os.Base.{ℕ, ◌≡◌, ◌<◌, inr, refl, arith, [], true}
use linux_like_os.Port.{Device}
use linux_like_os.Screen.{Screen, row, col}
use linux_like_os.Screen.Invariant.{OnScreen}
use linux_like_os.Screen.Delete.{IsGlyph, blank_at_cursor}
use linux_like_os.Terminal.{Console, typed, typed_count}
use linux_like_os.Keyboard.{keyboard_irq_handler, delete_key, plain_key}
use linux_like_os.Keyboard.Buffer.{Bounded, after, keyboard_irq_handler-Bounded}
use linux_like_os.Keyboard.Editing.{letter, delete_key-plain_key}

abbrev dark : Screen
dark = record {
  current_terminal = 1;
  screen_x = λ t. 4;
  screen_y = λ t. 24;
  line_tracker = λ r. 0;
  video_mem = λ a. 0;
  ports = [];
}

-- Caps lock is on, and one key has been typed.
abbrev desk : Console
desk = record {
  screen = dark;
  caps_flag = 1;
  shift_flag = 0;
  ctrl_flag = 0;
  alt_flag = 0;
  kb_buffer = λ t j. 0;
  count = λ t. 1;
  read_flag = 0;
  interrupts = true;
}

abbrev behind_table : ℕ → ℕ → ℕ
behind_table scancode shift = 0

-- A keyboard on which `q` is pressed.
abbrev keyboard : Device
keyboard io port = 0x10

dark-OnScreen : OnScreen dark
dark-OnScreen = record {
  columns = λ t. omega arith;
  rows = λ t. omega arith;
  ends = λ r h. omega arith;
}

keyboard_irq_handler-Bounded_example :
    Bounded (after (keyboard_irq_handler behind_table keyboard desk))
keyboard_irq_handler-Bounded_example =
    keyboard_irq_handler-Bounded behind_table keyboard desk
      (record { counts = λ t. omega arith; on_screen = dark-OnScreen })

q-IsGlyph : IsGlyph b'q'
q-IsGlyph =
    (λ e. omega (arith, e), λ e. omega (arith, e), λ e. omega (arith, e), λ e. omega (arith, e))

delete_key-plain_key_example :
    (typed_count (delete_key (plain_key b'q' desk)) ≡ 1)
    × ((j : ℕ) → j < 1 → typed (delete_key (plain_key b'q' desk)) j ≡ 0)
    × (col (delete_key (plain_key b'q' desk)).screen ≡ 4)
    × (row (delete_key (plain_key b'q' desk)).screen ≡ 24)
    × ((a : ℕ) → (delete_key (plain_key b'q' desk)).screen.video_mem a ≡ blank_at_cursor dark a)
delete_key-plain_key_example =
    delete_key-plain_key b'q' desk (omega arith) dark-OnScreen q-IsGlyph (inr (omega arith))

letter_q : letter 0x10 ≡ b'q'
unfolding letter
letter_q = refl
