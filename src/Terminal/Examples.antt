-- ===== src/Terminal/Examples.antt =====
-- Runs of the terminals.
use linux_like_os.Base.{ℕ, ◌≡◌, ◌==◌, if◌then◌else◌, refl, arith, some, [], true, pos}
use linux_like_os.Memory.{Mem}
use linux_like_os.Screen.{Screen}
use linux_like_os.Terminal.{Console, read_line, open_terminal}
use linux_like_os.Terminal.Line.{IsLine, emptied, with_line, read_line-with_line}
use linux_like_os.Terminal.Display.{shown, open_terminal-shown}

abbrev lit : Screen
lit = record {
  current_terminal = 0;
  screen_x = λ t. 0;
  screen_y = λ t. 0;
  line_tracker = λ r. 0;
  video_mem = λ a. 7;
  ports = [];
}

-- The line `ls`, at the prompt of the first terminal.
abbrev keys : ℕ → ℕ
keys j = if j == 0 then b'l' else if j == 1 then b's' else b'\n'

abbrev prompt : Console
prompt = record {
  screen = lit;
  caps_flag = 0;
  shift_flag = 0;
  ctrl_flag = 0;
  alt_flag = 0;
  kb_buffer = λ t j. keys j;
  count = λ t. 3;
  read_flag = 1;
  interrupts = true;
}

abbrev zeros : Mem
zeros a = 0

ls-IsLine : IsLine keys 2
ls-IsLine = record { newline = refl; first = λ j lt e. ground (arith, e) }

read_line-with_line_example :
    read_line prompt (some 64) zeros ≡ (pos 3, emptied prompt, with_line zeros 64 keys 3)
read_line-with_line_example =
    read_line-with_line prompt 64 2 zeros ls-IsLine (omega arith) (omega arith)

open_terminal-shown_example :
    ((open_terminal (pos 2) lit).current_terminal ≡ 2)
    × (shown (open_terminal (pos 2) lit) 0 160 ≡ 7)
open_terminal-shown_example =
    open_terminal-shown lit 2 0 160 (λ a. omega arith) (omega arith) (omega arith) (omega arith)
      (omega arith)
