-- ===== src/Keyboard.antt =====
-- student-distrib/kb.c: the keyboard's interrupt handler and the line buffer that it fills.
pub mod Buffer
pub mod Editing
mod Examples
use linux_like_os.Base.{
  ℕ, zero, suc, ◌+◌, ◌-◌, ◌*◌, ◌%◌, ltb, leb, ◌==◌, if◌then◌else◌, update, for_range, Bool, true,
  false, not, ◌&&◌, ◌||◌, Option, none, some, List, [], ◌∷◌, get_or, pos, bit_xor,
}
use linux_like_os.Port.{Ports, Device, inb, after_inb}
use linux_like_os.Pic.{send_eoi, enable_irq}
use linux_like_os.Screen.{Screen, putc, del_c, clear_screen}
use linux_like_os.Terminal.{
  Console, current, typed, typed_count, poke_key, set_count, clear_buffer, open_terminal, buf_size,
}

abbrev pub scancodes : ℕ
scancodes = 0x3B

abbrev pub keyboard_irq : ℕ
keyboard_irq = 1

abbrev pub keyboard_port_data : ℕ
keyboard_port_data = 0x60

abbrev pub backspace : ℕ
backspace = 0x0E

abbrev pub user_halt : ℕ
user_halt = 42

-- `scancode_dict[scancode][0]`, and `[1]` with shift.
abbrev pub plain_keys : List ℕ
plain_keys =
    0 ∷ 0 ∷ b'1' ∷ b'2' ∷ b'3' ∷ b'4' ∷ b'5' ∷ b'6' ∷ b'7' ∷ b'8' ∷ b'9' ∷ b'0' ∷ b'-' ∷ b'=' ∷ 0xe
    ∷ 9 ∷ b'q' ∷ b'w' ∷ b'e' ∷ b'r' ∷ b't' ∷ b'y' ∷ b'u' ∷ b'i' ∷ b'o' ∷ b'p' ∷ b'[' ∷ b']' ∷ 0xa
    ∷ 0x1d ∷ b'a' ∷ b's' ∷ b'd' ∷ b'f' ∷ b'g' ∷ b'h' ∷ b'j' ∷ b'k' ∷ b'l' ∷ b';' ∷ b'\'' ∷ b'`'
    ∷ b'*' ∷ b'\\' ∷ b'z' ∷ b'x' ∷ b'c' ∷ b'v' ∷ b'b' ∷ b'n' ∷ b'm' ∷ b',' ∷ b'.' ∷ b'/' ∷ b'6'
    ∷ b'7' ∷ b'8' ∷ b' ' ∷ b':' ∷ []

abbrev pub shifted_keys : List ℕ
shifted_keys =
    0 ∷ 0 ∷ b'!' ∷ b'@' ∷ b'#' ∷ b'$' ∷ b'%' ∷ b'^' ∷ b'&' ∷ b'*' ∷ b'(' ∷ b')' ∷ b'_' ∷ b'+' ∷ 0xe
    ∷ 9 ∷ b'Q' ∷ b'W' ∷ b'E' ∷ b'R' ∷ b'T' ∷ b'Y' ∷ b'U' ∷ b'I' ∷ b'O' ∷ b'P' ∷ b'{' ∷ b'}' ∷ 0xa
    ∷ 0x1d ∷ b'A' ∷ b'S' ∷ b'D' ∷ b'F' ∷ b'G' ∷ b'H' ∷ b'J' ∷ b'K' ∷ b'L' ∷ b':' ∷ b'"' ∷ b'~'
    ∷ b'*' ∷ b'|' ∷ b'Z' ∷ b'X' ∷ b'C' ∷ b'V' ∷ b'B' ∷ b'N' ∷ b'M' ∷ b'<' ∷ b'>' ∷ b'?' ∷ b'6'
    ∷ b'7' ∷ b'8' ∷ b' ' ∷ b':' ∷ []

abbrev pub with_screen : (Screen → Screen) → Console → Console
with_screen f c = record c { screen = f c.screen }

abbrev pub with_ports : (Ports → Ports) → Console → Console
with_ports f c = with_screen (λ s. record s { ports = f s.ports }) c

abbrev pub cli : Console → Console
cli c = record c { interrupts = false }

abbrev pub sti : Console → Console
sti c = record c { interrupts = true }

unfoldable pub keyboard_init : Device → Console → Console
keyboard_init dev c =
    with_screen clear_screen (clear_buffer (with_ports (enable_irq dev keyboard_irq) c))

-- The cases of the switch that return; `caps_flag` is a byte.
unfoldable pub modifier : ℕ → Console → Option Console
modifier scancode c =
    if scancode == 0x3A
    then some (record c { caps_flag = (255 - c.caps_flag) % 2 })
    else if (scancode == 0x2A) || (scancode == 0x36)
    then some (record c { shift_flag = 1 })
    else if (scancode == 0xAA) || (scancode == 0xB6)
    then some (record c { shift_flag = 0 })
    else if scancode == 0x1D
    then some (record c { ctrl_flag = 1 })
    else if scancode == 0x9D
    then some (record c { ctrl_flag = 0 })
    else if scancode == 0x38
    then some (record c { alt_flag = 1 })
    else if scancode == 0xB8
    then some (record c { alt_flag = 0 })
    else none

-- `scancode_dict[scancode][shift]`. For a scancode from 0x3B on the source reads behind the table:
-- `beyond` says what is there.
unfoldable pub dict_entry : (beyond : ℕ → ℕ → ℕ) → (scancode shift : ℕ) → ℕ
dict_entry beyond scancode shift =
    if ltb scancode scancodes
    then (if shift == 0 then get_or plain_keys scancode 0 else get_or shifted_keys scancode 0)
    else beyond scancode shift

unfoldable pub pressed_key : (beyond : ℕ → ℕ → ℕ) → ℕ → Console → ℕ
pressed_key beyond scancode c =
    let pressed = if ltb scancode scancodes then get_or plain_keys scancode 0 else 0 in
    if leb b'a' pressed && leb pressed b'z'
    then dict_entry beyond scancode (bit_xor c.shift_flag c.caps_flag)
    else dict_entry beyond scancode c.shift_flag

-- Prints the key, appends it to the buffer.
unfoldable pub add_key : ℕ → Console → Console
add_key pressed c =
    set_count (typed_count c + 1) (poke_key (typed_count c) pressed (with_screen (putc pressed) c))

unfoldable pub erase_cell : ℕ → Console → Console
erase_cell i c = with_screen del_c c

unfoldable pub delete_key : Console → Console
delete_key c =
    if typed_count c == 0
    then c
    else (let erased =
          if typed c (typed_count c - 1) == b'\t'
          then for_range 5 0 erase_cell c
          else with_screen del_c c in
        set_count (typed_count c - 1) (poke_key (typed_count c - 1) 0 erased))

-- The handler returns, or calls `halt` with a status, which does not return to it.
pub data Outcome : Type 0 where
  returns : (c : Console) → Outcome
  halts : (status : ℕ) (c : Console) → Outcome

unfoldable pub enter_key : ℕ → Console → Console
enter_key pressed c =
    if ltb (typed_count c) buf_size then record (add_key pressed c) { read_flag = 1 } else c

unfoldable pub plain_key : ℕ → Console → Console
plain_key pressed c = if ltb (typed_count c) (buf_size - 1) then add_key pressed c else c

-- The branches behind the check for a printable value.
unfoldable pub act : (scancode pressed : ℕ) → Console → Outcome
act scancode pressed c =
    if pressed == backspace
    then returns (delete_key c)
    else if not (c.ctrl_flag == 0) && ((pressed == b'l') || (pressed == b'L'))
    then returns (with_screen clear_screen c)
    else if not (c.ctrl_flag == 0) && ((pressed == b'c') || (pressed == b'C'))
    then halts user_halt c
    else if (pressed == b'\n') || (pressed == b'\r')
    then returns (enter_key pressed c)
    else if not (c.alt_flag == 0) && (scancode == 0x3B)
    then returns (with_screen (open_terminal (pos 0)) c)
    else if not (c.alt_flag == 0) && (scancode == 0x3C)
    then returns (with_screen (open_terminal (pos 1)) c)
    else if not (c.alt_flag == 0) && (scancode == 0x3D)
    then returns (with_screen (open_terminal (pos 2)) c)
    else returns (plain_key pressed c)

abbrev pub with_sti : Outcome → Outcome
with_sti (returns c) = returns (sti c)
with_sti (halts status c) = halts status c

abbrev pub is_function_key : ℕ → Bool
is_function_key scancode = (scancode == 0x3B) || (scancode == 0x3C) || (scancode == 0x3D)

-- The handler for a scancode that has been read. A key without a printable value returns before
-- the `sti`.
unfoldable pub handle_scancode : (beyond : ℕ → ℕ → ℕ) → ℕ → Console → Outcome
handle_scancode beyond scancode c = elim (modifier scancode c) [
  | some c' ↦ returns (sti c')
  | none ↦
      let pressed = pressed_key beyond scancode c in
      if (leb scancodes scancode || (pressed == 0)) && not (is_function_key scancode)
      then returns c
      else with_sti (act scancode pressed c)
]

unfoldable pub keyboard_irq_handler : (beyond : ℕ → ℕ → ℕ) → Device → Console → Outcome
keyboard_irq_handler beyond dev c =
    let acknowledged = with_ports (send_eoi keyboard_irq) (cli c) in
    handle_scancode beyond (inb dev keyboard_port_data acknowledged.screen.ports)
      (with_ports (after_inb keyboard_port_data) acknowledged)
