-- ===== src/Terminal.antt =====
-- student-distrib/terminal.c: the three terminals, the line buffers that the keyboard fills, and
-- the read and write operations of a terminal. `clear_buffer` is in kb.c.
pub mod Line
pub mod Display
mod Examples
use linux_like_os.Base.{
  ℕ, zero, suc, ◌+◌, ◌-◌, ◌*◌, ltb, ◌==◌, if◌then◌else◌, update, for_range, Bool, Option, none,
  some, List, [], ◌∷◌, ℤ, pos, negsuc, minus_one, ◌||◌, pos_part, ltb_ℤ,
}
use linux_like_os.Memory.{Mem, memcpy}
use linux_like_os.Screen.{Screen, putc, show_cursor}

abbrev pub buf_size : ℕ
buf_size = 128

abbrev pub terminal_count : ℕ
terminal_count = 3

abbrev pub vid_mem : ℕ
vid_mem = 0x1000

-- `VIDEO_PAGES` from the start of video memory.
abbrev pub video_pages_offset : ℕ
video_pages_offset = 0x2000

-- The globals of kb.c and terminal.c; `current_terminal` is in the screen. `interrupts` is what
-- `cli` and `sti` change.
pub record Console : Type 0 where
  pub screen : Screen
  pub caps_flag : ℕ
  pub shift_flag : ℕ
  pub ctrl_flag : ℕ
  pub alt_flag : ℕ
  pub kb_buffer : ℕ → ℕ → ℕ
  pub count : ℕ → ℕ
  pub read_flag : ℕ
  pub interrupts : Bool

-- The buffer of the terminal on display, and its length.
abbrev pub current : Console → ℕ
current c = c.screen.current_terminal

abbrev pub typed : Console → ℕ → ℕ
typed c = c.kb_buffer (current c)

abbrev pub typed_count : Console → ℕ
typed_count c = c.count (current c)

abbrev pub poke_key : ℕ → ℕ → Console → Console
poke_key i key c = record c { kb_buffer = update c.kb_buffer (current c) (update (typed c) i key) }

abbrev pub set_count : ℕ → Console → Console
set_count n c = record c { count = update c.count (current c) n }

abbrev pub clear_key : ℕ → Console → Console
clear_key i c = poke_key i 0 c

unfoldable pub clear_buffer : Console → Console
clear_buffer c = set_count 0 (for_range (typed_count c) 0 clear_key c)

unfoldable pub terminal_open : ℤ
terminal_open = pos 0

unfoldable pub terminal_close : Console → ℤ × Console
terminal_close c = (minus_one, clear_buffer c)

-- The loop that copies a line, with `rounds` left: the number of bytes, and memory.
unfoldable pub copy_line : (rounds i : ℕ) → (ℕ → ℕ) → (buf : ℕ) → Mem → ℕ × Mem
copy_line zero i line buf m = (i, m)
copy_line (suc rounds) i line buf m =
    let m' = update m (buf + i) (line i) in
    let rest = copy_line rounds (i + 1) line buf m' in if line i == b'\n' then (i + 1, m') else rest

unfoldable pub zero_byte : ℕ → ℕ → Mem → Mem
zero_byte buf i m = update m (buf + i) 0

-- What `terminal_read` does when `read_flag` is set. `nbytes` is not used.
unfoldable pub read_line : Console → (buf : Option ℕ) → Mem → ℤ × Console × Mem
read_line c none m = (pos 0, record c { read_flag = 0 }, m)
read_line c (some buf) m =
    let (n, m') =
      copy_line (typed_count c) 0 (typed c) buf (for_range buf_size 0 (zero_byte buf) m) in
    (pos n, clear_buffer (record c { read_flag = 0 }), m')

-- The loop that waits for the flag. `arrivals` says, for each look at the flag, what the interrupt
-- handlers did before it; `none` is to spin on when they are used up.
unfoldable pub await : Console → List (Console → Console) → Option Console
await c [] = none
await c (arrive ∷ arrivals) =
    let rest = await (arrive c) arrivals in
    if (arrive c).read_flag == 0 then rest else some (arrive c)

unfoldable pub terminal_read :
    Console
    → List (Console → Console)
    → (buf : Option ℕ) → (nbytes : ℤ) → Mem
    → Option (ℤ × Console × Mem)
terminal_read c arrivals buf nbytes m = elim (await (record c { read_flag = 0 }) arrivals) [
  | none ↦ none
  | some c' ↦ some (read_line c' buf m)
]

-- One round of `terminal_write`.
unfoldable pub write_byte : Mem → ℕ → ℕ → Screen → Screen
write_byte m buf i s = putc (m (buf + i)) s

-- A negative `nbytes` writes nothing.
unfoldable pub terminal_write : Mem → (buf : Option ℕ) → (nbytes : ℤ) → Screen → ℤ × Screen
terminal_write m none nbytes s = (minus_one, s)
terminal_write m (some buf) nbytes s =
    (pos (pos_part nbytes), for_range (pos_part nbytes) 0 (write_byte m buf) s)

-- The offset of the page that keeps a terminal's screen while another is on display. The start of
-- video memory is a multiple of four, so the offsets are aligned as the addresses are.
abbrev pub saved_page : ℕ → ℕ
saved_page t = video_pages_offset + t * vid_mem

unfoldable pub show_terminal : ℕ → Screen → Screen
show_terminal terminal_id s =
    let saved = memcpy s.video_mem (saved_page s.current_terminal) 0 vid_mem in
    show_cursor (record s {
      current_terminal = terminal_id;
      video_mem = memcpy saved 0 (saved_page terminal_id) vid_mem;
    })

unfoldable pub open_terminal : ℤ → Screen → Screen
open_terminal (negsuc n) s = s
open_terminal (pos terminal_id) s =
    if ltb 2 terminal_id || (terminal_id == s.current_terminal)
    then s
    else show_terminal terminal_id s

-- `terminal_t`, less a buffer that nothing uses; `-1` for no process.
pub record TerminalInfo : Type 0 where
  pub terminal_current_pid : ℤ
  pub terminal_esp : ℕ
  pub terminal_ebp : ℕ
  pub on_off_flag : ℕ

unfoldable pub reset_terminal : ℕ → (ℕ → TerminalInfo) → ℕ → TerminalInfo
reset_terminal i terminal_array = update terminal_array i (record {
  terminal_current_pid = minus_one;
  terminal_esp = 0;
  terminal_ebp = 0;
  on_off_flag = 0;
})

-- The array, `current_terminal` and `sched_terminal`.
unfoldable pub term_init : (ℕ → TerminalInfo) → (ℕ → TerminalInfo) × ℕ × ℕ
term_init terminal_array = (for_range terminal_count 0 reset_terminal terminal_array, 0, 0)
