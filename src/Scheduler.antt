-- ===== src/Scheduler.antt =====
-- student-distrib/schedule.c: the timer and its interrupt handler, which starts the three shells
-- and then gives the processor to the terminals in turn.
pub mod Turns
pub mod Registers
pub mod Display
mod Examples
use linux_like_os.Base.{
  ℕ, zero, suc, ◌+◌, ◌-◌, ◌*◌, ◌/◌, ◌%◌, ◌^◌, ltb, ◌==◌, if◌then◌else◌, update, Bool, true, false,
  Option, none, some, List, [], ◌∷◌, ℤ, pos, negsuc, ltb_ℤ, to_u32,
}
use linux_like_os.Memory.{Mem}
use linux_like_os.Port.{Ports, Device, outb}
use linux_like_os.Pic.{enable_irq, send_eoi}
use linux_like_os.Paging.{map_user, schedule_video}
use linux_like_os.Screen.{Screen}
use linux_like_os.Terminal.{Console, TerminalInfo, current, open_terminal}
use linux_like_os.Keyboard.{with_screen, with_ports, cli, sti}
use linux_like_os.Process.{Kernel, Environment, Pcb, current_pcb, set_pcb, slot}
use linux_like_os.Process.Life.{
  Ending, returned, entered, resumed, execute, shell, kernel_ds, kernel_stack,
}

-- `COUNT`
abbrev pub count : ℕ
count = 23862

abbrev pub channel_0_data_port : ℕ
channel_0_data_port = 0x40

abbrev pub command_reg : ℕ
command_reg = 0x43

abbrev pub channel_mode : ℕ
channel_mode = 0x36

unfoldable pub pit_init : Device → Ports → Ports
pit_init dev io = enable_irq dev 0 (
    outb (count / 2 ^ 8 % 2 ^ 8) channel_0_data_port
      (outb (count % 2 ^ 8) channel_0_data_port (outb channel_mode command_reg io)))

-- The kernel with `temp_terminal`.
pub record Scheduler : Type 0 where
  pub kernel : Kernel
  pub temp_terminal : ℕ

abbrev pub terminal_at : Kernel → ℕ → TerminalInfo
terminal_at k t = k.terminal_array t

-- How the handler ends: it returns to the program that was interrupted, enters the shell, or
-- returns with other values in the stack registers.
pub data Switch : Type 0 where
  kept : (s : Scheduler) (m : Mem) → Switch
  shell_entered : (eip : ℕ) (s : Scheduler) (m : Mem) → Switch
  switched : (esp ebp : ℕ) (s : Scheduler) → Switch

abbrev pub on_console : (Console → Console) → Kernel → Kernel
on_console f k = record k { console = f k.console }

abbrev pub acknowledge : Console → Console
acknowledge c = with_ports (send_eoi 0) (cli c)

-- `on_off_flag = 1` and `open_terminal`.
unfoldable pub turn_on : ℕ → Kernel → Kernel
turn_on t k = on_console (with_screen (open_terminal (pos t))) (record k {
  terminal_array = update k.terminal_array t (record (terminal_at k t) { on_off_flag = 1 });
})

-- What follows where `execute` returns: the terminal that was on display is opened again.
unfoldable pub back_to : (prev t : ℕ) → Ending → Switch
back_to prev t (returned r k m) =
    kept
      (record {
        kernel = on_console (λ c. sti (with_screen (open_terminal (pos prev)) c)) k;
        temp_terminal = t;
      })
      m
back_to prev t (entered eip k m) = shell_entered eip (record { kernel = k; temp_terminal = t }) m
back_to prev t (resumed status ebp esp k m) =
    switched esp ebp (record { kernel = k; temp_terminal = t })

unfoldable pub start_shell :
    Environment → (esp ebp before : ℕ) (stack : Mem) → (t : ℕ) → Kernel → Mem → Option Switch
start_shell env esp ebp before stack t k m =
    elim (execute env esp ebp before stack shell (turn_on t k) m) [
      | none ↦ none
      | some ending ↦ some (back_to (current k.console) t ending)
    ]

-- The assignments behind the choice of the terminal. `pcb` and `nxt_pcb` are both computed from
-- `new_pid` after it has been set, the second once more from the same number.
unfoldable pub take_turn : ℕ → Kernel → Kernel
take_turn t k =
    let pid = (terminal_at k t).terminal_current_pid in
    let nxt_pcb = k.pcbs (slot pid) in
    record k {
      sched_terminal = t;
      new_pid = pid;
      paging = schedule_video t (current k.console) (map_user (to_u32 nxt_pcb.pid) k.paging);
      tss_ss0 = kernel_ds;
      tss_esp0 = kernel_stack pid;
    }

-- Saves the stack registers in `pcb` and loads them from `nxt_pcb`.
unfoldable pub swap_stacks : (esp ebp : ℕ) → Scheduler → Switch
swap_stacks esp ebp s =
    let pcb = current_pcb s.kernel in
    let saved =
      set_pcb s.kernel.new_pid (record pcb { program_ebp = ebp; program_esp = esp }) s.kernel in
    let nxt_pcb = current_pcb saved in
    switched nxt_pcb.program_esp nxt_pcb.program_ebp (record s { kernel = on_console sti saved })

unfoldable pub next_turn : (esp ebp : ℕ) → Scheduler → Mem → Switch
next_turn esp ebp s m =
    let t = (s.temp_terminal + 1) % 3 in
    if ltb_ℤ (terminal_at s.kernel t).terminal_current_pid (pos 3)
    then kept (record { kernel = on_console sti s.kernel; temp_terminal = t }) m
    else swap_stacks esp ebp (record { kernel = take_turn t s.kernel; temp_terminal = t })

-- `esp` and `ebp` are the registers at the interrupt.
unfoldable pub pit_irq_handler :
    Environment → (esp ebp before : ℕ) (stack : Mem) → Scheduler → Mem → Option Switch
pit_irq_handler env esp ebp before stack s m =
    let acknowledged = record s { kernel = on_console acknowledge s.kernel } in
    if (terminal_at s.kernel s.temp_terminal).on_off_flag == 0
    then start_shell env esp ebp before stack s.temp_terminal acknowledged.kernel m
    else some (next_turn esp ebp acknowledged m)
