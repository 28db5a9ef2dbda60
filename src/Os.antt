-- ===== src/Os.antt =====
-- The kernel of student-distrib as a whole: the interrupt handlers of kb.c, schedule.c, rtc.c and
-- idt.c and the system calls of systemcall.c as steps of one machine, in whatever order they
-- come.
pub mod Files
pub mod Sane
pub mod Displays
pub mod Outcomes
pub mod Calls
pub mod Reading
pub mod Transfers
pub mod Life
pub mod Endings
pub mod Closing
pub mod Halting
pub mod Interrupts
pub mod Turns
pub mod Steps
pub mod Reachable
mod Examples
use linux_like_os.Base.{ℕ, ◌<◌, ◌≡◌, Option, some, none, List, ℤ, ◌∷◌, []}
use linux_like_os.Memory.{Mem}
use linux_like_os.Port.{Device, Ports}
use linux_like_os.FileSys.Image.{Name}
use linux_like_os.Terminal.{Console, current}
use linux_like_os.Keyboard.{Outcome, returns, halts, with_ports, keyboard_irq_handler}
use linux_like_os.Keyboard.Buffer.{Bounded}
use linux_like_os.Rtc.{rtc_irq_handler}
use linux_like_os.Process.{Kernel, Environment}
use linux_like_os.Process.Calls.{read, write, close, sys_open}
use linux_like_os.Process.Memory.{getargs, vidmap}
use linux_like_os.Process.Life.{Ending, returned, entered, resumed, execute, halt}
use linux_like_os.Idt.Exceptions.{Handled, ignored, halted, exception_handler}
use linux_like_os.Scheduler.{Scheduler, Switch, kept, switched, shell_entered, pit_irq_handler}

-- The kernel's variables with `temp_terminal`, and the memory of the programs.
pub record State : Type 0 where
  pub kernel : Kernel
  pub temp_terminal : ℕ
  pub memory : Mem

abbrev pub scheduler : State → Scheduler
scheduler s = record { kernel = s.kernel; temp_terminal = s.temp_terminal }

abbrev pub with_kernel : Kernel → State → State
with_kernel k s = record s { kernel = k }

abbrev pub with_console : Console → Kernel → Kernel
with_console c k = record k { console = c }

-- The state in which the processor goes on after `execute` or `halt`.
unfoldable pub after_ending : Ending → State → State
after_ending (returned r k m) s = record s { kernel = k; memory = m }
after_ending (entered eip k m) s = record s { kernel = k; memory = m }
after_ending (resumed status ebp esp k m) s = record s { kernel = k; memory = m }

unfoldable pub after_switch : Switch → State → State
after_switch (kept t m) s = record {
  kernel = t.kernel;
  temp_terminal = t.temp_terminal;
  memory = m;
}
after_switch (shell_entered eip t m) s = record {
  kernel = t.kernel;
  temp_terminal = t.temp_terminal;
  memory = m;
}
after_switch (switched esp ebp t) s = record {
  kernel = t.kernel;
  temp_terminal = t.temp_terminal;
  memory = s.memory;
}

unfoldable pub after_exception : Handled → State → State
unfolding after_ending
after_exception ignored s = s
after_exception (halted ending) s = after_ending ending s

-- The handler of the clock, on the kernel's variables.
unfoldable pub clock : Kernel → Kernel
clock k =
    let (received, io) = rtc_irq_handler k.rtc_interrupt_received k.console.screen.ports in
    record k { rtc_interrupt_received = received; console = with_ports (λ old. io) k.console }

-- What interrupts do to the console while a call waits keeps it in its bounds.
pub record Tame (arrive : Console → Console) : Type 0 where
  pub bounded : (c : Console) → Bounded c → Bounded (arrive c)
  pub on_display : (c : Console) → current c < 3 → current (arrive c) < 3

abbrev pub AllTame : List (Console → Console) → Type 0
AllTame [] = Unit {0}
AllTame (arrive ∷ arrivals) = Tame arrive × AllTame arrivals

-- One interrupt, exception or system call, or a piece of a program. The arguments of a call are
-- whatever the program passes; registers, stacks and devices hold what they may.
pub data Step : State → State → Type 0 where
  key :
      {s : State} (beyond : ℕ → ℕ → ℕ) (dev : Device) (c : Console)
      → keyboard_irq_handler beyond dev s.kernel.console ≡ returns c
      → Step s (with_kernel (with_console c s.kernel) s)
  control_c :
      {s : State} (beyond : ℕ → ℕ → ℕ) (dev : Device) (c : Console) (env : Environment)
      (esp ebp before status : ℕ) (stack : Mem) (ending : Ending)
      → keyboard_irq_handler beyond dev s.kernel.console ≡ halts status c
      → halt env esp ebp before stack status (with_console c s.kernel) s.memory ≡ some ending
      → Step s (after_ending ending s)
  timer :
      {s : State} (env : Environment) (esp ebp before : ℕ) (stack : Mem) (switch : Switch)
      → pit_irq_handler env esp ebp before stack (scheduler s) s.memory ≡ some switch
      → Step s (after_switch switch s)
  tick : {s : State} → Step s (with_kernel (clock s.kernel) s)
  raise :
      {s : State} (env : Environment) (esp ebp before i : ℕ) (stack : Mem) (handled : Handled)
      → exception_handler env esp ebp before stack i s.kernel s.memory ≡ some handled
      → Step s (after_exception handled s)
  compute : {s : State} (m : Mem) → Step s (record s { memory = m })
  call_read :
      {s : State} (env : Environment) (fd : ℤ) (buf : Option ℕ) (nbytes r : ℤ) (k : Kernel)
      (m : Mem)
      → AllTame env.arrivals
      → read env fd buf nbytes s.kernel s.memory ≡ some (r, k, m)
      → Step s (record s { kernel = k; memory = m })
  call_write :
      {s : State} (env : Environment) (fd : ℤ) (buf : Option ℕ) (nbytes r : ℤ) (k : Kernel)
      → write env fd buf nbytes s.kernel s.memory ≡ some (r, k)
      → Step s (with_kernel k s)
  call_open :
      {s : State} (env : Environment) (name : Option Name) (r : ℤ) (k : Kernel)
      → sys_open env name s.kernel ≡ some (r, k)
      → Step s (with_kernel k s)
  call_close :
      {s : State} (fd r : ℤ) (k : Kernel)
      → close fd s.kernel ≡ some (r, k)
      → Step s (with_kernel k s)
  call_getargs :
      {s : State} (args : ℕ) (buf : Option ℕ) (nbytes : ℤ)
      → Step s (record s { memory = (getargs args buf nbytes s.kernel s.memory).1 })
  call_vidmap :
      {s : State} (screen_start : ℕ)
      → Step s (record s {
        kernel = (vidmap screen_start s.kernel s.memory).1;
        memory = (vidmap screen_start s.kernel s.memory).2;
      })
  call_execute :
      {s : State} (env : Environment) (esp ebp before : ℕ) (stack : Mem) (command : List ℕ)
      (ending : Ending)
      → execute env esp ebp before stack command s.kernel s.memory ≡ some ending
      → Step s (after_ending ending s)
  call_halt :
      {s : State} (env : Environment) (esp ebp before status : ℕ) (stack : Mem) (ending : Ending)
      → halt env esp ebp before stack status s.kernel s.memory ≡ some ending
      → Step s (after_ending ending s)

-- The states that steps lead to.
pub data Reach (s : State) : State → Type 0 where
  here : Reach s s
  next : {t u : State} → Reach s t → Step t u → Reach s u
