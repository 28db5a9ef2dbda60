-- ===== src/Os/Steps.antt =====
-- Every interrupt, exception and system call of student-distrib keeps the kernel sane.
use linux_like_os.Base.{ℕ, ◌<◌, subst, Bool, ℤ}
use linux_like_os.Memory.{Mem}
use linux_like_os.Port.{Device}
use linux_like_os.Terminal.{Console}
use linux_like_os.Keyboard.{keyboard_irq_handler}
use linux_like_os.Keyboard.Buffer.{after, keyboard_irq_handler-Bounded}
use linux_like_os.Process.{Kernel}
use linux_like_os.Process.Life.{Ending, returned, entered, resumed}
use linux_like_os.Idt.Exceptions.{Handled, ignored, halted}
use linux_like_os.Scheduler.{Switch, kept, switched, shell_entered}
use linux_like_os.Scheduler.Turns.{left}
use linux_like_os.Os.{
  State, scheduler, with_kernel, with_console, after_ending, after_switch, after_exception, Tame,
  Step, key, control_c, timer, tick, raise, compute, call_read, call_write, call_open, call_close,
  call_getargs, call_vidmap, call_execute, call_halt,
}
use linux_like_os.Os.Displays.{keyboard_irq_handler-display}
use linux_like_os.Os.Outcomes.{Gives-some}
use linux_like_os.Os.Sane.{Sane, Calm, Sane-Calm}
use linux_like_os.Os.Calls.{close-Sane}
use linux_like_os.Os.Reading.{read-Sane}
use linux_like_os.Os.Transfers.{write-Sane, sys_open-Sane, vidmap-Sane}
use linux_like_os.Os.Endings.{EndsSane, execute-Sane}
use linux_like_os.Os.Halting.{halt-Sane}
use linux_like_os.Os.Interrupts.{console-Sane, clock-Sane, HandledSane, exception_handler-Sane}
use linux_like_os.Os.Turns.{SwitchSane, pit_irq_handler-Sane}

-- The kernel's variables are sane, for some set of processes that have been started.
pub record SaneState (s : State) : Type 0 where
  pub made : ℕ → Bool
  pub sane : Sane made s.kernel
  pub temp_terminal : s.temp_terminal < 3

-- What the keyboard does while a call waits.
pub keyboard-Tame :
    (beyond : ℕ → ℕ → ℕ) (dev : Device) → Tame (λ c. after (keyboard_irq_handler beyond dev c))
keyboard-Tame beyond dev = record {
  bounded = λ c b. keyboard_irq_handler-Bounded beyond dev c b;
  on_display = λ c h. keyboard_irq_handler-display beyond dev c h;
}

after_key-Calm :
    (beyond : ℕ → ℕ → ℕ) (dev : Device) (c : Console)
    → Calm c
    → Calm (after (keyboard_irq_handler beyond dev c))
after_key-Calm beyond dev c h = record {
  bounded = keyboard_irq_handler-Bounded beyond dev c h.bounded;
  on_display = keyboard_irq_handler-display beyond dev c h.on_display;
}

after_ending-SaneState :
    (ending : Ending) (s : State)
    → s.temp_terminal < 3
    → EndsSane ending
    → SaneState (after_ending ending s)
unfolding after_ending
after_ending-SaneState (returned r k m) s lt e = record {
  made = e.made;
  sane = e.sane;
  temp_terminal = lt;
}
after_ending-SaneState (entered eip k m) s lt e = record {
  made = e.made;
  sane = e.sane;
  temp_terminal = lt;
}
after_ending-SaneState (resumed status b p k m) s lt e = record {
  made = e.made;
  sane = e.sane;
  temp_terminal = lt;
}

after_switch-SaneState : (r : Switch) (s : State) → SwitchSane r → SaneState (after_switch r s)
unfolding after_switch left
after_switch-SaneState (kept t m) s h = record {
  made = h.made;
  sane = h.sane;
  temp_terminal = h.temp_terminal;
}
after_switch-SaneState (shell_entered eip t m) s h = record {
  made = h.made;
  sane = h.sane;
  temp_terminal = h.temp_terminal;
}
after_switch-SaneState (switched esp ebp t) s h = record {
  made = h.made;
  sane = h.sane;
  temp_terminal = h.temp_terminal;
}

after_exception-SaneState :
    (r : Handled) (s : State)
    → SaneState s
    → HandledSane s.kernel r
    → SaneState (after_exception r s)
unfolding after_exception
after_exception-SaneState ignored s h g = h
after_exception-SaneState (halted ending) s h g =
    after_ending-SaneState ending s h.temp_terminal (record { made = g.made; sane = g.sane })

same_kernel :
    (k : Kernel) (s : State) (made : ℕ → Bool)
    → s.temp_terminal < 3
    → Sane made k
    → SaneState (with_kernel k s)
same_kernel k s made lt h = record { made = made; sane = h; temp_terminal = lt }

-- Every step keeps the kernel sane.
pub Step-SaneState : {s t : State} → Step s t → SaneState s → SaneState t
Step-SaneState {s} (key beyond dev c e) h = same_kernel _ s h.made h.temp_terminal (
    console-Sane h.made s.kernel c
      (subst (λ o. Calm (after o)) e
        (after_key-Calm beyond dev s.kernel.console (Sane-Calm h.made s.kernel h.sane)))
      h.sane)
Step-SaneState {s} (control_c beyond dev c env esp ebp before status stack ending e x) h =
    let calm =
      subst (λ o. Calm (after o)) e
        (after_key-Calm beyond dev s.kernel.console (Sane-Calm h.made s.kernel h.sane)) in
    after_ending-SaneState ending s h.temp_terminal (
      Gives-some EndsSane _ ending
        (halt-Sane h.made env esp ebp before stack status (with_console c s.kernel) s.memory
          (console-Sane h.made s.kernel c calm h.sane))
        x)
Step-SaneState {s} (timer env esp ebp before stack switch e) h = after_switch-SaneState switch s (
    Gives-some SwitchSane _ switch
      (pit_irq_handler-Sane h.made env esp ebp before stack (scheduler s) s.memory h.temp_terminal
        h.sane)
      e)
Step-SaneState {s} tick h =
    same_kernel _ s h.made h.temp_terminal (clock-Sane h.made s.kernel h.sane)
Step-SaneState {s} (raise env esp ebp before i stack handled e) h =
    after_exception-SaneState handled s h (
      Gives-some (HandledSane s.kernel) _ handled
        (exception_handler-Sane h.made env esp ebp before stack i s.kernel s.memory h.sane) e)
Step-SaneState (compute m) h = record {
  made = h.made;
  sane = h.sane;
  temp_terminal = h.temp_terminal;
}
Step-SaneState {s} (call_read env fd buf nbytes r k m tame e) h = record {
  made = h.made;
  sane =
      Gives-some (λ (r : ℤ × Kernel × Mem). Sane h.made r.1) _ (r, k, m)
        (read-Sane h.made env fd buf nbytes s.kernel s.memory tame h.sane) e;
  temp_terminal = h.temp_terminal;
}
Step-SaneState {s} (call_write env fd buf nbytes r k e) h = same_kernel k s h.made h.temp_terminal (
    Gives-some (λ (r : ℤ × Kernel). Sane h.made r.1) _ (r, k)
      (write-Sane h.made env fd buf nbytes s.kernel s.memory h.sane) e)
Step-SaneState {s} (call_open env name r k e) h = same_kernel k s h.made h.temp_terminal (
    Gives-some (λ (r : ℤ × Kernel). Sane h.made r.1) _ (r, k)
      (sys_open-Sane h.made env name s.kernel h.sane) e)
Step-SaneState {s} (call_close fd r k e) h = same_kernel k s h.made h.temp_terminal (
    Gives-some (λ (r : ℤ × Kernel). Sane h.made r.1) _ (r, k) (close-Sane h.made fd s.kernel h.sane)
      e)
Step-SaneState (call_getargs args buf nbytes) h = record {
  made = h.made;
  sane = h.sane;
  temp_terminal = h.temp_terminal;
}
Step-SaneState {s} (call_vidmap screen_start) h = record {
  made = h.made;
  sane = vidmap-Sane h.made screen_start s.kernel s.memory h.sane;
  temp_terminal = h.temp_terminal;
}
Step-SaneState {s} (call_execute env esp ebp before stack command ending e) h =
    after_ending-SaneState ending s h.temp_terminal (
      Gives-some EndsSane _ ending
        (execute-Sane h.made env esp ebp before stack command s.kernel s.memory h.sane) e)
Step-SaneState {s} (call_halt env esp ebp before status stack ending e) h =
    after_ending-SaneState ending s h.temp_terminal (
      Gives-some EndsSane _ ending
        (halt-Sane h.made env esp ebp before stack status s.kernel s.memory h.sane) e)
