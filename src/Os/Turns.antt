-- ===== src/Os/Turns.antt =====
-- The handler of the timer in student-distrib/schedule.c keeps the kernel sane.
use linux_like_os.Base.{
  ℕ, ◌+◌, ◌%◌, ◌^◌, ◌<◌, ◌≡◌, refl, subst, arith, Bool, true, false, ◌==◌, if_both, update, ℤ, pos,
  negsuc, ltb_ℤ, none,
}
use linux_like_os.Memory.{Mem}
use linux_like_os.Pic.{send_eoi}
use linux_like_os.Scheduler.Turns.{left}
use linux_like_os.Paging.{map_user, schedule_video}
use linux_like_os.Terminal.{Console, TerminalInfo, current, open_terminal}
use linux_like_os.Keyboard.{with_screen, sti}
use linux_like_os.Keyboard.Buffer.{open_terminal-OnScreen}
use linux_like_os.Process.{Kernel, Environment, current_pcb, set_pcb, slot}
use linux_like_os.Process.Life.{Ending, returned, entered, resumed, execute, shell}
use linux_like_os.Scheduler.{
  Scheduler, Switch, terminal_at, on_console, acknowledge, turn_on, back_to, start_shell, take_turn,
  swap_stacks, next_turn, pit_irq_handler,
}
use linux_like_os.Os.Displays.{open_terminal-display}
use linux_like_os.Os.Outcomes.{Gives, Gives-elim, Gives-some, nothing, result, if_cases}
use linux_like_os.Os.Sane.{Known, SetFor, Sane, Calm, Sane-Calm, set_pcb-Sane}
use linux_like_os.Os.Calls.{ports-Calm}
use linux_like_os.Os.Endings.{EndsSane, execute-Sane}
use linux_like_os.Os.Interrupts.{console-Sane, flags-Calm}

-- The kernel is sane where the handler of the timer leaves.
pub record SwitchSane (r : Switch) : Type 0 where
  pub made : ℕ → Bool
  pub sane : Sane made (left r).kernel
  pub temp_terminal : (left r).temp_terminal < 3

opened-Calm : (t : ℕ) (c : Console) → Calm c → Calm (with_screen (open_terminal (pos t)) c)
opened-Calm t c h = record {
  bounded = record {
    counts = h.bounded.counts;
    on_screen = open_terminal-OnScreen t c.screen h.bounded.on_screen;
  };
  on_display = open_terminal-display t c.screen h.on_display;
}

turn_on-Sane : (made : ℕ → Bool) (t : ℕ) (k : Kernel) → Sane made k → Sane made (turn_on t k)
unfolding turn_on
turn_on-Sane made t k s =
    console-Sane made on (with_screen (open_terminal (pos t)) k.console)
      (opened-Calm t k.console (Sane-Calm made k s))
      (record {
        bounded = s.bounded;
        on_display = s.on_display;
        scheduled = s.scheduled;
        table = s.table;
        arrays = s.arrays;
        processes = s.processes;
        running = s.running;
        terminals = λ u lt. kept u (s.terminals u lt);
        set_for = same k.new_pid s.set_for;
      })
  where
    on : Kernel
    on = record k {
      terminal_array = update k.terminal_array t (record (terminal_at k t) { on_off_flag = 1 });
    }

    kept :
        (u : ℕ)
        → Known made (k.terminal_array u).terminal_current_pid
        → Known made (on.terminal_array u).terminal_current_pid
    kept u h =
        if_cases (λ (i : TerminalInfo). Known made i.terminal_current_pid) (t == u)
          (λ e.
            subst (λ v. Known made (k.terminal_array v).terminal_current_pid) (ground (arith, e)) h)
          (λ e. h)

    same : (p : ℤ) → SetFor p k → SetFor p on
    same (pos n) h = h
    same (negsuc n) h = tt

back_to-Sane :
    (prev t : ℕ) (ending : Ending) → t < 3 → EndsSane ending → SwitchSane (back_to prev t ending)
unfolding back_to left
back_to-Sane prev t (returned r k m) lt e = record {
  made = e.made;
  sane =
      console-Sane e.made k _
        (flags-Calm true _ (opened-Calm prev k.console (Sane-Calm e.made k e.sane))) e.sane;
  temp_terminal = lt;
}
back_to-Sane prev t (entered eip k m) lt e = record {
  made = e.made;
  sane = e.sane;
  temp_terminal = lt;
}
back_to-Sane prev t (resumed s b p k m) lt e = record {
  made = e.made;
  sane = e.sane;
  temp_terminal = lt;
}

start_shell-Sane :
    (made : ℕ → Bool) (env : Environment) (esp ebp before : ℕ) (stack : Mem) (t : ℕ) (k : Kernel)
    (m : Mem)
    → t < 3
    → Sane made k
    → Gives SwitchSane (start_shell env esp ebp before stack t k m)
unfolding start_shell
start_shell-Sane made env esp ebp before stack t k m lt s =
    Gives-elim SwitchSane (execute env esp ebp before stack shell (turn_on t k) m) none _ nothing
      (λ ending e. result _ (
        back_to-Sane (current k.console) t ending lt (
          Gives-some EndsSane _ ending
            (execute-Sane made env esp ebp before stack shell (turn_on t k) m
              (turn_on-Sane made t k s))
            e)))

take_turn-SetFor :
    (made : ℕ → Bool) (t : ℕ) (k : Kernel) (p : ℤ)
    → (k.terminal_array t).terminal_current_pid ≡ p
    → ltb_ℤ p (pos 3) ≡ false
    → Known made p
    → Sane made k
    → SetFor p (take_turn t k)
unfolding take_turn map_user schedule_video
take_turn-SetFor made t k (pos n) e big h s =
    let process = s.processes n h in
    let small : n % 2 ^ 32 ≡ n = omega (arith, process.below) in
    rw (e, process.own, small) (record { present = refl; large = refl; addy = refl }, refl)
take_turn-SetFor made t k (negsuc n) e big h s = tt

take_turn-Sane :
    (made : ℕ → Bool) (t : ℕ) (k : Kernel)
    → t < 3
    → ltb_ℤ (k.terminal_array t).terminal_current_pid (pos 3) ≡ false
    → Sane made k
    → Sane made (take_turn t k)
unfolding take_turn
take_turn-Sane made t k lt big s = record {
  bounded = s.bounded;
  on_display = s.on_display;
  scheduled = lt;
  table = s.table;
  arrays = s.arrays;
  processes = s.processes;
  running = s.terminals t lt;
  terminals = s.terminals;
  set_for =
      take_turn-SetFor made t k (k.terminal_array t).terminal_current_pid refl big
        (s.terminals t lt) s;
}

swap_stacks-Sane :
    (made : ℕ → Bool) (esp ebp : ℕ) (s : Scheduler)
    → s.temp_terminal < 3
    → Sane made s.kernel
    → SwitchSane (swap_stacks esp ebp s)
unfolding swap_stacks left
swap_stacks-Sane made esp ebp s lt h =
    let k = s.kernel in
    let saved =
      set_pcb k.new_pid (record (current_pcb k) { program_ebp = ebp; program_esp = esp }) k in
    let kept =
      set_pcb-Sane made k k.new_pid _
        (record { size = h.arrays (slot k.new_pid); own = refl; parent = refl; fds = λ u. u }) h in
    record {
      made = made;
      sane =
          console-Sane made saved (sti k.console) (flags-Calm true k.console (Sane-Calm made k h))
            kept;
      temp_terminal = lt;
    }

pub pit_irq_handler-Sane :
    (made : ℕ → Bool) (env : Environment) (esp ebp before : ℕ) (stack : Mem) (s : Scheduler)
    (m : Mem)
    → s.temp_terminal < 3
    → Sane made s.kernel
    → Gives SwitchSane (pit_irq_handler env esp ebp before stack s m)
unfolding pit_irq_handler next_turn left
pit_irq_handler-Sane made env esp ebp before stack s m lt h0 =
    let k = on_console acknowledge s.kernel in
    let t = (s.temp_terminal + 1) % 3 in
    let h =
      console-Sane made s.kernel (acknowledge s.kernel.console)
        (ports-Calm (send_eoi 0) _ (flags-Calm false s.kernel.console (Sane-Calm made s.kernel h0)))
        h0 in
    if_both (Gives SwitchSane) ((terminal_at s.kernel s.temp_terminal).on_off_flag == 0)
      (start_shell-Sane made env esp ebp before stack s.temp_terminal k m lt h)
      (result _ (
        if_cases SwitchSane (ltb_ℤ (terminal_at k t).terminal_current_pid (pos 3))
          (λ e. record {
            made = made;
            sane =
                console-Sane made k (sti k.console) (flags-Calm true k.console (Sane-Calm made k h))
                  h;
            temp_terminal = omega arith;
          })
          (λ e.
            swap_stacks-Sane made esp ebp (record { kernel = take_turn t k; temp_terminal = t })
              (omega arith) (take_turn-Sane made t k (omega arith) e h))))
