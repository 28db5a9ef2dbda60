-- ===== src/Scheduler/Registers.antt =====
-- The scheduler does not change stacks.
use linux_like_os.Base.{ℕ, ◌≡◌, refl, some, ◌≢◌, arith, ltb_ℤ, pos, ◌%◌, ◌+◌, ==_ne, if_both}
use linux_like_os.Memory.{Mem}
use linux_like_os.Process.{Environment}
use linux_like_os.Scheduler.{
  Scheduler, Switch, kept, switched, shell_entered, terminal_at, on_console, acknowledge,
  swap_stacks, next_turn, pit_irq_handler,
}

-- The stack registers with which a handler leaves, where it goes on in a program that runs.
abbrev pub Leaves : ℕ → ℕ → Switch → Type 0
Leaves esp ebp (kept s m) = Unit {0}
Leaves esp ebp (shell_entered eip s m) = ⊥
Leaves esp ebp (switched esp' ebp' s) = (esp' ≡ esp) × (ebp' ≡ ebp)

swap_stacks-Leaves : (esp ebp : ℕ) (s : Scheduler) → Leaves esp ebp (swap_stacks esp ebp s)
unfolding swap_stacks
swap_stacks-Leaves esp ebp s = (ground arith, ground arith)

next_turn-Leaves : (esp ebp : ℕ) (s : Scheduler) (m : Mem) → Leaves esp ebp (next_turn esp ebp s m)
unfolding next_turn
next_turn-Leaves esp ebp s m =
    if_both (Leaves esp ebp)
      (ltb_ℤ (terminal_at s.kernel ((s.temp_terminal + 1) % 3)).terminal_current_pid (pos 3)) tt
      (swap_stacks-Leaves esp ebp _)

-- Where every terminal has its shell, the timer's handler returns, and goes on with the stack
-- registers of the program that it interrupted, also where it has made another process the running
-- one: it saves the registers in the control block from which it then loads them.
pub pit_irq_handler-Leaves :
    (env : Environment) (esp ebp before : ℕ) (stack : Mem) (s : Scheduler) (m : Mem)
    → (terminal_at s.kernel s.temp_terminal).on_off_flag ≢ 0
    → (r : Switch) × (pit_irq_handler env esp ebp before stack s m ≡ some r) × Leaves esp ebp r
unfolding pit_irq_handler
pit_irq_handler-Leaves env esp ebp before stack s m on =
    let acknowledged = record s { kernel = on_console acknowledge s.kernel } in
    (
      next_turn esp ebp acknowledged m,
      rw (==_ne _ 0 on, pit_irq_handler) refl,
      next_turn-Leaves esp ebp acknowledged m,
    )
