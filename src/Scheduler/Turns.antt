-- ===== src/Scheduler/Turns.antt =====
-- pit_irq_handler of student-distrib/schedule.c, over several interrupts: each terminal has its
-- turn.
use linux_like_os.Base.{
  ℕ, ◌+◌, ◌%◌, ◌<◌, ◌≡◌, ◌≢◌, ◌⊎◌, inl, inr, refl, sym, subst, Option, some, none, List, [], ◌∷◌,
  arith, ltb_ℤ, pos, false, true, ==_ne,
}
use linux_like_os.Memory.{Mem}
use linux_like_os.Process.{Environment, Kernel}
use linux_like_os.Scheduler.{
  Scheduler, Switch, kept, switched, shell_entered, terminal_at, swap_stacks, next_turn,
  pit_irq_handler, take_turn, on_console, acknowledge,
}
use linux_like_os.Keyboard.{sti}

-- The scheduler with which the handler leaves.
unfoldable pub left : Switch → Scheduler
left (kept s m) = s
left (shell_entered eip s m) = s
left (switched esp ebp s) = s

-- What an interrupt finds: the registers, the stack, the memory and the kernel, as the programs
-- have left them since the last one. Only the handler assigns `temp_terminal`.
pub record Interrupt : Type 0 where
  pub esp : ℕ
  pub ebp : ℕ
  pub before : ℕ
  pub stack : Mem
  pub memory : Mem
  pub kernel : Kernel

unfoldable pub found : ℕ → Interrupt → Scheduler
found t i = record { kernel = i.kernel; temp_terminal = t }

unfoldable pub fire : Environment → ℕ → Interrupt → Option Switch
unfolding found
fire env t i = pit_irq_handler env i.esp i.ebp i.before i.stack (found t i) i.memory

-- The handler's runs for a sequence of interrupts, each with what the handler leaves.
unfoldable pub fires : Environment → ℕ → List Interrupt → Option (List Scheduler)
fires env t [] = some []
fires env t (i ∷ is) = elim (fire env t i) [
  | none ↦ none
  | some r ↦ elim (fires env (left r).temp_terminal is) [
    | none ↦ none
    | some ss ↦ some (left r ∷ ss)
  ]
]

-- Every terminal has its shell.
abbrev pub AllOn : Kernel → Type 0
AllOn k = (t : ℕ) → t < 3 → (terminal_at k t).on_off_flag ≢ 0

-- The turn came to the terminal: if its process is not one of the first three, that process is now
-- the running one, and else the kernel is as it was but for the end of the interrupt.
pub record Turn (t : ℕ) (i : Interrupt) (s : Scheduler) : Type 0 where
  pub chosen : s.temp_terminal ≡ t
  pub running :
      ltb_ℤ (terminal_at i.kernel t).terminal_current_pid (pos 3) ≡ false
      → (s.kernel.sched_terminal ≡ t)
        × (s.kernel.new_pid ≡ (terminal_at i.kernel t).terminal_current_pid)
  pub passed_over :
      ltb_ℤ (terminal_at i.kernel t).terminal_current_pid (pos 3) ≡ true
      → s.kernel ≡ on_console (λ c. sti (acknowledge c)) i.kernel

abbrev chosen_turn : Interrupt → ℕ → Switch
chosen_turn i t =
    next_turn i.esp i.ebp (record (found t i) { kernel = on_console acknowledge i.kernel }) i.memory

fire-on :
    (env : Environment) (t : ℕ) (i : Interrupt)
    → t < 3
    → AllOn i.kernel
    → fire env t i ≡ some (chosen_turn i t)
unfolding fire found pit_irq_handler
fire-on env t i lt on = rw (==_ne _ 0 (on t lt)) refl

chosen_turn-temp : (t : ℕ) (i : Interrupt) → (left (chosen_turn i t)).temp_terminal ≡ (t + 1) % 3
unfolding next_turn left swap_stacks found
chosen_turn-temp t i = ground arith

chosen_turn-running :
    (t : ℕ) (i : Interrupt)
    → ltb_ℤ (terminal_at i.kernel ((t + 1) % 3)).terminal_current_pid (pos 3) ≡ false
    → ((left (chosen_turn i t)).kernel.sched_terminal ≡ (t + 1) % 3)
      × ((left (chosen_turn i t)).kernel.new_pid
          ≡ (terminal_at i.kernel ((t + 1) % 3)).terminal_current_pid)
unfolding next_turn left swap_stacks take_turn found
chosen_turn-running t i h = rw (h, next_turn) (refl, refl)

chosen_turn-passed_over :
    (t : ℕ) (i : Interrupt)
    → ltb_ℤ (terminal_at i.kernel ((t + 1) % 3)).terminal_current_pid (pos 3) ≡ true
    → (left (chosen_turn i t)).kernel ≡ on_console (λ c. sti (acknowledge c)) i.kernel
unfolding next_turn left found
chosen_turn-passed_over t i h = rw (h, next_turn) refl

chosen_turn-Turn : (t u : ℕ) (i : Interrupt) → u ≡ (t + 1) % 3 → Turn u i (left (chosen_turn i t))
chosen_turn-Turn t u i e =
    subst (λ v. Turn v i (left (chosen_turn i t))) (sym e)
      (record {
        chosen = chosen_turn-temp t i;
        running = chosen_turn-running t i;
        passed_over = chosen_turn-passed_over t i;
      })

fires-step :
    (env : Environment) (t : ℕ) (i : Interrupt) (is : List Interrupt) (ss : List Scheduler)
    → t < 3
    → AllOn i.kernel
    → fires env ((t + 1) % 3) is ≡ some ss
    → fires env t (i ∷ is) ≡ some (left (chosen_turn i t) ∷ ss)
unfolding fires left
fires-step env t i is ss lt on e = rw (fires, fire-on env t i lt on, chosen_turn-temp t i, e) refl

abbrev next : ℕ → ℕ
next t = (t + 1) % 3

next_three :
    (t u : ℕ) → t < 3 → u < 3 → (u ≡ next t) ⊎ (u ≡ next (next t)) ⊎ (u ≡ next (next (next t)))
next_three t u lt h = ground arith

-- Whatever the programs do between the interrupts, as long as every terminal keeps its shell, the
-- handler returns from three interrupts in a row, and comes to each of the three terminals at one
-- of them: where the process of this terminal is not one of the first three, it is then the
-- running process, and where it is, the handler passes the terminal over and leaves the kernel as
-- it was but for the end of the interrupt.
pub fires-Turn :
    (env : Environment) (t : ℕ) (i j k : Interrupt)
    → t < 3
    → AllOn i.kernel
    → AllOn j.kernel
    → AllOn k.kernel
    → (a b c : Scheduler) × (fires env t (i ∷ j ∷ k ∷ []) ≡ some (a ∷ b ∷ c ∷ []))
      × ((u : ℕ) → u < 3 → Turn u i a ⊎ Turn u j b ⊎ Turn u k c)
unfolding fires
fires-Turn env t i j k lt oi oj ok = (
  left (chosen_turn i t),
  left (chosen_turn j (next t)),
  left (chosen_turn k (next (next t))),
  fires-step env t i (j ∷ k ∷ []) _ lt oi (
      fires-step env (next t) j (k ∷ []) _ (omega arith) oj
        (fires-step env (next (next t)) k [] [] (omega arith) ok refl)),
  λ u h. elim (next_three t u lt h) [
    | inl e ↦ inl (chosen_turn-Turn t u i e)
    | inr (inl e) ↦ inr (inl (chosen_turn-Turn (next t) u j e))
    | inr (inr e) ↦ inr (inr (chosen_turn-Turn (next (next t)) u k e))
  ],
)
