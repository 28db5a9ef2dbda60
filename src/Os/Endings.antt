-- ===== src/Os/Endings.antt =====
-- execute of student-distrib/systemcall.c keeps the kernel sane, however it ends.
use linux_like_os.Base.{ℕ, ◌<◌, refl, arith, Bool, ℤ, pos, minus_one, none, List, [], ◌∷◌, ◌++◌}
use linux_like_os.Memory.{Mem, memset}
use linux_like_os.CString.{strcpy}
use linux_like_os.FileSys.Image.{Dentry}
use linux_like_os.Paging.{map_user}
use linux_like_os.Terminal.{clear_buffer}
use linux_like_os.Process.{Kernel, Environment, current_pcb}
use linux_like_os.Process.Program.{command_name, find_program}
use linux_like_os.Process.Ownership.{closed_prog-FirstClosed}
use linux_like_os.Process.Life.{
  Ending, returned, entered, resumed, closed_prog, claim_pid, fill_pcb, load_program, start,
  execute, putc_kernel,
}
use linux_like_os.Os.Outcomes.{Gives, Gives-elim, Gives-some, nothing, result}
use linux_like_os.Os.Sane.{Sane, Sane-Calm, Aside-Sane}
use linux_like_os.Os.Calls.{console-Aside, clear_buffer-Calm, putc-Calm}
use linux_like_os.Os.Life.{started-Sane}

abbrev pub ended : Ending → Kernel
ended (returned r k m) = k
ended (entered eip k m) = k
ended (resumed status ebp esp k m) = k

-- The kernel is sane where a call ends.
pub record EndsSane (ending : Ending) : Type 0 where
  pub made : ℕ → Bool
  pub sane : Sane made (ended ending)

fill_pcb-Sane :
    (made : ℕ → Bool) (esp ebp pid : ℕ) (command : List ℕ) (k : Kernel)
    → pid < 6
    → Sane made k
    → Gives
        (λ (k' : Kernel).
          (new : ℕ → Bool) × Sane new (record k' { paging = map_user pid k'.paging }))
        (fill_pcb esp ebp pid command (claim_pid pid k))
unfolding fill_pcb
fill_pcb-Sane made esp ebp pid command k lt s =
    Gives-elim _
      (strcpy (memset (current_pcb (claim_pid pid k)).arg_buff 0 0 128) 0 (command ++ (0 ∷ [])))
      none _ nothing (λ args _. result _ (_, started-Sane made esp ebp pid args k lt s))

old_pid-Sane :
    (made : ℕ → Bool) (k : Kernel) (p : ℤ) → Sane made k → Sane made (record k { old_pid = p })
old_pid-Sane made k p s =
    Aside-Sane made k _
      (record {
        calm = Sane-Calm made k s;
        sched_terminal = refl;
        progs = refl;
        pcbs = refl;
        new_pid = refl;
        terminal_array = refl;
        paging = refl;
        tss_esp0 = refl;
      })
      s

start-Sane :
    (made : ℕ → Bool) (env : Environment) (esp ebp : ℕ) (d : Dentry) (buf : Mem) (command : List ℕ)
    (k : Kernel) (m : Mem)
    → Sane made k
    → Gives EndsSane (start env esp ebp d buf command k m)
unfolding start
start-Sane made env esp ebp d buf command k m s =
    Gives-elim EndsSane (closed_prog k.progs 0) _ _
      (result _ (record { made = made; sane = old_pid-Sane made k _ s }))
      (λ pid free.
        let (j, at, first) = closed_prog-FirstClosed k.progs 0 pid free in
        Gives-elim EndsSane (load_program env d m) none _ nothing (λ m' _.
          Gives-elim EndsSane (fill_pcb esp ebp pid command (claim_pid pid k)) none _ nothing
            (λ k' e.
              let (new, s') =
                Gives-some
                  (λ (k' : Kernel).
                    (new : ℕ → Bool) × Sane new (record k' { paging = map_user pid k'.paging }))
                  _ k'
                  (fill_pcb-Sane made esp ebp pid command k
                    (omega (arith, at, first.inside, s.table)) s)
                  e in
              result _ (record { made = new; sane = s' }))))

pub execute-Sane :
    (made : ℕ → Bool) (env : Environment) (esp ebp before : ℕ) (stack : Mem) (command : List ℕ)
    (k : Kernel) (m : Mem)
    → Sane made k
    → Gives EndsSane (execute env esp ebp before stack command k m)
unfolding execute
execute-Sane made env esp ebp before stack command k0 m s0 =
    let printed = putc_kernel b'\n' k0 in
    let k = record printed { console = clear_buffer printed.console } in
    let calm =
      clear_buffer-Calm printed.console (putc-Calm b'\n' k0.console (Sane-Calm made k0 s0)) in
    let s = Aside-Sane made k0 k (console-Aside k0 (clear_buffer printed.console) calm) s0 in
    Gives-elim EndsSane (command_name command) _ _
      (result (returned (pos 0) k m) (record { made = made; sane = s }))
      (λ name _.
        Gives-elim EndsSane (find_program env before name command stack k) none _ nothing
          (λ found _.
            Gives-elim EndsSane found _ _
              (result (returned minus_one k m) (record { made = made; sane = s }))
              (λ p _. start-Sane made env esp ebp p.0 p.1 command k m s)))
