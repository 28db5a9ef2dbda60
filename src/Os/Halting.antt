-- ===== src/Os/Halting.antt =====
-- halt of student-distrib/systemcall.c keeps the kernel sane, however it ends.
use linux_like_os.Base.{
  ℕ, suc, ◌%◌, ◌^◌, ◌<◌, ◌≡◌, refl, sym, subst, arith, Bool, true, ◌==◌, if◌then◌else◌, if_both, ℤ,
  pos, negsuc, minus_one, eqb_ℤ, to_u32, none, [], length,
}
use linux_like_os.Memory.{Mem}
use linux_like_os.Screen.{Screen, puts}
use linux_like_os.Paging.{map_user}
use linux_like_os.Terminal.{Console, TerminalInfo}
use linux_like_os.Process.{Kernel, Environment, Pcb, current_pcb, set_pcb, slot}
use linux_like_os.Process.Life.{
  Ending, returned, entered, resumed, execute, close_process, release_pid, print_ending,
  interrupted_text, shell, resume, after_shell, halt, status_32bit, kernel_stack,
}
use linux_like_os.Os.Outcomes.{Gives, Gives-elim, Gives-some, nothing, result, if_cases}
use linux_like_os.Os.Sane.{Known, IsProcess, SetFor, Sane, Calm, Sane-Calm, set_pcb-Sane}
use linux_like_os.Os.Calls.{putc-Calm, puts-Calm}
use linux_like_os.Os.Life.{map_user-UserPage}
use linux_like_os.Os.Endings.{EndsSane, execute-Sane}
use linux_like_os.Os.Closing.{close_process-Sane}

-- A kernel whose running process the processor is not yet set for.
record Loose (made : ℕ → Bool) (k : Kernel) : Type 0 where
  calm : Calm k.console
  scheduled : k.sched_terminal < 3
  table : length k.progs ≡ 6
  arrays : (i : ℕ) → length (k.pcbs i).systemcall_fd_array ≡ 8
  processes : (n : ℕ) → made n ≡ true → IsProcess made n (k.pcbs (suc n))
  running : Known made k.new_pid
  terminals : (t : ℕ) → t < 3 → Known made (k.terminal_array t).terminal_current_pid

Sane-Loose : (made : ℕ → Bool) (k : Kernel) → Sane made k → Loose made k
Sane-Loose made k s = record {
  calm = Sane-Calm made k s;
  scheduled = s.scheduled;
  table = s.table;
  arrays = s.arrays;
  processes = s.processes;
  running = s.running;
  terminals = s.terminals;
}

Loose-Sane : (made : ℕ → Bool) (k : Kernel) → Loose made k → SetFor k.new_pid k → Sane made k
Loose-Sane made k l h = record {
  bounded = l.calm.bounded;
  on_display = l.calm.on_display;
  scheduled = l.scheduled;
  table = l.table;
  arrays = l.arrays;
  processes = l.processes;
  running = l.running;
  terminals = l.terminals;
  set_for = h;
}

resume-Sane :
    (made : ℕ → Bool) (status : ℕ) (pcb : Pcb) (k : Kernel) (m : Mem)
    → Loose made k
    → EndsSane (resume status pcb k m)
unfolding resume
resume-Sane made status pcb k m l = record {
  made = made;
  sane =
      Loose-Sane made _
        (record {
          calm = l.calm;
          scheduled = l.scheduled;
          table = l.table;
          arrays = l.arrays;
          processes = l.processes;
          running = l.running;
          terminals = l.terminals;
        })
        (set k.new_pid l.running);
}
  where
    set :
        (p : ℤ)
        → Known made p
        → SetFor p (record k {
          paging = map_user (to_u32 p) k.paging;
          tss_ss0 = 0x0018;
          tss_esp0 = kernel_stack p;
        })
    set (pos n) h =
        let small : n % 2 ^ 32 ≡ n = omega (arith, (l.processes n h).below) in
        rw (small) (map_user-UserPage n k.paging, refl)
    set (negsuc n) h = tt

after_shell-Sane :
    (made : ℕ → Bool) (status : ℕ) (pcb : Pcb) (ending : Ending)
    → EndsSane ending
    → EndsSane (after_shell status pcb ending)
unfolding after_shell
after_shell-Sane made status pcb (returned r k m) e =
    resume-Sane e.made status pcb k m (Sane-Loose e.made k e.sane)
after_shell-Sane made status pcb (entered eip k m) e = e
after_shell-Sane made status pcb (resumed s b p k m) e = e

released-Loose :
    (made : ℕ → Bool) (k : Kernel) (n : ℕ)
    → k.new_pid ≡ pos n
    → Sane made k
    → Loose made (release_pid k)
unfolding release_pid
released-Loose made k n e s = record {
  calm = Sane-Calm made k s;
  scheduled = s.scheduled;
  table = s.table;
  arrays = kept.arrays;
  processes = kept.processes;
  running = parent;
  terminals = λ t lt.
      if_both (λ (i : TerminalInfo). Known made i.terminal_current_pid) (k.sched_terminal == t)
        parent (s.terminals t lt);
}
  where
    kept :
        Sane made (set_pcb k.new_pid (record (current_pcb k) { parent_ebp = 0; parent_esp = 0 }) k)
    kept =
        set_pcb-Sane made k k.new_pid _
          (record { size = s.arrays (slot k.new_pid); own = refl; parent = refl; fds = λ u. u }) s

    parent : Known made (current_pcb k).parent_pid
    parent =
        subst (λ p. Known made (k.pcbs (slot p)).parent_pid) (sym e)
          (s.processes n (subst (Known made) e s.running)).parent

printed-Calm :
    (status : ℕ) (c : Console) → Calm c → Calm (record c { screen = print_ending status c.screen })
unfolding print_ending puts
printed-Calm status c h =
    putc-Calm b'\n'
      (record c { screen = if status == 42 then puts interrupted_text c.screen else c.screen })
      (if_both (λ (s : Screen). Calm (record c { screen = s })) (status == 42)
        (puts-Calm interrupted_text c h) (puts-Calm [] c h))

pub halt-Sane :
    (made : ℕ → Bool) (env : Environment) (esp ebp before : ℕ) (stack : Mem) (status : ℕ)
    (k : Kernel) (m : Mem)
    → Sane made k
    → Gives EndsSane (halt env esp ebp before stack status k m)
unfolding halt
halt-Sane made env esp ebp before stack status k0 m s0 =
    Gives-elim EndsSane (close_process k0) none _ nothing (λ k1 e.
      let (s1, numbered) =
        Gives-some (λ (k' : Kernel). Sane made k' × ((n : ℕ) × (k'.new_pid ≡ pos n))) _ k1
          (close_process-Sane made k0 s0) e in
      let k2 = release_pid k1 in
      let k = record k2 {
        console = record k2.console { screen = print_ending status k2.console.screen };
      } in
      let loose = printed-Loose made status k2 (released-Loose made k1 numbered.0 numbered.1 s1) in
      if_cases (Gives EndsSane) (eqb_ℤ k.new_pid minus_one)
        (λ none_left.
          Gives-elim EndsSane (execute env esp ebp before stack shell k m) none _ nothing
            (λ ending x. result _ (
              after_shell-Sane made (status_32bit status) (current_pcb k1) ending (
                Gives-some EndsSane _ ending
                  (execute-Sane made env esp ebp before stack shell k m
                    (Loose-Sane made k loose (without k.new_pid k none_left)))
                  x))))
        (λ _. result _ (resume-Sane made (status_32bit status) (current_pcb k1) k m loose)))
  where
    without : (p : ℤ) (k : Kernel) → eqb_ℤ p minus_one ≡ true → SetFor p k
    without (pos n) k e = absurd (ground (arith, e))
    without (negsuc n) k e = tt

    printed-Loose :
        (made : ℕ → Bool) (status : ℕ) (k : Kernel)
        → Loose made k
        → Loose made (record k {
          console = record k.console { screen = print_ending status k.console.screen };
        })
    printed-Loose made status k l = record {
      calm = printed-Calm status k.console l.calm;
      scheduled = l.scheduled;
      table = l.table;
      arrays = l.arrays;
      processes = l.processes;
      running = l.running;
      terminals = l.terminals;
    }
