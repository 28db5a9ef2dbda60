-- ===== src/Process/Examples.antt =====
-- Runs of the system calls.
use linux_like_os.Base.{
  ℕ, suc, ◌≡◌, ◌≢◌, ◌<◌, refl, arith, Option, some, none, [], ◌∷◌, get_or, zero,
}
use linux_like_os.CString.{strcpy}
use linux_like_os.FileSys.Image.{read_data}
use linux_like_os.Process.{Kernel, current_pcb}
use linux_like_os.Process.Program.{entry_point}
use linux_like_os.Process.Life.{
  Ending, returned, entered, resumed, start, release_pid, clear_prog, fill_pcb, claim_pid,
  load_program, closed_prog,
}
use linux_like_os.Process.Sample.{entry, disk, busy, zeros}
use linux_like_os.Process.Halting.{Closable, halt-Started}
use linux_like_os.FileSys.Descriptors.{fd_at, no_descriptor}
use linux_like_os.Process.{Fops, terminal_fops, fops, current_fds, init_fops_tables, get_fops_table}
use linux_like_os.Process.Life.{halt, status_32bit}
use linux_like_os.Process.Sample.{no_pcb}
use linux_like_os.Base.{replicate, ◌⊎◌, inl, inr, pos}
use linux_like_os.Process.Ownership.{Started, start-Started}

unfoldable kernel_of : Option Ending → Kernel
kernel_of none = busy
kernel_of (some (returned r k m)) = k
kernel_of (some (entered eip k m)) = k
kernel_of (some (resumed s b e k m)) = k

unfoldable started : Option Ending
started = start disk 100 200 entry zeros (b's' ∷ []) busy zeros

enters :
    start disk 100 200 entry zeros (b's' ∷ []) busy zeros
    ≡ some (entered (entry_point zeros) (kernel_of started) zeros)
unfolding start kernel_of started closed_prog load_program read_data fill_pcb claim_pid strcpy
enters = refl

start-Started_example : (pid : ℕ) × Started busy (kernel_of started) 100 200 pid
start-Started_example =
    start-Started disk 100 200 entry zeros (b's' ∷ []) busy (kernel_of started) zeros zeros
      (entry_point zeros) enters

-- Three shells run.
abbrev crowded : Kernel
crowded = record busy {
  progs = 1 ∷ 1 ∷ 1 ∷ 0 ∷ 0 ∷ 0 ∷ [];
  pcbs = λ i. record no_pcb { systemcall_fd_array = replicate 8 no_descriptor };
}

unfoldable begun : Option Ending
begun = start disk 100 200 entry zeros (b's' ∷ []) crowded zeros

abbrev child : Kernel
child = kernel_of begun

shells_only : (j : ℕ) → j < 3 → get_or crowded.progs j 0 ≢ 0
shells_only zero lt e = omega (arith, e)
shells_only (suc zero) lt e = omega (arith, e)
shells_only (suc (suc zero)) lt e = omega (arith, e)
shells_only (suc (suc (suc j))) lt e = omega (arith, lt)

child-Started : Started crowded child 100 200 3
unfolding start kernel_of begun closed_prog load_program read_data fill_pcb claim_pid strcpy
child-Started = record {
  free = record { inside = omega arith; closed = refl; first = shells_only };
  taken = refl;
  running = refl;
  shown = refl;
  parent = refl;
  saved_esp = refl;
  saved_ebp = refl;
}

child-Closable : Closable (current_fds child)
unfolding start kernel_of begun closed_prog load_program read_data fill_pcb claim_pid strcpy
    init_fops_tables get_fops_table linux_like_os.Process.Life.initial_fds
    linux_like_os.Base.for_range linux_like_os.Process.Life.closed_slot
    linux_like_os.Process.Life.std_fd
child-Closable = record { eight = refl; tables = tables }
  where
    tables :
        (i : ℕ)
        → ((fd_at (current_fds child) i).flags ≡ 0)
          ⊎ ((f : Fops) × (fops (fd_at (current_fds child) i).file_operation_table_ptr ≡ some f))
    tables zero = inr (terminal_fops, refl)
    tables (suc zero) = inr (terminal_fops, refl)
    tables (suc (suc zero)) = inl refl
    tables (suc (suc (suc zero))) = inl refl
    tables (suc (suc (suc (suc zero)))) = inl refl
    tables (suc (suc (suc (suc (suc zero))))) = inl refl
    tables (suc (suc (suc (suc (suc (suc zero)))))) = inl refl
    tables (suc (suc (suc (suc (suc (suc (suc zero))))))) = inl refl
    tables (suc (suc (suc (suc (suc (suc (suc (suc i)))))))) = inl refl

halt-Started_example :
    (k : Kernel) × (halt disk 300 400 0 zeros 7 child zeros ≡ some (resumed 7 200 100 k zeros))
    × (k.progs ≡ crowded.progs)
    × (k.new_pid ≡ pos 0)
    × ((k.terminal_array k.sched_terminal).terminal_current_pid ≡ pos 0)
    × ((k.terminal_array k.sched_terminal).terminal_esp ≡ 100)
    × ((k.terminal_array k.sched_terminal).terminal_ebp ≡ 200)
unfolding status_32bit
halt-Started_example =
    halt-Started disk 300 400 0 zeros 7 crowded child child zeros 100 200 3 0 child-Started
      (omega arith) refl
      (record {
        progs = refl;
        new_pid = refl;
        parent_pid = refl;
        parent_esp = refl;
        parent_ebp = refl;
      })
      child-Closable
