-- ===== src/Process/Status.antt =====
-- The status that halt of student-distrib/systemcall.c hands to the parent.
use linux_like_os.Base.{
  ℕ, ◌≡◌, refl, ◌==◌, if◌then◌else◌, if_both, Option, none, some, List, minus_one, eqb_ℤ,
}
use linux_like_os.Memory.{Mem}
use linux_like_os.Terminal.{clear_buffer}
use linux_like_os.Process.{Kernel, Environment, Pcb, current_pcb}
use linux_like_os.FileSys.Image.{Dentry}
use linux_like_os.Process.Program.{command_name, find_program}
use linux_like_os.Process.Life.{
  Ending, returned, entered, resumed, start, execute, halt, resume, after_shell, status_32bit,
  close_process, shell, closed_prog, load_program, fill_pcb, claim_pid, putc_kernel, release_pid,
  print_ending,
}

-- A call that goes on in the `execute` of a parent has this status for it.
abbrev pub Status : ℕ → Option Ending → Type 0
Status status none = Unit {0}
Status status (some (returned r k m)) = Unit {0}
Status status (some (entered eip k m)) = Unit {0}
Status status (some (resumed s ebp esp k m)) = s ≡ status

pub record HasStatus (status : ℕ) (o : Option Ending) : Type 0 where
  pub holds : Status status o

no_status : {status : ℕ} → HasStatus status none
no_status = record { holds = tt }

Status-elim {ℓ} :
    {A : Type ℓ} (status : ℕ) (o : Option A) (z : Option Ending) (f : A → Option Ending)
    → HasStatus status z
    → ((a : A) → HasStatus status (f a))
    → HasStatus status (elim o [ none ↦ z | some a ↦ f a ])
Status-elim status none z f y h = y
Status-elim status (some a) z f y h = h a

-- `execute` never goes on in a parent, so that every status will do.
start-Status :
    (env : Environment) (esp ebp : ℕ) (d : Dentry) (buf : Mem) (command : List ℕ) (k : Kernel)
    (m : Mem) (status : ℕ)
    → HasStatus status (start env esp ebp d buf command k m)
unfolding start
start-Status env esp ebp d buf command k m status =
    Status-elim status (closed_prog k.progs 0) _ _ (record { holds = tt })
      (λ pid. Status-elim status (load_program env d m) none _ no_status (λ m'.
        Status-elim status (fill_pcb esp ebp pid command (claim_pid pid k)) none _ no_status
          (λ k'. record { holds = tt })))

abbrev cleared : Kernel → Kernel
cleared k0 =
    let printed = putc_kernel b'\n' k0 in record printed { console = clear_buffer printed.console }

execute-Status :
    (env : Environment) (esp ebp before : ℕ) (stack : Mem) (command : List ℕ) (k : Kernel) (m : Mem)
    (status : ℕ)
    → HasStatus status (execute env esp ebp before stack command k m)
unfolding execute
execute-Status env esp ebp before stack command k m status =
    Status-elim status (command_name command) _ _ (record { holds = tt })
      (λ name.
        Status-elim status (find_program env before name command stack (cleared k)) none _ no_status
          (λ found.
            Status-elim status found _ _ (record { holds = tt })
              (λ p. start-Status env esp ebp p.0 p.1 command _ m status)))

after_shell-Status :
    (status : ℕ) (pcb : Pcb) (o : Option Ending)
    → HasStatus status o
    → HasStatus status (elim o [ none ↦ none | some ending ↦ some (after_shell status pcb ending) ])
unfolding after_shell resume
after_shell-Status status pcb none h = record { holds = tt }
after_shell-Status status pcb (some (returned r k m)) h = record { holds = refl }
after_shell-Status status pcb (some (entered eip k m)) h = record { holds = tt }
after_shell-Status status pcb (some (resumed s b e k m)) h = h

abbrev released : ℕ → Kernel → Kernel
released status k1 =
    let k2 = release_pid k1 in
    record k2 { console = record k2.console { screen = print_ending status k2.console.screen } }

resume-Status :
    (status : ℕ) (pcb : Pcb) (k : Kernel) (m : Mem)
    → HasStatus status (some (resume status pcb k m))
unfolding resume
resume-Status status pcb k m = record { holds = refl }

-- Where `halt` goes on in a parent, the parent's `execute` returns the status that was passed,
-- and 256 for the status 111.
pub halt-Status :
    (env : Environment) (esp ebp before : ℕ) (stack : Mem) (status : ℕ) (k : Kernel) (m : Mem)
    → HasStatus (if status == 111 then 256 else status) (halt env esp ebp before stack status k m)
unfolding halt status_32bit
halt-Status env esp ebp before stack status k m =
    let st = if status == 111 then 256 else status in
    Status-elim st (close_process k) none _ no_status (λ k1.
      if_both (HasStatus st) (eqb_ℤ (released status k1).new_pid minus_one)
        (after_shell-Status st (current_pcb k1)
          (execute env esp ebp before stack shell (released status k1) m)
          (execute-Status env esp ebp before stack shell (released status k1) m st))
        (resume-Status st (current_pcb k1) (released status k1) m))
