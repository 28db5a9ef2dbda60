-- ===== src/Os/Sane.antt =====
-- What holds of the kernel's variables between any two steps.
use linux_like_os.Base.{
  ℕ, suc, ◌+◌, ◌-◌, ◌*◌, ◌^◌, ◌<◌, ◌≡◌, refl, sym, subst, ◌∙◌, ◌%◌, arith, Bool, true, ◌==◌, update,
  ℤ, pos, negsuc, length, Bool-cases, inl, inr,
}
use linux_like_os.Paging.{Paging, frame}
use linux_like_os.Terminal.{Console, current}
use linux_like_os.Keyboard.Buffer.{Bounded}
use linux_like_os.Process.{Kernel, Pcb, set_pcb, slot}
use linux_like_os.Os.Files.{Usable}

-- A process number is that of a process that has been started, or -1 for none.
abbrev pub Known : (made : ℕ → Bool) → ℤ → Type 0
Known made (pos n) = made n ≡ true
Known made (negsuc n) = n ≡ 0

-- The control block of a process: its own number, a parent, and descriptors with standard input and
-- output open.
pub record IsProcess (made : ℕ → Bool) (n : ℕ) (pcb : Pcb) : Type 0 where
  pub below : n < 6
  pub own : pcb.pid ≡ pos n
  pub parent : Known made pcb.parent_pid
  pub fds : Usable pcb.systemcall_fd_array

-- The directory entry of user space names the four megabytes of the process.
pub record UserPage (n : ℕ) (p : Paging) : Type 0 where
  pub present : (p.page_directory 32).present ≡ 1
  pub large : (p.page_directory 32).ps ≡ 1
  pub addy : (p.page_directory 32).addy ≡ frame ((0x800000 + n * 0x400000) % 2 ^ 32)

-- The processor is set for the process `pid`: its user page, and its stack in the kernel.
abbrev pub SetFor : ℤ → Kernel → Type 0
SetFor (pos n) k = UserPage n k.paging × (k.tss_esp0 ≡ 0x800000 - 0x2000 * n - 4)
SetFor (negsuc n) k = Unit {0}

-- `made` says which processes have been started.
pub record Sane (made : ℕ → Bool) (k : Kernel) : Type 0 where
  pub bounded : Bounded k.console
  pub on_display : current k.console < 3
  pub scheduled : k.sched_terminal < 3
  pub table : length k.progs ≡ 6
  pub arrays : (i : ℕ) → length (k.pcbs i).systemcall_fd_array ≡ 8
  pub processes : (n : ℕ) → made n ≡ true → IsProcess made n (k.pcbs (suc n))
  pub running : Known made k.new_pid
  pub terminals : (t : ℕ) → t < 3 → Known made (k.terminal_array t).terminal_current_pid
  pub set_for : SetFor k.new_pid k

-- The console as it may be.
pub record Calm (c : Console) : Type 0 where
  pub bounded : Bounded c
  pub on_display : current c < 3

pub Sane-Calm : (made : ℕ → Bool) (k : Kernel) → Sane made k → Calm k.console
Sane-Calm made k s = record { bounded = s.bounded; on_display = s.on_display }

-- What a call may change without touching processes: the console, the global descriptors, the flag
-- of the clock and `old_pid`.
pub record Aside (k k' : Kernel) : Type 0 where
  pub calm : Calm k'.console
  pub sched_terminal : k'.sched_terminal ≡ k.sched_terminal
  pub progs : k'.progs ≡ k.progs
  pub pcbs : k'.pcbs ≡ k.pcbs
  pub new_pid : k'.new_pid ≡ k.new_pid
  pub terminal_array : k'.terminal_array ≡ k.terminal_array
  pub paging : k'.paging ≡ k.paging
  pub tss_esp0 : k'.tss_esp0 ≡ k.tss_esp0

SetFor-same :
    (p : ℤ) (k k' : Kernel)
    → k'.paging ≡ k.paging
    → k'.tss_esp0 ≡ k.tss_esp0
    → SetFor p k
    → SetFor p k'
SetFor-same (pos n) k k' e f h = (subst (UserPage n) (sym e) h.0, f ∙ h.1)
SetFor-same (negsuc n) k k' e f h = tt

pub Aside-Sane : (made : ℕ → Bool) (k k' : Kernel) → Aside k k' → Sane made k → Sane made k'
Aside-Sane made k k' a s = record {
  bounded = a.calm.bounded;
  on_display = a.calm.on_display;
  scheduled = rw (a.sched_terminal) s.scheduled;
  table = rw (a.progs) s.table;
  arrays = λ i. rw (a.pcbs) (s.arrays i);
  processes = λ n h. rw (a.pcbs) (s.processes n h);
  running = subst (Known made) (sym a.new_pid) s.running;
  terminals = λ t lt. rw (a.terminal_array) (s.terminals t lt);
  set_for =
      subst (λ p. SetFor p k') (sym a.new_pid)
        (SetFor-same k.new_pid k k' a.paging a.tss_esp0 s.set_for);
}

-- The running process's control block can be replaced by one that differs in other fields than
-- these.
pub record SamePcb (made : ℕ → Bool) (pcb pcb' : Pcb) : Type 0 where
  pub size : length pcb'.systemcall_fd_array ≡ 8
  pub own : pcb'.pid ≡ pcb.pid
  pub parent : pcb'.parent_pid ≡ pcb.parent_pid
  pub fds : Usable pcb.systemcall_fd_array → Usable pcb'.systemcall_fd_array

pub set_pcb-Sane :
    (made : ℕ → Bool) (k : Kernel) (p : ℤ) (pcb : Pcb)
    → SamePcb made (k.pcbs (slot p)) pcb
    → Sane made k
    → Sane made (set_pcb p pcb k)
set_pcb-Sane made k p pcb same s = record {
  bounded = s.bounded;
  on_display = s.on_display;
  scheduled = s.scheduled;
  table = s.table;
  arrays = λ i. array i;
  processes = λ n h. process n h (s.processes n h);
  running = s.running;
  terminals = s.terminals;
  set_for = SetFor-same k.new_pid k (set_pcb p pcb k) refl refl s.set_for;
}
  where
    array : (i : ℕ) → length (update k.pcbs (slot p) pcb i).systemcall_fd_array ≡ 8
    array i = ground (arith, s.arrays i, same.size)

    process :
        (n : ℕ)
        → made n ≡ true
        → IsProcess made n (k.pcbs (suc n))
        → IsProcess made n (update k.pcbs (slot p) pcb (suc n))
    process n h pr = elim (Bool-cases (slot p == suc n)) [
      | inl e ↦ rw (e) (replaced n (ground (arith, e)) pr)
      | inr e ↦ rw (e) pr
    ]
      where
        replaced :
            (n : ℕ) → slot p ≡ suc n → IsProcess made n (k.pcbs (suc n)) → IsProcess made n pcb
        replaced n e pr =
            let old = subst (λ i. IsProcess made n (k.pcbs i)) (sym e) pr in
            record {
              below = old.below;
              own = same.own ∙ old.own;
              parent = subst (Known made) (sym same.parent) old.parent;
              fds = same.fds old.fds;
            }
