-- ===== src/Process/Halting.antt =====
-- halt of student-distrib/systemcall.c: a program that has been started ends, and its parent goes
-- on.
use linux_like_os.Base.{
  ℕ, zero, suc, ◌+◌, ◌<◌, ◌≤◌, ◌≡◌, ◌⊎◌, inl, inr, refl, sym, subst, ap, ap₂, to_u32, ◌∙◌, arith,
  Bool-cases, false, ◌==◌, ==_refl, ltb, ◌||◌, ltb_ℤ, eqb_ℤ, some, set, length, length-set, ℤ, pos,
  minus_one,
}
use linux_like_os.Memory.{Mem}
use linux_like_os.Terminal.{current}
use linux_like_os.FileSys.Descriptors.{Fds, fd_at, set_flags}
use linux_like_os.FileSys.Files.{fd_at-set}
use linux_like_os.Process.{
  Kernel, Environment, Fops, rtc_fops, dir_fops, file_fops, terminal_fops, fops, current_pcb,
  current_fds, set_fds, slot,
}
use linux_like_os.Process.Calls.{close, call_close}
use linux_like_os.Process.Life.{
  resumed, halt, resume, close_process, close_all, clear_prog, release_pid, print_ending,
  status_32bit, kernel_ds, kernel_stack,
}
use linux_like_os.Paging.{map_user}
use linux_like_os.Process.Ownership.{Started, set_back}

-- The same process runs, with the same parent, and the process table is the same.
pub record Keeps (k k' : Kernel) : Type 0 where
  pub progs : k'.progs ≡ k.progs
  pub new_pid : k'.new_pid ≡ k.new_pid
  pub parent_pid : (current_pcb k').parent_pid ≡ (current_pcb k).parent_pid
  pub parent_esp : (current_pcb k').parent_esp ≡ (current_pcb k).parent_esp
  pub parent_ebp : (current_pcb k').parent_ebp ≡ (current_pcb k).parent_ebp

-- Every open descriptor has a table of operations.
pub record Closable (fds : Fds) : Type 0 where
  pub eight : length fds ≡ 8
  pub tables :
      (i : ℕ)
      → ((fd_at fds i).flags ≡ 0)
        ⊎ ((f : Fops) × (fops (fd_at fds i).file_operation_table_ptr ≡ some f))

Keeps-same : (k : Kernel) → Keeps k k
Keeps-same k = record {
  progs = refl;
  new_pid = refl;
  parent_pid = refl;
  parent_esp = refl;
  parent_ebp = refl;
}

Keeps-then : (a b c : Kernel) → Keeps a b → Keeps b c → Keeps a c
Keeps-then a b c f g = record {
  progs = g.progs ∙ f.progs;
  new_pid = g.new_pid ∙ f.new_pid;
  parent_pid = g.parent_pid ∙ f.parent_pid;
  parent_esp = g.parent_esp ∙ f.parent_esp;
  parent_ebp = g.parent_ebp ∙ f.parent_ebp;
}

set_flags-Closable : (fds : Fds) (i : ℕ) → i < 8 → Closable fds → Closable (set_flags i 0 fds)
unfolding set_flags
set_flags-Closable fds i lt h = record {
  eight = length-set fds i _ ∙ h.eight;
  tables = λ j. elim (Bool-cases (i == j)) [
    | inl e ↦ inl (rw (fd_at-set fds i j (record (fd_at fds i) { flags = 0 }) h.eight lt, e) refl)
    | inr e ↦ rw (fd_at-set fds i j (record (fd_at fds i) { flags = 0 }) h.eight lt, e) (h.tables j)
  ];
}

-- What a call of the operation keeps.
record Closes (k : Kernel) (r : ℤ × Kernel) : Type 0 where
  keeps : Keeps k r.1
  same_fds : current_fds r.1 ≡ current_fds k

call_close-Closes : (f : Fops) (fd : ℤ) (k : Kernel) → Closes k (call_close f fd k)
unfolding call_close
call_close-Closes rtc_fops fd k = record { keeps = Keeps-same k; same_fds = refl }
call_close-Closes dir_fops fd k = record {
  keeps = record {
    progs = refl;
    new_pid = refl;
    parent_pid = refl;
    parent_esp = refl;
    parent_ebp = refl;
  };
  same_fds = refl;
}
call_close-Closes file_fops fd k = record {
  keeps = record {
    progs = refl;
    new_pid = refl;
    parent_pid = refl;
    parent_esp = refl;
    parent_ebp = refl;
  };
  same_fds = refl;
}
call_close-Closes terminal_fops fd k = record {
  keeps = record {
    progs = refl;
    new_pid = refl;
    parent_pid = refl;
    parent_esp = refl;
    parent_ebp = refl;
  };
  same_fds = refl;
}

current_fds-set_fds : (fds : Fds) (k : Kernel) → current_fds (set_fds fds k) ≡ fds
current_fds-set_fds fds k = rw (==_refl (slot k.new_pid), current_fds) refl

set_fds-Keeps : (fds : Fds) (k : Kernel) → Keeps k (set_fds fds k)
set_fds-Keeps fds k = record {
  progs = refl;
  new_pid = refl;
  parent_pid = rw (==_refl (slot k.new_pid)) refl;
  parent_esp = rw (==_refl (slot k.new_pid)) refl;
  parent_ebp = rw (==_refl (slot k.new_pid)) refl;
}

abbrev Closed : (i : ℕ) → Kernel → Type 0
Closed i k =
    (r : ℤ) × (k' : Kernel) × (close (pos i) k ≡ some (r, k'))
    × Keeps k k'
    × Closable (current_fds k')

close-Closed : (i : ℕ) (k : Kernel) → i < 8 → Closable (current_fds k) → Closed i k
unfolding close
close-Closed i k lt h = elim (Bool-cases (ltb_ℤ (pos i) (pos 2) || ltb_ℤ (pos 7) (pos i))) [
  | inl e ↦ (minus_one, k, rw (e, close) refl, Keeps-same k, h)
  | inr e ↦ elim (Bool-cases ((fd_at (current_fds k) i).flags == 0)) [
    | inl shut ↦ (minus_one, k, rw (e, shut, close) refl, Keeps-same k, h)
    | inr on ↦ elim (h.tables i) [
      | inl shut ↦ absurd (ground (arith, on, shut))
      | inr (f, table) ↦
          let k1 = set_fds (set_flags i 0 (current_fds k)) k in
          let c = call_close-Closes f (pos i) k1 in
          (
            (call_close f (pos i) k1).0,
            (call_close f (pos i) k1).1,
            rw (e, on, table, close) refl,
            Keeps-then k k1 (call_close f (pos i) k1).1
                (set_fds-Keeps (set_flags i 0 (current_fds k)) k) c.keeps,
            subst Closable
                (sym (c.same_fds ∙ current_fds-set_fds (set_flags i 0 (current_fds k)) k))
                (set_flags-Closable (current_fds k) i lt h),
          )
    ]
  ]
]

close_all-Keeps :
    (rounds i : ℕ) (k : Kernel)
    → i + rounds ≤ 8
    → Closable (current_fds k)
    → (k' : Kernel) × (close_all rounds i k ≡ some k') × Keeps k k'
unfolding close_all
close_all-Keeps zero i k le h = (k, refl, Keeps-same k)
close_all-Keeps (suc rounds) i k le h =
    let (r, k1, goes, keeps, h1) = close-Closed i k (omega (arith, le)) h in
    let (k2, rest, more) = close_all-Keeps rounds (i + 1) k1 (omega (arith, le)) h1 in
    (k2, rw (goes, close_all) rest, Keeps-then k k1 k2 keeps more)

-- The kernel with which the parent goes on, from the one in which the descriptors are closed.
abbrev left_to_parent : (status : ℕ) → Kernel → Kernel
left_to_parent status k =
    let k2 = release_pid k in
    record k2 {
      console = record k2.console { screen = print_ending status k2.console.screen };
      paging = map_user (to_u32 k2.new_pid) k2.paging;
      tss_ss0 = kernel_ds;
      tss_esp0 = kernel_stack k2.new_pid;
    }

halt-closed :
    (env : Environment) (e b before : ℕ) (stack : Mem) (status : ℕ) (q q2 : Kernel) (m : Mem)
    → close_process q ≡ some q2
    → eqb_ℤ (current_pcb q2).parent_pid minus_one ≡ false
    → halt env e b before stack status q m
      ≡ some (
          resumed
            (status_32bit status)
            (current_pcb q2).parent_ebp
            (current_pcb q2).parent_esp
            (left_to_parent status q2)
            m)
unfolding halt release_pid resume
halt-closed env e b before stack status q q2 m closes above = rw (closes, above, halt) refl

-- Where a process that is not one of the first three has been started, from a terminal whose
-- process was `parent`, and the process table and the number and parent of the running process
-- are as the start has left them, each open descriptor with a table of operations: `halt` goes on
-- in the parent, behind its `execute`, with the status and the registers saved at the start; the
-- process table is as it was before the start, and the parent is the running process and that of
-- the terminal that is scheduled.
pub halt-Started :
    (env : Environment) (e b before : ℕ) (stack : Mem) (status : ℕ) (k k' q : Kernel) (m : Mem)
    (esp ebp pid parent : ℕ)
    → Started k k' esp ebp pid
    → 3 ≤ pid
    → (k.terminal_array (current k.console)).terminal_current_pid ≡ pos parent
    → Keeps k' q
    → Closable (current_fds q)
    → (k'' : Kernel) × (halt env e b before stack status q m
        ≡ some (resumed (status_32bit status) ebp esp k'' m))
      × (k''.progs ≡ k.progs)
      × (k''.new_pid ≡ pos parent)
      × ((k''.terminal_array k''.sched_terminal).terminal_current_pid ≡ pos parent)
      × ((k''.terminal_array k''.sched_terminal).terminal_esp ≡ esp)
      × ((k''.terminal_array k''.sched_terminal).terminal_ebp ≡ ebp)
unfolding close_process clear_prog release_pid
halt-Started env e b before stack status k k' q m esp ebp pid parent s le from keeps h =
    let q1 = record q { progs = set q.progs pid 0 } in
    let (q2, goes, more) = close_all-Keeps 8 0 q1 (omega arith) h in
    let runs : q.new_pid ≡ pos pid = keeps.new_pid ∙ s.running in
    let child : ltb pid 3 ≡ false = ground (arith, le) in
    let of_start : (current_pcb k').parent_pid ≡ pos parent = s.parent ∙ rw (child) from in
    let above : (current_pcb q2).parent_pid ≡ pos parent =
      more.parent_pid ∙ keeps.parent_pid ∙ of_start in
    let its_esp : (current_pcb q2).parent_esp ≡ esp =
      more.parent_esp ∙ keeps.parent_esp ∙ s.saved_esp in
    let its_ebp : (current_pcb q2).parent_ebp ≡ ebp =
      more.parent_ebp ∙ keeps.parent_ebp ∙ s.saved_ebp in
    let table : q2.progs ≡ k.progs =
      more.progs
      ∙ ap (λ p. set p pid 0) (keeps.progs ∙ s.taken)
      ∙ set_back k.progs pid s.free.closed in
    let closes : close_process q ≡ some q2 = rw (runs, close_process) goes in
    let returns : eqb_ℤ (current_pcb q2).parent_pid minus_one ≡ false = rw (above) (ground arith) in
    (
      left_to_parent status q2,
      halt-closed env e b before stack status q q2 m closes returns
          ∙ ap₂ (λ x y. some (resumed (status_32bit status) x y (left_to_parent status q2) m))
              its_ebp its_esp,
      table,
      above,
      rw (==_refl q2.sched_terminal) above,
      rw (==_refl q2.sched_terminal) its_esp,
      rw (==_refl q2.sched_terminal) its_ebp,
    )
