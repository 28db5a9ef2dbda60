-- ===== src/Os/Life.antt =====
-- execute and halt of student-distrib/systemcall.c keep the kernel sane.
use linux_like_os.Base.{
  ℕ, suc, ◌-◌, ◌*◌, ◌<◌, ◌≡◌, refl, ◌∙◌, arith, Bool, true, ltb, ◌==◌, if◌then◌else◌, if_both,
  update, ℤ, pos, negsuc, minus_one, length, length-set,
}
use linux_like_os.Memory.{Mem}
use linux_like_os.Paging.{Paging, map_user}
use linux_like_os.Terminal.{TerminalInfo, current}
use linux_like_os.Process.{Kernel, Pcb, current_pcb, set_pcb}
use linux_like_os.Process.Life.{claim_pid, initial_fds}
use linux_like_os.Os.Files.{Usable, initial_fds-Usable}
use linux_like_os.Os.Outcomes.{if_cases}
use linux_like_os.Os.Sane.{Known, IsProcess, UserPage, Sane}

-- The processes that have been started, with one more.
abbrev pub with_process : (ℕ → Bool) → ℕ → ℕ → Bool
with_process made pid = update made pid true

Known-more : (made : ℕ → Bool) (pid : ℕ) (p : ℤ) → Known made p → Known (with_process made pid) p
Known-more made pid (pos n) h = ground (arith, h)
Known-more made pid (negsuc n) h = h

pub map_user-UserPage : (pid : ℕ) (p : Paging) → UserPage pid (map_user pid p)
unfolding map_user
map_user-UserPage pid p = record { present = refl; large = refl; addy = refl }

-- `fill_pcb` after `claim_pid`, with the copy of the command.
abbrev filled : (esp ebp pid : ℕ) (args : Mem) → Kernel → Kernel
filled esp ebp pid args k =
    let old = if ltb pid 3 then minus_one else k.old_pid in
    set_pcb (pos pid)
      (record {
        pid = pos pid;
        program_esp = 0x800000 - 0x2000 * pid - 4;
        program_ebp = 0x800000 - 0x2000 * pid - 4;
        parent_pid = old;
        parent_esp = esp;
        parent_ebp = ebp;
        systemcall_fd_array = initial_fds (current_pcb k).systemcall_fd_array;
        esp = k.tss_esp0;
        ss = k.tss_ss0;
        arg_buff = args;
      })
      (record k { old_pid = old; tss_ss0 = 0x0018; tss_esp0 = 0x800000 - 0x2000 * pid - 4 })

abbrev shown_pid : Kernel → ℤ
shown_pid k = (k.terminal_array (current k.console)).terminal_current_pid

module _ (made : ℕ → Bool) (esp ebp pid : ℕ) (args : Mem) (k : Kernel) (lt : pid < 6)
    (s : Sane made k) where
  new_parent : Known (with_process made pid) (if ltb pid 3 then minus_one else shown_pid k)
  new_parent =
      if_both (Known (with_process made pid)) (ltb pid 3) refl
        (Known-more made pid (shown_pid k) (s.terminals (current k.console) s.on_display))

  IsProcess-more :
      (n : ℕ) (pcb : Pcb) → IsProcess made n pcb → IsProcess (with_process made pid) n pcb
  IsProcess-more n pcb p = record {
    below = p.below;
    own = p.own;
    parent = Known-more made pid pcb.parent_pid p.parent;
    fds = p.fds;
  }

  abbrev pub started : Kernel
  started =
      let k' = filled esp ebp pid args (claim_pid pid k) in
      record k' { paging = map_user pid k'.paging }

  pub started-Sane : Sane (with_process made pid) started
  unfolding claim_pid
  started-Sane = record {
    bounded = s.bounded;
    on_display = s.on_display;
    scheduled = s.scheduled;
    table = length-set k.progs pid 1 ∙ s.table;
    arrays = array;
    processes = process;
    running = ground arith;
    terminals = terminal;
    set_for = (map_user-UserPage pid k.paging, refl);
  }
    where
      fds : Usable (initial_fds (k.pcbs (suc pid)).systemcall_fd_array)
      fds = initial_fds-Usable (k.pcbs (suc pid)).systemcall_fd_array (s.arrays (suc pid))

      array : (i : ℕ) → length (started.pcbs i).systemcall_fd_array ≡ 8
      array i =
          if_both (λ (pcb : Pcb). length pcb.systemcall_fd_array ≡ 8) (suc pid == i) fds.size
            (s.arrays i)

      process :
          (n : ℕ)
          → with_process made pid n ≡ true
          → IsProcess (with_process made pid) n (started.pcbs (suc n))
      process n h =
          if_cases (λ (pcb : Pcb). IsProcess (with_process made pid) n pcb) (suc pid == suc n)
            (λ e. record {
              below = ground (arith, e, lt);
              own = ground (arith, e);
              parent = new_parent;
              fds = fds;
            })
            (λ e. IsProcess-more n (k.pcbs (suc n)) (s.processes n (ground (arith, e, h))))

      terminal :
          (t : ℕ)
          → t < 3
          → Known (with_process made pid) (started.terminal_array t).terminal_current_pid
      terminal t less =
          if_both (λ (i : TerminalInfo). Known (with_process made pid) i.terminal_current_pid)
            (current k.console == t) (ground arith)
            (Known-more made pid (k.terminal_array t).terminal_current_pid (s.terminals t less))
