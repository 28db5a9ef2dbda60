-- ===== src/UserProg/SysErr/Served.antt =====
-- The tests of syscalls/ece391syserr.c on the kernel of student-distrib.
use linux_like_os.Base.{
  ℕ, zero, suc, ◌+◌, ◌<◌, ◌≤◌, ◌≡◌, ◌≢◌, refl, sym, subst, ap, arith, ℤ, pos, Option, some, List,
}
use linux_like_os.Memory.{Mem}
use linux_like_os.FileSys.Descriptors.{fd_at, set_flags}
use linux_like_os.Process.{Kernel, Environment, current_fds}
use linux_like_os.Process.Calls.{close, sys_open, closed_fd}
use linux_like_os.Process.Opening.{
  file_descriptor, free_fd-inside, closed_fd-first, opened_file, opened_file-fds,
}
use linux_like_os.UserProg.{Prog}
use linux_like_os.UserProg.OnKernel.{
  kernel_system, kernel_screen, current_fds-set_fds, systemcall_wrapper, write-terminal,
}
use linux_like_os.UserProg.Texts.{this_directory}
use linux_like_os.UserProg.SysErr.Disk.{Tested, Looked, Tested-Looked}
use linux_like_os.UserProg.SysErr.Expected.{Refuses}
use linux_like_os.UserProg.SysErr.Refusals.{
  Held, Holds, read-refused, write-refused, close-refused, vidmap-refused,
}
use linux_like_os.UserProg.SysErr.Directories.{
  opened-Held, closed-Held, directory_table, open_in, sys_open-directory, sys_open-missing,
  closed_fd-full, sys_open-full, close-directory,
}
use linux_like_os.UserProg.SysErr.Choice.{test_text, run_test-Passed}
use linux_like_os.UserProg.SysErr.{run_test}
use linux_like_os.Screen.{puts}

module _ (env : Environment) (args before : ℕ) (run : List ℕ → Kernel → Option (ℤ × Kernel))
    (calls : ℤ → Prog Kernel ℤ) where
  first_closed : (b : ℕ) (k : Kernel) → 2 ≤ b → b < 8 → Holds 2 b k → closed_fd (current_fds k) ≡ b
  first_closed b k le lt h =
      closed_fd-first (current_fds k) b (omega (arith, lt, h.eight)) (h.above b (omega arith) lt)
        first
    where
      first : (j : ℕ) → j < b → (fd_at (current_fds k) j).flags ≢ 0
      first zero less e = omega (arith, h.input, e)
      first (suc zero) less e = omega (arith, h.out, e)
      first (suc (suc j)) less e = omega (arith, h.held (suc (suc j)) (omega arith) less, e)

  opens_directory :
      (b : ℕ) (k : Kernel)
      → Looked env before
      → 2 ≤ b
      → b < 8
      → Holds 2 b k
      → (k' : Kernel) × (sys_open env (some (record { before = before; bytes = this_directory })) k
          ≡ some (pos b, k'))
        × Holds 2 (b + 1) k'
        × (kernel_screen k' ≡ kernel_screen k)
  opens_directory b k tested le lt h =
      let (j, small, free) = h.spare in
      let (g, found, less) =
        free_fd-inside k.file_descriptor_array 0 j env.stale_fd (omega (arith, small, h.all_global))
          free in
      let first = first_closed b k le lt h in
      let d = tested.directory in
      let e = record (fd_at k.file_descriptor_array g) { inode = 0; file_position = 0 } in
      let global = open_in g k.file_descriptor_array in
      (
        opened_file b d global k,
        rw (first) at (
            sys_open-directory env _ d g k tested.found tested.kind (omega (arith, first, lt)) found
              (omega (arith, less, small))),
        subst (λ fds. Held 2 (b + 1) fds global) (sym (opened_file-fds b d global k))
            (opened-Held b g (file_descriptor d) e (current_fds k) k.file_descriptor_array le lt
              refl (directory_table d tested.kind) (omega (arith, less, small)) refl h),
        refl,
      )

  full : (k : Kernel) → Holds 2 8 k → closed_fd (current_fds k) ≡ 8
  full k h = closed_fd-full (current_fds k) 8 h.eight each
    where
      each : (j : ℕ) → j < 8 → (fd_at (current_fds k) j).flags ≢ 0
      each zero less e = omega (arith, h.input, e)
      each (suc zero) less e = omega (arith, h.out, e)
      each (suc (suc j)) less e = omega (arith, h.held (suc (suc j)) (omega arith) less, e)

  closes_directory :
      (a : ℕ) (k : Kernel)
      → 2 ≤ a
      → a < 8
      → Holds a 8 k
      → (r : ℤ) × (k' : Kernel) × (close (pos a) k ≡ some (r, k'))
        × Holds (a + 1) 8 k'
        × (kernel_screen k' ≡ kernel_screen k)
  closes_directory a k le lt h = (
    pos 0,
    _,
    close-directory a k le lt (h.held a (omega arith) lt) (h.on_directory a (omega arith) lt),
    subst (λ fds. Held (a + 1) 8 fds (set_flags a 0 k.file_descriptor_array))
        (sym (current_fds-set_fds (set_flags a 0 (current_fds k)) k))
        (closed-Held a (current_fds k) k.file_descriptor_array le lt h),
    refl,
  )

  all_closed : (k : Kernel) → Holds 8 8 k → Holds 2 2 k
  all_closed k h = record {
    eight = h.eight;
    input = h.input;
    out = h.out;
    on_terminal = h.on_terminal;
    held = λ i lo hi. absurd (omega (arith, lo, hi));
    on_directory = λ i lo hi. absurd (omega (arith, lo, hi));
    below = λ i lo hi. absurd (omega (arith, lo, hi));
    above = λ i lo hi. h.below i lo hi;
    all_global = h.all_global;
    spare = h.spare;
  }

  pub kernel_system-Refuses :
      Looked env before
      → Refuses (kernel_system env args before run) (systemcall_wrapper calls) kernel_screen Holds
  unfolding kernel_system systemcall_wrapper
  kernel_system-Refuses tested = record {
    writes = λ n buf k m h. (_, write-terminal env buf n k m h.out h.on_terminal, h, refl);
    read_refused = λ fd buf n k m h e. read-refused env fd buf n k m h e;
    write_refused = λ fd buf n k m h e. write-refused env fd buf n k m h e;
    close_refused = close-refused;
    vidmap_refused = λ a k m lt. ap some (vidmap-refused a k m lt);
    call_refused = λ num k m bad. rw (bad) refl;
    helloo_refused = λ k. sys_open-missing env _ _ k tested.no_helloo;
    shel_refused = λ k. sys_open-missing env _ _ k tested.no_shel;
    empty_name_refused = λ k. sys_open-missing env _ _ k tested.no_empty_name;
    opens = λ b k le lt h. opens_directory b k tested le lt h;
    open_refused = λ k h. sys_open-full env _ tested.directory k tested.found (full k h);
    closes = closes_directory;
    all_closed = all_closed;
  }

  -- Where the directory is well formed, has an entry "." for itself and none with the names that
  -- are tried, in a process whose descriptors 0 and 1 are open, 1 on the terminal, and whose
  -- others are closed, where the global array has a closed one: whatever key is chosen, the
  -- switch of syserr returns 0 and has printed that the tests of this key pass, or that there is
  -- no such test, and the others are closed as before.
  pub run_test-passes :
      (buf line key : ℕ) (k : Kernel) (m : Mem)
      → Tested env.fs
      → Holds 2 2 k
      → (k' : Kernel) × (run_test
            (kernel_system env args before run)
            (systemcall_wrapper calls)
            buf
            line
            key
            k
            m
          ≡ some (0, k', m))
        × Holds 2 2 k'
        × (kernel_screen k' ≡ puts (test_text key) (kernel_screen k))
  run_test-passes buf line key k m tested h =
      let refuses = kernel_system-Refuses (Tested-Looked env before tested) in
      let passed =
        run_test-Passed (kernel_system env args before run) (systemcall_wrapper calls) buf line
          kernel_screen Holds refuses key k m h in
      (passed.state, passed.ended, passed.at, passed.shown)
