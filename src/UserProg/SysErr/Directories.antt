-- ===== src/UserProg/SysErr/Directories.antt =====
-- Opening and closing directories by the calls of student-distrib/systemcall.c.
use linux_like_os.Base.{
  ℕ, zero, suc, ◌+◌, ◌<◌, ◌≤◌, ◌≡◌, ◌≢◌, refl, ap, ◌∙◌, arith, ◌==◌, ==_ne, true, false, ltb, ◌||◌,
  ◌&&◌, ltb_ℤ, eqb_ℤ, pos, minus_one, some, [], ◌∷◌, length, set, length-set, Bool-cases, inl, inr,
}
use linux_like_os.FileSys.Image.{Name, Dentry, read_dentry_by_name}
use linux_like_os.FileSys.Descriptors.{
  Descriptor, Fds, fd_at, free_fd, dir_open, dir_close, bad_fd, set_flags,
}
use linux_like_os.FileSys.Files.{fd_at-set}
use linux_like_os.Process.{
  Kernel, Environment, current_fds, set_fds, init_fops_tables, get_fops_table, fops, dir_fops,
}
use linux_like_os.Process.Calls.{close, sys_open, call_open, call_close, closed_fd, opened_fd}
use linux_like_os.Process.Opening.{opened_file}
use linux_like_os.UserProg.SysErr.Refusals.{Held}

pub opened-Held :
    (b g : ℕ) (d e : Descriptor) (fds global : Fds)
    → 2 ≤ b
    → b < 8
    → d.flags ≡ 1
    → d.file_operation_table_ptr ≡ some 1
    → g < 8
    → e.flags ≡ (fd_at global g).flags
    → Held 2 b fds global
    → Held 2 (b + 1) (set fds b d) (set global g e)
opened-Held b g d e fds global le lt on dir less same h =
    let at = λ (i : ℕ). fd_at-set fds b i d h.eight lt in
    let (j, small, free) = h.spare in
    record {
      eight = length-set fds b d ∙ h.eight;
      input = ground (arith, at 0, h.input, le);
      out = ground (arith, at 1, h.out, le);
      on_terminal = rw (at 1, ==_ne b 1 (λ e. omega (arith, e, le))) h.on_terminal;
      held = λ i lo hi. ground (arith, at i, on, h.held i lo);
      on_directory = λ i lo hi. elim (Bool-cases (b == i)) [
        | inl y ↦ rw (at i, y) dir
        | inr n ↦ rw (at i, n) (h.on_directory i lo (ground (arith, n, hi)))
      ];
      below = λ i lo hi. absurd (omega (arith, lo, hi));
      above = λ i lo hi. ground (arith, at i, h.above i);
      all_global = length-set global g e ∙ h.all_global;
      spare = (j, small, ground (arith, fd_at-set global g j e h.all_global less, same, free));
    }

pub closed-Held :
    (a : ℕ) (fds global : Fds)
    → 2 ≤ a
    → a < 8
    → Held a 8 fds global
    → Held (a + 1) 8 (set_flags a 0 fds) (set_flags a 0 global)
unfolding set_flags
closed-Held a fds global le lt h =
    let d = record (fd_at fds a) { flags = 0 } in
    let at = λ (i : ℕ). fd_at-set fds a i d h.eight lt in
    record {
      eight = length-set fds a d ∙ h.eight;
      input = ground (arith, at 0, h.input, le);
      out = ground (arith, at 1, h.out, le);
      on_terminal = rw (at 1, ==_ne a 1 (λ e. omega (arith, e, le))) h.on_terminal;
      held = λ i lo hi. ground (arith, at i, h.held i);
      on_directory = λ i lo hi.
          rw (at i, ==_ne a i (λ e. omega (arith, e, lo)))
            (h.on_directory i (omega (arith, lo)) hi);
      below = λ i lo hi. ground (arith, at i, h.below i lo);
      above = λ i lo hi. absurd (omega (arith, lo, hi));
      all_global = length-set global a _ ∙ h.all_global;
      spare = (
        a,
        lt,
        ground
            (arith, fd_at-set global a a (record (fd_at global a) { flags = 0 }) h.all_global lt),
      );
    }

count : (n : ℕ) → eqb_ℤ (pos n) minus_one ≡ false
count n = ground arith

good_fd : (g : ℕ) → g < 8 → bad_fd (pos g) ≡ false
good_fd g lt = ground (arith, lt)

directory_fops : (d : Dentry) → d.filetype ≡ 1 → fops (get_fops_table d.filetype) ≡ some dir_fops
unfolding get_fops_table init_fops_tables
directory_fops d e = rw (e) refl

pub directory_table : (d : Dentry) → d.filetype ≡ 1 → get_fops_table d.filetype ≡ some 1
unfolding get_fops_table
directory_table d e = rw (e) refl

-- What `dir_open` does to the global array.
abbrev pub open_in : ℕ → Fds → Fds
open_in g fds = set fds g (record (fd_at fds g) { inode = 0; file_position = 0 })

dir_open-found :
    (env : Environment) (name : Name) (d : Dentry) (fds : Fds) (g : ℕ)
    → read_dentry_by_name env.fs (some name) env.stale_dentry ≡ some (pos 0, d)
    → d.filetype ≡ 1
    → free_fd fds 0 env.stale_fd ≡ pos g
    → g < 8
    → dir_open env.fs env.stale_dentry env.stale_fd fds (some name) ≡ some (pos g, open_in g fds)
unfolding dir_open
dir_open-found env name d fds g found kind free lt =
    rw (found, kind, free, good_fd g lt, dir_open) refl

pub sys_open-directory :
    (env : Environment) (name : Name) (d : Dentry) (g : ℕ) (k : Kernel)
    → read_dentry_by_name env.fs (some name) env.stale_dentry ≡ some (pos 0, d)
    → d.filetype ≡ 1
    → closed_fd (current_fds k) < 8
    → free_fd k.file_descriptor_array 0 env.stale_fd ≡ pos g
    → g < 8
    → let b = closed_fd (current_fds k) in
      sys_open env (some name) k
      ≡ some (pos b, opened_file b d (open_in g k.file_descriptor_array) k)
unfolding sys_open opened_fd call_open
sys_open-directory env name d g k found kind lt free less =
    let inside : ltb 7 (closed_fd (current_fds k)) ≡ false = ground (arith, lt) in
    rw
      (
        found,
        inside,
        directory_fops d kind,
        dir_open-found env name d k.file_descriptor_array g found kind free less,
        count g,
        sys_open,
      )
      refl

pub sys_open-missing :
    (env : Environment) (name : Name) (d : Dentry) (k : Kernel)
    → read_dentry_by_name env.fs (some name) env.stale_dentry ≡ some (minus_one, d)
    → sys_open env (some name) k ≡ some (minus_one, k)
unfolding sys_open
sys_open-missing env name d k e = rw (e, sys_open) refl

-- Where all descriptors are open, there is no room for a file that is found.
pub closed_fd-full :
    (fds : Fds) (n : ℕ)
    → length fds ≡ n
    → ((i : ℕ) → i < n → (fd_at fds i).flags ≢ 0)
    → closed_fd fds ≡ n
unfolding closed_fd
closed_fd-full [] n e h = e
closed_fd-full (d ∷ fds) zero e h = absurd (omega (arith, e))
closed_fd-full (d ∷ fds) (suc n) e h =
    rw (==_ne d.flags 0 (h 0 (omega arith)))
      (ap suc (closed_fd-full fds n (omega (arith, e)) (λ i lt. h (suc i) (omega (arith, lt)))))

pub sys_open-full :
    (env : Environment) (name : Name) (d : Dentry) (k : Kernel)
    → read_dentry_by_name env.fs (some name) env.stale_dentry ≡ some (pos 0, d)
    → closed_fd (current_fds k) ≡ 8
    → sys_open env (some name) k ≡ some (minus_one, k)
unfolding sys_open
sys_open-full env name d k found full = rw (found, full, sys_open) refl

pub close-directory :
    (a : ℕ) (k : Kernel)
    → 2 ≤ a
    → a < 8
    → (fd_at (current_fds k) a).flags ≡ 1
    → (fd_at (current_fds k) a).file_operation_table_ptr ≡ some 1
    → close (pos a) k
      ≡ some (
        pos 0,
        record (set_fds (set_flags a 0 (current_fds k)) k) {
          file_descriptor_array = set_flags a 0 k.file_descriptor_array;
        },
      )
unfolding close call_close dir_close init_fops_tables
close-directory a k le lt on dir =
    let good : (ltb_ℤ (pos a) (pos 2) || ltb_ℤ (pos 7) (pos a)) ≡ false = ground (arith, le, lt) in
    let inside : (ltb_ℤ (pos 1) (pos a) && ltb_ℤ (pos a) (pos 8)) ≡ true = ground (arith, le, lt) in
    rw (good, on, dir, inside, close) refl
