-- ===== src/Os/Reading.antt =====
-- read of student-distrib/systemcall.c keeps the kernel sane.
use linux_like_os.Base.{
  ℕ, ◌<◌, ◌≡◌, refl, subst, ◌∙◌, arith, Bool, false, ◌==◌, if_both, ℤ, pos, negsuc, minus_one,
  pos_part, eqb_ℤ, to_u32, Option, none, some, List, [], ◌∷◌, length, set, length-set,
}
use linux_like_os.Memory.{Mem, memset}
use linux_like_os.FileSys.Image.{read_data, read_dentry_by_index}
use linux_like_os.FileSys.Descriptors.{Fds, fd_at, bad_fd, file_read, dir_read, put_name}
use linux_like_os.Terminal.{Console, terminal_read, read_line, await}
use linux_like_os.Process.{
  Kernel, Environment, Fops, rtc_fops, dir_fops, file_fops, terminal_fops, fops, current_fds,
}
use linux_like_os.Process.Calls.{read, call_read}
use linux_like_os.Rtc.{rtc_read}
use linux_like_os.Os.{AllTame}
use linux_like_os.Os.Files.{Usable, set_position-StdOpen}
use linux_like_os.Os.Outcomes.{Gives, Gives-elim, Gives-some, nothing, result, if_cases}
use linux_like_os.Os.Sane.{Sane, Calm, Sane-Calm, Aside, Aside-Sane}
use linux_like_os.Os.Calls.{console-Aside, global-Aside, clear_buffer-Calm, set_fds-Sane}

-- What a read leaves of the descriptors in the global array, which go back to the process.
record Reads (k : Kernel) (r : ℤ × Kernel × Mem) : Type 0 where
  aside : Aside k r.1
  size : length r.1.file_descriptor_array ≡ 8
  usable : Usable k.file_descriptor_array → Usable r.1.file_descriptor_array

record Moves (fds : Fds) (r : ℤ × Fds × Mem) : Type 0 where
  size : length r.1 ≡ 8
  usable : Usable fds → Usable r.1

moved :
    (fds : Fds) (i p : ℕ) (r : ℤ) (m : Mem)
    → length fds ≡ 8
    → i < 8
    → Moves fds (r, set fds i (record (fd_at fds i) { file_position = p }), m)
moved fds i p r m e lt = record {
  size = length-set fds i _ ∙ e;
  usable =
      λ u. record { size = length-set fds i _ ∙ e; std = set_position-StdOpen fds i p e lt u.std };
}

still : (fds : Fds) (r : ℤ) (m : Mem) → length fds ≡ 8 → Moves fds (r, fds, m)
still fds r m e = record { size = e; usable = λ u. u }

good_fd : (fd : ℤ) → bad_fd fd ≡ false → pos_part fd < 8
good_fd (pos n) e = ground (arith, e)
good_fd (negsuc n) e = ground (arith, e)

file_read-Moves :
    (env : Environment) (fds : Fds) (fd : ℤ) (buf : ℕ) (nbytes : ℤ) (m : Mem)
    → length fds ≡ 8
    → Gives (Moves fds) (file_read env.fs fds fd buf nbytes m)
unfolding file_read
file_read-Moves env fds fd buf nbytes m e =
    if_cases (Gives (Moves fds)) (bad_fd fd) (λ b. result _ (still fds (pos 0) m e))
      (λ b.
        Gives-elim (Moves fds)
          (read_data env.fs (fd_at fds (pos_part fd)).inode (fd_at fds (pos_part fd)).file_position
            buf (to_u32 nbytes) (memset m buf 0 (to_u32 nbytes)))
          none _ nothing (λ p _. result _ (moved fds (pos_part fd) _ _ _ e (good_fd fd b))))

dir_read-Moves :
    (env : Environment) (fds : Fds) (fd : ℤ) (buf : ℕ) (nbytes : ℤ) (m : Mem)
    → length fds ≡ 8
    → Gives (Moves fds) (dir_read env.fs env.stale_dentry fds fd buf nbytes m)
unfolding dir_read
dir_read-Moves env fds fd buf nbytes m e =
    if_cases (Gives (Moves fds)) (bad_fd fd) (λ b. result _ (still fds minus_one m e))
      (λ b.
        Gives-elim (Moves fds)
          (read_dentry_by_index env.fs (fd_at fds (pos_part fd)).file_position env.stale_dentry)
          none _ nothing
          (λ p _.
            if_both (Gives (Moves fds)) (eqb_ℤ p.0 minus_one)
              (result _ (moved fds (pos_part fd) _ _ _ e (good_fd fd b)))
              (Gives-elim (Moves fds) (put_name p.1 buf nbytes m) none _ nothing
                (λ q _. result _ (moved fds (pos_part fd) _ _ _ e (good_fd fd b))))))

await-Calm :
    (c : Console) (arrivals : List (Console → Console))
    → AllTame arrivals
    → Calm c
    → Gives Calm (await c arrivals)
unfolding await
await-Calm c [] t h = nothing
await-Calm c (arrive ∷ arrivals) t h =
    let after : Calm (arrive c) = record {
      bounded = t.0.bounded c h.bounded;
      on_display = t.0.on_display c h.on_display;
    } in
    if_both (Gives Calm) ((arrive c).read_flag == 0) (await-Calm (arrive c) arrivals t.1 after)
      (result (arrive c) after)

flag-Calm : (n : ℕ) (c : Console) → Calm c → Calm (record c { read_flag = n })
flag-Calm n c h = record {
  bounded = record { counts = h.bounded.counts; on_screen = h.bounded.on_screen };
  on_display = h.on_display;
}

read_line-Calm : (c : Console) (buf : Option ℕ) (m : Mem) → Calm c → Calm (read_line c buf m).1
unfolding read_line
read_line-Calm c none m h = flag-Calm 0 c h
read_line-Calm c (some buf) m h = clear_buffer-Calm (record c { read_flag = 0 }) (flag-Calm 0 c h)

terminal_read-Calm :
    (c : Console) (arrivals : List (Console → Console)) (buf : Option ℕ) (nbytes : ℤ) (m : Mem)
    → AllTame arrivals
    → Calm c
    → Gives (λ (r : ℤ × Console × Mem). Calm r.1) (terminal_read c arrivals buf nbytes m)
unfolding terminal_read
terminal_read-Calm c arrivals buf nbytes m t h =
    Gives-elim (λ (r : ℤ × Console × Mem). Calm r.1) (await (record c { read_flag = 0 }) arrivals)
      none _ nothing
      (λ c' e. result _ (
        read_line-Calm c' buf m (
          Gives-some Calm _ c'
            (await-Calm (record c { read_flag = 0 }) arrivals t (flag-Calm 0 c h)) e)))

Reads-fds :
    (k : Kernel) (r : ℤ) (fds : Fds) (m : Mem)
    → Calm k.console
    → Moves k.file_descriptor_array (r, fds, m)
    → Reads k (r, record k { file_descriptor_array = fds }, m)
Reads-fds k r fds m h v = record { aside = global-Aside k fds h; size = v.size; usable = v.usable }

call_read-Reads :
    (env : Environment) (f : Fops) (fd : ℤ) (buf : Option ℕ) (nbytes : ℤ) (k : Kernel) (m : Mem)
    → AllTame env.arrivals
    → length k.file_descriptor_array ≡ 8
    → Calm k.console
    → Gives (Reads k) (call_read env f fd buf nbytes k m)
unfolding call_read
call_read-Reads env rtc_fops fd buf nbytes k m t e h =
    Gives-elim (Reads k) (rtc_read k.rtc_interrupt_received env.ticks) none _ nothing (λ p _.
      result _ (record {
        aside = record {
          calm = h;
          sched_terminal = refl;
          progs = refl;
          pcbs = refl;
          new_pid = refl;
          terminal_array = refl;
          paging = refl;
          tss_esp0 = refl;
        };
        size = e;
        usable = λ u. u;
      }))
call_read-Reads env dir_fops fd none nbytes k m t e h = nothing
call_read-Reads env dir_fops fd (some buf) nbytes k m t e h =
    Gives-elim (Reads k) (dir_read env.fs env.stale_dentry k.file_descriptor_array fd buf nbytes m)
      none _ nothing
      (λ (r, fds, m') x. result _ (
        Reads-fds k r fds m' h (
          Gives-some (Moves k.file_descriptor_array) _ (r, fds, m')
            (dir_read-Moves env k.file_descriptor_array fd buf nbytes m e) x)))
call_read-Reads env file_fops fd none nbytes k m t e h = nothing
call_read-Reads env file_fops fd (some buf) nbytes k m t e h =
    Gives-elim (Reads k) (file_read env.fs k.file_descriptor_array fd buf nbytes m) none _ nothing
      (λ (r, fds, m') x. result _ (
        Reads-fds k r fds m' h (
          Gives-some (Moves k.file_descriptor_array) _ (r, fds, m')
            (file_read-Moves env k.file_descriptor_array fd buf nbytes m e) x)))
call_read-Reads env terminal_fops fd buf nbytes k m t e h =
    Gives-elim (Reads k) (terminal_read k.console env.arrivals buf nbytes m) none _ nothing
      (λ (r, c, m') x. result _ (record {
        aside = console-Aside k c (
            Gives-some (λ (r : ℤ × Console × Mem). Calm r.1) _ (r, c, m')
              (terminal_read-Calm k.console env.arrivals buf nbytes m t h) x);
        size = e;
        usable = λ u. u;
      }))

pub read-Sane :
    (made : ℕ → Bool) (env : Environment) (fd : ℤ) (buf : Option ℕ) (nbytes : ℤ) (k : Kernel)
    (m : Mem)
    → AllTame env.arrivals
    → Sane made k
    → Gives (λ (r : ℤ × Kernel × Mem). Sane made r.1) (read env fd buf nbytes k m)
unfolding read
read-Sane made env fd buf nbytes k m t s =
    let ok = λ (r : ℤ × Kernel × Mem). Sane made r.1 in
    let copied = record k { file_descriptor_array = current_fds k } in
    if_both (Gives ok) _ (result (minus_one, k, m) s) (
      Gives-elim ok (fops _) none _ nothing (λ f _.
        Gives-elim ok (call_read env f fd buf nbytes copied m) none _ nothing (λ (r, k', m') x.
          let h =
            Gives-some (Reads copied) _ (r, k', m')
              (call_read-Reads env f fd buf nbytes copied m t (s.arrays _) (Sane-Calm made k s))
              x in
          result _ (
            set_fds-Sane made k' k'.file_descriptor_array h.size
              (λ u. h.usable (subst Usable (same_fds k k' h.aside.pcbs h.aside.new_pid) u))
              (Aside-Sane made k k'
                (record {
                  calm = h.aside.calm;
                  sched_terminal = h.aside.sched_terminal;
                  progs = h.aside.progs;
                  pcbs = h.aside.pcbs;
                  new_pid = h.aside.new_pid;
                  terminal_array = h.aside.terminal_array;
                  paging = h.aside.paging;
                  tss_esp0 = h.aside.tss_esp0;
                })
                s)))))
  where
    same_fds :
        (k k' : Kernel) → k'.pcbs ≡ k.pcbs → k'.new_pid ≡ k.new_pid → current_fds k' ≡ current_fds k
    same_fds k k' e f = rw (e, f) refl
