-- ===== src/Os/Transfers.antt =====
-- write, open and vidmap of student-distrib/systemcall.c keep the kernel sane.
use linux_like_os.Base.{
  ℕ, ◌+◌, ◌≤◌, ◌∙◌, arith, Bool, ltb, leb, ◌==◌, ◌||◌, if_both, ℤ, pos, negsuc, minus_one, pos_part,
  eqb_ℤ, Option, none, some, [], ◌∷◌, length-set, for_range_inv,
}
use linux_like_os.Memory.{Mem}
use linux_like_os.Port.{Ports}
use linux_like_os.FileSys.Image.{Name, Dentry, read_dentry_by_name}
use linux_like_os.FileSys.Descriptors.{Fds, file_open, dir_open}
use linux_like_os.Terminal.{Console, terminal_write, write_byte}
use linux_like_os.Process.{
  Kernel, Environment, Fops, rtc_fops, dir_fops, file_fops, terminal_fops, fops, current_fds,
  get_fops_table,
}
use linux_like_os.Process.Calls.{write, sys_open, call_write, call_open, closed_fd, opened_fd}
use linux_like_os.Process.Memory.{vidmap}
use linux_like_os.Paging.{map_video}
use linux_like_os.Os.Files.{Usable, set_above-Usable}
use linux_like_os.Os.Outcomes.{Gives, Gives-elim, Gives-some, nothing, result}
use linux_like_os.Os.Sane.{Sane, Calm, Sane-Calm, Aside, Aside-Sane, SetFor}
use linux_like_os.Os.Calls.{console-Aside, global-Aside, ports-Calm, putc-Calm, set_fds-Sane}

-- What a call leaves that changes nothing of the processes.
abbrev Kept : Kernel → ℤ × Kernel → Type 0
Kept k r = Aside k r.1

terminal_write-Calm :
    (m : Mem) (buf : ℕ) (nbytes : ℤ) (c : Console)
    → Calm c
    → Calm (record c { screen = (terminal_write m (some buf) nbytes c.screen).1 })
unfolding terminal_write write_byte
terminal_write-Calm m buf nbytes c h =
    for_range_inv (λ i s. Calm (record c { screen = s })) (write_byte m buf) (pos_part nbytes)
      (λ i s lt g. putc-Calm (m (buf + i)) (record c { screen = s }) g) (pos_part nbytes) 0
      (pos_part nbytes) c.screen (omega arith) (omega arith) (again c h)
  where
    again : (c : Console) → Calm c → Calm (record c { screen = c.screen })
    again c h = record {
      bounded = record { counts = h.bounded.counts; on_screen = h.bounded.on_screen };
      on_display = h.on_display;
    }

set_ports-Calm :
    (io : Ports) (c : Console)
    → Calm c
    → Calm (record c { screen = record c.screen { ports = io } })
set_ports-Calm io c h = ports-Calm (λ old. io) c h

call_write-Aside :
    (env : Environment) (f : Fops) (fd : ℤ) (buf : ℕ) (nbytes : ℤ) (k : Kernel) (m : Mem)
    → Calm k.console
    → Aside k (call_write env f fd buf nbytes k m).1
unfolding call_write
call_write-Aside env rtc_fops fd buf nbytes k m h = console-Aside k _ (set_ports-Calm _ k.console h)
call_write-Aside env dir_fops fd buf nbytes k m h = console-Aside k k.console h
call_write-Aside env file_fops fd buf nbytes k m h = console-Aside k k.console h
call_write-Aside env terminal_fops fd buf nbytes k m h =
    console-Aside k _ (terminal_write-Calm m buf nbytes k.console h)

pub write-Sane :
    (made : ℕ → Bool) (env : Environment) (fd : ℤ) (buf : Option ℕ) (nbytes : ℤ) (k : Kernel)
    (m : Mem)
    → Sane made k
    → Gives (λ (r : ℤ × Kernel). Sane made r.1) (write env fd buf nbytes k m)
unfolding write
write-Sane made env fd none nbytes k m s = result (minus_one, k) s
write-Sane made env fd (some buf) nbytes k m s =
    let ok = λ (r : ℤ × Kernel). Sane made r.1 in
    if_both (Gives ok) _ (result (minus_one, k) s) (
      Gives-elim ok (fops _) none _ nothing (λ f _.
        result _
          (Aside-Sane made k _ (call_write-Aside env f fd buf nbytes k m (Sane-Calm made k s)) s)))

call_open-Aside :
    (env : Environment) (f : Fops) (name : Option Name) (k : Kernel)
    → Calm k.console
    → Gives (Kept k) (call_open env f name k)
unfolding call_open
call_open-Aside env rtc_fops name k h = result _ (console-Aside k _ (set_ports-Calm _ k.console h))
call_open-Aside env dir_fops name k h =
    Gives-elim (Kept k) (dir_open env.fs env.stale_dentry env.stale_fd k.file_descriptor_array name)
      none _ nothing (λ r _. result _ (global-Aside k r.1 h))
call_open-Aside env file_fops name k h =
    Gives-elim (Kept k)
      (file_open env.fs env.stale_dentry env.stale_fd k.file_descriptor_array name) none _ nothing
      (λ r _. result _ (global-Aside k r.1 h))
call_open-Aside env terminal_fops name k h = result _ (console-Aside k k.console h)

closed_fd-above : (fds : Fds) → Usable fds → 2 ≤ closed_fd fds
unfolding closed_fd
closed_fd-above [] u = ground (arith, u.size)
closed_fd-above (a ∷ []) u = ground (arith, u.size)
closed_fd-above (a ∷ b ∷ fds) u = ground (arith, u.std.input.0, u.std.output.0)

opened_fd-Sane :
    (made : ℕ → Bool) (d : Dentry) (k : Kernel)
    → Sane made k
    → Sane made (opened_fd d (closed_fd (current_fds k)) k)
unfolding opened_fd
opened_fd-Sane made d k s =
    set_fds-Sane made k _ (length-set (current_fds k) _ _ ∙ s.arrays _)
      (λ u.
        set_above-Usable (current_fds k) (closed_fd (current_fds k)) _
          (closed_fd-above (current_fds k) u) u)
      s

pub sys_open-Sane :
    (made : ℕ → Bool) (env : Environment) (name : Option Name) (k : Kernel)
    → Sane made k
    → Gives (λ (r : ℤ × Kernel). Sane made r.1) (sys_open env name k)
unfolding sys_open
sys_open-Sane made env name k s =
    let ok = λ (r : ℤ × Kernel). Sane made r.1 in
    Gives-elim ok (read_dentry_by_name env.fs name env.stale_dentry) none _ nothing (λ p _.
      let opened = opened_fd p.1 (closed_fd (current_fds k)) k in
      let s' = opened_fd-Sane made p.1 k s in
      if_both (Gives ok) (eqb_ℤ p.0 minus_one) (result (minus_one, k) s) (
        if_both (Gives ok) (ltb 7 (closed_fd (current_fds k))) (result (minus_one, k) s) (
          Gives-elim ok (fops (get_fops_table p.1.filetype)) none _ nothing (λ f _.
            Gives-elim ok (call_open env f name opened) none _ nothing (λ r e. result _ (
              Aside-Sane made opened r.1
                (Gives-some (Kept opened) _ r
                  (call_open-Aside env f name opened (Sane-Calm made opened s')) e)
                s'))))))

map_video-SetFor :
    (p : ℤ) (k : Kernel) → SetFor p k → SetFor p (record k { paging = map_video k.paging })
unfolding map_video
map_video-SetFor (pos n) k h =
    (record { present = h.0.present; large = h.0.large; addy = h.0.addy }, h.1)
map_video-SetFor (negsuc n) k h = tt

pub vidmap-Sane :
    (made : ℕ → Bool) (screen_start : ℕ) (k : Kernel) (m : Mem)
    → Sane made k
    → Sane made (vidmap screen_start k m).1
unfolding vidmap
vidmap-Sane made screen_start k m s =
    if_both (λ (r : ℤ × Kernel × Mem). Sane made r.1)
      ((screen_start == 0) || ltb screen_start 0x08000000 || leb 0x083FFFFC screen_start) s
      (record {
        bounded = s.bounded;
        on_display = s.on_display;
        scheduled = s.scheduled;
        table = s.table;
        arrays = s.arrays;
        processes = s.processes;
        running = s.running;
        terminals = s.terminals;
        set_for = map_video-SetFor k.new_pid k s.set_for;
      })
