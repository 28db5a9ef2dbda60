-- ===== src/Os/Calls.antt =====
-- read, write, open, close and vidmap of student-distrib/systemcall.c keep the kernel sane.
use linux_like_os.Base.{
  ℕ, ◌<◌, ◌≤◌, ◌≡◌, refl, sym, subst, ◌∙◌, arith, Bool, false, ◌==◌, ◌||◌, if_both, ℤ, pos, negsuc,
  minus_one, pos_part, ltb_ℤ, none, List, length, set, length-set, Bool-cases, inl, inr,
}
use linux_like_os.Port.{Ports}
use linux_like_os.Screen.{putc, puts}
use linux_like_os.Screen.Invariant.{putc-OnScreen, puts-OnScreen}
use linux_like_os.FileSys.Descriptors.{Fds, fd_at, set_flags}
use linux_like_os.Terminal.{Console, clear_buffer, terminal_close}
use linux_like_os.Keyboard.{with_ports}
use linux_like_os.Boot.Ready.{clear_buffer-Bounded, ports-Bounded}
use linux_like_os.Process.{
  Kernel, Fops, rtc_fops, dir_fops, file_fops, terminal_fops, fops, current_pcb, current_fds,
  set_fds,
}
use linux_like_os.Process.Calls.{close, call_close}
use linux_like_os.Os.{with_console}
use linux_like_os.Os.Files.{Usable, set_above-Usable}
use linux_like_os.Os.Displays.{putc-SameDisplay, puts-SameDisplay, clear_buffer-display}
use linux_like_os.Os.Outcomes.{Gives, Gives-elim, nothing, result}
use linux_like_os.Os.Sane.{Sane, Calm, Sane-Calm, Aside, Aside-Sane, set_pcb-Sane}

pub console-Aside : (k : Kernel) (c : Console) → Calm c → Aside k (with_console c k)
console-Aside k c h = record {
  calm = h;
  sched_terminal = refl;
  progs = refl;
  pcbs = refl;
  new_pid = refl;
  terminal_array = refl;
  paging = refl;
  tss_esp0 = refl;
}

pub global-Aside :
    (k : Kernel) (fds : Fds) → Calm k.console → Aside k (record k { file_descriptor_array = fds })
global-Aside k fds h = record {
  calm = h;
  sched_terminal = refl;
  progs = refl;
  pcbs = refl;
  new_pid = refl;
  terminal_array = refl;
  paging = refl;
  tss_esp0 = refl;
}

pub ports-Calm : (f : Ports → Ports) (c : Console) → Calm c → Calm (with_ports f c)
ports-Calm f c h = record { bounded = ports-Bounded f c h.bounded; on_display = h.on_display }

pub clear_buffer-Calm : (c : Console) → Calm c → Calm (clear_buffer c)
clear_buffer-Calm c h = record {
  bounded = clear_buffer-Bounded c h.bounded;
  on_display = subst (λ t. t < 3) (sym (clear_buffer-display c)) h.on_display;
}

pub putc-Calm : (b : ℕ) (c : Console) → Calm c → Calm (record c { screen = putc b c.screen })
putc-Calm b c h = record {
  bounded = record {
    counts = h.bounded.counts;
    on_screen = putc-OnScreen b c.screen h.bounded.on_screen;
  };
  on_display = subst (λ t. t < 3) (sym (putc-SameDisplay b c.screen)) h.on_display;
}

pub puts-Calm : (t : List ℕ) (c : Console) → Calm c → Calm (record c { screen = puts t c.screen })
puts-Calm t c h = record {
  bounded = record {
    counts = h.bounded.counts;
    on_screen = puts-OnScreen t c.screen h.bounded.on_screen;
  };
  on_display = subst (λ t. t < 3) (sym (puts-SameDisplay t c.screen)) h.on_display;
}

-- The descriptors of the running process are replaced.
pub set_fds-Sane :
    (made : ℕ → Bool) (k : Kernel) (fds : Fds)
    → length fds ≡ 8
    → (Usable (current_fds k) → Usable fds)
    → Sane made k
    → Sane made (set_fds fds k)
set_fds-Sane made k fds e f s =
    set_pcb-Sane made k k.new_pid (record (current_pcb k) { systemcall_fd_array = fds })
      (record { size = e; own = refl; parent = refl; fds = f }) s

set_flags-Sane :
    (made : ℕ → Bool) (k : Kernel) (i f : ℕ)
    → 2 ≤ i
    → Sane made k
    → Sane made (set_fds (set_flags i f (current_fds k)) k)
unfolding set_flags
set_flags-Sane made k i f le s =
    set_fds-Sane made k (set (current_fds k) i (record (fd_at (current_fds k) i) { flags = f }))
      (length-set (current_fds k) i _ ∙ s.arrays _) (set_above-Usable (current_fds k) i _ le) s

call_close-Sane :
    (made : ℕ → Bool) (f : Fops) (fd : ℤ) (k : Kernel)
    → Sane made k
    → Sane made (call_close f fd k).1
unfolding call_close terminal_close
call_close-Sane made rtc_fops fd k s = s
call_close-Sane made dir_fops fd k s = Aside-Sane made k _ (global-Aside k _ (Sane-Calm made k s)) s
call_close-Sane made file_fops fd k s =
    Aside-Sane made k _ (global-Aside k _ (Sane-Calm made k s)) s
call_close-Sane made terminal_fops fd k s =
    Aside-Sane made k _
      (console-Aside k (clear_buffer k.console) (clear_buffer-Calm k.console (Sane-Calm made k s)))
      s

from_two : (fd : ℤ) → (ltb_ℤ fd (pos 2) || ltb_ℤ (pos 7) fd) ≡ false → 2 ≤ pos_part fd
from_two (pos n) e = ground (arith, e)
from_two (negsuc n) e = ground (arith, e)

pub close-Sane :
    (made : ℕ → Bool) (fd : ℤ) (k : Kernel)
    → Sane made k
    → Gives (λ (p : ℤ × Kernel). Sane made p.1) (close fd k)
unfolding close
close-Sane made fd k s = elim (Bool-cases (ltb_ℤ fd (pos 2) || ltb_ℤ (pos 7) fd)) [
  | inl e ↦ rw (e, close) (result _ s)
  | inr e ↦
      rw (e, close)
        (if_both (Gives (λ (p : ℤ × Kernel). Sane made p.1))
          ((fd_at (current_fds k) (pos_part fd)).flags == 0) (result (minus_one, k) s)
          (Gives-elim (λ (p : ℤ × Kernel). Sane made p.1) (fops _) none _ nothing
            (λ f _. result _ (
              call_close-Sane made f fd _
                (set_flags-Sane made k (pos_part fd) 0 (from_two fd e) s)))))
]
