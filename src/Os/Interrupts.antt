-- ===== src/Os/Interrupts.antt =====
-- The handlers of the clock and of the exceptions, in rtc.c and idt.c of student-distrib, keep the
-- kernel sane.
use linux_like_os.Base.{ℕ, refl, sym, subst, Bool, Option, none, some, Option-cases, inl, inr}
use linux_like_os.Memory.{Mem}
use linux_like_os.Rtc.{rtc_irq_handler}
use linux_like_os.Terminal.{Console}
use linux_like_os.Process.{Kernel, Environment}
use linux_like_os.Process.Life.{Ending}
use linux_like_os.Idt.Texts.{exception_text}
use linux_like_os.Idt.Exceptions.{Handled, ignored, halted, exception_handler}
use linux_like_os.Idt.Exceptions.Reports.{as_halted, handler-text, handler-none}
use linux_like_os.Os.{with_console, clock}
use linux_like_os.Os.Outcomes.{Gives, nothing, result}
use linux_like_os.Os.Sane.{Sane, Calm, Sane-Calm, Aside-Sane}
use linux_like_os.Os.Calls.{console-Aside, ports-Calm, puts-Calm}
use linux_like_os.Os.Endings.{EndsSane, ended}
use linux_like_os.Os.Halting.{halt-Sane}

pub console-Sane :
    (made : ℕ → Bool) (k : Kernel) (c : Console)
    → Calm c
    → Sane made k
    → Sane made (with_console c k)
console-Sane made k c h s = Aside-Sane made k (with_console c k) (console-Aside k c h) s

pub flags-Calm : (b : Bool) (c : Console) → Calm c → Calm (record c { interrupts = b })
flags-Calm b c h = record {
  bounded = record { counts = h.bounded.counts; on_screen = h.bounded.on_screen };
  on_display = h.on_display;
}

pub clock-Sane : (made : ℕ → Bool) (k : Kernel) → Sane made k → Sane made (clock k)
unfolding clock
clock-Sane made k s =
    let h =
      ports-Calm (λ old. (rtc_irq_handler k.rtc_interrupt_received old).1) k.console
        (Sane-Calm made k s) in
    Aside-Sane made k (clock k)
      (record {
        calm = h;
        sched_terminal = refl;
        progs = refl;
        pcbs = refl;
        new_pid = refl;
        terminal_array = refl;
        paging = refl;
        tss_esp0 = refl;
      })
      s

abbrev pub handled_kernel : Kernel → Handled → Kernel
handled_kernel k ignored = k
handled_kernel k (halted ending) = ended ending

-- The kernel is sane where an exception has been handled.
pub record HandledSane (k : Kernel) (h : Handled) : Type 0 where
  pub made : ℕ → Bool
  pub sane : Sane made (handled_kernel k h)

halted-Sane :
    (k : Kernel) (o : Option Ending) → Gives EndsSane o → Gives (HandledSane k) (as_halted o)
halted-Sane k none g = nothing
halted-Sane k (some ending) g =
    result (halted ending) (record { made = g.all.made; sane = g.all.sane })

pub exception_handler-Sane :
    (made : ℕ → Bool) (env : Environment) (esp ebp before : ℕ) (stack : Mem) (i : ℕ) (k : Kernel)
    (m : Mem)
    → Sane made k
    → Gives (HandledSane k) (exception_handler env esp ebp before stack i k m)
exception_handler-Sane made env esp ebp before stack i k m s =
    elim (Option-cases (exception_text i)) [
      | inl e ↦
          subst (Gives (HandledSane k)) (sym (handler-none env esp ebp before stack i k m e))
            (result ignored (record { made = made; sane = s }))
      | inr (t, e) ↦
          subst (Gives (HandledSane k)) (sym (handler-text env esp ebp before stack i k m t e)) (
            halted-Sane k _ (
              halt-Sane made env esp ebp before stack 111 _ m
                (console-Sane made k _ (puts-Calm t k.console (Sane-Calm made k s)) s)))
    ]
