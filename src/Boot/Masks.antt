-- ===== src/Boot/Masks.antt =====
-- The interrupt lines that student-distrib/kernel.c leaves enabled.
use linux_like_os.Base.{
  ℕ, ◌-◌, ◌^◌, ◌/◌, ◌%◌, ◌<◌, ◌≡◌, refl, arith, ltb, leb, ◌==◌, ◌||◌, if◌then◌else◌, true,
  passes_below, passes_below_each, ==_iff,
}
use linux_like_os.Port.{Device, Ports}
use linux_like_os.Pic.{unmasked, enable_irq, i8259_init, data_port, line}
use linux_like_os.Pic.Masks.{mask_register, mask_bit, ReadsBack, in_register, unmasked-lt}
use linux_like_os.Rtc.{rtc_init}
use linux_like_os.Screen.{clear_screen, update_cursor}
use linux_like_os.Screen.Cells.{clear_lem}
use linux_like_os.Terminal.{Console}
use linux_like_os.Terminal.Line.{clear_buffer_lem}
use linux_like_os.Keyboard.{keyboard_init, with_ports}
use linux_like_os.Process.{Environment}
use linux_like_os.Boot.{MultibootInfo}
use linux_like_os.Boot.Setup.{Placement, Machine, set_up, set_terminals, set_files, set_descriptors}
use linux_like_os.Scheduler.{pit_init}

-- The mask registers of the two controllers.
record Masks (reset : ℕ) (io : Ports) (master slave : ℕ) : Type 0 where
  first : mask_register reset 0x21 io ≡ master
  second : mask_register reset 0xA1 io ≡ slave

i8259_init-Masks : (reset : ℕ) (io : Ports) → Masks reset (i8259_init io) 0xFB 0xFF
unfolding i8259_init
i8259_init-Masks reset io = record { first = refl; second = refl }

module _ (dev : Device) (reset : ℕ) (back : ReadsBack dev reset) where
  enable_irq-mask_register :
      (irq port : ℕ) (io : Ports)
      → mask_register reset (data_port irq) io < 256
      → mask_register reset port (enable_irq dev irq io) ≡ (
          if data_port irq == port
          then unmasked (mask_register reset (data_port irq) io) (line irq)
          else mask_register reset port io)
  enable_irq-mask_register irq port io small =
      unfold enable_irq in
      rw (in_register dev reset irq io back small)
        (ground (arith, unmasked-lt (mask_register reset (data_port irq) io) (line irq)))

  -- Enabling a line of the first controller, and the clock's of the second.
  first_enabled :
      (irq : ℕ) (io : Ports) (a b : ℕ)
      → (data_port irq ≡ 0x21) × (line irq ≡ irq)
      → a < 256
      → Masks reset io a b
      → Masks reset (enable_irq dev irq io) (unmasked a irq) b
  first_enabled irq io a b (port, same) small k = record {
    first =
        rw (enable_irq-mask_register irq 0x21 io (rw (port, k.first) small), port, same, k.first)
          refl;
    second = rw (enable_irq-mask_register irq 0xA1 io (rw (port, k.first) small), port) k.second;
  }

  clock_enabled :
      (io : Ports) (a b : ℕ)
      → b < 256
      → Masks reset io a b
      → Masks reset (enable_irq dev 8 io) a (unmasked b 0)
  clock_enabled io a b small k = record {
    first = rw (enable_irq-mask_register 8 0x21 io (rw (k.second) small)) k.first;
    second = rw (enable_irq-mask_register 8 0xA1 io (rw (k.second) small), k.second) refl;
  }

  rtc_init-Masks : (io : Ports) → Masks reset io 0xFB 0xFF → Masks reset (rtc_init dev io) 0xFB 0xFE
  unfolding rtc_init unmasked
  rtc_init-Masks io k =
      let e = clock_enabled io 0xFB 0xFF (omega arith) k in
      clock_enabled _ 0xFB 0xFE (omega arith) (record { first = e.first; second = e.second })

  pit_init-Masks : (io : Ports) → Masks reset io 0xF9 0xFE → Masks reset (pit_init dev io) 0xF8 0xFE
  unfolding pit_init unmasked
  pit_init-Masks io k =
      first_enabled 0 _ 0xF9 0xFE (refl, refl) (omega arith)
        (record { first = k.first; second = k.second })

  keyboard_init-Masks :
      (c : Console)
      → Masks reset c.screen.ports 0xFB 0xFE
      → Masks reset (keyboard_init dev c).screen.ports 0xF9 0xFE
  unfolding keyboard_init clear_screen update_cursor unmasked
  keyboard_init-Masks c k =
      let e = first_enabled 1 c.screen.ports 0xFB 0xFE (refl, refl) (omega arith) k in
      rw
        (
          clear_buffer_lem (with_ports (enable_irq dev 1) c),
          clear_lem (with_ports (enable_irq dev 1) c).screen,
        )
        (record { first = e.first; second = e.second })

lines :
    passes_below 16 (λ i.
      (if ltb i 8 then 0xF8 / 2 ^ i % 2 else 0xFE / 2 ^ (i - 8) % 2)
      == (if leb i 2 || (i == 8) then 0 else 1))
    ≡ true
unfolding passes_below
lines = refl

-- The timer, the keyboard, the cascade of the second controller and the clock.
abbrev pub line_mask : ℕ → ℕ
line_mask irq = if leb irq 2 || (irq == 8) then 0 else 1

Masks-mask_bit :
    (reset : ℕ) (io : Ports) (irq : ℕ)
    → Masks reset io 0xF8 0xFE
    → irq < 16
    → mask_bit reset irq io ≡ line_mask irq
Masks-mask_bit reset io irq k lt =
    let e = (==_iff _ _).0 (passes_below_each 16 _ irq lines lt) in
    ground (arith, k.first, k.second, e)

-- The initialisations that enable a line are those of the clock, the keyboard and the timer.
pub set_up-mask_bit :
    (env : Environment) (p : Placement) (mbi : MultibootInfo) (a : Machine) (reset irq : ℕ)
    → ReadsBack env.dev reset
    → irq < 16
    → mask_bit reset irq (set_up env p mbi a).kernel.console.screen.ports ≡ line_mask irq
unfolding set_up set_terminals set_files set_descriptors
set_up-mask_bit env p mbi a reset irq back lt =
    Masks-mask_bit reset _ irq
      (pit_init-Masks env.dev reset back _ (
        keyboard_init-Masks env.dev reset back
          (with_ports (rtc_init env.dev) (with_ports i8259_init a.kernel.console))
          (rtc_init-Masks env.dev reset back _
            (i8259_init-Masks reset a.kernel.console.screen.ports))))
      lt
