-- ===== src/Pic/Examples.antt =====
-- Runs of the interrupt controllers.
use linux_like_os.Base.{◌≡◌, refl, arith, []}
use linux_like_os.Port.{Device}
use linux_like_os.Pic.{enable_irq}
use linux_like_os.Pic.Masks.{mask_register, mask_bit, enable_irq-mask_bit}

-- Controllers that answer with their masks, all lines masked at first.
abbrev answering : Device
answering io port = mask_register 255 port io

enable_irq-mask_bit_example : mask_bit 255 3 (enable_irq answering 1 []) ≡ mask_bit 255 3 []
enable_irq-mask_bit_example =
    enable_irq-mask_bit answering 255 1 3 [] (λ irq io. refl) (omega arith) (omega arith)
      (omega arith)
