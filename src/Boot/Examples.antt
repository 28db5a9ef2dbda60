-- ===== src/Boot/Examples.antt =====
-- A run of the start-up.
use linux_like_os.Base.{◌≡◌, refl, some, arith}
use linux_like_os.Process.Sample.{zeros}
use linux_like_os.Boot.{multiboot_bootloader_magic}
use linux_like_os.Boot.Setup.{Machine, ready, boot_kernel}
use linux_like_os.Boot.Ready.{Ready, Placed, Installed, boot_kernel-Ready}
use linux_like_os.Boot.Sample.{wired, placed, machine, info, info-MapFits, machine-Bounded}

placed-Placed : Placed placed
placed-Placed = record { tss = omega arith; ldt = omega arith; handlers = λ j. ground arith }

boot_kernel-Ready_example :
    (a' : Machine) × (boot_kernel wired placed multiboot_bootloader_magic info machine zeros
      ≡ some (ready a'))
    × Ready a'
    × Installed placed info 1 255 a'
boot_kernel-Ready_example =
    boot_kernel-Ready wired placed info machine zeros 255 refl info-MapFits placed-Placed
      (λ irq io. refl) machine-Bounded refl
