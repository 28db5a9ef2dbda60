-- ===== src/Rtc/Examples.antt =====
-- Runs of the real-time clock.
use linux_like_os.Base.{◌/◌, ◌%◌, ◌≡◌, arith, [], ◌∷◌, pos, some}
use linux_like_os.Port.{Device, wrote, was_read}
use linux_like_os.Rtc.{rtc_write, select_read, status_reg_a}
use linux_like_os.Rtc.Rate.{frequency, register_a, rtc_write-power}

abbrev clock : Device
clock io port = 0x26

rtc_write-power_example :
    (rtc_write clock (some 1024) (pos 4) [] ≡ (
      pos 0,
      wrote (register_a clock 6 [] % 256) 0x71
          ∷ wrote 0x8A 0x70
          ∷ was_read 0x71
          ∷ wrote 0x8A 0x70
          ∷ [],
    ))
    × (frequency (register_a clock 6 [] % 16) ≡ 1024)
    × (register_a clock 6 [] / 16 ≡ select_read clock status_reg_a [] / 16)
rtc_write-power_example = rtc_write-power clock 9 [] (omega arith)
