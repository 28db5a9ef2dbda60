-- ===== src/Pic.antt =====
-- student-distrib/i8259.c: the two cascaded interrupt controllers.
pub mod Masks
mod Examples
use linux_like_os.Base.{
  ℕ, ◌+◌, ◌-◌, ◌*◌, ◌/◌, ◌%◌, ◌^◌, ltb, if◌then◌else◌, bit_and, bit_or, List, [], ◌∷◌,
}
use linux_like_os.Port.{Ports, Device, outb, inb, after_inb}

abbrev pub master_irqs : ℕ
master_irqs = 8

abbrev pub master_mask_pic : ℕ
master_mask_pic = 0xFB

abbrev pub slave_mask_pic : ℕ
slave_mask_pic = 0xFF

-- `EOI`
abbrev pub eoi : ℕ
eoi = 0x60

unfoldable pub i8259_init : Ports → Ports
i8259_init io = outb slave_mask_pic 0xA1 (
    outb master_mask_pic 0x21 (
      outb 0x01 0xA1 (
        outb 0x01 0x21 (
          outb 0x02 0xA1 (
            outb 0x04 0x21
              (outb 0x28 0xA1 (outb 0x20 0x21 (outb 0x11 0xA0 (outb 0x11 0x20 io)))))))))

-- The data port and the line within its controller.
abbrev pub data_port : ℕ → ℕ
data_port irq_num = if ltb irq_num master_irqs then 0x21 else 0xA1

abbrev pub line : ℕ → ℕ
line irq_num = if ltb irq_num master_irqs then irq_num else irq_num - master_irqs

-- `value & ~(1 << irq_num)` on 32 bits, stored in a byte.
unfoldable pub unmasked : ℕ → ℕ → ℕ
unmasked value irq_num = bit_and value (2 ^ 32 - 1 - 2 ^ irq_num) % 2 ^ 8

unfoldable pub masked : ℕ → ℕ → ℕ
masked value irq_num = bit_or value (2 ^ irq_num) % 2 ^ 8

unfoldable pub enable_irq : Device → ℕ → Ports → Ports
enable_irq dev irq_num io =
    outb (unmasked (inb dev (data_port irq_num) io) (line irq_num)) (data_port irq_num)
      (after_inb (data_port irq_num) io)

unfoldable pub disable_irq : Device → ℕ → Ports → Ports
disable_irq dev irq_num io =
    outb (masked (inb dev (data_port irq_num) io) (line irq_num)) (data_port irq_num)
      (after_inb (data_port irq_num) io)

unfoldable pub send_eoi : ℕ → Ports → Ports
send_eoi irq_num io =
    if ltb irq_num master_irqs
    then outb (bit_or eoi irq_num) 0x20 io
    else outb (bit_or eoi 2) 0x20 (outb (bit_or eoi (irq_num - master_irqs)) 0xA0 io)
