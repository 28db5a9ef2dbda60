-- ===== src/Rtc.antt =====
-- student-distrib/rtc.c: the real-time clock.
pub mod Rate
mod Examples
use linux_like_os.Base.{
  ℕ, zero, suc, ◌+◌, ◌-◌, ◌/◌, ◌%◌, ◌^◌, ltb, ◌==◌, if◌then◌else◌, ◌||◌, bit_and, bit_or, Bool,
  true, false, Option, none, some, List, [], ◌∷◌, get_elem?, ℤ, pos, minus_one, eqb_ℤ, not,
}
use linux_like_os.Port.{Ports, Device, outb, inb, after_inb}
use linux_like_os.Pic.{enable_irq, send_eoi}

abbrev pub rtc_irq : ℕ
rtc_irq = 8

abbrev pub cmos_port : ℕ
cmos_port = 0x70

abbrev pub cmos_data_port : ℕ
cmos_data_port = 0x71

abbrev pub status_reg_a : ℕ
status_reg_a = 0x8A

abbrev pub reg_b : ℕ
reg_b = 0x8B

-- Reading the register, and writing a byte computed from it: the index is set before each.
abbrev pub select_read : Device → ℕ → Ports → ℕ
select_read dev reg io = inb dev cmos_data_port (outb reg cmos_port io)

abbrev pub update_register : Device → ℕ → (ℕ → ℕ) → Ports → Ports
update_register dev reg f io =
    outb (f (select_read dev reg io)) cmos_data_port
      (outb reg cmos_port (after_inb cmos_data_port (outb reg cmos_port io)))

-- `(prev & 0xF0) | rs`
unfoldable pub with_rate : ℕ → ℕ → ℕ
with_rate rs prev = bit_or (bit_and prev 0xF0) rs

unfoldable pub rtc_init : Device → Ports → Ports
rtc_init dev io =
    let enabled = enable_irq dev rtc_irq io in
    let periodic = update_register dev reg_b (λ prev. bit_or prev 0x40) enabled in
    enable_irq dev rtc_irq (update_register dev status_reg_a (with_rate 0x0F) periodic)

-- `rtc_interrupt_received` and the accesses to the ports; register C is read to acknowledge.
unfoldable pub rtc_irq_handler : ℕ → Ports → ℕ × Ports
rtc_irq_handler received io =
    (1, send_eoi rtc_irq (after_inb cmos_data_port (outb 0x0C cmos_port io)))

-- The argument says whether `filename` is not the null pointer.
unfoldable pub rtc_open : Device → Bool → Ports → ℤ × Ports
rtc_open dev false io = (minus_one, io)
rtc_open dev true io =
    (pos 0, enable_irq dev rtc_irq (update_register dev status_reg_a (with_rate 0x0F) io))

unfoldable pub rtc_close : (fd : ℤ) → ℤ
rtc_close fd = pos 0

-- `rtc_read` spins until the handler has set the flag: `ticks` says, for each look at the flag,
-- whether the handler ran before it. `none` is to spin on when they are used up. Result and flag.
unfoldable pub rtc_read : (received : ℕ) → List Bool → Option (ℤ × ℕ)
rtc_read received [] = none
rtc_read received (tick ∷ ticks) =
    let flag = if tick then 1 else received in
    let rest = rtc_read flag ticks in if flag == 0 then rest else some (pos 0, 0)

-- The loop over the bits of the rate, with `rounds` left: the count of set bits, and the index of
-- the highest.
unfoldable pub scan_bits : (rate rounds i exponent_2 index : ℕ) → ℕ × ℕ
scan_bits rate zero i exponent_2 index = (exponent_2, index)
scan_bits rate (suc rounds) i exponent_2 index =
    let set = rate / 2 ^ i % 2 == 1 in
    scan_bits rate rounds (i + 1) (if set then exponent_2 + 1 else exponent_2)
      (if set then i else index)

abbrev pub freq_values : List ℕ
freq_values = 0x0F ∷ 0x0E ∷ 0x0D ∷ 0x0C ∷ 0x0B ∷ 0x0A ∷ 0x09 ∷ 0x08 ∷ 0x07 ∷ 0x06 ∷ []

-- The rate selection bits, or `none` where the rate is refused.
unfoldable pub rate_select : ℕ → Option ℕ
rate_select rate =
    let (exponent_2, index) = scan_bits rate 32 0 0 0 in
    if ltb rate 2 || ltb 1024 rate || not (exponent_2 == 1)
    then none
    else get_elem? freq_values (index - 1)

-- `buf` is the word that it points to, or `none` as the null pointer.
unfoldable pub rtc_write : Device → Option ℕ → (nbytes : ℤ) → Ports → ℤ × Ports
rtc_write dev none nbytes io = (minus_one, io)
rtc_write dev (some rate) nbytes io =
    if eqb_ℤ nbytes (pos 4)
    then (elim (rate_select rate) [
      | none ↦ (minus_one, io)
      | some rs ↦ (pos 0, update_register dev status_reg_a (with_rate rs) io)
    ])
    else (minus_one, io)
