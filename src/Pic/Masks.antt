-- ===== src/Pic/Masks.antt =====
-- Enabling and disabling an interrupt changes its own mask bit only.
use linux_like_os.Base.{
  ℕ, ◌+◌, ◌-◌, ◌/◌, ◌%◌, ◌^◌, ◌<◌, ◌≡◌, refl, ltb, ◌==◌, if◌then◌else◌, true, passes_below,
  passes_below_each, ==_iff, bit_or, [], ◌∷◌, arith,
}
use linux_like_os.Port.{Ports, Device, wrote, was_read, outb, inb, after_inb}
use linux_like_os.Pic.{unmasked, masked, enable_irq, disable_irq, send_eoi, data_port, line}

-- The interrupt mask register of a controller as its manual describes it: after initialisation a
-- write to the data port sets it, and a read returns it. `reset` is its value before any write.
abbrev pub mask_register : ℕ → ℕ → Ports → ℕ
mask_register reset port [] = reset
mask_register reset port (wrote v p ∷ io) = if p == port then v else mask_register reset port io
mask_register reset port (was_read p ∷ io) = mask_register reset port io

abbrev pub ReadsBack : Device → ℕ → Type 0
ReadsBack dev reset =
    (irq : ℕ) (io : Ports) → dev io (data_port irq) ≡ mask_register reset (data_port irq) io

-- Whether line `irq` is masked: bit `irq % 8` of its controller's register.
abbrev pub mask_bit : ℕ → ℕ → Ports → ℕ
mask_bit reset irq io = mask_register reset (data_port irq) io / 2 ^ line irq % 2

abbrev bit : ℕ → ℕ → ℕ
bit v b = v / 2 ^ b % 2

unmask_table :
    passes_below 256 (λ v.
      passes_below 8
        (λ i. passes_below 8 (λ b. bit (unmasked v i) b == (if b == i then 0 else bit v b))))
    ≡ true
unfolding passes_below unmasked
unmask_table = refl

mask_table :
    passes_below 256 (λ v.
      passes_below 8
        (λ i. passes_below 8 (λ b. bit (masked v i) b == (if b == i then 1 else bit v b))))
    ≡ true
unfolding passes_below masked
mask_table = refl

bit-unmasked :
    (v i b : ℕ) → v < 256 → i < 8 → b < 8 → bit (unmasked v i) b ≡ (if b == i then 0 else bit v b)
bit-unmasked v i b hv hi hb = (==_iff _ _).0 (
    passes_below_each 8 _ b (passes_below_each 8 _ i (passes_below_each 256 _ v unmask_table hv) hi)
      hb)

bit-masked :
    (v i b : ℕ) → v < 256 → i < 8 → b < 8 → bit (masked v i) b ≡ (if b == i then 1 else bit v b)
bit-masked v i b hv hi hb = (==_iff _ _).0 (
    passes_below_each 8 _ b (passes_below_each 8 _ i (passes_below_each 256 _ v mask_table hv) hi)
      hb)

pub unmasked-lt : (v i : ℕ) → unmasked v i < 256
unfolding unmasked
unmasked-lt v i = omega arith

masked-lt : (v i : ℕ) → masked v i < 256
unfolding masked
masked-lt v i = omega arith

-- Writing `w` to the data port of line `irq`.
mask_bit-write :
    (reset irq other w f : ℕ) (io : Ports)
    → w < 256
    → irq < 16
    → other < 16
    → ((b : ℕ)
        → b < 8
        → bit w b ≡ (if b == line irq then f else bit (mask_register reset (data_port irq) io) b))
    → mask_bit reset other (outb w (data_port irq) (after_inb (data_port irq) io))
      ≡ (if other == irq then f else mask_bit reset other io)
mask_bit-write reset irq other w f io hw hi ho bits = ground (arith, bits (line other))

pub in_register :
    (dev : Device) (reset irq : ℕ) (io : Ports)
    → ReadsBack dev reset
    → mask_register reset (data_port irq) io < 256
    → inb dev (data_port irq) io ≡ mask_register reset (data_port irq) io
in_register dev reset irq io back small = rw (back irq io) (omega arith)

module _ (dev : Device) (reset irq other : ℕ) (io : Ports) where
  -- With controllers whose masks read back, `enable_irq` clears the mask bit of its line and keeps
  -- those of the fifteen others.
  pub enable_irq-mask_bit :
      ReadsBack dev reset
      → mask_register reset (data_port irq) io < 256
      → irq < 16
      → other < 16
      → mask_bit reset other (enable_irq dev irq io)
        ≡ (if other == irq then 0 else mask_bit reset other io)
  enable_irq-mask_bit back small hi ho =
      unfold enable_irq in
      rw (in_register dev reset irq io back small) (
        mask_bit-write reset irq other
          (unmasked (mask_register reset (data_port irq) io) (line irq)) 0 io (unmasked-lt _ _) hi
          ho (λ b hb. bit-unmasked _ (line irq) b small (ground arith) hb))

  -- `disable_irq` sets it, and keeps the others.
  pub disable_irq-mask_bit :
      ReadsBack dev reset
      → mask_register reset (data_port irq) io < 256
      → irq < 16
      → other < 16
      → mask_bit reset other (disable_irq dev irq io)
        ≡ (if other == irq then 1 else mask_bit reset other io)
  disable_irq-mask_bit back small hi ho =
      unfold disable_irq in
      rw (in_register dev reset irq io back small) (
        mask_bit-write reset irq other (masked (mask_register reset (data_port irq) io) (line irq))
          1 io (masked-lt _ _) hi ho (λ b hb. bit-masked _ (line irq) b small (ground arith) hb))

-- The command that ends an interrupt: a specific end-of-interrupt byte names the line.
eoi_table : passes_below 8 (λ i. bit_or 0x60 i == 0x60 + i) ≡ true
unfolding passes_below
eoi_table = refl

-- `send_eoi` ends a master interrupt by one command to the master; a slave interrupt by a command
-- to the slave for its own line, then one to the master for the cascade line 2.
pub send_eoi_lem :
    (irq : ℕ) (io : Ports)
    → irq < 16
    → send_eoi irq io ≡ (
        if ltb irq 8
        then wrote (0x60 + irq) 0x20 ∷ io
        else wrote 0x62 0x20 ∷ wrote (0x60 + (irq - 8)) 0xA0 ∷ io)
unfolding send_eoi
send_eoi_lem irq io h = ground (
  arith,
  (λ (k : irq < 8). (==_iff _ _).0 (passes_below_each 8 _ irq eoi_table k)),
  (λ (k : irq - 8 < 8). (==_iff _ _).0 (passes_below_each 8 _ (irq - 8) eoi_table k)),
)
