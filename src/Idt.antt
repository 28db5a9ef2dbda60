-- ===== src/Idt.antt =====
-- student-distrib/idt.c: the interrupt descriptor table. The addresses of the handlers are the
-- linker's: they are parameters.
pub mod Texts
pub mod Gates
pub mod Exceptions
mod Examples
use linux_like_os.Base.{
  ℕ, ◌+◌, ◌-◌, ◌*◌, ◌/◌, ◌%◌, ◌^◌, ltb, ◌==◌, if◌then◌else◌, update, for_range, ◌||◌,
}

abbrev pub num_vec : ℕ
num_vec = 256

abbrev pub kernel_cs : ℕ
kernel_cs = 0x0010

abbrev pub sys_call : ℕ
sys_call = 0x80

-- `idt_desc_t`
pub record IdtDesc : Type 0 where
  pub offset_15_00 : ℕ
  pub seg_selector : ℕ
  pub reserved4 : ℕ
  pub reserved3 : ℕ
  pub reserved2 : ℕ
  pub reserved1 : ℕ
  pub size : ℕ
  pub reserved0 : ℕ
  pub dpl : ℕ
  pub present : ℕ
  pub offset_31_16 : ℕ

abbrev pub Idt : Type 0
Idt = ℕ → IdtDesc

-- The addresses of the functions that are put in the table; they have 32 bits.
pub record Handlers : Type 0 where
  pub exception : ℕ → ℕ
  pub systemcall_wrapper : ℕ
  pub kb_wrapper : ℕ
  pub rtc_wrapper : ℕ
  pub pit_wrapper : ℕ

-- One round of the loop over the 256 entries.
unfoldable pub init_gate : ℕ → Idt → Idt
init_gate i idt = update idt i (record (idt i) {
  seg_selector = kernel_cs;
  present = 1;
  reserved0 = 0;
  size = 1;
  reserved1 = 1;
  reserved2 = 1;
  reserved3 = if ltb i 32 || (i == sys_call) then 1 else 0;
  reserved4 = 0;
  dpl = if i == sys_call then 3 else 0;
})

-- `SET_IDT_ENTRY`
unfoldable pub set_idt_entry : ℕ → (handler : ℕ) → Idt → Idt
set_idt_entry i handler idt =
    update idt i
      (record (idt i) { offset_31_16 = handler / 2 ^ 16 % 2 ^ 16; offset_15_00 = handler % 2 ^ 16 })

-- The twenty entries that the source writes one after the other, and the loop over 0x14 to 0x1F.
unfoldable pub set_exception : Handlers → ℕ → Idt → Idt
set_exception h i idt = set_idt_entry i (h.exception i) idt

unfoldable pub clear_entry : ℕ → Idt → Idt
clear_entry i idt = set_idt_entry i 0 idt

unfoldable pub init_idt : Handlers → Idt → Idt
init_idt h idt = set_idt_entry 0x20 h.pit_wrapper (
    set_idt_entry 0x28 h.rtc_wrapper (
      set_idt_entry 0x21 h.kb_wrapper (
        set_idt_entry sys_call h.systemcall_wrapper (
          for_range 12 0x14 clear_entry
            (for_range 20 0 (set_exception h) (for_range num_vec 0 init_gate idt))))))
