-- ===== src/Boot/Sample.antt =====
-- A machine on which the start-up runs.
use linux_like_os.Base.{◌+◌, arith, [], replicate}
use linux_like_os.Keyboard.Buffer.{Bounded}
use linux_like_os.FileSys.Descriptors.{no_descriptor}
use linux_like_os.Pic.Masks.{mask_register}
use linux_like_os.Process.{Environment}
use linux_like_os.Process.Sample.{busy, disk}
use linux_like_os.Boot.{MultibootInfo}
use linux_like_os.Boot.Report.{MapFits}
use linux_like_os.Boot.Setup.{SegDesc, Placement, Machine}

abbrev pub segment : SegDesc
segment = record {
  seg_lim_15_00 = 0;
  base_15_00 = 0;
  base_23_16 = 0;
  type = 0;
  sys = 0;
  dpl = 0;
  present = 0;
  seg_lim_19_16 = 0;
  avail = 0;
  reserved = 0;
  opsize = 0;
  granularity = 0;
  base_31_24 = 0;
}

abbrev pub placed : Placement
placed = record {
  handlers = record {
    exception = λ i. 0x400100 + i;
    systemcall_wrapper = 0x400200;
    kb_wrapper = 0x400300;
    rtc_wrapper = 0x400400;
    pit_wrapper = 0x400500;
  };
  ldt = 0x401000;
  ldt_size = 0x4F;
  tss = 0x402000;
  tss_size = 104;
}

abbrev pub machine : Machine
machine = record {
  kernel = record busy { file_descriptor_array = replicate 8 no_descriptor };
  idt = λ i. record {
    offset_15_00 = 0;
    seg_selector = 0;
    reserved4 = 0;
    reserved3 = 0;
    reserved2 = 0;
    reserved1 = 0;
    size = 0;
    reserved0 = 0;
    dpl = 0;
    present = 0;
    offset_31_16 = 0;
  };
  ldt_desc_ptr = segment;
  tss_desc_ptr = segment;
  ldt_segment_selector = 0;
  pointers = record { boot_block_ptr = 0; inode_ptr = 0; dblock_ptr = 0 };
}

-- Interrupt controllers that answer with their masks.
abbrev pub wired : Environment
wired = record disk { dev = λ io port. mask_register 255 port io }

-- One module, and a memory map of 24 bytes.
abbrev pub info : MultibootInfo
info = record {
  flags = 0x49;
  mem_lower = 639;
  mem_upper = 130048;
  boot_device = 0x8000FFFF;
  cmdline = [];
  mods_count = 1;
  mods_addr = 0x8000;
  module_at = λ a. record { mod_start = 0x500000; mod_end = 0x57C000 };
  elf_sec = record { num = 0; size = 0; addr = 0; shndx = 0 };
  mmap_length = 24;
  mmap_addr = 0x9000;
  mmap_at = λ a. record {
    size = 20;
    base_addr_low = 0;
    base_addr_high = 0;
    length_low = 0x9FC00;
    length_high = 0;
    type = 1;
  };
}

pub info-MapFits : MapFits info
info-MapFits = record { whole = omega arith; steps = λ a lt. omega (arith, lt) }

pub machine-Bounded : Bounded machine.kernel.console
machine-Bounded = record {
  counts = λ t. omega arith;
  on_screen = record {
    columns = λ t. omega arith;
    rows = λ t. omega arith;
    ends = λ r lt. omega arith;
  };
}
