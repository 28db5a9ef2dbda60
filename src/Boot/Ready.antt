-- ===== src/Boot/Ready.antt =====
-- The kernel as entry of student-distrib/kernel.c leaves it for the first program.
use linux_like_os.Base.{
  ℕ, ◌^◌, ◌<◌, ◌≡◌, refl, arith, ltb, ◌==◌, ◌&&◌, ◌||◌, ◌+◌, ◌*◌, if◌then◌else◌, for_range, true,
  false, some, minus_one, length,
}
use linux_like_os.Memory.{Mem}
use linux_like_os.Screen.{Screen, clear}
use linux_like_os.Screen.Invariant.{OnScreen, clear_screen-OnScreen}
use linux_like_os.Screen.Cells.{clear_lem}
use linux_like_os.Port.{Device, Ports}
use linux_like_os.Terminal.Line.{clear_buffer_lem}
use linux_like_os.Terminal.{Console, TerminalInfo, current, clear_buffer, reset_terminal, term_init}
use linux_like_os.Pic.{enable_irq, i8259_init}
use linux_like_os.Rtc.{rtc_init}
use linux_like_os.Keyboard.{keyboard_init, with_ports}
use linux_like_os.Keyboard.Buffer.{Bounded}
use linux_like_os.Paging.Translate.{physical, kernel_map, page_init-kernel_map}
use linux_like_os.Idt.Gates.{init_idt-gate, init_idt-handler, handler, offset}
use linux_like_os.Process.Life.{kernel_ds}
use linux_like_os.FileSys.Descriptors.{file_system_init}
use linux_like_os.Boot.Segments.{base}
use linux_like_os.Boot.Masks.{line_mask, set_up-mask_bit}
use linux_like_os.Pic.Masks.{ReadsBack, mask_bit}
use linux_like_os.Boot.Setup.{kernel_ldt, the_ldt_desc, the_tss_desc, set_params}
use linux_like_os.FileSys.Descriptors.{fd_at}
use linux_like_os.FileSys.Files.{file_system_init-flags}
use linux_like_os.Process.{Environment}
use linux_like_os.Boot.{MultibootInfo, nth_module, check_flag, multiboot_bootloader_magic}
use linux_like_os.Boot.Report.{MapFits, print_head-Goes, print_tail-Goes}
use linux_like_os.Boot.Setup.{
  Placement, Machine, ready, set_descriptors, set_files, set_terminals, set_up, show, boot_kernel,
}

-- Every buffer and cursor is in its bounds, interrupts are on, the first of three terminals
-- without a program is on display, addresses map as the kernel needs them, of the descriptors
-- just the first two are open, and every vector has its gate.
pub record Ready (a : Machine) : Type 0 where
  pub bounded : Bounded a.kernel.console
  pub interrupts : a.kernel.console.interrupts ≡ true
  pub on_display : current a.kernel.console ≡ 0
  pub off : (t : ℕ) → t < 3 → (a.kernel.terminal_array t).on_off_flag ≡ 0
  pub no_program : (t : ℕ) → t < 3 → (a.kernel.terminal_array t).terminal_current_pid ≡ minus_one
  pub mapped : (x : ℕ) → x < 2 ^ 32 → physical a.kernel.paging x ≡ kernel_map x
  pub descriptors :
      (i : ℕ) → i < 8 → (fd_at a.kernel.file_descriptor_array i).flags ≡ (if ltb i 2 then 1 else 0)
  pub gates : (j : ℕ) → j < 256 → (a.idt j).present ≡ 1
  pub user_gate : (j : ℕ) → j < 256 → (a.idt j).dpl ≡ (if j == 0x80 then 3 else 0)

term_init-off :
    (arr : ℕ → TerminalInfo) (t : ℕ)
    → t < 3
    → (((term_init arr).0 t).on_off_flag ≡ 0)
      × (((term_init arr).0 t).terminal_current_pid ≡ minus_one)
unfolding term_init reset_terminal for_range
term_init-off arr t lt = (ground (arith, lt), ground (arith, lt))

clear-OnScreen : (s : Screen) → OnScreen s → OnScreen (clear s)
clear-OnScreen s v = rw (clear_lem s) (record { columns = v.columns; rows = v.rows; ends = v.ends })

pub ports-Bounded : (f : Ports → Ports) (c : Console) → Bounded c → Bounded (with_ports f c)
ports-Bounded f c b = record {
  counts = b.counts;
  on_screen = record {
    columns = b.on_screen.columns;
    rows = b.on_screen.rows;
    ends = b.on_screen.ends;
  };
}

pub clear_buffer-Bounded : (c : Console) → Bounded c → Bounded (clear_buffer c)
clear_buffer-Bounded c b =
    rw (clear_buffer_lem c)
      (record { counts = λ t. ground (arith, b.counts t); on_screen = b.on_screen })

keyboard_init-Bounded : (dev : Device) (c : Console) → Bounded c → Bounded (keyboard_init dev c)
unfolding keyboard_init
keyboard_init-Bounded dev c b =
    let emptied =
      clear_buffer-Bounded (with_ports (enable_irq dev 1) c)
        (ports-Bounded (enable_irq dev 1) c b) in
    record {
      counts = emptied.counts;
      on_screen =
          clear_screen-OnScreen (clear_buffer (with_ports (enable_irq dev 1) c)).screen
            emptied.on_screen;
    }

set_up-Ready :
    (env : Environment) (p : Placement) (mbi : MultibootInfo) (a : Machine)
    → Bounded a.kernel.console
    → length a.kernel.file_descriptor_array ≡ 8
    → Ready (set_up env p mbi a)
unfolding set_up set_terminals set_files set_descriptors term_init
set_up-Ready env p mbi a b e = record {
  bounded = record {
    counts = keyboard.counts;
    on_screen = record {
      columns = keyboard.on_screen.columns;
      rows = keyboard.on_screen.rows;
      ends = keyboard.on_screen.ends;
    };
  };
  interrupts = refl;
  on_display = refl;
  off = λ t lt. (term_init-off a.kernel.terminal_array t lt).0;
  no_program = λ t lt. (term_init-off a.kernel.terminal_array t lt).1;
  mapped = λ x lt. page_init-kernel_map a.kernel.paging x lt;
  descriptors = λ i lt.
      (file_system_init-flags (nth_module mbi 0).mod_start env.fs.inode_count
        a.kernel.file_descriptor_array i e lt).0;
  gates = λ j lt. (init_idt-gate p.handlers a.idt j lt).0;
  user_gate = λ j lt. (init_idt-gate p.handlers a.idt j lt).2;
}
  where
    keyboard : Bounded (
        keyboard_init env.dev
          (with_ports (rtc_init env.dev) (with_ports i8259_init a.kernel.console)))
    keyboard =
        keyboard_init-Bounded env.dev _
          (ports-Bounded (rtc_init env.dev) _ (ports-Bounded i8259_init a.kernel.console b))

shown-Bounded :
    (s : Screen) (a : Machine)
    → OnScreen s
    → Bounded a.kernel.console
    → Bounded (show s a).kernel.console
shown-Bounded s a v b = record { counts = b.counts; on_screen = v }

-- Where the boot loader follows the standard, `entry` gets through its reports to the
-- initialisations, with something printed.
pub boot_kernel-set_up :
    (env : Environment) (p : Placement) (mbi : MultibootInfo) (a : Machine) (m : Mem)
    → (check_flag mbi.flags 4 && check_flag mbi.flags 5) ≡ false
    → MapFits mbi
    → OnScreen a.kernel.console.screen
    → (s : Screen) × OnScreen s
      × (boot_kernel env p multiboot_bootloader_magic mbi a m
          ≡ some (ready (set_up env p mbi (show s a))))
unfolding boot_kernel
boot_kernel-set_up env p mbi a m one fits v =
    let cleared = clear-OnScreen a.kernel.console.screen v in
    let (s1, e1, v1) = (print_head-Goes m mbi).goes (clear a.kernel.console.screen) cleared in
    let (s2, e2, v2) = (print_tail-Goes mbi fits).goes s1 v1 in
    (s2, v2, rw (e1, one, e2, boot_kernel) refl)

pub shown-Ready :
    (env : Environment) (p : Placement) (mbi : MultibootInfo) (a : Machine) (s : Screen)
    → OnScreen s
    → Bounded a.kernel.console
    → length a.kernel.file_descriptor_array ≡ 8
    → Ready (set_up env p mbi (show s a))
shown-Ready env p mbi a s v b e = set_up-Ready env p mbi (show s a) (shown-Bounded s a v b) e

-- What `entry` has installed: the segments and the stack of the task, the addresses of the file
-- system image behind the first module, the handlers, and the masks of the interrupt lines.
pub record Installed (p : Placement) (mbi : MultibootInfo) (inode_count reset : ℕ) (a : Machine)
    : Type 0 where
  pub tss_ss0 : a.kernel.tss_ss0 ≡ kernel_ds
  pub tss_esp0 : a.kernel.tss_esp0 ≡ 0x800000
  pub ldt_selector : a.ldt_segment_selector ≡ kernel_ldt
  pub tss_base : base a.tss_desc_ptr ≡ p.tss
  pub ldt_base : base a.ldt_desc_ptr ≡ p.ldt
  pub boot_block : a.pointers.boot_block_ptr ≡ (nth_module mbi 0).mod_start
  pub inodes : a.pointers.inode_ptr ≡ (nth_module mbi 0).mod_start + 4096
  pub dblocks : a.pointers.dblock_ptr ≡ (nth_module mbi 0).mod_start + 4096 * (inode_count + 1)
  pub handlers :
      (j : ℕ)
      → (ltb j 34 || (j == 0x28) || (j == 0x80)) ≡ true
      → offset (a.idt j) ≡ handler p.handlers j
  pub masks :
      (irq : ℕ) → irq < 16 → mask_bit reset irq a.kernel.console.screen.ports ≡ line_mask irq

-- The addresses that the linker has chosen have 32 bits.
pub record Placed (p : Placement) : Type 0 where
  pub tss : p.tss < 2 ^ 32
  pub ldt : p.ldt < 2 ^ 32
  pub handlers : (j : ℕ) → handler p.handlers j < 2 ^ 32

set_up-Installed :
    (env : Environment) (p : Placement) (mbi : MultibootInfo) (a : Machine) (reset : ℕ)
    → ReadsBack env.dev reset
    → Placed p
    → Installed p mbi env.fs.inode_count reset (set_up env p mbi a)
unfolding set_up set_terminals set_files set_descriptors file_system_init the_ldt_desc the_tss_desc
    set_params
set_up-Installed env p mbi a reset back placed = record {
  tss_ss0 = refl;
  tss_esp0 = refl;
  ldt_selector = refl;
  tss_base = ground (arith, placed.tss);
  ldt_base = ground (arith, placed.ldt);
  boot_block = refl;
  inodes = refl;
  dblocks = omega arith;
  handlers = λ j used. init_idt-handler p.handlers a.idt j used (placed.handlers j);
  masks = λ irq lt. set_up-mask_bit env p mbi a reset irq back lt;
}

-- Started by a boot loader that follows the standard and does not set bits 4 and 5 together,
-- with a memory map that stays in the address space, placed at addresses of 32 bits, and with
-- interrupt controllers whose masks read back, `entry` gets through all its reports to the end
-- of its initialisations: the buffers and cursors are in their bounds, interrupts are on, the
-- first of three terminals without a program is on display, the kernel's pages are mapped,
-- descriptors 0 and 1 are open, every vector has its gate, each that is used to its handler, of
-- the interrupt lines just those of the timer, the keyboard, the second controller and the clock
-- are enabled, the task state and its segments are set, and the file system is looked for at the
-- start of the first module.
pub boot_kernel-Ready :
    (env : Environment) (p : Placement) (mbi : MultibootInfo) (a : Machine) (m : Mem) (reset : ℕ)
    → (check_flag mbi.flags 4 && check_flag mbi.flags 5) ≡ false
    → MapFits mbi
    → Placed p
    → ReadsBack env.dev reset
    → Bounded a.kernel.console
    → length a.kernel.file_descriptor_array ≡ 8
    → (a' : Machine) × (boot_kernel env p multiboot_bootloader_magic mbi a m ≡ some (ready a'))
      × Ready a'
      × Installed p mbi env.fs.inode_count reset a'
boot_kernel-Ready env p mbi a m reset one fits placed back b e =
    let (s, v, goes) = boot_kernel-set_up env p mbi a m one fits b.on_screen in
    (
      set_up env p mbi (show s a),
      goes,
      shown-Ready env p mbi a s v b e,
      set_up-Installed env p mbi (show s a) reset back placed,
    )
