-- ===== src/Boot/Setup.antt =====
-- student-distrib/kernel.c: the descriptors of the local table and of the task state, and the
-- order in which entry sets up the parts of the kernel.
use linux_like_os.Base.{ℕ, ◌/◌, ◌%◌, ◌^◌, ◌==◌, ◌&&◌, if◌then◌else◌, Option, none, some, [], ◌∷◌}
use linux_like_os.Memory.{Mem}
use linux_like_os.Screen.{Screen, clear}
use linux_like_os.Screen.Printf.{word}
use linux_like_os.Pic.{i8259_init}
use linux_like_os.Rtc.{rtc_init}
use linux_like_os.Keyboard.{with_screen, with_ports, sti, keyboard_init}
use linux_like_os.Paging.{page_init}
use linux_like_os.Idt.{Idt, Handlers, init_idt}
use linux_like_os.FileSys.Descriptors.{Pointers, file_system_init}
use linux_like_os.Terminal.{Console, term_init}
use linux_like_os.Process.{Kernel, Environment}
use linux_like_os.Process.Life.{kernel_ds}
use linux_like_os.Scheduler.{pit_init}
use linux_like_os.Boot.{
  MultibootInfo, nth_module, check_flag, print, print_head, print_tail, multiboot_bootloader_magic,
}
use linux_like_os.Boot.Texts.{invalid_magic, both_bits}

abbrev pub kernel_ldt : ℕ
kernel_ldt = 0x0038

-- `seg_desc_t`
pub record SegDesc : Type 0 where
  pub seg_lim_15_00 : ℕ
  pub base_15_00 : ℕ
  pub base_23_16 : ℕ
  pub type : ℕ
  pub sys : ℕ
  pub dpl : ℕ
  pub present : ℕ
  pub seg_lim_19_16 : ℕ
  pub avail : ℕ
  pub reserved : ℕ
  pub opsize : ℕ
  pub granularity : ℕ
  pub base_31_24 : ℕ

-- `SET_LDT_PARAMS` and `SET_TSS_PARAMS`, which are the same.
unfoldable pub set_params : (addr lim : ℕ) → SegDesc → SegDesc
set_params addr lim d = record d {
  base_31_24 = addr / 2 ^ 24 % 2 ^ 8;
  base_23_16 = addr / 2 ^ 16 % 2 ^ 8;
  base_15_00 = addr % 2 ^ 16;
  seg_lim_19_16 = lim / 2 ^ 16 % 2 ^ 4;
  seg_lim_15_00 = lim % 2 ^ 16;
}

-- `the_ldt_desc`, on the stack: what it held before is overwritten in every field.
unfoldable pub the_ldt_desc : (ldt ldt_size : ℕ) → SegDesc → SegDesc
unfolding set_params
the_ldt_desc ldt ldt_size d = set_params ldt ldt_size (record d {
  granularity = 0;
  opsize = 1;
  reserved = 0;
  avail = 0;
  present = 1;
  dpl = 0;
  sys = 0;
  type = 2;
})

unfoldable pub the_tss_desc : (tss tss_size : ℕ) → SegDesc → SegDesc
unfolding set_params
the_tss_desc tss tss_size d = set_params tss tss_size (record d {
  granularity = 0;
  opsize = 0;
  reserved = 0;
  avail = 0;
  present = 1;
  dpl = 0;
  sys = 0;
  type = 9;
})

-- What the linker fixes: the handlers' addresses, and those and the sizes of the two tables.
pub record Placement : Type 0 where
  pub handlers : Handlers
  pub ldt : ℕ
  pub ldt_size : ℕ
  pub tss : ℕ
  pub tss_size : ℕ

-- The kernel with the tables of the processor and the addresses of the file system.
pub record Machine : Type 0 where
  pub kernel : Kernel
  pub idt : Idt
  pub ldt_desc_ptr : SegDesc
  pub tss_desc_ptr : SegDesc
  pub ldt_segment_selector : ℕ
  pub pointers : Pointers

unfoldable pub set_descriptors : Placement → Machine → Machine
set_descriptors p a = record a {
  ldt_desc_ptr = the_ldt_desc p.ldt p.ldt_size a.ldt_desc_ptr;
  tss_desc_ptr = the_tss_desc p.tss p.tss_size a.tss_desc_ptr;
  ldt_segment_selector = kernel_ldt;
  kernel = record a.kernel { tss_ss0 = kernel_ds; tss_esp0 = 0x800000 };
}

abbrev pub on_console : (Console → Console) → Machine → Machine
on_console f a = record a { kernel = record a.kernel { console = f a.kernel.console } }

-- `fileSystem_init`, on the first entry of the table of modules, whether there is one or not.
unfoldable pub set_files : Environment → MultibootInfo → Machine → Machine
set_files env mbi a =
    let (pointers, fds) =
      file_system_init (nth_module mbi 0).mod_start env.fs.inode_count
        a.kernel.file_descriptor_array in
    record a { pointers = pointers; kernel = record a.kernel { file_descriptor_array = fds } }

unfoldable pub set_terminals : Machine → Machine
set_terminals a =
    let (terminal_array, current_terminal, sched_terminal) = term_init a.kernel.terminal_array in
    on_console (with_screen (λ s. record s { current_terminal = current_terminal })) (record a {
      kernel = record a.kernel { terminal_array = terminal_array; sched_terminal = sched_terminal };
    })

-- The initialisations from that of the interrupt controllers to the first `sti`. `init_fops_tables`
-- fills constant tables.
unfoldable pub set_up : Environment → Placement → MultibootInfo → Machine → Machine
set_up env p mbi a =
    let descriptors = set_descriptors p a in
    let controllers = on_console (with_ports i8259_init) descriptors in
    let files = set_files env mbi controllers in
    let gates = record files { idt = init_idt p.handlers files.idt } in
    let clock = on_console (with_ports (rtc_init env.dev)) gates in
    let keyboard = on_console (keyboard_init env.dev) clock in
    let pages = record keyboard {
      kernel = record keyboard.kernel { paging = page_init keyboard.kernel.paging };
    } in
    let terminals = set_terminals pages in
    on_console sti (on_console (with_ports (pit_init env.dev)) terminals)

-- How `entry` goes up to the first program: it has returned, or the kernel is set up.
pub data Boot : Type 0 where
  stopped : Screen → Boot
  ready : Machine → Boot

abbrev pub show : Screen → Machine → Machine
show s a = on_console (with_screen (λ t. s)) a

-- `entry` without the tests of tests.c and the first `execute` behind them.
unfoldable pub boot_kernel :
    Environment → Placement → (magic : ℕ) → MultibootInfo → Machine → Mem → Option Boot
boot_kernel env p magic mbi a m =
    let cleared = clear a.kernel.console.screen in
    if magic == multiboot_bootloader_magic
    then elim (print_head m mbi cleared) [
      | none ↦ none
      | some s ↦
          if check_flag mbi.flags 4 && check_flag mbi.flags 5
          then elim (print both_bits [] s) [ none ↦ none | some s' ↦ some (stopped s') ]
          else elim (print_tail mbi s) [
            | none ↦ none
            | some s' ↦ some (ready (set_up env p mbi (show s' a)))
          ]
    ]
    else elim (print invalid_magic (word magic ∷ []) cleared) [
      | none ↦ none
      | some s ↦ some (stopped s)
    ]
