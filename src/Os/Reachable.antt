-- ===== src/Os/Reachable.antt =====
-- The kernel of student-distrib from its start on, through any sequence of interrupts, exceptions
-- and system calls.
use linux_like_os.Base.{
  ℕ, ◌+◌, ◌-◌, ◌*◌, ◌/◌, ◌%◌, ◌^◌, ◌<◌, ◌≡◌, refl, sym, subst, ◌∙◌, arith, false, ◌&&◌, pos,
  minus_one, Option, some, length,
}
use linux_like_os.Memory.{Mem}
use linux_like_os.Paging.{Paging}
use linux_like_os.Paging.Translate.{physical}
use linux_like_os.Terminal.{term_init}
use linux_like_os.Keyboard.Buffer.{Bounded}
use linux_like_os.Process.{Kernel, Environment}
use linux_like_os.Boot.{MultibootInfo, check_flag, multiboot_bootloader_magic}
use linux_like_os.Boot.Report.{MapFits}
use linux_like_os.Boot.Setup.{
  Placement, Machine, ready, show, Boot, set_up, set_terminals, set_files, set_descriptors,
  boot_kernel,
}
use linux_like_os.Boot.Ready.{Ready, boot_kernel-set_up, shown-Ready}
use linux_like_os.Os.{State, Reach, here, next}
use linux_like_os.Os.Sane.{Known, UserPage, SetFor}
use linux_like_os.Os.Steps.{SaneState, Step-SaneState}

pub Reach-SaneState : {s t : State} → Reach s t → SaneState s → SaneState t
Reach-SaneState here h = h
Reach-SaneState (next r st) h = Step-SaneState st (Reach-SaneState r h)

-- The kernel's variables as they are loaded: arrays of their declared lengths, `new_pid = -1`.
pub record Loaded (k : Kernel) : Type 0 where
  pub bounded : Bounded k.console
  pub global : length k.file_descriptor_array ≡ 8
  pub table : length k.progs ≡ 6
  pub arrays : (i : ℕ) → length (k.pcbs i).systemcall_fd_array ≡ 8
  pub no_process : k.new_pid ≡ minus_one

-- The state after the start, with memory as it may be.
abbrev pub booted : Machine → Mem → State
booted a m = record { kernel = a.kernel; temp_terminal = 0; memory = m }

set_up-SaneState :
    (env : Environment) (p : Placement) (mbi : MultibootInfo) (a : Machine) (m : Mem)
    → Loaded a.kernel
    → Ready (set_up env p mbi a)
    → SaneState (booted (set_up env p mbi a) m)
unfolding set_up set_terminals set_files set_descriptors term_init
set_up-SaneState env p mbi a m l r = record {
  made = λ n. false;
  sane = record {
    bounded = r.bounded;
    on_display = omega (arith, r.on_display);
    scheduled = omega arith;
    table = l.table;
    arrays = l.arrays;
    processes = λ n h. absurd (ground (arith, h));
    running = subst (Known (λ n. false)) (sym l.no_process) refl;
    terminals = λ t lt. subst (Known (λ n. false)) (sym (r.no_program t lt)) refl;
    set_for = subst (λ q. SetFor q (set_up env p mbi a).kernel) (sym l.no_process) tt;
  };
  temp_terminal = omega arith;
}

ready_machine : (a b : Machine) → ◌≡◌ {A = Option Boot} (some (ready a)) (some (ready b)) → a ≡ b
ready_machine a b e = cc

-- Where a boot loader that follows the standard, does not set bits 4 and 5 together and passes
-- a memory map that stays in the address space has started the kernel with its variables as
-- they are loaded, in every state that interrupts, exceptions and system calls lead to, in
-- whatever order and with whatever arguments, as long as what interrupts do while a terminal
-- read waits keeps the console in its bounds: no line buffer is longer than 128 bytes and every
-- cursor is on the screen, one of the three terminals is on display, every process number is
-- that of a process that has been started, the descriptors 0 and 1 of such a process are open
-- on the terminal, and the processor is set for the running process.
pub Reach-boot_kernel :
    (env : Environment) (p : Placement) (mbi : MultibootInfo) (a a' : Machine) (m m' : Mem)
    (t : State)
    → (check_flag mbi.flags 4 && check_flag mbi.flags 5) ≡ false
    → MapFits mbi
    → Loaded a.kernel
    → boot_kernel env p multiboot_bootloader_magic mbi a m ≡ some (ready a')
    → Reach (booted a' m') t
    → SaneState t
Reach-boot_kernel env p mbi a a' m m' t one fits l e reach =
    let (s, v, goes) = boot_kernel-set_up env p mbi a m one fits l.bounded.on_screen in
    let r = shown-Ready env p mbi a s v l.bounded l.global in
    let shown : Loaded (show s a).kernel = record {
      bounded = record { counts = l.bounded.counts; on_screen = v };
      global = l.global;
      table = l.table;
      arrays = l.arrays;
      no_process = l.no_process;
    } in
    Reach-SaneState reach (
      subst (λ b. SaneState (booted b m')) (ready_machine _ a' (sym goes ∙ e))
        (set_up-SaneState env p mbi (show s a) m' shown r))

-- The addresses of user space, from 128 MB on, are the four megabytes of the running
-- process, and interrupts push onto the stack of that process in the kernel.
SaneState-isolated :
    (s : State) (n a : ℕ)
    → SaneState s
    → s.kernel.new_pid ≡ pos n
    → a / 2 ^ 22 ≡ 32
    → (physical s.kernel.paging a ≡ some (0x800000 + n * 0x400000 + a % 2 ^ 22))
      × (s.kernel.tss_esp0 ≡ 0x800000 - 0x2000 * n - 4)
SaneState-isolated s n a h e at =
    let running : Known h.made (pos n) = subst (Known h.made) e h.sane.running in
    let set : SetFor (pos n) s.kernel = subst (λ p. SetFor p s.kernel) e h.sane.set_for in
    let process = h.sane.processes n running in
    (mapped s.kernel.paging n a process.below at set.0, set.1)
  where
    mapped :
        (p : Paging) (n a : ℕ)
        → n < 6
        → a / 2 ^ 22 ≡ 32
        → UserPage n p
        → physical p a ≡ some (0x800000 + n * 0x400000 + a % 2 ^ 22)
    mapped p n a lt at u = ground (arith, at, u.present, u.large, u.addy, lt)

-- Where a boot loader that follows the standard, does not set bits 4 and 5 together and passes
-- a memory map that stays in the address space has started the kernel with its variables as
-- they are loaded, in every state that it comes to, in the same way, with a process running:
-- the addresses of user space, from 128 MB to 132 MB, are the four megabytes of that process,
-- and interrupts push onto its own stack in the kernel.
pub Reach-isolated :
    (env : Environment) (p : Placement) (mbi : MultibootInfo) (a a' : Machine) (m m' : Mem)
    (t : State) (n x : ℕ)
    → (check_flag mbi.flags 4 && check_flag mbi.flags 5) ≡ false
    → MapFits mbi
    → Loaded a.kernel
    → boot_kernel env p multiboot_bootloader_magic mbi a m ≡ some (ready a')
    → Reach (booted a' m') t
    → t.kernel.new_pid ≡ pos n
    → x / 2 ^ 22 ≡ 32
    → (physical t.kernel.paging x ≡ some (0x800000 + n * 0x400000 + x % 2 ^ 22))
      × (t.kernel.tss_esp0 ≡ 0x800000 - 0x2000 * n - 4)
Reach-isolated env p mbi a a' m m' t n x one fits l e reach running at =
    SaneState-isolated t n x (Reach-boot_kernel env p mbi a a' m m' t one fits l e reach) running at
