-- ===== src/Os/Examples.antt =====
-- A run from the start of the machine into a program.
use linux_like_os.Base.{◌≡◌, refl, arith, Option, some, none, [], ◌∷◌, replicate, pos, minus_one}
use linux_like_os.Memory.{Mem}
use linux_like_os.Paging.Translate.{physical}
use linux_like_os.FileSys.Image.{
  mem_of, read_dentry_by_name, trimmed_length, search_dentry, same_name, name_length,
  read_dentry_by_index, copy_dentry, read_data,
}
use linux_like_os.CString.{strlen, strncmp, strcpy}
use linux_like_os.FileSys.Descriptors.{no_descriptor}
use linux_like_os.Process.Life.{
  Ending, returned, execute, start, closed_prog, load_program, fill_pcb, claim_pid,
}
use linux_like_os.Process.Program.{
  command_name, first_word, skip_spaces, find_program, is_executable,
}
use linux_like_os.Process.Sample.{disk, zeros, no_pcb}
use linux_like_os.Screen.Printf.{printf, step}
use linux_like_os.Boot.{MultibootInfo, multiboot_bootloader_magic, print_head, print_tail}
use linux_like_os.Boot.Report.{MapFits}
use linux_like_os.Boot.Setup.{
  Machine, Boot, ready, stopped, boot_kernel, set_up, set_terminals, set_files, set_descriptors,
}
use linux_like_os.Boot.Sample.{placed, machine, info, machine-Bounded}
use linux_like_os.Os.{
  State, with_kernel, clock, after_ending, tick, call_execute, Reach, here, next,
}
use linux_like_os.Os.Steps.{SaneState}
use linux_like_os.Os.Reachable.{Loaded, booted, Reach-boot_kernel, Reach-isolated}

abbrev fresh : Machine
fresh = record machine {
  kernel = record machine.kernel {
    progs = replicate 6 0;
    new_pid = minus_one;
    pcbs = λ i. record no_pcb { systemcall_fd_array = replicate 8 no_descriptor };
  };
}

fresh-Loaded : Loaded fresh.kernel
fresh-Loaded = record {
  bounded = machine-Bounded;
  global = refl;
  table = refl;
  arrays = λ i. refl;
  no_process = refl;
}

-- The boot loader passes nothing.
abbrev silent : MultibootInfo
silent = record info { flags = 0 }

silent-MapFits : MapFits silent
silent-MapFits = record { whole = omega arith; steps = λ a lt. omega (arith, lt) }

unfoldable machine_of : Option Boot → Machine
machine_of none = fresh
machine_of (some (stopped s)) = fresh
machine_of (some (ready a)) = a

unfoldable started : Machine
started = machine_of (boot_kernel disk placed multiboot_bootloader_magic silent fresh zeros)

starts :
    boot_kernel disk placed multiboot_bootloader_magic silent fresh zeros ≡ some (ready started)
unfolding started machine_of boot_kernel print_head printf step print_tail
starts = refl

-- The first bytes of an executable file.
abbrev elf : Mem
elf = mem_of (0x7F ∷ 0x45 ∷ 0x4C ∷ 0x46 ∷ [])

unfoldable ending_of : Option Ending → Ending
ending_of none = returned minus_one fresh.kernel zeros
ending_of (some ending) = ending

unfoldable in_program : Ending
in_program = ending_of (execute disk 100 200 0 elf (b's' ∷ []) started.kernel zeros)

enters : execute disk 100 200 0 elf (b's' ∷ []) started.kernel zeros ≡ some in_program
unfolding in_program ending_of execute started machine_of boot_kernel print_head printf step
    print_tail command_name first_word skip_spaces find_program set_up set_terminals set_files
    set_descriptors read_dentry_by_name strlen trimmed_length search_dentry same_name name_length
    strncmp read_dentry_by_index copy_dentry strcpy read_data is_executable start closed_prog
    load_program fill_pcb claim_pid
enters = refl

abbrev running : State
running = after_ending in_program (booted started zeros)

-- The program is entered, and the clock ticks.
reached : Reach (booted started zeros) (with_kernel (clock running.kernel) running)
reached = next (next here (call_execute disk 100 200 0 elf (b's' ∷ []) in_program enters)) tick

Reach-boot_kernel_example : SaneState (with_kernel (clock running.kernel) running)
Reach-boot_kernel_example =
    Reach-boot_kernel disk placed silent fresh started zeros zeros _ refl silent-MapFits
      fresh-Loaded starts reached

first : running.kernel.new_pid ≡ pos 0
unfolding after_ending in_program ending_of execute started machine_of boot_kernel print_head printf
    step print_tail command_name first_word skip_spaces find_program set_up set_terminals set_files
    set_descriptors read_dentry_by_name strlen trimmed_length search_dentry same_name name_length
    strncmp read_dentry_by_index copy_dentry strcpy read_data is_executable start closed_prog
    load_program fill_pcb claim_pid
first = refl

Reach-isolated_example :
    (physical running.kernel.paging 0x08048000 ≡ some 0x848000)
    × (running.kernel.tss_esp0 ≡ 0x7FFFFC)
Reach-isolated_example =
    Reach-isolated disk placed silent fresh started zeros zeros running 0 0x08048000 refl
      silent-MapFits fresh-Loaded starts
      (next here (call_execute disk 100 200 0 elf (b's' ∷ []) in_program enters)) first refl
