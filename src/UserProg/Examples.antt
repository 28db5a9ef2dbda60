-- ===== src/UserProg/Examples.antt =====
-- Runs of the user programs.
use linux_like_os.Base.{
  ℕ, zero, suc, ◌<◌, ◌≡◌, ◌≢◌, refl, arith, pos, ℤ, Option, some, none, List, [], ◌∷◌, replicate,
}
use linux_like_os.Memory.{Mem}
use linux_like_os.Screen.{puts}
use linux_like_os.FileSys.Sample.{
  node, contents, ls_entry, typed_ls, disk-HasContents, disk-IsDirectory, typed_ls-IsName,
}
use linux_like_os.FileSys.Descriptors.{Descriptor, Fds, fd_at, no_descriptor}
use linux_like_os.Process.{Kernel, Environment}
use linux_like_os.Process.Calls.{sys_open}
use linux_like_os.Process.Opening.{FirstClosed, Opened, sys_open-Opened}
use linux_like_os.Process.Sample.{busy, no_pcb, zeros}
use linux_like_os.UserProg.OnKernel.{kernel_system, kernel_screen, ProcessAt, kernel_system-Serves}
use linux_like_os.UserProg.Stream.{Serves, file_text}
use linux_like_os.UserProg.Cat.{cat_loop}
use linux_like_os.UserProg.Cat.Files.{Standard, cat_loop-prints_file}

abbrev env : Environment
env = record {
  fs = linux_like_os.FileSys.Sample.disk;
  dev = λ io port. 0;
  stale_dentry = ls_entry;
  stale_fd = pos 0;
  ticks = [];
  arrivals = [];
}

abbrev terminal : Descriptor
terminal = record { file_operation_table_ptr = some 3; inode = 0; file_position = 0; flags = 1 }

abbrev fds : Fds
fds = terminal ∷ terminal ∷ replicate 6 no_descriptor

abbrev process : Kernel
process = record busy {
  pcbs = λ i. record no_pcb { systemcall_fd_array = fds };
  file_descriptor_array = replicate 8 no_descriptor;
}

fds-Standard : Standard fds
fds-Standard = record { eight = refl; input = refl; out = refl; on_terminal = refl }

first_two : (j : ℕ) → j < 2 → (fd_at fds j).flags ≢ 0
first_two zero lt e = omega (arith, e)
first_two (suc zero) lt e = omega (arith, e)
first_two (suc (suc j)) lt e = omega (arith, lt)

fds-FirstClosed : FirstClosed 2 fds
fds-FirstClosed = record { inside = omega arith; closed = refl; first = first_two }

abbrev run : List ℕ → Kernel → Option (ℤ × Kernel)
run command k = none

cat_loop-prints_file_example :
    (k1 k2 : Kernel) × (m2 : Mem) × (sys_open env (some typed_ls) process ≡ some (pos 2, k1))
    × (cat_loop (kernel_system env 0x7FF000 0 run) 0x8048800 4 (pos 2) k1 zeros
        ≡ some (pos 0, k2, m2))
    × (kernel_screen k2 ≡ puts (file_text contents 0 3) (kernel_screen process))
cat_loop-prints_file_example =
    cat_loop-prints_file env 0x7FF000 0 run 0x8048800 4 typed_ls ls_entry 2 0 process zeros
      disk-IsDirectory typed_ls-IsName (omega arith) refl refl fds-Standard fds-FirstClosed
      (omega arith) (omega arith) refl disk-HasContents (omega arith) refl (omega arith)
      (omega arith)

sys_open-Opened_example : Opened ls_entry 2 process (sys_open env (some typed_ls) process)
sys_open-Opened_example =
    sys_open-Opened env typed_ls ls_entry 2 0 process disk-IsDirectory typed_ls-IsName (omega arith)
      refl refl refl fds-FirstClosed (omega arith) (omega arith) refl

kernel_system-Serves_example :
    Serves (kernel_system env 0x7FF000 0 run) (pos 2) 3 contents kernel_screen (ProcessAt 2 0)
kernel_system-Serves_example =
    kernel_system-Serves env 0x7FF000 0 run 2 0 disk-HasContents (omega arith) (omega arith)
      (omega arith) refl (omega arith)
