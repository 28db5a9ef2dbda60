-- ===== src/UserProg/SysErr/Examples.antt =====
-- A run of the tests of syscalls/ece391syserr.c.
use linux_like_os.Base.{
  get_elem?, subst, ℕ, zero, suc, ◌<◌, ◌≤◌, ◌≡◌, refl, arith, pos, ℤ, Option, some, none, List, [],
  ◌∷◌, replicate,
}
use linux_like_os.FileSys.Image.{Dentry, Image}
use linux_like_os.FileSys.Lookup.{IsEntry}
use linux_like_os.FileSys.Sample.{ls_entry, ls-IsEntry, zeros-IsBytes, same_entry}
use linux_like_os.UserProg.SysErr.Disk.{Tested}
use linux_like_os.FileSys.Descriptors.{Descriptor, Fds, fd_at, no_descriptor}
use linux_like_os.Screen.{puts}
use linux_like_os.Process.{Kernel, Environment}
use linux_like_os.Process.Sample.{busy, disk, no_pcb, zeros}
use linux_like_os.UserProg.{Prog, pure}
use linux_like_os.UserProg.OnKernel.{kernel_system, kernel_screen, systemcall_wrapper}
use linux_like_os.UserProg.SysErr.{run_test}
use linux_like_os.UserProg.SysErr.Choice.{test_text}
use linux_like_os.UserProg.SysErr.Refusals.{Holds}
use linux_like_os.UserProg.SysErr.Served.{run_test-passes}

abbrev dot : Dentry
dot = record {
  filename = b'.' ∷ replicate 31 0;
  filetype = 1;
  inode_num = 0;
  reserved = replicate 24 0;
}

-- A file system with the directory and a program.
abbrev files : Image
files = record linux_like_os.FileSys.Sample.disk {
  boot_block = record {
    dir_count = 2;
    inode_count = 2;
    data_count = 1;
    direntries = dot ∷ ls_entry ∷ [];
  };
}

abbrev env : Environment
env = record disk { fs = files }

dot-IsEntry : IsEntry dot
dot-IsEntry = record {
  size = refl;
  bytes = (omega arith, zeros-IsBytes 31);
  small_type = omega arith;
}

listed : (i : ℕ) (d : Dentry) → get_elem? (dot ∷ ls_entry ∷ []) i ≡ some d → IsEntry d
listed zero d e = subst IsEntry (same_entry dot d e) dot-IsEntry
listed (suc zero) d e = subst IsEntry (same_entry ls_entry d e) ls-IsEntry
listed (suc (suc i)) d e = absurd (ground (arith, e))

files-Tested : Tested files
files-Tested = record {
  is_directory = record { in_table = omega arith; in_inodes = omega arith; entries = listed };
  entry = dot;
  found = refl;
  kind = refl;
  no_helloo = refl;
  no_shel = refl;
  no_empty_name = refl;
}

abbrev terminal : Descriptor
terminal = record { file_operation_table_ptr = some 3; inode = 0; file_position = 0; flags = 1 }

abbrev fds : Fds
fds = terminal ∷ terminal ∷ replicate 6 no_descriptor

abbrev process : Kernel
process = record busy {
  pcbs = λ i. record no_pcb { systemcall_fd_array = fds };
  file_descriptor_array = replicate 8 no_descriptor;
}

unused : (i : ℕ) → 2 ≤ i → i < 8 → (fd_at fds i).flags ≡ 0
unused zero lo hi = absurd (omega (arith, lo))
unused (suc zero) lo hi = absurd (omega (arith, lo))
unused (suc (suc zero)) lo hi = refl
unused (suc (suc (suc zero))) lo hi = refl
unused (suc (suc (suc (suc zero)))) lo hi = refl
unused (suc (suc (suc (suc (suc zero))))) lo hi = refl
unused (suc (suc (suc (suc (suc (suc zero)))))) lo hi = refl
unused (suc (suc (suc (suc (suc (suc (suc zero))))))) lo hi = refl
unused (suc (suc (suc (suc (suc (suc (suc (suc i)))))))) lo hi = absurd (omega (arith, hi))

process-Holds : Holds 2 2 process
process-Holds = record {
  eight = refl;
  input = refl;
  out = refl;
  on_terminal = refl;
  held = λ i lo hi. absurd (omega (arith, lo, hi));
  on_directory = λ i lo hi. absurd (omega (arith, lo, hi));
  below = λ i lo hi. absurd (omega (arith, lo, hi));
  above = unused;
  all_global = refl;
  spare = (2, omega arith, refl);
}

abbrev run : List ℕ → Kernel → Option (ℤ × Kernel)
run command k = none

abbrev calls : ℤ → Prog Kernel ℤ
calls num = pure (pos 0)

run_test-passes_example :
    (k' : Kernel) × (run_test
        (kernel_system env 0x7FF000 0 run)
        (systemcall_wrapper calls)
        0x8048800
        0x8048820
        b'0'
        process
        zeros
      ≡ some (0, k', zeros))
    × Holds 2 2 k'
    × (kernel_screen k' ≡ puts (test_text b'0') (kernel_screen process))
run_test-passes_example =
    run_test-passes env 0x7FF000 0 run calls 0x8048800 0x8048820 b'0' process zeros files-Tested
      process-Holds
