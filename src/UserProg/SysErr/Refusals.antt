-- ===== src/UserProg/SysErr/Refusals.antt =====
-- The calls of student-distrib/systemcall.c that the tests of syscalls/ece391syserr.c expect to
-- fail.
use linux_like_os.Base.{
  ℕ, ◌<◌, ◌≤◌, ◌≡◌, arith, false, eqb_ℤ, ℤ, pos, negsuc, minus_one, some, length,
}
use linux_like_os.Memory.{Mem}
use linux_like_os.FileSys.Descriptors.{Fds, fd_at}
use linux_like_os.Process.{Kernel, Environment, current_fds}
use linux_like_os.Process.Calls.{read, write, close}
use linux_like_os.Process.Memory.{vidmap}

-- Of the descriptors from 2 on, those from `a` to `b - 1` are open on a directory and the others
-- closed; 0 and 1 are open on the terminal, and the global array has a closed descriptor.
pub record Held (a b : ℕ) (fds global : Fds) : Type 0 where
  pub eight : length fds ≡ 8
  pub input : (fd_at fds 0).flags ≡ 1
  pub out : (fd_at fds 1).flags ≡ 1
  pub on_terminal : (fd_at fds 1).file_operation_table_ptr ≡ some 3
  pub held : (i : ℕ) → a ≤ i → i < b → (fd_at fds i).flags ≡ 1
  pub on_directory : (i : ℕ) → a ≤ i → i < b → (fd_at fds i).file_operation_table_ptr ≡ some 1
  pub below : (i : ℕ) → 2 ≤ i → i < a → (fd_at fds i).flags ≡ 0
  pub above : (i : ℕ) → b ≤ i → i < 8 → (fd_at fds i).flags ≡ 0
  pub all_global : length global ≡ 8
  pub spare : (j : ℕ) × (j < 8) × ((fd_at global j).flags ≡ 0)

-- The running process has such descriptors.
abbrev pub Holds : (a b : ℕ) → Kernel → Type 0
Holds a b k = Held a b (current_fds k) k.file_descriptor_array

pub read-refused :
    (env : Environment) (fd : ℤ) (buf n : ℕ) (k : Kernel) (m : Mem)
    → Holds 2 2 k
    → eqb_ℤ fd (pos 0) ≡ false
    → read env fd (some buf) (pos n) k m ≡ some (minus_one, k, m)
unfolding read
read-refused env (pos i) buf n k m h e = ground (arith, e, h.above i)
read-refused env (negsuc i) buf n k m h e = ground arith

pub write-refused :
    (env : Environment) (fd : ℤ) (buf n : ℕ) (k : Kernel) (m : Mem)
    → Holds 2 2 k
    → eqb_ℤ fd (pos 1) ≡ false
    → write env fd (some buf) (pos n) k m ≡ some (minus_one, k)
unfolding write
write-refused env (pos i) buf n k m h e = ground (arith, e, h.above i)
write-refused env (negsuc i) buf n k m h e = ground arith

pub close-refused : (fd : ℤ) (k : Kernel) → Holds 2 2 k → close fd k ≡ some (minus_one, k)
unfolding close
close-refused (pos i) k h = ground (arith, h.above i)
close-refused (negsuc i) k h = ground arith

pub vidmap-refused :
    (a : ℕ) (k : Kernel) (m : Mem) → a < 0x8000000 → vidmap a k m ≡ (minus_one, k, m)
unfolding vidmap
vidmap-refused a k m lt = ground (arith, lt)
