-- ===== src/UserProg/Cat/Files.antt =====
-- open of student-distrib/systemcall.c and the loop of syscalls/ece391cat.c, one after the other:
-- from a file's name to its bytes on the screen.
use linux_like_os.Base.{
  ℕ, ◌^◌, ◌<◌, ◌≤◌, ◌≡◌, ◌≢◌, sym, subst, ap, ◌∙◌, arith, ==_refl, ==_ne, ℤ, pos, Option, some,
  List, length, length-set, take, get_elem?,
}
use linux_like_os.Memory.{Mem}
use linux_like_os.Screen.{puts}
use linux_like_os.FileSys.Image.{Inode, Name, Dentry}
use linux_like_os.FileSys.Data.{HasContents}
use linux_like_os.FileSys.Search.{IsDirectory, IsName, find_entry, wanted_name}
use linux_like_os.FileSys.Descriptors.{Fds, fd_at}
use linux_like_os.FileSys.Files.{fd_at-set}
use linux_like_os.Process.{Kernel, Environment, current_fds}
use linux_like_os.Process.Calls.{sys_open}
use linux_like_os.Process.Opening.{FirstClosed, Opened, sys_open-Opened}
use linux_like_os.UserProg.OnKernel.{
  kernel_system, kernel_screen, FileAt, ProcessAt, kernel_system-Serves,
}
use linux_like_os.UserProg.Stream.{file_text}
use linux_like_os.UserProg.Cat.{cat_loop}
use linux_like_os.UserProg.Cat.Prints.{cat_loop-Printed}

-- Descriptors 0 and 1 are open, and 1 is the terminal.
pub record Standard (fds : Fds) : Type 0 where
  pub eight : length fds ≡ 8
  pub input : (fd_at fds 0).flags ≡ 1
  pub out : (fd_at fds 1).flags ≡ 1
  pub on_terminal : (fd_at fds 1).file_operation_table_ptr ≡ some 3

above-Standard : (i : ℕ) (fds : Fds) → Standard fds → FirstClosed i fds → 2 ≤ i
above-Standard i fds s c = ground (arith, s.input, s.out, c.closed)

Opened-FileAt :
    (d : Dentry) (i : ℕ) (k : Kernel) {r : Option (ℤ × Kernel)} (o : Opened d i k r)
    → Standard (current_fds k)
    → 2 ≤ i
    → i < 8
    → ProcessAt i d.inode_num 0 o.state
Opened-FileAt d i k o s two lt =
    let same = fd_at-set (current_fds k) i i o.descriptor s.eight lt in
    let other = fd_at-set (current_fds k) i 1 o.descriptor s.eight lt in
    let ne : i ≢ 1 = λ e. omega (arith, e, two) in
    subst (FileAt i d.inode_num 0) (sym o.fds) (record {
      eight = length-set (current_fds k) i o.descriptor ∙ s.eight;
      opened = rw (same, ==_refl i) o.is_open;
      is_file = rw (same, ==_refl i) o.is_file;
      on_inode = rw (same, ==_refl i) o.on_inode;
      position = rw (same, ==_refl i) o.at_start;
      out = rw (other, ==_ne i 1 ne) s.out;
      on_terminal = rw (other, ==_ne i 1 ne) s.on_terminal;
    })

-- For the name of a regular file of less than 2^31 bytes in a well formed directory, where the
-- process has 0 and 1 open, 1 on the terminal, and a descriptor closed, and the global array has
-- a closed descriptor, too: `open` returns the first closed one of the process, and the loop of
-- `cat` on it ends with status 0 after it has printed all bytes of the file in order; one round
-- more than the file has bytes is enough.
pub cat_loop-prints_file :
    (env : Environment) (args before : ℕ) (run : List ℕ → Kernel → Option (ℤ × Kernel))
    (buf fuel : ℕ) (fname : Name) (d : Dentry) {node : Inode} {contents : ℕ → ℕ} (i j : ℕ)
    (k : Kernel) (m : Mem)
    → IsDirectory env.fs
    → IsName fname
    → length (wanted_name fname) ≤ 32
    → find_entry (wanted_name fname) (take env.fs.dir_count env.fs.direntries) ≡ some d
    → d.filetype ≡ 2
    → Standard (current_fds k)
    → FirstClosed i (current_fds k)
    → j < 8
    → j < length k.file_descriptor_array
    → (fd_at k.file_descriptor_array j).flags ≡ 0
    → HasContents env.fs node contents
    → d.inode_num < env.fs.inode_count
    → get_elem? env.fs.inodes d.inode_num ≡ some node
    → node.byte_length < 2 ^ 31
    → node.byte_length < fuel
    → (k1 k2 : Kernel) × (m2 : Mem) × (sys_open env (some fname) k ≡ some (pos i, k1))
      × (cat_loop (kernel_system env args before run) buf fuel (pos i) k1 m ≡ some (pos 0, k2, m2))
      × (kernel_screen k2 ≡ puts (file_text contents 0 node.byte_length) (kernel_screen k))
cat_loop-prints_file env args before run buf fuel fname d {node} {contents} i j k m dir w short
      found regular s c small lt closed h valid e few enough =
    let o = sys_open-Opened env fname d i j k dir w short found regular s.eight c small lt closed in
    let two = above-Standard i (current_fds k) s c in
    let eight : i < 8 = omega (arith, c.inside, s.eight) in
    let at = Opened-FileAt d i k o s two eight in
    let serves = kernel_system-Serves env args before run i d.inode_num h two eight valid e few in
    let p =
      cat_loop-Printed (kernel_system env args before run) buf i node.byte_length contents
        kernel_screen (ProcessAt i d.inode_num) serves fuel 0 o.state m at (omega arith)
        (omega (arith, enough)) in
    (
      o.state,
      p.state,
      p.memory,
      o.returns,
      p.ended,
      p.shown
          ∙ ap (λ n. puts (file_text contents 0 n) (kernel_screen o.state)) (omega arith)
          ∙ ap (λ c. puts (file_text contents 0 node.byte_length) c.screen) o.same_console,
    )
