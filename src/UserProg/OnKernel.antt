-- ===== src/UserProg/OnKernel.antt =====
-- The programs in syscalls/ over the system calls of student-distrib/systemcall.c.
use linux_like_os.Base.{
  ℕ, ◌+◌, ◌-◌, ◌^◌, ◌<◌, ◌≤◌, ◌≡◌, refl, sym, subst, ◌∙◌, arith, ◌==◌, ==_refl, ==_ne, ℤ, pos,
  Option, some, List, length, length-set, get_elem?, set, eqb_ℤ, ◌||◌, false, for_range, Bool, ltb,
  ltb_ℤ, to_u32, minus_one, if◌then◌else◌,
}
use linux_like_os.Memory.{Mem, memset}
use linux_like_os.Screen.{Screen}
use linux_like_os.FileSys.Image.{Inode}
use linux_like_os.FileSys.Data.{HasContents, with_file}
use linux_like_os.FileSys.Descriptors.{Fds, fd_at, file_read, bad_fd}
use linux_like_os.FileSys.Files.{file_read-with_file, fd_at-set}
use linux_like_os.Terminal.{terminal_write, write_byte}
use linux_like_os.Process.{Kernel, Environment, current_fds, set_fds, slot, init_fops_tables}
use linux_like_os.Process.Calls.{read, write, close, sys_open, call_read, call_write}
use linux_like_os.Process.Memory.{getargs, vidmap}
use linux_like_os.UserProg.{System, Prog, pure}
use linux_like_os.UserProg.Stream.{Serves, given}

-- The calls of the kernel. `args` is where `getargs` has its buffer on the kernel's stack,
-- `before` the byte in front of a file's name, and `run` what `execute` makes of a command line.
unfoldable pub kernel_system :
    Environment → (args before : ℕ) → (List ℕ → Kernel → Option (ℤ × Kernel)) → System Kernel
kernel_system env args before run = record {
  getargs =
      λ buf nbytes k m. let (r, m') = getargs args (some buf) (pos nbytes) k m in some (r, k, m');
  open_file = λ name k. sys_open env (some (record { before = before; bytes = name })) k;
  read = λ fd buf nbytes k m. read env fd (some buf) (pos nbytes) k m;
  write = λ fd buf nbytes k m. write env fd (some buf) (pos nbytes) k m;
  close = λ fd k. close fd k;
  vidmap = λ screen_start k m. some (vidmap screen_start k m);
  execute = run;
}

-- The numbers that systemcall_wrapper.S answers with -1, as an unsigned and a signed comparison.
abbrev pub no_call : ℤ → Bool
no_call num = ltb 10 (to_u32 num) || ltb_ℤ num (pos 1)

-- The others go through the jump table, `calls`.
unfoldable pub systemcall_wrapper : (calls : ℤ → Prog Kernel ℤ) → ℤ → Prog Kernel ℤ
systemcall_wrapper calls num = if no_call num then pure minus_one else calls num

abbrev pub kernel_screen : Kernel → Screen
kernel_screen k = k.console.screen

-- Descriptor `fd` is open on the file with this inode, at byte `p`, and descriptor 1 on the
-- terminal.
pub record FileAt (fd inode p : ℕ) (fds : Fds) : Type 0 where
  pub eight : length fds ≡ 8
  pub opened : (fd_at fds fd).flags ≡ 1
  pub is_file : (fd_at fds fd).file_operation_table_ptr ≡ some 2
  pub on_inode : (fd_at fds fd).inode ≡ inode
  pub position : (fd_at fds fd).file_position ≡ p
  pub out : (fd_at fds 1).flags ≡ 1
  pub on_terminal : (fd_at fds 1).file_operation_table_ptr ≡ some 3

-- The running process has such descriptors.
abbrev pub ProcessAt : (fd inode p : ℕ) → Kernel → Type 0
ProcessAt fd inode p k = FileAt fd inode p (current_fds k)

pub current_fds-set_fds : (fds : Fds) (k : Kernel) → current_fds (set_fds fds k) ≡ fds
current_fds-set_fds fds k = rw (==_refl (slot k.new_pid), current_fds) refl

-- The kernel after a read: the descriptors of the process, and the copy in the global array.
abbrev with_fds : Fds → Kernel → Kernel
with_fds fds k = set_fds fds (record k { file_descriptor_array = fds })

read_guard :
    (fd flags : ℕ)
    → 2 ≤ fd
    → fd < 8
    → flags ≡ 1
    → (bad_fd (pos fd) || eqb_ℤ (pos fd) (pos 1) || false || (flags == 0)) ≡ false
read_guard fd flags le lt on = ground (arith, le, lt, on)

read-file :
    (env : Environment) (fd buf n : ℕ) (k : Kernel) (m m' : Mem) (r : ℤ) (fds : Fds)
    → 2 ≤ fd
    → fd < 8
    → (fd_at (current_fds k) fd).flags ≡ 1
    → (fd_at (current_fds k) fd).file_operation_table_ptr ≡ some 2
    → file_read env.fs (current_fds k) (pos fd) buf (pos n) m ≡ some (r, fds, m')
    → read env (pos fd) (some buf) (pos n) k m ≡ some (r, with_fds fds k, m')
unfolding read call_read init_fops_tables
read-file env fd buf n k m m' r fds le lt on file e =
    rw (read_guard fd _ le lt on, file, e, read) refl

pub write-terminal :
    (env : Environment) (buf n : ℕ) (k : Kernel) (m : Mem)
    → (fd_at (current_fds k) 1).flags ≡ 1
    → (fd_at (current_fds k) 1).file_operation_table_ptr ≡ some 3
    → write env (pos 1) (some buf) (pos n) k m
      ≡ some (
        pos n,
        record k {
          console = record k.console { screen = for_range n 0 (write_byte m buf) k.console.screen };
        },
      )
unfolding write call_write init_fops_tables terminal_write
write-terminal env buf n k m on terminal = rw (on, terminal, write) refl

-- The descriptors with another position.
abbrev moved : (fd q : ℕ) → Fds → Fds
moved fd q fds = set fds fd (record (fd_at fds fd) { file_position = q })

moved-FileAt :
    (fd inode p q : ℕ) (fds : Fds)
    → 2 ≤ fd
    → fd < 8
    → FileAt fd inode p fds
    → FileAt fd inode q (moved fd q fds)
moved-FileAt fd inode p q fds le lt at =
    let same = fd_at-set fds fd fd (record (fd_at fds fd) { file_position = q }) at.eight lt in
    let other = fd_at-set fds fd 1 (record (fd_at fds fd) { file_position = q }) at.eight lt in
    record {
      eight = length-set fds fd _ ∙ at.eight;
      opened = rw (same, ==_refl fd) at.opened;
      is_file = rw (same, ==_refl fd) at.is_file;
      on_inode = rw (same, ==_refl fd) at.on_inode;
      position = rw (same, ==_refl fd) refl;
      out = rw (other, ==_ne fd 1 (λ e. omega (arith, e, le))) at.out;
      on_terminal = rw (other, ==_ne fd 1 (λ e. omega (arith, e, le))) at.on_terminal;
    }

with_file-byte :
    (contents : ℕ → ℕ) (m : Mem) (buf p c i : ℕ)
    → i < c
    → with_file m contents buf p c (buf + i) ≡ contents (p + i)
with_file-byte contents m buf p c i less =
    let e : buf + i - buf ≡ i = omega arith in rw (e) (ground (arith, less))

module _ (env : Environment) (args before : ℕ) (run : List ℕ → Kernel → Option (ℤ × Kernel))
    (fd inode : ℕ) {node : Inode} {contents : ℕ → ℕ} where
  file_read-moved :
      (p n buf : ℕ) (fds : Fds) (m : Mem)
      → HasContents env.fs node contents
      → fd < 8
      → inode < env.fs.inode_count
      → get_elem? env.fs.inodes inode ≡ some node
      → node.byte_length < 2 ^ 31
      → n < 2 ^ 31
      → FileAt fd inode p fds
      → p ≤ node.byte_length
      → let c = given node.byte_length p n in
        file_read env.fs fds (pos fd) buf (pos n) m
        ≡ some (pos c, moved fd (p + c) fds, with_file (memset m buf 0 n) contents buf p c)
  file_read-moved p n buf fds m h lt valid e small few at le = rw (← at.position) (
      file_read-with_file fds fd buf n m h lt (rw (at.on_inode) valid) (rw (at.on_inode) e) small
        (rw (at.position) le) few)

  -- The kernel serves a program that reads an open file of less than 2^31 bytes and writes to its
  -- terminal.
  pub kernel_system-Serves :
      HasContents env.fs node contents
      → 2 ≤ fd
      → fd < 8
      → inode < env.fs.inode_count
      → get_elem? env.fs.inodes inode ≡ some node
      → node.byte_length < 2 ^ 31
      → Serves
          (kernel_system env args before run)
          (pos fd)
          node.byte_length
          contents
          kernel_screen
          (ProcessAt fd inode)
  unfolding kernel_system
  kernel_system-Serves h two lt valid e small = record {
    reads = λ p n buf k m few at le.
        let c = given node.byte_length p n in
        let fds = moved fd (p + c) (current_fds k) in
        (
          with_fds fds k,
          with_file (memset m buf 0 n) contents buf p c,
          read-file env fd buf n k m _ _ fds two lt at.opened at.is_file
              (file_read-moved p n buf (current_fds k) m h lt valid e small few at le),
          subst (FileAt fd inode (p + c)) (sym (current_fds-set_fds fds k))
              (moved-FileAt fd inode p (p + c) (current_fds k) two lt at),
          refl,
          with_file-byte contents (memset m buf 0 n) buf p c,
        );
    writes = λ p n buf k m at. (_, write-terminal env buf n k m at.out at.on_terminal, at, refl);
  }
