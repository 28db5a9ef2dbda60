-- ===== src/Process/Life.antt =====
-- execute and halt of student-distrib/systemcall.c.
use linux_like_os.Base.{
  ℕ, zero, suc, ◌+◌, ◌-◌, ◌*◌, ◌^◌, ltb, ◌==◌, if◌then◌else◌, update, Option, none, some, List, [],
  ◌∷◌, ◌++◌, set, get_elem?, ℤ, pos, negsuc, minus_one, eqb_ℤ, for_range, to_u32,
}
use linux_like_os.Memory.{Mem, memset}
use linux_like_os.CString.{strcpy}
use linux_like_os.Paging.{map_user, eight_mb}
use linux_like_os.FileSys.Image.{Dentry, read_data}
use linux_like_os.FileSys.Descriptors.{Fds, fd_at}
use linux_like_os.Screen.{Screen, putc, puts}
use linux_like_os.Terminal.{current, clear_buffer}
use linux_like_os.Process.{
  Kernel, Environment, Pcb, current_pcb, set_pcb, get_fops_table, terminal_index,
}
use linux_like_os.Process.Calls.{close}
use linux_like_os.Process.Program.{command_name, find_program, entry_point}

abbrev pub eight_kb : ℕ
eight_kb = 0x2000

abbrev pub kernel_ds : ℕ
kernel_ds = 0x0018

abbrev pub exec_load_address : ℕ
exec_load_address = 0x08048000

-- The loop for a closed entry of `progs`.
unfoldable pub closed_prog : List ℕ → ℕ → Option ℕ
closed_prog [] i = none
closed_prog (p ∷ progs) i = let rest = closed_prog progs (i + 1) in if p == 0 then some i else rest

-- The loops over the descriptors of the new process.
unfoldable pub std_fd : ℕ → Fds → Fds
std_fd i fds = set fds i (record {
  file_operation_table_ptr = get_fops_table terminal_index;
  inode = 2 ^ 32 - 1;
  file_position = 0;
  flags = 1;
})

unfoldable pub closed_slot : ℕ → Fds → Fds
closed_slot i fds = set fds i (record (fd_at fds i) { flags = 0 })

unfoldable pub initial_fds : Fds → Fds
initial_fds fds = for_range 6 2 closed_slot (for_range 2 0 std_fd fds)

-- How a call ends: it returns, or the processor goes on in user space at an entry point, or in the
-- `execute` that made the halted process, with a status for it to return.
pub data Ending : Type 0 where
  returned : (result : ℤ) (k : Kernel) (m : Mem) → Ending
  entered : (eip : ℕ) (k : Kernel) (m : Mem) → Ending
  resumed : (status par_ebp par_esp : ℕ) (k : Kernel) (m : Mem) → Ending

abbrev set_current_pid : ℕ → ℤ → Kernel → Kernel
set_current_pid t pid k = record k {
  terminal_array =
      update k.terminal_array t (record (k.terminal_array t) { terminal_current_pid = pid });
}

-- The assignments that make `pid` the running process of the terminal on display.
unfoldable pub claim_pid : ℕ → Kernel → Kernel
claim_pid pid k = set_current_pid (current k.console) (pos pid) (record k {
  old_pid = (k.terminal_array (current k.console)).terminal_current_pid;
  progs = set k.progs pid 1;
  new_pid = pos pid;
})

-- The control block and the task state, `none` where copying the command reads outside of it.
-- `esp` and `ebp` are the registers at the call.
unfoldable pub fill_pcb : (esp ebp pid : ℕ) (command : List ℕ) → Kernel → Option Kernel
fill_pcb esp ebp pid command k =
    let old = if ltb pid 3 then minus_one else k.old_pid in
    let pcb = current_pcb k in
    let top = eight_mb - eight_kb * pid - 4 in
    elim (strcpy (memset pcb.arg_buff 0 0 128) 0 (command ++ (0 ∷ []))) [
      | none ↦ none
      | some args ↦ some (
          set_pcb (pos pid)
            (record {
              pid = pos pid;
              program_esp = top;
              program_ebp = top;
              parent_pid = old;
              parent_esp = esp;
              parent_ebp = ebp;
              systemcall_fd_array = initial_fds pcb.systemcall_fd_array;
              esp = k.tss_esp0;
              ss = k.tss_ss0;
              arg_buff = args;
            })
            (record k { old_pid = old; tss_ss0 = kernel_ds; tss_esp0 = top }))
    ]

-- The program's bytes in memory, at the address where `map_user` has put the process.
unfoldable pub load_program : Environment → Dentry → Mem → Option Mem
load_program env d m = elim (get_elem? env.fs.inodes d.inode_num) [
  | none ↦ none
  | some node ↦ elim (read_data env.fs d.inode_num 0 exec_load_address node.byte_length m) [
    | none ↦ none
    | some (n, m') ↦ some m'
  ]
]

-- The part of `execute` behind the checks.
unfoldable pub start :
    Environment
    → (esp ebp : ℕ) → Dentry
    → (buf : Mem) (command : List ℕ) → Kernel
    → Mem
    → Option Ending
start env esp ebp d buf command k m = elim (closed_prog k.progs 0) [
  | none ↦ some (
      returned minus_one
        (record k { old_pid = (k.terminal_array (current k.console)).terminal_current_pid }) m)
  | some pid ↦ elim (load_program env d m) [
    | none ↦ none
    | some m' ↦ elim (fill_pcb esp ebp pid command (claim_pid pid k)) [
      | none ↦ none
      | some k' ↦
          some (entered (entry_point buf) (record k' { paging = map_user pid k'.paging }) m')
    ]
  ]
]

abbrev pub putc_kernel : ℕ → Kernel → Kernel
putc_kernel c k = record k { console = record k.console { screen = putc c k.console.screen } }

-- `command` is the bytes before the terminator; `before` and `stack` are what the kernel's stack
-- holds below `cur_file` and in `buf`.
unfoldable pub execute :
    Environment
    → (esp ebp before : ℕ) (stack : Mem) (command : List ℕ) → Kernel
    → Mem
    → Option Ending
execute env esp ebp before stack command k0 m =
    let printed = putc_kernel b'\n' k0 in
    let k = record printed { console = clear_buffer printed.console } in
    elim (command_name command) [
      | none ↦ some (returned (pos 0) k m)
      | some name ↦ elim (find_program env before name command stack k) [
        | none ↦ none
        | some none ↦ some (returned minus_one k m)
        | some (some (d, buf)) ↦ start env esp ebp d buf command k m
      ]
    ]

-- The loop of `halt` over the descriptors, with `rounds` left.
unfoldable pub close_all : (rounds i : ℕ) → Kernel → Option Kernel
close_all zero i k = some k
close_all (suc rounds) i k = elim (close (pos i) k) [
  | none ↦ none
  | some (r, k') ↦ close_all rounds (i + 1) k'
]

-- The assignments of `halt` up to the status.
unfoldable pub release_pid : Kernel → Kernel
release_pid k =
    let pcb = current_pcb k in
    let t = k.terminal_array k.sched_terminal in
    record (set_pcb k.new_pid (record pcb { parent_ebp = 0; parent_esp = 0 }) k) {
      old_pid = k.new_pid;
      new_pid = pcb.parent_pid;
      terminal_array = update k.terminal_array k.sched_terminal (record t {
        terminal_current_pid = pcb.parent_pid;
        terminal_esp = pcb.parent_esp;
        terminal_ebp = pcb.parent_ebp;
      });
    }

abbrev pub interrupted_text : List ℕ
interrupted_text =
    b'\n' ∷ b'I' ∷ b'n' ∷ b't' ∷ b'e' ∷ b'r' ∷ b'r' ∷ b'u' ∷ b'p' ∷ b't' ∷ b'!' ∷ b'!' ∷ b'!' ∷ b' '
    ∷ b'P' ∷ b'r' ∷ b'o' ∷ b'g' ∷ b'r' ∷ b'a' ∷ b'm' ∷ b' ' ∷ b'i' ∷ b'n' ∷ b't' ∷ b'e' ∷ b'r'
    ∷ b'r' ∷ b'u' ∷ b'p' ∷ b't' ∷ b'e' ∷ b'd' ∷ b' ' ∷ b'b' ∷ b'y' ∷ b' ' ∷ b'u' ∷ b's' ∷ b'e'
    ∷ b'r' ∷ []

unfoldable pub status_32bit : ℕ → ℕ
status_32bit status = if status == 111 then 256 else status

unfoldable pub print_ending : ℕ → Screen → Screen
print_ending status s = putc b'\n' (if status == 42 then puts interrupted_text s else s)

abbrev pub shell : List ℕ
shell = b's' ∷ b'h' ∷ b'e' ∷ b'l' ∷ b'l' ∷ []

abbrev pub kernel_stack : ℤ → ℕ
kernel_stack (pos n) = eight_mb - eight_kb * n - 4
kernel_stack (negsuc n) = eight_mb + eight_kb * suc n - 4

-- The end of `halt`. `pcb` is the control block of the process that halts, as it was; the process
-- number is reduced to 32 bits, as the address is that is computed from it.
unfoldable pub resume : (status : ℕ) → Pcb → Kernel → Mem → Ending
resume status pcb k m =
    resumed status pcb.parent_ebp pcb.parent_esp
      (record k {
        paging = map_user (to_u32 k.new_pid) k.paging;
        tss_ss0 = kernel_ds;
        tss_esp0 = kernel_stack k.new_pid;
      })
      m

-- Where `execute` of the shell enters it, `halt` does not go on.
unfoldable pub after_shell : (status : ℕ) → Pcb → Ending → Ending
after_shell status pcb (returned r k m) = resume status pcb k m
after_shell status pcb (entered eip k m) = entered eip k m
after_shell status pcb (resumed s b e k m) = resumed s b e k m

-- `progs[new_pid] = 0`: without a process the index is outside of the array.
unfoldable pub clear_prog : ℤ → List ℕ → Option (List ℕ)
clear_prog (pos n) progs = some (set progs n 0)
clear_prog (negsuc n) progs = none

-- The loop over the descriptors, after the entry of the table has been cleared.
unfoldable pub close_process : Kernel → Option Kernel
close_process k = elim (clear_prog k.new_pid k.progs) [
  | none ↦ none
  | some progs ↦ close_all 8 0 (record k { progs = progs })
]

unfoldable pub halt :
    Environment → (esp ebp before : ℕ) (stack : Mem) (status : ℕ) → Kernel → Mem → Option Ending
halt env esp ebp before stack status k0 m = elim (close_process k0) [
  | none ↦ none
  | some k1 ↦
      let k2 = release_pid k1 in
      let k = record k2 {
        console = record k2.console { screen = print_ending status k2.console.screen };
      } in
      if eqb_ℤ k.new_pid minus_one
      then elim (execute env esp ebp before stack shell k m) [
        | none ↦ none
        | some ending ↦ some (after_shell (status_32bit status) (current_pcb k1) ending)
      ]
      else some (resume (status_32bit status) (current_pcb k1) k m)
]
