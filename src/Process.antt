-- ===== src/Process.antt =====
-- The state of student-distrib/systemcall.c: the table of processes, their control blocks, and the
-- tables of file operations. The system calls are in the child modules.
pub mod Calls
pub mod Memory
pub mod Program
pub mod Life
pub mod Arguments
pub mod Ownership
pub mod Halting
pub mod Status
pub mod Opening
pub mod Sample
mod Examples
use linux_like_os.Base.{
  ℕ, suc, ◌+◌, ltb, ◌==◌, if◌then◌else◌, update, Option, none, some, List, ℤ, pos, negsuc, Bool,
}
use linux_like_os.Memory.{Mem}
use linux_like_os.Port.{Device}
use linux_like_os.FileSys.Image.{Image, Dentry}
use linux_like_os.FileSys.Descriptors.{Fds}
use linux_like_os.Paging.{Paging}
use linux_like_os.Terminal.{Console, TerminalInfo}

abbrev pub max_open_progs : ℕ
max_open_progs = 6

abbrev pub rtc_index : ℕ
rtc_index = 0

abbrev pub dir_index : ℕ
dir_index = 1

abbrev pub file_index : ℕ
file_index = 2

abbrev pub terminal_index : ℕ
terminal_index = 3

abbrev pub num_devices : ℕ
num_devices = 6

-- `pcb_t`
pub record Pcb : Type 0 where
  pub pid : ℤ
  pub program_esp : ℕ
  pub program_ebp : ℕ
  pub parent_pid : ℤ
  pub parent_esp : ℕ
  pub parent_ebp : ℕ
  pub systemcall_fd_array : Fds
  pub esp : ℕ
  pub ss : ℕ
  pub arg_buff : Mem

-- The globals. `pcbs` holds the control block of a process, which the source finds at the address
-- 8 MB - 8 KB * (pid + 1), under `pid + 1`.
pub record Kernel : Type 0 where
  pub progs : List ℕ
  pub new_pid : ℤ
  pub old_pid : ℤ
  pub pcbs : ℕ → Pcb
  pub terminal_array : ℕ → TerminalInfo
  pub sched_terminal : ℕ
  pub console : Console
  pub paging : Paging
  pub file_descriptor_array : Fds
  pub rtc_interrupt_received : ℕ
  pub tss_ss0 : ℕ
  pub tss_esp0 : ℕ

abbrev pub slot : ℤ → ℕ
slot (pos n) = suc n
slot (negsuc n) = 0

abbrev pub current_pcb : Kernel → Pcb
current_pcb k = k.pcbs (slot k.new_pid)

abbrev pub set_pcb : ℤ → Pcb → Kernel → Kernel
set_pcb pid pcb k = record k { pcbs = update k.pcbs (slot pid) pcb }

abbrev pub current_fds : Kernel → Fds
current_fds k = (current_pcb k).systemcall_fd_array

abbrev pub set_fds : Fds → Kernel → Kernel
set_fds fds k = set_pcb k.new_pid (record (current_pcb k) { systemcall_fd_array = fds }) k

-- What the calls find outside of the kernel's own variables: the file system, the devices behind
-- the ports, what the uninitialised `dentry_t` and `free_fd` of a call hold, and what the interrupt
-- handlers do while a call waits.
pub record Environment : Type 0 where
  pub fs : Image
  pub dev : Device
  pub stale_dentry : Dentry
  pub stale_fd : ℤ
  pub ticks : List Bool
  pub arrivals : List (Console → Console)

-- The four kinds that `init_fops_tables` fills; the other two tables hold null pointers.
pub data Fops : Type 0 where
  rtc_fops : Fops
  dir_fops : Fops
  file_fops : Fops
  terminal_fops : Fops

unfoldable pub init_fops_tables : ℕ → Option Fops
init_fops_tables i =
    if i == rtc_index
    then some rtc_fops
    else if i == dir_index
    then some dir_fops
    else if i == file_index
    then some file_fops
    else if i == terminal_index
    then some terminal_fops
    else none

-- The index stands for the pointer to the table.
unfoldable pub get_fops_table : ℕ → Option ℕ
get_fops_table device_index = if ltb device_index num_devices then some device_index else none

-- The functions behind a pointer to a table: `none` to follow a null pointer.
abbrev pub fops : Option ℕ → Option Fops
fops none = none
fops (some i) = init_fops_tables i
