-- ===== src/Process/Calls.antt =====
-- read, write, open and close of student-distrib/systemcall.c, which go through the descriptors of
-- the current process to the operations of a device or a file. A result is the returned value with
-- the state; `none` is to follow a null pointer, to read outside of an object, or to wait for ever.
use linux_like_os.Base.{
  ℕ, suc, ltb, not, ◌==◌, if◌then◌else◌, ◌||◌, Bool, true, false, Option, none, some, [], ◌∷◌, set,
  ℤ, pos, minus_one, ltb_ℤ, eqb_ℤ, pos_part,
}
use linux_like_os.Memory.{Mem, load_dword}
use linux_like_os.FileSys.Image.{Name, Dentry, read_dentry_by_name}
use linux_like_os.FileSys.Descriptors.{
  Fds, fd_at, set_flags, bad_fd, file_read, file_write, file_open, file_close, dir_read, dir_write,
  dir_open, dir_close,
}
use linux_like_os.Rtc.{rtc_open, rtc_read, rtc_write, rtc_close}
use linux_like_os.Terminal.{terminal_open, terminal_read, terminal_write, terminal_close}
use linux_like_os.Process.{
  Kernel, Environment, Fops, rtc_fops, dir_fops, file_fops, terminal_fops, fops, current_fds,
  set_fds, get_fops_table,
}

abbrev is_null {ℓ} : {A : Type ℓ} → Option A → Bool
is_null none = true
is_null (some a) = false

abbrev with_global : Kernel → ℤ × Fds → ℤ × Kernel
with_global k (r, fds) = (r, record k { file_descriptor_array = fds })

-- The call through `->close`.
unfoldable pub call_close : Fops → (fd : ℤ) → Kernel → ℤ × Kernel
call_close rtc_fops fd k = (rtc_close fd, k)
call_close dir_fops fd k = with_global k (dir_close k.file_descriptor_array fd)
call_close file_fops fd k = with_global k (file_close k.file_descriptor_array fd)
call_close terminal_fops fd k =
    let (r, c) = terminal_close k.console in (r, record k { console = c })

unfoldable pub close : (fd : ℤ) → Kernel → Option (ℤ × Kernel)
close fd k =
    if ltb_ℤ fd (pos 2) || ltb_ℤ (pos 7) fd
    then some (minus_one, k)
    else (let i = pos_part fd in
        let d = fd_at (current_fds k) i in
        if d.flags == 0 then some (minus_one, k) else elim (fops d.file_operation_table_ptr) [
          | none ↦ none
          | some f ↦ some (call_close f fd (set_fds (set_flags i 0 (current_fds k)) k))
        ])

-- The call through `->read`.
unfoldable pub call_read :
    Environment
    → Fops
    → (fd : ℤ) (buf : Option ℕ) (nbytes : ℤ) → Kernel
    → Mem
    → Option (ℤ × Kernel × Mem)
call_read env rtc_fops fd buf nbytes k m = elim (rtc_read k.rtc_interrupt_received env.ticks) [
  | none ↦ none
  | some (r, flag) ↦ some (r, record k { rtc_interrupt_received = flag }, m)
]
call_read env dir_fops fd none nbytes k m = none
call_read env dir_fops fd (some buf) nbytes k m =
    elim (dir_read env.fs env.stale_dentry k.file_descriptor_array fd buf nbytes m) [
      | none ↦ none
      | some (r, fds, m') ↦ some (r, record k { file_descriptor_array = fds }, m')
    ]
call_read env file_fops fd none nbytes k m = none
call_read env file_fops fd (some buf) nbytes k m =
    elim (file_read env.fs k.file_descriptor_array fd buf nbytes m) [
      | none ↦ none
      | some (r, fds, m') ↦ some (r, record k { file_descriptor_array = fds }, m')
    ]
call_read env terminal_fops fd buf nbytes k m =
    elim (terminal_read k.console env.arrivals buf nbytes m) [
      | none ↦ none
      | some (r, c, m') ↦ some (r, record k { console = c }, m')
    ]

-- The array of the process is copied to the global one and back, all eight elements.
unfoldable pub read :
    Environment → (fd : ℤ) (buf : Option ℕ) (nbytes : ℤ) → Kernel → Mem → Option (ℤ × Kernel × Mem)
read env fd buf nbytes k m =
    if bad_fd fd
      || eqb_ℤ fd (pos 1)
      || is_null buf
      || ((fd_at (current_fds k) (pos_part fd)).flags == 0)
    then some (minus_one, k, m)
    else elim (fops (fd_at (current_fds k) (pos_part fd)).file_operation_table_ptr) [
      | none ↦ none
      | some f ↦
          elim (call_read env f fd buf nbytes (record k { file_descriptor_array = current_fds k })
            m) [
              | none ↦ none
              | some (r, k', m') ↦ some (r, set_fds k'.file_descriptor_array k', m')
            ]
    ]

-- The call through `->write`; `rtc_write` reads one word.
unfoldable pub call_write :
    Environment → Fops → (fd : ℤ) (buf : ℕ) (nbytes : ℤ) → Kernel → Mem → ℤ × Kernel
call_write env rtc_fops fd buf nbytes k m =
    let (r, io) = rtc_write env.dev (some (load_dword m buf)) nbytes k.console.screen.ports in
    (r, record k { console = record k.console { screen = record k.console.screen { ports = io } } })
call_write env dir_fops fd buf nbytes k m = (dir_write fd buf nbytes, k)
call_write env file_fops fd buf nbytes k m = (file_write fd buf nbytes, k)
call_write env terminal_fops fd buf nbytes k m =
    let (r, s) = terminal_write m (some buf) nbytes k.console.screen in
    (r, record k { console = record k.console { screen = s } })

unfoldable pub write :
    Environment → (fd : ℤ) (buf : Option ℕ) (nbytes : ℤ) → Kernel → Mem → Option (ℤ × Kernel)
write env fd none nbytes k m = some (minus_one, k)
write env fd (some buf) nbytes k m =
    if ltb_ℤ (pos 7) fd || ltb_ℤ fd (pos 1) || ((fd_at (current_fds k) (pos_part fd)).flags == 0)
    then some (minus_one, k)
    else elim (fops (fd_at (current_fds k) (pos_part fd)).file_operation_table_ptr) [
      | none ↦ none
      | some f ↦ some (call_write env f fd buf nbytes k m)
    ]

-- The call through `->open`.
unfoldable pub call_open : Environment → Fops → Option Name → Kernel → Option (ℤ × Kernel)
call_open env rtc_fops filename k =
    let (r, io) = rtc_open env.dev (not (is_null filename)) k.console.screen.ports in
    some (
      r,
      record k { console = record k.console { screen = record k.console.screen { ports = io } } },
    )
call_open env dir_fops filename k =
    elim (dir_open env.fs env.stale_dentry env.stale_fd k.file_descriptor_array filename) [
      | none ↦ none
      | some r ↦ some (with_global k r)
    ]
call_open env file_fops filename k =
    elim (file_open env.fs env.stale_dentry env.stale_fd k.file_descriptor_array filename) [
      | none ↦ none
      | some r ↦ some (with_global k r)
    ]
call_open env terminal_fops filename k = some (terminal_open, k)

-- The loop for the first closed descriptor: its index, or the length of the array.
unfoldable pub closed_fd : Fds → ℕ
closed_fd [] = 0
closed_fd (d ∷ fds) = let rest = closed_fd fds in if d.flags == 0 then 0 else suc rest

unfoldable pub opened_fd : Dentry → ℕ → Kernel → Kernel
opened_fd d i k =
    set_fds
      (set (current_fds k) i (record {
        file_operation_table_ptr = get_fops_table d.filetype;
        inode = d.inode_num;
        file_position = 0;
        flags = 1;
      }))
      k

-- `open`
unfoldable pub sys_open : Environment → Option Name → Kernel → Option (ℤ × Kernel)
sys_open env filename k = elim (read_dentry_by_name env.fs filename env.stale_dentry) [
  | none ↦ none
  | some (r, d) ↦
      if eqb_ℤ r minus_one
      then some (minus_one, k)
      else (let i = closed_fd (current_fds k) in
          if ltb 7 i then some (minus_one, k) else elim (fops (get_fops_table d.filetype)) [
            | none ↦ none
            | some f ↦ elim (call_open env f filename (opened_fd d i k)) [
              | none ↦ none
              | some (r', k') ↦ some (if eqb_ℤ r' minus_one then minus_one else pos i, k')
            ]
          ])
]
