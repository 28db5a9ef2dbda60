-- ===== src/Process/Memory.antt =====
-- getargs, vidmap, set_handler and sigreturn of student-distrib/systemcall.c.
use linux_like_os.Base.{
  ℕ, zero, suc, ◌+◌, ltb, leb, ◌==◌, if◌then◌else◌, update, ◌||◌, ◌&&◌, not, Bool, false, Option,
  none, some, List, [], ◌∷◌, ℤ, pos, minus_one, pos_part, ltb_ℤ,
}
use linux_like_os.Memory.{Mem, memset, memcpy, store_dword}
use linux_like_os.Paging.{map_video}
use linux_like_os.Process.{Kernel, current_pcb}
use linux_like_os.FileSys.Descriptors.{strlen_at}

-- The bytes of a string in memory, `fuel` at most.
unfoldable pub string_at : (fuel : ℕ) → Mem → ℕ → List ℕ
string_at zero m a = []
string_at (suc fuel) m a =
    let rest = string_at fuel m (a + 1) in if m a == 0 then [] else m a ∷ rest

-- The first loop of `getargs`: what is left of the command where it stops.
unfoldable pub skip_command : (flag1 flag2 : Bool) → List ℕ → List ℕ
skip_command flag1 flag2 [] = []
skip_command flag1 flag2 (c ∷ rest) =
    let in_word = not (c == b' ') || flag1 in
    let after_word = ((c == b' ') && in_word) || flag2 in
    if not (c == b' ') && after_word then c ∷ rest else skip_command in_word after_word rest

unfoldable pub store_bytes : Mem → ℕ → List ℕ → Mem
store_bytes m a [] = m
store_bytes m a (c ∷ rest) = store_bytes (update m a c) (a + 1) rest

-- `command_buffer` and `args` have 128 bytes; `args` is the address of the second on the kernel's
-- stack. 129 bytes of `arg_buff` are looked at, since a command may have 128.
unfoldable pub getargs : (args : ℕ) (buf : Option ℕ) (nbytes : ℤ) → Kernel → Mem → ℤ × Mem
getargs args none nbytes k m = (minus_one, m)
getargs args (some buf) nbytes k m =
    if ltb_ℤ nbytes (pos 1)
    then (minus_one, m)
    else (let found = skip_command false false (string_at 129 (current_pcb k).arg_buff 0) in
        let filled = store_bytes (memset m args 0 128) args found in
        let len = strlen_at 129 filled args in
        if ltb (pos_part nbytes) len || ltb len 1
        then (minus_one, filled)
        else (pos 0, memcpy filled buf args (pos_part nbytes)))

abbrev pub user_start : ℕ
user_start = 0x08000000

abbrev pub key_mem : ℕ
key_mem = 0x083FFFFC

abbrev pub user_vid_mem : ℕ
user_vid_mem = 0x08800000

-- The null pointer is below user space.
unfoldable pub vidmap : (screen_start : ℕ) → Kernel → Mem → ℤ × Kernel × Mem
vidmap screen_start k m =
    if (screen_start == 0) || ltb screen_start user_start || leb key_mem screen_start
    then (minus_one, k, m)
    else (pos 0, record k { paging = map_video k.paging }, store_dword m screen_start user_vid_mem)

unfoldable pub set_handler : (signum : ℤ) (handler_address : ℕ) → ℤ
set_handler signum handler_address = minus_one

unfoldable pub sigreturn : ℤ
sigreturn = minus_one
