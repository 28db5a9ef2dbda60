-- ===== src/Process/Program.antt =====
-- The first half of execute of student-distrib/systemcall.c: the command line, the file that it
-- names, and the checks on it.
use linux_like_os.Base.{
  ℕ, zero, suc, ◌+◌, ◌-◌, ◌*◌, ◌^◌, ltb, ◌==◌, if◌then◌else◌, ◌||◌, ◌&&◌, Bool, Option, none, some,
  List, [], ◌∷◌, ◌++◌, pos, minus_one, ltb_ℤ, eqb_ℤ, for_range, bit_or, length,
}
use linux_like_os.Memory.{Mem}
use linux_like_os.FileSys.Image.{Dentry, read_dentry_by_name, read_data}
use linux_like_os.Process.{Kernel, Environment, max_open_progs}

-- `while(command[i] == ' ') i++;` on the bytes before the terminator.
unfoldable pub skip_spaces : List ℕ → List ℕ
skip_spaces [] = []
skip_spaces (c ∷ rest) = if c == b' ' then skip_spaces rest else c ∷ rest

-- The loop that copies the name, with room for `room` more bytes; `none` where it is too long.
unfoldable pub first_word : (room : ℕ) → List ℕ → Option (List ℕ)
first_word room [] = some []
first_word zero (c ∷ rest) = if c == b' ' then some [] else none
first_word (suc room) (c ∷ rest) =
    let word = first_word room rest in
    if c == b' ' then some [] else elim word [ none ↦ none | some w ↦ some (c ∷ w) ]

unfoldable pub command_name : List ℕ → Option (List ℕ)
command_name command = first_word 32 (skip_spaces command)

-- The four magic bytes.
unfoldable pub is_executable : Mem → Bool
is_executable buf = (buf 0 == 0x7F) && (buf 1 == 0x45) && (buf 2 == 0x4C) && (buf 3 == 0x46)

-- The checks before a process is made: the entry of the file and what was read of it.
unfoldable pub find_program :
    Environment
    → (before : ℕ) (name command : List ℕ) (stack : Mem) → Kernel
    → Option (Option (Dentry × Mem))
find_program env before name command stack k =
    if ltb_ℤ (pos (max_open_progs - 2)) k.new_pid || ltb 128 (length command)
    then some none
    else elim (read_dentry_by_name env.fs
        (some (record { before = before; bytes = name ++ (0 ∷ []) })) env.stale_dentry) [
          | none ↦ none
          | some (r, d) ↦
              if eqb_ℤ r minus_one
              then some none
              else elim (read_data env.fs d.inode_num 0 0 42 stack) [
                | none ↦ none
                | some (n, buf) ↦ some (if is_executable buf then some (d, buf) else none)
              ]
        ]

unfoldable pub entry_byte : Mem → ℕ → ℕ → ℕ
entry_byte buf i eip = bit_or eip (buf (24 + i) * 2 ^ (8 * i))

unfoldable pub entry_point : Mem → ℕ
unfolding entry_byte
entry_point buf = for_range 4 0 (entry_byte buf) 0
