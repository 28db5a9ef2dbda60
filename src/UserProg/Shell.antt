-- ===== src/UserProg/Shell.antt =====
-- syscalls/ece391shell.c.
pub mod Lines
pub mod Session
pub mod Commands
use linux_like_os.Base.{
  ℕ, zero, suc, ◌+◌, ◌-◌, ltb, leb, ◌==◌, not, ◌&&◌, ◌||◌, if◌then◌else◌, eqb_ℤ, ltb_ℤ, ℤ, pos,
  minus_one, pos_part, Bool, true, false, Option, none, some, List, [], ◌∷◌, ◌++◌,
}
use linux_like_os.Memory.{Mem}
use linux_like_os.FileSys.Image.{bytes_at}
use linux_like_os.UserLib.{ece391_strcmp, ece391_strncmp, ece391_strcpy, ece391_strlen, ece391_itoa}
use linux_like_os.UserProg.{
  System, Prog, ◌>>=◌, ◌>>◌, pure, unfinished, array, peek, poke, store, defined, call_getargs,
  call_open, call_read, call_write, call_close, call_execute, ece391_fdputs,
}
use linux_like_os.UserProg.Texts.{
  starting_shell, prompt, read_from_keyboard_failed, exit_command, no_such_command,
  terminated_by_exception, terminated_abnormally,
}

-- `buf` is the address of the array of 1024 bytes. A count that is read is not negative.
module _ {W : Type 0} (sys : System W) (buf : ℕ) where
  -- The message about a program's end.
  unfoldable pub report : (rval : ℤ) → Prog W (Unit {0})
  report rval =
      if eqb_ℤ rval minus_one
      then ece391_fdputs sys (pos 1) no_such_command
      else if eqb_ℤ rval (pos 256)
      then ece391_fdputs sys (pos 1) terminated_by_exception
      else if eqb_ℤ rval (pos 0)
      then pure tt
      else ece391_fdputs sys (pos 1) terminated_abnormally

  -- The newline at the end of the line is cut off, and the line ended with a zero.
  unfoldable pub end_line : (cnt : ℤ) → Prog W (Unit {0})
  end_line cnt = do
    last ← peek (buf + (pos_part cnt - 1))
    poke (buf + (if ltb_ℤ (pos 0) cnt && (last == b'\n') then pos_part cnt - 1 else pos_part cnt)) 0

  unfoldable pub read_failed : Prog W ℤ
  read_failed = do ece391_fdputs sys (pos 1) read_from_keyboard_failed; pure (pos 3)

  -- What a round does with the line; `next` is the next round.
  unfoldable pub on_line : (cnt : ℤ) → Prog W ℤ → Prog W ℤ
  on_line cnt next = do
    end_line cnt
    line ← array buf 1024
    differs ← defined (ece391_strcmp line exit_command)
    first ← peek buf
    if eqb_ℤ differs (pos 0)
        then pure (pos 0)
        else if first == 0
        then next
        else do rval ← call_execute sys line; report rval; next

  -- The `while` loop, with `fuel` rounds left.
  unfoldable pub shell_loop : (fuel : ℕ) → Prog W ℤ
  shell_loop zero = unfinished
  shell_loop (suc fuel) = do
    ece391_fdputs sys (pos 1) prompt
    cnt ← call_read sys (pos 0) buf 1023
    if eqb_ℤ cnt minus_one then read_failed else on_line cnt (shell_loop fuel)

  unfoldable pub shell_main : (fuel : ℕ) → Prog W ℤ
  shell_main fuel = do ece391_fdputs sys (pos 1) starting_shell; shell_loop fuel
