-- ===== src/UserProg/SysErr.antt =====
-- syscalls/ece391syserr.c, the tests of the system calls that fail.
pub mod Texts
pub mod Expected
pub mod Passes
pub mod Lots
pub mod Choice
pub mod Refusals
pub mod Disk
pub mod Directories
pub mod Served
mod Examples
use linux_like_os.Base.{
  ℕ, zero, suc, ◌+◌, ◌-◌, ◌==◌, if◌then◌else◌, eqb_ℤ, ℤ, pos, negsuc, minus_one, Option, none, some,
  List, [], ◌∷◌,
}
use linux_like_os.Memory.{Mem}
use linux_like_os.UserProg.{
  System, Prog, ◌>>=◌, ◌>>◌, pure, peek, call_open, call_read, call_write, call_close, call_vidmap,
  ece391_fdputs,
}
use linux_like_os.UserProg.Texts.{this_directory}
use linux_like_os.UserProg.SysErr.Texts

abbrev pub big_fd : ℤ
big_fd = pos 1073741823

-- -1073741823
abbrev pub neg_fd : ℤ
neg_fd = negsuc 1073741822

abbrev pub big_num : ℤ
big_num = pos 1073741823

abbrev pub neg_num : ℤ
neg_num = negsuc 1073741822

-- `call_sys` makes the system call with a number, and whatever is in the other registers; `buf` and
-- `line` are the addresses of the arrays of 32 and 128 bytes.
module _ {W : Type 0} (sys : System W) (call_sys : ℤ → Prog W ℤ) (buf line : ℕ) where
  -- `if (-1 != r) { fail = 2; ... }`, with the value of `fail` before and after.
  unfoldable pub expect_failure : ℤ → List ℕ → ℕ → Prog W ℕ
  expect_failure r text fail =
      if eqb_ℤ r minus_one then pure fail else do ece391_fdputs sys (pos 1) text; pure 2

  -- The end of a test.
  unfoldable pub verdict : (fail_text pass_text : List ℕ) (fail : ℕ) → Prog W ℕ
  verdict fail_text pass_text fail = do
    ece391_fdputs sys (pos 1) (if fail == 0 then pass_text else fail_text)
    pure fail

  -- The calls on a number that is no descriptor.
  unfoldable pub wrong_fd : (fd : ℤ) → Prog W ℕ
  wrong_fd fd = do
    r ← call_read sys fd buf 31
    fail ← expect_failure r Texts.read_fail 0
    r ← call_write sys fd buf 31
    fail ← expect_failure r Texts.write_fail fail
    r ← call_close sys fd
    expect_failure r Texts.close_fail fail

  unfoldable pub err_neg_fd : Prog W ℕ
  err_neg_fd = do fail ← wrong_fd neg_fd; verdict Texts.err_neg_fd_fail Texts.err_neg_fd_pass fail

  unfoldable pub err_big_fd : Prog W ℕ
  err_big_fd = do fail ← wrong_fd big_fd; verdict Texts.err_big_fd_fail Texts.err_big_fd_pass fail

  -- The first `for` loop, with `rounds` left: how many calls have failed.
  unfoldable pub open_loop : (rounds cnt : ℕ) → Prog W ℕ
  open_loop zero cnt = pure cnt
  open_loop (suc rounds) cnt = do
    r ← call_open sys this_directory
    open_loop rounds (if eqb_ℤ r minus_one then cnt + 1 else cnt)

  -- The second, from descriptor `i` on.
  unfoldable pub close_loop : (rounds i : ℕ) → Prog W (Unit {0})
  close_loop zero i = pure tt
  close_loop (suc rounds) i = do r ← call_close sys (pos i); close_loop rounds (i + 1)

  unfoldable pub err_open_lots : Prog W ℕ
  err_open_lots = do
    cnt ← open_loop 7 0
    close_loop 6 2
    verdict Texts.err_open_lots_fail Texts.err_open_lots_pass (if cnt == 1 then 0 else 2)

  unfoldable pub err_open : Prog W ℕ
  err_open = do
    r ← call_open sys Texts.helloo
    fail ← expect_failure r Texts.helloo_fail 0
    r ← call_open sys Texts.shel
    fail ← expect_failure r Texts.shel_fail fail
    r ← call_open sys Texts.empty_name
    fail ← expect_failure r Texts.empty_string_fail fail
    verdict Texts.err_open_fail Texts.err_open_pass fail

  -- The loops of `err_unopened`, with `rounds` left from descriptor `i` on.
  unfoldable pub close_unopened : (rounds i fail : ℕ) → Prog W ℕ
  close_unopened zero i fail = pure fail
  close_unopened (suc rounds) i fail = do
    r ← call_close sys (pos i)
    fail ← expect_failure r Texts.close_unopened_fail fail
    close_unopened rounds (i + 1) fail

  unfoldable pub read_unopened : (rounds i fail : ℕ) → Prog W ℕ
  read_unopened zero i fail = pure fail
  read_unopened (suc rounds) i fail = do
    r ← call_read sys (pos i) buf 31
    fail ← expect_failure r Texts.read_unopened_fail fail
    read_unopened rounds (i + 1) fail

  unfoldable pub write_unopened : (rounds i fail : ℕ) → Prog W ℕ
  write_unopened zero i fail = pure fail
  write_unopened (suc rounds) i fail = do
    r ← call_write sys (pos i) buf 31
    fail ← expect_failure r Texts.write_unopened_fail fail
    write_unopened rounds (i + 1) fail

  unfoldable pub err_unopened : Prog W ℕ
  err_unopened = do
    fail ← close_unopened 8 0 0
    fail ← read_unopened 6 2 fail
    fail ← write_unopened 6 2 fail
    verdict Texts.err_unopened_fail Texts.err_unopened_pass fail

  unfoldable pub err_vidmap : Prog W ℕ
  err_vidmap = do
    r ← call_vidmap sys 0
    fail ← expect_failure r Texts.null_pointer_fail 0
    r ← call_vidmap sys 0x400000
    fail ← expect_failure r Texts.kernel_pointer_fail fail
    verdict Texts.err_vidmap_fail Texts.err_vidmap_pass fail

  unfoldable pub err_stdin_out : Prog W ℕ
  err_stdin_out = do
    r ← call_write sys (pos 0) buf 31
    fail ← expect_failure r Texts.write_stdin_fail 0
    r ← call_read sys (pos 1) buf 31
    fail ← expect_failure r Texts.read_stdout_fail fail
    verdict Texts.err_stdin_out_fail Texts.err_stdin_out_pass fail

  unfoldable pub err_syscall_num : Prog W ℕ
  err_syscall_num = do
    r ← call_sys big_num
    fail ← expect_failure r Texts.syscall_0_fail 0
    r ← call_sys neg_num
    fail ← expect_failure r Texts.big_num_fail fail
    r ← call_sys (pos 0)
    fail ← expect_failure r Texts.neg_num_fail fail
    verdict Texts.err_syscall_num_fail Texts.err_syscall_num_pass fail

  -- The case 0 of the `switch`.
  unfoldable pub all_tests : Prog W ℕ
  all_tests = do
    a ← err_neg_fd
    b ← err_big_fd
    c ← err_open_lots
    d ← err_open
    e ← err_unopened
    f ← err_vidmap
    g ← err_stdin_out
    h ← err_syscall_num
    verdict Texts.overall_fail Texts.overall_pass (a + b + c + d + e + f + g + h)

  -- The `switch` on the first byte of the line.
  unfoldable pub run_test : (key : ℕ) → Prog W ℕ
  run_test key =
      if key == b'0'
      then all_tests
      else if key == b'1'
      then err_neg_fd
      else if key == b'2'
      then err_big_fd
      else if key == b'3'
      then err_open_lots
      else if key == b'4'
      then err_open
      else if key == b'5'
      then err_unopened
      else if key == b'6'
      then err_vidmap
      else if key == b'7'
      then err_stdin_out
      else if key == b'8'
      then err_syscall_num
      else do ece391_fdputs sys (pos 1) Texts.invalid_test; pure 0

  unfoldable pub syserr : Prog W ℕ
  syserr = do
    ece391_fdputs sys (pos 1) Texts.choose_text
    cnt ← call_read sys (pos 0) line 127
    if eqb_ℤ cnt minus_one
        then (do ece391_fdputs sys (pos 1) Texts.cannot_read_test; pure 2)
        else do key ← peek line; run_test key
