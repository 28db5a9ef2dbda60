-- ===== src/UserProg/Cat.antt =====
-- syscalls/ece391cat.c.
pub mod Prints
pub mod Files
use linux_like_os.Base.{
  ℕ, zero, suc, if◌then◌else◌, eqb_ℤ, ℤ, pos, minus_one, pos_part, Option, none, some, List,
}
use linux_like_os.Memory.{Mem}
use linux_like_os.UserProg.{
  System, Prog, ◌>>=◌, ◌>>◌, pure, unfinished, array, call_getargs, call_open, call_read,
  call_write, ece391_fdputs,
}
use linux_like_os.UserProg.Texts.{could_not_read_arguments, file_not_found, file_read_failed}

-- `buf` is the address of the array of 1024 bytes.
module _ {W : Type 0} (sys : System W) (buf : ℕ) where
  -- The `while` loop, with `fuel` rounds left.
  unfoldable pub cat_loop : (fuel : ℕ) (fd : ℤ) → Prog W ℤ
  cat_loop zero fd = unfinished
  cat_loop (suc fuel) fd = do
    cnt ← call_read sys fd buf 1024
    if eqb_ℤ cnt (pos 0)
        then pure (pos 0)
        else if eqb_ℤ cnt minus_one
        then (do ece391_fdputs sys (pos 1) file_read_failed; pure (pos 3))
        else do
          r ← call_write sys (pos 1) buf (pos_part cnt)
          if eqb_ℤ r minus_one then pure (pos 3) else cat_loop fuel fd

  unfoldable pub cat : (fuel : ℕ) → Prog W ℤ
  cat fuel = do
    r ← call_getargs sys buf 1024
    if eqb_ℤ r (pos 0)
        then (do
          name ← array buf 1024
          fd ← call_open sys name
          if eqb_ℤ fd minus_one
              then (do ece391_fdputs sys (pos 1) file_not_found; pure (pos 2))
              else cat_loop fuel fd)
        else do ece391_fdputs sys (pos 1) could_not_read_arguments; pure (pos 3)
