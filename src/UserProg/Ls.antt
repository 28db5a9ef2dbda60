-- ===== src/UserProg/Ls.antt =====
-- syscalls/ece391ls.c.
use linux_like_os.Base.{ℕ, zero, suc, ◌+◌, if◌then◌else◌, eqb_ℤ, ℤ, pos, minus_one, pos_part}
use linux_like_os.UserProg.{
  System, Prog, ◌>>=◌, ◌>>◌, pure, unfinished, poke, call_open, call_read, call_write,
  ece391_fdputs,
}
use linux_like_os.UserProg.Texts.{
  this_directory, directory_open_failed, directory_entry_read_failed,
}

-- `buf` is the address of the array of 33 bytes. A count that is read is not negative.
module _ {W : Type 0} (sys : System W) (buf : ℕ) where
  unfoldable pub ls_loop : (fuel : ℕ) (fd : ℤ) → Prog W ℤ
  ls_loop zero fd = unfinished
  ls_loop (suc fuel) fd = do
    cnt ← call_read sys fd buf 32
    if eqb_ℤ cnt (pos 0)
        then pure (pos 0)
        else if eqb_ℤ cnt minus_one
        then (do ece391_fdputs sys (pos 1) directory_entry_read_failed; pure (pos 3))
        else do
          poke (buf + pos_part cnt) b'\n'
          r ← call_write sys (pos 1) buf (pos_part cnt + 1)
          if eqb_ℤ r minus_one then pure (pos 3) else ls_loop fuel fd

  unfoldable pub ls : (fuel : ℕ) → Prog W ℤ
  ls fuel = do
    fd ← call_open sys this_directory
    if eqb_ℤ fd minus_one
        then (do ece391_fdputs sys (pos 1) directory_open_failed; pure (pos 2))
        else ls_loop fuel fd
