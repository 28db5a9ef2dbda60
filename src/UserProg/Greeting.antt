-- ===== src/UserProg/Greeting.antt =====
-- syscalls/ece391hello.c and syscalls/ece391testprint.c.
use linux_like_os.Base.{ℕ, ◌+◌, if◌then◌else◌, eqb_ℤ, ℤ, pos, minus_one, pos_part}
use linux_like_os.UserProg.{System, Prog, ◌>>=◌, ◌>>◌, pure, array, poke, call_read, ece391_fdputs}
use linux_like_os.UserProg.Texts.{ask_name, cannot_read_name, hello, this_ran}

-- `buf` is the address of the array of 1024 bytes. A count that is read is not negative.
module _ {W : Type 0} (sys : System W) (buf : ℕ) where
  -- `main` of ece391hello.c.
  unfoldable pub greet : Prog W ℤ
  greet = do
    ece391_fdputs sys (pos 1) ask_name
    cnt ← call_read sys (pos 0) buf 1023
    if eqb_ℤ cnt minus_one
        then (do ece391_fdputs sys (pos 1) cannot_read_name; pure (pos 3))
        else do
          poke (buf + pos_part cnt) 0
          ece391_fdputs sys (pos 1) hello
          s ← array buf 1024
          ece391_fdputs sys (pos 1) s
          pure (pos 0)

  -- `main` of ece391testprint.c.
  unfoldable pub testprint : Prog W ℤ
  testprint = do ece391_fdputs sys (pos 1) this_ran; pure (pos 0)
