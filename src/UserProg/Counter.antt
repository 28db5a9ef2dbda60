-- ===== src/UserProg/Counter.antt =====
-- syscalls/ece391counter.c.
pub mod Stored
pub mod Counted
use linux_like_os.Base.{
  ℕ, zero, suc, ◌+◌, ltb, ◌==◌, ◌&&◌, ◌||◌, if◌then◌else◌, eqb_ℤ, ℤ, pos, minus_one, pos_part, Bool,
  [], ◌∷◌, ◌++◌,
}
use linux_like_os.UserLib.{ece391_strlen, ece391_itoa}
use linux_like_os.UserProg.{
  System, Prog, ◌>>=◌, ◌>>◌, pure, array, peek, poke, store, defined, call_read, ece391_fdputs,
}
use linux_like_os.UserProg.Texts.{enter_the_test_number, cannot_read_number, wrong_choice, newline}

-- `buf` is the address of the array of 1024 bytes. A count that is read is not negative.
module _ {W : Type 0} (sys : System W) (buf : ℕ) where
  -- The `switch` on the first byte.
  unfoldable pub counter_max : ℕ → ℕ
  counter_max c =
      if c == b'0' then 100 else if c == b'1' then 10000 else if c == b'2' then 100000 else 0

  -- The `for` loop, with `rounds` left.
  unfoldable pub counter_loop : (rounds i : ℕ) → Prog W ℤ
  counter_loop zero i = pure (pos 0)
  counter_loop (suc rounds) i = do
    store buf (ece391_itoa (i + 1) 10 ++ (0 ∷ []))
    s ← array buf 1024
    ece391_fdputs sys (pos 1) s
    ece391_fdputs sys (pos 1) newline
    counter_loop rounds (i + 1)

  unfoldable pub is_wrong : (len first : ℕ) → Bool
  is_wrong len first = ltb 2 len || ((len == 2) && (ltb first b'0' || ltb b'2' first))

  unfoldable pub counter : Prog W ℤ
  counter = do
    ece391_fdputs sys (pos 1) enter_the_test_number
    cnt ← call_read sys (pos 0) buf 1023
    if eqb_ℤ cnt minus_one
        then (do ece391_fdputs sys (pos 1) cannot_read_number; pure (pos 3))
        else do
          poke (buf + pos_part cnt) 0
          s ← array buf 1024
          len ← defined (ece391_strlen s)
          first ← peek buf
          if is_wrong len first
              then (do ece391_fdputs sys (pos 1) wrong_choice; pure (pos 0))
              else counter_loop (counter_max first) 0
