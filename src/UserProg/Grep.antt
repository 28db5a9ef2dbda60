-- ===== src/UserProg/Grep.antt =====
-- syscalls/ece391grep.c.
use linux_like_os.Base.{
  ℕ, zero, suc, ◌+◌, ◌-◌, leb, ◌==◌, not, ◌&&◌, if◌then◌else◌, eqb_ℤ, ℤ, pos, minus_one, pos_part,
  Bool, true, false, Option, none, some, List, [], ◌∷◌,
}
use linux_like_os.Memory.{Mem}
use linux_like_os.FileSys.Image.{bytes_at}
use linux_like_os.UserLib.{ece391_strncmp, ece391_strcpy, ece391_strlen}
use linux_like_os.UserProg.{
  System, Prog, ◌>>=◌, ◌>>◌, pure, unfinished, array, peek, poke, defined, call_getargs, call_open,
  call_read, call_close, ece391_fdputs,
}
use linux_like_os.UserProg.Texts.{
  could_not_read_argument, directory_open_failed, directory_entry_read_failed, file_open_failed,
  file_read_failed, file_close_failed, colon, newline, this_directory,
}

-- The end of the line that begins at `i`, with `rounds` bytes up to `last`.
unfoldable pub find_line_end : (data_at : ℕ) (rounds i : ℕ) → Mem → ℕ
find_line_end data_at zero i m = i
find_line_end data_at (suc rounds) i m =
    let rest = find_line_end data_at rounds (i + 1) m in
    if m (data_at + i) == b'\n' then i else rest

-- Whether the wanted text `s`, of `s_len` bytes, begins at one of `rounds` places from `check` on.
unfoldable pub has_match : (s : List ℕ) (s_len data_at rounds check : ℕ) → Mem → Option Bool
has_match s s_len data_at zero check m = some false
has_match [] s_len data_at (suc rounds) check m = none
has_match (c ∷ s) s_len data_at (suc rounds) check m =
    let rest = has_match (c ∷ s) s_len data_at rounds (check + 1) m in
    if c == m (data_at + check)
    then elim (ece391_strncmp (bytes_at m (data_at + check) (1025 - check)) (c ∷ s) s_len) [
      | none ↦ none
      | some r ↦ if eqb_ℤ r (pos 0) then some true else rest
    ]
    else rest

-- `data_at`, `search` and `buf` are the addresses of the arrays of 1025, 1024 and 33 bytes; `s` and
-- `fname` are read where they stand. A count that is read is not negative.
module _ {W : Type 0} (sys : System W) (data_at : ℕ) where
  unfoldable pub print_match : (fname : List ℕ) (line_start : ℕ) → Prog W (Unit {0})
  print_match fname line_start = do
    ece391_fdputs sys (pos 1) fname
    ece391_fdputs sys (pos 1) colon
    line ← array (data_at + line_start) (1025 - line_start)
    ece391_fdputs sys (pos 1) line
    ece391_fdputs sys (pos 1) newline

  -- The inner `while`: what is left in `last`.
  unfoldable pub lines_loop :
      (fuel : ℕ) (s fname : List ℕ) (s_len : ℕ) (cnt : ℤ) (last line_start : ℕ) → Prog W ℕ
  lines_loop zero s fname s_len cnt last line_start w m = none
  lines_loop (suc fuel) s fname s_len cnt last line_start w m =
      let line_end = find_line_end data_at (last - line_start) line_start m in
      let cut : Prog W ℕ = (do
        poke (data_at + line_end) 0
        rest ← array (data_at + line_start) (1025 - line_start)
        copy_down rest
        pure (last - line_start)) in
      let search : Prog W ℕ = (do
        poke (data_at + line_end) 0
        found ← matches line_end
        if found then print_match fname line_start else pure tt
        if leb last (line_end + 1)
            then pure 0
            else lines_loop fuel s fname s_len cnt last (line_end + 1)) in
      if not (m (data_at + line_end) == b'\n') && (not (eqb_ℤ cnt (pos 0)) && not (line_start == 0))
      then cut w m
      else search w m
    where
      copy_down : List ℕ → Prog W (Unit {0})
      copy_down rest w' m' = elim (ece391_strcpy m' data_at rest) [
        | none ↦ none
        | some m'' ↦ some (tt, w', m'')
      ]

      matches : ℕ → Prog W Bool
      matches line_end w' m' =
          elim (has_match s s_len data_at (line_end - line_start) line_start m') [
            | none ↦ none
            | some b ↦ some (b, w', m')
          ]

  -- The outer `while`.
  unfoldable pub file_loop :
      (fuel : ℕ) (s fname : List ℕ) (s_len : ℕ) (fd : ℤ) (last : ℕ) → Prog W ℤ
  file_loop zero s fname s_len fd last = unfinished
  file_loop (suc fuel) s fname s_len fd last = do
    cnt ← call_read sys fd (data_at + last) (1024 - last)
    if eqb_ℤ cnt minus_one
        then (do ece391_fdputs sys (pos 1) file_read_failed; pure minus_one)
        else do
          last' ← lines_loop 1025 s fname s_len cnt (last + pos_part cnt) 0
          if eqb_ℤ cnt (pos 0)
              then (do
                r ← call_close sys fd
                if eqb_ℤ r minus_one
                    then (do ece391_fdputs sys (pos 1) file_close_failed; pure minus_one)
                    else pure (pos 0))
              else file_loop fuel s fname s_len fd last'

  unfoldable pub do_one_file : (fuel : ℕ) (s fname : List ℕ) → Prog W ℤ
  do_one_file fuel s fname = do
    s_len ← defined (ece391_strlen s)
    fd ← call_open sys fname
    if eqb_ℤ fd minus_one
        then (do ece391_fdputs sys (pos 1) file_open_failed; pure minus_one)
        else file_loop fuel s fname s_len fd 0

  unfoldable pub grep_loop : (files fuel search buf : ℕ) (fd : ℤ) → Prog W ℤ
  grep_loop zero fuel search buf fd = unfinished
  grep_loop (suc files) fuel search buf fd = do
    cnt ← call_read sys fd buf 32
    first ← peek buf
    if eqb_ℤ cnt (pos 0)
        then pure (pos 0)
        else if eqb_ℤ cnt minus_one
        then (do ece391_fdputs sys (pos 1) directory_entry_read_failed; pure (pos 3))
        else if first == b'.'
        then grep_loop files fuel search buf fd
        else do
          poke (buf + pos_part cnt) 0
          s ← array search 1024
          fname ← array buf 33
          r ← do_one_file fuel s fname
          if eqb_ℤ r (pos 0) then grep_loop files fuel search buf fd else pure (pos 3)

  unfoldable pub grep : (files fuel search buf : ℕ) → Prog W ℤ
  grep files fuel search buf = do
    r ← call_getargs sys search 1024
    if eqb_ℤ r (pos 0)
        then (do
          fd ← call_open sys this_directory
          if eqb_ℤ fd minus_one
              then (do ece391_fdputs sys (pos 1) directory_open_failed; pure (pos 2))
              else grep_loop files fuel search buf fd)
        else do ece391_fdputs sys (pos 1) could_not_read_argument; pure (pos 3)
