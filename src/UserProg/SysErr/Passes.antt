-- ===== src/UserProg/SysErr/Passes.antt =====
-- The tests of syscalls/ece391syserr.c over a kernel that refuses what it must refuse.
use linux_like_os.Base.{
  ℕ, zero, suc, ◌+◌, ◌≤◌, ◌≡◌, refl, sym, subst, ◌∙◌, arith, false, eqb_ℤ, ℤ, pos, some,
}
use linux_like_os.Memory.{Mem}
use linux_like_os.Screen.{Screen}
use linux_like_os.UserProg.{System, Prog, call_open, call_read, call_write, call_close, call_vidmap}
use linux_like_os.CString.Compare.{cstr}
use linux_like_os.UserProg.Stream.{then_some}
use linux_like_os.UserProg.SysErr.{
  big_fd, neg_fd, big_num, neg_num, wrong_fd, err_neg_fd, err_big_fd, err_open, close_unopened,
  read_unopened, write_unopened, err_unopened, err_vidmap, err_stdin_out, err_syscall_num,
}
use linux_like_os.UserProg.SysErr.Texts
use linux_like_os.UserProg.SysErr.Expected.{
  Refuses, Passed, verdict-Passed, refused, refused_last, shut,
}

module _ {W : Type 0} (sys : System W) (call_sys : ℤ → Prog W ℤ) (buf line : ℕ)
    (screen : W → Screen) (At : (a b : ℕ) → W → Type 0)
    (refuses : Refuses sys call_sys screen At) where
  wrong_fd-refused :
      (fd : ℤ) (w : W) (m : Mem)
      → eqb_ℤ fd (pos 0) ≡ false
      → eqb_ℤ fd (pos 1) ≡ false
      → At 2 2 w
      → wrong_fd sys call_sys buf line fd w m ≡ some (0, w, m)
  unfolding wrong_fd
  wrong_fd-refused fd w m zero_not one_not at =
      refused sys call_sys buf line screen At refuses (call_read sys fd buf 31) Texts.read_fail 0 _
        w m (refuses.read_refused fd buf 31 w m at zero_not)
      ∙ refused sys call_sys buf line screen At refuses (call_write sys fd buf 31) Texts.write_fail
          0 _ w m
          (shut sys call_sys buf line screen At refuses _ w m
            (refuses.write_refused fd buf 31 w m at one_not))
      ∙ refused_last sys call_sys buf line screen At refuses (call_close sys fd) Texts.close_fail 0
          w m (shut sys call_sys buf line screen At refuses _ w m (refuses.close_refused fd w at))

  pub err_neg_fd-Passed :
      (w : W) (m : Mem)
      → At 2 2 w
      → Passed sys call_sys buf line screen At refuses
          (cstr Texts.err_neg_fd_pass)
          w
          m
          (err_neg_fd sys call_sys buf line w m)
  unfolding err_neg_fd
  err_neg_fd-Passed w m at =
      subst (Passed sys call_sys buf line screen At refuses (cstr Texts.err_neg_fd_pass) w m)
        (sym (
          then_some (wrong_fd sys call_sys buf line neg_fd) _ w w m m 0
            (wrong_fd-refused neg_fd w m refl refl at)))
        (verdict-Passed sys call_sys buf line screen At refuses Texts.err_neg_fd_fail
          Texts.err_neg_fd_pass w m refl at)

  pub err_big_fd-Passed :
      (w : W) (m : Mem)
      → At 2 2 w
      → Passed sys call_sys buf line screen At refuses
          (cstr Texts.err_big_fd_pass)
          w
          m
          (err_big_fd sys call_sys buf line w m)
  unfolding err_big_fd
  err_big_fd-Passed w m at =
      subst (Passed sys call_sys buf line screen At refuses (cstr Texts.err_big_fd_pass) w m)
        (sym (
          then_some (wrong_fd sys call_sys buf line big_fd) _ w w m m 0
            (wrong_fd-refused big_fd w m refl refl at)))
        (verdict-Passed sys call_sys buf line screen At refuses Texts.err_big_fd_fail
          Texts.err_big_fd_pass w m refl at)

  pub err_open-Passed :
      (w : W) (m : Mem)
      → At 2 2 w
      → Passed sys call_sys buf line screen At refuses
          (cstr Texts.err_open_pass)
          w
          m
          (err_open sys call_sys buf line w m)
  unfolding err_open
  err_open-Passed w m at =
      subst (Passed sys call_sys buf line screen At refuses (cstr Texts.err_open_pass) w m)
        (sym (
          refused sys call_sys buf line screen At refuses (call_open sys Texts.helloo)
            Texts.helloo_fail 0 _ w m
            (shut sys call_sys buf line screen At refuses _ w m (refuses.helloo_refused w))
          ∙ refused sys call_sys buf line screen At refuses (call_open sys Texts.shel)
              Texts.shel_fail 0 _ w m
              (shut sys call_sys buf line screen At refuses _ w m (refuses.shel_refused w))
          ∙ refused sys call_sys buf line screen At refuses (call_open sys Texts.empty_name)
              Texts.empty_string_fail 0 _ w m
              (shut sys call_sys buf line screen At refuses _ w m (refuses.empty_name_refused w))))
        (verdict-Passed sys call_sys buf line screen At refuses Texts.err_open_fail
          Texts.err_open_pass w m refl at)

  pub err_vidmap-Passed :
      (w : W) (m : Mem)
      → At 2 2 w
      → Passed sys call_sys buf line screen At refuses
          (cstr Texts.err_vidmap_pass)
          w
          m
          (err_vidmap sys call_sys buf line w m)
  unfolding err_vidmap
  err_vidmap-Passed w m at =
      subst (Passed sys call_sys buf line screen At refuses (cstr Texts.err_vidmap_pass) w m)
        (sym (
          refused sys call_sys buf line screen At refuses (call_vidmap sys 0)
            Texts.null_pointer_fail 0 _ w m (refuses.vidmap_refused 0 w m (omega arith))
          ∙ refused sys call_sys buf line screen At refuses (call_vidmap sys 0x400000)
              Texts.kernel_pointer_fail 0 _ w m
              (refuses.vidmap_refused 0x400000 w m (omega arith))))
        (verdict-Passed sys call_sys buf line screen At refuses Texts.err_vidmap_fail
          Texts.err_vidmap_pass w m refl at)

  pub err_stdin_out-Passed :
      (w : W) (m : Mem)
      → At 2 2 w
      → Passed sys call_sys buf line screen At refuses
          (cstr Texts.err_stdin_out_pass)
          w
          m
          (err_stdin_out sys call_sys buf line w m)
  unfolding err_stdin_out
  err_stdin_out-Passed w m at =
      subst (Passed sys call_sys buf line screen At refuses (cstr Texts.err_stdin_out_pass) w m)
        (sym (
          refused sys call_sys buf line screen At refuses (call_write sys (pos 0) buf 31)
            Texts.write_stdin_fail 0 _ w m
            (shut sys call_sys buf line screen At refuses _ w m
              (refuses.write_refused (pos 0) buf 31 w m at refl))
          ∙ refused sys call_sys buf line screen At refuses (call_read sys (pos 1) buf 31)
              Texts.read_stdout_fail 0 _ w m (refuses.read_refused (pos 1) buf 31 w m at refl)))
        (verdict-Passed sys call_sys buf line screen At refuses Texts.err_stdin_out_fail
          Texts.err_stdin_out_pass w m refl at)

  pub err_syscall_num-Passed :
      (w : W) (m : Mem)
      → At 2 2 w
      → Passed sys call_sys buf line screen At refuses
          (cstr Texts.err_syscall_num_pass)
          w
          m
          (err_syscall_num sys call_sys buf line w m)
  unfolding err_syscall_num
  err_syscall_num-Passed w m at =
      subst (Passed sys call_sys buf line screen At refuses (cstr Texts.err_syscall_num_pass) w m)
        (sym (
          refused sys call_sys buf line screen At refuses (call_sys big_num) Texts.syscall_0_fail 0
            _ w m (refuses.call_refused big_num w m refl)
          ∙ refused sys call_sys buf line screen At refuses (call_sys neg_num) Texts.big_num_fail 0
              _ w m (refuses.call_refused neg_num w m refl)
          ∙ refused sys call_sys buf line screen At refuses (call_sys (pos 0)) Texts.neg_num_fail 0
              _ w m (refuses.call_refused (pos 0) w m refl)))
        (verdict-Passed sys call_sys buf line screen At refuses Texts.err_syscall_num_fail
          Texts.err_syscall_num_pass w m refl at)

  close_unopened-refused :
      (rounds i fail : ℕ) (w : W) (m : Mem)
      → At 2 2 w
      → close_unopened sys call_sys buf line rounds i fail w m ≡ some (fail, w, m)
  unfolding close_unopened
  close_unopened-refused zero i fail w m at = refl
  close_unopened-refused (suc rounds) i fail w m at =
      refused sys call_sys buf line screen At refuses (call_close sys (pos i))
        Texts.close_unopened_fail fail _ w m
        (shut sys call_sys buf line screen At refuses _ w m (refuses.close_refused (pos i) w at))
      ∙ close_unopened-refused rounds (i + 1) fail w m at

  read_unopened-refused :
      (rounds i fail : ℕ) (w : W) (m : Mem)
      → 2 ≤ i
      → At 2 2 w
      → read_unopened sys call_sys buf line rounds i fail w m ≡ some (fail, w, m)
  unfolding read_unopened
  read_unopened-refused zero i fail w m le at = refl
  read_unopened-refused (suc rounds) i fail w m le at =
      refused sys call_sys buf line screen At refuses (call_read sys (pos i) buf 31)
        Texts.read_unopened_fail fail _ w m
        (refuses.read_refused (pos i) buf 31 w m at (ground (arith, le)))
      ∙ read_unopened-refused rounds (i + 1) fail w m (omega (arith, le)) at

  write_unopened-refused :
      (rounds i fail : ℕ) (w : W) (m : Mem)
      → 2 ≤ i
      → At 2 2 w
      → write_unopened sys call_sys buf line rounds i fail w m ≡ some (fail, w, m)
  unfolding write_unopened
  write_unopened-refused zero i fail w m le at = refl
  write_unopened-refused (suc rounds) i fail w m le at =
      refused sys call_sys buf line screen At refuses (call_write sys (pos i) buf 31)
        Texts.write_unopened_fail fail _ w m
        (shut sys call_sys buf line screen At refuses _ w m
          (refuses.write_refused (pos i) buf 31 w m at (ground (arith, le))))
      ∙ write_unopened-refused rounds (i + 1) fail w m (omega (arith, le)) at

  pub err_unopened-Passed :
      (w : W) (m : Mem)
      → At 2 2 w
      → Passed sys call_sys buf line screen At refuses
          (cstr Texts.err_unopened_pass)
          w
          m
          (err_unopened sys call_sys buf line w m)
  unfolding err_unopened
  err_unopened-Passed w m at =
      subst (Passed sys call_sys buf line screen At refuses (cstr Texts.err_unopened_pass) w m)
        (sym (
          then_some (close_unopened sys call_sys buf line 8 0 0) _ w w m m 0
            (close_unopened-refused 8 0 0 w m at)
          ∙ then_some (read_unopened sys call_sys buf line 6 2 0) _ w w m m 0
              (read_unopened-refused 6 2 0 w m (omega arith) at)
          ∙ then_some (write_unopened sys call_sys buf line 6 2 0) _ w w m m 0
              (write_unopened-refused 6 2 0 w m (omega arith) at)))
        (verdict-Passed sys call_sys buf line screen At refuses Texts.err_unopened_fail
          Texts.err_unopened_pass w m refl at)
