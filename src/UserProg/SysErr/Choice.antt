-- ===== src/UserProg/SysErr/Choice.antt =====
-- The choice of a test of syscalls/ece391syserr.c, and all of them in a row.
use linux_like_os.Base.{
  ℕ, refl, sym, ap, ◌∙◌, ◌==◌, if◌then◌else◌, true, false, ℤ, pos, List, ◌++◌, Bool,
}
use linux_like_os.Memory.{Mem}
use linux_like_os.Screen.{Screen, puts}
use linux_like_os.UserProg.{System, Prog, ◌>>=◌, ◌>>◌, pure, ece391_fdputs}
use linux_like_os.CString.Compare.{cstr}
use linux_like_os.UserProg.Stream.{then_some}
use linux_like_os.UserProg.SysErr.{
  err_neg_fd, err_big_fd, err_open_lots, err_open, err_unopened, err_vidmap, err_stdin_out,
  err_syscall_num, all_tests, run_test,
}
use linux_like_os.UserProg.SysErr.Texts
use linux_like_os.UserProg.SysErr.Expected.{Refuses, Passed, fdputs-shown, verdict-Passed}
use linux_like_os.UserProg.SysErr.Passes.{
  err_neg_fd-Passed, err_big_fd-Passed, err_open-Passed, err_vidmap-Passed, err_stdin_out-Passed,
  err_syscall_num-Passed, err_unopened-Passed,
}
use linux_like_os.UserProg.SysErr.Lots.{err_open_lots-Passed}
use linux_like_os.UserProg.Printing.{puts-++}

-- The texts of all tests in their order, and the last line.
abbrev all_passed : List ℕ
all_passed =
    cstr Texts.err_neg_fd_pass
    ++ (cstr Texts.err_big_fd_pass
        ++ (cstr Texts.err_open_lots_pass
            ++ (cstr Texts.err_open_pass
                ++ (cstr Texts.err_unopened_pass
                    ++ (cstr Texts.err_vidmap_pass
                        ++ (cstr Texts.err_stdin_out_pass
                            ++ (cstr Texts.err_syscall_num_pass ++ cstr Texts.overall_pass)))))))

-- What is printed for each key.
abbrev pub test_text : (key : ℕ) → List ℕ
test_text key =
    if key == b'0'
    then all_passed
    else if key == b'1'
    then cstr Texts.err_neg_fd_pass
    else if key == b'2'
    then cstr Texts.err_big_fd_pass
    else if key == b'3'
    then cstr Texts.err_open_lots_pass
    else if key == b'4'
    then cstr Texts.err_open_pass
    else if key == b'5'
    then cstr Texts.err_unopened_pass
    else if key == b'6'
    then cstr Texts.err_vidmap_pass
    else if key == b'7'
    then cstr Texts.err_stdin_out_pass
    else if key == b'8'
    then cstr Texts.err_syscall_num_pass
    else cstr Texts.invalid_test

if_same :
    {A B : Type 0} (P : A → B → Type 0) (b : Bool) {x x' : A} {y y' : B}
    → P x y
    → P x' y'
    → P (if b then x else x') (if b then y else y')
if_same P true here there = here
if_same P false here there = there

module _ {W : Type 0} (sys : System W) (call_sys : ℤ → Prog W ℤ) (buf line : ℕ)
    (screen : W → Screen) (At : (a b : ℕ) → W → Type 0)
    (refuses : Refuses sys call_sys screen At) where
  Passed->>= :
      (a b : List ℕ) (p : Prog W ℕ) (f : ℕ → Prog W ℕ) (w : W) (m : Mem)
      → Passed sys call_sys buf line screen At refuses a w m (p w m)
      → ((w' : W) → At 2 2 w' → Passed sys call_sys buf line screen At refuses b w' m (f 0 w' m))
      → Passed sys call_sys buf line screen At refuses (a ++ b) w m ((p >>= f) w m)
  Passed->>= a b p f w m first later =
      let next = later first.state first.at in
      record {
        state = next.state;
        ended = then_some p f w first.state m m 0 first.ended ∙ next.ended;
        at = next.at;
        shown = next.shown ∙ ap (puts b) first.shown ∙ sym (puts-++ a b (screen w));
      }

  all_tests-Passed :
      (w : W) (m : Mem)
      → At 2 2 w
      → Passed sys call_sys buf line screen At refuses all_passed w m
          (all_tests sys call_sys buf line w m)
  unfolding all_tests
  all_tests-Passed w m at =
      Passed->>= (cstr Texts.err_neg_fd_pass) _ (err_neg_fd sys call_sys buf line) _ w m
        (err_neg_fd-Passed sys call_sys buf line screen At refuses w m at)
        (λ w at.
          Passed->>= (cstr Texts.err_big_fd_pass) _ (err_big_fd sys call_sys buf line) _ w m
            (err_big_fd-Passed sys call_sys buf line screen At refuses w m at)
            (λ w at.
              Passed->>= (cstr Texts.err_open_lots_pass) _ (err_open_lots sys call_sys buf line) _ w
                m (err_open_lots-Passed sys call_sys buf line screen At refuses w m at)
                (λ w at.
                  Passed->>= (cstr Texts.err_open_pass) _ (err_open sys call_sys buf line) _ w m
                    (err_open-Passed sys call_sys buf line screen At refuses w m at)
                    (λ w at.
                      Passed->>= (cstr Texts.err_unopened_pass) _
                        (err_unopened sys call_sys buf line) _ w m
                        (err_unopened-Passed sys call_sys buf line screen At refuses w m at)
                        (λ w at.
                          Passed->>= (cstr Texts.err_vidmap_pass) _
                            (err_vidmap sys call_sys buf line) _ w m
                            (err_vidmap-Passed sys call_sys buf line screen At refuses w m at)
                            (λ w at.
                              Passed->>= (cstr Texts.err_stdin_out_pass) _
                                (err_stdin_out sys call_sys buf line) _ w m
                                (err_stdin_out-Passed sys call_sys buf line screen At refuses w m
                                  at)
                                (λ w at.
                                  Passed->>= (cstr Texts.err_syscall_num_pass) _
                                    (err_syscall_num sys call_sys buf line) _ w m
                                    (err_syscall_num-Passed sys call_sys buf line screen At refuses
                                      w m at)
                                    (λ w at.
                                      verdict-Passed sys call_sys buf line screen At refuses
                                        Texts.overall_fail Texts.overall_pass w m refl at))))))))

  invalid-Passed :
      (w : W) (m : Mem)
      → At 2 2 w
      → Passed sys call_sys buf line screen At refuses
          (cstr Texts.invalid_test)
          w
          m
          ((ece391_fdputs sys (pos 1) Texts.invalid_test >> pure 0) w m)
  invalid-Passed w m at =
      let (w', goes, at', shown) =
        fdputs-shown sys call_sys buf line screen At refuses Texts.invalid_test w m refl at in
      record {
        state = w';
        ended = then_some (ece391_fdputs sys (pos 1) Texts.invalid_test) _ w w' m m tt goes;
        at = at';
        shown = shown;
      }

  -- Whatever key is chosen, the tests pass.
  pub run_test-Passed :
      (key : ℕ) (w : W) (m : Mem)
      → At 2 2 w
      → Passed sys call_sys buf line screen At refuses
          (test_text key)
          w
          m
          (run_test sys call_sys buf line key w m)
  unfolding run_test
  run_test-Passed key w m at =
      let P : List ℕ → Prog W ℕ → Type 0 =
        λ t p. Passed sys call_sys buf line screen At refuses t w m (p w m) in
      if_same P (key == b'0') (all_tests-Passed w m at) (
        if_same P (key == b'1') (err_neg_fd-Passed sys call_sys buf line screen At refuses w m at) (
          if_same P (key == b'2') (err_big_fd-Passed sys call_sys buf line screen At refuses w m at)
            (if_same P (key == b'3')
              (err_open_lots-Passed sys call_sys buf line screen At refuses w m at)
              (if_same P (key == b'4')
                (err_open-Passed sys call_sys buf line screen At refuses w m at)
                (if_same P (key == b'5')
                  (err_unopened-Passed sys call_sys buf line screen At refuses w m at)
                  (if_same P (key == b'6')
                    (err_vidmap-Passed sys call_sys buf line screen At refuses w m at)
                    (if_same P (key == b'7')
                      (err_stdin_out-Passed sys call_sys buf line screen At refuses w m at)
                      (if_same P (key == b'8')
                        (err_syscall_num-Passed sys call_sys buf line screen At refuses w m at)
                        (invalid-Passed w m at)))))))))
