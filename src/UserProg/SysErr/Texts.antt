-- ===== src/UserProg/SysErr/Texts.antt =====
-- The texts of syscalls/ece391syserr.c, each with its terminator.
use linux_like_os.Base.{ℕ, List, [], ◌∷◌}

abbrev pub read_fail : List ℕ
read_fail = b'r' ∷ b'e' ∷ b'a' ∷ b'd' ∷ b' ' ∷ b'f' ∷ b'a' ∷ b'i' ∷ b'l' ∷ b'\n' ∷ 0 ∷ []

abbrev pub write_fail : List ℕ
write_fail = b'w' ∷ b'r' ∷ b'i' ∷ b't' ∷ b'e' ∷ b' ' ∷ b'f' ∷ b'a' ∷ b'i' ∷ b'l' ∷ b'\n' ∷ 0 ∷ []

abbrev pub close_fail : List ℕ
close_fail = b'c' ∷ b'l' ∷ b'o' ∷ b's' ∷ b'e' ∷ b' ' ∷ b'f' ∷ b'a' ∷ b'i' ∷ b'l' ∷ b'\n' ∷ 0 ∷ []

abbrev pub err_neg_fd_fail : List ℕ
err_neg_fd_fail =
    b'e' ∷ b'r' ∷ b'r' ∷ b'_' ∷ b'n' ∷ b'e' ∷ b'g' ∷ b'_' ∷ b'f' ∷ b'd' ∷ b':' ∷ b' ' ∷ b'F' ∷ b'A'
    ∷ b'I' ∷ b'L' ∷ b'\n' ∷ 0 ∷ []

abbrev pub err_neg_fd_pass : List ℕ
err_neg_fd_pass =
    b'e' ∷ b'r' ∷ b'r' ∷ b'_' ∷ b'n' ∷ b'e' ∷ b'g' ∷ b'_' ∷ b'f' ∷ b'd' ∷ b':' ∷ b' ' ∷ b'P' ∷ b'A'
    ∷ b'S' ∷ b'S' ∷ b'\n' ∷ 0 ∷ []

abbrev pub err_big_fd_fail : List ℕ
err_big_fd_fail =
    b'e' ∷ b'r' ∷ b'r' ∷ b'_' ∷ b'b' ∷ b'i' ∷ b'g' ∷ b'_' ∷ b'f' ∷ b'd' ∷ b':' ∷ b' ' ∷ b'F' ∷ b'A'
    ∷ b'I' ∷ b'L' ∷ b'\n' ∷ 0 ∷ []

abbrev pub err_big_fd_pass : List ℕ
err_big_fd_pass =
    b'e' ∷ b'r' ∷ b'r' ∷ b'_' ∷ b'b' ∷ b'i' ∷ b'g' ∷ b'_' ∷ b'f' ∷ b'd' ∷ b':' ∷ b' ' ∷ b'P' ∷ b'A'
    ∷ b'S' ∷ b'S' ∷ b'\n' ∷ 0 ∷ []

abbrev pub err_open_lots_pass : List ℕ
err_open_lots_pass =
    b'e' ∷ b'r' ∷ b'r' ∷ b'_' ∷ b'o' ∷ b'p' ∷ b'e' ∷ b'n' ∷ b'_' ∷ b'l' ∷ b'o' ∷ b't' ∷ b's' ∷ b':'
    ∷ b' ' ∷ b'P' ∷ b'A' ∷ b'S' ∷ b'S' ∷ b'\n' ∷ 0 ∷ []

abbrev pub err_open_lots_fail : List ℕ
err_open_lots_fail =
    b'e' ∷ b'r' ∷ b'r' ∷ b'_' ∷ b'o' ∷ b'p' ∷ b'e' ∷ b'n' ∷ b'_' ∷ b'l' ∷ b'o' ∷ b't' ∷ b's' ∷ b':'
    ∷ b' ' ∷ b'F' ∷ b'A' ∷ b'I' ∷ b'L' ∷ b'\n' ∷ 0 ∷ []

abbrev pub helloo : List ℕ
helloo = b'h' ∷ b'e' ∷ b'l' ∷ b'l' ∷ b'o' ∷ b'o' ∷ 0 ∷ []

abbrev pub helloo_fail : List ℕ
helloo_fail =
    b'\'' ∷ b'h' ∷ b'e' ∷ b'l' ∷ b'l' ∷ b'o' ∷ b'o' ∷ b'\'' ∷ b' ' ∷ b'f' ∷ b'a' ∷ b'i' ∷ b'l'
    ∷ b'\n' ∷ 0 ∷ []

abbrev pub shel : List ℕ
shel = b's' ∷ b'h' ∷ b'e' ∷ b'l' ∷ 0 ∷ []

abbrev pub shel_fail : List ℕ
shel_fail =
    b'\'' ∷ b's' ∷ b'h' ∷ b'e' ∷ b'l' ∷ b'\'' ∷ b' ' ∷ b'f' ∷ b'a' ∷ b'i' ∷ b'l' ∷ b'\n' ∷ 0 ∷ []

abbrev pub empty_name : List ℕ
empty_name = 0 ∷ []

abbrev pub empty_string_fail : List ℕ
empty_string_fail =
    b'e' ∷ b'm' ∷ b'p' ∷ b't' ∷ b'y' ∷ b' ' ∷ b's' ∷ b't' ∷ b'r' ∷ b'i' ∷ b'n' ∷ b'g' ∷ b' ' ∷ b'f'
    ∷ b'a' ∷ b'i' ∷ b'l' ∷ b'\n' ∷ 0 ∷ []

abbrev pub err_open_fail : List ℕ
err_open_fail =
    b'e' ∷ b'r' ∷ b'r' ∷ b'_' ∷ b'o' ∷ b'p' ∷ b'e' ∷ b'n' ∷ b':' ∷ b' ' ∷ b'F' ∷ b'A' ∷ b'I' ∷ b'L'
    ∷ b'\n' ∷ 0 ∷ []

abbrev pub err_open_pass : List ℕ
err_open_pass =
    b'e' ∷ b'r' ∷ b'r' ∷ b'_' ∷ b'o' ∷ b'p' ∷ b'e' ∷ b'n' ∷ b':' ∷ b' ' ∷ b'P' ∷ b'A' ∷ b'S' ∷ b'S'
    ∷ b'\n' ∷ 0 ∷ []

abbrev pub close_unopened_fail : List ℕ
close_unopened_fail =
    b'c' ∷ b'l' ∷ b'o' ∷ b's' ∷ b'e' ∷ b' ' ∷ b'u' ∷ b'n' ∷ b'o' ∷ b'p' ∷ b'e' ∷ b'n' ∷ b'e' ∷ b'd'
    ∷ b' ' ∷ b'o' ∷ b'r' ∷ b' ' ∷ b'i' ∷ b'n' ∷ b'v' ∷ b'a' ∷ b'l' ∷ b'i' ∷ b'd' ∷ b' ' ∷ b'f'
    ∷ b'd' ∷ b' ' ∷ b'f' ∷ b'a' ∷ b'i' ∷ b'l' ∷ b'\n' ∷ 0 ∷ []

abbrev pub read_unopened_fail : List ℕ
read_unopened_fail =
    b'r' ∷ b'e' ∷ b'a' ∷ b'd' ∷ b' ' ∷ b'f' ∷ b'r' ∷ b'o' ∷ b'm' ∷ b' ' ∷ b'u' ∷ b'n' ∷ b'o' ∷ b'p'
    ∷ b'e' ∷ b'n' ∷ b'e' ∷ b'd' ∷ b' ' ∷ b'f' ∷ b'd' ∷ b' ' ∷ b'f' ∷ b'a' ∷ b'i' ∷ b'l' ∷ b'\n' ∷ 0
    ∷ []

abbrev pub write_unopened_fail : List ℕ
write_unopened_fail =
    b'w' ∷ b'r' ∷ b'i' ∷ b't' ∷ b'e' ∷ b' ' ∷ b't' ∷ b'o' ∷ b' ' ∷ b'u' ∷ b'n' ∷ b'o' ∷ b'p' ∷ b'e'
    ∷ b'n' ∷ b'e' ∷ b'd' ∷ b' ' ∷ b'f' ∷ b'd' ∷ b' ' ∷ b'f' ∷ b'a' ∷ b'i' ∷ b'l' ∷ b'\n' ∷ 0 ∷ []

abbrev pub err_unopened_fail : List ℕ
err_unopened_fail =
    b'e' ∷ b'r' ∷ b'r' ∷ b'_' ∷ b'u' ∷ b'n' ∷ b'o' ∷ b'p' ∷ b'e' ∷ b'n' ∷ b'e' ∷ b'd' ∷ b':' ∷ b' '
    ∷ b'F' ∷ b'A' ∷ b'I' ∷ b'L' ∷ b'\n' ∷ 0 ∷ []

abbrev pub err_unopened_pass : List ℕ
err_unopened_pass =
    b'e' ∷ b'r' ∷ b'r' ∷ b'_' ∷ b'u' ∷ b'n' ∷ b'o' ∷ b'p' ∷ b'e' ∷ b'n' ∷ b'e' ∷ b'd' ∷ b':' ∷ b' '
    ∷ b'P' ∷ b'A' ∷ b'S' ∷ b'S' ∷ b'\n' ∷ 0 ∷ []

abbrev pub null_pointer_fail : List ℕ
null_pointer_fail =
    b'N' ∷ b'u' ∷ b'l' ∷ b'l' ∷ b' ' ∷ b'p' ∷ b'o' ∷ b'i' ∷ b'n' ∷ b't' ∷ b'e' ∷ b'r' ∷ b' ' ∷ b'f'
    ∷ b'a' ∷ b'i' ∷ b'l' ∷ b'\n' ∷ 0 ∷ []

abbrev pub kernel_pointer_fail : List ℕ
kernel_pointer_fail =
    b'K' ∷ b'e' ∷ b'r' ∷ b'n' ∷ b'e' ∷ b'l' ∷ b' ' ∷ b'p' ∷ b'o' ∷ b'i' ∷ b'n' ∷ b't' ∷ b'e' ∷ b'r'
    ∷ b' ' ∷ b'f' ∷ b'a' ∷ b'i' ∷ b'l' ∷ b' ' ∷ b'f' ∷ b'a' ∷ b'i' ∷ b'l' ∷ b'\n' ∷ 0 ∷ []

abbrev pub err_vidmap_fail : List ℕ
err_vidmap_fail =
    b'e' ∷ b'r' ∷ b'r' ∷ b'_' ∷ b'v' ∷ b'i' ∷ b'd' ∷ b'm' ∷ b'a' ∷ b'p' ∷ b':' ∷ b' ' ∷ b'F' ∷ b'A'
    ∷ b'I' ∷ b'L' ∷ b'\n' ∷ 0 ∷ []

abbrev pub err_vidmap_pass : List ℕ
err_vidmap_pass =
    b'e' ∷ b'r' ∷ b'r' ∷ b'_' ∷ b'v' ∷ b'i' ∷ b'd' ∷ b'm' ∷ b'a' ∷ b'p' ∷ b':' ∷ b' ' ∷ b'P' ∷ b'A'
    ∷ b'S' ∷ b'S' ∷ b'\n' ∷ 0 ∷ []

abbrev pub write_stdin_fail : List ℕ
write_stdin_fail =
    b'w' ∷ b'r' ∷ b'i' ∷ b't' ∷ b'e' ∷ b' ' ∷ b't' ∷ b'o' ∷ b' ' ∷ b's' ∷ b't' ∷ b'd' ∷ b'i' ∷ b'n'
    ∷ b' ' ∷ b'f' ∷ b'a' ∷ b'i' ∷ b'l' ∷ b'\n' ∷ 0 ∷ []

abbrev pub read_stdout_fail : List ℕ
read_stdout_fail =
    b'r' ∷ b'e' ∷ b'a' ∷ b'd' ∷ b' ' ∷ b'f' ∷ b'r' ∷ b'o' ∷ b'm' ∷ b' ' ∷ b's' ∷ b't' ∷ b'd' ∷ b'o'
    ∷ b'u' ∷ b't' ∷ b' ' ∷ b'f' ∷ b'a' ∷ b'i' ∷ b'l' ∷ b'\n' ∷ 0 ∷ []

abbrev pub err_stdin_out_fail : List ℕ
err_stdin_out_fail =
    b'e' ∷ b'r' ∷ b'r' ∷ b'_' ∷ b's' ∷ b't' ∷ b'd' ∷ b'i' ∷ b'n' ∷ b'_' ∷ b'o' ∷ b'u' ∷ b't' ∷ b':'
    ∷ b' ' ∷ b'F' ∷ b'A' ∷ b'I' ∷ b'L' ∷ b'\n' ∷ 0 ∷ []

abbrev pub err_stdin_out_pass : List ℕ
err_stdin_out_pass =
    b'e' ∷ b'r' ∷ b'r' ∷ b'_' ∷ b's' ∷ b't' ∷ b'd' ∷ b'i' ∷ b'n' ∷ b'_' ∷ b'o' ∷ b'u' ∷ b't' ∷ b':'
    ∷ b' ' ∷ b'P' ∷ b'A' ∷ b'S' ∷ b'S' ∷ b'\n' ∷ 0 ∷ []

abbrev pub syscall_0_fail : List ℕ
syscall_0_fail =
    b's' ∷ b'y' ∷ b's' ∷ b'c' ∷ b'a' ∷ b'l' ∷ b'l' ∷ b' ' ∷ b'0' ∷ b' ' ∷ b'f' ∷ b'a' ∷ b'i' ∷ b'l'
    ∷ b'\n' ∷ 0 ∷ []

abbrev pub big_num_fail : List ℕ
big_num_fail =
    b'b' ∷ b'i' ∷ b'g' ∷ b' ' ∷ b'n' ∷ b'u' ∷ b'm' ∷ b' ' ∷ b's' ∷ b'y' ∷ b's' ∷ b'c' ∷ b'a' ∷ b'l'
    ∷ b'l' ∷ b' ' ∷ b'f' ∷ b'a' ∷ b'i' ∷ b'l' ∷ b'\n' ∷ 0 ∷ []

abbrev pub neg_num_fail : List ℕ
neg_num_fail =
    b'n' ∷ b'e' ∷ b'g' ∷ b' ' ∷ b'n' ∷ b'u' ∷ b'm' ∷ b' ' ∷ b's' ∷ b'y' ∷ b's' ∷ b'c' ∷ b'a' ∷ b'l'
    ∷ b'l' ∷ b' ' ∷ b'f' ∷ b'a' ∷ b'i' ∷ b'l' ∷ b'\n' ∷ 0 ∷ []

abbrev pub err_syscall_num_fail : List ℕ
err_syscall_num_fail =
    b'e' ∷ b'r' ∷ b'r' ∷ b'_' ∷ b's' ∷ b'y' ∷ b's' ∷ b'c' ∷ b'a' ∷ b'l' ∷ b'l' ∷ b'_' ∷ b'n' ∷ b'u'
    ∷ b'm' ∷ b':' ∷ b' ' ∷ b'F' ∷ b'A' ∷ b'I' ∷ b'L' ∷ b'\n' ∷ 0 ∷ []

abbrev pub err_syscall_num_pass : List ℕ
err_syscall_num_pass =
    b'e' ∷ b'r' ∷ b'r' ∷ b'_' ∷ b's' ∷ b'y' ∷ b's' ∷ b'c' ∷ b'a' ∷ b'l' ∷ b'l' ∷ b'_' ∷ b'n' ∷ b'u'
    ∷ b'm' ∷ b':' ∷ b' ' ∷ b'P' ∷ b'A' ∷ b'S' ∷ b'S' ∷ b'\n' ∷ 0 ∷ []

abbrev pub choose_text : List ℕ
choose_text =
    b'C' ∷ b'h' ∷ b'o' ∷ b'o' ∷ b's' ∷ b'e' ∷ b' ' ∷ b'f' ∷ b'r' ∷ b'o' ∷ b'm' ∷ b' ' ∷ b't' ∷ b'e'
    ∷ b's' ∷ b't' ∷ b's' ∷ b' ' ∷ b'1' ∷ b'-' ∷ b'8' ∷ b'.' ∷ b' ' ∷ b'0' ∷ b' ' ∷ b't' ∷ b'o'
    ∷ b' ' ∷ b'r' ∷ b'u' ∷ b'n' ∷ b' ' ∷ b'a' ∷ b'l' ∷ b'l' ∷ b':' ∷ b' ' ∷ 0 ∷ []

abbrev pub cannot_read_test : List ℕ
cannot_read_test =
    b'C' ∷ b'a' ∷ b'n' ∷ b'\'' ∷ b't' ∷ b' ' ∷ b'r' ∷ b'e' ∷ b'a' ∷ b'd' ∷ b' ' ∷ b't' ∷ b'e' ∷ b's'
    ∷ b't' ∷ b' ' ∷ b'#' ∷ b'\n' ∷ 0 ∷ []

abbrev pub overall_fail : List ℕ
overall_fail =
    b'\n' ∷ b'O' ∷ b'v' ∷ b'e' ∷ b'r' ∷ b'a' ∷ b'l' ∷ b'l' ∷ b' ' ∷ b'T' ∷ b'e' ∷ b's' ∷ b't' ∷ b's'
    ∷ b':' ∷ b' ' ∷ b'F' ∷ b'A' ∷ b'I' ∷ b'L' ∷ b'\n' ∷ 0 ∷ []

abbrev pub overall_pass : List ℕ
overall_pass =
    b'\n' ∷ b'O' ∷ b'v' ∷ b'e' ∷ b'r' ∷ b'a' ∷ b'l' ∷ b'l' ∷ b' ' ∷ b'T' ∷ b'e' ∷ b's' ∷ b't' ∷ b's'
    ∷ b':' ∷ b' ' ∷ b'P' ∷ b'A' ∷ b'S' ∷ b'S' ∷ b'\n' ∷ 0 ∷ []

abbrev pub invalid_test : List ℕ
invalid_test =
    b'I' ∷ b'n' ∷ b'v' ∷ b'a' ∷ b'l' ∷ b'i' ∷ b'd' ∷ b' ' ∷ b't' ∷ b'e' ∷ b's' ∷ b't' ∷ b' ' ∷ b'n'
    ∷ b'u' ∷ b'm' ∷ b'b' ∷ b'e' ∷ b'r' ∷ b'.' ∷ b' ' ∷ b'C' ∷ b'h' ∷ b'o' ∷ b'o' ∷ b's' ∷ b'e'
    ∷ b' ' ∷ b'f' ∷ b'r' ∷ b'o' ∷ b'm' ∷ b' ' ∷ b't' ∷ b'e' ∷ b's' ∷ b't' ∷ b's' ∷ b' ' ∷ b'1'
    ∷ b'-' ∷ b'8' ∷ b' ' ∷ b'o' ∷ b'r' ∷ b' ' ∷ b'0' ∷ 0 ∷ []
