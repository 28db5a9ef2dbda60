-- ===== src/UserProg/Texts.antt =====
-- The texts of the programs in syscalls/, each with its terminator.
use linux_like_os.Base.{ℕ, List, [], ◌∷◌}

abbrev pub could_not_read_arguments : List ℕ
could_not_read_arguments =
    b'c' ∷ b'o' ∷ b'u' ∷ b'l' ∷ b'd' ∷ b' ' ∷ b'n' ∷ b'o' ∷ b't' ∷ b' ' ∷ b'r' ∷ b'e' ∷ b'a' ∷ b'd'
    ∷ b' ' ∷ b'a' ∷ b'r' ∷ b'g' ∷ b'u' ∷ b'm' ∷ b'e' ∷ b'n' ∷ b't' ∷ b's' ∷ b'\n' ∷ 0 ∷ []

abbrev pub file_not_found : List ℕ
file_not_found =
    b'f' ∷ b'i' ∷ b'l' ∷ b'e' ∷ b' ' ∷ b'n' ∷ b'o' ∷ b't' ∷ b' ' ∷ b'f' ∷ b'o' ∷ b'u' ∷ b'n' ∷ b'd'
    ∷ b'\n' ∷ 0 ∷ []

abbrev pub file_read_failed : List ℕ
file_read_failed =
    b'f' ∷ b'i' ∷ b'l' ∷ b'e' ∷ b' ' ∷ b'r' ∷ b'e' ∷ b'a' ∷ b'd' ∷ b' ' ∷ b'f' ∷ b'a' ∷ b'i' ∷ b'l'
    ∷ b'e' ∷ b'd' ∷ b'\n' ∷ 0 ∷ []

abbrev pub directory_open_failed : List ℕ
directory_open_failed =
    b'd' ∷ b'i' ∷ b'r' ∷ b'e' ∷ b'c' ∷ b't' ∷ b'o' ∷ b'r' ∷ b'y' ∷ b' ' ∷ b'o' ∷ b'p' ∷ b'e' ∷ b'n'
    ∷ b' ' ∷ b'f' ∷ b'a' ∷ b'i' ∷ b'l' ∷ b'e' ∷ b'd' ∷ b'\n' ∷ 0 ∷ []

abbrev pub directory_entry_read_failed : List ℕ
directory_entry_read_failed =
    b'd' ∷ b'i' ∷ b'r' ∷ b'e' ∷ b'c' ∷ b't' ∷ b'o' ∷ b'r' ∷ b'y' ∷ b' ' ∷ b'e' ∷ b'n' ∷ b't' ∷ b'r'
    ∷ b'y' ∷ b' ' ∷ b'r' ∷ b'e' ∷ b'a' ∷ b'd' ∷ b' ' ∷ b'f' ∷ b'a' ∷ b'i' ∷ b'l' ∷ b'e' ∷ b'd'
    ∷ b'\n' ∷ 0 ∷ []

abbrev pub starting_shell : List ℕ
starting_shell =
    b'S' ∷ b't' ∷ b'a' ∷ b'r' ∷ b't' ∷ b'i' ∷ b'n' ∷ b'g' ∷ b' ' ∷ b'3' ∷ b'9' ∷ b'1' ∷ b' ' ∷ b'S'
    ∷ b'h' ∷ b'e' ∷ b'l' ∷ b'l' ∷ b'\n' ∷ 0 ∷ []

abbrev pub prompt : List ℕ
prompt = b'3' ∷ b'9' ∷ b'1' ∷ b'O' ∷ b'S' ∷ b'>' ∷ b' ' ∷ 0 ∷ []

abbrev pub read_from_keyboard_failed : List ℕ
read_from_keyboard_failed =
    b'r' ∷ b'e' ∷ b'a' ∷ b'd' ∷ b' ' ∷ b'f' ∷ b'r' ∷ b'o' ∷ b'm' ∷ b' ' ∷ b'k' ∷ b'e' ∷ b'y' ∷ b'b'
    ∷ b'o' ∷ b'a' ∷ b'r' ∷ b'd' ∷ b' ' ∷ b'f' ∷ b'a' ∷ b'i' ∷ b'l' ∷ b'e' ∷ b'd' ∷ b'\n' ∷ 0 ∷ []

abbrev pub exit_command : List ℕ
exit_command = b'e' ∷ b'x' ∷ b'i' ∷ b't' ∷ 0 ∷ []

abbrev pub no_such_command : List ℕ
no_such_command =
    b'n' ∷ b'o' ∷ b' ' ∷ b's' ∷ b'u' ∷ b'c' ∷ b'h' ∷ b' ' ∷ b'c' ∷ b'o' ∷ b'm' ∷ b'm' ∷ b'a' ∷ b'n'
    ∷ b'd' ∷ b'\n' ∷ 0 ∷ []

abbrev pub terminated_by_exception : List ℕ
terminated_by_exception =
    b'p' ∷ b'r' ∷ b'o' ∷ b'g' ∷ b'r' ∷ b'a' ∷ b'm' ∷ b' ' ∷ b't' ∷ b'e' ∷ b'r' ∷ b'm' ∷ b'i' ∷ b'n'
    ∷ b'a' ∷ b't' ∷ b'e' ∷ b'd' ∷ b' ' ∷ b'b' ∷ b'y' ∷ b' ' ∷ b'e' ∷ b'x' ∷ b'c' ∷ b'e' ∷ b'p'
    ∷ b't' ∷ b'i' ∷ b'o' ∷ b'n' ∷ b'\n' ∷ 0 ∷ []

abbrev pub terminated_abnormally : List ℕ
terminated_abnormally =
    b'p' ∷ b'r' ∷ b'o' ∷ b'g' ∷ b'r' ∷ b'a' ∷ b'm' ∷ b' ' ∷ b't' ∷ b'e' ∷ b'r' ∷ b'm' ∷ b'i' ∷ b'n'
    ∷ b'a' ∷ b't' ∷ b'e' ∷ b'd' ∷ b' ' ∷ b'a' ∷ b'b' ∷ b'n' ∷ b'o' ∷ b'r' ∷ b'm' ∷ b'a' ∷ b'l'
    ∷ b'l' ∷ b'y' ∷ b'\n' ∷ 0 ∷ []

abbrev pub enter_the_test_number : List ℕ
enter_the_test_number =
    b'E' ∷ b'n' ∷ b't' ∷ b'e' ∷ b'r' ∷ b' ' ∷ b't' ∷ b'h' ∷ b'e' ∷ b' ' ∷ b'T' ∷ b'e' ∷ b's' ∷ b't'
    ∷ b' ' ∷ b'N' ∷ b'u' ∷ b'm' ∷ b'b' ∷ b'e' ∷ b'r' ∷ b':' ∷ b' ' ∷ b'(' ∷ b'0' ∷ b')' ∷ b':'
    ∷ b' ' ∷ b'1' ∷ b'0' ∷ b'0' ∷ b',' ∷ b' ' ∷ b'(' ∷ b'1' ∷ b')' ∷ b':' ∷ b' ' ∷ b'1' ∷ b'0'
    ∷ b'0' ∷ b'0' ∷ b'0' ∷ b',' ∷ b' ' ∷ b'(' ∷ b'2' ∷ b')' ∷ b':' ∷ b' ' ∷ b'1' ∷ b'0' ∷ b'0'
    ∷ b'0' ∷ b'0' ∷ b'0' ∷ b'\n' ∷ 0 ∷ []

abbrev pub cannot_read_number : List ℕ
cannot_read_number =
    b'C' ∷ b'a' ∷ b'n' ∷ 39 ∷ b't' ∷ b' ' ∷ b'r' ∷ b'e' ∷ b'a' ∷ b'd' ∷ b' ' ∷ b't' ∷ b'h' ∷ b'e'
    ∷ b' ' ∷ b'n' ∷ b'u' ∷ b'm' ∷ b'b' ∷ b'e' ∷ b'r' ∷ b' ' ∷ b'f' ∷ b'r' ∷ b'o' ∷ b'm' ∷ b' '
    ∷ b'k' ∷ b'e' ∷ b'y' ∷ b'b' ∷ b'o' ∷ b'a' ∷ b'r' ∷ b'd' ∷ b'.' ∷ b'\n' ∷ 0 ∷ []

abbrev pub wrong_choice : List ℕ
wrong_choice =
    b'W' ∷ b'r' ∷ b'o' ∷ b'n' ∷ b'g' ∷ b' ' ∷ b'C' ∷ b'h' ∷ b'o' ∷ b'i' ∷ b'c' ∷ b'e' ∷ b'!' ∷ b'\n'
    ∷ 0 ∷ []

abbrev pub newline : List ℕ
newline = b'\n' ∷ 0 ∷ []

abbrev pub ask_name : List ℕ
ask_name =
    b'H' ∷ b'i' ∷ b',' ∷ b' ' ∷ b'w' ∷ b'h' ∷ b'a' ∷ b't' ∷ 39 ∷ b's' ∷ b' ' ∷ b'y' ∷ b'o' ∷ b'u'
    ∷ b'r' ∷ b' ' ∷ b'n' ∷ b'a' ∷ b'm' ∷ b'e' ∷ b'?' ∷ b' ' ∷ 0 ∷ []

abbrev pub cannot_read_name : List ℕ
cannot_read_name =
    b'C' ∷ b'a' ∷ b'n' ∷ 39 ∷ b't' ∷ b' ' ∷ b'r' ∷ b'e' ∷ b'a' ∷ b'd' ∷ b' ' ∷ b'n' ∷ b'a' ∷ b'm'
    ∷ b'e' ∷ b' ' ∷ b'f' ∷ b'r' ∷ b'o' ∷ b'm' ∷ b' ' ∷ b'k' ∷ b'e' ∷ b'y' ∷ b'b' ∷ b'o' ∷ b'a'
    ∷ b'r' ∷ b'd' ∷ b'.' ∷ b'\n' ∷ 0 ∷ []

abbrev pub hello : List ℕ
hello = b'H' ∷ b'e' ∷ b'l' ∷ b'l' ∷ b'o' ∷ b',' ∷ b' ' ∷ 0 ∷ []

abbrev pub this_ran : List ℕ
this_ran =
    b'H' ∷ b'e' ∷ b'l' ∷ b'l' ∷ b'o' ∷ b',' ∷ b' ' ∷ b'i' ∷ b'f' ∷ b' ' ∷ b't' ∷ b'h' ∷ b'i' ∷ b's'
    ∷ b' ' ∷ b'r' ∷ b'a' ∷ b'n' ∷ b',' ∷ b' ' ∷ b't' ∷ b'h' ∷ b'e' ∷ b' ' ∷ b'p' ∷ b'r' ∷ b'o'
    ∷ b'g' ∷ b'r' ∷ b'a' ∷ b'm' ∷ b' ' ∷ b'w' ∷ b'a' ∷ b's' ∷ b' ' ∷ b'c' ∷ b'o' ∷ b'r' ∷ b'r'
    ∷ b'e' ∷ b'c' ∷ b't' ∷ b'.' ∷ b' ' ∷ b'Y' ∷ b'a' ∷ b'y' ∷ b'!' ∷ b'\n' ∷ 0 ∷ []

abbrev pub could_not_read_argument : List ℕ
could_not_read_argument =
    b'c' ∷ b'o' ∷ b'u' ∷ b'l' ∷ b'd' ∷ b' ' ∷ b'n' ∷ b'o' ∷ b't' ∷ b' ' ∷ b'r' ∷ b'e' ∷ b'a' ∷ b'd'
    ∷ b' ' ∷ b'a' ∷ b'r' ∷ b'g' ∷ b'u' ∷ b'm' ∷ b'e' ∷ b'n' ∷ b't' ∷ b'\n' ∷ 0 ∷ []

abbrev pub file_open_failed : List ℕ
file_open_failed =
    b'f' ∷ b'i' ∷ b'l' ∷ b'e' ∷ b' ' ∷ b'o' ∷ b'p' ∷ b'e' ∷ b'n' ∷ b' ' ∷ b'f' ∷ b'a' ∷ b'i' ∷ b'l'
    ∷ b'e' ∷ b'd' ∷ b'\n' ∷ 0 ∷ []

abbrev pub file_close_failed : List ℕ
file_close_failed =
    b'f' ∷ b'i' ∷ b'l' ∷ b'e' ∷ b' ' ∷ b'c' ∷ b'l' ∷ b'o' ∷ b's' ∷ b'e' ∷ b' ' ∷ b'f' ∷ b'a' ∷ b'i'
    ∷ b'l' ∷ b'e' ∷ b'd' ∷ b'\n' ∷ 0 ∷ []

abbrev pub colon : List ℕ
colon = b':' ∷ 0 ∷ []

abbrev pub this_directory : List ℕ
this_directory = b'.' ∷ 0 ∷ []

abbrev pub rtc : List ℕ
rtc = b'r' ∷ b't' ∷ b'c' ∷ 0 ∷ []
