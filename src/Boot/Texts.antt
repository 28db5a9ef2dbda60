-- ===== src/Boot/Texts.antt =====
-- The formats that entry of student-distrib/kernel.c prints with, each with its terminator.
use linux_like_os.Base.{ℕ, List, [], ◌∷◌}

abbrev pub invalid_magic : List ℕ
invalid_magic =
    b'I' ∷ b'n' ∷ b'v' ∷ b'a' ∷ b'l' ∷ b'i' ∷ b'd' ∷ b' ' ∷ b'm' ∷ b'a' ∷ b'g' ∷ b'i' ∷ b'c' ∷ b' '
    ∷ b'n' ∷ b'u' ∷ b'm' ∷ b'b' ∷ b'e' ∷ b'r' ∷ b':' ∷ b' ' ∷ b'0' ∷ b'x' ∷ b'%' ∷ b'#' ∷ b'x'
    ∷ b'\n' ∷ 0 ∷ []

abbrev pub flags_text : List ℕ
flags_text =
    b'f' ∷ b'l' ∷ b'a' ∷ b'g' ∷ b's' ∷ b' ' ∷ b'=' ∷ b' ' ∷ b'0' ∷ b'x' ∷ b'%' ∷ b'#' ∷ b'x' ∷ b'\n'
    ∷ 0 ∷ []

abbrev pub mem_text : List ℕ
mem_text =
    b'm' ∷ b'e' ∷ b'm' ∷ b'_' ∷ b'l' ∷ b'o' ∷ b'w' ∷ b'e' ∷ b'r' ∷ b' ' ∷ b'=' ∷ b' ' ∷ b'%' ∷ b'u'
    ∷ b'K' ∷ b'B' ∷ b',' ∷ b' ' ∷ b'm' ∷ b'e' ∷ b'm' ∷ b'_' ∷ b'u' ∷ b'p' ∷ b'p' ∷ b'e' ∷ b'r'
    ∷ b' ' ∷ b'=' ∷ b' ' ∷ b'%' ∷ b'u' ∷ b'K' ∷ b'B' ∷ b'\n' ∷ 0 ∷ []

abbrev pub boot_device_text : List ℕ
boot_device_text =
    b'b' ∷ b'o' ∷ b'o' ∷ b't' ∷ b'_' ∷ b'd' ∷ b'e' ∷ b'v' ∷ b'i' ∷ b'c' ∷ b'e' ∷ b' ' ∷ b'=' ∷ b' '
    ∷ b'0' ∷ b'x' ∷ b'%' ∷ b'#' ∷ b'x' ∷ b'\n' ∷ 0 ∷ []

abbrev pub cmdline_text : List ℕ
cmdline_text =
    b'c' ∷ b'm' ∷ b'd' ∷ b'l' ∷ b'i' ∷ b'n' ∷ b'e' ∷ b' ' ∷ b'=' ∷ b' ' ∷ b'%' ∷ b's' ∷ b'\n' ∷ 0
    ∷ []

abbrev pub module_loaded : List ℕ
module_loaded =
    b'M' ∷ b'o' ∷ b'd' ∷ b'u' ∷ b'l' ∷ b'e' ∷ b' ' ∷ b'%' ∷ b'd' ∷ b' ' ∷ b'l' ∷ b'o' ∷ b'a' ∷ b'd'
    ∷ b'e' ∷ b'd' ∷ b' ' ∷ b'a' ∷ b't' ∷ b' ' ∷ b'a' ∷ b'd' ∷ b'd' ∷ b'r' ∷ b'e' ∷ b's' ∷ b's'
    ∷ b':' ∷ b' ' ∷ b'0' ∷ b'x' ∷ b'%' ∷ b'#' ∷ b'x' ∷ b'\n' ∷ 0 ∷ []

abbrev pub module_ends : List ℕ
module_ends =
    b'M' ∷ b'o' ∷ b'd' ∷ b'u' ∷ b'l' ∷ b'e' ∷ b' ' ∷ b'%' ∷ b'd' ∷ b' ' ∷ b'e' ∷ b'n' ∷ b'd' ∷ b's'
    ∷ b' ' ∷ b'a' ∷ b't' ∷ b' ' ∷ b'a' ∷ b'd' ∷ b'd' ∷ b'r' ∷ b'e' ∷ b's' ∷ b's' ∷ b':' ∷ b' '
    ∷ b'0' ∷ b'x' ∷ b'%' ∷ b'#' ∷ b'x' ∷ b'\n' ∷ 0 ∷ []

abbrev pub first_bytes : List ℕ
first_bytes =
    b'F' ∷ b'i' ∷ b'r' ∷ b's' ∷ b't' ∷ b' ' ∷ b'f' ∷ b'e' ∷ b'w' ∷ b' ' ∷ b'b' ∷ b'y' ∷ b't' ∷ b'e'
    ∷ b's' ∷ b' ' ∷ b'o' ∷ b'f' ∷ b' ' ∷ b'm' ∷ b'o' ∷ b'd' ∷ b'u' ∷ b'l' ∷ b'e' ∷ b':' ∷ b'\n' ∷ 0
    ∷ []

abbrev pub byte_text : List ℕ
byte_text = b'0' ∷ b'x' ∷ b'%' ∷ b'x' ∷ b' ' ∷ 0 ∷ []

abbrev pub newline : List ℕ
newline = b'\n' ∷ 0 ∷ []

abbrev pub both_bits : List ℕ
both_bits =
    b'B' ∷ b'o' ∷ b't' ∷ b'h' ∷ b' ' ∷ b'b' ∷ b'i' ∷ b't' ∷ b's' ∷ b' ' ∷ b'4' ∷ b' ' ∷ b'a' ∷ b'n'
    ∷ b'd' ∷ b' ' ∷ b'5' ∷ b' ' ∷ b'a' ∷ b'r' ∷ b'e' ∷ b' ' ∷ b's' ∷ b'e' ∷ b't' ∷ b'.' ∷ b'\n' ∷ 0
    ∷ []

abbrev pub elf_text : List ℕ
elf_text =
    b'e' ∷ b'l' ∷ b'f' ∷ b'_' ∷ b's' ∷ b'e' ∷ b'c' ∷ b':' ∷ b' ' ∷ b'n' ∷ b'u' ∷ b'm' ∷ b' ' ∷ b'='
    ∷ b' ' ∷ b'%' ∷ b'u' ∷ b',' ∷ b' ' ∷ b's' ∷ b'i' ∷ b'z' ∷ b'e' ∷ b' ' ∷ b'=' ∷ b' ' ∷ b'0'
    ∷ b'x' ∷ b'%' ∷ b'#' ∷ b'x' ∷ b',' ∷ b' ' ∷ b'a' ∷ b'd' ∷ b'd' ∷ b'r' ∷ b' ' ∷ b'=' ∷ b' '
    ∷ b'0' ∷ b'x' ∷ b'%' ∷ b'#' ∷ b'x' ∷ b',' ∷ b' ' ∷ b's' ∷ b'h' ∷ b'n' ∷ b'd' ∷ b'x' ∷ b' '
    ∷ b'=' ∷ b' ' ∷ b'0' ∷ b'x' ∷ b'%' ∷ b'#' ∷ b'x' ∷ b'\n' ∷ 0 ∷ []

abbrev pub mmap_text : List ℕ
mmap_text =
    b'm' ∷ b'm' ∷ b'a' ∷ b'p' ∷ b'_' ∷ b'a' ∷ b'd' ∷ b'd' ∷ b'r' ∷ b' ' ∷ b'=' ∷ b' ' ∷ b'0' ∷ b'x'
    ∷ b'%' ∷ b'#' ∷ b'x' ∷ b',' ∷ b' ' ∷ b'm' ∷ b'm' ∷ b'a' ∷ b'p' ∷ b'_' ∷ b'l' ∷ b'e' ∷ b'n'
    ∷ b'g' ∷ b't' ∷ b'h' ∷ b' ' ∷ b'=' ∷ b' ' ∷ b'0' ∷ b'x' ∷ b'%' ∷ b'x' ∷ b'\n' ∷ 0 ∷ []

abbrev pub mmap_entry : List ℕ
mmap_entry =
    b' ' ∷ b' ' ∷ b' ' ∷ b' ' ∷ b's' ∷ b'i' ∷ b'z' ∷ b'e' ∷ b' ' ∷ b'=' ∷ b' ' ∷ b'0' ∷ b'x' ∷ b'%'
    ∷ b'x' ∷ b',' ∷ b' ' ∷ b'b' ∷ b'a' ∷ b's' ∷ b'e' ∷ b'_' ∷ b'a' ∷ b'd' ∷ b'd' ∷ b'r' ∷ b' '
    ∷ b'=' ∷ b' ' ∷ b'0' ∷ b'x' ∷ b'%' ∷ b'#' ∷ b'x' ∷ b'%' ∷ b'#' ∷ b'x' ∷ b'\n' ∷ b' ' ∷ b' '
    ∷ b' ' ∷ b' ' ∷ b't' ∷ b'y' ∷ b'p' ∷ b'e' ∷ b' ' ∷ b'=' ∷ b' ' ∷ b'0' ∷ b'x' ∷ b'%' ∷ b'x'
    ∷ b',' ∷ b' ' ∷ b' ' ∷ b'l' ∷ b'e' ∷ b'n' ∷ b'g' ∷ b't' ∷ b'h' ∷ b' ' ∷ b' ' ∷ b' ' ∷ b' '
    ∷ b'=' ∷ b' ' ∷ b'0' ∷ b'x' ∷ b'%' ∷ b'#' ∷ b'x' ∷ b'%' ∷ b'#' ∷ b'x' ∷ b'\n' ∷ 0 ∷ []
