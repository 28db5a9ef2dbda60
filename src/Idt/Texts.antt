-- ===== src/Idt/Texts.antt =====
-- The texts that exception_handler of student-distrib/idt.c prints.
use linux_like_os.Base.{ℕ, List, [], ◌∷◌, ◌==◌, if◌then◌else◌, Option, none, some}
use linux_like_os.Idt.{sys_call}

abbrev pub divide_error : List ℕ
divide_error =
    b' ' ∷ b'D' ∷ b'i' ∷ b'v' ∷ b'i' ∷ b'd' ∷ b'e' ∷ b' ' ∷ b'E' ∷ b'r' ∷ b'r' ∷ b'o' ∷ b'r' ∷ b' '
    ∷ b'E' ∷ b'x' ∷ b'c' ∷ b'e' ∷ b'p' ∷ b't' ∷ b'i' ∷ b'o' ∷ b'n' ∷ b' ' ∷ []

abbrev pub debug : List ℕ
debug =
    b' ' ∷ b'D' ∷ b'e' ∷ b'b' ∷ b'u' ∷ b'g' ∷ b' ' ∷ b'E' ∷ b'x' ∷ b'c' ∷ b'e' ∷ b'p' ∷ b't' ∷ b'i'
    ∷ b'o' ∷ b'n' ∷ b' ' ∷ []

abbrev pub nmi_interrupt : List ℕ
nmi_interrupt =
    b' ' ∷ b'N' ∷ b'M' ∷ b'I' ∷ b' ' ∷ b'I' ∷ b'n' ∷ b't' ∷ b'e' ∷ b'r' ∷ b'r' ∷ b'u' ∷ b'p' ∷ b't'
    ∷ b' ' ∷ []

abbrev pub breakpoint : List ℕ
breakpoint = b' ' ∷ b'B' ∷ b'r' ∷ b'e' ∷ b'a' ∷ b'k' ∷ b'p' ∷ b'o' ∷ b'i' ∷ b'n' ∷ b't' ∷ b' ' ∷ []

abbrev pub overflow : List ℕ
overflow = b' ' ∷ b'O' ∷ b'v' ∷ b'e' ∷ b'r' ∷ b'f' ∷ b'l' ∷ b'o' ∷ b'w' ∷ b' ' ∷ []

abbrev pub bound_range : List ℕ
bound_range =
    b' ' ∷ b'B' ∷ b'O' ∷ b'U' ∷ b'N' ∷ b'D' ∷ b' ' ∷ b'R' ∷ b'a' ∷ b'n' ∷ b'g' ∷ b'e' ∷ b' ' ∷ b'E'
    ∷ b'x' ∷ b'c' ∷ b'e' ∷ b'e' ∷ b'd' ∷ b'e' ∷ b'd' ∷ b' ' ∷ []

abbrev pub invalid_opcode : List ℕ
invalid_opcode =
    b' ' ∷ b'I' ∷ b'n' ∷ b'v' ∷ b'a' ∷ b'l' ∷ b'i' ∷ b'd' ∷ b' ' ∷ b'O' ∷ b'p' ∷ b'c' ∷ b'o' ∷ b'd'
    ∷ b'e' ∷ b' ' ∷ b'(' ∷ b'U' ∷ b'n' ∷ b'd' ∷ b'e' ∷ b'f' ∷ b'i' ∷ b'n' ∷ b'e' ∷ b'd' ∷ b' '
    ∷ b'O' ∷ b'p' ∷ b'c' ∷ b'o' ∷ b'd' ∷ b'e' ∷ b')' ∷ b' ' ∷ []

abbrev pub device_not_available : List ℕ
device_not_available =
    b' ' ∷ b'D' ∷ b'e' ∷ b'v' ∷ b'i' ∷ b'c' ∷ b'e' ∷ b' ' ∷ b'N' ∷ b'o' ∷ b't' ∷ b' ' ∷ b'A' ∷ b'v'
    ∷ b'a' ∷ b'i' ∷ b'l' ∷ b'a' ∷ b'b' ∷ b'l' ∷ b'e' ∷ b' ' ∷ b'(' ∷ b'N' ∷ b'o' ∷ b' ' ∷ b'M'
    ∷ b'a' ∷ b't' ∷ b'h' ∷ b' ' ∷ b'C' ∷ b'o' ∷ b'p' ∷ b'r' ∷ b'o' ∷ b'c' ∷ b'e' ∷ b's' ∷ b's'
    ∷ b'o' ∷ b'r' ∷ b')' ∷ b' ' ∷ []

abbrev pub double_fault : List ℕ
double_fault =
    b' ' ∷ b'D' ∷ b'o' ∷ b'u' ∷ b'b' ∷ b'l' ∷ b'e' ∷ b' ' ∷ b'F' ∷ b'a' ∷ b'u' ∷ b'l' ∷ b't' ∷ b' '
    ∷ []

abbrev pub coprocessor_overrun : List ℕ
coprocessor_overrun =
    b' ' ∷ b'C' ∷ b'o' ∷ b'p' ∷ b'r' ∷ b'o' ∷ b'c' ∷ b'e' ∷ b's' ∷ b's' ∷ b'o' ∷ b'r' ∷ b' ' ∷ b'S'
    ∷ b'e' ∷ b'g' ∷ b'm' ∷ b'e' ∷ b'n' ∷ b't' ∷ b' ' ∷ b'O' ∷ b'v' ∷ b'e' ∷ b'r' ∷ b'r' ∷ b'u'
    ∷ b'n' ∷ b'(' ∷ b'r' ∷ b'e' ∷ b's' ∷ b'e' ∷ b'r' ∷ b'v' ∷ b'e' ∷ b'd' ∷ b')' ∷ b' ' ∷ []

abbrev pub invalid_tss : List ℕ
invalid_tss =
    b' ' ∷ b'I' ∷ b'n' ∷ b'v' ∷ b'a' ∷ b'l' ∷ b'i' ∷ b'd' ∷ b' ' ∷ b'T' ∷ b'S' ∷ b'S' ∷ b' ' ∷ []

abbrev pub segment_not_present : List ℕ
segment_not_present =
    b' ' ∷ b'S' ∷ b'e' ∷ b'g' ∷ b'm' ∷ b'e' ∷ b'n' ∷ b't' ∷ b' ' ∷ b'N' ∷ b'o' ∷ b't' ∷ b' ' ∷ b'P'
    ∷ b'r' ∷ b'e' ∷ b's' ∷ b'e' ∷ b'n' ∷ b't' ∷ b' ' ∷ []

abbrev pub stack_fault : List ℕ
stack_fault =
    b' ' ∷ b'S' ∷ b't' ∷ b'a' ∷ b'c' ∷ b'k' ∷ b'-' ∷ b'S' ∷ b'e' ∷ b'g' ∷ b'm' ∷ b'e' ∷ b'n' ∷ b't'
    ∷ b' ' ∷ b'F' ∷ b'a' ∷ b'u' ∷ b'l' ∷ b't' ∷ b' ' ∷ []

abbrev pub general_protection : List ℕ
general_protection =
    b' ' ∷ b'G' ∷ b'e' ∷ b'n' ∷ b'e' ∷ b'r' ∷ b'a' ∷ b'l' ∷ b' ' ∷ b'P' ∷ b'r' ∷ b'o' ∷ b't' ∷ b'e'
    ∷ b'c' ∷ b't' ∷ b'i' ∷ b'o' ∷ b'n' ∷ b' ' ∷ []

abbrev pub page_fault : List ℕ
page_fault = b' ' ∷ b'P' ∷ b'a' ∷ b'g' ∷ b'e' ∷ b' ' ∷ b'F' ∷ b'a' ∷ b'u' ∷ b'l' ∷ b't' ∷ b' ' ∷ []

abbrev pub assertion_error : List ℕ
assertion_error =
    b' ' ∷ b'A' ∷ b's' ∷ b's' ∷ b'e' ∷ b'r' ∷ b't' ∷ b'i' ∷ b'o' ∷ b'n' ∷ b' ' ∷ b'E' ∷ b'r' ∷ b'r'
    ∷ b'o' ∷ b'r' ∷ b' ' ∷ []

abbrev pub floating_point_error : List ℕ
floating_point_error =
    b' ' ∷ b'x' ∷ b'8' ∷ b'7' ∷ b' ' ∷ b'F' ∷ b'P' ∷ b'U' ∷ b' ' ∷ b'F' ∷ b'l' ∷ b'o' ∷ b'a' ∷ b't'
    ∷ b'i' ∷ b'n' ∷ b'g' ∷ b'-' ∷ b'P' ∷ b'o' ∷ b'i' ∷ b'n' ∷ b't' ∷ b' ' ∷ b'E' ∷ b'r' ∷ b'r'
    ∷ b'o' ∷ b'r' ∷ b' ' ∷ b'(' ∷ b'M' ∷ b'a' ∷ b't' ∷ b'h' ∷ b' ' ∷ b'F' ∷ b'a' ∷ b'u' ∷ b'l'
    ∷ b't' ∷ b')' ∷ b' ' ∷ []

abbrev pub alignment_check : List ℕ
alignment_check =
    b' ' ∷ b'A' ∷ b'l' ∷ b'i' ∷ b'g' ∷ b'n' ∷ b'm' ∷ b'e' ∷ b'n' ∷ b't' ∷ b' ' ∷ b'C' ∷ b'h' ∷ b'e'
    ∷ b'c' ∷ b'k' ∷ b' ' ∷ []

abbrev pub machine_check : List ℕ
machine_check =
    b' ' ∷ b'M' ∷ b'a' ∷ b'c' ∷ b'h' ∷ b'i' ∷ b'n' ∷ b'e' ∷ b' ' ∷ b'C' ∷ b'h' ∷ b'e' ∷ b'c' ∷ b'k'
    ∷ b' ' ∷ []

abbrev pub simd_error : List ℕ
simd_error =
    b' ' ∷ b'S' ∷ b'I' ∷ b'M' ∷ b'D' ∷ b' ' ∷ b'F' ∷ b'l' ∷ b'o' ∷ b'a' ∷ b't' ∷ b'i' ∷ b'n' ∷ b'g'
    ∷ b'-' ∷ b'P' ∷ b'o' ∷ b'i' ∷ b'n' ∷ b't' ∷ b' ' ∷ b'E' ∷ b'x' ∷ b'c' ∷ b'e' ∷ b'p' ∷ b't'
    ∷ b'i' ∷ b'o' ∷ b'n' ∷ b' ' ∷ []

abbrev pub system_call : List ℕ
system_call =
    b' ' ∷ b'S' ∷ b'y' ∷ b's' ∷ b't' ∷ b'e' ∷ b'm' ∷ b' ' ∷ b'C' ∷ b'a' ∷ b'l' ∷ b'l' ∷ b' ' ∷ []

-- The text of an exception: `none` where the handler returns without printing.
unfoldable pub exception_text : ℕ → Option (List ℕ)
exception_text exception_id =
    if exception_id == 0
    then some divide_error
    else if exception_id == 1
    then some debug
    else if exception_id == 2
    then some nmi_interrupt
    else if exception_id == 3
    then some breakpoint
    else if exception_id == 4
    then some overflow
    else if exception_id == 5
    then some bound_range
    else if exception_id == 6
    then some invalid_opcode
    else if exception_id == 7
    then some device_not_available
    else if exception_id == 8
    then some double_fault
    else if exception_id == 9
    then some coprocessor_overrun
    else if exception_id == 10
    then some invalid_tss
    else if exception_id == 11
    then some segment_not_present
    else if exception_id == 12
    then some stack_fault
    else if exception_id == 13
    then some general_protection
    else if exception_id == 14
    then some page_fault
    else if exception_id == 15
    then some assertion_error
    else if exception_id == 16
    then some floating_point_error
    else if exception_id == 17
    then some alignment_check
    else if exception_id == 18
    then some machine_check
    else if exception_id == 19
    then some simd_error
    else if exception_id == sys_call
    then some system_call
    else none
