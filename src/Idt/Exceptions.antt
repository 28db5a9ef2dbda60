-- ===== src/Idt/Exceptions.antt =====
-- exception_handler of student-distrib/idt.c, and the status with which the program that raised an
-- exception ends.
pub mod Reports
use linux_like_os.Base.{ℕ, Option, none, some, List, [], ◌∷◌, ◌++◌}
use linux_like_os.Memory.{Mem}
use linux_like_os.Screen.{Screen}
use linux_like_os.Screen.Printf.{printf}
use linux_like_os.Idt.Texts.{exception_text}
use linux_like_os.Process.{Kernel, Environment}
use linux_like_os.Process.Life.{Ending, halt}

abbrev pub exception_halt : ℕ
exception_halt = 111

-- The handler returns to the code that raised the exception, or `halt` ends the program.
pub data Handled : Type 0 where
  ignored : Handled
  halted : Ending → Handled

abbrev pub on_screen : Screen → Kernel → Kernel
on_screen s k = record k { console = record k.console { screen = s } }

unfoldable pub exception_handler :
    Environment
    → (esp ebp before : ℕ) (stack : Mem) (exception_id : ℕ) → Kernel
    → Mem
    → Option Handled
exception_handler env esp ebp before stack exception_id k m = elim (exception_text exception_id) [
  | none ↦ some ignored
  | some text ↦ elim (printf (text ++ 0 ∷ []) [] k.console.screen) [
    | none ↦ none
    | some (n, s) ↦ elim (halt env esp ebp before stack exception_halt (on_screen s k) m) [
      | none ↦ none
      | some ending ↦ some (halted ending)
    ]
  ]
]
