-- ===== src/UserProg/Desk/Examples.antt =====
-- Runs on the kernel with a user at the terminal.
use linux_like_os.Base.{
  ℕ, suc, ◌+◌, pos, ℤ, Option, some, none, List, [], ◌∷◌, replicate, ◌++◌, length, get_or, update,
  ap,
}
use linux_like_os.Screen.{Screen}
use linux_like_os.Terminal.{Console, current}
use linux_like_os.FileSys.Descriptors.{Descriptor, no_descriptor}
use linux_like_os.Process.{Kernel}
use linux_like_os.Process.Sample.{busy, no_pcb}
use linux_like_os.UserProg.Shell.Session.{exit_text}
use linux_like_os.UserProg.Desk.{Desk}

abbrev session : List (List ℕ)
session = (b'l' ∷ b's' ∷ []) ∷ [] ∷ exit_text ∷ []

-- The interrupts type a line without an echo.
abbrev enter : List ℕ → Console → Console
enter l c = record c {
  kb_buffer = λ t j. get_or (l ++ (b'\n' ∷ [])) j 0;
  count = update c.count (current c) (suc (length l));
  read_flag = 1;
}

abbrev silent : Screen → Screen
silent s = s

abbrev terminal : Descriptor
terminal = record { file_operation_table_ptr = some 3; inode = 0; file_position = 0; flags = 1 }

abbrev process : Kernel
process = record busy {
  pcbs =
      λ i. record no_pcb { systemcall_fd_array = terminal ∷ terminal ∷ replicate 6 no_descriptor };
}

-- Every command ends at once.
abbrev run : List ℕ → Kernel → Option (ℤ × Kernel)
run command k = some (pos 0, k)

abbrev at_desk : Desk
at_desk = record {
  kernel = process;
  typing = (enter (b'l' ∷ b's' ∷ []) ∷ []) ∷ (enter [] ∷ []) ∷ (enter exit_text ∷ []) ∷ [];
  log = [];
}

abbrev asked : Desk
asked = record { kernel = process; typing = (enter (b'1' ∷ []) ∷ []) ∷ []; log = [] }
