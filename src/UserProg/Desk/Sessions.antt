-- ===== src/UserProg/Desk/Sessions.antt =====
-- The shell and counter of syscalls/ on the kernel of student-distrib.
use linux_like_os.Base.{ℕ, ◌+◌, ◌≡◌, ◌∙◌, ℤ, pos, Option, none, some, List, length}
use linux_like_os.Memory.{Mem}
use linux_like_os.Screen.{Screen}
use linux_like_os.Process.{Kernel, Environment}
use linux_like_os.UserProg.{System}
use linux_like_os.UserProg.OnKernel.{kernel_screen}
use linux_like_os.UserProg.Shell.Lines.{Stands}
use linux_like_os.UserProg.Desk.{Desk, desk_system, AtPrompt, Sits}

abbrev pub desk_screen : Desk → Screen
desk_screen w = kernel_screen w.kernel

-- A command comes back, whatever its status, and leaves the terminal as it found it.
pub record ComesBack (run : List ℕ → Kernel → Option (ℤ × Kernel)) : Type 0 where
  pub returns :
      (command : List ℕ) (k : Kernel)
      → AtPrompt k
      → (r : ℤ) × (k' : Kernel) × (run command k ≡ some (r, k')) × AtPrompt k'

module _ (env : Environment) (args before : ℕ) (run : List ℕ → Kernel → Option (ℤ × Kernel))
    (echo : Screen → Screen) where
  abbrev sys : System Desk
  sys = desk_system env args before run

  -- What a read of the next line leaves.
  record Delivered (l : List ℕ) (lines : List (List ℕ)) (buf : ℕ) (w : Desk)
      (r : Option (ℤ × Desk × Mem)) : Type 0 where
    state : Desk
    memory : Mem
    returns : r ≡ some (pos (length l + 1), state, memory)
    sits : Sits echo lines state
    same_log : state.log ≡ w.log
    screen : desk_screen state ≡ echo (desk_screen w)
    stands : Stands l buf memory
    newline : memory (buf + length l) ≡ b'\n'
