-- ===== src/UserProg/Desk.antt =====
-- The programs in syscalls/ on the kernel of student-distrib, with a user who types lines.
pub mod Reading
pub mod Sessions
mod Examples
use linux_like_os.Base.{
  ℕ, suc, ◌+◌, ◌<◌, ◌≡◌, ◌≢◌, ℤ, pos, Option, none, some, List, [], ◌∷◌, ◌++◌, length, get_or,
}
use linux_like_os.Memory.{Mem}
use linux_like_os.Screen.{Screen}
use linux_like_os.CString.Compare.{cstr}
use linux_like_os.Terminal.{Console, current, typed, typed_count, await}
use linux_like_os.Terminal.Line.{IsLine}
use linux_like_os.Process.{Kernel, Environment, current_fds}
use linux_like_os.Process.Calls.{read, write, close, sys_open}
use linux_like_os.Process.Memory.{getargs, vidmap}
use linux_like_os.Os.Files.{StdOpen}
use linux_like_os.UserProg.{System}

-- The kernel, what the interrupts bring during each read to come, and the commands that were handed
-- to `execute`.
pub record Desk : Type 0 where
  pub kernel : Kernel
  pub typing : List (List (Console → Console))
  pub log : List (List ℕ)

abbrev pub with_kernel : Kernel → Desk → Desk
with_kernel k w = record w { kernel = k }

-- `args`, `before` and `run` as for `kernel_system`.
unfoldable pub desk_read :
    Environment
    → ℤ
    → (buf nbytes : ℕ) → (List (List (Console → Console)))
    → Desk
    → Mem
    → Option (ℤ × Desk × Mem)
desk_read env fd buf nbytes [] w m = none
desk_read env fd buf nbytes (arrivals ∷ typing) w m =
    elim (read (record env { arrivals = arrivals }) fd (some buf) (pos nbytes) w.kernel m) [
      | none ↦ none
      | some (r, k, m') ↦ some (r, record w { kernel = k; typing = typing }, m')
    ]

abbrev pub on_desk : Desk → Option (ℤ × Kernel) → Option (ℤ × Desk)
on_desk w none = none
on_desk w (some (r, k)) = some (r, with_kernel k w)

unfoldable pub desk_system :
    Environment → (args before : ℕ) → (List ℕ → Kernel → Option (ℤ × Kernel)) → System Desk
desk_system env args before run = record {
  getargs = λ buf nbytes w m.
      let (r, m') = getargs args (some buf) (pos nbytes) w.kernel m in some (r, w, m');
  open_file =
      λ name w. on_desk w (sys_open env (some (record { before = before; bytes = name })) w.kernel);
  read = λ fd buf nbytes w m. desk_read env fd buf nbytes w.typing w m;
  write = λ fd buf nbytes w m. on_desk w (write env fd (some buf) (pos nbytes) w.kernel m);
  close = λ fd w. on_desk w (close fd w.kernel);
  vidmap = λ screen_start w m.
      let (r, k, m') = vidmap screen_start w.kernel m in some (r, with_kernel k w, m');
  execute =
      λ command w. on_desk (record w { log = w.log ++ (cstr command ∷ []) }) (run command w.kernel);
}

-- No key is held down, caps lock is off, and nothing has been typed.
pub record Idle (c : Console) : Type 0 where
  pub shift : c.shift_flag ≡ 0
  pub caps : c.caps_flag ≡ 0
  pub ctrl : c.ctrl_flag ≡ 0
  pub alt : c.alt_flag ≡ 0
  pub empty : (t : ℕ) → c.count t ≡ 0

-- The line has been typed, up to Enter, and no key is held down.
pub record Entered (l : List ℕ) (c : Console) : Type 0 where
  pub line : IsLine (typed c) (length l)
  pub bytes : (j : ℕ) → j < length l → typed c j ≡ get_or l j 0
  pub count : typed_count c ≡ suc (length l)
  pub short : length l < 127
  pub shift : c.shift_flag ≡ 0
  pub caps : c.caps_flag ≡ 0
  pub ctrl : c.ctrl_flag ≡ 0
  pub alt : c.alt_flag ≡ 0
  pub others : (t : ℕ) → t ≢ current c → c.count t ≡ 0

-- Interrupts that type a line while a read waits; `echo` is what becomes of the screen.
pub record Types (echo : Screen → Screen) (l : List ℕ) (arrivals : List (Console → Console))
    : Type 0 where
  pub comes :
      (c : Console)
      → Idle c
      → (c' : Console) × (await c arrivals ≡ some c') × Entered l c' × (c'.screen ≡ echo c.screen)

abbrev pub AllTyped :
    (echo : Screen → Screen) → List (List ℕ) → List (List (Console → Console)) → Type 0
AllTyped echo [] typing = Unit {0}
AllTyped echo (l ∷ lines) [] = ⊥
AllTyped echo (l ∷ lines) (arrivals ∷ typing) = Types echo l arrivals × AllTyped echo lines typing

-- The running process reads from the terminal and writes to it, and nothing has been typed.
pub record AtPrompt (k : Kernel) : Type 0 where
  pub files : StdOpen (current_fds k)
  pub idle : Idle k.console

-- The user is going to type these lines.
pub record Sits (echo : Screen → Screen) (lines : List (List ℕ)) (w : Desk) : Type 0 where
  pub prompt : AtPrompt w.kernel
  pub typing : AllTyped echo lines w.typing
