-- ===== src/UserProg.antt =====
-- The programs in syscalls/: what they share. A program runs over the kernel's system calls,
-- which it takes as a record of operations on some state, and over its own memory.
pub mod Texts
mod Examples
pub mod Stream
pub mod Printing
pub mod Desk
pub mod OnKernel
pub mod Cat
pub mod Ls
pub mod Shell
pub mod Counter
pub mod SysErr
pub mod Greeting
pub mod Grep
use linux_like_os.Base.{ℕ, ◌+◌, update, Option, none, some, List, ℤ, pos, Bool}
use linux_like_os.Memory.{Mem}
use linux_like_os.FileSys.Image.{mem_of, bytes_at}
use linux_like_os.Process.Memory.{store_bytes}
use linux_like_os.UserLib.{ece391_strlen}

-- The calls of syscalls/ece391syscall.h that the programs make; `none` is to wait for ever. A call
-- takes the bytes of a file's name or of a command line, and the memory that holds a buffer.
pub record System (W : Type 0) : Type 0 where
  pub getargs : (buf nbytes : ℕ) → W → Mem → Option (ℤ × W × Mem)
  pub open_file : List ℕ → W → Option (ℤ × W)
  pub read : ℤ → (buf nbytes : ℕ) → W → Mem → Option (ℤ × W × Mem)
  pub write : ℤ → (buf nbytes : ℕ) → W → Mem → Option (ℤ × W)
  pub close : ℤ → W → Option (ℤ × W)
  pub vidmap : (screen_start : ℕ) → W → Mem → Option (ℤ × W × Mem)
  pub execute : List ℕ → W → Option (ℤ × W)

-- A piece of a program: what it computes, the state behind the calls, and memory.
abbrev pub Prog : Type 0 → Type 0 → Type 0
Prog W A = W → Mem → Option (A × W × Mem)

abbrev pub after : {W A B : Type 0} → (A → Prog W B) → Option (A × W × Mem) → Option (B × W × Mem)
after f none = none
after f (some (a, w, m)) = f a w m

infixl 25 ◌>>=◌ ◌>>◌
abbrev pub ◌>>=◌ : {W A B : Type 0} → Prog W A → (A → Prog W B) → Prog W B
(p >>= f) w m = after f (p w m)

abbrev pub ◌>>◌ : {W A B : Type 0} → Prog W A → Prog W B → Prog W B
p >> q = p >>= λ a. q

abbrev pub pure : {W A : Type 0} → A → Prog W A
pure a w m = some (a, w, m)

-- To run out of rounds.
abbrev pub unfinished : {W A : Type 0} → Prog W A
unfinished w m = none

abbrev pub peek : {W : Type 0} → ℕ → Prog W ℕ
peek a w m = some (m a, w, m)

abbrev pub poke : {W : Type 0} → ℕ → ℕ → Prog W (Unit {0})
poke a v w m = some (tt, w, update m a v)

-- A text with its terminator is put into an array.
abbrev pub store : {W : Type 0} → ℕ → List ℕ → Prog W (Unit {0})
store a s w m = some (tt, w, store_bytes m a s)

-- `none` is a read past the end of an object.
abbrev pub defined : {W A : Type 0} → Option A → Prog W A
defined none w m = none
defined (some a) w m = some (a, w, m)

-- The bytes of the array of `size` bytes at an address.
abbrev pub array : {W : Type 0} → ℕ → ℕ → Prog W (List ℕ)
array a size w m = some (bytes_at m a size, w, m)

abbrev pub kept : {W A : Type 0} → Option (A × W) → Mem → Option (A × W × Mem)
kept none m = none
kept (some (a, w)) m = some (a, w, m)

-- The calls as pieces of programs.
module _ {W : Type 0} (sys : System W) where
  abbrev pub call_getargs : (buf nbytes : ℕ) → Prog W ℤ
  call_getargs buf nbytes w m = sys.getargs buf nbytes w m

  abbrev pub call_open : List ℕ → Prog W ℤ
  call_open name w m = kept (sys.open_file name w) m

  abbrev pub call_read : ℤ → (buf nbytes : ℕ) → Prog W ℤ
  call_read fd buf nbytes w m = sys.read fd buf nbytes w m

  abbrev pub call_write : ℤ → (buf nbytes : ℕ) → Prog W ℤ
  call_write fd buf nbytes w m = kept (sys.write fd buf nbytes w m) m

  abbrev pub call_close : ℤ → Prog W ℤ
  call_close fd w m = kept (sys.close fd w) m

  abbrev pub call_vidmap : (screen_start : ℕ) → Prog W ℤ
  call_vidmap screen_start w m = sys.vidmap screen_start w m

  abbrev pub call_execute : List ℕ → Prog W ℤ
  call_execute command w m = kept (sys.execute command w) m

  -- `s` is read where it stands: the bytes from the pointer on.
  unfoldable pub ece391_fdputs : ℤ → List ℕ → Prog W (Unit {0})
  ece391_fdputs fd s w m = elim (ece391_strlen s) [
    | none ↦ none
    | some len ↦ elim (sys.write fd 0 len w (mem_of s)) [
      | none ↦ none
      | some (r, w') ↦ some (tt, w', m)
    ]
  ]
