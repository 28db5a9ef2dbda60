-- ===== src/UserProg/Desk/Reading.antt =====
-- A read of student-distrib/systemcall.c from the terminal on which a line is typed, and a write
-- to it.
use linux_like_os.Base.{
  ℕ, suc, ◌+◌, ◌-◌, ◌≡◌, refl, sym, subst, ap, ◌∙◌, arith, ◌==◌, ℤ, pos, Option, some, List, length,
  Bool-cases, inl, inr,
}
use linux_like_os.Memory.{Mem}
use linux_like_os.Screen.{Screen}
use linux_like_os.Terminal.{Console, current, typed, await, terminal_read, read_line}
use linux_like_os.Terminal.Line.{emptied, with_line, read_line-with_line}
use linux_like_os.Process.{Kernel, Environment, current_fds, set_fds, init_fops_tables}
use linux_like_os.Process.Calls.{read, call_read}
use linux_like_os.UserProg.OnKernel.{kernel_screen, current_fds-set_fds}
use linux_like_os.UserProg.Shell.Lines.{Stands}
use linux_like_os.UserProg.Desk.{Idle, Entered, Types, AtPrompt}

emptied-Idle : (l : List ℕ) (c : Console) → Entered l c → Idle (emptied c)
emptied-Idle l c e = record {
  shift = e.shift;
  caps = e.caps;
  ctrl = e.ctrl;
  alt = e.alt;
  empty = λ t. elim (Bool-cases (current c == t)) [
    | inl here ↦ rw (here) refl
    | inr there ↦ rw (there) (e.others t (λ x. absurd (ground (arith, x, there))))
  ];
}

with_line-Stands :
    (l : List ℕ) (c : Console) (buf : ℕ) (m : Mem)
    → Entered l c
    → Stands l buf (with_line m buf (typed c) (suc (length l)))
      × (with_line m buf (typed c) (suc (length l)) (buf + length l) ≡ b'\n')
with_line-Stands l c buf m e = (
  record {
    bytes = λ i lt.
        let here : buf + i - buf ≡ i = omega arith in rw (here) (ground (arith, lt, e.bytes i lt));
  },
  (let here : buf + length l - buf ≡ length l = omega arith in
      rw (here) (ground (arith, e.line.newline))),
)

-- The kernel after the read.
abbrev pub has_read : Console → Kernel → Kernel
has_read c k =
    set_fds (current_fds k)
      (record k { file_descriptor_array = current_fds k; console = emptied c })

pub read-line :
    (env : Environment) (l : List ℕ) (buf nbytes : ℕ) (k : Kernel) (m : Mem) (c : Console)
    → AtPrompt k
    → await (record k.console { read_flag = 0 }) env.arrivals ≡ some c
    → Entered l c
    → read env (pos 0) (some buf) (pos nbytes) k m
      ≡ some (pos (suc (length l)), has_read c k, with_line m buf (typed c) (suc (length l)))
unfolding read call_read init_fops_tables terminal_read
read-line env l buf nbytes k m c at waits e =
    let line : read_line c (some buf) m
        ≡ (pos (suc (length l)), emptied c, with_line m buf (typed c) (suc (length l))) =
      read_line-with_line c buf (length l) m e.line (omega (arith, e.count))
        (omega (arith, e.short)) in
    rw (at.files.input.0, at.files.input.1, waits, line, read) refl

pub has_read-AtPrompt :
    (l : List ℕ) (c : Console) (k : Kernel) → AtPrompt k → Entered l c → AtPrompt (has_read c k)
has_read-AtPrompt l c k at e = record {
  files =
      subst linux_like_os.Os.Files.StdOpen
        (sym (
          current_fds-set_fds (current_fds k)
            (record k { file_descriptor_array = current_fds k; console = emptied c })))
        at.files;
  idle = emptied-Idle l c e;
}

-- The state and memory that a read of a typed line leaves.
pub record HasRead (echo : Screen → Screen) (l : List ℕ) (buf : ℕ) (k : Kernel)
    (r : Option (ℤ × Kernel × Mem)) : Type 0 where
  pub state : Kernel
  pub memory : Mem
  pub returns : r ≡ some (pos (length l + 1), state, memory)
  pub prompt : AtPrompt state
  pub screen : kernel_screen state ≡ echo (kernel_screen k)
  pub stands : Stands l buf memory
  pub newline : memory (buf + length l) ≡ b'\n'

pub read-HasRead :
    (env : Environment) (echo : Screen → Screen) (l : List ℕ) (buf nbytes : ℕ) (k : Kernel)
    (m : Mem)
    → AtPrompt k
    → Types echo l env.arrivals
    → HasRead echo l buf k (read env (pos 0) (some buf) (pos nbytes) k m)
read-HasRead env echo l buf nbytes k m at types =
    let idle : Idle (record k.console { read_flag = 0 }) = record {
      shift = at.idle.shift;
      caps = at.idle.caps;
      ctrl = at.idle.ctrl;
      alt = at.idle.alt;
      empty = at.idle.empty;
    } in
    let (c, waits, e, shown) = types.comes (record k.console { read_flag = 0 }) idle in
    let (stands, newline) = with_line-Stands l c buf m e in
    record {
      state = has_read c k;
      memory = with_line m buf (typed c) (suc (length l));
      returns =
          read-line env l buf nbytes k m c at waits e
          ∙ ap (λ n. some (pos n, has_read c k, with_line m buf (typed c) (suc (length l))))
              (omega arith);
      prompt = has_read-AtPrompt l c k at e;
      screen = shown;
      stands = stands;
      newline = newline;
    }
