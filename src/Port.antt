-- ===== src/Port.antt =====
-- inb and outb of student-distrib/lib.h. The devices behind the ports are not part of the program:
-- `Device` is a parameter that says what a read returns after the accesses so far.
use linux_like_os.Base.{ℕ, ◌%◌, List, ◌∷◌}

pub data Access : Type 0 where
  wrote : (value port : ℕ) → Access
  was_read : (port : ℕ) → Access

-- The accesses so far, the latest first.
abbrev pub Ports : Type 0
Ports = List Access

abbrev pub Device : Type 0
Device = Ports → ℕ → ℕ

-- Both transfer one byte.
abbrev pub outb : ℕ → ℕ → Ports → Ports
outb value port io = wrote (value % 256) port ∷ io

abbrev pub inb : Device → ℕ → Ports → ℕ
inb dev port io = dev io port % 256

abbrev pub after_inb : ℕ → Ports → Ports
after_inb port io = was_read port ∷ io
