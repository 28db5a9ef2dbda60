-- ===== src/Os/Files.antt =====
-- What the calls of student-distrib/systemcall.c do to the first two descriptors of a process.
use linux_like_os.Base.{
  ℕ, zero, suc, ◌+◌, ◌-◌, ◌^◌, ◌<◌, ◌≤◌, ◌≡◌, refl, sym, subst, ◌∙◌, arith, some, length, set,
  length-set, get_or-set_ne, for_range,
}
use linux_like_os.FileSys.Descriptors.{Descriptor, Fds, fd_at, no_descriptor}
use linux_like_os.FileSys.Files.{fd_at-set}
use linux_like_os.Process.Life.{std_fd, closed_slot, initial_fds}
use linux_like_os.Process.{get_fops_table}

-- A descriptor is open on the terminal.
abbrev pub OnTerminal : Descriptor → Type 0
OnTerminal d = (d.flags ≡ 1) × (d.file_operation_table_ptr ≡ some 3)

-- Standard input and output are open on the terminal.
pub record StdOpen (fds : Fds) : Type 0 where
  pub input : OnTerminal (fd_at fds 0)
  pub output : OnTerminal (fd_at fds 1)

-- A descriptor from 2 on can be set to anything.
pub set_above-StdOpen :
    (fds : Fds) (i : ℕ) (d : Descriptor) → 2 ≤ i → StdOpen fds → StdOpen (set fds i d)
set_above-StdOpen fds i d le s = record {
  input =
      subst OnTerminal (sym (get_or-set_ne fds i 0 d no_descriptor (λ e. omega (arith, e, le))))
        s.input;
  output =
      subst OnTerminal (sym (get_or-set_ne fds i 1 d no_descriptor (λ e. omega (arith, e, le))))
        s.output;
}

-- A position can be set.
pub set_position-StdOpen :
    (fds : Fds) (i p : ℕ)
    → length fds ≡ 8
    → i < 8
    → StdOpen fds
    → StdOpen (set fds i (record (fd_at fds i) { file_position = p }))
set_position-StdOpen fds i p e lt s = record {
  input =
      ground (arith, s.input, fd_at-set fds i 0 (record (fd_at fds i) { file_position = p }) e lt);
  output =
      ground (arith, s.output, fd_at-set fds i 1 (record (fd_at fds i) { file_position = p }) e lt);
}

abbrev std : Descriptor
std = record { file_operation_table_ptr = some 3; inode = 2 ^ 32 - 1; file_position = 0; flags = 1 }

-- Descriptors of a process that has standard input and output.
pub record Usable (fds : Fds) : Type 0 where
  pub size : length fds ≡ 8
  pub std : StdOpen fds

standard-Usable : (fds : Fds) → length fds ≡ 8 → Usable (set (set fds 0 std) 1 std)
standard-Usable fds e = record {
  size = length-set (set fds 0 std) 1 std ∙ length-set fds 0 std ∙ e;
  std = record {
    input = ground (
      arith,
      fd_at-set (set fds 0 std) 1 0 std (length-set fds 0 std ∙ e) (omega arith),
      fd_at-set fds 0 0 std e (omega arith),
    );
    output =
        ground (arith, fd_at-set (set fds 0 std) 1 1 std (length-set fds 0 std ∙ e) (omega arith));
  };
}

pub set_above-Usable :
    (fds : Fds) (i : ℕ) (d : Descriptor) → 2 ≤ i → Usable fds → Usable (set fds i d)
set_above-Usable fds i d le u = record {
  size = length-set fds i d ∙ u.size;
  std = set_above-StdOpen fds i d le u.std;
}

closed_slot-Usable :
    (n i : ℕ) (fds : Fds) → 2 ≤ i → Usable fds → Usable (for_range n i closed_slot fds)
unfolding for_range closed_slot
closed_slot-Usable zero i fds le u = u
closed_slot-Usable (suc n) i fds le u =
    closed_slot-Usable n (i + 1) (closed_slot i fds) (omega (arith, le))
      (set_above-Usable fds i (record (fd_at fds i) { flags = 0 }) le u)

both : (fds : Fds) → for_range 2 0 std_fd fds ≡ set (set fds 0 std) 1 std
unfolding for_range std_fd get_fops_table
both fds = refl

-- The descriptors of a new process.
pub initial_fds-Usable : (fds : Fds) → length fds ≡ 8 → Usable (initial_fds fds)
unfolding initial_fds
initial_fds-Usable fds e =
    closed_slot-Usable 6 2 (for_range 2 0 std_fd fds) (omega arith)
      (subst Usable (sym (both fds)) (standard-Usable fds e))
