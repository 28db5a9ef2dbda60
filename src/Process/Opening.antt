-- ===== src/Process/Opening.antt =====
-- open of student-distrib/systemcall.c on a regular file.
use linux_like_os.Base.{
  ℕ, zero, suc, ◌+◌, ◌<◌, ◌≤◌, ◌≡◌, ◌≢◌, refl, subst, ap, ◌∙◌, arith, ◌==◌, ==_refl, ==_ne,
  if◌then◌else◌, ℤ, pos, minus_one, Option, none, some, [], ◌∷◌, length, take, set, ltb, eqb_ℤ,
  false, Bool-cases, inl, inr,
}
use linux_like_os.FileSys.Image.{Image, Name, Dentry, read_dentry_by_name}
use linux_like_os.FileSys.Lookup.{SameEntry}
use linux_like_os.FileSys.Search.{
  IsDirectory, IsName, Answers, find_entry, wanted_name, read_dentry_by_name-Answers,
}
use linux_like_os.FileSys.Descriptors.{Descriptor, Fds, fd_at, free_fd, file_open, bad_fd}
use linux_like_os.Process.{
  Kernel, Environment, current_fds, set_fds, slot, init_fops_tables, get_fops_table, fops,
  file_fops,
}
use linux_like_os.Process.Calls.{sys_open, call_open, closed_fd, opened_fd}

-- The descriptor that `open` fills.
abbrev pub file_descriptor : Dentry → Descriptor
file_descriptor d = record {
  file_operation_table_ptr = get_fops_table d.filetype;
  inode = d.inode_num;
  file_position = 0;
  flags = 1;
}

pub free_fd-inside :
    (fds : Fds) (i j : ℕ) (garbage : ℤ)
    → j < length fds
    → (fd_at fds j).flags ≡ 0
    → (g : ℕ) × (free_fd fds i garbage ≡ pos g) × (g ≤ i + j)
unfolding free_fd
free_fd-inside [] i j garbage lt e = absurd (omega (arith, lt))
free_fd-inside (d ∷ fds) i zero garbage lt e = (i, rw (e) refl, omega arith)
free_fd-inside (d ∷ fds) i (suc j) garbage lt e = elim (Bool-cases (d.flags == 0)) [
  | inl here ↦ (i, rw (here) refl, omega arith)
  | inr more ↦
      let (g, found, le) = free_fd-inside fds (i + 1) j garbage (omega (arith, lt)) e in
      (g, rw (more) found, omega (arith, le))
]

-- The entry for a name of 32 bytes at most.
pub named_entry :
    (fs : Image) (fname : Name) (out d : Dentry)
    → IsDirectory fs
    → IsName fname
    → length (wanted_name fname) ≤ 32
    → find_entry (wanted_name fname) (take fs.dir_count fs.direntries) ≡ some d
    → (d' : Dentry) × (read_dentry_by_name fs (some fname) out ≡ some (pos 0, d')) × SameEntry d d'
named_entry fs fname out d dir w short found =
    subst (λ o. Answers out o (read_dentry_by_name fs (some fname) out)) (if_fits ∙ found)
      (read_dentry_by_name-Answers fs fname out dir w)
  where
    if_fits :
        (if ltb 32 (length (wanted_name fname))
          then none
          else find_entry (wanted_name fname) (take fs.dir_count fs.direntries))
        ≡ find_entry (wanted_name fname) (take fs.dir_count fs.direntries)
    if_fits = ground (arith, short)

-- What `file_open` does to the global array.
abbrev open_in : ℕ → Dentry → Fds → Fds
open_in g d fds =
    set fds g (record (fd_at fds g) {
      inode = if d.filetype == 2 then d.inode_num else 0;
      file_position = 0;
    })

file_open-found :
    (fs : Image) (fname : Name) (out d : Dentry) (garbage : ℤ) (fds : Fds) (g : ℕ)
    → read_dentry_by_name fs (some fname) out ≡ some (pos 0, d)
    → free_fd fds 0 garbage ≡ pos g
    → g ≤ 7
    → file_open fs out garbage fds (some fname) ≡ some (pos g, open_in g d fds)
unfolding file_open
file_open-found fs fname out d garbage fds g found free le =
    rw (found, free, good_fd g le, file_open) refl
  where
    good_fd : (g : ℕ) → g ≤ 7 → (bad_fd (pos g)) ≡ false
    good_fd g le = ground (arith, le)

-- The kernel after `open` has filled descriptor `i`: the global array is changed as well.
abbrev pub opened_file : ℕ → Dentry → Fds → Kernel → Kernel
opened_file i d fds k = record (set_fds (set (current_fds k) i (file_descriptor d)) k) {
  file_descriptor_array = fds;
}

regular_fops : (d : Dentry) → d.filetype ≡ 2 → fops (get_fops_table d.filetype) ≡ some file_fops
unfolding get_fops_table init_fops_tables
regular_fops d e = rw (e) refl

count : (g : ℕ) → eqb_ℤ (pos g) minus_one ≡ false
count g = ground arith

sys_open-found :
    (env : Environment) (fname : Name) (d : Dentry) (g : ℕ) (k : Kernel)
    → read_dentry_by_name env.fs (some fname) env.stale_dentry ≡ some (pos 0, d)
    → d.filetype ≡ 2
    → ltb 7 (closed_fd (current_fds k)) ≡ false
    → free_fd k.file_descriptor_array 0 env.stale_fd ≡ pos g
    → g ≤ 7
    → sys_open env (some fname) k
      ≡ some (
        pos (closed_fd (current_fds k)),
        opened_file (closed_fd (current_fds k)) d (open_in g d k.file_descriptor_array) k,
      )
unfolding sys_open opened_fd call_open
sys_open-found env fname d g k found regular inside free less =
    rw
      (
        found,
        inside,
        regular_fops d regular,
        file_open-found env.fs fname env.stale_dentry d env.stale_fd k.file_descriptor_array g found
            free less,
        count g,
        sys_open,
      )
      refl

-- `i` is the first closed descriptor.
pub record FirstClosed (i : ℕ) (fds : Fds) : Type 0 where
  pub inside : i < length fds
  pub closed : (fd_at fds i).flags ≡ 0
  pub first : (j : ℕ) → j < i → (fd_at fds j).flags ≢ 0

pub closed_fd-first :
    (fds : Fds) (i : ℕ)
    → i < length fds
    → (fd_at fds i).flags ≡ 0
    → ((j : ℕ) → j < i → (fd_at fds j).flags ≢ 0)
    → closed_fd fds ≡ i
unfolding closed_fd
closed_fd-first [] i lt e o = absurd (omega (arith, lt))
closed_fd-first (d ∷ fds) zero lt e o = rw (e) refl
closed_fd-first (d ∷ fds) (suc i) lt e o = rw (==_ne d.flags 0 (o 0 (omega arith))) (
    ap suc
      (closed_fd-first fds i (omega (arith, lt)) e (λ j less. o (suc j) (omega (arith, less)))))

-- The call has returned descriptor `i`, which is open at the start of the file of entry `d`; no
-- other descriptor of the process and nothing of the console has changed.
pub record Opened (d : Dentry) (i : ℕ) (k : Kernel) (r : Option (ℤ × Kernel)) : Type 0 where
  pub state : Kernel
  pub descriptor : Descriptor
  pub returns : r ≡ some (pos i, state)
  pub fds : current_fds state ≡ set (current_fds k) i descriptor
  pub is_file : descriptor.file_operation_table_ptr ≡ some 2
  pub on_inode : descriptor.inode ≡ d.inode_num
  pub at_start : descriptor.file_position ≡ 0
  pub is_open : descriptor.flags ≡ 1
  pub same_console : state.console ≡ k.console

pub opened_file-fds :
    (i : ℕ) (d : Dentry) (fds : Fds) (k : Kernel)
    → current_fds (opened_file i d fds k) ≡ set (current_fds k) i (file_descriptor d)
opened_file-fds i d fds k = rw (==_refl (slot k.new_pid), current_fds) refl

regular_table : (d : Dentry) → d.filetype ≡ 2 → get_fops_table d.filetype ≡ some 2
unfolding get_fops_table
regular_table d e = rw (e) refl

-- For the name of a regular file in the directory, `open` returns the first closed descriptor of
-- the process and opens it at the start of the file, where the global array of the file
-- operations has a closed descriptor, too.
pub sys_open-Opened :
    (env : Environment) (fname : Name) (d : Dentry) (i j : ℕ) (k : Kernel)
    → IsDirectory env.fs
    → IsName fname
    → length (wanted_name fname) ≤ 32
    → find_entry (wanted_name fname) (take env.fs.dir_count env.fs.direntries) ≡ some d
    → d.filetype ≡ 2
    → length (current_fds k) ≡ 8
    → FirstClosed i (current_fds k)
    → j < 8
    → j < length k.file_descriptor_array
    → (fd_at k.file_descriptor_array j).flags ≡ 0
    → Opened d i k (sys_open env (some fname) k)
sys_open-Opened env fname d i j k dir w short found regular eight first small lt closed =
    let (d', reads, same) = named_entry env.fs fname env.stale_dentry d dir w short found in
    let (g, free, le) = free_fd-inside k.file_descriptor_array 0 j env.stale_fd lt closed in
    let is_first = closed_fd-first (current_fds k) i first.inside first.closed first.first in
    let regular' : d'.filetype ≡ 2 = same.filetype ∙ regular in
    let fds' = open_in g d' k.file_descriptor_array in
    record {
      state = opened_file i d' fds' k;
      descriptor = file_descriptor d';
      returns = rw (is_first) at (
          sys_open-found env fname d' g k reads regular' (fits is_first) free
            (omega (arith, le, small)));
      fds = opened_file-fds i d' fds' k;
      is_file = regular_table d' regular';
      on_inode = same.inode_num;
      at_start = refl;
      is_open = refl;
      same_console = refl;
    }
  where
    fits : closed_fd (current_fds k) ≡ i → ltb 7 (closed_fd (current_fds k)) ≡ false
    fits e = ground (arith, e, eight, first.inside)
