-- ===== src/Process/Ownership.antt =====
-- Which entry of the process table a process takes, and that it is given back.
use linux_like_os.Base.{
  ℕ, zero, suc, ◌+◌, ◌<◌, ◌≡◌, ◌≢◌, refl, sym, ap, ltb, if◌then◌else◌, arith, none, some, List, [],
  ◌∷◌, set, get_or, length, pos, minus_one, Option-cases, subst, inl, inr,
}
use linux_like_os.Memory.{Mem}
use linux_like_os.FileSys.Image.{Dentry}
use linux_like_os.Paging.{Paging, map_user}
use linux_like_os.Terminal.{current}
use linux_like_os.Process.{Kernel, Environment, current_pcb}
use linux_like_os.Process.Life.{
  returned, entered, closed_prog, claim_pid, fill_pcb, load_program, start,
}

-- The entry `i` is the first closed one.
pub record FirstClosed (progs : List ℕ) (i : ℕ) : Type 0 where
  pub inside : i < length progs
  pub closed : get_or progs i 0 ≡ 0
  pub first : (j : ℕ) → j < i → get_or progs j 0 ≢ 0

busy_before :
    (p : ℕ) (progs : List ℕ) (i : ℕ)
    → FirstClosed progs i
    → (j : ℕ) → j < suc i
    → get_or (suc p ∷ progs) j 0 ≢ 0
busy_before p progs i f zero lt = λ e. omega (arith, e)
busy_before p progs i f (suc j) lt = f.first j (omega (arith, lt))

pub closed_prog-FirstClosed :
    (progs : List ℕ) (b i : ℕ)
    → closed_prog progs b ≡ some i
    → (j : ℕ) × (i ≡ b + j) × FirstClosed progs j
unfolding closed_prog
closed_prog-FirstClosed [] b i e = absurd (ground (arith, e))
closed_prog-FirstClosed (zero ∷ progs) b i e = (
  0,
  ground (arith, e),
  record { inside = omega arith; closed = refl; first = λ j lt. absurd (omega (arith, lt)) },
)
closed_prog-FirstClosed (suc p ∷ progs) b i e =
    let (j, x, f) = closed_prog-FirstClosed progs (b + 1) i (ground (arith, e)) in
    (
      suc j,
      omega (arith, x),
      record {
        inside = omega (arith, f.inside);
        closed = f.closed;
        first = busy_before p progs j f;
      },
    )

all_busy :
    (progs : List ℕ) (b : ℕ)
    → closed_prog progs b ≡ none
    → (j : ℕ) → j < length progs
    → get_or progs j 0 ≢ 0
unfolding closed_prog
all_busy [] b e j lt = absurd (omega (arith, lt))
all_busy (zero ∷ progs) b e j lt = absurd (ground (arith, e))
all_busy (suc p ∷ progs) b e zero lt = λ h. omega (arith, h)
all_busy (suc p ∷ progs) b e (suc j) lt =
    all_busy progs (b + 1) (ground (arith, e)) j (omega (arith, lt))

-- What the control block and the process numbers are when a process starts as `pid`.
pub record Started (k k' : Kernel) (esp ebp pid : ℕ) : Type 0 where
  pub free : FirstClosed k.progs pid
  pub taken : k'.progs ≡ set k.progs pid 1
  pub running : k'.new_pid ≡ pos pid
  pub shown : (k'.terminal_array (current k.console)).terminal_current_pid ≡ pos pid
  pub parent : (current_pcb k').parent_pid ≡ (
      if ltb pid 3 then minus_one else (k.terminal_array (current k.console)).terminal_current_pid)
  pub saved_esp : (current_pcb k').parent_esp ≡ esp
  pub saved_ebp : (current_pcb k').parent_ebp ≡ ebp

module _ (k k' : Kernel) (esp ebp pid : ℕ) (command : List ℕ)
    (e : fill_pcb esp ebp pid command (claim_pid pid k) ≡ some k') where
  filled-progs : k'.progs ≡ set k.progs pid 1
  unfolding fill_pcb claim_pid
  filled-progs = ground (arith, e)

  filled-pid : k'.new_pid ≡ pos pid
  unfolding fill_pcb claim_pid
  filled-pid = ground (arith, e)

  filled-shown : (k'.terminal_array (current k.console)).terminal_current_pid ≡ pos pid
  unfolding fill_pcb claim_pid
  filled-shown = ground (arith, e)

  filled-parent : (current_pcb k').parent_pid ≡ (
      if ltb pid 3 then minus_one else (k.terminal_array (current k.console)).terminal_current_pid)
  unfolding fill_pcb claim_pid
  filled-parent = ground (arith, e)

  filled-esp : (current_pcb k').parent_esp ≡ esp
  unfolding fill_pcb claim_pid
  filled-esp = ground (arith, e)

  filled-ebp : (current_pcb k').parent_ebp ≡ ebp
  unfolding fill_pcb claim_pid
  filled-ebp = ground (arith, e)

  filled-Started :
      FirstClosed k.progs pid → (q : Paging) → Started k (record k' { paging = q }) esp ebp pid
  filled-Started f q = record {
    free = f;
    taken = filled-progs;
    running = filled-pid;
    shown = filled-shown;
    parent = filled-parent;
    saved_esp = filled-esp;
    saved_ebp = filled-ebp;
  }

-- Where a program is entered, the entry of the process table it takes is the first closed one,
-- and no other changes; it is the running process and that of the terminal on display; and its
-- parent is the process that this terminal had, or none for the first three.
pub start-Started :
    (env : Environment) (esp ebp : ℕ) (d : Dentry) (buf : Mem) (command : List ℕ) (k k' : Kernel)
    (m m' : Mem) (eip : ℕ)
    → start env esp ebp d buf command k m ≡ some (entered eip k' m')
    → (pid : ℕ) × Started k k' esp ebp pid
unfolding start
start-Started env esp ebp d buf command k k' m m' eip e =
    elim (Option-cases (closed_prog k.progs 0)) [
      | inl none_free ↦ absurd (ground (arith, e, none_free))
      | inr (pid, free) ↦ elim (Option-cases (load_program env d m)) [
        | inl bad ↦ absurd (ground (arith, e, free, bad))
        | inr (m'', loaded) ↦ elim (Option-cases (fill_pcb esp ebp pid command (claim_pid pid k))) [
          | inl bad ↦ absurd (ground (arith, e, free, loaded, bad))
          | inr (k'', filled) ↦
              let (j, x, f) = closed_prog-FirstClosed k.progs 0 pid free in
              let same : record k'' { paging = map_user pid k''.paging } ≡ k' =
                ground (arith, e, free, loaded, filled) in
              (
                pid,
                subst (λ t. Started k t esp ebp pid) same
                    (filled-Started k k'' esp ebp pid command filled
                      (subst (FirstClosed k.progs) (omega (arith, x)) f) (map_user pid k''.paging)),
              )
        ]
      ]
    ]

-- Where every entry of the process table is taken, no program starts: the call returns -1 and
-- changes of the kernel only `old_pid`.
pub start_full :
    (env : Environment) (esp ebp : ℕ) (d : Dentry) (buf : Mem) (command : List ℕ) (k : Kernel)
    (m : Mem)
    → ((j : ℕ) → j < length k.progs → get_or k.progs j 0 ≢ 0)
    → start env esp ebp d buf command k m
      ≡ some (
          returned minus_one
            (record k { old_pid = (k.terminal_array (current k.console)).terminal_current_pid })
            m)
unfolding start
start_full env esp ebp d buf command k m busy = elim (Option-cases (closed_prog k.progs 0)) [
  | inl e ↦ rw (e, start) refl
  | inr (pid, e) ↦
      let (j, x, f) = closed_prog-FirstClosed k.progs 0 pid e in absurd (busy j f.inside f.closed)
]

pub set_back : (xs : List ℕ) (i : ℕ) → get_or xs i 0 ≡ 0 → set (set xs i 1) i 0 ≡ xs
set_back [] i h = refl
set_back (x ∷ xs) zero h = ap (λ y. y ∷ xs) (sym h)
set_back (x ∷ xs) (suc i) h = ap (λ t. x ∷ t) (set_back xs i h)
