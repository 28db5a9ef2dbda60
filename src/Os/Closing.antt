-- ===== src/Os/Closing.antt =====
-- halt of student-distrib/systemcall.c closes the descriptors of the program.
use linux_like_os.Base.{
  ℕ, zero, suc, ◌+◌, ◌≡◌, refl, subst, ◌∙◌, Bool, ◌==◌, if_both, ℤ, pos, negsuc, minus_one, ltb_ℤ,
  pos_part, ◌||◌, none, some, List, set, length-set,
}
use linux_like_os.Process.{Kernel}
use linux_like_os.Process.Life.{close_all, clear_prog, close_process}
use linux_like_os.Process.Calls.{close}
use linux_like_os.Os.Outcomes.{Gives, Gives-elim, Gives-some, Gives-map, nothing, result}
use linux_like_os.Os.Sane.{SetFor, Sane}
use linux_like_os.Os.Calls.{close-Sane}
use linux_like_os.Process.Calls.{call_close}
use linux_like_os.Process.{
  Fops, rtc_fops, dir_fops, file_fops, terminal_fops, fops, current_fds, set_fds,
}
use linux_like_os.FileSys.Descriptors.{fd_at, set_flags, dir_close, file_close}
use linux_like_os.Terminal.{terminal_close}

-- A call of close changes no process number.
record SamePid (k : Kernel) (r : ℤ × Kernel) : Type 0 where
  new_pid : r.1.new_pid ≡ k.new_pid

call_close-SamePid : (f : Fops) (fd : ℤ) (k : Kernel) → SamePid k (call_close f fd k)
unfolding call_close terminal_close dir_close file_close
call_close-SamePid rtc_fops fd k = record { new_pid = refl }
call_close-SamePid dir_fops fd k = record { new_pid = refl }
call_close-SamePid file_fops fd k = record { new_pid = refl }
call_close-SamePid terminal_fops fd k = record { new_pid = refl }

close-SamePid : (fd : ℤ) (k : Kernel) → Gives (SamePid k) (close fd k)
unfolding close
close-SamePid fd k =
    let d = fd_at (current_fds k) (pos_part fd) in
    let k' = set_fds (set_flags (pos_part fd) 0 (current_fds k)) k in
    if_both (Gives (SamePid k)) (ltb_ℤ fd (pos 2) || ltb_ℤ (pos 7) fd)
      (result (minus_one, k) (record { new_pid = refl }))
      (if_both (Gives (SamePid k)) (d.flags == 0)
        (result (minus_one, k) (record { new_pid = refl }))
        (Gives-elim (SamePid k) (fops d.file_operation_table_ptr) none _ nothing (λ f _.
          result (call_close f fd k') (record { new_pid = (call_close-SamePid f fd k').new_pid }))))

-- The loop over the descriptors.
close_all-Sane :
    (made : ℕ → Bool) (rounds i : ℕ) (k : Kernel)
    → Sane made k
    → Gives (λ (k' : Kernel). Sane made k' × (k'.new_pid ≡ k.new_pid)) (close_all rounds i k)
unfolding close_all
close_all-Sane made zero i k s = result k (s, refl)
close_all-Sane made (suc rounds) i k s =
    let kept = λ (k' : Kernel). Sane made k' × (k'.new_pid ≡ k.new_pid) in
    Gives-elim kept (close (pos i) k) none _ nothing (λ r e.
      let s' = Gives-some (λ (r : ℤ × Kernel). Sane made r.1) _ r (close-Sane made (pos i) k s) e in
      let same = (Gives-some (SamePid k) _ r (close-SamePid (pos i) k) e).new_pid in
      subst
        (λ p.
          Gives (λ (k' : Kernel). Sane made k' × (k'.new_pid ≡ p)) (close_all rounds (i + 1) r.1))
        same (close_all-Sane made rounds (i + 1) r.1 s'))

-- What `halt` leaves before it goes on: the process that halts had a number.
pub close_process-Sane :
    (made : ℕ → Bool) (k : Kernel)
    → Sane made k
    → Gives (λ (k' : Kernel). Sane made k' × ((n : ℕ) × (k'.new_pid ≡ pos n))) (close_process k)
unfolding close_process clear_prog
close_process-Sane made k s = numbered k.new_pid refl
  where
    cleared : (n : ℕ) → Sane made (record k { progs = set k.progs n 0 })
    cleared n = record {
      bounded = s.bounded;
      on_display = s.on_display;
      scheduled = s.scheduled;
      table = length-set k.progs n 0 ∙ s.table;
      arrays = s.arrays;
      processes = s.processes;
      running = s.running;
      terminals = s.terminals;
      set_for = same k.new_pid (set k.progs n 0) s.set_for;
    }
      where
        same : (p : ℤ) (progs : List ℕ) → SetFor p k → SetFor p (record k { progs = progs })
        same (pos n) progs h = h
        same (negsuc n) progs h = tt

    numbered :
        (p : ℤ)
        → k.new_pid ≡ p
        → Gives
            (λ (k' : Kernel). Sane made k' × ((n : ℕ) × (k'.new_pid ≡ pos n)))
            (elim (clear_prog p k.progs) [
              | none ↦ none
              | some progs ↦ close_all 8 0 (record k { progs = progs })
            ])
    numbered (pos n) e =
        Gives-map (close_all-Sane made 8 0 (record k { progs = set k.progs n 0 }) (cleared n))
          (λ k' h. (h.0, (n, h.1 ∙ e)))
    numbered (negsuc n) e = nothing
