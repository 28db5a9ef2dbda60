-- ===== src/UserProg/Shell/Commands.antt =====
-- syscalls/ece391shell.c runs the commands that are typed, in their order, until `exit`.
use linux_like_os.Base.{
  ℕ, zero, suc, ◌+◌, ◌<◌, ◌≤◌, ◌≡◌, ◌≢◌, refl, sym, subst, ap, ◌∙◌, arith, ◌==◌, if◌then◌else◌,
  true, false, Bool-cases, inl, inr, ℤ, pos, negsuc, ==_ne, ==_refl, minus_one, eqb_ℤ, Option, some,
  List, [], ◌∷◌, ◌++◌, length,
}
use mathlib.Core.List.{append_assoc, append-nil}
use linux_like_os.Memory.{Mem}
use linux_like_os.CString.Compare.{cstr}
use linux_like_os.FileSys.Image.{bytes_at}
use linux_like_os.FileSys.Lookup.{NoZero}
use linux_like_os.FileSys.Names.{same_text, same_text_refl, eq_of_same_text}
use linux_like_os.UserLib.{ece391_strlen, ece391_strlen_from, ece391_strcmp}
use linux_like_os.UserLib.Order.{ece391_strcmp-order}
use linux_like_os.UserProg.{
  System, Prog, ◌>>=◌, ◌>>◌, pure, defined, kept, call_read, call_execute, ece391_fdputs,
}
use linux_like_os.UserProg.Stream.{then_some}
use linux_like_os.UserProg.Texts.{exit_command, prompt}
use linux_like_os.UserProg.Shell.{report, end_line, on_line, read_failed, shell_loop}
use linux_like_os.UserProg.Shell.Lines.{
  Stands, Stands-head, cstr-bytes_at, cut, cut-Stands, end_line-cut,
}
use linux_like_os.UserProg.Shell.Session.{
  exit_text, commands, has_exit, Typed, Serving, commands-exit, commands-other, exit_later,
  fdputs-Says, report-Says,
}

count : (n : ℕ) → eqb_ℤ (pos (n + 1)) minus_one ≡ false
count n = ground arith

eqb_ne : (r : ℤ) → r ≢ pos 0 → eqb_ℤ r (pos 0) ≡ false
eqb_ne (pos zero) h = absurd (h refl)
eqb_ne (pos (suc n)) h = ground arith
eqb_ne (negsuc n) h = ground arith

module _ {W : Type 0} (sys : System W) (buf : ℕ) (log : W → List (List ℕ))
    (At : List (List ℕ) → W → Type 0) (serving : Serving sys buf log At) where
  -- What is left of a round behind the line.
  rest_of : (next : Prog W ℤ) (r : ℤ) (line : List ℕ) (first : ℕ) → Prog W ℤ
  rest_of next r line first =
      if eqb_ℤ r (pos 0)
      then pure (pos 0)
      else if first == 0
      then next
      else do rval ← call_execute sys line; report sys buf rval; next

  on_line-rest_of :
      (next : Prog W ℤ) (l : List ℕ) (r : ℤ) (w : W) (m : Mem)
      → m (buf + length l) ≡ b'\n'
      → ece391_strcmp (bytes_at (cut l buf m) buf 1024) exit_command ≡ some r
      → on_line sys buf (pos (length l + 1)) next w m
        ≡ rest_of next r (bytes_at (cut l buf m) buf 1024) (cut l buf m buf) w (cut l buf m)
  unfolding on_line rest_of
  on_line-rest_of next l r w m newline differs =
      then_some (end_line sys buf (pos (length l + 1))) _ w w m (cut l buf m) tt
        (end_line-cut sys buf l w m newline)
      ∙ then_some (defined (ece391_strcmp (bytes_at (cut l buf m) buf 1024) exit_command)) _ w w
          (cut l buf m) (cut l buf m) r (ap (λ o. defined o w (cut l buf m)) differs)

  counted :
      (next : Prog W ℤ) (n : ℕ) (w : W) (m : Mem)
      → (if eqb_ℤ (pos (n + 1)) minus_one
            then read_failed sys buf
            else on_line sys buf (pos (n + 1)) next)
          w m
        ≡ on_line sys buf (pos (n + 1)) next w m
  counted next n w m =
      ap (λ b. (if b then read_failed sys buf else on_line sys buf (pos (n + 1)) next) w m)
        (count n)

  round :
      (fuel : ℕ) (l : List ℕ) (r : ℤ) (w w1 w2 : W) (m m2 : Mem)
      → ece391_fdputs sys (pos 1) prompt w m ≡ some (tt, w1, m)
      → sys.read (pos 0) buf 1023 w1 m ≡ some (pos (length l + 1), w2, m2)
      → m2 (buf + length l) ≡ b'\n'
      → ece391_strcmp (bytes_at (cut l buf m2) buf 1024) exit_command ≡ some r
      → shell_loop sys buf (suc fuel) w m
        ≡ rest_of
            (shell_loop sys buf fuel)
            r
            (bytes_at (cut l buf m2) buf 1024)
            (cut l buf m2 buf)
            w2
            (cut l buf m2)
  unfolding shell_loop
  round fuel l r w w1 w2 m m2 says reads newline differs =
      then_some (ece391_fdputs sys (pos 1) prompt) _ w w1 m m tt says
      ∙ then_some (call_read sys (pos 0) buf 1023) _ w1 w2 m m2 (pos (length l + 1)) reads
      ∙ counted (shell_loop sys buf fuel) (length l) w2 m2
      ∙ on_line-rest_of (shell_loop sys buf fuel) l r w2 m2 newline differs

  -- The shell has ended with status 0, and the log has the commands.
  pub record Ran (lines : List (List ℕ)) (w : W) (r : Option (ℤ × W × Mem)) : Type 0 where
    pub state : W
    pub memory : Mem
    pub ended : r ≡ some (pos 0, state, memory)
    pub logged : log state ≡ log w ++ commands lines

  Ran-exit :
      (next : Prog W ℤ) (lines : List (List ℕ)) (l line : List ℕ) (first : ℕ) (r : ℤ) (w0 w : W)
      (m : Mem)
      → r ≡ pos 0
      → log w ≡ log w0
      → same_text l exit_text ≡ true
      → Ran (l ∷ lines) w0 (rest_of next r line first w m)
  unfolding rest_of
  Ran-exit next lines [] line first r w0 w m e same x = absurd (ground (arith, x))
  Ran-exit next lines (c ∷ l) line first r w0 w m e same x = record {
    state = w;
    memory = m;
    ended = rw (e) refl;
    logged =
        same ∙ sym (append-nil (log w0)) ∙ ap (λ k. log w0 ++ k) (sym (commands-exit c l lines x));
  }

  Ran-empty :
      (next : Prog W ℤ) (lines : List (List ℕ)) (line : List ℕ) (first : ℕ) (r : ℤ) (w0 w : W)
      (m : Mem)
      → r ≢ pos 0
      → first ≡ 0
      → log w ≡ log w0
      → Ran lines w (next w m)
      → Ran ([] ∷ lines) w0 (rest_of next r line first w m)
  unfolding rest_of
  Ran-empty next lines line first r w0 w m ne z same later = record {
    state = later.state;
    memory = later.memory;
    ended = rw (eqb_ne r ne, z) later.ended;
    logged = later.logged ∙ ap (λ k. k ++ commands lines) same;
  }

  Ran-command :
      (next : Prog W ℤ) (lines : List (List ℕ)) (c : ℕ) (l line : List ℕ) (first : ℕ) (r rval : ℤ)
      (w0 w w1 w2 : W) (m : Mem)
      → r ≢ pos 0
      → first ≢ 0
      → same_text (c ∷ l) exit_text ≡ false
      → sys.execute line w ≡ some (rval, w1)
      → report sys buf rval w1 m ≡ some (tt, w2, m)
      → log w2 ≡ log w0 ++ ((c ∷ l) ∷ [])
      → Ran lines w2 (next w2 m)
      → Ran ((c ∷ l) ∷ lines) w0 (rest_of next r line first w m)
  unfolding rest_of
  Ran-command next lines c l line first r rval w0 w w1 w2 m ne nz x goes says logs later = record {
    state = later.state;
    memory = later.memory;
    ended =
        rw (eqb_ne r ne, ==_ne first 0 nz)
          (then_some (call_execute sys line) _ w w1 m m rval (ap (λ o. kept o m) goes)
            ∙ then_some (report sys buf rval) _ w1 w2 m m tt says
            ∙ later.ended);
    logged =
        later.logged
        ∙ ap (λ k. k ++ commands lines) logs
        ∙ append_assoc (log w0) ((c ∷ l) ∷ []) (commands lines)
        ∙ ap (λ k. log w0 ++ k) (sym (commands-other c l lines x));
  }

  same_ne : (l : List ℕ) → same_text l exit_text ≡ false → l ≢ exit_text
  same_ne l x e = ground (arith, same_text_refl exit_text, rw (e) at x)

  Ran-other :
      (next : Prog W ℤ) (lines : List (List ℕ)) (l line : List ℕ) (r : ℤ) (w0 w : W) (m : Mem)
      → NoZero l
      → cstr line ≡ l
      → r ≢ pos 0
      → log w ≡ log w0
      → At lines w
      → same_text l exit_text ≡ false
      → Stands l buf m
      → m (buf + length l) ≡ 0
      → ((w' : W) (m' : Mem) → At lines w' → Ran lines w' (next w' m'))
      → Ran (l ∷ lines) w0 (rest_of next r line (m buf) w m)
  Ran-other next lines [] line r w0 w m z text ne same at x stands ends later =
      Ran-empty next lines line (m buf) r w0 w m ne (ap m (omega arith) ∙ ends) same (later w m at)
  Ran-other next lines (c ∷ l) line r w0 w m z text ne same at x stands ends later =
      let (rval, w1, goes, at1, logs) = serving.executes lines line w at in
      let says = report-Says sys buf log At serving lines rval w1 m at1 in
      Ran-command next lines c l line (m buf) r rval w0 w w1 says.after m ne
        (λ e. z.0 (sym (Stands-head c l buf m stands) ∙ e)) x goes says.goes
        (says.same
          ∙ logs
          ∙ ap (λ k. k ++ (cstr line ∷ [])) same
          ∙ ap (λ t. log w0 ++ (t ∷ [])) text)
        (later says.after m says.at)

  Ran-line :
      (fuel : ℕ) (lines : List (List ℕ)) (l : List ℕ) (w : W) (m : Mem)
      → NoZero l
      → length l < 1023
      → At (l ∷ lines) w
      → ((w' : W) (m' : Mem)
          → same_text l exit_text ≡ false
          → At lines w'
          → Ran lines w' (shell_loop sys buf fuel w' m'))
      → Ran (l ∷ lines) w (shell_loop sys buf (suc fuel) w m)
  unfolding ece391_strlen ece391_strlen_from
  Ran-line fuel lines l w m z lt at next =
      let says = fdputs-Says sys buf log At serving (l ∷ lines) prompt 7 w m refl at in
      let (w2, m2, reads, at2, same, stands, newline) =
        serving.reads l lines says.after m says.at in
      let line = bytes_at (cut l buf m2) buf 1024 in
      let ends : cut l buf m2 (buf + length l) ≡ 0 = rw (==_refl (buf + length l)) refl in
      let (text, whole) =
        cstr-bytes_at l 1024 buf (cut l buf m2) z (omega (arith, lt)) (cut-Stands l buf m2 stands)
          ends in
      let (r, r', differs, back, first, zero_iff, swap) =
        ece391_strcmp-order line exit_command whole refl in
      subst (Ran (l ∷ lines) w)
        (sym (round fuel l r w says.after w2 m m2 says.goes reads newline differs))
        (elim (Bool-cases (same_text l exit_text)) [
          | inl x ↦
              Ran-exit (shell_loop sys buf fuel) lines l line (cut l buf m2 buf) r w w2
                (cut l buf m2) (zero_iff.1 (text ∙ eq_of_same_text l exit_text x))
                (same ∙ says.same) x
          | inr x ↦
              Ran-other (shell_loop sys buf fuel) lines l line r w w2 (cut l buf m2) z text
                (λ e. same_ne l x (sym text ∙ zero_iff.0 e)) (same ∙ says.same) at2 x
                (cut-Stands l buf m2 stands) ends (λ w' m' at'. next w' m' x at')
        ])

  -- Where the lines that are typed have an `exit`, the shell ends with status 0 in as many rounds
  -- as there are lines, after it has handed to `execute` the other lines up to the first `exit`
  -- that are not empty, each as it was typed and in their order, whatever the commands return.
  pub shell_loop-Ran :
      (fuel : ℕ) (lines : List (List ℕ)) (w : W) (m : Mem)
      → At lines w
      → Typed lines
      → has_exit lines ≡ true
      → length lines ≤ fuel
      → Ran lines w (shell_loop sys buf fuel w m)
  shell_loop-Ran fuel [] w m at t e le = absurd (ground (arith, e))
  shell_loop-Ran zero (l ∷ lines) w m at t e le = absurd (omega (arith, le))
  shell_loop-Ran (suc fuel) (l ∷ lines) w m at t e le =
      Ran-line fuel lines l w m t.0 t.1 at (λ w' m' x at'.
        shell_loop-Ran fuel lines w' m' at' t.2 (exit_later l lines x e) (omega (arith, le)))
