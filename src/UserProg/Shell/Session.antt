-- ===== src/UserProg/Shell/Session.antt =====
-- What a user types for syscalls/ece391shell.c, and what the shell relies on.
use linux_like_os.Base.{
  ℕ, ◌+◌, ◌<◌, ◌≡◌, refl, sym, ap, ◌∙◌, if◌then◌else◌, Bool, true, false, ℤ, pos, if_both,
  minus_one, eqb_ℤ, Option, some, List, [], ◌∷◌, ◌++◌, length,
}
use linux_like_os.Memory.{Mem}
use linux_like_os.CString.Compare.{cstr}
use linux_like_os.FileSys.Image.{mem_of}
use linux_like_os.FileSys.Lookup.{NoZero}
use linux_like_os.FileSys.Names.{same_text}
use linux_like_os.UserLib.{ece391_strlen, ece391_strlen_from}
use linux_like_os.UserProg.{System, Prog, ece391_fdputs}
use linux_like_os.UserProg.Texts.{no_such_command, terminated_by_exception, terminated_abnormally}
use linux_like_os.UserProg.Shell.{report}
use linux_like_os.UserProg.Shell.Lines.{Stands}

abbrev pub exit_text : List ℕ
exit_text = b'e' ∷ b'x' ∷ b'i' ∷ b't' ∷ []

-- The commands among the lines: those up to `exit` that are not empty.
abbrev pub commands : List (List ℕ) → List (List ℕ)
commands [] = []
commands ([] ∷ lines) = commands lines
commands ((c ∷ l) ∷ lines) =
    let rest = commands lines in if same_text (c ∷ l) exit_text then [] else (c ∷ l) ∷ rest

abbrev pub has_exit : List (List ℕ) → Bool
has_exit [] = false
has_exit (l ∷ lines) = let rest = has_exit lines in if same_text l exit_text then true else rest

-- A line as it can be typed: no zero, and room for the terminator.
abbrev pub Typed : List (List ℕ) → Type 0
Typed [] = Unit {0}
Typed (l ∷ lines) = NoZero l × (length l < 1023) × Typed lines

-- The keyboard delivers the lines that are left, each with its newline; what is written comes
-- out; and a command returns, whatever its status, and is entered in the log.
pub record Serving {W : Type 0} (sys : System W) (buf : ℕ) (log : W → List (List ℕ))
    (At : List (List ℕ) → W → Type 0) : Type 0 where
  pub reads :
      (l : List ℕ) (lines : List (List ℕ)) (w : W) (m : Mem)
      → At (l ∷ lines) w
      → (w' : W) × (m' : Mem) × (sys.read (pos 0) buf 1023 w m ≡ some (pos (length l + 1), w', m'))
        × At lines w'
        × (log w' ≡ log w)
        × Stands l buf m'
        × (m' (buf + length l) ≡ b'\n')
  pub writes :
      (lines : List (List ℕ)) (a n : ℕ) (w : W) (m : Mem)
      → At lines w
      → (r : ℤ) × (w' : W) × (sys.write (pos 1) a n w m ≡ some (r, w'))
        × At lines w'
        × (log w' ≡ log w)
  pub executes :
      (lines : List (List ℕ)) (command : List ℕ) (w : W)
      → At lines w
      → (r : ℤ) × (w' : W) × (sys.execute command w ≡ some (r, w'))
        × At lines w'
        × (log w' ≡ log w ++ (cstr command ∷ []))

pub commands-exit :
    (c : ℕ) (l : List ℕ) (lines : List (List ℕ))
    → same_text (c ∷ l) exit_text ≡ true
    → commands ((c ∷ l) ∷ lines) ≡ []
commands-exit c l lines x = ap (λ b. if b then [] else (c ∷ l) ∷ commands lines) x

pub commands-other :
    (c : ℕ) (l : List ℕ) (lines : List (List ℕ))
    → same_text (c ∷ l) exit_text ≡ false
    → commands ((c ∷ l) ∷ lines) ≡ (c ∷ l) ∷ commands lines
commands-other c l lines x = ap (λ b. if b then [] else (c ∷ l) ∷ commands lines) x

pub exit_later :
    (l : List ℕ) (lines : List (List ℕ))
    → same_text l exit_text ≡ false
    → has_exit (l ∷ lines) ≡ true
    → has_exit lines ≡ true
exit_later l lines x e = sym (ap (λ b. if b then true else has_exit lines) x) ∙ e

module _ {W : Type 0} (sys : System W) (buf : ℕ) (log : W → List (List ℕ))
    (At : List (List ℕ) → W → Type 0) (serving : Serving sys buf log At) where
  -- A piece that prints and no more.
  pub record Says (lines : List (List ℕ)) (w : W) (m : Mem) (r : Option (Unit {0} × W × Mem))
      : Type 0 where
    pub after : W
    pub goes : r ≡ some (tt, after, m)
    pub at : At lines after
    pub same : log after ≡ log w

  pub fdputs-Says :
      (lines : List (List ℕ)) (s : List ℕ) (n : ℕ) (w : W) (m : Mem)
      → ece391_strlen s ≡ some n
      → At lines w
      → Says lines w m (ece391_fdputs sys (pos 1) s w m)
  unfolding ece391_fdputs
  fdputs-Says lines s n w m e at =
      let (r, w', goes, at', same) = serving.writes lines 0 n w (mem_of s) at in
      record { after = w'; goes = rw (e, ece391_fdputs, goes) refl; at = at'; same = same }

  pub report-Says :
      (lines : List (List ℕ)) (r : ℤ) (w : W) (m : Mem)
      → At lines w
      → Says lines w m (report sys buf r w m)
  unfolding report ece391_strlen ece391_strlen_from
  report-Says lines r w m at =
      if_both (λ (p : Prog W (Unit {0})). Says lines w m (p w m)) (eqb_ℤ r minus_one)
        (fdputs-Says lines no_such_command 16 w m refl at)
        (if_both (λ (p : Prog W (Unit {0})). Says lines w m (p w m)) (eqb_ℤ r (pos 256))
          (fdputs-Says lines terminated_by_exception 32 w m refl at)
          (if_both (λ (p : Prog W (Unit {0})). Says lines w m (p w m)) (eqb_ℤ r (pos 0))
            (record { after = w; goes = refl; at = at; same = refl })
            (fdputs-Says lines terminated_abnormally 30 w m refl at)))
