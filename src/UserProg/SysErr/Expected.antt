-- ===== src/UserProg/SysErr/Expected.antt =====
-- What the tests of syscalls/ece391syserr.c expect of a kernel, and how a test goes on from there.
use linux_like_os.Base.{
  ℕ, ◌+◌, ◌<◌, ◌≤◌, ◌≡◌, ap, true, false, eqb_ℤ, ℤ, pos, minus_one, Option, some, List, for_range,
}
use linux_like_os.Memory.{Mem}
use linux_like_os.Screen.{Screen, puts}
use linux_like_os.Terminal.{write_byte}
use linux_like_os.UserProg.{System, Prog, ◌>>=◌, kept, ece391_fdputs}
use linux_like_os.UserProg.OnKernel.{no_call}
use linux_like_os.UserProg.Texts.{this_directory}
use linux_like_os.CString.Compare.{cstr, terminated}
use linux_like_os.UserProg.Stream.{then_some}
use linux_like_os.UserProg.SysErr.{expect_failure, verdict}
use linux_like_os.UserProg.SysErr.Texts
use linux_like_os.UserProg.Printing.{fdputs-Prints}

-- What the tests expect. `At a b`: of the descriptors from 2 on, those from `a` to `b - 1` are
-- open on a directory and the others closed.
pub record Refuses {W : Type 0} (sys : System W) (call_sys : ℤ → Prog W ℤ) (screen : W → Screen)
    (At : (a b : ℕ) → W → Type 0) : Type 0 where
  pub writes :
      (n buf : ℕ) (w : W) (m : Mem)
      → At 2 2 w
      → (w' : W) × (sys.write (pos 1) buf n w m ≡ some (pos n, w'))
        × At 2 2 w'
        × (screen w' ≡ for_range n 0 (write_byte m buf) (screen w))
  pub read_refused :
      (fd : ℤ) (buf n : ℕ) (w : W) (m : Mem)
      → At 2 2 w
      → eqb_ℤ fd (pos 0) ≡ false
      → sys.read fd buf n w m ≡ some (minus_one, w, m)
  pub write_refused :
      (fd : ℤ) (buf n : ℕ) (w : W) (m : Mem)
      → At 2 2 w
      → eqb_ℤ fd (pos 1) ≡ false
      → sys.write fd buf n w m ≡ some (minus_one, w)
  pub close_refused : (fd : ℤ) (w : W) → At 2 2 w → sys.close fd w ≡ some (minus_one, w)
  pub vidmap_refused :
      (a : ℕ) (w : W) (m : Mem) → a < 0x8000000 → sys.vidmap a w m ≡ some (minus_one, w, m)
  pub call_refused :
      (num : ℤ) (w : W) (m : Mem) → no_call num ≡ true → call_sys num w m ≡ some (minus_one, w, m)
  pub helloo_refused : (w : W) → sys.open_file Texts.helloo w ≡ some (minus_one, w)
  pub shel_refused : (w : W) → sys.open_file Texts.shel w ≡ some (minus_one, w)
  pub empty_name_refused : (w : W) → sys.open_file Texts.empty_name w ≡ some (minus_one, w)
  pub opens :
      (b : ℕ) (w : W)
      → 2 ≤ b
      → b < 8
      → At 2 b w
      → (w' : W) × (sys.open_file this_directory w ≡ some (pos b, w'))
        × At 2 (b + 1) w'
        × (screen w' ≡ screen w)
  pub open_refused : (w : W) → At 2 8 w → sys.open_file this_directory w ≡ some (minus_one, w)
  pub closes :
      (a : ℕ) (w : W)
      → 2 ≤ a
      → a < 8
      → At a 8 w
      → (r : ℤ) × (w' : W) × (sys.close (pos a) w ≡ some (r, w'))
        × At (a + 1) 8 w'
        × (screen w' ≡ screen w)
  pub all_closed : (w : W) → At 8 8 w → At 2 2 w

module _ {W : Type 0} (sys : System W) (call_sys : ℤ → Prog W ℤ) (buf line : ℕ)
    (screen : W → Screen) (At : (a b : ℕ) → W → Type 0)
    (refuses : Refuses sys call_sys screen At) where
  -- A piece has ended with 0 after it has printed this text.
  pub record Passed (text : List ℕ) (w : W) (m : Mem) (r : Option (ℕ × W × Mem)) : Type 0 where
    pub state : W
    pub ended : r ≡ some (0, state, m)
    pub at : At 2 2 state
    pub shown : screen state ≡ puts text (screen w)

  pub fdputs-shown :
      (s : List ℕ) (w : W) (m : Mem)
      → terminated s ≡ true
      → At 2 2 w
      → (w' : W) × (ece391_fdputs sys (pos 1) s w m ≡ some (tt, w', m))
        × At 2 2 w'
        × (screen w' ≡ puts (cstr s) (screen w))
  fdputs-shown s w m t at =
      fdputs-Prints sys screen (At 2 2) (record { writes = refuses.writes }) s w m t at

  pub verdict-Passed :
      (fail_text pass_text : List ℕ) (w : W) (m : Mem)
      → terminated pass_text ≡ true
      → At 2 2 w
      → Passed (cstr pass_text) w m (verdict sys call_sys buf line fail_text pass_text 0 w m)
  unfolding verdict
  verdict-Passed fail_text pass_text w m t at =
      let (w', goes, at', shown) = fdputs-shown pass_text w m t at in
      record {
        state = w';
        ended = then_some (ece391_fdputs sys (pos 1) pass_text) _ w w' m m tt goes;
        at = at';
        shown = shown;
      }

  -- A call that fails as it should, and what follows it.
  pub refused :
      {B : Type 0} (p : Prog W ℤ) (text : List ℕ) (fail : ℕ) (g : ℕ → Prog W B) (w : W) (m : Mem)
      → p w m ≡ some (minus_one, w, m)
      → (p >>= (λ r. expect_failure sys call_sys buf line r text fail >>= g)) w m ≡ g fail w m
  unfolding expect_failure
  refused p text fail g w m e = then_some p _ w w m m minus_one e

  pub shut :
      (r : Option (ℤ × W)) (w : W) (m : Mem)
      → r ≡ some (minus_one, w)
      → kept r m ≡ some (minus_one, w, m)
  shut r w m e = ap (λ r. kept r m) e

  pub refused_last :
      (p : Prog W ℤ) (text : List ℕ) (fail : ℕ) (w : W) (m : Mem)
      → p w m ≡ some (minus_one, w, m)
      → (p >>= (λ r. expect_failure sys call_sys buf line r text fail)) w m ≡ some (fail, w, m)
  unfolding expect_failure
  refused_last p text fail w m e = then_some p _ w w m m minus_one e
