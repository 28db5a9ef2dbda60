-- ===== src/UserProg/Cat/Prints.antt =====
-- cat of syscalls/ece391cat.c prints the whole file.
use linux_like_os.Base.{
  ℕ, zero, suc, ◌+◌, ◌-◌, ◌<◌, ◌≤◌, ◌≡◌, ◌≢◌, refl, ap, ◌∙◌, subst, arith, ℤ, pos, minus_one, eqb_ℤ,
  Option, some, false,
}
use native.Mathlib.Decide.{ℕ_discrete}
use linux_like_os.Memory.{Mem}
use linux_like_os.Screen.{Screen, puts}
use linux_like_os.UserProg.{System, kept, call_read, call_write}
use linux_like_os.UserProg.Cat.{cat_loop}
use linux_like_os.UserProg.Stream.{file_text, given, Serves, written, puts-file_text, then_some}

nonzero : (c : ℕ) → c ≢ 0 → eqb_ℤ (pos c) (pos 0) ≡ false
nonzero c ne = ground (arith, ne)

count : (c : ℕ) → eqb_ℤ (pos c) minus_one ≡ false
count c = ground arith

module _ {W : Type 0} (sys : System W) (buf fd size : ℕ) (contents : ℕ → ℕ) (screen : W → Screen)
    (At : ℕ → W → Type 0) (serves : Serves sys (pos fd) size contents screen At) where
  -- The program has ended with this status, the file is read to its end, and what was not yet
  -- printed of it is on the screen.
  pub record Printed (p : ℕ) (w : W) (r : Option (ℤ × W × Mem)) : Type 0 where
    pub state : W
    pub memory : Mem
    pub ended : r ≡ some (pos 0, state, memory)
    pub at_end : At size state
    pub shown : screen state ≡ puts (file_text contents p (size - p)) (screen w)

  cat_loop-end :
      (fuel p : ℕ) (w w' : W) (m m' : Mem)
      → sys.read (pos fd) buf 1024 w m ≡ some (pos 0, w', m')
      → cat_loop sys buf (suc fuel) (pos fd) w m ≡ some (pos 0, w', m')
  unfolding cat_loop
  cat_loop-end fuel p w w' m m' e =
      then_some (call_read sys (pos fd) buf 1024) _ w w' m m' (pos 0) e

  cat_loop-piece :
      (fuel c : ℕ) (w w' w'' : W) (m m' : Mem)
      → c ≢ 0
      → sys.read (pos fd) buf 1024 w m ≡ some (pos c, w', m')
      → sys.write (pos 1) buf c w' m' ≡ some (pos c, w'')
      → cat_loop sys buf (suc fuel) (pos fd) w m ≡ cat_loop sys buf fuel (pos fd) w'' m'
  unfolding cat_loop
  cat_loop-piece fuel c w w' w'' m m' ne e e' =
      then_some (call_read sys (pos fd) buf 1024) _ w w' m m' (pos c) e
      ∙ rw (nonzero c ne, count c)
          (then_some (call_write sys (pos 1) buf c) _ w' w'' m' m' (pos c) (ap (λ r. kept r m') e')
            ∙ rw (count c) refl)

  at_end :
      (fuel p : ℕ) (w w' : W) (m m' : Mem)
      → size ≡ p
      → sys.read (pos fd) buf 1024 w m ≡ some (pos (given size p 1024), w', m')
      → At (p + given size p 1024) w'
      → screen w' ≡ screen w
      → Printed p w (cat_loop sys buf (suc fuel) (pos fd) w m)
  unfolding puts
  at_end fuel p w w' m m' e reads at same =
      let nothing : given size p 1024 ≡ 0 = ground (arith, e) in
      let none_left : size - p ≡ 0 = omega (arith, e) in
      record {
        state = w';
        memory = m';
        ended = cat_loop-end fuel p w w' m m' (rw (nothing) at reads);
        at_end = subst (λ k. At k w') (omega (arith, e, nothing)) at;
        shown = rw (none_left, puts) same;
      }

  Printed-next :
      (fuel p c : ℕ) (w w'' : W) (m m' : Mem)
      → p + c ≤ size
      → cat_loop sys buf (suc fuel) (pos fd) w m ≡ cat_loop sys buf fuel (pos fd) w'' m'
      → screen w'' ≡ puts (file_text contents p (c)) (screen w)
      → Printed (p + c) w'' (cat_loop sys buf fuel (pos fd) w'' m')
      → Printed p w (cat_loop sys buf (suc fuel) (pos fd) w m)
  Printed-next fuel p c w w'' m m' le steps now later = record {
    state = later.state;
    memory = later.memory;
    ended = steps ∙ later.ended;
    at_end = later.at_end;
    shown = later.shown ∙ rest;
  }
    where
      rest :
          puts (file_text contents (p + c) (size - (p + c))) (screen w'')
          ≡ puts (file_text contents p (size - p)) (screen w)
      rest =
          let e : c + (size - (p + c)) ≡ size - p = omega (arith, le) in
          rw (now) (
            puts-file_text contents (c) (size - (p + c)) p (screen w)
            ∙ ap (λ n. puts (file_text contents p n) (screen w)) e)

  -- From byte `p` on, the loop prints the rest of the file and ends with status 0; as many rounds
  -- as bytes are left, and one more, are enough.
  pub cat_loop-Printed :
      (fuel p : ℕ) (w : W) (m : Mem)
      → At p w
      → p ≤ size
      → size - p < fuel
      → Printed p w (cat_loop sys buf fuel (pos fd) w m)
  cat_loop-Printed zero p w m at le lt = absurd (omega (arith, lt))
  cat_loop-Printed (suc fuel) p w m at le lt =
      let (w', m', reads, at', same, bytes) = serves.reads p 1024 buf w m (omega arith) at le in
      elim (ℕ_discrete size p) [
        | yes e ↦ at_end fuel p w w' m m' e reads at' same
        | no ne ↦
            let c = given size p 1024 in
            let (w'', writes, at'', printed) = serves.writes (p + c) c buf w' m' at' in
            Printed-next fuel p c w w'' m m' (ground arith)
              (cat_loop-piece fuel c w w' w'' m m' (λ e. ground (arith, e, ne)) reads writes)
              (printed
                ∙ written contents c p buf m' (screen w') bytes
                ∙ ap (puts (file_text contents p c)) same)
              (cat_loop-Printed fuel (p + c) w'' m' at'' (ground arith) (ground arith))
      ]
