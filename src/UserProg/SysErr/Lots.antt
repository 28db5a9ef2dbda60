-- ===== src/UserProg/SysErr/Lots.antt =====
-- The test of syscalls/ece391syserr.c that opens all descriptors.
use linux_like_os.Base.{
  ℕ, zero, suc, ◌+◌, ◌≤◌, ◌≡◌, refl, subst, ap, ◌∙◌, arith, false, eqb_ℤ, ℤ, pos, minus_one, some,
}
use linux_like_os.Memory.{Mem}
use linux_like_os.Screen.{Screen, puts}
use linux_like_os.UserProg.{System, Prog, kept, call_open, call_close}
use linux_like_os.UserProg.Texts.{this_directory}
use linux_like_os.CString.Compare.{cstr}
use linux_like_os.UserProg.Stream.{then_some}
use linux_like_os.UserProg.SysErr.{open_loop, close_loop, err_open_lots}
use linux_like_os.UserProg.SysErr.Texts
use linux_like_os.UserProg.SysErr.Expected.{Refuses, Passed, verdict-Passed, shut}

module _ {W : Type 0} (sys : System W) (call_sys : ℤ → Prog W ℤ) (buf line : ℕ)
    (screen : W → Screen) (At : (a b : ℕ) → W → Type 0)
    (refuses : Refuses sys call_sys screen At) where
  count : (n : ℕ) → eqb_ℤ (pos n) minus_one ≡ false
  count n = ground arith

  -- All descriptors from `b` on are opened, and the last call fails.
  open_loop-fills :
      (rounds b cnt : ℕ) (w : W) (m : Mem)
      → 2 ≤ b
      → b + rounds ≡ 8
      → At 2 b w
      → (w' : W) × (open_loop sys call_sys buf line (suc rounds) cnt w m ≡ some (cnt + 1, w', m))
        × At 2 8 w'
        × (screen w' ≡ screen w)
  unfolding open_loop
  open_loop-fills zero b cnt w m le e at =
      let full = subst (λ b. At 2 b w) (omega (arith, e)) at in
      (
        w,
        then_some (call_open sys this_directory) _ w w m m minus_one
            (shut sys call_sys buf line screen At refuses _ w m (refuses.open_refused w full)),
        full,
        refl,
      )
  open_loop-fills (suc rounds) b cnt w m le e at =
      let (w1, goes, at1, same) = refuses.opens b w le (omega (arith, e)) at in
      let (w2, rest, at2, same') =
        open_loop-fills rounds (b + 1) cnt w1 m (omega (arith, le)) (omega (arith, e)) at1 in
      (
        w2,
        then_some (call_open sys this_directory) _ w w1 m m (pos b) (ap (λ r. kept r m) goes)
            ∙ rw (count b) rest,
        at2,
        same' ∙ same,
      )

  close_loop-closes :
      (rounds a : ℕ) (w : W) (m : Mem)
      → 2 ≤ a
      → a + rounds ≡ 8
      → At a 8 w
      → (w' : W) × (close_loop sys call_sys buf line rounds a w m ≡ some (tt, w', m))
        × At 8 8 w'
        × (screen w' ≡ screen w)
  unfolding close_loop
  close_loop-closes zero a w m le e at =
      (w, refl, subst (λ a. At a 8 w) (omega (arith, e)) at, refl)
  close_loop-closes (suc rounds) a w m le e at =
      let (r, w1, goes, at1, same) = refuses.closes a w le (omega (arith, e)) at in
      let (w2, rest, at2, same') =
        close_loop-closes rounds (a + 1) w1 m (omega (arith, le)) (omega (arith, e)) at1 in
      (
        w2,
        then_some (call_close sys (pos a)) _ w w1 m m r (ap (λ r. kept r m) goes) ∙ rest,
        at2,
        same' ∙ same,
      )

  pub err_open_lots-Passed :
      (w : W) (m : Mem)
      → At 2 2 w
      → Passed sys call_sys buf line screen At refuses
          (cstr Texts.err_open_lots_pass)
          w
          m
          (err_open_lots sys call_sys buf line w m)
  unfolding err_open_lots
  err_open_lots-Passed w m at =
      let (w1, opened, at1, same1) = open_loop-fills 6 2 0 w m (omega arith) refl at in
      let (w2, closed, at2, same2) = close_loop-closes 6 2 w1 m (omega arith) refl at1 in
      let last =
        verdict-Passed sys call_sys buf line screen At refuses Texts.err_open_lots_fail
          Texts.err_open_lots_pass w2 m refl (refuses.all_closed w2 at2) in
      record {
        state = last.state;
        ended =
            then_some (open_loop sys call_sys buf line 7 0) _ w w1 m m 1 opened
            ∙ then_some (close_loop sys call_sys buf line 6 2) _ w1 w2 m m tt closed
            ∙ last.ended;
        at = last.at;
        shown = last.shown ∙ ap (puts (cstr Texts.err_open_lots_pass)) (same2 ∙ same1);
      }
