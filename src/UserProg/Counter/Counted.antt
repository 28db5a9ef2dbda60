-- ===== src/UserProg/Counter/Counted.antt =====
-- syscalls/ece391counter.c prints the numbers in their order.
use linux_like_os.Base.{
  ℕ, zero, suc, ◌+◌, ◌^◌, ◌<◌, ◌≤◌, ◌≡◌, refl, sym, subst, ap, ◌∙◌, arith, ◌==◌, ==_refl,
  if◌then◌else◌, true, false, ℤ, pos, some, List, [], ◌∷◌, ◌++◌, length, update,
}
use linux_like_os.Memory.{Mem}
use linux_like_os.CString.{itoa}
use linux_like_os.CString.Compare.{cstr, terminated, strlen-length}
use linux_like_os.CString.Number.{length-itoa-le}
use linux_like_os.FileSys.Image.{bytes_at}
use linux_like_os.FileSys.Lookup.{NoZero}
use linux_like_os.Process.Memory.{store_bytes}
use linux_like_os.UserLib.{ece391_strlen, ece391_itoa}
use linux_like_os.UserLib.Agreement.{ece391-Agrees}
use linux_like_os.UserProg.{System, Prog, ◌>>◌, pure, defined, call_read, ece391_fdputs}
use linux_like_os.UserProg.Texts.{newline, enter_the_test_number, wrong_choice}
use linux_like_os.UserProg.Stream.{then_some}
use linux_like_os.UserProg.Shell.Lines.{cut-Stands, Stands, Stands-head, cstr-bytes_at}
use linux_like_os.UserProg.Counter.{counter_loop, counter_max, counter, is_wrong}
use linux_like_os.UserProg.Counter.Stored.{itoa-NoZero, stored_text}
use linux_like_os.Screen.{Screen, puts}
use linux_like_os.UserProg.Printing.{Prints, fdputs-Prints, puts-++}

-- The decimal texts of the numbers behind `i`, a newline behind each.
abbrev pub numbers : (rounds i : ℕ) → List ℕ
numbers zero i = []
numbers (suc rounds) i = itoa (i + 1) 10 ++ (b'\n' ∷ numbers rounds (i + 1))

-- The last number for each key.
abbrev pub limit : ℕ → ℕ
limit c = if c == b'2' then 100000 else if c == b'1' then 10000 else 100

limit_small : (c : ℕ) → b'0' ≤ c → c ≤ b'2' → 0 + limit c < 10 ^ 10
limit_small c lo hi = ground (arith, lo, hi)

module _ {W : Type 0} (sys : System W) (screen : W → Screen) (At : W → Type 0)
    (prints : Prints sys screen At) where
  counter_loop-step :
      (buf rounds i : ℕ) (w w1 w2 : W) (m : Mem)
      → let m' = store_bytes m buf (ece391_itoa (i + 1) 10 ++ (0 ∷ [])) in
        ece391_fdputs sys (pos 1) (bytes_at m' buf 1024) w m' ≡ some (tt, w1, m')
        → ece391_fdputs sys (pos 1) newline w1 m' ≡ some (tt, w2, m')
        → counter_loop sys buf (suc rounds) i w m ≡ counter_loop sys buf rounds (i + 1) w2 m'
  unfolding counter_loop
  counter_loop-step buf rounds i w w1 w2 m text end =
      let m' = store_bytes m buf (ece391_itoa (i + 1) 10 ++ (0 ∷ [])) in
      then_some (ece391_fdputs sys (pos 1) (bytes_at m' buf 1024)) _ w w1 m' m' tt text
      ∙ then_some (ece391_fdputs sys (pos 1) newline) _ w1 w2 m' m' tt end

  -- The array holds the digits of the next number.
  stored_number :
      (buf i : ℕ) (m : Mem)
      → i + 1 < 10 ^ 10
      → let s = bytes_at (store_bytes m buf (ece391_itoa (i + 1) 10 ++ (0 ∷ []))) buf 1024 in
        (cstr s ≡ itoa (i + 1) 10) × (terminated s ≡ true)
  stored_number buf i m lt =
      subst
        (λ t.
          (cstr (bytes_at (store_bytes m buf (t ++ (0 ∷ []))) buf 1024) ≡ itoa (i + 1) 10)
          × (terminated (bytes_at (store_bytes m buf (t ++ (0 ∷ []))) buf 1024) ≡ true))
        (sym (ece391-Agrees.itoa_agrees (i + 1) 10))
        (stored_text (itoa (i + 1) 10) 1024 buf m (itoa-NoZero (i + 1))
          (omega (arith, length-itoa-le 9 (i + 1) 10 lt (omega arith))))

  -- The `for` loop ends with status 0 after it has printed the numbers from `i + 1` on.
  pub counter_loop-numbers :
      (buf rounds i : ℕ) (w : W) (m : Mem)
      → i + rounds < 10 ^ 10
      → At w
      → (w' : W) × (m' : Mem) × (counter_loop sys buf rounds i w m ≡ some (pos 0, w', m'))
        × (screen w' ≡ puts (numbers rounds i) (screen w))
  unfolding counter_loop puts
  counter_loop-numbers buf zero i w m lt at = (w, m, refl, refl)
  counter_loop-numbers buf (suc rounds) i w m lt at =
      let m1 = store_bytes m buf (ece391_itoa (i + 1) 10 ++ (0 ∷ [])) in
      let (text, whole) = stored_number buf i m (omega (arith, lt)) in
      let (w1, digits, at1, out1) =
        fdputs-Prints sys screen At prints (bytes_at m1 buf 1024) w m1 whole at in
      let (w2, end, at2, out2) = fdputs-Prints sys screen At prints newline w1 m1 refl at1 in
      let (w', m', goes, out') =
        counter_loop-numbers buf rounds (i + 1) w2 m1 (omega (arith, lt)) at2 in
      (
        w',
        m',
        counter_loop-step buf rounds i w w1 w2 m digits end ∙ goes,
        out'
            ∙ ap (puts (numbers rounds (i + 1)))
                (out2 ∙ ap (puts (b'\n' ∷ [])) (out1 ∙ ap (λ t. puts t (screen w)) text))
            ∙ sym (puts-++ (itoa (i + 1) 10) (b'\n' ∷ numbers rounds (i + 1)) (screen w)),
      )

  -- The keyboard delivers the line with the one key `c`, which changes the screen by `echo`.
  -- `Asked` holds until then.
  pub record Chosen (Asked : W → Type 0) (buf c : ℕ) (echo : Screen → Screen) : Type 0 where
    pub asks : Prints sys screen Asked
    pub reads :
        (w : W) (m : Mem)
        → Asked w
        → (w' : W) × (m' : Mem) × (sys.read (pos 0) buf 1023 w m ≡ some (pos 2, w', m'))
          × At w'
          × (screen w' ≡ echo (screen w))
          × Stands (c ∷ b'\n' ∷ []) buf m'

  is_choice : (buf c : ℕ) → b'0' ≤ c → c ≤ b'2' → is_wrong sys buf 2 c ≡ false
  unfolding is_wrong
  is_choice buf c lo hi = ground (arith, lo, hi)

  counter_max-limit : (buf c : ℕ) → b'0' ≤ c → c ≤ b'2' → counter_max sys buf c ≡ limit c
  unfolding counter_max
  counter_max-limit buf c lo hi = ground (arith, lo, hi)

  -- Up to the loop.
  counter-loop :
      (buf c : ℕ) (w w1 w2 : W) (m m2 : Mem)
      → b'0' ≤ c
      → c ≤ b'2'
      → ece391_fdputs sys (pos 1) enter_the_test_number w m ≡ some (tt, w1, m)
      → sys.read (pos 0) buf 1023 w1 m ≡ some (pos 2, w2, m2)
      → ece391_strlen (bytes_at (update m2 (buf + 2) 0) buf 1024) ≡ some 2
      → update m2 (buf + 2) 0 buf ≡ c
      → counter sys buf w m
        ≡ counter_loop sys buf (counter_max sys buf c) 0 w2 (update m2 (buf + 2) 0)
  unfolding counter
  counter-loop buf c w w1 w2 m m2 lo hi asks reads len first =
      let m3 = update m2 (buf + 2) 0 in
      let wrong : Prog W ℤ = ece391_fdputs sys (pos 1) wrong_choice >> pure (pos 0) in
      then_some (ece391_fdputs sys (pos 1) enter_the_test_number) _ w w1 m m tt asks
      ∙ then_some (call_read sys (pos 0) buf 1023) _ w1 w2 m m2 (pos 2) reads
      ∙ then_some (defined (ece391_strlen (bytes_at m3 buf 1024))) _ w2 w2 m3 m3 2
          (ap (λ o. defined o w2 m3) len)
      ∙ ap
          (λ b.
            (if is_wrong sys buf 2 b then wrong else counter_loop sys buf (counter_max sys buf b) 0)
              w2 m3)
          first
      ∙ ap (λ b. (if b then wrong else counter_loop sys buf (counter_max sys buf c) 0) w2 m3)
          (is_choice buf c lo hi)

  -- The same for the whole program.
  pub counter-numbers :
      (Asked : W → Type 0) (buf c : ℕ) (echo : Screen → Screen) (w : W) (m : Mem)
      → Chosen Asked buf c echo
      → b'0' ≤ c
      → c ≤ b'2'
      → Asked w
      → (w' : W) × (m' : Mem) × (counter sys buf w m ≡ some (pos 0, w', m'))
        × (screen w'
            ≡ puts (numbers (limit c) 0) (echo (puts (cstr enter_the_test_number) (screen w))))
  counter-numbers Asked buf c echo w m chosen lo hi at =
      let (w1, asks, at1, out1) =
        fdputs-Prints sys screen Asked chosen.asks enter_the_test_number w m refl at in
      let (w2, m2, reads, at2, out2, stands) = chosen.reads w1 m at1 in
      let m3 = update m2 (buf + 2) 0 in
      let kept = cut-Stands (c ∷ b'\n' ∷ []) buf m2 stands in
      let typed : NoZero (c ∷ b'\n' ∷ []) =
        ((λ e. omega (arith, e, lo)), ((λ e. omega (arith, e)), tt)) in
      let ends : m3 (buf + 2) ≡ 0 = rw (==_refl (buf + 2)) refl in
      let (text, whole) =
        cstr-bytes_at (c ∷ b'\n' ∷ []) 1024 buf m3 typed (omega arith) kept ends in
      let len =
        ece391-Agrees.strlen_agrees (bytes_at m3 buf 1024)
        ∙ strlen-length (bytes_at m3 buf 1024) whole
        ∙ ap (λ t. some (length t)) text in
      let (w', m', goes, out') =
        counter_loop-numbers buf (limit c) 0 w2 m3 (limit_small c lo hi) at2 in
      (
        w',
        m',
        counter-loop buf c w w1 w2 m m2 lo hi asks reads len
              (Stands-head c (b'\n' ∷ []) buf m3 kept)
            ∙ ap (λ n. counter_loop sys buf n 0 w2 m3) (counter_max-limit buf c lo hi)
            ∙ goes,
        out' ∙ ap (puts (numbers (limit c) 0)) (out2 ∙ ap echo out1),
      )
