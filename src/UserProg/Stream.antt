-- ===== src/UserProg/Stream.antt =====
-- What the programs in syscalls/ expect of a file that they read and of the screen that they
-- write to.
use linux_like_os.Base.{
  ℕ, zero, suc, ◌+◌, ◌-◌, ◌<◌, ◌≤◌, ◌^◌, min, ◌≡◌, refl, ap, ◌∙◌, arith, ℤ, pos, some, List, [],
  ◌∷◌, for_range,
}
use linux_like_os.Memory.{Mem}
use linux_like_os.Screen.{Screen, puts, putc}
use linux_like_os.Terminal.{write_byte}
use linux_like_os.UserProg.{System, Prog, ◌>>=◌, after}

-- A piece that goes through, and what follows it.
pub then_some :
    {W A B : Type 0} (p : Prog W A) (f : A → Prog W B) (w w' : W) (m m' : Mem) (a : A)
    → p w m ≡ some (a, w', m')
    → (p >>= f) w m ≡ f a w' m'
then_some p f w w' m m' a e = ap (after f) e

-- `n` bytes of a file from byte `p` on.
abbrev pub file_text : (ℕ → ℕ) → (p n : ℕ) → List ℕ
file_text contents p zero = []
file_text contents p (suc n) = contents p ∷ file_text contents (p + 1) n

-- How many bytes a read of `n` gives at byte `p` of a file of `size` bytes.
abbrev pub given : (size p n : ℕ) → ℕ
given size p n = min n (size - p)

-- The file behind `fd` is read from where it stands, and what is written to 1 appears on the
-- screen. `At p w`: the file stands at byte `p`.
pub record Serves {W : Type 0} (sys : System W) (fd : ℤ) (size : ℕ) (contents : ℕ → ℕ)
    (screen : W → Screen) (At : ℕ → W → Type 0) : Type 0 where
  pub reads :
      (p n buf : ℕ) (w : W) (m : Mem)
      → n < 2 ^ 31
      → At p w
      → p ≤ size
      → (w' : W) × (m' : Mem) × (sys.read fd buf n w m ≡ some (pos (given size p n), w', m'))
        × At (p + given size p n) w'
        × (screen w' ≡ screen w)
        × ((i : ℕ) → i < given size p n → m' (buf + i) ≡ contents (p + i))
  pub writes :
      (p n buf : ℕ) (w : W) (m : Mem)
      → At p w
      → (w' : W) × (sys.write (pos 1) buf n w m ≡ some (pos n, w'))
        × At p w'
        × (screen w' ≡ for_range n 0 (write_byte m buf) (screen w))

written_loop :
    (contents : ℕ → ℕ) (n i p buf : ℕ) (m : Mem) (s : Screen)
    → ((j : ℕ) → j < n → m (buf + (i + j)) ≡ contents (p + j))
    → for_range n i (write_byte m buf) s ≡ puts (file_text contents p n) s
unfolding for_range write_byte puts
written_loop contents zero i p buf m s h = refl
written_loop contents (suc n) i p buf m s h =
    let e : m (buf + i) ≡ contents p =
      ap m (omega arith) ∙ h 0 (omega arith) ∙ ap contents (omega arith) in
    rw (e) (
      written_loop contents n (i + 1) (p + 1) buf m (putc (contents p) s)
        (λ j lt. ap m (omega arith) ∙ h (suc j) (omega arith) ∙ ap contents (omega arith)))

-- What is on the screen after the bytes in a buffer have been written.
pub written :
    (contents : ℕ → ℕ) (n p buf : ℕ) (m : Mem) (s : Screen)
    → ((j : ℕ) → j < n → m (buf + j) ≡ contents (p + j))
    → for_range n 0 (write_byte m buf) s ≡ puts (file_text contents p n) s
written contents n p buf m s h =
    written_loop contents n 0 p buf m s (λ j lt. ap m (omega arith) ∙ h j lt)

-- A text is printed piece by piece.
pub puts-file_text :
    (contents : ℕ → ℕ) (a b p : ℕ) (s : Screen)
    → puts (file_text contents (p + a) b) (puts (file_text contents p a) s)
      ≡ puts (file_text contents p (a + b)) s
unfolding puts
puts-file_text contents zero b p s =
    let here : p + 0 ≡ p = omega arith in let all : 0 + b ≡ b = omega arith in rw (here, all) refl
puts-file_text contents (suc a) b p s =
    let next : p + suc a ≡ p + 1 + a = omega arith in
    let all : suc a + b ≡ suc (a + b) = omega arith in
    rw (next, all) (puts-file_text contents a b (p + 1) (putc (contents p) s))
