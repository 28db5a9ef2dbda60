-- ===== src/UserProg/Shell/Lines.antt =====
-- The line that syscalls/ece391shell.c finds in its buffer after a read.
use linux_like_os.Base.{
  ℕ, zero, suc, ◌+◌, ◌-◌, ◌<◌, ◌≡◌, refl, ap, ◌∙◌, arith, ◌==◌, ==_ne, ◌&&◌, update, true, ltb_ℤ,
  pos, some, List, [], ◌∷◌, length, get_or,
}
use linux_like_os.Memory.{Mem}
use linux_like_os.CString.Compare.{cstr, terminated}
use linux_like_os.FileSys.Image.{bytes_at}
use linux_like_os.FileSys.Lookup.{NoZero}
use linux_like_os.UserProg.{System}
use linux_like_os.UserProg.Shell.{end_line}

-- A text at an address.
pub record Stands (l : List ℕ) (a : ℕ) (m : Mem) : Type 0 where
  pub bytes : (i : ℕ) → i < length l → m (a + i) ≡ get_or l i 0

pub Stands-tail : (c : ℕ) (l : List ℕ) (a : ℕ) (m : Mem) → Stands (c ∷ l) a m → Stands l (a + 1) m
Stands-tail c l a m s = record {
  bytes = λ i lt. ap m (omega arith) ∙ s.bytes (suc i) (omega (arith, lt));
}

pub Stands-head : (c : ℕ) (l : List ℕ) (a : ℕ) (m : Mem) → Stands (c ∷ l) a m → m a ≡ c
Stands-head c l a m s = ap m (omega arith) ∙ s.bytes 0 (omega arith)

-- An array that holds a text and a terminator.
pub cstr-bytes_at :
    (l : List ℕ) (n a : ℕ) (m : Mem)
    → NoZero l
    → length l < n
    → Stands l a m
    → m (a + length l) ≡ 0
    → (cstr (bytes_at m a n) ≡ l) × (terminated (bytes_at m a n) ≡ true)
cstr-bytes_at [] zero a m z lt s e = absurd (omega (arith, lt))
cstr-bytes_at [] (suc n) a m z lt s e =
    let here : m a ≡ 0 = ap m (omega arith) ∙ e in rw (here) (refl, refl)
cstr-bytes_at (c ∷ l) zero a m z lt s e = absurd (omega (arith, lt))
cstr-bytes_at (c ∷ l) (suc n) a m z lt s e =
    let rest =
      cstr-bytes_at l n (a + 1) m z.1 (omega (arith, lt)) (Stands-tail c l a m s)
        (ap m (omega arith) ∙ e) in
    rw (Stands-head c l a m s, ==_ne c 0 z.0) (ap (λ t. c ∷ t) rest.0, rest.1)

-- The memory in which the newline has been cut off.
abbrev pub cut : (l : List ℕ) (buf : ℕ) → Mem → Mem
cut l buf m = update m (buf + length l) 0

pub cut-Stands : (l : List ℕ) (buf : ℕ) (m : Mem) → Stands l buf m → Stands l buf (cut l buf m)
cut-Stands l buf m s = record {
  bytes = λ i lt. rw (==_ne (buf + length l) (buf + i) (λ e. omega (arith, e, lt))) (s.bytes i lt);
}

cut_place : (n : ℕ) → (ltb_ℤ (pos 0) (pos (n + 1)) && (b'\n' == b'\n')) ≡ true
cut_place n = ground arith

pub end_line-cut :
    {W : Type 0} (sys : System W) (buf : ℕ) (l : List ℕ) (w : W) (m : Mem)
    → m (buf + length l) ≡ b'\n'
    → end_line sys buf (pos (length l + 1)) w m ≡ some (tt, w, cut l buf m)
unfolding end_line
end_line-cut sys buf l w m e =
    let back : length l + 1 - 1 ≡ length l = omega arith in rw (back, e, cut_place (length l)) refl
