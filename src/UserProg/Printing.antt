-- ===== src/UserProg/Printing.antt =====
-- What ece391_fdputs of syscalls/ece391support.c prints.
use linux_like_os.Base.{
  ℕ, zero, suc, ◌+◌, ◌≡◌, refl, ap, ◌∙◌, true, pos, some, List, [], ◌∷◌, ◌++◌, length, for_range,
}
use linux_like_os.Memory.{Mem}
use linux_like_os.Screen.{Screen, puts}
use linux_like_os.Terminal.{write_byte}
use linux_like_os.CString.Compare.{cstr, terminated, strlen-length}
use linux_like_os.FileSys.Image.{mem_of, bytes_at}
use linux_like_os.UserLib.Agreement.{ece391-Agrees}
use linux_like_os.UserProg.{System, ece391_fdputs}
use linux_like_os.UserProg.Stream.{written, file_text}
use linux_like_os.UserProg.Counter.Stored.{bytes_at-Stands, cstr-Stands}

-- What is written to 1 appears on the screen.
pub record Prints {W : Type 0} (sys : System W) (screen : W → Screen) (At : W → Type 0)
    : Type 0 where
  pub writes :
      (n buf : ℕ) (w : W) (m : Mem)
      → At w
      → (w' : W) × (sys.write (pos 1) buf n w m ≡ some (pos n, w'))
        × At w'
        × (screen w' ≡ for_range n 0 (write_byte m buf) (screen w))

pub puts-++ : (a b : List ℕ) (s : Screen) → puts (a ++ b) s ≡ puts b (puts a s)
unfolding puts
puts-++ [] b s = refl
puts-++ (c ∷ a) b s = puts-++ a b _

file_text-bytes_at : (m : Mem) (p n : ℕ) → file_text m p n ≡ bytes_at m p n
file_text-bytes_at m p zero = refl
file_text-bytes_at m p (suc n) = ap (λ t. m p ∷ t) (file_text-bytes_at m (p + 1) n)

pub fdputs-Prints :
    {W : Type 0} (sys : System W) (screen : W → Screen) (At : W → Type 0)
    (prints : Prints sys screen At) (s : List ℕ) (w : W) (m : Mem)
    → terminated s ≡ true
    → At w
    → (w' : W) × (ece391_fdputs sys (pos 1) s w m ≡ some (tt, w', m))
      × At w'
      × (screen w' ≡ puts (cstr s) (screen w))
unfolding ece391_fdputs
fdputs-Prints sys screen At prints s w m t at =
    let len = ece391-Agrees.strlen_agrees s ∙ strlen-length s t in
    let n = length (cstr s) in
    let (w', goes, at', wrote) = prints.writes n 0 w (mem_of s) at in
    let text =
      file_text-bytes_at (mem_of s) 0 n ∙ bytes_at-Stands (cstr s) 0 (mem_of s) (cstr-Stands s) in
    (
      w',
      rw (len, goes, ece391_fdputs) refl,
      at',
      wrote
          ∙ written (mem_of s) n 0 0 (mem_of s) (screen w) (λ j lt. refl)
          ∙ ap (λ t. puts t (screen w)) text,
    )
