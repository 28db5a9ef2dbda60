-- ===== src/CString/Copy.antt =====
-- strncpy copies a text and pads it with zeros.
use linux_like_os.Base.{
  ℕ, zero, suc, ◌+◌, ◌-◌, ◌≡◌, ap, ◌∙◌, fun_ext, ◌==◌, if◌then◌else◌, update, true, Bool-cases, inl,
  inr, some, List, [], ◌∷◌, get_or, arith,
}
use linux_like_os.Memory.{Mem, within}
use linux_like_os.CString.{pad_zero, strncpy}
use linux_like_os.CString.Compare.{terminated, cstr, cstr_cons, cstr_end, get_or-cons, get_or-head}

-- The first `n` bytes of the text, and zeros where it is shorter.
abbrev pub padded : Mem → ℕ → List ℕ → ℕ → Mem
padded m dest t n a = if within dest n a then get_or t (a - dest) 0 else m a

pad-padded : (m : Mem) (dest n a : ℕ) → pad_zero m dest n a ≡ padded m dest [] n a
unfolding pad_zero
pad-padded m dest zero a = ground arith
pad-padded m dest (suc n) a = ground (arith, pad-padded (update m dest 0) (dest + 1) n a)

padded_cons :
    (m : Mem) (dest c : ℕ) (t : List ℕ) (n a : ℕ)
    → padded (update m dest c) (dest + 1) t n a ≡ padded m dest (c ∷ t) (suc n) a
padded_cons m dest c t n a = ground (arith, get_or-cons c t a dest, get_or-head c t a dest)

-- `strncpy` of a terminated string leaves the first `n` bytes of its text at `dest`, with zeros
-- behind a shorter text, and changes no other byte; no terminator is added to a longer one.
pub strncpy-padded :
    (m : Mem) (dest : ℕ) (src : List ℕ) (n : ℕ)
    → terminated src ≡ true
    → strncpy m dest src n ≡ some (padded m dest (cstr src) n)
unfolding strncpy
strncpy-padded m dest [] n h = absurd (ground arith)
strncpy-padded m dest (c ∷ src) zero h = ap some (fun_ext (λ a. ground arith))
strncpy-padded m dest (c ∷ src) (suc n) h = elim (Bool-cases (c == 0)) [
  | inl e ↦ rw (cstr_end c src e, e) (ap some (fun_ext (pad-padded m dest (suc n))))
  | inr e ↦
      rw (cstr_cons c src e, e)
        (strncpy-padded (update m dest c) (dest + 1) src n (ground arith)
          ∙ ap some (fun_ext (padded_cons m dest c (cstr src) n)))
]
