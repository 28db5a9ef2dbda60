-- ===== src/Terminal/Line.antt =====
-- What a read returns, and the buffer it leaves.
use linux_like_os.Base.{
  ℕ, zero, suc, ◌+◌, ◌-◌, ◌<◌, ◌≤◌, ◌≡◌, ◌≢◌, refl, ap, ◌∙◌, ltb, leb, ◌==◌, if◌then◌else◌, update,
  ◌&&◌, for_range, for_range_inv, arith, pos, fun_ext, some, ap₂, ==_ne,
}
use native.Mathlib.Decide.{ℕ_discrete}
use linux_like_os.Memory.{Mem, within}
use linux_like_os.Terminal.{
  Console, current, typed, typed_count, clear_key, clear_buffer, copy_line, zero_byte, read_line,
}

-- Memory with a line of `n` bytes at `buf`, and zeros up to the size of the buffer.
abbrev pub with_line : Mem → ℕ → (ℕ → ℕ) → ℕ → Mem
with_line m buf line n a =
    if within buf n a then line (a - buf) else if within buf 128 a then 0 else m a

-- The line ends at its first newline, which is the byte `k`.
pub record IsLine (line : ℕ → ℕ) (k : ℕ) : Type 0 where
  pub newline : line k ≡ b'\n'
  pub first : (j : ℕ) → j < k → line j ≢ b'\n'

zeroed :
    (buf : ℕ) (m : Mem) (a : ℕ)
    → for_range 128 0 (zero_byte buf) m a ≡ (if within buf 128 a then 0 else m a)
unfolding zero_byte
zeroed buf m a =
    for_range_inv (λ i t. t a ≡ (if within buf i a then 0 else m a)) (zero_byte buf) 128
      (λ i t lt h. ground (arith, h)) 128 0 128 m refl (omega arith) (ground arith)

copy_line_lem :
    (rounds i k : ℕ) (line : ℕ → ℕ) (buf : ℕ) (m : Mem)
    → IsLine line k
    → i ≤ k
    → k < i + rounds
    → copy_line rounds i line buf m
      ≡ (suc k, λ a. if leb (buf + i) a && leb a (buf + k) then line (a - buf) else m a)
unfolding copy_line
copy_line_lem zero i k line buf m l le lt = absurd (omega arith)
copy_line_lem (suc rounds) i k line buf m l le lt =
    let rest = copy_line_lem rounds (i + 1) k line buf (update m (buf + i) (line i)) l in
    elim (ℕ_discrete i k) [
      | yes e ↦
          rw (e, l.newline)
            (ap₂ (λ n f. (n, f)) (omega arith) (fun_ext (λ a. ground (arith, e, l.newline))))
      | no ne ↦ rw (==_ne (line i) 10 (l.first i (omega (arith, ne)))) (
          rest (omega (arith, ne)) (omega (arith, ne))
          ∙ ap (λ f. (suc k, f)) (fun_ext (λ a. ground (arith, ne))))
    ]

cleared : ℕ → Console → Console
cleared n c = record c {
  kb_buffer = λ t j. if (t == current c) && ltb j n then 0 else c.kb_buffer t j;
}

cleared-keys : (c : Console) (n : ℕ) → for_range n 0 clear_key c ≡ cleared n c
unfolding cleared
cleared-keys c n =
    for_range_inv (λ i d. d ≡ cleared i c) clear_key n
      (λ i d lt h.
        rw h (ap (λ b. record c { kb_buffer = b }) (fun_ext (λ t. fun_ext (λ j. ground arith)))))
      n 0 n c (omega arith) (omega arith)
      (ap (λ b. record c { kb_buffer = b }) (fun_ext (λ t. fun_ext (λ j. ground arith))))

-- `clear_buffer` empties the buffer of the terminal on display and leaves the rest.
pub clear_buffer_lem :
    (c : Console)
    → clear_buffer c ≡ record c {
      kb_buffer = λ t j. if (t == current c) && ltb j (typed_count c) then 0 else c.kb_buffer t j;
      count = update c.count (current c) 0;
    }
unfolding clear_buffer cleared
clear_buffer_lem c = rw (cleared-keys c (typed_count c)) refl

-- The console with the buffer of the terminal on display emptied and `read_flag` reset.
abbrev pub emptied : Console → Console
emptied c = record c {
  read_flag = 0;
  kb_buffer = λ t j. if (t == current c) && ltb j (typed_count c) then 0 else c.kb_buffer t j;
  count = update c.count (current c) 0;
}

-- Where the buffer of the terminal on display holds a line that ends with a newline at `k`, a
-- read returns `k + 1`, leaves the line and then zeros in the 128 bytes at `buf`, writes nothing
-- else, and sets the typed bytes of that buffer and its length to 0.
pub read_line-with_line :
    (c : Console) (buf k : ℕ) (m : Mem)
    → IsLine (typed c) k
    → k < typed_count c
    → k < 128
    → read_line c (some buf) m ≡ (pos (suc k), emptied c, with_line m buf (typed c) (suc k))
unfolding read_line
read_line-with_line c buf k m l lt le =
    rw
      (copy_line_lem (typed_count c) 0 k (typed c) buf (for_range 128 0 (zero_byte buf) m) l
        (omega arith) (omega (arith, lt)))
      (ap₂ (λ d f. (pos (suc k), d, f)) (clear_buffer_lem (record c { read_flag = 0 }))
        (fun_ext (λ a. ground (arith, zeroed buf m a))))
