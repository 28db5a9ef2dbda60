-- ===== src/Memory/Fill.antt =====
-- memset fills exactly its block, whatever the alignment.
use linux_like_os.Base.{
  ℕ, zero, suc, ◌+◌, ◌*◌, ◌/◌, ◌%◌, ◌^◌, ◌<◌, ◌≡◌, ◌∙◌, if◌then◌else◌, update, arith,
}
use linux_like_os.Memory.{
  Mem, within, store_dword, memset_bottom, rep_stosl, memset_aligned, memset_top, memset,
}

abbrev fill : Mem → ℕ → ℕ → ℕ → Mem
fill m s c n a = if within s n a then c else m a

bottom-fill : (c n edi : ℕ) (m : Mem) (a : ℕ) → memset_bottom c n edi m a ≡ fill m edi c n a
unfolding memset_bottom
bottom-fill c zero edi m a = ground arith
bottom-fill c (suc n) edi m a = ground (arith, bottom-fill c n (edi + 1) (update m edi c) a)

splat :
    (c : ℕ)
    → c < 256
    → (m : Mem) (edi a : ℕ)
    → store_dword m edi (c * 2 ^ 24 + c * 2 ^ 16 + c * 2 ^ 8 + c) a ≡ fill m edi c 4 a
splat c h m edi a = ground arith

stosl-fill :
    (c n edi : ℕ) (m : Mem) (a : ℕ)
    → c < 256
    → rep_stosl (c * 2 ^ 24 + c * 2 ^ 16 + c * 2 ^ 8 + c) n edi m a ≡ fill m edi c (4 * n) a
unfolding rep_stosl
stosl-fill c zero edi m a h = ground arith
stosl-fill c (suc n) edi m a h = stosl-fill c n (edi + 4) _ a h ∙ ground (arith, splat c h m edi a)

aligned-fill :
    (c n edi : ℕ) (m : Mem) (a : ℕ) → c < 256 → memset_aligned c n edi m a ≡ fill m edi c n a
unfolding memset_aligned
aligned-fill c n edi m a h =
    bottom-fill c (n % 4) (edi + 4 * (n / 4)) _ a ∙ ground (arith, stosl-fill c (n / 4) edi m a h)

top-fill : (c n edi : ℕ) (m : Mem) (a : ℕ) → c < 256 → memset_top c n edi m a ≡ fill m edi c n a
unfolding memset_top
top-fill c zero edi m a h = ground arith
top-fill c (suc n) edi m a h =
    ground (arith, aligned-fill c (suc n) edi m a h, top-fill c n (edi + 1) (update m edi c) a h)

-- After `memset(s, c, n)` each of the `n` bytes from `s` is the low byte of `c`, and every other
-- byte of memory is as before, for every alignment of `s`.
pub memset-fill :
    (m : Mem) (s c n a : ℕ) → memset m s c n a ≡ (if within s n a then c % 256 else m a)
unfolding memset
memset-fill m s c n a = top-fill (c % 256) n s m a (omega arith)
