-- ===== src/Memory/Copy.antt =====
-- memcpy and memmove against the copy of a block.
use linux_like_os.Base.{
  ℕ, zero, suc, ◌+◌, ◌-◌, ◌*◌, ◌/◌, ◌%◌, ◌≤◌, ◌<◌, ◌≡◌, ◌⊎◌, ◌∙◌, if◌then◌else◌, update, arith,
}
use linux_like_os.Memory.{
  Mem, within, store_dword, load_dword, memcpy_bottom, rep_movsl, memcpy_aligned, memcpy_top,
  memcpy, movsb_up, movsb_down, memmove,
}

-- The block at `dest` holds what the block at `src` held.
abbrev pub copied : Mem → ℕ → ℕ → ℕ → Mem
copied m dest src n a = if within dest n a then m (src + (a - dest)) else m a

-- Copying upwards is safe: the blocks do not overlap, or the destination is below.
abbrev pub Upwards : ℕ → ℕ → ℕ → Type 0
Upwards dest src n = (dest ≤ src) ⊎ (src + n ≤ dest)

abbrev IsBytes : Mem → Type 0
IsBytes m = (a : ℕ) → m a < 256

bottom-copied :
    (n esi edi : ℕ) (m : Mem) (a : ℕ)
    → Upwards edi esi n
    → memcpy_bottom n esi edi m a ≡ copied m edi esi n a
unfolding memcpy_bottom
bottom-copied zero esi edi m a h = ground arith
bottom-copied (suc n) esi edi m a h =
    ground (arith, bottom-copied n (esi + 1) (edi + 1) (update m edi (m esi)) a)

dword-copied :
    (m : Mem) (edi esi a : ℕ)
    → IsBytes m
    → store_dword m edi (load_dword m esi) a ≡ copied m edi esi 4 a
dword-copied m edi esi a b = ground (arith, b esi, b (esi + 1), b (esi + 2), b (esi + 3))

movsl-copied :
    (n esi edi : ℕ) (m : Mem) (a : ℕ)
    → IsBytes m
    → Upwards edi esi (4 * n)
    → rep_movsl n esi edi m a ≡ copied m edi esi (4 * n) a
unfolding rep_movsl
movsl-copied zero esi edi m a b h = ground arith
movsl-copied (suc n) esi edi m a b h =
    movsl-copied n (esi + 4) (edi + 4) _ a
      (λ x. ground (arith, b x, dword-copied m edi esi x b, b (esi + (x - edi)))) (omega arith)
    ∙ ground
        (arith, dword-copied m edi esi a b, dword-copied m edi esi (esi + 4 + (a - (edi + 4))) b)

aligned-copied :
    (n esi edi : ℕ) (m : Mem) (a : ℕ)
    → IsBytes m
    → Upwards edi esi n
    → memcpy_aligned n esi edi m a ≡ copied m edi esi n a
unfolding memcpy_aligned
aligned-copied n esi edi m a b h =
    bottom-copied (n % 4) (esi + 4 * (n / 4)) (edi + 4 * (n / 4)) _ a (omega arith)
    ∙ ground (
      arith,
      movsl-copied (n / 4) esi edi m a b,
      movsl-copied (n / 4) esi edi m (esi + 4 * (n / 4) + (a - (edi + 4 * (n / 4)))) b,
    )

top-copied :
    (n esi edi : ℕ) (m : Mem) (a : ℕ)
    → IsBytes m
    → Upwards edi esi n
    → memcpy_top n esi edi m a ≡ copied m edi esi n a
unfolding memcpy_top
top-copied zero esi edi m a b h = ground arith
top-copied (suc n) esi edi m a b h = ground (
  arith,
  aligned-copied (suc n) esi edi m a b h,
  top-copied n (esi + 1) (edi + 1) (update m edi (m esi)) a (λ x. ground (arith, b x, b esi)),
)

-- Where the source does not overlap the destination from below, `memcpy(dest, src, n)` leaves at
-- `dest` the `n` bytes that were at `src`, for every alignment, and changes no other byte.
pub memcpy-copied :
    (m : Mem) (dest src n a : ℕ)
    → ((x : ℕ) → m x < 256)
    → (dest ≤ src) ⊎ (src + n ≤ dest)
    → memcpy m dest src n a ≡ copied m dest src n a
unfolding memcpy
memcpy-copied m dest src n a b h = top-copied n src dest m a b h

up-copied :
    (n esi edi : ℕ) (m : Mem) (a : ℕ) → edi ≤ esi → movsb_up n esi edi m a ≡ copied m edi esi n a
unfolding movsb_up
up-copied zero esi edi m a h = ground arith
up-copied (suc n) esi edi m a h =
    ground (arith, up-copied n (esi + 1) (edi + 1) (update m edi (m esi)) a)

down-copied :
    (n src dest : ℕ) (m : Mem) (a : ℕ)
    → src < dest
    → movsb_down n src dest m a ≡ copied m dest src n a
unfolding movsb_down
down-copied zero src dest m a h = ground arith
down-copied (suc n) src dest m a h =
    ground (arith, down-copied n src dest (update m (dest + n) (m (src + n))) a)

-- `memmove(dest, src, n)` leaves at `dest` the `n` bytes that were at `src` before the call,
-- however the two blocks overlap, and changes no other byte.
pub memmove-copied : (m : Mem) (dest src n a : ℕ) → memmove m dest src n a ≡ copied m dest src n a
unfolding memmove
memmove-copied m dest src n a = ground (arith, up-copied n src dest m a, down-copied n src dest m a)
