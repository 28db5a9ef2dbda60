-- ===== src/Memory.antt =====
-- The block operations of student-distrib/lib.c: memset, memset_word, memset_dword, memcpy and
-- memmove, written in the source as assembly loops. Memory is a function from addresses to bytes;
-- a block is assumed not to run past the end of the 32-bit address space.
pub mod Fill
pub mod Copy
mod Examples
use linux_like_os.Base.{
  ℕ, zero, suc, ◌+◌, ◌*◌, ◌/◌, ◌%◌, ◌^◌, ltb, leb, ◌==◌, if◌then◌else◌, update, Bool, ◌&&◌,
}

abbrev pub Mem : Type 0
Mem = ℕ → ℕ

-- Whether address `a` lies in the `n` bytes from `s`.
abbrev pub within : ℕ → ℕ → ℕ → Bool
within s n a = leb s a && ltb a (s + n)

-- `movl v, (a)`: four bytes, the lowest first.
abbrev pub store_dword : Mem → ℕ → ℕ → Mem
store_dword m a v =
    update
      (update (update (update m a (v % 256)) (a + 1) (v / 2 ^ 8 % 256)) (a + 2) (v / 2 ^ 16 % 256))
      (a + 3) (v / 2 ^ 24 % 256)

abbrev pub store_word : Mem → ℕ → ℕ → Mem
store_word m a v = update (update m a (v % 256)) (a + 1) (v / 2 ^ 8 % 256)

abbrev pub load_dword : Mem → ℕ → ℕ
load_dword m a = m a + 2 ^ 8 * m (a + 1) + 2 ^ 16 * m (a + 2) + 2 ^ 24 * m (a + 3)

-- `.memset_bottom`: `edx` single bytes.
unfoldable pub memset_bottom : ℕ → ℕ → ℕ → Mem → Mem
memset_bottom al zero edi m = m
memset_bottom al (suc edx) edi m = memset_bottom al edx (edi + 1) (update m edi al)

-- `rep stosl`: `ecx` double words.
unfoldable pub rep_stosl : ℕ → ℕ → ℕ → Mem → Mem
rep_stosl eax zero edi m = m
rep_stosl eax (suc ecx) edi m = rep_stosl eax ecx (edi + 4) (store_dword m edi eax)

-- `.memset_aligned`: whole double words, then what is left.
unfoldable pub memset_aligned : ℕ → ℕ → ℕ → Mem → Mem
unfolding memset_bottom rep_stosl
memset_aligned c n edi m =
    memset_bottom c (n % 4) (edi + 4 * (n / 4))
      (rep_stosl (c * 2 ^ 24 + c * 2 ^ 16 + c * 2 ^ 8 + c) (n / 4) edi m)

-- `.memset_top`: single bytes up to an aligned address.
unfoldable pub memset_top : ℕ → ℕ → ℕ → Mem → Mem
unfolding memset_aligned
memset_top c zero edi m = m
memset_top c (suc n) edi m =
    let rest = memset_top c n (edi + 1) (update m edi c) in
    if edi % 4 == 0 then memset_aligned c (suc n) edi m else rest

-- `c &= 0xFF` keeps the low eight bits.
unfoldable pub memset : Mem → ℕ → ℕ → ℕ → Mem
unfolding memset_top
memset m s c n = memset_top (c % 2 ^ 8) n s m

-- `rep stosw`: `n` words of the low sixteen bits of `c`.
unfoldable pub memset_word : Mem → ℕ → ℕ → ℕ → Mem
memset_word m s c zero = m
memset_word m s c (suc n) = memset_word (store_word m s (c % 2 ^ 16)) (s + 2) c n

-- `rep stosl`: `n` double words.
unfoldable pub memset_dword : Mem → ℕ → ℕ → ℕ → Mem
unfolding rep_stosl
memset_dword m s c n = rep_stosl c n s m

-- `.memcpy_bottom`: `edx` single bytes.
unfoldable pub memcpy_bottom : ℕ → ℕ → ℕ → Mem → Mem
memcpy_bottom zero esi edi m = m
memcpy_bottom (suc edx) esi edi m = memcpy_bottom edx (esi + 1) (edi + 1) (update m edi (m esi))

-- `rep movsl`: `ecx` double words.
unfoldable pub rep_movsl : ℕ → ℕ → ℕ → Mem → Mem
rep_movsl zero esi edi m = m
rep_movsl (suc ecx) esi edi m =
    rep_movsl ecx (esi + 4) (edi + 4) (store_dword m edi (load_dword m esi))

unfoldable pub memcpy_aligned : ℕ → ℕ → ℕ → Mem → Mem
unfolding memcpy_bottom rep_movsl
memcpy_aligned n esi edi m =
    memcpy_bottom (n % 4) (esi + 4 * (n / 4)) (edi + 4 * (n / 4)) (rep_movsl (n / 4) esi edi m)

-- `.memcpy_top`: single bytes up to an aligned destination.
unfoldable pub memcpy_top : ℕ → ℕ → ℕ → Mem → Mem
unfolding memcpy_aligned
memcpy_top zero esi edi m = m
memcpy_top (suc n) esi edi m =
    let rest = memcpy_top n (esi + 1) (edi + 1) (update m edi (m esi)) in
    if edi % 4 == 0 then memcpy_aligned (suc n) esi edi m else rest

unfoldable pub memcpy : Mem → ℕ → ℕ → ℕ → Mem
unfolding memcpy_top
memcpy m dest src n = memcpy_top n src dest m

-- `rep movsb` upwards, and downwards after `std`.
unfoldable pub movsb_up : ℕ → ℕ → ℕ → Mem → Mem
movsb_up zero esi edi m = m
movsb_up (suc ecx) esi edi m = movsb_up ecx (esi + 1) (edi + 1) (update m edi (m esi))

unfoldable pub movsb_down : ℕ → ℕ → ℕ → Mem → Mem
movsb_down zero src dest m = m
movsb_down (suc ecx) src dest m = movsb_down ecx src dest (update m (dest + ecx) (m (src + ecx)))

-- `cmp edi, esi; jae` copies upwards where the source is not below the destination.
unfoldable pub memmove : Mem → ℕ → ℕ → ℕ → Mem
unfolding movsb_up movsb_down
memmove m dest src n = if leb dest src then movsb_up n src dest m else movsb_down n src dest m
