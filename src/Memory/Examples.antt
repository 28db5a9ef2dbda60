-- ===== src/Memory/Examples.antt =====
-- Runs of the block operations.
use linux_like_os.Base.{◌%◌, ◌≡◌, arith, inr, if◌then◌else◌}
use linux_like_os.Memory.{Mem, within, memset, memcpy, memmove}
use linux_like_os.Memory.Fill.{memset-fill}
use linux_like_os.Memory.Copy.{memcpy-copied, memmove-copied, copied}

abbrev counting : Mem
counting a = a % 256

memset-fill_example : memset counting 5 300 7 9 ≡ (if within 5 7 9 then 300 % 256 else counting 9)
memset-fill_example = memset-fill counting 5 300 7 9

memcpy-copied_example : memcpy counting 101 10 6 103 ≡ copied counting 101 10 6 103
memcpy-copied_example = memcpy-copied counting 101 10 6 103 (λ x. omega arith) (inr (omega arith))

memmove-copied_example : memmove counting 12 10 6 14 ≡ copied counting 12 10 6 14
memmove-copied_example = memmove-copied counting 12 10 6 14
