-- ===== src/Boot/Segments.antt =====
-- The two descriptors that entry of student-distrib/kernel.c puts in the global table, as the
-- processor reads them.
use linux_like_os.Base.{ℕ, ◌+◌, ◌*◌, ◌^◌, ◌<◌, ◌≡◌, refl, arith}
use linux_like_os.Boot.Setup.{SegDesc, set_params, the_ldt_desc, the_tss_desc}

-- The base is in three fields and the limit in two; `granularity` 0 counts the limit in bytes.
abbrev pub base : SegDesc → ℕ
base d = d.base_31_24 * 2 ^ 24 + d.base_23_16 * 2 ^ 16 + d.base_15_00

abbrev pub limit : SegDesc → ℕ
limit d = d.seg_lim_19_16 * 2 ^ 16 + d.seg_lim_15_00

set_params-segment :
    (addr lim : ℕ) (d : SegDesc)
    → addr < 2 ^ 32
    → lim < 2 ^ 20
    → (base (set_params addr lim d) ≡ addr) × (limit (set_params addr lim d) ≡ lim)
unfolding set_params
set_params-segment addr lim d a l = (omega arith, omega arith)

-- Both descriptors are present and for the kernel alone, and describe the table at its address
-- and of its size: type 2 for the local table, type 9 for an available task state.
pub the_tss_desc-segment :
    (addr lim : ℕ) (d : SegDesc)
    → addr < 2 ^ 32
    → lim < 2 ^ 20
    → let tss = the_tss_desc addr lim d in
      let ldt = the_ldt_desc addr lim d in
      (base tss ≡ addr)
      × (limit tss ≡ lim)
      × (tss.type ≡ 9)
      × (tss.present ≡ 1)
      × (tss.dpl ≡ 0)
      × (base ldt ≡ addr)
      × (limit ldt ≡ lim)
      × (ldt.type ≡ 2)
      × (ldt.present ≡ 1)
      × (ldt.dpl ≡ 0)
unfolding the_tss_desc the_ldt_desc
the_tss_desc-segment addr lim d a l =
    let (b1, l1) = set_params-segment addr lim d a l in
    (omega arith, omega arith, refl, refl, refl, omega arith, omega arith, refl, refl, refl)
