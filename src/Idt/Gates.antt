-- ===== src/Idt/Gates.antt =====
-- Who may enter the kernel, and where.
use linux_like_os.Base.{
  ℕ, ◌+◌, ◌*◌, ◌^◌, ◌<◌, ◌≤◌, ◌≡◌, refl, ltb, leb, ◌==◌, if◌then◌else◌, for_range, for_range_inv,
  ◌||◌, arith, true,
}
use linux_like_os.Idt.{
  Idt, IdtDesc, Handlers, init_gate, set_idt_entry, set_exception, clear_entry, init_idt,
}

abbrev pub offset : IdtDesc → ℕ
offset d = d.offset_31_16 * 2 ^ 16 + d.offset_15_00

record Ready (i : ℕ) (idt : Idt) : Type 0 where
  gate :
      (j : ℕ)
      → j < i
      → ((idt j).present ≡ 1)
        × ((idt j).seg_selector ≡ 16)
        × ((idt j).dpl ≡ (if j == 128 then 3 else 0))
        × ((idt j).reserved3 ≡ (if ltb j 32 || (j == 128) then 1 else 0))

ready : (idt : Idt) → Ready 256 (for_range 256 0 init_gate idt)
unfolding init_gate
ready idt =
    for_range_inv Ready init_gate 256
      (λ i t lt r. record { gate = λ j h. ground (arith, r.gate j) }) 256 0 256 idt refl
      (omega arith) (record { gate = λ j h. absurd (omega arith) })

set_idt_entry-Ready : (i h : ℕ) (idt : Idt) → Ready 256 idt → Ready 256 (set_idt_entry i h idt)
unfolding set_idt_entry
set_idt_entry-Ready i h idt r = record { gate = λ j lt. ground (arith, r.gate j lt) }

entries-Ready :
    (h : Handlers) (idt : Idt) → Ready 256 idt → Ready 256 (for_range 20 0 (set_exception h) idt)
unfolding set_exception
entries-Ready h idt r =
    for_range_inv (λ i t. Ready 256 t) (set_exception h) 20
      (λ i t lt. set_idt_entry-Ready i (h.exception i) t) 20 0 20 idt refl (omega arith) r

cleared-Ready : (idt : Idt) → Ready 256 idt → Ready 256 (for_range 12 20 clear_entry idt)
unfolding clear_entry
cleared-Ready idt r =
    for_range_inv (λ i t. Ready 256 t) clear_entry 32 (λ i t lt. set_idt_entry-Ready i 0 t) 12 20 32
      idt refl (omega arith) r

all_set : (h : Handlers) (idt : Idt) → Ready 256 (init_idt h idt)
unfolding init_idt
all_set h idt = set_idt_entry-Ready _ _ _ (
    set_idt_entry-Ready _ _ _ (
      set_idt_entry-Ready _ _ _
        (set_idt_entry-Ready _ _ _ (cleared-Ready _ (entries-Ready h _ (ready idt))))))

-- Every one of the 256 vectors has a present gate into the kernel's code segment; user code may
-- call only vector 0x80, and the gates of the exceptions and of that vector leave interrupts on.
pub init_idt-gate :
    (h : Handlers) (idt : Idt) (j : ℕ)
    → j < 256
    → ((init_idt h idt j).present ≡ 1)
      × ((init_idt h idt j).seg_selector ≡ 0x10)
      × ((init_idt h idt j).dpl ≡ (if j == 0x80 then 3 else 0))
      × ((init_idt h idt j).reserved3 ≡ (if ltb j 32 || (j == 0x80) then 1 else 0))
init_idt-gate h idt j lt = (all_set h idt).gate j lt

-- The function each vector goes to, where it has one.
abbrev pub handler : Handlers → ℕ → ℕ
handler h j =
    if ltb j 20
    then h.exception j
    else if ltb j 32
    then 0
    else if j == 0x20
    then h.pit_wrapper
    else if j == 0x21
    then h.kb_wrapper
    else if j == 0x28
    then h.rtc_wrapper
    else h.systemcall_wrapper

exceptions_lem :
    (h : Handlers) (idt : Idt) (j : ℕ)
    → j < 20
    → h.exception j < 2 ^ 32
    → offset (for_range 20 0 (set_exception h) idt j) ≡ h.exception j
unfolding set_exception set_idt_entry
exceptions_lem h idt j lt small =
    for_range_inv (λ i t. j < i → offset (t j) ≡ h.exception j) (set_exception h) 20
      (λ i t lt' p below. ground (arith, p, small)) 20 0 20 idt refl (omega arith)
      (λ below. absurd (omega arith)) lt

cleared_lem :
    (idt : Idt) (j : ℕ)
    → offset (for_range 12 20 clear_entry idt j)
      ≡ (if leb 20 j then (if ltb j 32 then 0 else offset (idt j)) else offset (idt j))
unfolding clear_entry set_idt_entry
cleared_lem idt j =
    (for_range_inv
      (λ i t.
        (20 ≤ i)
        × (offset (t j)
            ≡ (if leb 20 j then (if ltb j i then 0 else offset (idt j)) else offset (idt j))))
      clear_entry 32 (λ i t lt p. (omega (arith, p.0), ground (arith, p.0, p.1))) 12 20 32 idt refl
      (omega arith) (omega arith, ground arith)).1

-- Each exception, interrupt and system call goes to its own handler: the offset in its gate is
-- the address of that function, for addresses of 32 bits.
pub init_idt-handler :
    (h : Handlers) (idt : Idt) (j : ℕ)
    → (ltb j 34 || (j == 0x28) || (j == 0x80)) ≡ true
    → handler h j < 2 ^ 32
    → offset (init_idt h idt j) ≡ handler h j
unfolding init_idt set_idt_entry
init_idt-handler h idt j used small =
    let base = for_range 20 0 (set_exception h) (for_range 256 0 init_gate idt) in
    ground
      (arith, used, small, cleared_lem base j, exceptions_lem h (for_range 256 0 init_gate idt) j)
