-- ===== src/Idt/Examples.antt =====
-- Runs of the table's set-up.
use linux_like_os.Base.{ℕ, ◌+◌, ◌≡◌, ◌≢◌, ◌<◌, ◌≤◌, ◌⊎◌, refl, arith, some, List}
use linux_like_os.Idt.{sys_call}
use linux_like_os.Idt.Texts.{exception_text}
use linux_like_os.Idt.Exceptions.{exception_handler, ignored}
use linux_like_os.Idt.Exceptions.Reports.{Reported, exception_handler-Reported}
use linux_like_os.Process.Sample.{disk, busy, zeros}
use linux_like_os.Idt.{Idt, Handlers, init_idt}
use linux_like_os.Idt.Gates.{offset, init_idt-gate, init_idt-handler}

abbrev linked : Handlers
linked = record {
  exception = λ i. 0x400100 + i;
  systemcall_wrapper = 0x400200;
  kb_wrapper = 0x400300;
  rtc_wrapper = 0x400400;
  pit_wrapper = 0x400500;
}

abbrev empty : Idt
empty i = record {
  offset_15_00 = 0;
  seg_selector = 0;
  reserved4 = 0;
  reserved3 = 0;
  reserved2 = 0;
  reserved1 = 0;
  size = 0;
  reserved0 = 0;
  dpl = 0;
  present = 0;
  offset_31_16 = 0;
}

init_idt-gate_example :
    ((init_idt linked empty 0x80).present ≡ 1)
    × ((init_idt linked empty 0x80).seg_selector ≡ 0x10)
    × ((init_idt linked empty 0x80).dpl ≡ 3)
    × ((init_idt linked empty 0x80).reserved3 ≡ 1)
init_idt-gate_example = init_idt-gate linked empty 0x80 (omega arith)

init_idt-handler_example : offset (init_idt linked empty 0x21) ≡ 0x400300
init_idt-handler_example = init_idt-handler linked empty 0x21 refl (omega arith)

exception_handler-Reported_example :
    ((14 < 20) ⊎ (14 ≡ sys_call)
      → (text : List ℕ) × (exception_text 14 ≡ some text)
        × Reported text disk 100 200 0 zeros busy zeros
            (exception_handler disk 100 200 0 zeros 14 busy zeros))
    × (20 ≤ 14
        → 14 ≢ sys_call
        → exception_handler disk 100 200 0 zeros 14 busy zeros ≡ some ignored)
exception_handler-Reported_example = exception_handler-Reported disk 100 200 0 zeros 14 busy zeros
