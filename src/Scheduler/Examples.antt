-- ===== src/Scheduler/Examples.antt =====
-- Runs of the timer's handler.
use linux_like_os.Base.{ℕ, ◌<◌, ◌≡◌, ◌⊎◌, refl, arith, some, [], ◌∷◌, pos}
use linux_like_os.Paging.{map_video}
use linux_like_os.Process.{Kernel}
use linux_like_os.Process.Sample.{disk, no_pages, no_pcb, busy, zeros}
use linux_like_os.Scheduler.{Scheduler, Switch, pit_irq_handler, next_turn}
use linux_like_os.Scheduler.Turns.{left, Interrupt, fires, AllOn, Turn, fires-Turn}
use linux_like_os.Scheduler.Registers.{Leaves, pit_irq_handler-Leaves}
use linux_like_os.Scheduler.Display.{map_video-VideoMapped, Shown, next_turn-Shown}

-- The shell of each terminal runs a program.
abbrev programs : Kernel
programs = record busy {
  pcbs = λ i. record no_pcb { pid = pos 3; program_esp = 500; program_ebp = 600 };
  paging = map_video no_pages;
  terminal_array = λ t. record {
    terminal_current_pid = pos 3;
    terminal_esp = 0;
    terminal_ebp = 0;
    on_off_flag = 1;
  };
}

abbrev at_tick : Interrupt
at_tick = record {
  esp = 100;
  ebp = 200;
  before = 0;
  stack = zeros;
  memory = zeros;
  kernel = programs;
}

all_on : AllOn programs
all_on t lt e = omega (arith, e)

fires-Turn_example :
    (a b c : Scheduler) × (fires disk 0 (at_tick ∷ at_tick ∷ at_tick ∷ []) ≡ some (a ∷ b ∷ c ∷ []))
    × ((u : ℕ) → u < 3 → Turn u at_tick a ⊎ Turn u at_tick b ⊎ Turn u at_tick c)
fires-Turn_example = fires-Turn disk 0 at_tick at_tick at_tick (omega arith) all_on all_on all_on

next_turn-Shown_example :
    Shown 1 3 programs
      (left (next_turn 100 200 (record { kernel = programs; temp_terminal = 0 }) zeros)).kernel
next_turn-Shown_example =
    next_turn-Shown 100 200 3 (record { kernel = programs; temp_terminal = 0 }) zeros refl
      (omega arith) refl (map_video-VideoMapped no_pages (λ e. omega (arith, e)))

abbrev before_turn : Scheduler
before_turn = record { kernel = programs; temp_terminal = 0 }

pit_irq_handler-Leaves_example :
    (r : Switch) × (pit_irq_handler disk 100 200 0 zeros before_turn zeros ≡ some r)
    × Leaves 100 200 r
pit_irq_handler-Leaves_example =
    pit_irq_handler-Leaves disk 100 200 0 zeros before_turn zeros (all_on 0 (omega arith))
