-- ===== src/Scheduler/Display.antt =====
-- What the handler of student-distrib/schedule.c leaves in the page tables: the user page of the
-- chosen process, and the page at which a program that called vidmap draws.
use linux_like_os.Base.{
  ℕ, ◌+◌, ◌*◌, ◌/◌, ◌%◌, ◌^◌, ◌<◌, ◌≡◌, ◌≢◌, refl, arith, ◌==◌, if◌then◌else◌, some, pos, to_u32,
  ltb_ℤ, false, ◌∙◌,
}
use linux_like_os.Paging.{Paging, frame, map_video, map_user, schedule_video}
use linux_like_os.Paging.Translate.{physical, map_user-physical}
use linux_like_os.Terminal.{current}
use linux_like_os.Process.{Kernel, slot}
use linux_like_os.Memory.{Mem}
use linux_like_os.Scheduler.{Scheduler, terminal_at, take_turn, next_turn, swap_stacks}
use linux_like_os.Scheduler.Turns.{left}

-- The tables after a `vidmap`: directory entry 34 names the table of the video page.
pub record VideoMapped (p : Paging) : Type 0 where
  pub present : (p.page_directory 34).present ≡ 1
  pub small : (p.page_directory 34).ps ≡ 0
  pub table : (p.page_directory 34).addy ≡ frame p.vid_table_address
  pub apart : frame p.page_table_address ≢ frame p.vid_table_address

-- A call of `vidmap` leaves the tables in that state.
pub map_video-VideoMapped :
    (p : Paging)
    → frame p.page_table_address ≢ frame p.vid_table_address
    → VideoMapped (map_video p)
unfolding map_video
map_video-VideoMapped p ne = record { present = refl; small = refl; table = refl; apart = ne }

schedule_video-physical :
    (p : Paging) (t current o : ℕ)
    → VideoMapped p
    → t < 3
    → o < 2 ^ 12
    → physical (schedule_video t current p) (0x8800000 + o)
      ≡ some (if t == current then 0xB8000 + o else 0xBA000 + t * 0x1000 + o)
unfolding schedule_video
schedule_video-physical p t current o v lt h = ground (arith, v.present, v.small, v.table, v.apart)

map_user-VideoMapped : (p : Paging) (pid : ℕ) → VideoMapped p → VideoMapped (map_user pid p)
unfolding map_user
map_user-VideoMapped p pid v = record {
  present = v.present;
  small = v.small;
  table = v.table;
  apart = v.apart;
}

schedule_video-user :
    (p : Paging) (t current a : ℕ)
    → a / 2 ^ 22 ≡ 32
    → (p.page_directory 32).ps ≡ 1
    → physical (schedule_video t current p) a ≡ physical p a
unfolding schedule_video
schedule_video-user p t current a h large = ground (arith, large)

map_user-large : (p : Paging) (pid : ℕ) → ((map_user pid p).page_directory 32).ps ≡ 1
unfolding map_user
map_user-large p pid = refl

-- The user page after a turn, and the page at which the program draws.
pub record Shown (t : ℕ) (pid : ℕ) (k : Kernel) (k' : Kernel) : Type 0 where
  pub user :
      (a : ℕ)
      → a / 2 ^ 22 ≡ 32
      → physical k'.paging a ≡ some (0x800000 + pid * 0x400000 + a % 2 ^ 22)
  pub video :
      (o : ℕ)
      → o < 2 ^ 12
      → physical k'.paging (0x8800000 + o)
        ≡ some (if t == current k.console then 0xB8000 + o else 0xBA000 + t * 0x1000 + o)
  pub stays : VideoMapped k'.paging

schedule_video-VideoMapped :
    (p : Paging) (t current : ℕ) → VideoMapped p → VideoMapped (schedule_video t current p)
unfolding schedule_video
schedule_video-VideoMapped p t current v = record {
  present = v.present;
  small = v.small;
  table = v.table;
  apart = v.apart;
}

take_turn-Shown :
    (t pid : ℕ) (k : Kernel)
    → t < 3
    → pid < 6
    → to_u32 (k.pcbs (slot (terminal_at k t).terminal_current_pid)).pid ≡ pid
    → VideoMapped k.paging
    → Shown t pid k (take_turn t k)
unfolding take_turn
take_turn-Shown t pid k lt le same v = rw (same) (record {
  user = λ a h.
      schedule_video-user (map_user pid k.paging) t (current k.console) a h
        (map_user-large k.paging pid)
      ∙ map_user-physical k.paging pid a le
      ∙ chosen a h;
  video = λ o h.
      schedule_video-physical (map_user pid k.paging) t (current k.console) o
        (map_user-VideoMapped k.paging pid v) lt h;
  stays =
      schedule_video-VideoMapped (map_user pid k.paging) t (current k.console)
        (map_user-VideoMapped k.paging pid v);
})
  where
    chosen :
        (a : ℕ)
        → a / 2 ^ 22 ≡ 32
        → (if a / 2 ^ 22 == 32
            then some (0x800000 + pid * 0x400000 + a % 2 ^ 22)
            else physical k.paging a)
          ≡ some (0x800000 + pid * 0x400000 + a % 2 ^ 22)
    chosen a h = ground (arith, h)

-- Where the terminal whose turn it is runs a process that is not one of the first three, the
-- handler maps the user page to the four megabytes of that process. The page at which a program
-- draws after `vidmap` is the screen if the terminal is on display, and else the terminal's own
-- page; it stays mapped.
pub next_turn-Shown :
    (esp ebp pid : ℕ) (s : Scheduler) (m : Mem)
    → let t = (s.temp_terminal + 1) % 3 in
      let running = (terminal_at s.kernel t).terminal_current_pid in
      ltb_ℤ running (pos 3) ≡ false
      → pid < 6
      → to_u32 (s.kernel.pcbs (slot running)).pid ≡ pid
      → VideoMapped s.kernel.paging
      → Shown t pid s.kernel (left (next_turn esp ebp s m)).kernel
unfolding next_turn left swap_stacks
next_turn-Shown esp ebp pid s m h le same v =
    rw (h, next_turn) (record { user = shown.user; video = shown.video; stays = shown.stays })
  where
    shown :
        Shown
          ((s.temp_terminal + 1) % 3)
          pid
          s.kernel
          (take_turn ((s.temp_terminal + 1) % 3) s.kernel)
    shown = take_turn-Shown ((s.temp_terminal + 1) % 3) pid s.kernel (omega arith) le same v
