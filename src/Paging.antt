-- ===== src/Paging.antt =====
-- student-distrib/paging.c: the page directory and the page table, and the mappings that the system
-- calls and the scheduler install in them.
pub mod Translate
mod Examples
use linux_like_os.Base.{
  ℕ, ◌+◌, ◌-◌, ◌*◌, ◌/◌, ◌%◌, ◌^◌, ltb, ◌==◌, if◌then◌else◌, update, for_range,
}

abbrev pub entries : ℕ
entries = 1024

abbrev pub video_start : ℕ
video_start = 0xB8000

abbrev pub video_pages : ℕ
video_pages = 0xBA000

abbrev pub terminal_pages : ℕ
terminal_pages = 3

abbrev pub kernel_start : ℕ
kernel_start = 0x400000

abbrev pub four_mb : ℕ
four_mb = 0x400000

abbrev pub eight_mb : ℕ
eight_mb = 0x800000

abbrev pub usr_idx : ℕ
usr_idx = 32

abbrev pub vid_idx : ℕ
vid_idx = 34

-- `page_directory_entry_t`: `ps` is set for a page of four megabytes; `addy` has twenty bits.
pub record PageDirectoryEntry : Type 0 where
  pub present : ℕ
  pub rw_flag : ℕ
  pub us : ℕ
  pub pwt : ℕ
  pub pcd : ℕ
  pub acc : ℕ
  pub avl : ℕ
  pub ps : ℕ
  pub g : ℕ
  pub avl_3 : ℕ
  pub addy : ℕ

pub record PageTableEntry : Type 0 where
  pub present : ℕ
  pub rw_flag : ℕ
  pub us : ℕ
  pub pwt : ℕ
  pub pcd : ℕ
  pub acc : ℕ
  pub dirty : ℕ
  pub pat : ℕ
  pub g : ℕ
  pub avl_3 : ℕ
  pub addy : ℕ

-- The three arrays, and the addresses of the two page tables.
pub record Paging : Type 0 where
  pub page_directory : ℕ → PageDirectoryEntry
  pub page_table : ℕ → PageTableEntry
  pub vid_table : ℕ → PageTableEntry
  pub page_table_address : ℕ
  pub vid_table_address : ℕ

-- `>> SHIFT_12`, stored in the twenty bits of `addy`.
abbrev pub frame : ℕ → ℕ
frame address = address / 2 ^ 12 % 2 ^ 20

-- The assignments to `page_directory[i]` in the first loop of `page_init`.
unfoldable pub init_directory_entry :
    (page_table_address i : ℕ) → PageDirectoryEntry → PageDirectoryEntry
init_directory_entry page_table_address i old = record {
  present = if i == 0 then 1 else if i == 1 then 1 else 0;
  rw_flag = 1;
  us = 0;
  pwt = 0;
  pcd = 0;
  acc = 0;
  avl = 0;
  ps = if i == 0 then 0 else 1;
  g = 1;
  avl_3 = 0;
  addy =
      if i == 0 then frame page_table_address else if i == 1 then frame kernel_start else old.addy;
}

-- Those to `page_table[i]`.
unfoldable pub init_table_entry : ℕ → PageTableEntry
init_table_entry i = record {
  present = if i * 2 ^ 12 % 2 ^ 32 == video_start then 1 else 0;
  rw_flag = 1;
  us = 0;
  pwt = 0;
  pcd = 0;
  acc = 0;
  dirty = 0;
  pat = 0;
  g = 0;
  avl_3 = 0;
  addy = i;
}

-- Those of the second loop.
unfoldable pub terminal_entry : ℕ → PageTableEntry
terminal_entry i = record {
  present = 1;
  rw_flag = 1;
  us = 1;
  pwt = 0;
  pcd = 0;
  acc = 0;
  dirty = 0;
  pat = 0;
  g = 0;
  avl_3 = 0;
  addy = i;
}

unfoldable pub init_entry : ℕ → Paging → Paging
init_entry i p = record p {
  page_directory =
      update p.page_directory i (init_directory_entry p.page_table_address i (p.page_directory i));
  page_table = update p.page_table i (init_table_entry i);
}

unfoldable pub init_terminal_page : ℕ → Paging → Paging
init_terminal_page i p = record p { page_table = update p.page_table i (terminal_entry i) }

-- Loading the registers (`enabling`) makes the processor use the tables; it is not modelled.
unfoldable pub page_init : Paging → Paging
page_init p =
    for_range terminal_pages (video_pages / 2 ^ 12) init_terminal_page
      (for_range entries 0 init_entry p)

-- What `execute`, `halt` and `pit_irq_handler` assign to `page_directory[USR_IDX]`; `pid` is the
-- process whose four megabytes are mapped.
unfoldable pub map_user : ℕ → Paging → Paging
map_user pid p = record p {
  page_directory = update p.page_directory usr_idx (record (p.page_directory usr_idx) {
    present = 1;
    rw_flag = 1;
    us = 1;
    ps = 1;
    g = 1;
    pwt = 0;
    pcd = 0;
    acc = 0;
    avl = 0;
    avl_3 = 0;
    addy = frame ((eight_mb + pid * four_mb) % 2 ^ 32);
  });
}

-- What `vidmap` assigns to `page_directory[VID_IDX]` and `vid_table[0]`.
unfoldable pub map_video : Paging → Paging
map_video p = record p {
  page_directory = update p.page_directory vid_idx (record (p.page_directory vid_idx) {
    present = 1;
    rw_flag = 1;
    us = 1;
    ps = 0;
    addy = frame p.vid_table_address;
  });
  vid_table =
      update p.vid_table 0
        (record (p.vid_table 0) { present = 1; rw_flag = 1; us = 1; addy = frame video_start });
}

-- What the scheduler assigns to `vid_table[0]`: the screen for the terminal on display, its own
-- page for another.
unfoldable pub schedule_video : (sched_terminal current_terminal : ℕ) → Paging → Paging
schedule_video sched_terminal current_terminal p = record p {
  vid_table = update p.vid_table 0 (record (p.vid_table 0) {
    present = 1;
    rw_flag = 1;
    us = 1;
    addy =
        if sched_terminal == current_terminal
        then frame video_start
        else (frame video_pages + sched_terminal) % 2 ^ 20;
  });
}
