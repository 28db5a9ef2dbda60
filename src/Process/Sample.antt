-- ===== src/Process/Sample.antt =====
-- A small system on which the tests run.
use linux_like_os.Base.{[], ◌∷◌, true, pos, minus_one}
use linux_like_os.Memory.{Mem}
use linux_like_os.FileSys.Image.{Dentry}
use linux_like_os.Terminal.{Console}
use linux_like_os.Paging.{Paging, PageTableEntry}
use linux_like_os.Process.{Kernel, Environment, Pcb}

abbrev pub entry : Dentry
entry = record { filename = b's' ∷ []; filetype = 2; inode_num = 0; reserved = [] }

-- A file system whose one program has no bytes.
abbrev pub disk : Environment
disk = record {
  fs = record {
    boot_block = record { dir_count = 1; inode_count = 1; data_count = 0; direntries = entry ∷ [] };
    inodes = record { byte_length = 0; data_block_num = [] } ∷ [];
    dblocks = [];
  };
  dev = λ io port. 0;
  stale_dentry = entry;
  stale_fd = pos 0;
  ticks = [];
  arrivals = [];
}

abbrev pub no_page : PageTableEntry
no_page = record {
  present = 0;
  rw_flag = 0;
  us = 0;
  pwt = 0;
  pcd = 0;
  acc = 0;
  dirty = 0;
  pat = 0;
  g = 0;
  avl_3 = 0;
  addy = 0;
}

abbrev pub no_pages : Paging
no_pages = record {
  page_directory = λ i. record {
    present = 0;
    rw_flag = 0;
    us = 0;
    pwt = 0;
    pcd = 0;
    acc = 0;
    avl = 0;
    ps = 0;
    g = 0;
    avl_3 = 0;
    addy = 0;
  };
  page_table = λ i. no_page;
  vid_table = λ i. no_page;
  page_table_address = 0x410000;
  vid_table_address = 0x411000;
}

abbrev pub desk : Console
desk = record {
  screen = record {
    current_terminal = 0;
    screen_x = λ t. 0;
    screen_y = λ t. 0;
    line_tracker = λ r. 0;
    video_mem = λ a. 0;
    ports = [];
  };
  caps_flag = 0;
  shift_flag = 0;
  ctrl_flag = 0;
  alt_flag = 0;
  kb_buffer = λ t j. 0;
  count = λ t. 0;
  read_flag = 0;
  interrupts = true;
}

abbrev pub no_pcb : Pcb
no_pcb = record {
  pid = minus_one;
  program_esp = 0;
  program_ebp = 0;
  parent_pid = minus_one;
  parent_esp = 0;
  parent_ebp = 0;
  systemcall_fd_array = [];
  esp = 0;
  ss = 0;
  arg_buff = λ a. 0;
}

-- The shell runs as process 0 of the first terminal.
abbrev pub busy : Kernel
busy = record {
  progs = 1 ∷ 0 ∷ 0 ∷ 0 ∷ 0 ∷ 0 ∷ [];
  new_pid = pos 0;
  old_pid = minus_one;
  pcbs = λ i. no_pcb;
  terminal_array = λ t. record {
    terminal_current_pid = pos 0;
    terminal_esp = 0;
    terminal_ebp = 0;
    on_off_flag = 1;
  };
  sched_terminal = 0;
  console = desk;
  paging = no_pages;
  file_descriptor_array = [];
  rtc_interrupt_received = 0;
  tss_ss0 = 24;
  tss_esp0 = 0x7FFFFC;
}

abbrev pub zeros : Mem
zeros a = 0
