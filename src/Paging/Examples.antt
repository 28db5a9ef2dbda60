-- ===== src/Paging/Examples.antt =====
-- Runs of the address translation.
use linux_like_os.Base.{◌≡◌, ◌≢◌, arith, some}
use linux_like_os.Paging.{PageTableEntry, Paging, page_init, map_user}
use linux_like_os.Paging.Translate.{physical, page_init-kernel_map, map_user_disjoint}

abbrev empty : Paging
empty = record {
  page_directory = λ i. record {
    present = 0;
    rw_flag = 0;
    us = 0;
    pwt = 0;
    pcd = 0;
    acc = 0;
    avl = 0;
    ps = 0;
    g = 0;
    avl_3 = 0;
    addy = 0;
  };
  page_table = λ i. no_page;
  vid_table = λ i. no_page;
  page_table_address = 0x410000;
  vid_table_address = 0x411000;
}
  where
    no_page : PageTableEntry
    no_page = record {
      present = 0;
      rw_flag = 0;
      us = 0;
      pwt = 0;
      pcd = 0;
      acc = 0;
      dirty = 0;
      pat = 0;
      g = 0;
      avl_3 = 0;
      addy = 0;
    }

page_init-kernel_map_example : physical (page_init empty) 0xB8123 ≡ some 0xB8123
page_init-kernel_map_example = page_init-kernel_map empty 0xB8123 (omega arith)

map_user_disjoint_example :
    physical (map_user 1 empty) 0x08048000 ≢ physical (map_user 2 empty) 0x08048000
map_user_disjoint_example =
    map_user_disjoint empty 1 2 0x08048000 0x08048000 (omega arith) (omega arith)
      (λ e. omega (arith, e)) (omega arith) (omega arith)
