-- ===== src/Paging/Translate.antt =====
-- Which addresses the tables map, and where to.
use linux_like_os.Base.{
  ℕ, ◌+◌, ◌*◌, ◌/◌, ◌%◌, ◌^◌, ◌<◌, ◌≡◌, ◌≢◌, refl, sym, ap, ◌∙◌, ltb, leb, ◌==◌, ◌&&◌,
  if◌then◌else◌, for_range, for_range_inv, Option, none, some, arith,
}
use linux_like_os.Paging.{
  PageDirectoryEntry, PageTableEntry, Paging, frame, init_directory_entry, init_table_entry,
  terminal_entry, init_entry, init_terminal_page, page_init, terminal_pages, map_user,
}

-- Translation as the processor's manual describes it, with four-megabyte pages switched on: the
-- directory entry chosen by the top ten bits maps a large page, or names the page table that holds
-- the frame. `table` is the page table at a frame number.
abbrev pub through_table : (ℕ → PageTableEntry) → ℕ → Option ℕ
through_table table a =
    if (table (a / 2 ^ 12 % 2 ^ 10)).present == 1
    then some ((table (a / 2 ^ 12 % 2 ^ 10)).addy * 2 ^ 12 + a % 2 ^ 12)
    else none

abbrev pub translate : (ℕ → ℕ → PageTableEntry) → (ℕ → PageDirectoryEntry) → ℕ → Option ℕ
translate table directory a =
    if (directory (a / 2 ^ 22)).present == 1
    then (if (directory (a / 2 ^ 22)).ps == 1
        then some ((directory (a / 2 ^ 22)).addy / 2 ^ 10 * 2 ^ 22 + a % 2 ^ 22)
        else through_table (table (directory (a / 2 ^ 22)).addy) a)
    else none

-- The tables of the kernel by the frames at which they stand.
abbrev pub tables : Paging → ℕ → ℕ → PageTableEntry
tables p f = if f == frame p.page_table_address then p.page_table else p.vid_table

abbrev pub physical : Paging → ℕ → Option ℕ
physical p = translate (tables p) p.page_directory

record Filled (addr0 : ℕ) (addr1 : ℕ) (i : ℕ) (p : Paging) : Type 0 where
  same0 : p.page_table_address ≡ addr0
  same1 : p.vid_table_address ≡ addr1
  directory :
      (j : ℕ)
      → j < i
      → ((p.page_directory j).present ≡ (if ltb j 2 then 1 else 0))
        × ((p.page_directory j).ps ≡ (if j == 0 then 0 else 1))
        × (j < 2 → (p.page_directory j).addy ≡ (if j == 0 then frame addr0 else 1024))
  table :
      (j : ℕ)
      → j < i
      → ((p.page_table j).present ≡ (if j == 184 then 1 else 0)) × ((p.page_table j).addy ≡ j)

init_entry-Filled :
    (addr0 addr1 i : ℕ) (p : Paging)
    → i < 1024
    → Filled addr0 addr1 i p
    → Filled addr0 addr1 (i + 1) (init_entry i p)
unfolding init_entry init_directory_entry init_table_entry
init_entry-Filled addr0 addr1 i p h f = record {
  same0 = f.same0;
  same1 = f.same1;
  directory = λ j lt. ground (arith, f.directory j, f.same0);
  table = λ j lt. ground (arith, f.table j);
}

filled :
    (p : Paging)
    → Filled p.page_table_address p.vid_table_address 1024 (for_range 1024 0 init_entry p)
filled p =
    for_range_inv (Filled p.page_table_address p.vid_table_address) init_entry 1024
      (init_entry-Filled p.page_table_address p.vid_table_address) 1024 0 1024 p refl (omega arith)
      (record {
        same0 = refl;
        same1 = refl;
        directory = λ j lt. absurd (omega arith);
        table = λ j lt. absurd (omega arith);
      })

-- The addresses the kernel maps at start: the screen and the three pages behind it, and the four
-- megabytes of the kernel.
abbrev pub kernel_map : ℕ → Option ℕ
kernel_map a =
    if leb 0x400000 a && ltb a 0x800000
    then some a
    else if leb 0xB8000 a && ltb a 0xB9000
    then some a
    else if leb 0xBA000 a && ltb a 0xBD000
    then some a
    else none

pages-three :
    (q : Paging)
    → for_range terminal_pages 186 init_terminal_page q
      ≡ init_terminal_page 188 (init_terminal_page 187 (init_terminal_page 186 q))
unfolding for_range
pages-three q = refl

-- The table `page_init` leaves, behind the loops.
page_init-unrolled :
    (p : Paging)
    → page_init p
      ≡ init_terminal_page 188
          (init_terminal_page 187 (init_terminal_page 186 (for_range 1024 0 init_entry p)))
unfolding page_init
page_init-unrolled p = pages-three (for_range 1024 0 init_entry p)

page_table_after :
    (q : Paging) (j : ℕ)
    → (q.page_table j).present ≡ (if j == 184 then 1 else 0)
    → (q.page_table j).addy ≡ j
    → (((init_terminal_page 188 (init_terminal_page 187 (init_terminal_page 186 q))).page_table
          j).present
        ≡ (if j == 184 then 1 else if leb 186 j && leb j 188 then 1 else 0))
      × (((init_terminal_page 188 (init_terminal_page 187 (init_terminal_page 186 q))).page_table
            j).addy
          ≡ j)
unfolding init_terminal_page terminal_entry
page_table_after q j h k = ground (arith, h, k)

directory_kept :
    (q : Paging)
    → (init_terminal_page 188 (init_terminal_page 187 (init_terminal_page 186 q))).page_directory
      ≡ q.page_directory
unfolding init_terminal_page
directory_kept q = refl

physical-kernel_map :
    (q : Paging) (a : ℕ)
    → a < 2 ^ 32
    → ((q.page_directory (a / 2 ^ 22)).present ≡ (if ltb (a / 2 ^ 22) 2 then 1 else 0))
    → ((q.page_directory (a / 2 ^ 22)).ps ≡ (if a / 2 ^ 22 == 0 then 0 else 1))
    → (a / 2 ^ 22 < 2
        → (q.page_directory (a / 2 ^ 22)).addy
          ≡ (if a / 2 ^ 22 == 0 then frame q.page_table_address else 1024))
    → ((q.page_table (a / 2 ^ 12 % 2 ^ 10)).present ≡ (
        if a / 2 ^ 12 % 2 ^ 10 == 184
        then 1
        else if leb 186 (a / 2 ^ 12 % 2 ^ 10) && leb (a / 2 ^ 12 % 2 ^ 10) 188
        then 1
        else 0))
    → ((q.page_table (a / 2 ^ 12 % 2 ^ 10)).addy ≡ a / 2 ^ 12 % 2 ^ 10)
    → physical q a ≡ kernel_map a
physical-kernel_map q a lt p s d t u = ground (arith, p, s, d, t, u)

-- `page_init` maps the 32-bit addresses as follows and no other, each to itself: the kernel's
-- four megabytes from 4 MB on, the page of the screen, and the three pages from 0xBA000 on that
-- keep the screens of the terminals.
pub page_init-kernel_map :
    (p : Paging) (a : ℕ) → a < 2 ^ 32 → physical (page_init p) a ≡ kernel_map a
unfolding init_terminal_page
page_init-kernel_map p a lt =
    let q = for_range 1024 0 init_entry p in
    let f = filled p in
    let j = a / 2 ^ 12 % 2 ^ 10 in
    let t = page_table_after q j ((f.table j (omega arith)).0) ((f.table j (omega arith)).1) in
    let (present, ps, addy) = f.directory (a / 2 ^ 22) (omega arith) in
    rw (page_init-unrolled p) (
      physical-kernel_map
        (init_terminal_page 188 (init_terminal_page 187 (init_terminal_page 186 q))) a lt present ps
        (λ h. addy h ∙ ap (λ t. if a / 2 ^ 22 == 0 then frame t else 1024) (sym f.same0)) (t.0)
        (t.1))

-- Where `execute`, `halt` and the scheduler have mapped the process `pid`, of six, the four
-- megabytes from 128 MB on map to the four megabytes of that process, which begin at 8 MB + `pid`
-- * 4 MB; every other address maps to where it did.
pub map_user-physical :
    (p : Paging) (pid a : ℕ)
    → pid < 6
    → physical (map_user pid p) a
      ≡ (if a / 2 ^ 22 == 32 then some (0x800000 + pid * 0x400000 + a % 2 ^ 22) else physical p a)
unfolding map_user
map_user-physical p pid a lt = ground arith

-- Two processes never share a byte of their user pages.
pub map_user_disjoint :
    (p : Paging) (i j a b : ℕ)
    → i < 6
    → j < 6
    → i ≢ j
    → a / 2 ^ 22 ≡ 32
    → b / 2 ^ 22 ≡ 32
    → physical (map_user i p) a ≢ physical (map_user j p) b
map_user_disjoint p i j a b hi hj ne ha hb =
    λ e. ground (arith, map_user-physical p i a hi, map_user-physical p j b hj, e)
