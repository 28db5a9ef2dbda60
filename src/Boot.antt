-- ===== src/Boot.antt =====
-- student-distrib/kernel.c: what entry prints of the boot loader's information, the descriptors it
-- puts in the global descriptor table, and the order in which it sets up the parts of the kernel.
pub mod Texts
pub mod Setup
pub mod Report
pub mod Ready
pub mod Masks
pub mod Segments
pub mod Sample
mod Examples
use linux_like_os.Base.{
  ℕ, zero, suc, ◌+◌, ◌*◌, ◌/◌, ◌%◌, ◌^◌, ltb, ◌==◌, if◌then◌else◌, Bool, Option, none, some, List,
  [], ◌∷◌, to_u32,
}
use linux_like_os.Memory.{Mem}
use linux_like_os.CString.{signed8}
use linux_like_os.Screen.{Screen}
use linux_like_os.Screen.Printf.{Arg, word, str, printf}
use linux_like_os.Boot.Texts.{
  invalid_magic, flags_text, mem_text, boot_device_text, cmdline_text, module_loaded, module_ends,
  first_bytes, byte_text, newline, both_bits, elf_text, mmap_text, mmap_entry,
}

abbrev pub multiboot_bootloader_magic : ℕ
multiboot_bootloader_magic = 0x2BADB002

-- `elf_section_header_table_t`
pub record ElfSec : Type 0 where
  pub num : ℕ
  pub size : ℕ
  pub addr : ℕ
  pub shndx : ℕ

-- `module_t`
pub record BootModule : Type 0 where
  pub mod_start : ℕ
  pub mod_end : ℕ

-- `memory_map_t`
pub record MemoryMap : Type 0 where
  pub size : ℕ
  pub base_addr_low : ℕ
  pub base_addr_high : ℕ
  pub length_low : ℕ
  pub length_high : ℕ
  pub type : ℕ

-- `multiboot_info_t`, with what its pointers lead to: the command line, the modules, and the
-- struct at an address of the memory map.
pub record MultibootInfo : Type 0 where
  pub flags : ℕ
  pub mem_lower : ℕ
  pub mem_upper : ℕ
  pub boot_device : ℕ
  pub cmdline : List ℕ
  pub mods_count : ℕ
  -- The table of modules, and what is at an address as one of its entries.
  pub mods_addr : ℕ
  pub module_at : ℕ → BootModule
  pub elf_sec : ElfSec
  pub mmap_length : ℕ
  pub mmap_addr : ℕ
  pub mmap_at : ℕ → MemoryMap

-- An entry has 16 bytes.
abbrev pub nth_module : MultibootInfo → ℕ → BootModule
nth_module mbi mod_count = mbi.module_at (mbi.mods_addr + 16 * mod_count)

-- `CHECK_FLAG`
abbrev pub check_flag : (flags bit : ℕ) → Bool
check_flag flags bit = flags / 2 ^ bit % 2 == 1

-- To print, or to fail as printf does.
abbrev pub Print : Type 0
Print = Screen → Option Screen

infixl 25 ◌>>◌
abbrev pub go_on : Print → Option Screen → Option Screen
go_on q none = none
go_on q (some s) = q s

abbrev pub ◌>>◌ : Print → Print → Print
(p >> q) s = go_on q (p s)

abbrev pub printed : Option (ℕ × Screen) → Option Screen
printed none = none
printed (some (n, s)) = some s

abbrev pub print : List ℕ → List Arg → Print
print format args s = printed (printf format args s)

abbrev pub nothing : Print
nothing s = some s

-- The `char` is widened with its sign.
unfoldable pub print_byte : Mem → (a : ℕ) → Print
print_byte m a = print byte_text (word (to_u32 (signed8 (m a))) ∷ [])

unfoldable pub print_bytes : Mem → (rounds a : ℕ) → Print
print_bytes m zero a = nothing
print_bytes m (suc rounds) a = do print_byte m a; print_bytes m rounds (a + 1)

unfoldable pub print_module : Mem → (mod_count : ℕ) → BootModule → Print
print_module m mod_count module_info = do
  print module_loaded (word mod_count ∷ word module_info.mod_start ∷ [])
  print module_ends (word mod_count ∷ word module_info.mod_end ∷ [])
  print first_bytes []
  print_bytes m 16 module_info.mod_start
  print newline []

-- The `while` loop, with `rounds` modules left.
unfoldable pub print_modules : Mem → MultibootInfo → (rounds mod_count : ℕ) → Print
print_modules m mbi zero mod_count = nothing
print_modules m mbi (suc rounds) mod_count = do
  print_module m mod_count (nth_module mbi mod_count)
  print_modules m mbi rounds (mod_count + 1)

unfoldable pub print_map : MemoryMap → Print
print_map map = print mmap_entry (
    word map.size
    ∷ word map.base_addr_high
    ∷ word map.base_addr_low
    ∷ word map.type
    ∷ word map.length_high
    ∷ word map.length_low
    ∷ [])

-- The `for` loop over the memory map, with `fuel` rounds left. A step is at least the four bytes of
-- `size`.
unfoldable pub print_maps : MultibootInfo → (fuel mmap : ℕ) → Print
print_maps mbi zero mmap = λ s. none
print_maps mbi (suc fuel) mmap =
    let rest : Print = (do
      print_map (mbi.mmap_at mmap)
      print_maps mbi fuel ((mmap + (mbi.mmap_at mmap).size + 4) % 2 ^ 32)) in
    if ltb mmap ((mbi.mmap_addr + mbi.mmap_length) % 2 ^ 32) then rest else nothing

unfoldable pub print_elf : ElfSec → Print
print_elf elf_sec =
    print elf_text
      (word elf_sec.num ∷ word elf_sec.size ∷ word elf_sec.addr ∷ word elf_sec.shndx ∷ [])

-- Up to the test of bits 4 and 5.
unfoldable pub print_head : Mem → MultibootInfo → Print
print_head m mbi = do
  print flags_text (word mbi.flags ∷ [])
  if check_flag mbi.flags 0
      then print mem_text (word mbi.mem_lower ∷ word mbi.mem_upper ∷ [])
      else nothing
  if check_flag mbi.flags 1 then print boot_device_text (word mbi.boot_device ∷ []) else nothing
  if check_flag mbi.flags 2 then print cmdline_text (str mbi.cmdline ∷ []) else nothing
  if check_flag mbi.flags 3 then print_modules m mbi mbi.mods_count 0 else nothing

-- What follows that test.
unfoldable pub print_tail : MultibootInfo → Print
print_tail mbi = do
  if check_flag mbi.flags 5 then print_elf mbi.elf_sec else nothing
  if check_flag mbi.flags 6
      then (do
        print mmap_text (word mbi.mmap_addr ∷ word mbi.mmap_length ∷ [])
        print_maps mbi (mbi.mmap_length + 1) mbi.mmap_addr)
      else nothing
