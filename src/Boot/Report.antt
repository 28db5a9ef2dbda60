-- ===== src/Boot/Report.antt =====
-- What entry of student-distrib/kernel.c prints of the boot loader's information comes to an end,
-- with the cursor on the screen.
use linux_like_os.Base.{
  ℕ, zero, suc, ◌+◌, ◌-◌, ◌%◌, ◌^◌, ◌<◌, ◌≡◌, refl, ap, ◌∙◌, arith, ltb, if◌then◌else◌, if_both,
  Bool, Bool-cases, inl, inr, some, List, [], ◌∷◌, to_u32,
}
use linux_like_os.Memory.{Mem}
use linux_like_os.CString.{signed8}
use linux_like_os.Screen.{Screen}
use linux_like_os.Screen.Invariant.{OnScreen}
use linux_like_os.Screen.Printf.{
  Arg, word, str, printf, printf_loop, step, convert, take_word, take_text,
}
use linux_like_os.Screen.Printf.Laws.{printf-OnScreen}
use linux_like_os.Boot.{
  ElfSec, BootModule, MemoryMap, MultibootInfo, check_flag, nth_module, Print, ◌>>◌, print, nothing,
  print_byte, print_bytes, print_module, print_modules, print_map, print_maps, print_elf,
  print_head, print_tail,
}
use linux_like_os.Boot.Texts.{
  invalid_magic, flags_text, mem_text, boot_device_text, cmdline_text, module_loaded, module_ends,
  first_bytes, byte_text, newline, both_bits, elf_text, mmap_text, mmap_entry,
}

-- The piece goes through and keeps the cursor on the screen.
pub record Goes (p : Print) : Type 0 where
  pub goes : (s : Screen) → OnScreen s → (s' : Screen) × (p s ≡ some s') × OnScreen s'

pub Goes-then : (p q : Print) → Goes p → Goes q → Goes (p >> q)
Goes-then p q gp gq = record {
  goes = λ s v.
      let (s1, e1, v1) = gp.goes s v in
      let (s2, e2, v2) = gq.goes s1 v1 in (s2, ap (linux_like_os.Boot.go_on q) e1 ∙ e2, v2);
}

Goes-nothing : Goes nothing
Goes-nothing = record { goes = λ s v. (s, refl, v) }

print-Goes :
    (format : List ℕ) (args : List Arg)
    → ((s : Screen) → (n : ℕ) × (s' : Screen) × (printf format args s ≡ some (n, s')))
    → Goes (print format args)
print-Goes format args h = record {
  goes = λ s v.
      let (n, s', e) = h s in
      (s', ap linux_like_os.Boot.printed e, printf-OnScreen format args s v e);
}

flags-Goes : (w : ℕ) → Goes (print flags_text (word w ∷ []))
unfolding printf printf_loop step convert take_word take_text
flags-Goes w = print-Goes flags_text (word w ∷ []) (λ s. (_, _, refl))

module_loaded-Goes : (n w : ℕ) → Goes (print module_loaded (word n ∷ word w ∷ []))
unfolding printf printf_loop step convert take_word take_text
module_loaded-Goes n w = print-Goes module_loaded (word n ∷ word w ∷ []) (λ s. (_, _, refl))

module_ends-Goes : (n w : ℕ) → Goes (print module_ends (word n ∷ word w ∷ []))
unfolding printf printf_loop step convert take_word take_text
module_ends-Goes n w = print-Goes module_ends (word n ∷ word w ∷ []) (λ s. (_, _, refl))

plain-Goes : Goes (print first_bytes []) × Goes (print newline []) × Goes (print both_bits [])
unfolding printf printf_loop step convert take_word take_text
plain-Goes = (
  print-Goes first_bytes [] (λ s. (_, _, refl)),
  print-Goes newline [] (λ s. (_, _, refl)),
  print-Goes both_bits [] (λ s. (_, _, refl)),
)

pub both_bits-Goes : Goes (print both_bits [])
both_bits-Goes = plain-Goes.2

pub invalid_magic-Goes : (w : ℕ) → Goes (print invalid_magic (word w ∷ []))
unfolding printf printf_loop step convert take_word take_text
invalid_magic-Goes w = print-Goes invalid_magic (word w ∷ []) (λ s. (_, _, refl))

info-Goes :
    (mbi : MultibootInfo)
    → Goes (print mem_text (word mbi.mem_lower ∷ word mbi.mem_upper ∷ []))
      × Goes (print boot_device_text (word mbi.boot_device ∷ []))
      × Goes (print cmdline_text (str mbi.cmdline ∷ []))
      × Goes (print mmap_text (word mbi.mmap_addr ∷ word mbi.mmap_length ∷ []))
unfolding printf printf_loop step convert take_word take_text
info-Goes mbi = (
  print-Goes mem_text (word mbi.mem_lower ∷ word mbi.mem_upper ∷ []) (λ s. (_, _, refl)),
  print-Goes boot_device_text (word mbi.boot_device ∷ []) (λ s. (_, _, refl)),
  print-Goes cmdline_text (str mbi.cmdline ∷ []) (λ s. (_, _, refl)),
  print-Goes mmap_text (word mbi.mmap_addr ∷ word mbi.mmap_length ∷ []) (λ s. (_, _, refl)),
)

print_byte-Goes : (m : Mem) (a : ℕ) → Goes (print_byte m a)
unfolding print_byte printf printf_loop step convert take_word take_text
print_byte-Goes m a = print-Goes byte_text (word (to_u32 (signed8 (m a))) ∷ []) (λ s. (_, _, refl))

print_bytes-Goes : (m : Mem) (rounds a : ℕ) → Goes (print_bytes m rounds a)
unfolding print_bytes
print_bytes-Goes m zero a = Goes-nothing
print_bytes-Goes m (suc rounds) a =
    Goes-then (print_byte m a) (print_bytes m rounds (a + 1)) (print_byte-Goes m a)
      (print_bytes-Goes m rounds (a + 1))

print_module-Goes : (m : Mem) (n : ℕ) (b : BootModule) → Goes (print_module m n b)
unfolding print_module
print_module-Goes m n b = Goes-then _ _ (module_loaded-Goes n b.mod_start) (
    Goes-then _ _ (module_ends-Goes n b.mod_end) (
      Goes-then _ _ (plain-Goes.0)
        (Goes-then _ _ (print_bytes-Goes m 16 b.mod_start) (plain-Goes.1))))

print_modules-Goes :
    (m : Mem) (mbi : MultibootInfo) (rounds n : ℕ) → Goes (print_modules m mbi rounds n)
unfolding print_modules
print_modules-Goes m mbi zero n = Goes-nothing
print_modules-Goes m mbi (suc rounds) n =
    Goes-then _ _ (print_module-Goes m n (nth_module mbi n))
      (print_modules-Goes m mbi rounds (n + 1))

print_map-Goes : (map : MemoryMap) → Goes (print_map map)
unfolding print_map printf printf_loop step convert take_word take_text
print_map-Goes map =
    print-Goes mmap_entry
      (word map.size
        ∷ word map.base_addr_high
        ∷ word map.base_addr_low
        ∷ word map.type
        ∷ word map.length_high
        ∷ word map.length_low
        ∷ [])
      (λ s. (_, _, refl))

print_elf-Goes : (elf_sec : ElfSec) → Goes (print_elf elf_sec)
unfolding print_elf printf printf_loop step convert take_word take_text
print_elf-Goes elf_sec =
    print-Goes elf_text
      (word elf_sec.num ∷ word elf_sec.size ∷ word elf_sec.addr ∷ word elf_sec.shndx ∷ [])
      (λ s. (_, _, refl))

-- The memory map does not run past the end of the address space, and no entry's size leads there.
pub record MapFits (mbi : MultibootInfo) : Type 0 where
  pub whole : mbi.mmap_addr + mbi.mmap_length < 2 ^ 32
  pub steps : (a : ℕ) → a < mbi.mmap_addr + mbi.mmap_length → a + (mbi.mmap_at a).size + 4 < 2 ^ 32

print_maps-Goes :
    (mbi : MultibootInfo) (fuel mmap : ℕ)
    → MapFits mbi
    → mbi.mmap_addr + mbi.mmap_length - mmap < fuel
    → Goes (print_maps mbi fuel mmap)
unfolding print_maps
print_maps-Goes mbi zero mmap f lt = absurd (omega (arith, lt))
print_maps-Goes mbi (suc fuel) mmap f lt =
    elim (Bool-cases (ltb mmap ((mbi.mmap_addr + mbi.mmap_length) % 2 ^ 32))) [
      | inr over ↦ rw (over) Goes-nothing
      | inl inside ↦
          let small : mmap < mbi.mmap_addr + mbi.mmap_length = ground (arith, inside, f.whole) in
          let step_fits = f.steps mmap small in
          rw (inside) (
            Goes-then _ _ (print_map-Goes (mbi.mmap_at mmap)) (
              print_maps-Goes mbi fuel ((mmap + (mbi.mmap_at mmap).size + 4) % 2 ^ 32) f
                (omega (arith, small, step_fits, lt))))
    ]

when-Goes : (b : Bool) (p : Print) → Goes p → Goes (if b then p else nothing)
when-Goes b p g = if_both Goes b g Goes-nothing

pub print_head-Goes : (m : Mem) (mbi : MultibootInfo) → Goes (print_head m mbi)
unfolding print_head
print_head-Goes m mbi =
    let info = info-Goes mbi in
    Goes-then _ _ (flags-Goes mbi.flags) (
      Goes-then _ _ (when-Goes (check_flag mbi.flags 0) _ info.0) (
        Goes-then _ _ (when-Goes (check_flag mbi.flags 1) _ info.1) (
          Goes-then _ _ (when-Goes (check_flag mbi.flags 2) _ info.2)
            (when-Goes (check_flag mbi.flags 3) _ (print_modules-Goes m mbi mbi.mods_count 0)))))

pub print_tail-Goes : (mbi : MultibootInfo) → MapFits mbi → Goes (print_tail mbi)
unfolding print_tail
print_tail-Goes mbi f =
    let info = info-Goes mbi in
    Goes-then _ _ (when-Goes (check_flag mbi.flags 5) _ (print_elf-Goes mbi.elf_sec)) (
      when-Goes (check_flag mbi.flags 6) _ (
        Goes-then _ _ info.3
          (print_maps-Goes mbi (mbi.mmap_length + 1) mbi.mmap_addr f (omega arith))))
