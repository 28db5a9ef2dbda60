-- ===== src/FileSys/Sample.antt =====
-- A small disk on which the tests run.
use linux_like_os.Base.{
  ℕ, zero, suc, ◌/◌, ◌%◌, ◌≡◌, ◌<◌, refl, arith, Option, some, [], ◌∷◌, replicate, get_or,
  get_elem?, subst,
}
use linux_like_os.Memory.{Mem}
use linux_like_os.CString.Compare.{IsBytes}
use linux_like_os.FileSys.Image.{Dentry, Inode, Image, Name, block_byte}
use linux_like_os.FileSys.Lookup.{IsEntry}
use linux_like_os.FileSys.Search.{IsDirectory, IsName}
use linux_like_os.FileSys.Data.{HasContents}

abbrev pub ls_entry : Dentry
ls_entry = record {
  filename = b'l' ∷ b's' ∷ replicate 30 0;
  filetype = 2;
  inode_num = 0;
  reserved = replicate 24 0;
}

-- A file of three bytes.
abbrev pub node : Inode
node = record { byte_length = 3; data_block_num = 0 ∷ [] }

abbrev pub disk : Image
disk = record {
  boot_block = record {
    dir_count = 1;
    inode_count = 1;
    data_count = 1;
    direntries = ls_entry ∷ [];
  };
  inodes = node ∷ [];
  dblocks = (65 ∷ 66 ∷ 67 ∷ []) ∷ [];
}

abbrev pub contents : ℕ → ℕ
contents k = get_or (65 ∷ 66 ∷ 67 ∷ []) k 0

abbrev pub zeros : Mem
zeros a = 0

stored_bytes : (k : ℕ) → k < 3 → block_byte disk node (k / 4096) (k % 4096) ≡ some (contents k)
unfolding block_byte
stored_bytes zero lt = refl
stored_bytes (suc zero) lt = refl
stored_bytes (suc (suc zero)) lt = refl
stored_bytes (suc (suc (suc k))) lt = absurd (omega arith)

pub disk-HasContents : HasContents disk node contents
disk-HasContents = record { stored = stored_bytes }

pub zeros-IsBytes : (n : ℕ) → IsBytes (replicate n 0)
zeros-IsBytes zero = tt
zeros-IsBytes (suc n) = (omega arith, zeros-IsBytes n)

pub ls-IsEntry : IsEntry ls_entry
ls-IsEntry = record {
  size = refl;
  bytes = (omega arith, (omega arith, zeros-IsBytes 30));
  small_type = omega arith;
}

pub same_entry : (x y : Dentry) → ◌≡◌ {A = Option Dentry} (some x) (some y) → x ≡ y
same_entry x y e = cc

listed : (i : ℕ) (d : Dentry) → get_elem? (ls_entry ∷ []) i ≡ some d → IsEntry d
listed zero d e = subst IsEntry (same_entry ls_entry d e) ls-IsEntry
listed (suc i) d e = absurd (ground (arith, e))

pub disk-IsDirectory : IsDirectory disk
disk-IsDirectory = record { in_table = omega arith; in_inodes = omega arith; entries = listed }

-- The name as the shell hands it over, with its newline.
abbrev pub typed_ls : Name
typed_ls = record { before = 0; bytes = b'l' ∷ b's' ∷ b'\n' ∷ 0 ∷ [] }

pub typed_ls-IsName : IsName typed_ls
typed_ls-IsName = record {
  bytes = (omega arith, (omega arith, (omega arith, (omega arith, tt))));
  ended = refl;
  not_empty = omega arith;
}
