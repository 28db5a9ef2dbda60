-- ===== src/FileSys/Examples.antt =====
-- Runs of the file system.
use linux_like_os.Base.{◌≡◌, refl, arith, some, replicate, false, pos, ℤ, set}
use linux_like_os.Memory.{Mem, memset, within}
use linux_like_os.FileSys.Image.{read_data, read_dentry_by_name}
use linux_like_os.FileSys.Descriptors.{Descriptor, Fds, file_read, put_name}
use linux_like_os.FileSys.Search.{Answers, read_dentry_by_name-Answers}
use linux_like_os.FileSys.Data.{with_file, read_data-with_file}
use linux_like_os.FileSys.Files.{file_read-with_file}
use linux_like_os.FileSys.Directory.{put_name_overruns}
use linux_like_os.FileSys.Sample.{
  ls_entry, disk, contents, zeros, disk-HasContents, ls-IsEntry, disk-IsDirectory, typed_ls,
  typed_ls-IsName,
}

read_data-with_file_example :
    read_data disk 0 1 100 9 zeros ≡ some (2, with_file zeros contents 100 1 2)
read_data-with_file_example =
    read_data-with_file 0 1 100 9 zeros disk-HasContents (omega arith) refl (omega arith)

abbrev opened : Descriptor
opened = record { file_operation_table_ptr = some 2; inode = 0; file_position = 1; flags = 1 }

abbrev fds : Fds
fds = replicate 8 opened

file_read-with_file_example :
    file_read disk fds (pos 2) 100 (pos 9) zeros
    ≡ some (
      pos 2,
      set fds 2 (record opened { file_position = 3 }),
      with_file (memset zeros 100 0 9) contents 100 1 2,
    )
file_read-with_file_example =
    file_read-with_file fds 2 100 9 zeros disk-HasContents (omega arith) (omega arith) refl
      (omega arith) (omega arith) (omega arith)

read_dentry_by_name-Answers_example :
    Answers ls_entry (some ls_entry) (read_dentry_by_name disk (some typed_ls) ls_entry)
read_dentry_by_name-Answers_example =
    read_dentry_by_name-Answers disk typed_ls ls_entry disk-IsDirectory typed_ls-IsName

put_name_overruns_example :
    (r : ℤ) × (m' : Mem) × (put_name ls_entry 100 (pos 1) zeros ≡ some (r, m'))
    × (m' 102 ≡ 0)
    × (within 100 1 102 ≡ false)
put_name_overruns_example =
    put_name_overruns ls_entry 100 1 zeros ls-IsEntry (omega arith) (omega arith)
