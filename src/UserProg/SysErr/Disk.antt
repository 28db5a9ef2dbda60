-- ===== src/UserProg/SysErr/Disk.antt =====
-- The file system on which syscalls/ece391syserr.c runs, and what student-distrib/file_sys.c
-- finds there.
use linux_like_os.Base.{
  ℕ, ◌≡◌, refl, subst, ◌∙◌, arith, ltb, ◌==◌, if◌then◌else◌, Bool-cases, inl, inr, pos, minus_one,
  Option, none, some, List, [], ◌∷◌, length, take,
}
use linux_like_os.CString.{strlen}
use linux_like_os.FileSys.Image.{
  Image, Name, Dentry, read_dentry_by_name, trimmed_length, search_dentry,
}
use linux_like_os.FileSys.Search.{
  IsDirectory, IsName, Answers, find_entry, wanted_name, read_dentry_by_name-Answers, by_name_eq,
  by_name-Answers,
}
use linux_like_os.Process.{Environment}
use linux_like_os.Process.Opening.{named_entry}
use linux_like_os.UserProg.Texts.{this_directory}
use linux_like_os.UserProg.SysErr.Texts

abbrev pub name_of : (before : ℕ) → List ℕ → Name
name_of before s = record { before = before; bytes = s }

abbrev pub entry_for : Image → List ℕ → Option Dentry
entry_for fs name = find_entry name (take fs.dir_count fs.direntries)

-- The directory has an entry "." for itself, and none with the names that err_open tries.
pub record Tested (fs : Image) : Type 0 where
  pub is_directory : IsDirectory fs
  pub entry : Dentry
  pub found : entry_for fs (b'.' ∷ []) ≡ some entry
  pub kind : entry.filetype ≡ 1
  pub no_helloo : entry_for fs (b'h' ∷ b'e' ∷ b'l' ∷ b'l' ∷ b'o' ∷ b'o' ∷ []) ≡ none
  pub no_shel : entry_for fs (b's' ∷ b'h' ∷ b'e' ∷ b'l' ∷ []) ≡ none
  pub no_empty_name : entry_for fs [] ≡ none

-- What the lookups give. `before` is the byte in front of a name.
pub record Looked (env : Environment) (before : ℕ) : Type 0 where
  pub directory : Dentry
  pub found :
      read_dentry_by_name env.fs (some (name_of before this_directory)) env.stale_dentry
      ≡ some (pos 0, directory)
  pub kind : directory.filetype ≡ 1
  pub no_helloo :
      read_dentry_by_name env.fs (some (name_of before Texts.helloo)) env.stale_dentry
      ≡ some (minus_one, env.stale_dentry)
  pub no_shel :
      read_dentry_by_name env.fs (some (name_of before Texts.shel)) env.stale_dentry
      ≡ some (minus_one, env.stale_dentry)
  pub no_empty_name :
      read_dentry_by_name env.fs (some (name_of before Texts.empty_name)) env.stale_dentry
      ≡ some (minus_one, env.stale_dentry)

missing_entry :
    (fs : Image) (fname : Name) (out : Dentry)
    → IsDirectory fs
    → IsName fname
    → entry_for fs (wanted_name fname) ≡ none
    → read_dentry_by_name fs (some fname) out ≡ some (minus_one, out)
missing_entry fs fname out dir w e =
    subst (λ o. Answers out o (read_dentry_by_name fs (some fname) out)) lost
      (read_dentry_by_name-Answers fs fname out dir w)
  where
    lost :
        (if ltb 32 (length (wanted_name fname)) then none else entry_for fs (wanted_name fname))
        ≡ none
    lost = rw (e) (elim (Bool-cases (ltb 32 (length (wanted_name fname)))) [
      | inl b ↦ rw (b) refl
      | inr b ↦ rw (b) refl
    ])

-- The name without a byte, for which the byte in front of it counts.
missing_empty :
    (fs : Image) (before : ℕ) (out : Dentry)
    → IsDirectory fs
    → entry_for fs [] ≡ none
    → read_dentry_by_name fs (some (name_of before Texts.empty_name)) out ≡ some (minus_one, out)
unfolding trimmed_length strlen
missing_empty fs before out dir e =
    by_name_eq fs (name_of before Texts.empty_name) out 0 refl
    ∙ elim (Bool-cases (before == b'\n')) [ inl b ↦ rw (b) refl | inr b ↦ rw (b) searched ]
  where
    searched :
        (if ltb 32 0
          then some (minus_one, out)
          else search_dentry fs Texts.empty_name 0 fs.dir_count 0 out)
        ≡ some (minus_one, out)
    searched =
        subst
          (λ o. Answers out o (
            if ltb 32 0
            then some (minus_one, out)
            else search_dentry fs Texts.empty_name 0 fs.dir_count 0 out))
          e
          (by_name-Answers fs (name_of before Texts.empty_name) 0 out dir
            (record { bytes = (omega arith, tt); whole = refl; inside = refl }))

pub Tested-Looked : (env : Environment) (before : ℕ) → Tested env.fs → Looked env before
Tested-Looked env before t =
    let (d, found, same) =
      named_entry env.fs (name_of before this_directory) env.stale_dentry t.entry t.is_directory
        (record { bytes = (omega arith, (omega arith, tt)); ended = refl; not_empty = omega arith })
        (omega arith) t.found in
    record {
      directory = d;
      found = found;
      kind = same.filetype ∙ t.kind;
      no_helloo =
          missing_entry env.fs (name_of before Texts.helloo) env.stale_dentry t.is_directory
            (record {
              bytes = (
                omega arith,
                (
                  omega arith,
                  (omega arith, (omega arith, (omega arith, (omega arith, (omega arith, tt))))),
                ),
              );
              ended = refl;
              not_empty = omega arith;
            })
            t.no_helloo;
      no_shel =
          missing_entry env.fs (name_of before Texts.shel) env.stale_dentry t.is_directory
            (record {
              bytes = (omega arith, (omega arith, (omega arith, (omega arith, (omega arith, tt)))));
              ended = refl;
              not_empty = omega arith;
            })
            t.no_shel;
      no_empty_name = missing_empty env.fs before env.stale_dentry t.is_directory t.no_empty_name;
    }
