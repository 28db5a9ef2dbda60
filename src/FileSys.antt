-- ===== src/FileSys.antt =====
-- student-distrib/file_sys.c: the read-only file system image, its directory, its files, and the
-- descriptors through which files and directories are read.
pub mod Image
pub mod Descriptors
pub mod Lookup
pub mod Names
pub mod Search
pub mod Data
pub mod Files
pub mod Directory
pub mod Sample
mod Examples
