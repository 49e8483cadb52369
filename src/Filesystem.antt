-- ===== src/Filesystem.antt =====
-- include/justUtils/system/filesystem.h and src/system/filesystem.c: paths, files and directories.
-- A path is the list of its characters. What an output buffer holds after a failure is left out.
pub mod Path
pub mod Os
pub mod Files
pub mod Folders
