-- ===== src/Files.antt =====
-- src/file_ops.c: file operations on paths that the host names.
pub mod Host
pub mod Allowed
pub mod Paths
pub mod Upload
pub mod Remove
pub mod Place
pub mod Listing
pub mod Read
