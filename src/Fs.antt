-- ===== src/Fs.antt =====
-- fs.c: the walk along path names, the inode cache, the free map, the content of inodes,
-- directories.
pub mod Namex
pub mod Icache
pub mod FreeMap
pub mod Content
pub mod Directory
pub mod Lifetime
