-- ===== src/Fs.antt =====
-- fs.c: the file system on disk. The buffers of the cache hold the blocks; a change is recorded by
-- `log_write`, and the log brings it to the disk.
pub mod Store
pub mod Room
pub mod Bits
pub mod Bitmap
pub mod Freeing
pub mod Inode
pub mod ReadWrite
pub mod Dinode
pub mod Content
pub mod Writing
pub mod Path
pub mod Cache
pub mod Directory
pub mod Ends
pub mod Walks
pub mod Namex
pub mod Lookup
pub mod Entries
mod Tests
