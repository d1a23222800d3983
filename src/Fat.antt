-- ===== src/Fat.antt =====
-- The FAT32 driver, ntoskrnl/drv/filesystem/fat32/fat32.c, over the sector transfers of
-- ntoskrnl/drv/filesystem/ata.c. Buffers are memory seen from their pointer, and the in-memory
-- table `fs->FAT` is memory of UINT entries; an index past a buffer's end meets whatever lies there.
pub mod Sector
pub mod Volume
pub mod Cluster
pub mod Table
pub mod LongName
pub mod Entry
pub mod File
pub mod Directory
pub mod Tests
