-- ===== src/Lib.antt =====
-- A model of the parts of the SectorOS-RE2 kernel that keep its memory, its processes, its block
-- devices and file systems, and its network protocols. The paths below are paths of the
-- repository.
--
-- Base has the names that all parts share: tests on numbers, 32-bit arithmetic with its wrap-
-- around, the laws of the bit operations, and an address space as a function from addresses to
-- what they hold. Bytes is memcmp, memcpy and memset, with the fields of packed structures in
-- Bytes.Fields, and CString the texts, of src/common/string.c, with numbers as texts in
-- CString.Print, the tokens of a text in CString.Split and the search for a text in
-- CString.Search.
--
-- Pmm is the bitmap of physical blocks, src/mem/pmm.c with the macros of src/Include/pmm.h. Paging
-- is src/mem/paging.c with src/Include/paging.h: page directories and tables are objects kept by
-- address, alloc_page takes its frames from Pmm, and ksbrk grows the heap by alloc_page.
-- Paging.Translate has the map from page numbers to frames that a directory stands for.
--
-- Kheap is the allocator of src/mem/kheap.c: Kheap the blocks and the list of free ones,
-- Kheap.Malloc malloc, which calls ksbrk of Paging, Kheap.Release free, Kheap.Resize realloc and
-- calloc, Kheap.Placement kmalloc_int before and after the heap is up. Kheap.FreeList says which
-- sequence of blocks the free list stands for.
--
-- Devfs is the table of devices of src/fs/devfs.c, and Sorfs the read-only file system of
-- src/fs/sorfs.c over the bytes of a device. Vfs has the calls through the callbacks of a node,
-- src/fs/vfs.c, and Vfs.Mounts its tree of mount points, kept as a value; Ramdisk
-- (src/drivers/storage/ramdisk.c), Logdisk (src/drivers/storage/logdisk.c) and Mbr (src/fs/mbr.c)
-- are devices behind such callbacks, and a partition of Mbr goes on to the device below it by
-- vfs_read and vfs_write.
--
-- Process is src/process/process.c. A control block is kept by its address, and the process list
-- is the sequence of its nodes; exit and create_process_from_routine go on to change_process as in
-- the source, and a call ends in a switch, a panic, a read through NULL or a search that goes on.
-- Process.Steps has the calls as steps from the start on. The search goes down by one pid a round,
-- so one round more than the pid is enough. Process.Keyboard is the table of process_kbh, with one
-- list of keys for each row of the keyboard.
--
-- AtaPio is src/drivers/storage/ata_pio.c: the words and registers of a transfer, with what the
-- disk answers as functions of the number of the read, and in AtaPio.Sectors the loops over
-- sectors, for any two functions that read and write one; AtaPio.Driver puts ata_pio_read_sector
-- and ata_pio_write_sector in their place, on a disk that is the words of its sectors. The polls
-- of the status are given rounds, and the theorems about transfers take a disk that gets ready in
-- them. Pci is src/drivers/pci.c, where a read of the configuration data is an argument, and
-- Pci.Identify has the names of the devices; on a bus without bridges one level of the scan is
-- enough.
--
-- Rtc is src/drivers/time/rtc.c, where the readings of the clock are given.
--
-- LinkedList is src/common/structures/list.c; LinkedList.Sequence says which sequence of nodes and
-- values a list stands for.
--
-- Ext2 is src/fs/ext2.c with src/Include/ext2.h. A file system is its disk in blocks and its table
-- of group descriptors; inodes, directory entries and the superblock are packed bytes. Ext2.Bitmap
-- takes and frees blocks and inodes, Ext2.Blocks is the map from the blocks of a file to those of
-- the disk, Ext2.File reads and writes the contents of a file, Ext2.Dir, Ext2.Create and Ext2.Node
-- are the directories and the calls behind a node, and Ext2.Mount finds the file system on a
-- device. Ext2.Walk has the sequence of entries that the loops through a directory come to. The
-- callbacks of a node, and what VFS_mount makes of the root, are not kept; the reads and writes of
-- the disk do not fail. Blocks have at most 4096 bytes where the map of three levels is used.
--
-- Netutils is src/network/netutils.c, with ip_checksum of src/network/ipv4.c; Ip is the rest of
-- src/network/ipv4.c over src/network/ethernet.c, with packets as lists of bytes and the ARP table
-- at each lookup as an argument; Arp is src/network/arp.c, Udp src/network/udp.c, Icmp
-- src/network/icmp.c and Dhcp the client of src/network/dhcp.c. Gdt is src/descriptors/gdt.c, and
-- Math the integer part of src/common/math.c.
--
-- A function keeps the name that it has in C, in lower case. A struct is a record; what a function
-- changes is an argument and a part of the answer. A 32-bit result is written with `% 2 ^ 32`. A
-- NULL pointer is the number 0, or none where the pointer leads to a node. Messages that are
-- printed are not kept.
--
-- Loops are recursions on the rounds that are left. The loops over pages (alloc_region,
-- free_region, ksbrk) are given the number of pages and two rounds, and the theorems about them
-- show that this is enough below the last page of the address space; the walk through the free
-- list is given a number of rounds, and the theorem asks for one more than the list has blocks; a
-- loop through a directory is given one round more than the directory has bytes, and each round
-- goes further.
--
-- Not modelled: port I/O, assembly, interrupts and the drivers that are little else (timer,
-- interrupt controllers, keyboard, serial port, network cards, the DMA transfers of
-- src/drivers/storage/ata.c), since what they do is done by the hardware; the start of the kernel
-- and the shell, which call the parts in order; the texts of procfs; and graphics, the trees of
-- src/common/structures and the paths of file_open. What the boot loader, the linker and the
-- devices supply (the end of the kernel image, the boot sector, the addresses of the network
-- interface) is an argument of the definitions that use it.
pub mod Base
pub mod Bytes
pub mod Pmm
pub mod Process
pub mod AtaPio
pub mod Pci
pub mod Paging
pub mod Vfs
pub mod Ramdisk
pub mod Devfs
pub mod Sorfs
pub mod Rtc
pub mod Mbr
pub mod Logdisk
pub mod Netutils
pub mod Udp
pub mod Dhcp
pub mod Ip
pub mod Icmp
pub mod Ext2
pub mod Arp
pub mod Math
pub mod Gdt
pub mod Kheap
pub mod CString
pub mod LinkedList
