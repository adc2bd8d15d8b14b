-- ===== src/Lib.antt =====
-- QuantumKernel, a 32-bit kernel for the PC: a model of its file system, its tasks, its allocator,
-- its keyboard, its string functions, its network protocols and its system calls, with proofs of what
-- they do.
--
-- The parts. The FAT32 driver (src/fs/fat32.c, include/fs/fat32.h) stands on the ATA driver
-- (src/drivers/ata.c); the system calls (src/user/syscall.c) call it with the program's arguments.
-- The keyboard's interrupt handler (src/drivers/keyboard.c) fills a ring of characters that SYS_READ
-- empties. Tasks (src/kernel/task.c) form a ring of `task_t` allocated by src/mm/kmalloc.c, along
-- which src/kernel/scheduler.c chooses the next one. Packets go from src/drivers/net/icmp.c through
-- ip.c, which keeps them while arp.c asks for an address, and ethernet.c to the card; the string
-- functions of src/lib/ serve all of these.
--
-- The files. `Prelude` holds the shared names: tests, arrays as lists, words and C's signed
-- integers. `Bytes` holds memory by byte: loads, stores and block copies. `Memory` has `kmalloc`,
-- `kmalloc_a` and `kmalloc_aligned`, with sequences of calls in `Memory.Blocks`. `Libc` has the
-- functions of src/lib/libc.c and src/lib/string.c on memory by byte, and `Libc.Number` `atoi`,
-- `itoa` and src/lib/katoi.c; `Libc.Text` describes strings as lists of bytes, and `Libc.User` has
-- the string functions of userspace/libc/src/string.c. `Task` has the state of task.c with
-- `task_init`, `task_create` and `task_set_current`, `Task.Schedule` has `task_schedule`,
-- `task_exit`, `task_sleep` and `task_kill`; `Task.Ring` and `Task.Choice` describe the ring as a
-- list and the choice on it, and `Task.Turns`, `Task.Create` and `Task.Kill` are about the three
-- walks. `Paging` has src/cpu/paging.c but for its initialisation, and `Devices` the mouse, the
-- clock and the terminal (fb_terminal.c) of src/drivers/. `Disk` is the block device as the ATA
-- driver presents it: any transfer may fail, by an arbitrary function of its number, and then
-- changes nothing; a transfer that succeeds moves 512 bytes at a 28-bit address. `Net` has the
-- checksum of src/drivers/net/ip.c and `Net.Checksum` its sum without wrapping; `Net.State` has
-- the static variables of src/drivers/net/ and `eth_tx`, `Net.Table` the loops of arp.c,
-- `Net.Queue` and `Net.Ip` ip.c and icmp.c, `Net.Arp` the rest of arp.c, and `Net.Receive`
-- `eth_rx` and `ip_rx`. `Net.Header`, `Net.Waiting`, `Net.Queued`, `Net.Sends`, `Net.Resolve` and
-- `Net.Trace` are about headers, the queue of packets that wait for an address, one packet's way
-- through it, and whole sessions. `Keyboard` models keyboard.c and the SYS_READ case;
-- `Keyboard.Queue` is its specification, a queue of 127 bytes, `Keyboard.Refine` the refinement,
-- and `Keyboard.Trace` whole sessions. `Fat` holds the state of fat32.c: `g_fs`, the two static
-- buffers, the current directory and the disk. `Fat.Table` has `fat32_read_fat`,
-- `fat32_write_fat`, `fat32_alloc_cluster`, `fat32_free_cluster_chain` and `fat32_cluster_to_lba`;
-- its children relate them to one abstract table of entries, held by every copy on disk.
-- `Fat.Mount` and `Fat.Format` have `fat32_mount` and `fat32_format`, with the packed structures
-- as bytes. `Fat.Format.Written` describes the sectors of a new volume. `Fat.Cluster` has
-- `fat32_read_cluster` and `fat32_write_cluster`. `Fat.File` has `fat32_read`, `fat32_seek`,
-- `fat32_tell` and `fat32_close`, and `Fat.Write` has `fat32_write`; `Fat.Directory` has
-- `fat32_find_entry` and `fat32_unlink`, `Fat.Create` has `fat32_create_entry`, `fat32_mkdir` and
-- `fat32_open`, `Fat.Listing` has `fat32_readdir`, `Fat.Chdir` has `fat32_chdir`, and `Fat.Path`
-- `fat32_get_current_path`; `Fat.Name` has the short names of directory entries.
-- `Fat.Directory.Whole` describes a directory as one row of entries and `Fat.Chdir.Located` what a
-- list of names leads to. Functions keep their C names without `fat32_`. `Syscall` has the table
-- of open files of src/user/syscall.c, `Syscall.Files` and `Syscall.Network` the cases of its
-- calls with `sys_` in front, and `Syscall.Dispatch` the function `syscall_dispatch`, on a state
-- that holds those of the other parts; `Syscall.Reachable` is about sequences of calls.
--
-- Fuel. A loop with a counter recurs on the rounds left. `free_cluster_chain` takes fuel, of which
-- `total_clusters + 4` is enough on a disk that does not fail, since each round but the last frees a
-- cluster in use. The loops of `fat32_read` and `fat32_write` get one round more than the bytes
-- left, since a round takes at least one byte. The search of a directory needs a round for each
-- cluster of its chain and one more; a chain that is a cycle without the name has no end, and then no
-- fuel is enough. The string functions take a round for each byte and one for the
-- terminator, and `itoa` one for each digit and one more. The scheduler's loop takes fuel, of which
-- two turns of the ring are enough when it ends at all, and `task_kill` needs one turn. Folding a
-- 32-bit sum takes two rounds at most, so `checksum` has fuel for three tests.
-- The walks of `fat32_create_entry` and `fat32_readdir` take fuel too, and no theorem here says how
-- much is enough.
--
-- Assumptions. The theorems about FAT32 speak of a mounted volume whose geometry stays in range
-- (`IsMounted`) and a disk on which no transfer fails; the model's functions have the failing
-- branches. Bytes are numbers, and a `uint32_t` wraps where the C sum does. A buffer is a function
-- from offsets to bytes: what a write past the end of a buffer would overwrite is not modelled, so
-- the network's functions are those of the code for packets of at most 1400 bytes, the room of a
-- waiting packet.
--
-- The ring's theorems speak of tasks linked into one ring of different addresses.
--
-- Not modelled: the switch of the processor's registers (assembly), the ATA driver's port protocol,
-- the RTL8139 card, the calls that list the tasks, start a program or end the machine, programs and
-- their start, the initialisation of the page tables, and the drivers that only move bytes to ports.
pub mod Prelude
pub mod Bytes
pub mod Memory
pub mod Libc
pub mod Paging
pub mod Disk
pub mod Keyboard
pub mod Task
pub mod Net
pub mod Fat
pub mod Devices
pub mod Syscall
