-- ===== src/Lib.antt =====
-- CELL: the models of its kernel crates and of the tool that installs its boot loader.
--
-- The kernel is a pipeline of typed values between modules on two cores.
--   Base        names shared by all files: tests and lists over the native numbers, 64-bit words,
--               division with remainder, bit operations.
--   Queue       crates/cell-queue/src/lib.rs. `SpscQueue` is a record of slots and two counters that
--               wrap at 2^64; `push`, `pop`, `is_empty`, `is_full` and `drop` are functions of it.
--               Queue.Fifo is the abstract queue. Queue.Threads is a step relation that runs
--               `push_inner` and `pop_inner` on two threads, one shared access at a time.
--   Core        crates/cell-core/src/lib.rs, payloads and results; Core.Tensor is tensor.rs.
--   Supervisor  crates/cell-supervisor/src/lib.rs, the table of failures.
--   Pmm         crates/cell-baremetal/src/pmm.rs, the frame allocator on the words of its bitmaps.
--               Pmm.Words reads a bitmap as a set of frames, Pmm.Valid is its invariant, and
--               Pmm.Owners runs any calls beside the list of the frames that are handed out.
--   Kernel      crates/cell-baremetal/src/main.rs. Kernel.Start is `_start` up to the second core;
--               `bsp_move` and `ap_move` are the rounds of the loops of `_start` and `ap_entry`, one
--               call of a queue or one access of a flag each, and `run` takes them in any order.
--               Kernel.Invariant says where the cores may stand together, Kernel.Measure how many
--               moves are left. A call of a queue is one move, as Queue.Threads justifies.
--   Limine      .tools/limine/Limine-9.6.7-binary/limine.c, the tool that scripts/run_qemu.sh calls.
--               Limine.Tool holds its static variables, a monad for calls that fail, and the C
--               library calls on the device; Limine.Device the block cache and the transfers
--               `_device_read` and `_device_write`; Limine.Uninstall the journal of old bytes and
--               the undo of a failed installation; Limine.Endian, Limine.Chs and Limine.Crc the
--               encodings; Limine.Gpt the partition table and its conversion; Limine.Install the
--               rest of `bios_install`, and that it makes only such transfers; Limine.Enroll the search of
--               `enroll_config`, and Limine.Enroll.Run its calls on the file; Limine.Args the command line.
--
-- Loops recurse on the number of rounds that are left. The loops of the transfers recurse on the
-- byte count, since each round moves a byte at least; fuel that runs out is a failure, and the
-- theorems on the transfers show that it never does.
--
-- Bytes are functions from the position. `Tool.faults` says which of the coming C library calls
-- fail; the theorems on the device are for devices of which no call fails.
--
-- Limine.Uninstall.Store is the uninstall data file and the mode `--uninstall`. What C leaves
-- undefined in limine.c's work on a device, where the model meets it, sets `Tool.undefined` and ends
-- the run: an entry past the array of 256, a fifth partition to convert, the division by a GPT entry
-- size of 0, and clearing entries larger than the buffer of zeros. In `enroll_config` the bytes behind
-- the buffer are an argument, and of a write that fails any part may have reached the file.
--
-- What limine.c relies on that is not in it is an argument, `Limine.Gpt.Host`: the byte order, the
-- boot image, `rand` and which sizes `malloc` can give.
--
-- `f32` is a record of the operations that are used, `Kernel.State.F32`, and `Kernel.Sum.IsExact` is
-- what IEEE 754 says of whole numbers up to 2^24. `Pmm.EntryFields` is what is read of an entry of
-- the memory map, and `Kernel.Boot.IsMachine` what the boot loader answers on a machine that works.
--
-- Not modelled: output and device access of the kernel, its serial lock, and the memory order of
-- its flags, which are taken as sequentially consistent; the opening and closing of the device and of
-- the uninstall data file, which is the list of its bytes, and allocation failure where it is not
-- written out. A call of fwrite on the device that fails is taken to have written nothing, and its
-- fclose not to fail; no result is about such calls. A partition index that is no number, with
-- which the code goes on with an indeterminate value, is left out.
pub mod Base
pub mod Queue
pub mod Core
pub mod Supervisor
pub mod Pmm
pub mod Kernel
pub mod Limine
