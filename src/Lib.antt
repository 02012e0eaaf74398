-- ===== src/Lib.antt =====
-- A verification library for PolymorphOS, a bare-metal kernel in Rust.
--
-- The parts of the kernel that are modelled, and how they interact:
--   * kernel/src/mdo_vm.rs, the policy machine that decides, over a byte code and a context of
--     hashes, whether an operation on a file is allowed. MdoVm models its stack (`MictStack::push`,
--     `pop`, `push_bool`, `pop_bool`), each opcode (`exec_push_var` and its likes, one arm of the match
--     each) and the loop (`check_loop`, `execute_mict_check`). MdoVm/Program gives a byte code its
--     meaning as a decoded program, MdoVm/Rounds and MdoVm/Refines relate the loop to it, MdoVm/Access
--     says when access is granted at all, MdoVm/Policy is about the ownership policy the kernel ships.
--   * kernel/src/allocator/mict_global_allocator.rs, the kernel's heap: a bit for each block of 64
--     bytes. MictHeap models `set_bit`, `is_hot`, `alloc` and `dealloc`; MictHeap/Heatmap is about the
--     bits, MictHeap/Scan about the search, MictHeap/Contract about what a caller may rely on.
--   * kernel/src/task/keyboard.rs, mouse_stream.rs and serial_stream.rs, the ring buffers between an
--     interrupt handler and the task that reads the bytes. Streams models the code the three share, over
--     the size of the buffer; Streams/Keyboard, Streams/Mouse and Streams/Serial are the three.
--     Streams/Ring is about the index arithmetic, Streams/Refines about the bounded queue that a stream
--     is, Streams/Wakeups about the waker.
--   * kernel/src/task/executor.rs and mod.rs, the executor that polls those tasks when their wakers are
--     called. Executor models `spawn`, the body and the loop of `run_ready_tasks`, `sleep_if_idle` and a
--     round of `run`; Executor/Registry is about its maps, Executor/Spawn and
--     Executor/Round about the operations, Executor/Fair about the order in which tasks run,
--     Executor/Drain about rounds that end.
--   * kernel/src/nvme.rs, the block driver: Nvme models the queue pairs, the doorbells, `write_block` and
--     `read_block`; Nvme/InStep is about the ring indices and the phase bit of the I/O queue,
--     Nvme/Admin about the admin queue, Nvme/Blocks about the block commands.
--   * kernel/src/mfs.rs, the file system: Mfs models `verify_mdo_access`, which runs the policy machine on
--     the byte code in a file's first block, and the body of `read_file` after `find_file`, over an
--     interface of block reads and writes. Mfs/Gate is about the check, Mfs/Reads about what a read hands
--     out, Mfs/Answers about its coming back. The NVMe driver provides the interface in the program.
--     Mfs/Table models the file table as the text in block 0, over the text functions of the standard
--     library in Mfs/Text; Mfs/Table/RoundTrip is about its printing and reading, Mfs/Table/Lookup about
--     `find_file`. Mfs/Files models `read_mft`, `write_mft`, `save_file`, `find_file`, `read_file`,
--     `delete_file` and `rename_file`; Mfs/Files/Save, Mfs/Files/Total and Mfs/Files/Gated are about them
--     on a drive that keeps what is written to it (Mfs/Files/Kept), Mfs/Files/Layout about where the
--     files lie.
--   * kernel/src/memory.rs, the frame allocator over the boot loader's memory map and the allocation of
--     DMA memory: Memory models `allocate_frame`, `usable_frames` and `allocate_dma_frames`;
--     Memory/Frames is about the frames handed out, Memory/Dma about a block of them. The drivers below
--     take the allocator as an interface.
--   * the packets of kernel/src/e1000.rs and kernel/src/virtio_net.rs: Net models `calculate_checksum` and
--     the forging of a ping and of an ARP request, which the two files share; Net/Checksum and
--     Net/Verifies are about the checksum, Net/Packets about the layouts.
--   * kernel/src/e1000.rs, the gigabit driver: E1000 models `new` with the two ring set-ups,
--     `transmit_packet_secure`, `poll_receive`, `send_ping` and `send_arp_request`; E1000/Init, E1000/Send
--     and E1000/Receive are about them, E1000/Rings is the invariant they keep.
--   * kernel/src/virtqueue.rs, the split queues of VirtIO: Virtqueue models `VirtQueue::new` and the steps
--     that the two drivers below repeat; Virtqueue/FreeList is about the free list, Virtqueue/Pair about
--     a command with its reply.
--   * kernel/src/virtio_gpu.rs, the display driver: VirtioGpu models its operations, VirtioGpu/Messages the
--     structs it sends; VirtioGpu/Commands is about the commands that wait for a reply, VirtioGpu/Flush
--     about the one that does not.
--   * kernel/src/virtio_net.rs, the network driver: VirtioNet models its operations; VirtioNet/Send,
--     VirtioNet/Ping and VirtioNet/Receive are about them.
--   * kernel/src/pci.rs, the scan of the PCI bus: Pci models `enumerate_buses`, `scan_pci_dynamic` and the
--     choice that `check_device` makes; Pci/Scan is about the functions that the scan comes to, Pci/Report
--     about the report.
--   * kernel/src/virtio_pci.rs, the transport of VirtIO devices: VirtioPci models `find_capabilities`;
--     VirtioPci/Walk is about the list of capabilities.
--   * kernel/src/gpu_driver.rs, the software frame buffers, which are shown through VirtioGpu: GpuDriver
--     models its operations; GpuDriver/Pixels is about the bytes of a pixel, GpuDriver/Drawing about
--     single pixels, GpuDriver/Glass about the rectangles, GpuDriver/Clip about their edges.
--   * kernel/src/vga_buffer.rs, the text writer: VgaBuffer models `new_line`, `clear_row`, `write_byte` and
--     `write_string`; VgaBuffer/Rows is about the loops over the rows, with the lists of
--     VgaBuffer/Segments, VgaBuffer/Terminal about what a string prints.
--   * kernel/src/allocator/linked_list.rs, an allocator that the build leaves out: LinkedList models its
--     operations over an `align_up` that the repository no longer has; LinkedList/Regions is about the
--     search, LinkedList/Reach about any sequence of operations.
--   * kernel/src/allocator/bump.rs, another: Bump models it in the same way; Bump/Reach is about any sequence
--     of its operations.
--   * kernel/src/splat.rs, the compositor: Splat models a window with its transitions and its splats,
--     Splat/Engine the windows together, a click on them and the frame of `render_desktop` up to the
--     drawing, Splat/Render the drawing of splats through GpuDriver, Splat/Texts the logger's text.
--     Splat/Transitions and Splat/Depth are about a window over the frames, Splat/Engine/Ticks about the
--     frames of the desktop, Splat/Engine/Focus about a click, Splat/Render/Drawn about what is drawn.
-- Prelude holds what they share: the outcomes of a call (`Run`: a result, an error value, a panic, or a
-- loop that is still running), byte strings, lists, bits, signed integers and the arithmetic of `i32`.
--
-- State is passed explicitly: a record for each struct or group of statics, a function for each
-- operation. Machine integers are natural numbers with their wrap-around written out where the code's
-- arithmetic can reach it. Indexing out of range is `panic`, as it is in Rust. Memory is taken not to run
-- out.
--
-- Fuel: the policy machine's loop has one unit for each byte of the code and one more, and every round
-- moves the program counter forward, so that it never runs out. The executor's loop has any number of
-- units; `Executor.Drain` gives a number that is enough
-- where the tasks do not wake themselves without end. The driver's completion loops are given the
-- status words that their reads see, and are `spin` when these are used up before a completion; the
-- display driver's waits are given the values of the used index in the same way. The loop that folds a
-- checksum has three units, and a 32-bit sum needs no more.
--
-- Parameters: the futures crate's `AtomicWaker`, crossbeam's `ArrayQueue` and the futures that tasks are
-- made of, as records of operations with the laws that the code relies on; the frame allocator and
-- `PhysFrame::containing_address` of the x86_64 crate; the values of device registers, as functions.
--
-- Not modelled: page tables, descriptor tables, ports and the boot sequence (calls of the x86_64 and
-- bootloader crates), serial output, the NVMe register set-up, the set-up calls that the PCI scan makes
-- and the VirtIO hand-shake, the terminal commands of the compositor and the drawing of its text (glyphs
-- of the font8x8 crate), and the fixed-size-block allocator, which the build leaves out.
pub mod Prelude
pub mod MdoVm
pub mod MictHeap
pub mod Streams
pub mod Nvme
pub mod Executor
pub mod Mfs
pub mod Net
pub mod Pci
pub mod Memory
pub mod E1000
pub mod GpuDriver
pub mod Virtqueue
pub mod VgaBuffer
pub mod LinkedList
pub mod Bump
pub mod Splat
pub mod VirtioGpu
pub mod VirtioNet
pub mod VirtioPci
