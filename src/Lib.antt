-- ===== src/Lib.antt =====
-- A model of the VFI driver, which moves data between shared memory buffers on the boards of a
-- system, with the theorems that its parts are correct.
--
-- The program. A user writes command lines to a device file (vfi_cdev.c). `do_operation` (vfi_ops.c)
-- takes a line apart and runs the handler of its command. A handler parses its argument
-- (vfi_parse.c), looks for the objects that it names in a tree of locations, buffers, transfer
-- agents, binds and barriers, and calls a member of the table of operations of the object that it
-- found: vfi_local_ops for an object on this board, vfi_fabric_ops for one on another board, whose
-- members send a command there. The answer goes back to the device file as a line of text. A bind is
-- one transfer from a source to a destination: both sides announce that they are ready, the bind is
-- then queued on a DMA engine (vfi_dma.c and the engines' own files), and when the engine has
-- finished both sides are told. A buffer can be mapped into a program by mmap(2), for which a command
-- makes a ticket beforehand (vfi_mmap.c).
--
-- The files.
--   Prelude: names, Boolean tests, lists as C arrays, C strings and bit operations.
--   Ops: vfi_ops.c. Model has the data, the tables of vfi_local_ops.c and vfi_fabric_ops.c, and
--     `Driver`, the interface of what the handlers call. Frame has the shapes that the handlers share;
--     Places, Buffers, Transfers and Binds have the handlers, by the name of the C function; Dispatch
--     has `do_operation`. References, Tidy and Settled are about references, Sound and Answered about
--     NULL pointers, Lines about command lines, Outcomes about some results.
--   Parse: vfi_parse.c. Desc has the functions, Split and Print how a string is cut and parsed back.
--   Fabric: vfi_fabric.c. Call has the calls to other boards, Replies is about their replies.
--   Forward: vfi_fabric_ops.c. Model has `Board`, the interface of what its members use, and the
--     exchange with another board; Requests the texts that are sent; Finds, Creates, Deletes, Ends
--     (dsts and srcs), Events and Places (locations) the members, by the name of the C function; Table
--     the table of them. Buffers, Returned, EndsReturned and Balance are about the memory of replies,
--     Results and Answers about results, Understood about the command at the other board, Bells about
--     what the ends of a bind keep.
--   Location: vfi_location.c. Model has the searches, Walk and Held what they find and keep, and Inherit
--     a new location.
--   Local: vfi_local_ops.c. Model has `Site`, the interface of what its members use; Finds, Creates,
--     Deletes, Ends (binds, dsts and srcs) and Events the members, by the name of the C function. Split
--     has the macros of vfi_smb.h and the loops that split the ends of a bind by pages; Bytes, Pages,
--     Cover, Transfer, Stops and Asked are about these loops, Balance and BindBalance about references,
--     Tiling about where binds lie, Sizes about buffers, and Chains about events.
--   Cdev: vfi_cdev.c. File has the state of an open file, `read`, `llseek`, `queue_to_read`, `release`
--     and `readable` (vfi_poll); Lines has `write`. Pending, Stream and Seek are about
--     reading.
--   Bind: the ready word of vfi_bind.h with the operations of vfi_local_ops.c (Ready, Protocol),
--     `valid_extents` of vfi_ops.c (Extents), and the deletion of binds by range (Delete).
--   Ring: ringbuf.c.
--   Dma: the table of engines (Registry) and the pages of a buffer (Pages, with the loops of its
--     allocation in Loops and its outcomes in Alloc), both in vfi_dma.c.
--   Sync: the barrier of vfi_sync.c and vfi_local_ops.c.
--   Mmap: tickets (vfi_mmap.h), mappings and the search for a ticket (vfi_mmap.c), and their use by
--     the device file (vfi_cdev.c).
--
-- The model. Numbers of the source are natural numbers; where a machine word can wrap, `% 2 ^ w` is
-- written out, and `unsigned long` has 32 bits. A section that the source runs under a lock is one
-- step on the state, and a call outside of the lock is a step of its own (Bind/Protocol). What a handler does to the rest of the driver is a list of effects in order,
-- and a handler that would follow a NULL pointer has no outcome. A reply is modelled by what it
-- quotes and not by its text. The loop of `read` runs on fuel: one more than the number of answers
-- that are still to come is enough. `write` runs on fuel as well, and more than the number of the
-- lines behind the first is enough. The loop of `event_start` runs on fuel too: more than the number of
-- lists behind the first is enough. A page has 4096 bytes, as in the kernel that the driver is for.
--
-- The recursion of `find_vfi_location` runs on fuel: as much as there are names in the path is enough.
--
-- Not modelled: the reference counts of descriptions, the fabrics and the hardware of the DMA engines;
-- asynchronous and O_NONBLOCK writes; the sysfs attributes, the debug output and the registration of
-- the module, which are glue to the kernel. Calls of the kernel that can fail (page allocation, pinning,
-- copying to the user) are parameters.
pub mod Bind
pub mod Cdev
pub mod Dma
pub mod Fabric
pub mod Forward
pub mod Local
pub mod Location
pub mod Mmap
pub mod Ops
pub mod Parse
pub mod Prelude
pub mod Ring
pub mod Sync
