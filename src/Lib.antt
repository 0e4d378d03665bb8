-- ===== src/Lib.antt =====
-- Verification of HomeBlocks, a block device service on top of HomeStore.
--
-- The parts and their files:
--
--   Craft    the replica device of the CRAFT protocol (src/lib/craft). Craft/Device has the state of
--            `CraftReplDev` and what only reads it, Craft/Lsns its sets of slots, Craft/Write the
--            handler `write` in its critical sections and journal calls, and `truncate`.
--            Craft/Interleaving lets any number of writes run at once, a step for each critical
--            section and journal call; Craft/Coverage has the invariant of these runs. Craft/Journal is
--            the interface of the journal and what the device relies on, Craft/Entry the persisted
--            layout, Craft/HomeStoreBackend the journal on HomeStore, Craft/Api the public verbs.
--   Index    the map from lbas to blocks (src/lib/volume/index_*.hpp). Index/Key and Index/Value are the
--            keys and values of the prefix index, Index/FixedTable the table of the fixed index, with
--            the rollback of a write that fails, and Index/PrefixTable that of the prefix index, which
--            writes a range with one put; Index/Tables compares the two.
--   Volume   the reads and writes of a volume (src/lib/volume/volume.cpp). Volume/ReadPlan merges the
--            entries of the index into runs, Volume/Read has the segments of the buffer, the checksums
--            and the whole read; Volume/Contents is what the volume holds, block by block.
--            Volume/Write has the write up to its journal entry, and `on_write` of volume_mgr.cpp,
--            which Volume/Replay and Volume/Release are about; Volume/Listener has the callback for
--            journal entries (src/lib/listener.cpp). Volume/Superblock is `vol_sb_t` (volume.hpp) and
--            Volume/Lifecycle the creation, recovery and destruction of a volume with its chunks,
--            its index and its meta block; Volume/Lives lets these follow each other in any order.
--   Chunks   `VolumeChunkSelector` (src/lib/volume/volume_chunk_selector.*): Chunks/State, Chunks/Ops,
--            Chunks/Recovery and Chunks/Select have its operations. Chunks/LateResize is the task that
--            adds chunks when its volume has gone before it runs, and Volume/StaleGrowth what the callback
--            for the superblock then does.
--   Manager  `HomeBlocksImpl` (src/lib/volume_mgr.cpp, src/lib/homeblks_impl.*): Manager/Ops has the
--            creation and removal of volumes, the collector, the shutdown and the fault containment,
--            Manager/Requests the checks in front of a request, Manager/Recovery the callbacks for the
--            meta blocks and index tables that HomeStore finds. Manager/InFlight lets requests and the
--            removal of their volume interleave, a step for each check, count and mark.
--            Manager/Creations and Manager/Concurrent let creations and removals run at once, the start
--            and the end of each a step of its own; Manager/SameId has two creations of one id,
--            Manager/TwoRemovals two removals of one volume.
--   Server   the start and stop of a server (src/lib/homeblks_impl.*): Server/Flags and
--            Server/Superblock have `homeblks_sb_t` and where it is written and read, Server/Devices and
--            Server/Format the devices and the layout of the services on them; Server/Lives lets crashes,
--            containments and shutdowns follow each other.
--   Prelude  what they share: tests, lists, signed integers, errors, buffers and bytes.
--
-- A read goes from Manager/Requests to Volume/Read, which asks the index and the block store; a volume
-- takes its blocks from the chunks that Chunks gives it. An operation is a function from the state to a
-- result and the new state, an error is a value of `Result`, and `none` is a process that stops or a loop
-- that does not end. Numbers are natural numbers with the wrap-around written out where the source has
-- machine words; the log sequence numbers of CRAFT are integers.
--
-- HomeStore is not part of the repository. Its btree, log store, block store and id reserver are
-- arguments, and the laws that are relied on are records (`JournalLaws`, `BtreeLaws`, `RangeLaws`) or
-- hypotheses.
--
-- Fuel: `verify_checksum` needs two rounds for each entry and one more, `rollback_write` one more than
-- the lbas that it undoes, and `write_to_index` one more than the lbas of its range. A range that ends at
-- the last lba of 64 bits has no such number: the loop of the source does not stop there. The loop of
-- `select_chunk`, which waits for blocks, is modelled turn by turn.
--
-- Not modelled: timers, metrics, logging, the calls that only hand fixed parameters to HomeStore and
-- iomgr, and the fault injection of test builds.
pub mod Prelude
pub mod Craft
pub mod Index
pub mod Chunks
pub mod Manager
pub mod Server
pub mod Volume
