-- ===== src/Craft/Journal.antt =====
-- The journal of a partition as its owner sees it: `CraftJournalBackend` and `JournalSlot` of
-- craft/craft_repl_dev.hpp. The state behind the interface is a parameter `J`; so is `Blk`, the
-- `multi_blk_id` of the block store.
use home_blocks.Prelude.{ℕ, ◌≡◌, Bool, true, false, []}
use home_blocks.Prelude.Int.{ℤ, leb_ℤ}
use home_blocks.Prelude.Errors.{Error, Result, ok, err, Status}
use home_blocks.Prelude.Buffers.{SgList}

pub record JournalSlot : Type 0 where
  pub lsn : ℤ
  pub is_empty : Bool
  pub all_zeros : Bool
  pub lba_off_bytes : ℕ
  pub len_bytes : ℕ
  pub payload : SgList

-- `JournalSlot{.lsn = lsn, .is_empty = true}`
abbrev pub empty_verdict : ℤ → JournalSlot
empty_verdict lsn = record {
  lsn = lsn;
  is_empty = true;
  all_zeros = false;
  lba_off_bytes = 0;
  len_bytes = 0;
  payload = record { size = 0; iovs = [] };
}

-- Each call returns its result and the journal after it.
pub record JournalBackend (J Blk : Type 0) : Type 0 where
  pub no_blkid : Blk
  pub alloc_write_data : SgList → ℕ → J → Result Blk × J
  pub write_slot : ℤ → ℕ → ℕ → ℕ → Blk → Bool → J → Status × J
  pub read_slot : ℤ → J → Result JournalSlot
  pub truncate_to : ℤ → J → Status × J
  pub free_data : Blk → J → Status × J

-- What the owner relies on, said by a test of which slots the journal holds. A slot is held once its
-- write has succeeded, and only a truncation below it gives it up. Nothing is said of reads, which the
-- journal on HomeStore refuses.
pub record JournalLaws {J Blk : Type 0} (journal : JournalBackend J Blk) : Type 0 where
  pub holds : J → ℤ → Bool
  pub alloc_keeps :
      (data_sgs : SgList) (len : ℕ) (j : J) (l : ℤ)
      → holds j l ≡ true
      → holds (journal.alloc_write_data data_sgs len j).1 l ≡ true
  pub write_keeps :
      (lsn : ℤ) (term lba len : ℕ) (blkid : Blk) (zeros : Bool) (j : J) (l : ℤ)
      → holds j l ≡ true
      → holds (journal.write_slot lsn term lba len blkid zeros j).1 l ≡ true
  pub write_holds :
      (lsn : ℤ) (term lba len : ℕ) (blkid : Blk) (zeros : Bool) (j : J)
      → (journal.write_slot lsn term lba len blkid zeros j).0 ≡ ok tt
      → holds (journal.write_slot lsn term lba len blkid zeros j).1 lsn ≡ true
  pub free_keeps :
      (blkid : Blk) (j : J) (l : ℤ)
      → holds j l ≡ true
      → holds (journal.free_data blkid j).1 l ≡ true
  pub truncate_keeps :
      (lsn : ℤ) (j : J) (l : ℤ)
      → leb_ℤ l lsn ≡ true
      → holds j l ≡ true
      → holds (journal.truncate_to lsn j).1 l ≡ true
  pub truncate_fails :
      (lsn : ℤ) (j : J) (l : ℤ) (e : Error)
      → (journal.truncate_to lsn j).0 ≡ err e
      → holds j l ≡ true
      → holds (journal.truncate_to lsn j).1 l ≡ true
