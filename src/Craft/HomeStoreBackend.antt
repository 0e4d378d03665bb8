-- ===== src/Craft/HomeStoreBackend.antt =====
-- `HomeStoreCraftJournalBackend` (craft/craft_repl_dev.cpp): the production journal, over the log
-- store and the data service of HomeStore, which are parameters.
use home_blocks.Prelude.{
  if◌then◌else◌, ap, ◌∙◌, ℕ, ◌-◌, ◌^◌, ◌<◌, ◌≡◌, refl, Bool, true, false, List, ◌++◌, Option, none,
  some, arith,
}
use home_blocks.Prelude.Int.{ℤ, pos, ◌≤ℤ◌}
use home_blocks.Prelude.Errors.{
  Result, ok, err, Status, internal_error, operation_not_supported, not_supported, io_error,
}
use home_blocks.Prelude.Buffers.{SgList}
use home_blocks.Craft.Journal.{JournalBackend}
use home_blocks.Craft.Entry.{
  JournalEntry, encode, decode, decode-encode, byte_of_bool, k_journal_magic, k_journal_version,
}

-- The calls of HomeStore: `async_alloc_write` with the volume's ordinal as its hint, `async_free_blk`,
-- `write_async` (false: the store is stopping) and `rollback` of the log, and `serialize` of a
-- block id.
pub record HomeStore (S Blk : Type 0) : Type 0 where
  pub no_blkid : Blk
  pub serialize : Blk → List ℕ
  pub async_alloc_write : SgList → ℕ → S → Option Blk × S
  pub async_free_blk : Blk → S → Bool × S
  pub write_async : ℤ → List ℕ → S → Bool × S
  pub rollback : ℤ → S → Bool × S

module _ {S Blk : Type 0} (hs : HomeStore S Blk) (vol_ordinal : ℕ) where
  unfoldable pub alloc_write_data : SgList → ℕ → S → Result Blk × S
  alloc_write_data payload len s =
      let (res, s') = hs.async_alloc_write payload vol_ordinal s in
      elim res [ none ↦ (err internal_error, s') | some blkid ↦ (ok blkid, s') ]

  -- The header of an entry, as `write_slot` fills it in.
  unfoldable pub entry_of : ℤ → ℕ → ℕ → ℕ → Bool → JournalEntry
  entry_of lsn term lba len all_zeros = record {
    magic = k_journal_magic;
    version = k_journal_version;
    term = term;
    lsn = lsn;
    lba = lba;
    len = len;
    all_zeros = byte_of_bool all_zeros;
  }

  unfoldable pub slot_blob : ℤ → ℕ → ℕ → ℕ → Blk → Bool → List ℕ
  slot_blob lsn term lba len blkid all_zeros =
      encode (entry_of lsn term lba len all_zeros) ++ hs.serialize blkid

  unfoldable pub write_slot : ℤ → ℕ → ℕ → ℕ → Blk → Bool → S → Status × S
  write_slot lsn term lba len blkid all_zeros s =
      let (accepted, s') = hs.write_async lsn (slot_blob lsn term lba len blkid all_zeros) s in
      elim accepted [ true ↦ (ok tt, s') | false ↦ (err operation_not_supported, s') ]

  unfoldable pub truncate_to : ℤ → S → Status × S
  truncate_to lsn s =
      let (done, s') = hs.rollback lsn s in
      elim done [ true ↦ (ok tt, s') | false ↦ (err io_error, s') ]

  unfoldable pub free_data : Blk → S → Status × S
  free_data blkid s =
      let (done, s') = hs.async_free_blk blkid s in
      elim done [ true ↦ (ok tt, s') | false ↦ (err internal_error, s') ]

  -- `read_slot` is not implemented.
  unfoldable pub homestore_backend : JournalBackend S Blk
  homestore_backend = record {
    no_blkid = hs.no_blkid;
    alloc_write_data = alloc_write_data;
    write_slot = write_slot;
    read_slot = λ lsn s. err not_supported;
    truncate_to = truncate_to;
    free_data = free_data;
  }

  -- What is to be found in a slot, independent of the code: `CraftJournalEntry` with these fields.
  abbrev pub written_entry : ℤ → ℕ → ℕ → ℕ → ℕ → JournalEntry
  written_entry lsn term lba len zeros = record {
    magic = 0xC4AF5AFE;
    version = 1;
    term = term;
    lsn = lsn;
    lba = lba;
    len = len;
    all_zeros = zeros;
  }

  entry_of-written :
      (lsn : ℤ) (term lba len : ℕ) (all_zeros : Bool)
      → entry_of lsn term lba len all_zeros
        ≡ written_entry lsn term lba len (if all_zeros then 1 else 0)
  unfolding entry_of
  entry_of-written lsn term lba len true = refl
  entry_of-written lsn term lba len false = refl

  byte_of_bool-lt : (b : Bool) → byte_of_bool b < 2 ^ 8
  byte_of_bool-lt true = omega arith
  byte_of_bool-lt false = omega arith

  -- If the log store keeps what it has accepted under its sequence number, then after a write that
  -- succeeded the record of the slot has, at the offsets of the packed header, the magic number, version
  -- 1, the term, sequence number, address and length of the write, and the byte 1 for a zero write and 0
  -- for any other; behind the 34 bytes stand those of the block id. The ranges are those of the C++ types.
  pub write_slot-readable :
      (record_at : ℤ → S → Option (List ℕ))
      → ((lsn : ℤ) (blob : List ℕ) (s : S)
          → (hs.write_async lsn blob s).0 ≡ true
          → record_at lsn (hs.write_async lsn blob s).1 ≡ some blob)
      → (lsn : ℤ) (term lba len : ℕ) (blkid : Blk) (all_zeros : Bool) (s : S) → pos 0 ≤ℤ lsn
      → lsn ≤ℤ pos (2 ^ 63 - 1)
      → term < 2 ^ 64
      → lba < 2 ^ 64
      → len < 2 ^ 32
      → (write_slot lsn term lba len blkid all_zeros s).0 ≡ ok tt
      → (blob : List ℕ) × (record_at lsn (write_slot lsn term lba len blkid all_zeros s).1
          ≡ some blob)
        × (decode blob
            ≡ (written_entry lsn term lba len (if all_zeros then 1 else 0), hs.serialize blkid))
  unfolding write_slot slot_blob entry_of
  write_slot-readable record_at keeps lsn term lba len blkid all_zeros s l₀ l₁ t a n done = (
    slot_blob lsn term lba len blkid all_zeros,
    ground (arith, keeps lsn (slot_blob lsn term lba len blkid all_zeros) s),
    decode-encode (entry_of lsn term lba len all_zeros) (hs.serialize blkid) (record {
      magic = omega arith;
      version = omega arith;
      term = t;
      lsn_from = omega arith;
      lsn_to = l₁;
      lba = a;
      len = n;
      all_zeros = byte_of_bool-lt all_zeros;
    })
        ∙ ap (λ (e : JournalEntry). (e, hs.serialize blkid))
            (entry_of-written lsn term lba len all_zeros),
  )
