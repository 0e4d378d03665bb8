-- ===== src/Volume/Write.antt =====
-- `volume::write` (volume/volume.cpp) from the allocation of its blocks to its journal entry, and
-- `HomeBlocksImpl::on_write` (volume_mgr.cpp), which the journal calls once the entry is on disk, and
-- again in the recovery from a crash. Block numbers and lbas stay below the ends of their types.
use home_blocks.Prelude.{
  ℕ, zero, suc, ◌+◌, ◌-◌, ◌*◌, ◌%◌, ◌^◌, Bool, true, false, List, [], ◌∷◌, Option, none, some,
  if◌then◌else◌, length,
}
use home_blocks.Prelude.Errors.{ok, err, Status, index_error, no_space_on_device, io_error}
use home_blocks.Index.Value.{BlkId}
use home_blocks.Index.FixedTable.{BlockInfo, Blocks, set_info, Btree, write_to_index}
use home_blocks.Volume.Read.{IoReq}

-- A `multi_blk_id` of one piece.
pub record MultiBlk : Type 0 where
  pub blk_num : ℕ
  pub blk_count : ℕ
  pub chunk_num : ℕ

-- `VolJournalEntry` with the checksums and the old blocks behind it.
pub record JournalKey : Type 0 where
  pub start_lba : ℕ
  pub nlbas : ℕ
  pub num_old_blks : ℕ
  pub csums : List ℕ
  pub old_blkids : List BlkId

-- `BlockInfo{new_bid, blk_id{}, csum}`
abbrev pub new_info : ℕ → ℕ → ℕ → BlockInfo
new_info blk_num chunk_num csum = record {
  new_blkid = record { blk_num = blk_num; nblks = 1; chunk_num = chunk_num };
  new_checksum = csum;
  old_blkid = none;
  old_checksum = 0;
}

-- The loop over the `n` blocks of one `multi_blk_id`. `csum_of` gives the checksum of the request's
-- i-th block.
unfoldable pub add_blocks : (ℕ → ℕ) → ℕ → ℕ → ℕ → ℕ → ℕ → Blocks → Blocks
add_blocks csum_of zero blk_num chunk_num lba i b = b
add_blocks csum_of (suc n) blk_num chunk_num lba i b =
    add_blocks csum_of n (blk_num + 1) chunk_num (lba + 1) (i + 1)
      (set_info b lba (new_info blk_num chunk_num (csum_of i)))

-- `blocks_info` before anything is written to it.
abbrev pub no_blocks : Blocks
no_blocks j = new_info 0 0 0

-- `blocks_info[lba].new_checksum` for each lba
unfoldable pub csums_of : ℕ → ℕ → Blocks → List ℕ
csums_of zero lba b = []
csums_of (suc n) lba b = (b lba).new_checksum ∷ csums_of n (lba + 1) b

-- The valid old blocks, here in the order of the lbas; the source goes by the order of the map.
unfoldable pub old_blkids_of : ℕ → ℕ → Blocks → List BlkId
old_blkids_of zero lba b = []
old_blkids_of (suc n) lba b =
    let rest = old_blkids_of n (lba + 1) b in
    elim (b lba).old_blkid [ none ↦ rest | some o ↦ o ∷ rest ]

unfoldable pub journal_key : IoReq → Blocks → JournalKey
journal_key req b =
    let olds = old_blkids_of req.nlbas req.lba b in
    record {
      start_lba = req.lba;
      nlbas = req.nlbas;
      num_old_blks = length olds % 2 ^ 16;
      csums = csums_of req.nlbas req.lba b;
      old_blkids = olds;
    }

-- The i-th checksum in the key.
abbrev pub csum_at : List ℕ → ℕ → ℕ
csum_at [] i = 0
csum_at (c ∷ cs) zero = c
csum_at (c ∷ cs) (suc i) = csum_at cs i

-- `nlbas * get_blk_size()`, a product of two 32-bit words.
unfoldable pub data_size : ℕ → IoReq → ℕ
data_size blk_size req = req.nlbas * blk_size % 2 ^ 32

-- The journal entry, once the index is written.
abbrev pub journaled :
    {T : Type 0}
    → (JournalKey → Status)
    → IoReq
    → Option (Status × T × Blocks)
    → Option (Status × T × Option JournalKey)
journaled flush req none = none
journaled flush req (some (err e, t, b)) = some (err index_error, t, none)
journaled flush req (some (ok _, t, b)) =
    some (flush (journal_key req b), t, some (journal_key req b))

module _ {T : Type 0} (tree : Btree T) where
  -- One `multi_blk_id` after the other: its blocks, then the index. A failure ends the loop.
  unfoldable pub write_blkids :
      ℕ → (ℕ → ℕ) → List MultiBlk → ℕ → ℕ → Blocks → T → Option (Status × T × Blocks)
  write_blkids fuel csum_of [] lba i b t = some (ok tt, t, b)
  write_blkids fuel csum_of (m ∷ ms) lba i b t =
      let b' = add_blocks csum_of m.blk_count m.blk_num m.chunk_num lba i b in
      elim (write_to_index tree fuel lba (lba + m.blk_count - 1) b' t) [
        | none ↦ none
        | some (err e, t', b₁) ↦ some (err index_error, t', b₁)
        | some (ok _, t', b₁) ↦
            write_blkids fuel csum_of ms (lba + m.blk_count) (i + m.blk_count) b₁ t'
      ]

  -- `alloc_blks` and `async_write` answer for a size in bytes, which is a 32-bit product; `flush` is what
  -- the completion of the journal entry delivers. The answer has the key, if one is written.
  unfoldable pub write :
      ℕ
      → (ℕ → ℕ)
      → ℕ
      → IoReq
      → (ℕ → Option (List MultiBlk))
      → (List MultiBlk → ℕ → Bool)
      → (JournalKey → Status)
      → T
      → Option (Status × T × Option JournalKey)
  write fuel csum_of blk_size req alloc_blks async_write flush t =
      elim (alloc_blks (data_size blk_size req)) [
        | none ↦ some (err no_space_on_device, t, none)
        | some ms ↦ elim (async_write ms (data_size blk_size req)) [
          | false ↦ some (err io_error, t, none)
          | true ↦ journaled flush req (write_blkids fuel csum_of ms req.lba 0 no_blocks t)
        ]
      ]

-- The data service: whether a block is allocated, `async_free_blks`, of which only the start is seen
-- here (the task is detached), and `free_blk_now` with its success.
pub record BlkStore (D : Type 0) : Type 0 where
  pub is_blk_alloced : D → BlkId → Bool
  pub async_free_blks : BlkId → D → D
  pub free_blk_now : BlkId → D → Bool × D

-- The loop over `num_old_blks` blocks of the key.
unfoldable pub free_old {ℓ} :
    {D : Type ℓ} → (D → BlkId → Bool) → (BlkId → D → D) → ℕ → List BlkId → D → D
free_old alloced free zero olds d = d
free_old alloced free (suc n) [] d = d
free_old alloced free (suc n) (o ∷ os) d =
    free_old alloced free n os (if alloced d o then free o d else d)

module _ {T D : Type 0} (tree : Btree T) (store : BlkStore D) where
  -- The call for an old block that is still allocated; the answer of `free_blk_now` is ignored.
  abbrev pub free_blk : Bool → BlkId → D → D
  free_blk false o d = store.async_free_blks o d
  free_blk true o d = (store.free_blk_now o d).1

  abbrev pub free_all : Bool → JournalKey → D → D
  free_all recovering key =
      free_old store.is_blk_alloced (free_blk recovering) key.num_old_blks key.old_blkids

  -- `recovering`: there is no request, and the index is written again from the key. An index error
  -- then stops the process.
  unfoldable pub on_write : ℕ → Bool → JournalKey → List MultiBlk → T → D → Option (T × D)
  on_write fuel false key ms t d = some (t, free_all false key d)
  on_write fuel true key ms t d =
      elim (write_blkids tree fuel (csum_at key.csums) ms key.start_lba 0 no_blocks t) [
        | none ↦ none
        | some (err e, t', b) ↦ none
        | some (ok _, t', b) ↦ some (t', free_all true key d)
      ]
