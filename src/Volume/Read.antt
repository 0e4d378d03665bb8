-- ===== src/Volume/Read.antt =====
-- `volume::read`, `submit_read_to_backend` and `verify_checksum` (volume/volume.cpp), and the request
-- of volume/io_req.hpp. The buffer is filled from its start on, without a jump: a read is the list
-- of the segments that are written one behind the other.
use home_blocks.Prelude.{
  ℕ, zero, suc, ◌+◌, ◌-◌, ◌*◌, ◌%◌, ◌^◌, true, false, List, [], ◌∷◌, Option, none, some, ltb, ◌==◌,
  if◌then◌else◌,
}
use home_blocks.Prelude.Errors.{Result, ok, err, Status, crc_mismatch}
use home_blocks.Volume.ReadPlan.{IndexKv, BlkRun, generate_blkids_to_read}

abbrev pub u32 : ℕ → ℕ
u32 n = n % 2 ^ 32

abbrev pub u64 : ℕ → ℕ
u64 n = n % 2 ^ 64

-- A difference of two 64-bit words.
abbrev pub sub64 : ℕ → ℕ → ℕ
sub64 a b = (a + 2 ^ 64 - b) % 2 ^ 64

-- `io_req`: the first block, the number of blocks, and the last block.
pub record IoReq : Type 0 where
  pub lba : ℕ
  pub nlbas : ℕ

unfoldable pub end_lba : IoReq → ℕ
end_lba r = sub64 (r.lba + r.nlbas) 1

-- A piece of the buffer, in bytes: cleared, or read from a run of blocks.
pub data Segment : Type 0 where
  cleared : ℕ → Segment
  from_run : BlkRun → ℕ → Segment

-- `if (holes_size > 0) memset(...)`
abbrev pub clear_hole : ℕ → List Segment → List Segment
clear_hole zero rest = rest
clear_hole (suc n) rest = cleared (suc n) ∷ rest

-- The loop, with `prev_lba` and `prev_nblks` as 32-bit words, and the hole at the end.
unfoldable pub submit_runs : ℕ → IoReq → ℕ → ℕ → List BlkRun → List Segment
submit_runs blk_size req prev_lba prev_nblks [] =
    if ltb (u32 (prev_lba + prev_nblks)) (u64 (end_lba req + 1))
    then clear_hole (u64 (sub64 (u64 (end_lba req + 1)) (u32 (prev_lba + prev_nblks)) * blk_size))
        []
    else []
submit_runs blk_size req prev_lba prev_nblks (r ∷ rs) =
    clear_hole (u64 (sub64 r.start_lba (u32 (prev_lba + prev_nblks)) * blk_size)) (
      from_run r (u64 (r.blk_count * blk_size))
      ∷ submit_runs blk_size req (u32 r.start_lba) (u32 r.blk_count) rs)

unfoldable pub submit_read_to_backend : ℕ → IoReq → List BlkRun → List Segment
unfolding submit_runs
submit_read_to_backend blk_size req runs = submit_runs blk_size req (u32 req.lba) 0 runs

-- The loop of `verify_checksum`. `block_crc` is the checksum of the block at a byte offset of the
-- buffer; the offset and the lba are 64-bit words. `none` when the fuel runs out.
unfoldable pub verify_loop : (ℕ → ℕ) → ℕ → ℕ → ℕ → ℕ → List IndexKv → Option Status
verify_loop block_crc blk_size zero cur_lba offset kvs = none
verify_loop block_crc blk_size (suc fuel) cur_lba offset [] = some (ok tt)
verify_loop block_crc blk_size (suc fuel) cur_lba offset (kv ∷ kvs) = elim (cur_lba == kv.lba) [
  | false ↦
      verify_loop block_crc blk_size fuel kv.lba (u64 (offset + sub64 kv.lba cur_lba * blk_size))
        (kv ∷ kvs)
  | true ↦ elim (block_crc offset == kv.checksum) [
    | false ↦ some (err crc_mismatch)
    | true ↦ verify_loop block_crc blk_size fuel (u64 (cur_lba + 1)) (u64 (offset + blk_size)) kvs
  ]
]

unfoldable pub verify_checksum : (ℕ → ℕ) → ℕ → IoReq → ℕ → List IndexKv → Option Status
verify_checksum block_crc blk_size req fuel kvs = verify_loop block_crc blk_size fuel req.lba 0 kvs

-- The first error among the results of the reads.
unfoldable pub first_error : List Status → Status
first_error [] = ok tt
first_error (ok _ ∷ rs) = first_error rs
first_error (err e ∷ rs) = err e

-- `if (!r.has_value()) { co_return std::unexpected(r.error()); }`, then the rest.
abbrev pub unless_failed : Status → Option Status → Option Status
unless_failed (err e) rest = some (err e)
unless_failed (ok _) rest = rest

-- What a read does: the segments that it fills, and how it ends.
pub record ReadResult : Type 0 where
  pub segments : List Segment
  pub outcome : Option Status

-- `index_resp` is what the index answers; `results` gives the outcome of the reads that are issued,
-- and `crc_of` the checksum of a block of the buffer once it is filled so.
unfoldable pub read :
    (List Segment → List Status)
    → (List Segment → ℕ → ℕ)
    → ℕ
    → ℕ
    → IoReq
    → Result (List IndexKv)
    → ReadResult
read results crc_of blk_size fuel req (err e) = record { segments = []; outcome = some (ok tt) }
read results crc_of blk_size fuel req (ok kvs) =
    let segments = submit_read_to_backend blk_size req (generate_blkids_to_read kvs) in
    record {
      segments = segments;
      outcome = elim kvs [
        | [] ↦ some (ok tt)
        | kv ∷ rest ↦
            unless_failed (first_error (results segments))
              (verify_checksum (crc_of segments) blk_size req fuel (kv ∷ rest))
      ];
    }
