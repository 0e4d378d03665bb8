-- ===== src/Index/Value.antt =====
-- `VolumeIndexValue` of volume/index_prefix_kv.hpp: a block id of one block and its checksum.
use home_blocks.Prelude.{ℕ, ◌+◌, ◌*◌, ◌/◌, ◌%◌, ◌^◌, ◌<◌, ◌≡◌, refl, ap, arith}

-- HomeStore's `blk_id`: a block number, a count and a chunk number.
pub record BlkId : Type 0 where
  pub blk_num : ℕ
  pub nblks : ℕ
  pub chunk_num : ℕ

pub record IndexValue : Type 0 where
  pub blkid_prefix : ℕ
  pub blkid_suffix : ℕ
  pub checksum : ℕ

-- The constructor, from `to_integer()` of the block id.
unfoldable pub value_of : ℕ → ℕ → IndexValue
value_of integer csum = record {
  blkid_prefix = integer / 2 ^ 32 % 2 ^ 32;
  blkid_suffix = integer % 2 ^ 32 / 2;
  checksum = csum;
}

unfoldable pub blkid_of : IndexValue → BlkId
blkid_of v = record {
  blk_num = v.blkid_suffix;
  nblks = v.blkid_prefix % 2 ^ 16;
  chunk_num = v.blkid_prefix / 2 ^ 16;
}

-- `shift`: the next block, with the checksum that `block_info` has for the lba. The map is a
-- parameter; the source asserts that it has the lba.
unfoldable pub shift_value : (ℕ → ℕ) → ℕ → IndexValue → ℕ → IndexValue
shift_value new_checksum start_lba v n = record v {
  blkid_suffix = (v.blkid_suffix + n) % 2 ^ 32;
  checksum = new_checksum (start_lba + n);
}

-- The layout of `to_integer()` that the source's comment states: the chunk number and the count in
-- the upper half, the block number above one bit that marks a multi-piece id.
abbrev pub HasLayout : (BlkId → ℕ) → Type 0
HasLayout to_integer =
    (b : BlkId)
    → b.blk_num < 2 ^ 31
    → b.nblks < 2 ^ 16
    → b.chunk_num < 2 ^ 16
    → to_integer b ≡ (b.chunk_num * 2 ^ 16 + b.nblks) * 2 ^ 32 + b.blk_num * 2

-- A value gives back the block id and the checksum that it was built from.
pub blkid_of-value_of :
    (to_integer : BlkId → ℕ) (b : BlkId) (csum : ℕ)
    → HasLayout to_integer
    → b.blk_num < 2 ^ 31
    → b.nblks < 2 ^ 16
    → b.chunk_num < 2 ^ 16
    → (blkid_of (value_of (to_integer b) csum) ≡ b)
      × ((value_of (to_integer b) csum).checksum ≡ csum)
unfolding blkid_of value_of
blkid_of-value_of to_integer b csum layout h k m =
    let e = layout b h k m in
    (λ i. record { blk_num = num e i; nblks = count e i; chunk_num = chunk e i }, refl)
  where
    num :
        to_integer b ≡ (b.chunk_num * 2 ^ 16 + b.nblks) * 2 ^ 32 + b.blk_num * 2
        → to_integer b % 2 ^ 32 / 2 ≡ b.blk_num
    num e = omega arith

    count :
        to_integer b ≡ (b.chunk_num * 2 ^ 16 + b.nblks) * 2 ^ 32 + b.blk_num * 2
        → to_integer b / 2 ^ 32 % 2 ^ 32 % 2 ^ 16 ≡ b.nblks
    count e = omega arith

    chunk :
        to_integer b ≡ (b.chunk_num * 2 ^ 16 + b.nblks) * 2 ^ 32 + b.blk_num * 2
        → to_integer b / 2 ^ 32 % 2 ^ 32 / 2 ^ 16 ≡ b.chunk_num
    chunk e = omega arith

-- The value of a range's first lba, shifted by n, is the value of the n-th block after it, with that
-- block's checksum: as `write_to_index` writes one value for the whole range.
pub shift_value-blkid :
    (to_integer : BlkId → ℕ) (new_checksum : ℕ → ℕ) (start_lba n : ℕ) (b : BlkId) (csum : ℕ)
    → HasLayout to_integer
    → b.blk_num + n < 2 ^ 31
    → b.nblks < 2 ^ 16
    → b.chunk_num < 2 ^ 16
    → let v = shift_value new_checksum start_lba (value_of (to_integer b) csum) n in
      (blkid_of v ≡ record b { blk_num = b.blk_num + n })
      × (v.checksum ≡ new_checksum (start_lba + n))
unfolding shift_value blkid_of
shift_value-blkid to_integer new_checksum start_lba n b csum layout h k m =
    let e = (blkid_of-value_of to_integer b csum layout (omega arith) k m).0 in
    let num : (value_of (to_integer b) csum).blkid_suffix ≡ b.blk_num =
      ap (λ (v : BlkId). v.blk_num) e in
    (
      λ i. record { blk_num = shifted num i; nblks = (e i).nblks; chunk_num = (e i).chunk_num },
      refl,
    )
  where
    shifted :
        (value_of (to_integer b) csum).blkid_suffix ≡ b.blk_num
        → ((value_of (to_integer b) csum).blkid_suffix + n) % 2 ^ 32 ≡ b.blk_num + n
    shifted num = omega arith
