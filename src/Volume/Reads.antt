-- ===== src/Volume/Reads.antt =====
-- What `volume::read` (volume/volume.cpp) fills the buffer with and what it answers.
use home_blocks.Prelude.{ℕ, ◌+◌, ◌^◌, ◌<◌, ◌≡◌, refl, ap, ◌∙◌, List, ◌∷◌, map, some, arith, length}
use home_blocks.Prelude.Errors.{Status, ok, err}
use home_blocks.Volume.ReadPlan.{IndexKv, cell_of, generate_blkids_to_read}
use home_blocks.Volume.Read.{
  IoReq, Segment, submit_read_to_backend, first_error, unless_failed, read,
}
use home_blocks.Volume.Contents.{blocks_of_all, contents, Rises, Rises-weaken}
use home_blocks.Volume.Segments.{submit_read_to_backend-contents}
use home_blocks.Volume.Checksum.{all_match, verdict, verify_checksum-all_match}

-- The answer of a read whose data came in: the first failed read's error, else the verdict of the
-- checksums.
abbrev pub answer : Status → Status → Status
answer (err e) s = err e
answer (ok _) s = s

unless_failed-some : (s v : Status) → unless_failed s (some v) ≡ some (answer s v)
unless_failed-some (ok _) v = refl
unless_failed-some (err e) v = refl

module _ (results : List Segment → List Status) (crc_of : List Segment → ℕ → ℕ) (blk_size fuel : ℕ)
    (req : IoReq) where
  abbrev pub answer_of : List IndexKv → List Segment → Status
  answer_of kvs segments =
      answer (first_error (results segments))
        (verdict (all_match (crc_of segments) blk_size req.lba kvs))

  -- A read of a non-empty range below lba 2^32, in blocks of fewer than 2^16 bytes, for which the index
  -- answers at least one entry and fewer than 2^16, the lbas rising, and with two rounds of fuel for each entry and one more: the buffer holds the contents of the volume, block
  -- by block, and the read answers the first error of the data reads, or else ok exactly if every
  -- entry's block has the entry's checksum. It always answers.
  pub read-contents :
      (kv : IndexKv) (kvs : List IndexKv)
      → 0 < blk_size
      → blk_size < 2 ^ 16
      → 0 < req.nlbas
      → req.lba + req.nlbas < 2 ^ 32
      → length (kv ∷ kvs) < 2 ^ 16
      → Rises req.lba (req.lba + req.nlbas) (map cell_of (kv ∷ kvs))
      → length (kv ∷ kvs) + length (kv ∷ kvs) < fuel
      → (blocks_of_all blk_size (read results crc_of blk_size fuel req (ok (kv ∷ kvs))).segments
          ≡ contents (map cell_of (kv ∷ kvs)) req.lba req.nlbas)
        × ((read results crc_of blk_size fuel req (ok (kv ∷ kvs))).outcome
            ≡ some (
                answer_of
                  (kv ∷ kvs)
                  (read results crc_of blk_size fuel req (ok (kv ∷ kvs))).segments))
  unfolding read
  read-contents kv kvs h₀ h₁ h₂ h₃ few rise enough =
      let segments = submit_read_to_backend blk_size req (generate_blkids_to_read (kv ∷ kvs)) in
      (
        submit_read_to_backend-contents blk_size req (kv ∷ kvs) h₀ (omega arith) h₂ h₃ few rise,
        ap (unless_failed (first_error (results segments))) (
              verify_checksum-all_match (crc_of segments) blk_size fuel req (kv ∷ kvs) h₁ enough (
                Rises-weaken req.lba (req.lba + req.nlbas) (2 ^ 40) (map cell_of (kv ∷ kvs))
                  (omega arith) rise))
            ∙ unless_failed-some (first_error (results segments)) _,
      )
