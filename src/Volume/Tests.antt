-- ===== src/Volume/Tests.antt =====
-- A read of four blocks, two of which are mapped, to blocks that follow each other.
use home_blocks.Prelude.{
  ℕ, ◌+◌, ◌*◌, ◌^◌, ◌≤◌, ◌≡◌, List, [], ◌∷◌, refl, ◌<◌, map, Option, none, some, Bool, true, false,
  arith, length, All, ==_iff, Bool-cases, inl, inr, ◌==◌, if◌then◌else◌,
}
use home_blocks.Prelude.Errors.{Status, ok}
use home_blocks.Volume.ReadPlan.{IndexKv, BlkRun, cell_of}
use home_blocks.Volume.Read.{IoReq, Segment, cleared, submit_read_to_backend, read}
use home_blocks.Volume.Contents.{blocks_of_all, contents, Rises}
use home_blocks.Volume.Segments.{submit_read_to_backend_truncates}
use home_blocks.Volume.Reads.{answer_of, read-contents}
use home_blocks.Index.Value.{BlkId}
use home_blocks.Index.FixedTable.{
  FixedValue, Blocks, Btree, note_existing, write_loop, write_to_index,
}
use home_blocks.Volume.Write.{
  MultiBlk, JournalKey, add_blocks, no_blocks, csums_of, old_blkids_of, journal_key, write_blkids,
  write, BlkStore, free_all, on_write,
}
use home_blocks.Volume.Listener.{written, free_log, entry, nothing, replay, replay-Journaled}
use home_blocks.Volume.Release.{ReleaseLaws, IsGivenUp, on_write-releases}

abbrev kv : ℕ → ℕ → IndexKv
kv lba blk_num = record { lba = lba; blk_num = blk_num; chunk_num = 3; checksum = blk_num + 1 }

abbrev mapped : List IndexKv
mapped = kv 11 50 ∷ kv 12 51 ∷ []

abbrev req : IoReq
req = record { lba = 10; nlbas = 4 }

mapped-Rises : Rises req.lba (req.lba + req.nlbas) (map cell_of mapped)
mapped-Rises = (omega arith, omega arith, (omega arith, omega arith, omega arith))

-- A read of one mapped block right behind the first 2^32.
abbrev far_req : IoReq
far_req = record { lba = 2 ^ 32; nlbas = 1 }

abbrev far_run : BlkRun
far_run = record { start_lba = 2 ^ 32; blk_num = 8; blk_count = 1; chunk_num = 3 }

submit_read_to_backend_truncates_example :
    (bytes : ℕ) × (rest : List Segment) × (submit_read_to_backend 4096 far_req (far_run ∷ [])
      ≡ cleared bytes ∷ rest)
    × (2 ^ 32 * 4096 ≤ bytes)
submit_read_to_backend_truncates_example =
    submit_read_to_backend_truncates 4096 far_req far_run [] (omega arith) (omega arith)
      (omega arith) (omega arith) (omega arith)

-- The checksums of the blocks in the buffer; that of the second mapped block is wrong.
abbrev crc : ℕ → ℕ
crc offset = if offset == 4096 then 51 else 0

abbrev all_succeed : List Segment → List Status
all_succeed segments = ok tt ∷ []

read-contents_example :
    (blocks_of_all 4096 (read all_succeed (λ segments. crc) 4096 5 req (ok mapped)).segments
      ≡ contents (map cell_of mapped) 10 4)
    × ((read all_succeed (λ segments. crc) 4096 5 req (ok mapped)).outcome
        ≡ some (
            answer_of all_succeed
              (λ segments. crc)
              4096
              5
              req
              mapped
              (read all_succeed (λ segments. crc) 4096 5 req (ok mapped)).segments))
read-contents_example =
    read-contents all_succeed (λ segments. crc) 4096 5 req (kv 11 50) (kv 12 51 ∷ []) (omega arith)
      (omega arith) (omega arith) (omega arith) (omega arith) mapped-Rises (omega arith)

-- An index that is a function, where lba 11 is mapped.
abbrev Table : Type 0
Table = ℕ → Option FixedValue

abbrev set_at : ℕ → Option FixedValue → Table → Table
set_at k v t j = if j == k then v else t j

abbrev table : Btree Table
table = record {
  lookup = λ t j. t j;
  put = λ k v t. (true, set_at k (some v) t);
  remove = λ k t. (true, set_at k none t);
}

abbrev old_blk : BlkId
old_blk = record { blk_num = 50; nblks = 1; chunk_num = 3 }

abbrev filled : Table
filled j = if j == 11 then some (record { blkid = old_blk; checksum = 9 }) else none

-- Four new blocks in two pieces.
abbrev pieces : List MultiBlk
pieces =
    record { blk_num = 20; blk_count = 3; chunk_num = 3 }
    ∷ record { blk_num = 40; blk_count = 1; chunk_num = 3 }
    ∷ []

abbrev key : JournalKey
key = record {
  start_lba = 10;
  nlbas = 4;
  num_old_blks = 1;
  csums = 100 ∷ 101 ∷ 102 ∷ 103 ∷ [];
  old_blkids = old_blk ∷ [];
}

abbrev flushed : JournalKey → Status
flushed k = ok tt

abbrev allocates : ℕ → Option (List MultiBlk)
allocates size = some pieces

abbrev after : Table
after = elim (write table 9 (λ i. 100 + i) 512 req allocates (λ ms size. true) flushed filled) [
  | none ↦ filled
  | some r ↦ r.1
]

wrote :
    write table 9 (λ i. 100 + i) 512 req allocates (λ ms size. true) flushed filled
    ≡ some (ok tt, after, some key)
unfolding write write_blkids write_to_index write_loop note_existing add_blocks journal_key csums_of
    old_blkids_of
wrote = refl

-- A store that knows which block numbers are allocated, and which are being released.
abbrev Numbers : Type 0
Numbers = ℕ → Bool × Bool

abbrev change : BlkId → Bool × Bool → Numbers → Numbers
change b s d n = if n == b.blk_num then s else d n

abbrev numbers : BlkStore Numbers
numbers = record {
  is_blk_alloced = λ d b. (d b.blk_num).0;
  async_free_blks = λ b d. change b ((d b.blk_num).0, true) d;
  free_blk_now = λ b d. (true, change b (false, false) d);
}

numbers-ReleaseLaws : ReleaseLaws numbers
numbers-ReleaseLaws = record {
  is_releasing = λ d b. (d b.blk_num).1;
  starts = λ b d. rw ((==_iff b.blk_num b.blk_num).1 refl) refl;
  keeps_releasing =
      λ a b d h. elim (Bool-cases (a.blk_num == b.blk_num)) [ inl e ↦ rw e refl | inr e ↦ rw e h ];
  keeps_free = λ a b d h. elim (Bool-cases (a.blk_num == b.blk_num)) [
    | inl e ↦ rw e (rw ((==_iff a.blk_num b.blk_num).0 e) at h)
    | inr e ↦ rw e h
  ];
}

abbrev all_taken : Numbers
all_taken n = (true, false)

-- A journal with the entry of one write.
replay-Journaled_example :
    replay table numbers 9 (written table numbers key pieces ∷ []) filled all_taken
    ≡ some (after, free_log table numbers (written table numbers key pieces ∷ []) all_taken)
replay-Journaled_example =
    replay-Journaled table numbers 9 filled (written table numbers key pieces ∷ []) after all_taken
      (entry (λ i. 100 + i) 512 req pieces allocates (λ ms size. true) flushed (ok tt) key refl refl
        wrote nothing)

-- The blocks of the request once the index is written.
abbrev noted : Blocks
noted j =
    if j == 11
    then record (no_blocks 0) { old_blkid = some old_blk; old_checksum = 9 }
    else no_blocks 0

few : length (old_blkids_of 4 10 noted) < 2 ^ 16
unfolding old_blkids_of
few = omega arith

abbrev freed : Numbers
freed = free_all table numbers false (journal_key req noted) all_taken

commits :
    on_write table numbers 9 false (journal_key req noted) pieces after all_taken
    ≡ some (after, freed)
unfolding on_write
commits = refl

on_write-releases_example :
    All (IsGivenUp numbers numbers-ReleaseLaws freed) (old_blkids_of 4 10 noted)
on_write-releases_example =
    on_write-releases numbers numbers-ReleaseLaws table 9 req noted pieces after after all_taken
      freed few commits
