-- ===== src/Manager/RecoveryTests.antt =====
-- A server with two volumes of one chunk each, the second of which was being destroyed.
use home_blocks.Prelude.{
  ℕ, ◌-◌, ◌^◌, ◌≡◌, refl, true, false, List, [], ◌∷◌, Option, none, some, arith, All,
}
use home_blocks.Chunks.State.{Chunk, Known, Selector, idle}
use home_blocks.Chunks.Ops.{max_chunks}
use home_blocks.Chunks.Recovery.{recover_chunk, recover_loop, recover_sized, recover_chunks}
use home_blocks.Manager.State.{
  VolumeState, vol_online, vol_destroying, find_vol, is_destroying, is_offline,
}
use home_blocks.Manager.Ops.{get_volume, remove_volume}
use home_blocks.Manager.Invariant.{IsValid}
use home_blocks.Volume.Superblock.{VolSb, info_of, get_chunk_ids}
use home_blocks.Volume.Lifecycle.{recover_volume, init_recovered}
use home_blocks.Manager.Recovery.{
  Recovery, vol_of, resume_removal, add_recovered, on_vol_meta_blk_found, recover_all,
}
use home_blocks.Manager.Restart.{resumed, recover_all-IsValid}

abbrev chunk : ℕ → Chunk
chunk id = record { chunk_id = id; pdev_id = 3; size = 1000; total_blks = 10 }

abbrev known_as : ℕ → Known
known_as id = record { chunk_id = id; chunk = some (chunk id) }

abbrev chunks : Selector
chunks = record {
  all_chunks = known_as 1 ∷ known_as 2 ∷ [];
  per_dev_chunks = record { pdev = 3; chunks = chunk 1 ∷ chunk 2 ∷ [] } ∷ [];
  volume_chunks = none ∷ none ∷ none ∷ [];
  vol_ordinal = λ _. 2 ^ 64 - 1;
  resize_op = idle;
}

abbrev sb : ℕ → ℕ → ℕ → VolumeState → VolSb
sb id ordinal chunk_id state = record {
  magic = 0xc01fadeb;
  version = 3;
  num_streams = 0;
  page_size = 500;
  size = 1000;
  id = id;
  name = 0 ∷ [];
  state = state;
  ordinal = ordinal;
  pdev_id = 3;
  num_chunks = 1;
  chunk_ids = chunk_id ∷ [];
}

abbrev blocks : List VolSb
blocks = sb 70 0 2 vol_online ∷ sb 71 2 1 vol_destroying ∷ []

-- The index tables of both volumes were found.
abbrev before : Recovery
before = record {
  manager = record {
    is_restricted = false;
    shutdown_started = false;
    outstanding_reqs = 0;
    vols = [];
    reserved = [];
  };
  volume_chunks = chunks;
  index_chunks = chunks;
  idx_tbl_map = 71 ∷ 70 ∷ [];
  removals = [];
}

abbrev or_before : Option Recovery → Recovery
or_before none = before
or_before (some r) = r

abbrev after : Recovery
after = or_before (recover_all (λ _. true) blocks before)

recovers : recover_all (λ _. true) blocks before ≡ some after
unfolding recover_all on_vol_meta_blk_found recover_volume init_recovered info_of get_chunk_ids
    add_recovered resume_removal remove_volume get_volume is_destroying is_offline recover_chunks
    recover_sized recover_loop recover_chunk max_chunks
recovers = refl

recover_all-IsValid_example :
    IsValid after.manager
    × All (λ b. find_vol b.id after.manager.vols ≡ some (vol_of b)) blocks
    × (after.removals ≡ resumed blocks [])
recover_all-IsValid_example =
    recover_all-IsValid (λ _. true) blocks before after refl refl (omega arith) recovers
