-- ===== src/Volume/LifeTests.antt =====
-- A volume of two chunks on a device of four, which gets a third chunk, is torn down half way, and is
-- recovered.
use home_blocks.Volume.StaleGrowth.{update_vol_sb_cb-stale}
use home_blocks.Chunks.LateResize.{late_resize_task}
use home_blocks.Chunks.Count.{places}
use home_blocks.Prelude.{
  ℕ, ◌-◌, ◌^◌, ◌≡◌, refl, not, true, false, List, [], ◌∷◌, Option, none, some, arith, ◌≤◌, ◌<◌,
  length, All,
}
use home_blocks.Manager.State.{Vol, vol_init, vol_online, vol_destroying}
use home_blocks.Chunks.State.{Chunk, Selector, Known, idle, VolumeChunksInfo, present}
use home_blocks.Chunks.Ops.{
  from_pdev, allocate_init_chunks_from_pdev, assign, max_chunks, attach, allocate_sized,
  allocate_fresh, allocate_init_chunks, ids_of, grown, resize_from,
}
use home_blocks.Chunks.Recovery.{recover_chunk, recover_loop, recover_sized, recover_chunks}
use home_blocks.Chunks.Reclaim.{IsKeyed}
use home_blocks.Chunks.Answers.{chunk_ids_of}
use home_blocks.Volume.Superblock.{
  VolumeInfo, craft, VolSb, sb_of, info_of, get_chunk_ids, get_index_size,
}
use home_blocks.Volume.Lifecycle.{
  Volume, World, state_change, init_index_table, finish_init, init_devices, init_new, make_volume,
  init_recovered, recover_volume, destroy_repl_dev, destroy, update_vol_sb_cb,
}
use home_blocks.Volume.Restart.{Synced}
use home_blocks.Volume.Creation.{make_volume-Synced}
use home_blocks.Volume.Destruction.{Restored, IsReady, destroy-make_volume}
use home_blocks.Volume.Lives.{change, tear_repl_dev, restart, here, next, SameVolume, Reach-Synced}

abbrev info : VolumeInfo
info = record {
  id = 77;
  size_bytes = 4000;
  page_size = 500;
  name = 118 ∷ 49 ∷ [];
  ordinal = 1;
  repl_mode = craft;
}

abbrev blank : VolSb
blank = record {
  magic = 0;
  version = 0;
  num_streams = 0;
  page_size = 0;
  size = 0;
  id = 0;
  name = [];
  state = vol_init;
  ordinal = 0;
  pdev_id = 0;
  num_chunks = 0;
  chunk_ids = [];
}

abbrev chunk : ℕ → Chunk
chunk id = record { chunk_id = id; pdev_id = 3; size = 1000; total_blks = 10 }

abbrev known_as : ℕ → Known
known_as id = record { chunk_id = id; chunk = some (chunk id) }

-- The selector of a new process.
abbrev all_free : Selector
all_free = record {
  all_chunks = known_as 1 ∷ known_as 2 ∷ known_as 3 ∷ known_as 4 ∷ [];
  per_dev_chunks = record { pdev = 3; chunks = chunk 1 ∷ chunk 2 ∷ chunk 3 ∷ chunk 4 ∷ [] } ∷ [];
  volume_chunks = none ∷ none ∷ [];
  vol_ordinal = λ _. 2 ^ 64 - 1;
  resize_op = idle;
}

abbrev new_world : World
new_world = record {
  volume_chunks = all_free;
  index_chunks = all_free;
  meta_blk = none;
  repl_dev = false;
  index_table = false;
}

abbrev run_or : {A : Type 0} → A → Option A → A
run_or a none = a
run_or a (some x) = x

abbrev allocated_only : Option ((List ℕ × Option ℕ) × Selector) → Option Selector
allocated_only none = none
allocated_only (some (r, s)) = some s

abbrev nowhere : Volume
nowhere = record {
  info = info;
  rd = false;
  indx_tbl = false;
  sb = blank;
  m_state = vol_init;
  destroy_started = false;
}

abbrev born : Volume × World
born =
    let (_, v, w) = run_or (false, nowhere, new_world) (make_volume true 9 blank info new_world) in
    (v, w)

makes : make_volume true 9 blank info new_world ≡ some (true, born.0, born.1)
unfolding make_volume init_new init_devices finish_init init_index_table state_change sb_of
    get_index_size allocate_init_chunks allocate_fresh allocate_sized allocate_init_chunks_from_pdev
    from_pdev attach assign max_chunks
makes = refl

born_chunks : chunk_ids_of 1 born.1.volume_chunks ≡ 1 ∷ []
unfolding make_volume init_new init_devices finish_init init_index_table state_change sb_of
    get_index_size allocate_init_chunks allocate_fresh allocate_sized allocate_init_chunks_from_pdev
    from_pdev attach assign max_chunks
born_chunks = refl

make_volume-Synced_example :
    Synced born.0 born.1
    × (born.0.m_state ≡ vol_online)
    × (born.0.info ≡ info)
    × (born.0.rd ≡ true)
    × (born.0.indx_tbl ≡ true)
make_volume-Synced_example =
    make_volume-Synced true 9 blank info new_world born.0 born.1 refl (omega arith) refl
      (rw born_chunks (omega arith)) makes

takes_one :
    allocate_init_chunks true 1 4000 all_free
    ≡ some (
      (1 ∷ [], some 3),
      run_or all_free (allocated_only (allocate_init_chunks true 1 4000 all_free)),
    )
unfolding allocate_init_chunks allocate_fresh allocate_sized allocate_init_chunks_from_pdev
    from_pdev attach assign max_chunks
takes_one = refl

ready : IsReady 1 all_free
ready = record { once = λ y. ground arith; vacant = refl }

destroy-make_volume_example :
    (v'' : Volume) × (w'' : World) × (destroy true born.0 born.1 ≡ some (v'', w''))
    × (w''.meta_blk ≡ none)
    × (w''.index_table ≡ false)
    × (w''.repl_dev ≡ not true)
    × Restored all_free w''.volume_chunks
    × Restored all_free w''.index_chunks
destroy-make_volume_example =
    destroy-make_volume true true 9 blank info new_world born.0 born.1 refl ready ready makes

-- The volume is marked for its destruction, loses its replication device, and a new process finds it.
abbrev marked : Volume × World
marked = state_change vol_destroying born.0 born.1

abbrev torn : Volume × World
torn = destroy_repl_dev true marked.0 marked.1

abbrev found : Volume × World
found =
    let (_, v, w) =
      run_or (false, nowhere, new_world)
        (recover_volume torn.0.sb
          (record torn.1 { volume_chunks = all_free; index_chunks = all_free })) in
    (v, w)

finds :
    (torn.1.meta_blk ≡ some torn.0.sb)
    × (recover_volume torn.0.sb
          (record torn.1 { volume_chunks = all_free; index_chunks = all_free })
        ≡ some (true, found.0, found.1))
    × (found.0.m_state ≡ vol_destroying)
unfolding recover_volume init_recovered recover_chunks recover_sized recover_loop recover_chunk
    info_of get_chunk_ids destroy_repl_dev make_volume init_new init_devices finish_init
    init_index_table state_change sb_of get_index_size allocate_init_chunks allocate_fresh
    allocate_sized allocate_init_chunks_from_pdev from_pdev attach assign max_chunks
finds = (refl, refl, refl)

keyed : IsKeyed all_free.all_chunks
keyed = (
  λ c e. ground (arith, e),
  (λ c e. ground (arith, e), (λ c e. ground (arith, e), (λ c e. ground (arith, e), tt))),
)

Reach-Synced_example : Synced found.0 found.1 × SameVolume born.0 found.0
Reach-Synced_example = Reach-Synced make_volume-Synced_example.0 (
    next (next (next here (change vol_destroying refl)) (tear_repl_dev true refl))
      (restart torn.0.sb all_free all_free finds.0 keyed finds.1))

-- A removed volume whose chunk 2 is free again, and the task that runs after the new volume was made.
abbrev removed_info : VolumeChunksInfo
removed_info = record {
  chunks = some (chunk 2) ∷ none ∷ none ∷ [];
  max_num_chunks = 3;
  num_active_chunks = 1;
  next_chunk_index = 0;
  ordinal = 1;
  pdev = 3;
}

abbrev late : List ℕ × Selector
late = run_or ([], all_free) (late_resize_task removed_info born.1.volume_chunks)

runs_late : late_resize_task removed_info born.1.volume_chunks ≡ some (late.0, late.1)
unfolding late_resize_task resize_from make_volume init_new init_devices finish_init
    init_index_table state_change sb_of get_index_size allocate_init_chunks allocate_fresh
    allocate_sized allocate_init_chunks_from_pdev from_pdev attach assign max_chunks
runs_late = refl

late_ids : late.0 ≡ 2 ∷ 2 ∷ 3 ∷ []
unfolding late_resize_task resize_from make_volume init_new init_devices finish_init
    init_index_table state_change sb_of get_index_size allocate_init_chunks allocate_fresh
    allocate_sized allocate_init_chunks_from_pdev from_pdev attach assign max_chunks
late_ids = refl

abbrev overwritten : Volume × World
overwritten = update_vol_sb_cb late.0 born.0 (record born.1 { volume_chunks = late.1 })

-- No chunk is in two places.
born_once : (x : ℕ) → places x born.1.volume_chunks ≤ 1
unfolding make_volume init_new init_devices finish_init init_index_table state_change sb_of
    get_index_size allocate_init_chunks allocate_fresh allocate_sized allocate_init_chunks_from_pdev
    from_pdev attach assign max_chunks
born_once x = ground arith

-- The server's volume with the ordinal.
abbrev born_vol : Vol
born_vol = record {
  id = 77;
  ordinal = 1;
  state = vol_online;
  outstanding_reqs = 0;
  destroy_started = false;
}

born_ordinal : born.0.info.ordinal ≡ 1
unfolding make_volume init_new init_devices finish_init init_index_table state_change sb_of
    get_index_size allocate_init_chunks allocate_fresh allocate_sized allocate_init_chunks_from_pdev
    from_pdev attach assign max_chunks
born_ordinal = refl

update_vol_sb_cb-stale_example :
    (taken : List Chunk) × (0 < length taken)
    × (born.0.info.ordinal ≡ 1)
    × (get_chunk_ids overwritten.0.sb ≡ ids_of (present (grown taken removed_info).chunks))
    × (overwritten.1.meta_blk ≡ some overwritten.0.sb)
    × (chunk_ids_of born.0.info.ordinal overwritten.1.volume_chunks
        ≡ chunk_ids_of born.0.info.ordinal born.1.volume_chunks)
    × All (λ c. places c.chunk_id overwritten.1.volume_chunks ≡ 0) taken
update_vol_sb_cb-stale_example =
    update_vol_sb_cb-stale removed_info born.0 born.1 late.0 late.1 (born_vol ∷ []) born_vol
      runs_late refl born_ordinal (rw late_ids (omega arith)) born_once
