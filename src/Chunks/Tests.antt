-- ===== src/Chunks/Tests.antt =====
-- Two devices with three chunks and one, and a volume that takes two of the first device's chunks.
use home_blocks.Prelude.{
  ℕ, ◌≤◌, ◌≡◌, ◌≢◌, refl, true, false, [], ◌∷◌, none, some, arith, ◌==◌, if◌then◌else◌, replicate,
}
use home_blocks.Chunks.State.{
  invalid_vol_ordinal, Chunk, VolumeChunksInfo, Selector, idle, volume_at,
}
use home_blocks.Chunks.Ops.{
  from_pdev, allocate_init_chunks_from_pdev, resize_from, assign, max_chunks, attach,
  allocate_sized, allocate_fresh, allocate_init_chunks, release_chunks, resize_volume_num_chunks,
  add_chunks, resize_task,
}
use home_blocks.Chunks.Recovery.{recover_chunk, recover_loop, recover_sized, recover_chunks}
use home_blocks.Chunks.Count.{places}
use home_blocks.Chunks.Conservation.{allocate_init_chunks-places, resize_task-places}
use home_blocks.Chunks.Reclaim.{IsKeyed}
use home_blocks.Chunks.Select.{sweep, sweep-finds}
use home_blocks.Chunks.Resize.{Call, resize, any_starts, resize_volume_num_chunks_stuck}

abbrev chunk : ℕ → ℕ → Chunk
chunk id pdev = record { chunk_id = id; pdev_id = pdev; size = 1000; total_blks = 10 }

abbrev nothing : Selector
nothing = record {
  all_chunks = [];
  per_dev_chunks = [];
  volume_chunks = replicate 4 none;
  vol_ordinal = λ _. 0;
  resize_op = idle;
}

-- The selector after `add_chunk` for each chunk.
abbrev all_free : Selector
all_free = record {
  all_chunks =
      record { chunk_id = 1; chunk = some (chunk 1 0) }
      ∷ record { chunk_id = 2; chunk = some (chunk 2 0) }
      ∷ record { chunk_id = 3; chunk = some (chunk 3 0) }
      ∷ record { chunk_id = 9; chunk = some (chunk 9 1) }
      ∷ [];
  per_dev_chunks =
      record { pdev = 1; chunks = chunk 9 1 ∷ [] }
      ∷ record { pdev = 0; chunks = chunk 1 0 ∷ chunk 2 0 ∷ chunk 3 0 ∷ [] }
      ∷ [];
  volume_chunks = none ∷ none ∷ none ∷ none ∷ [];
  vol_ordinal = λ _. invalid_vol_ordinal;
  resize_op = idle;
}

-- A volume of 2500 bytes gets one chunk, and room for three.
abbrev allocated : Selector
allocated = elim (allocate_init_chunks true 2 2500 all_free) [ none ↦ all_free | some r ↦ r.1 ]

allocates : allocate_init_chunks true 2 2500 all_free ≡ some ((1 ∷ [], some 0), allocated)
unfolding allocate_init_chunks allocate_fresh allocate_sized allocate_init_chunks_from_pdev
    from_pdev attach assign max_chunks
allocates = refl

allocate_init_chunks-places_example : places 1 allocated ≡ places 1 all_free
allocate_init_chunks-places_example =
    allocate_init_chunks-places 1 true 2 2500 all_free (1 ∷ [], some 0) allocated allocates

once : (y : ℕ) → places y all_free ≤ 1
once y = ground arith

allocated-once : (y : ℕ) → places y allocated ≤ 1
allocated-once y = omega (
  arith,
  once y,
  allocate_init_chunks-places y true 2 2500 all_free (1 ∷ [], some 0) allocated allocates,
)

abbrev released : Selector
released = elim (release_chunks 2 allocated) [ none ↦ all_free | some s ↦ s ]

releases : release_chunks 2 allocated ≡ some released
unfolding release_chunks allocate_init_chunks allocate_fresh allocate_sized
    allocate_init_chunks_from_pdev from_pdev attach assign max_chunks
releases = refl

-- The volume with its first chunk.
abbrev thin : VolumeChunksInfo
thin = record {
  chunks = some (chunk 1 0) ∷ none ∷ none ∷ [];
  max_num_chunks = 3;
  num_active_chunks = 1;
  next_chunk_index = 0;
  ordinal = 2;
  pdev = 0;
}

has_thin : volume_at 2 allocated.volume_chunks ≡ some thin
unfolding allocate_init_chunks allocate_fresh allocate_sized allocate_init_chunks_from_pdev
    from_pdev attach assign max_chunks
has_thin = refl

abbrev resized : Selector
resized = elim (resize_task 2 allocated) [ none ↦ all_free | some r ↦ r.1 ]

resizes : resize_task 2 allocated ≡ some (1 ∷ 2 ∷ 3 ∷ [], resized)
unfolding resize_task resize_from add_chunks allocate_init_chunks allocate_fresh allocate_sized
    allocate_init_chunks_from_pdev from_pdev attach assign max_chunks
resizes = refl

resize_task-places_example : places 3 resized ≡ places 3 allocated
resize_task-places_example =
    resize_task-places 3 2 allocated thin (1 ∷ 2 ∷ 3 ∷ []) resized has_thin tt resizes

abbrev recovered_sel : Selector
recovered_sel = elim (recover_chunks 1 0 2500 (1 ∷ 2 ∷ []) all_free) [
  | none ↦ all_free
  | some r ↦ r.1
]

recovers : recover_chunks 1 0 2500 (1 ∷ 2 ∷ []) all_free ≡ some (true, recovered_sel)
unfolding recover_chunks recover_sized recover_loop recover_chunk max_chunks
recovers = refl

all_free-IsKeyed : IsKeyed all_free.all_chunks
all_free-IsKeyed = (
  λ c e. ground (arith, e),
  (λ c e. ground (arith, e), (λ c e. ground (arith, e), (λ c e. ground (arith, e), tt))),
)

-- Ten blocks are left in each chunk but the first.
abbrev left : Chunk → ℕ
left c = if c.chunk_id == 1 then 0 else 10

sweep-finds_example : (sweep left (some (chunk 1 0) ∷ some (chunk 2 0) ∷ none ∷ []) 2 2 7).0 ≢ none
sweep-finds_example =
    sweep-finds left (some (chunk 1 0) ∷ some (chunk 2 0) ∷ none ∷ []) 2 7 1 (chunk 2 0)
      (omega arith) (omega arith) refl

-- Five blocks are asked for, and ten of ten are left; then none are.
abbrev easy : Call
easy = record { available = λ c. 10; nblks = 5; volume = thin }

abbrev hard : Call
hard = record { available = λ c. 0; nblks = 5; volume = thin }

starts_nothing : (resize easy all_free).1 ≡ false
unfolding resize_volume_num_chunks
starts_nothing = refl

resize_volume_num_chunks_stuck_example :
    any_starts (hard ∷ hard ∷ []) (resize easy all_free).0 ≡ false
resize_volume_num_chunks_stuck_example =
    resize_volume_num_chunks_stuck easy (hard ∷ hard ∷ []) all_free refl starts_nothing
