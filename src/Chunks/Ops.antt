-- ===== src/Chunks/Ops.antt =====
-- The operations of `VolumeChunkSelector` (volume/volume_chunk_selector.cpp). `none` is a process that
-- stops: a RELEASE_ASSERT that fails, a null that is used, or a write past the end of a vector.
use home_blocks.Prelude.{
  ℕ, ◌+◌, ◌-◌, ◌*◌, ◌/◌, ◌%◌, ◌^◌, min, max, Bool, true, false, ◌&&◌, List, [], ◌∷◌, map, Option,
  none, some, ltb, leb, ◌==◌, if◌then◌else◌, length, set, take, drop, replicate,
}
use home_blocks.Chunks.State.{
  num_chunks_per_vol_init, num_chunks_per_resize, invalid_vol_ordinal, Chunk, VolumeChunksInfo,
  idle, in_progress, Pool, Known, Selector, add_to_pools, add_known, set_ordinal, volume_at,
  present, place,
}

-- A new `HBChunk` has no volume. HomeStore gives each chunk id once.
unfoldable pub add_chunk : Chunk → Selector → Selector
add_chunk c s = record s {
  all_chunks = add_known c s.all_chunks;
  per_dev_chunks = add_to_pools c s.per_dev_chunks;
  vol_ordinal = set_ordinal s.vol_ordinal c.chunk_id invalid_vol_ordinal;
}

-- The first device that has `total` chunks gives `init` of them.
unfoldable pub from_pdev : ℕ → ℕ → List Pool → List Chunk × List Pool
from_pdev init total [] = ([], [])
from_pdev init total (p ∷ ps) =
    let (chunks, rest) = from_pdev init total ps in
    if leb total (length p.chunks)
    then (take init p.chunks, record { pdev = p.pdev; chunks = drop init p.chunks } ∷ ps)
    else (chunks, p ∷ rest)

unfoldable pub allocate_init_chunks_from_pdev : ℕ → ℕ → List Pool → Option (List Chunk × List Pool)
allocate_init_chunks_from_pdev init total pools =
    if leb init total then some (from_pdev init total pools) else none

-- The pool of one device, where `operator[]` adds an empty pool for a device it does not know.
unfoldable pub resize_from : ℕ → ℕ → List Pool → Option (List Chunk × List Pool)
resize_from pdev n [] =
    if leb n 0 then some ([], record { pdev = pdev; chunks = [] } ∷ []) else none
resize_from pdev n (p ∷ ps) =
    let rest = resize_from pdev n ps in
    if p.pdev == pdev
    then (if leb n (length p.chunks)
        then some (take n p.chunks, record { pdev = p.pdev; chunks = drop n p.chunks } ∷ ps)
        else none)
    else elim rest [ none ↦ none | some r ↦ some (r.0, p ∷ r.1) ]

-- `chunk->m_vol_ordinal = volume_ordinal`, where each chunk must be without a volume.
unfoldable pub assign : ℕ → List Chunk → (ℕ → ℕ) → Option (ℕ → ℕ)
assign ordinal [] f = some f
assign ordinal (c ∷ cs) f =
    let rest = assign ordinal cs (set_ordinal f c.chunk_id ordinal) in
    if f c.chunk_id == invalid_vol_ordinal then rest else none

-- `std::max(1UL, (volume_size + chunk_size - 1) / chunk_size)` in 64-bit words
unfoldable pub max_chunks : ℕ → ℕ → ℕ
max_chunks volume_size chunk_size =
    max 1 ((volume_size + chunk_size + 2 ^ 64 - 1) % 2 ^ 64 / chunk_size)

abbrev pub ids_of : List Chunk → List ℕ
ids_of = map (λ c. c.chunk_id)

-- `VolumeChunksInfo` with its first chunks.
abbrev pub started : ℕ → ℕ → ℕ → Chunk → List Chunk → VolumeChunksInfo
started ordinal total active c cs = record {
  chunks = place 0 (c ∷ cs) (replicate total none);
  max_num_chunks = total;
  num_active_chunks = active;
  next_chunk_index = 0;
  ordinal = ordinal;
  pdev = c.pdev_id;
}

-- The new volume's information, once its chunks are found. The answer is their ids and the device.
unfoldable pub attach :
    ℕ → ℕ → ℕ → List Chunk × List Pool → Selector → Option ((List ℕ × Option ℕ) × Selector)
attach ordinal total active ([], pools) s = some (([], none), record s { per_dev_chunks = pools })
attach ordinal total active (c ∷ cs, pools) s = elim (assign ordinal (c ∷ cs) s.vol_ordinal) [
  | none ↦ none
  | some f ↦
      if leb (length (c ∷ cs)) total && ltb ordinal (length s.volume_chunks)
      then some (
        (ids_of (c ∷ cs), some c.pdev_id),
        record s {
          per_dev_chunks = pools;
          volume_chunks = set s.volume_chunks ordinal (some (started ordinal total active c cs));
          vol_ordinal = f;
        },
      )
      else none
]

unfoldable pub allocate_sized : Bool → ℕ → ℕ → Selector → Option ((List ℕ × Option ℕ) × Selector)
allocate_sized lazy_alloc ordinal total s =
    let active = if lazy_alloc then min total num_chunks_per_vol_init else total in
    elim (allocate_init_chunks_from_pdev active total s.per_dev_chunks) [
      | none ↦ none
      | some found ↦ attach ordinal total active found s
    ]

unfoldable pub allocate_fresh :
    Bool → ℕ → ℕ → List Known → Selector → Option ((List ℕ × Option ℕ) × Selector)
allocate_fresh lazy_alloc ordinal volume_size [] s = some (([], none), s)
allocate_fresh lazy_alloc ordinal volume_size (k ∷ ks) s = elim k.chunk [
  | none ↦ none
  | some c ↦
      if leb c.size 0
      then none
      else allocate_sized lazy_alloc ordinal (max_chunks volume_size c.size) s
]

-- A volume that has chunks already gets their ids, and no device.
unfoldable pub allocate_init_chunks :
    Bool → ℕ → ℕ → Selector → Option ((List ℕ × Option ℕ) × Selector)
allocate_init_chunks lazy_alloc ordinal volume_size s =
    if ltb ordinal (length s.volume_chunks)
    then (elim (volume_at ordinal s.volume_chunks) [
      | some v ↦ some ((ids_of (present v.chunks), none), s)
      | none ↦ allocate_fresh lazy_alloc ordinal volume_size s.all_chunks s
    ])
    else none

abbrev pub add_all : List Chunk → List Pool → List Pool
add_all [] pools = pools
add_all (c ∷ cs) pools = add_all cs (add_to_pools c pools)

abbrev pub clear_ordinals : List Chunk → (ℕ → ℕ) → ℕ → ℕ
clear_ordinals [] f = f
clear_ordinals (c ∷ cs) f = clear_ordinals cs (set_ordinal f c.chunk_id invalid_vol_ordinal)

unfoldable pub release_chunks : ℕ → Selector → Option Selector
release_chunks ordinal s = elim (volume_at ordinal s.volume_chunks) [
  | none ↦ none
  | some v ↦ some record s {
    per_dev_chunks = add_all (present v.chunks) s.per_dev_chunks;
    volume_chunks = set s.volume_chunks ordinal none;
    vol_ordinal = clear_ordinals (present v.chunks) s.vol_ordinal;
  }
]

abbrev pub sum_of : (Chunk → ℕ) → List Chunk → ℕ
sum_of f [] = 0
sum_of f (c ∷ cs) = f c + sum_of f cs

-- `nblks < available_blks && usage_ratio > 0.5`, the quotient of `float`s being exact up to 2^24 blocks.
abbrev pub enough_left : ℕ → ℕ → ℕ → Bool
enough_left nblks available total = ltb nblks available && ltb total (2 * available)

-- The new state, and whether the task that adds chunks is started. `available` gives the blocks that a
-- chunk has left.
unfoldable pub resize_volume_num_chunks :
    (Chunk → ℕ) → ℕ → VolumeChunksInfo → Selector → Selector × Bool
resize_volume_num_chunks available nblks v s = elim s.resize_op [
  | in_progress ↦ (s, false)
  | idle ↦ (
    (record s { resize_op = in_progress }),
    if enough_left nblks (sum_of available (present v.chunks))
          (sum_of (λ c. c.total_blks) (present v.chunks))
        then false
        else true,
  )
]

-- The chunks of the volume once the new ones stand behind the active ones.
abbrev pub grown : List Chunk → VolumeChunksInfo → VolumeChunksInfo
grown cs v = record v {
  chunks = place v.num_active_chunks cs v.chunks;
  num_active_chunks = v.num_active_chunks + length cs;
}

unfoldable pub add_chunks :
    ℕ → VolumeChunksInfo → List Chunk × List Pool → Selector → Option (List ℕ × Selector)
add_chunks ordinal v ([], pools) s = none
add_chunks ordinal v (c ∷ cs, pools) s =
    if leb (v.num_active_chunks + length (c ∷ cs)) (length v.chunks)
    then some (
      ids_of (present (grown (c ∷ cs) v).chunks),
      record s {
        per_dev_chunks = pools;
        volume_chunks = set s.volume_chunks ordinal (some (grown (c ∷ cs) v));
        resize_op = idle;
      },
    )
    else none

-- The task, run while the volume is there. The answer is what goes to the volume's superblock.
unfoldable pub resize_task : ℕ → Selector → Option (List ℕ × Selector)
resize_task ordinal s = elim (volume_at ordinal s.volume_chunks) [
  | none ↦ none
  | some v ↦
      elim (resize_from v.pdev
        (min num_chunks_per_resize ((v.max_num_chunks + 2 ^ 64 - v.num_active_chunks) % 2 ^ 64))
        s.per_dev_chunks) [ none ↦ none | some found ↦ add_chunks ordinal v found s ]
]

unfoldable pub get_chunks : ℕ → Selector → Option (List Chunk)
get_chunks ordinal s =
    if ltb ordinal (length s.volume_chunks)
    then (elim (volume_at ordinal s.volume_chunks) [
      | none ↦ some []
      | some v ↦ some (present v.chunks)
    ])
    else none

abbrev pub free_in : List Pool → ℕ
free_in [] = 0
free_in (p ∷ ps) = length p.chunks + free_in ps

unfoldable pub num_free_chunks : Selector → ℕ
num_free_chunks s = free_in s.per_dev_chunks
