-- ===== src/Chunks/State.antt =====
-- The state of `VolumeChunkSelector` and its access to the maps (volume/volume_chunk_selector.hpp).
-- An `unordered_map` is the list of its entries in the order in which it is iterated over.
use home_blocks.Prelude.{
  ℕ, zero, suc, ◌-◌, ◌^◌, List, [], ◌∷◌, Option, none, some, ◌==◌, if◌then◌else◌,
}

abbrev pub num_chunks_per_vol_init : ℕ
num_chunks_per_vol_init = 1

abbrev pub num_chunks_per_resize : ℕ
num_chunks_per_resize = 3

abbrev pub invalid_vol_ordinal : ℕ
invalid_vol_ordinal = 2 ^ 64 - 1

-- `HBChunk`. Its `m_vol_ordinal` changes and is kept in the state of the selector.
pub record Chunk : Type 0 where
  pub chunk_id : ℕ
  pub pdev_id : ℕ
  pub size : ℕ
  pub total_blks : ℕ

-- `VolumeChunksInfo`: `m_chunks` has a null for each chunk that is not allocated yet.
pub record VolumeChunksInfo : Type 0 where
  pub chunks : List (Option Chunk)
  pub max_num_chunks : ℕ
  pub num_active_chunks : ℕ
  pub next_chunk_index : ℕ
  pub ordinal : ℕ
  pub pdev : ℕ

pub data ResizeOp : Type 0 where
  idle : ResizeOp
  in_progress : ResizeOp

-- An entry of `m_per_dev_chunks`.
pub record Pool : Type 0 where
  pub pdev : ℕ
  pub chunks : List Chunk

-- An entry of `m_all_chunks`, where `operator[]` of a missing id leaves a null.
pub record Known : Type 0 where
  pub chunk_id : ℕ
  pub chunk : Option Chunk

pub record Selector : Type 0 where
  pub all_chunks : List Known
  pub per_dev_chunks : List Pool
  pub volume_chunks : List (Option VolumeChunksInfo)
  pub vol_ordinal : ℕ → ℕ
  pub resize_op : ResizeOp

-- `unordered_map::emplace`: an entry with the same id stays.
unfoldable pub emplace : Chunk → List Chunk → List Chunk
emplace c [] = c ∷ []
emplace c (d ∷ ds) =
    let rest = emplace c ds in if d.chunk_id == c.chunk_id then d ∷ ds else d ∷ rest

-- `m_per_dev_chunks[pdev_id].emplace(chunk_id, chunk)`
unfoldable pub add_to_pools : Chunk → List Pool → List Pool
add_to_pools c [] = record { pdev = c.pdev_id; chunks = c ∷ [] } ∷ []
add_to_pools c (p ∷ ps) =
    let rest = add_to_pools c ps in
    if p.pdev == c.pdev_id
    then record { pdev = p.pdev; chunks = emplace c p.chunks } ∷ ps
    else p ∷ rest

-- `m_all_chunks.emplace(chunk_id, vol_chunk)`
unfoldable pub add_known : Chunk → List Known → List Known
add_known c [] = record { chunk_id = c.chunk_id; chunk = some c } ∷ []
add_known c (k ∷ ks) =
    let rest = add_known c ks in if k.chunk_id == c.chunk_id then k ∷ ks else k ∷ rest

abbrev pub set_ordinal : (ℕ → ℕ) → ℕ → ℕ → ℕ → ℕ
set_ordinal f chunk_id ordinal x = if x == chunk_id then ordinal else f x

-- The volume at an ordinal; `none` out of range and for a null.
abbrev pub volume_at : ℕ → List (Option VolumeChunksInfo) → Option VolumeChunksInfo
volume_at i [] = none
volume_at zero (v ∷ vs) = v
volume_at (suc i) (v ∷ vs) = volume_at i vs

abbrev pub present : List (Option Chunk) → List Chunk
present [] = []
present (none ∷ cs) = present cs
present (some c ∷ cs) = c ∷ present cs

-- `volc->m_chunks[idx] = chunk`, for one chunk after the other.
abbrev pub place : ℕ → List Chunk → List (Option Chunk) → List (Option Chunk)
place idx cs [] = []
place (suc idx) cs (s ∷ ss) = s ∷ place idx cs ss
place zero [] (s ∷ ss) = s ∷ ss
place zero (c ∷ cs) (s ∷ ss) = some c ∷ place zero cs ss
