-- ===== src/Chunks/Recovery.antt =====
-- `VolumeChunkSelector::recover_chunks` (volume/volume_chunk_selector.cpp): the chunks that the
-- superblock of a volume names go back to it.
use home_blocks.Prelude.{
  ℕ, suc, List, [], ◌∷◌, Bool, true, false, ◌&&◌, Option, none, some, ltb, ◌==◌, if◌then◌else◌,
  length, set, replicate,
}
use home_blocks.Chunks.State.{
  invalid_vol_ordinal, Chunk, VolumeChunksInfo, Pool, Known, Selector, set_ordinal, volume_at,
  place,
}
use home_blocks.Chunks.Ops.{max_chunks}

-- `m_all_chunks[chunk_id]`: a null for an id that is not there, which is then added.
abbrev pub known : ℕ → List Known → Option Chunk
known id [] = none
known id (k ∷ ks) = if k.chunk_id == id then k.chunk else known id ks

abbrev pub add_null : ℕ → List Known → List Known
add_null id [] = record { chunk_id = id; chunk = none } ∷ []
add_null id (k ∷ ks) = if k.chunk_id == id then k ∷ ks else k ∷ add_null id ks

-- `erase(chunk_id)`, and whether it found the chunk.
abbrev pub erase : ℕ → List Chunk → Option (List Chunk)
erase id [] = none
erase id (c ∷ cs) =
    if c.chunk_id == id
    then some cs
    else elim (erase id cs) [ none ↦ none | some ds ↦ some (c ∷ ds) ]

abbrev pub erase_pool : ℕ → ℕ → List Pool → Option (List Pool)
erase_pool pdev id [] = none
erase_pool pdev id (p ∷ ps) =
    if p.pdev == pdev
    then (elim (erase id p.chunks) [
      | none ↦ none
      | some cs ↦ some (record { pdev = p.pdev; chunks = cs } ∷ ps)
    ])
    else elim (erase_pool pdev id ps) [ none ↦ none | some qs ↦ some (p ∷ qs) ]

-- The chunk goes to the volume, which must have room for it. The chunk must be of the volume's device
-- and without a volume, and in the pool of its device.
unfoldable pub recover_chunk :
    ℕ → ℕ → ℕ → Chunk → VolumeChunksInfo → Selector → Option (VolumeChunksInfo × Selector)
recover_chunk ordinal idx id c v s =
    if s.vol_ordinal c.chunk_id == invalid_vol_ordinal
      && (c.pdev_id == v.pdev && ltb idx (length v.chunks))
    then (elim (erase_pool c.pdev_id id s.per_dev_chunks) [
      | none ↦ none
      | some pools ↦ some (
        record v { chunks = place idx (c ∷ []) v.chunks },
        record s {
          per_dev_chunks = pools;
          vol_ordinal = set_ordinal s.vol_ordinal c.chunk_id ordinal;
        },
      )
    ])
    else none

abbrev pub with_volume : ℕ → VolumeChunksInfo → Selector → Selector
with_volume ordinal v s = record s { volume_chunks = set s.volume_chunks ordinal (some v) }

-- The loop. `v` is the volume so far.
unfoldable pub recover_loop :
    ℕ → ℕ → List ℕ → VolumeChunksInfo → Selector → Option (Bool × Selector)
recover_loop ordinal idx [] v s = some (true, with_volume ordinal v s)
recover_loop ordinal idx (id ∷ ids) v s = elim (known id s.all_chunks) [
  | none ↦ some (false, with_volume ordinal v (record s { all_chunks = add_null id s.all_chunks }))
  | some c ↦ elim (recover_chunk ordinal idx id c v s) [
    | none ↦ none
    | some r ↦ recover_loop ordinal (suc idx) ids r.0 r.1
  ]
]

-- A fresh volume, whose slots are all empty.
abbrev pub recovered : ℕ → ℕ → ℕ → ℕ → VolumeChunksInfo
recovered ordinal pdev total active = record {
  chunks = replicate total none;
  max_num_chunks = total;
  num_active_chunks = active;
  next_chunk_index = 0;
  ordinal = ordinal;
  pdev = pdev;
}

unfoldable pub recover_sized :
    ℕ → ℕ → ℕ → List ℕ → Selector → Option Chunk → Option (Bool × Selector)
recover_sized ordinal pdev volume_size ids s none = none
recover_sized ordinal pdev volume_size ids s (some c) =
    if ltb 0 c.size && ltb ordinal (length s.volume_chunks)
    then recover_loop ordinal 0 ids
        (recovered ordinal pdev (max_chunks volume_size c.size) (length ids)) s
    else none

abbrev pub first_chunk : List Known → Option Chunk
first_chunk [] = none
first_chunk (k ∷ ks) = k.chunk

unfoldable pub recover_chunks : ℕ → ℕ → ℕ → List ℕ → Selector → Option (Bool × Selector)
recover_chunks ordinal pdev volume_size ids s = elim (volume_at ordinal s.volume_chunks) [
  | some v ↦ none
  | none ↦ recover_sized ordinal pdev volume_size ids s (first_chunk s.all_chunks)
]
