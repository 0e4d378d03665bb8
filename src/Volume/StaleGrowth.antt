-- ===== src/Volume/StaleGrowth.antt =====
-- A volume that has the ordinal of a removed one, and the task that was to add chunks to that one
-- (volume/volume_chunk_selector.cpp and, for the callback, volume_mgr.cpp and volume/volume.cpp).
use home_blocks.Prelude.{
  ℕ, ◌+◌, ◌^◌, ◌<◌, ◌≤◌, ◌≡◌, refl, ap, sym, ◌∙◌, List, [], ◌∷◌, some, arith, length, All, ◌==◌,
  ==_iff, Bool-cases, inl, inr,
}
use home_blocks.Manager.State.{Vol}
use home_blocks.Manager.Recovery.{find_ordinal}
use home_blocks.Chunks.State.{Chunk, VolumeChunksInfo, Selector, present, volume_at}
use home_blocks.Chunks.Ops.{ids_of, grown}
use home_blocks.Chunks.Count.{count, places}
use home_blocks.Chunks.Answers.{ids_at, chunk_ids_of}
use home_blocks.Chunks.LateResize.{late_resize_task, late_resize_task-Late}
use home_blocks.Volume.Superblock.{get_chunk_ids, get_chunk_ids-sb_of}
use home_blocks.Volume.Lifecycle.{Volume, World, update_vol_sb_cb}

find_ordinal-ordinal :
    (n : ℕ) (vs : List Vol) (u : Vol) → find_ordinal n vs ≡ some u → u.ordinal ≡ n
find_ordinal-ordinal n [] u h = absurd (ground (arith, h))
find_ordinal-ordinal n (w ∷ vs) u h = elim (Bool-cases (w.ordinal == n)) [
  | inl e ↦
      let same : w ≡ u = ground (arith, h, e) in
      ap (λ (x : Vol). x.ordinal) (sym same) ∙ (==_iff w.ordinal n).0 e
  | inr e ↦ find_ordinal-ordinal n vs u (ground (arith, h, e))
]

-- Chunks that were taken out of their only place are in no place.
nowhere :
    (s t : Selector) (all cs : List Chunk)
    → ((x : ℕ) → places x s ≤ 1)
    → ((x : ℕ) → places x t + count x all ≡ places x s)
    → ((x : ℕ) → count x cs ≤ count x all)
    → All (λ c. places c.chunk_id t ≡ 0) cs
nowhere s t all [] once lost sub = tt
nowhere s t all (c ∷ cs) once lost sub = (
  let here : 0 < count c.chunk_id (c ∷ cs) =
        rw ((==_iff c.chunk_id c.chunk_id).1 refl) (omega arith) in
      omega (arith, here, once c.chunk_id, lost c.chunk_id, sub c.chunk_id),
  nowhere s t all cs once lost (λ x. omega (arith, sub x)),
)

-- A task runs after its volume was released, and the server finds a volume for its ordinal, whose state
-- is `v`. The superblock of this one then names the chunks of the removed volume and the new ones instead
-- of its own, which the selector still has for it. There is a new chunk, and, where no chunk was in two
-- places, each new one is in no volume and in no pool.
pub update_vol_sb_cb-stale :
    (removed : VolumeChunksInfo) (v : Volume) (w : World) (ids : List ℕ) (s : Selector)
    (vols : List Vol) (u : Vol)
    → late_resize_task removed w.volume_chunks ≡ some (ids, s)
    → find_ordinal removed.ordinal vols ≡ some u
    → v.info.ordinal ≡ u.ordinal
    → length ids < 2 ^ 32
    → ((x : ℕ) → places x w.volume_chunks ≤ 1)
    → let (v', w') = update_vol_sb_cb ids v (record w { volume_chunks = s }) in
      (taken : List Chunk) × (0 < length taken)
      × (v.info.ordinal ≡ removed.ordinal)
      × (get_chunk_ids v'.sb ≡ ids_of (present (grown taken removed).chunks))
      × (w'.meta_blk ≡ some v'.sb)
      × (chunk_ids_of v.info.ordinal w'.volume_chunks ≡ chunk_ids_of v.info.ordinal w.volume_chunks)
      × All (λ c. places c.chunk_id w'.volume_chunks ≡ 0) taken
unfolding update_vol_sb_cb
update_vol_sb_cb-stale removed v w ids s vols u h found own few once =
    let late = late_resize_task-Late removed w.volume_chunks ids s h in
    (
      late.taken,
      late.some_taken,
      own ∙ find_ordinal-ordinal removed.ordinal vols u found,
      get_chunk_ids-sb_of v.info v.sb.pdev_id ids v.sb few ∙ late.answer,
      refl,
      ap (λ vs. ids_at (volume_at v.info.ordinal vs)) late.volumes,
      nowhere w.volume_chunks s late.taken late.taken once late.lost (λ x. omega arith),
    )
