-- ===== src/Volume/Lives.antt =====
-- What happens to a volume after its creation (volume/volume.cpp, volume/volume.hpp): state changes, more
-- chunks, a destruction that stops half way, and restarts, in any order.
use home_blocks.Prelude.{
  ◌^◌, ◌<◌, ◌≡◌, refl, ap, ap₂, sym, ◌∙◌, subst, Bool, true, List, some, arith, ℕ, length,
  Option-cases, inl, inr,
}
use home_blocks.Manager.State.{VolumeState}
use home_blocks.Chunks.State.{Selector}
use home_blocks.Chunks.Ops.{resize_task, release_chunks}
use home_blocks.Chunks.Reclaim.{IsKeyed}
use home_blocks.Chunks.Answers.{chunk_ids_of}
use home_blocks.Volume.Superblock.{VolumeInfo, VolSb, info_of, get_chunk_ids}
use home_blocks.Volume.Lifecycle.{
  Volume, World, state_change, recover_volume, update_vol_sb_cb, destroy_repl_dev, destroy_index,
}
use home_blocks.Volume.Restart.{
  kept, Synced, state_change-Synced, update_vol_sb_cb-Synced, recover_volume-Synced,
}

-- `tear_down` is `destroy` up to the superblock, and `restart` a new process, whose selectors know the
-- chunks of the devices.
pub data Step (v : Volume) (w : World) : Volume → World → Type 0 where
  change :
      {v' : Volume} {w' : World} (s : VolumeState) → state_change s v w ≡ (v', w') → Step v w v' w'
  grow :
      {v' : Volume} {w' : World} (ids : List ℕ) (s : Selector)
      → resize_task v.info.ordinal w.volume_chunks ≡ some (ids, s)
      → length ids < 2 ^ 32
      → update_vol_sb_cb ids v (record w { volume_chunks = s }) ≡ (v', w')
      → Step v w v' w'
  tear_repl_dev :
      {v' : Volume} {w' : World} (removed : Bool)
      → destroy_repl_dev removed v w ≡ (v', w')
      → Step v w v' w'
  tear_index : {v' : Volume} {w' : World} → destroy_index v w ≡ some (v', w') → Step v w v' w'
  restart :
      {v' : Volume} {w' : World} (sb : VolSb) (s t : Selector)
      → w.meta_blk ≡ some sb
      → IsKeyed s.all_chunks
      → recover_volume sb (record w { volume_chunks = s; index_chunks = t }) ≡ some (true, v', w')
      → Step v w v' w'

pub data Reach (v : Volume) (w : World) : Volume → World → Type 0 where
  here : Reach v w v w
  next :
      {v' v'' : Volume} {w' w'' : World} → Reach v w v' w' → Step v' w' v'' w'' → Reach v w v'' w''

-- What no step changes.
pub record SameVolume (v v' : Volume) : Type 0 where
  pub id : v'.info.id ≡ v.info.id
  pub ordinal : v'.info.ordinal ≡ v.info.ordinal
  pub size : v'.info.size_bytes ≡ v.info.size_bytes
  pub page : v'.info.page_size ≡ v.info.page_size

-- A step that leaves the superblock, the state, the meta block and the chunks alone.
kept-Synced :
    (v v' : Volume) (w w' : World)
    → v'.sb ≡ v.sb
    → v'.m_state ≡ v.m_state
    → v'.info ≡ v.info
    → w'.meta_blk ≡ w.meta_blk
    → w'.volume_chunks ≡ w.volume_chunks
    → Synced v w
    → Synced v' w'
kept-Synced v v' w w' sb state info meta chunks h = record {
  stored = meta ∙ h.stored ∙ ap some (sym sb);
  state = state ∙ h.state ∙ ap (λ (b : VolSb). b.state) (sym sb);
  info = ap info_of sb ∙ h.info ∙ ap kept (sym info);
  page = subst (λ (j : VolumeInfo). j.page_size < 2 ^ 32) (sym info) h.page;
  chunks =
      ap get_chunk_ids sb
      ∙ h.chunks
      ∙ ap₂ (λ (j : VolumeInfo) (s : Selector). chunk_ids_of j.ordinal s) (sym info) (sym chunks);
}

same_info : (v v' : Volume) → v'.info ≡ v.info → SameVolume v v'
same_info v v' e = record {
  id = ap (λ (j : VolumeInfo). j.id) e;
  ordinal = ap (λ (j : VolumeInfo). j.ordinal) e;
  size = ap (λ (j : VolumeInfo). j.size_bytes) e;
  page = ap (λ (j : VolumeInfo). j.page_size) e;
}

module _ (v : Volume) (w : World) (v' : Volume) (w' : World) (h : Synced v w) where
  change-Synced : (s : VolumeState) → state_change s v w ≡ (v', w') → Synced v' w' × SameVolume v v'
  unfolding state_change
  change-Synced s e = (
    subst (λ (p : Volume × World). Synced p.0 p.1) e (state_change-Synced s v w h).0,
    same_info v v' (ground (arith, e)),
  )

  tear_repl_dev-Synced :
      (removed : Bool) → destroy_repl_dev removed v w ≡ (v', w') → Synced v' w' × SameVolume v v'
  unfolding destroy_repl_dev
  tear_repl_dev-Synced removed e = (
    kept-Synced v v' w w' (ground (arith, e)) (ground (arith, e)) (ground (arith, e))
        (ground (arith, e)) (ground (arith, e)) h,
    same_info v v' (ground (arith, e)),
  )

  tear_index-Synced : destroy_index v w ≡ some (v', w') → Synced v' w' × SameVolume v v'
  unfolding destroy_index
  tear_index-Synced e = elim (Option-cases (release_chunks v.info.ordinal w.index_chunks)) [
    | inl f ↦ (
      kept-Synced v v' w w' (ground (arith, e, f)) (ground (arith, e, f)) (ground (arith, e, f))
          (ground (arith, e, f)) (ground (arith, e, f)) h,
      same_info v v' (ground (arith, e, f)),
    )
    | inr (s, f) ↦ (
      kept-Synced v v' w w' (ground (arith, e, f)) (ground (arith, e, f)) (ground (arith, e, f))
          (ground (arith, e, f)) (ground (arith, e, f)) h,
      same_info v v' (ground (arith, e, f)),
    )
  ]

  grow-Synced :
      (ids : List ℕ) (s : Selector)
      → resize_task v.info.ordinal w.volume_chunks ≡ some (ids, s)
      → length ids < 2 ^ 32
      → update_vol_sb_cb ids v (record w { volume_chunks = s }) ≡ (v', w')
      → Synced v' w' × SameVolume v v'
  grow-Synced ids s task few e =
      let (sync, state, info) = update_vol_sb_cb-Synced ids v w h few s task in
      (
        subst (λ (p : Volume × World). Synced p.0 p.1) e sync,
        same_info v v' (ap (λ (p : Volume × World). p.0.info) (sym e) ∙ info),
      )

  restart-Synced :
      (sb : VolSb) (s t : Selector)
      → w.meta_blk ≡ some sb
      → IsKeyed s.all_chunks
      → recover_volume sb (record w { volume_chunks = s; index_chunks = t }) ≡ some (true, v', w')
      → Synced v' w' × SameVolume v v'
  restart-Synced sb s t m keyed r =
      let own : sb ≡ v.sb = cc (m, h.stored) in
      let w₁ = record w { volume_chunks = s; index_chunks = t } in
      let (sync, state, info, chunks) =
        recover_volume-Synced v w s t v' w' h keyed
          (ap (λ (b : VolSb). recover_volume b w₁) (sym own) ∙ r) in
      (
        sync,
        record {
          id = ap (λ (j : VolumeInfo). j.id) info;
          ordinal = ap (λ (j : VolumeInfo). j.ordinal) info;
          size = ap (λ (j : VolumeInfo). j.size_bytes) info;
          page = ap (λ (j : VolumeInfo). j.page_size) info;
        },
      )

Step-Synced :
    {v v' : Volume} {w w' : World} → Step v w v' w' → Synced v w → Synced v' w' × SameVolume v v'
Step-Synced {v} {v'} {w} {w'} (change s e) h = change-Synced v w v' w' h s e
Step-Synced {v} {v'} {w} {w'} (grow ids s task few e) h = grow-Synced v w v' w' h ids s task few e
Step-Synced {v} {v'} {w} {w'} (tear_repl_dev removed e) h =
    tear_repl_dev-Synced v w v' w' h removed e
Step-Synced {v} {v'} {w} {w'} (tear_index e) h = tear_index-Synced v w v' w' h e
Step-Synced {v} {v'} {w} {w'} (restart sb s t m keyed r) h =
    restart-Synced v w v' w' h sb s t m keyed r

-- Whatever happens to a volume, in any order (state changes, growth, a destruction that stops before
-- the superblock, restarts): if its meta block holds its state, its information and the ids of its
-- chunks, then this is so afterwards, and its id, ordinal, size and page size are the same.
pub Reach-Synced :
    {v : Volume} {w : World} {v' : Volume} {w' : World}
    → Synced v w
    → Reach v w v' w'
    → Synced v' w' × SameVolume v v'
Reach-Synced {v} h here = (h, same_info v v refl)
Reach-Synced h (next r step) =
    let (sync, same) = Reach-Synced h r in
    let (sync', same') = Step-Synced step sync in
    (
      sync',
      record {
        id = same'.id ∙ same.id;
        ordinal = same'.ordinal ∙ same.ordinal;
        size = same'.size ∙ same.size;
        page = same'.page ∙ same.page;
      },
    )
