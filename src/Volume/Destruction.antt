-- ===== src/Volume/Destruction.antt =====
-- `volume::destroy` (volume/volume.cpp) takes back what the creation of the volume did.
use home_blocks.Prelude.{
  ℕ, ◌≤◌, ◌≡◌, refl, ap, sym, ◌∙◌, subst, Bool, true, false, not, List, ◌∷◌, none, some, arith,
  if◌then◌else◌, Option-cases, inl, inr,
}
use home_blocks.Manager.State.{vol_init}
use home_blocks.Chunks.State.{Selector, volume_at}
use home_blocks.Chunks.Ops.{release_chunks}
use home_blocks.Chunks.Count.{count_free, places}
use home_blocks.Chunks.Answers.{chunk_ids_of, allocate_init_chunks-ids}
use home_blocks.Chunks.RoundTrip.{release_chunks-allocate_init_chunks}
use home_blocks.Volume.Superblock.{VolumeInfo, VolSb}
use home_blocks.Volume.Lifecycle.{
  Volume, World, make_volume, destroy_repl_dev, destroy_index, destroy_sb, destroy,
}
use home_blocks.Volume.Devices.{Allocated, make_volume-Created}

-- The volumes are the same, and each chunk is as often in the pools.
abbrev pub Restored : Selector → Selector → Type 0
Restored s t =
    (t.volume_chunks ≡ s.volume_chunks)
    × ((x : ℕ) → count_free x t.per_dev_chunks ≡ count_free x s.per_dev_chunks)

-- No chunk is in two places, and the ordinal has no volume.
pub record IsReady (ordinal : ℕ) (s : Selector) : Type 0 where
  pub once : (y : ℕ) → places y s ≤ 1
  pub vacant : volume_at ordinal s.volume_chunks ≡ none

release_chunks-some :
    (ordinal id : ℕ) (ids : List ℕ) (s : Selector)
    → chunk_ids_of ordinal s ≡ id ∷ ids
    → (t : Selector) × (release_chunks ordinal s ≡ some t)
unfolding release_chunks
release_chunks-some ordinal id ids s h = elim (Option-cases (release_chunks ordinal s)) [
  | inr r ↦ r
  | inl e ↦ elim (Option-cases (volume_at ordinal s.volume_chunks)) [
    | inl f ↦ absurd (ground (arith, h, f))
    | inr (v, f) ↦ absurd (ground (arith, e, f))
  ]
]

-- What an allocation took is given back.
gives_back :
    (lazy_alloc : Bool) (ordinal size : ℕ) (s s' : Selector)
    → IsReady ordinal s
    → Allocated lazy_alloc ordinal size s s'
    → (t : Selector) × (release_chunks ordinal s' ≡ some t) × Restored s t
gives_back lazy_alloc ordinal size s s' ready a =
    let ids = a.first ∷ a.others in
    let (t, e) =
      release_chunks-some ordinal a.first a.others s'
        (allocate_init_chunks-ids ordinal s ids a.pdev s' ready.vacant lazy_alloc size a.answer) in
    let back = λ (x : ℕ).
      release_chunks-allocate_init_chunks x lazy_alloc ordinal size s (ids, a.pdev) s' t ready.once
        ready.vacant a.answer e in
    (t, e, ((back 0).0, λ x. (back x).1))

destroy-runs :
    (removed : Bool) (v : Volume) (w : World) (ordinal : ℕ) (t u : Selector)
    → v.info.ordinal ≡ ordinal
    → v.rd ≡ true
    → v.indx_tbl ≡ true
    → release_chunks ordinal w.index_chunks ≡ some t
    → release_chunks ordinal w.volume_chunks ≡ some u
    → (v' : Volume) × (w' : World) × (destroy removed v w ≡ some (v', w'))
      × (w' ≡ record {
        volume_chunks = u;
        index_chunks = t;
        meta_blk = none;
        repl_dev = if removed then false else w.repl_dev;
        index_table = false;
      })
unfolding destroy destroy_repl_dev destroy_index destroy_sb
destroy-runs removed v w ordinal t u n rd table e f = (
  record v { rd = false; destroy_started = true; indx_tbl = false },
  record {
    volume_chunks = u;
    index_chunks = t;
    meta_blk = none;
    repl_dev = if removed then false else w.repl_dev;
    index_table = false;
  },
  ground (arith, n, rd, table, e, f),
  refl,
)

device_left : (removed b : Bool) → b ≡ true → (if removed then false else b) ≡ not removed
device_left removed b h = ground (arith, h)

-- A volume that was created where its ordinal had no volume in either selector, and no chunk was in two
-- places, can be destroyed: then its meta block and its index table are gone, its replication device
-- too if HomeStore removed it, and both selectors have the volumes that they had before the creation,
-- and each chunk as often in their pools.
pub destroy-make_volume :
    (made removed : Bool) (unset : ℕ) (blank : VolSb) (i : VolumeInfo) (w : World) (v : Volume)
    (w' : World)
    → blank.state ≡ vol_init
    → IsReady i.ordinal w.volume_chunks
    → IsReady i.ordinal w.index_chunks
    → make_volume made unset blank i w ≡ some (true, v, w')
    → (v'' : Volume) × (w'' : World) × (destroy removed v w' ≡ some (v'', w''))
      × (w''.meta_blk ≡ none)
      × (w''.index_table ≡ false)
      × (w''.repl_dev ≡ not removed)
      × Restored w.volume_chunks w''.volume_chunks
      × Restored w.index_chunks w''.index_chunks
destroy-make_volume made removed unset blank i w v w' b ready index_ready h =
    let c = make_volume-Created made unset blank i w v w' b h in
    let d = c.devices in
    let (u, f, same) =
      gives_back true i.ordinal i.size_bytes w.volume_chunks c.s ready c.allocated in
    let (t, e, index_same) =
      gives_back false i.ordinal d.index_size w.index_chunks w'.index_chunks index_ready
        d.allocated in
    let (v'', w'', runs, is) =
      destroy-runs removed v w' i.ordinal t u (ap (λ (j : VolumeInfo). j.ordinal) d.info) d.rd
        d.table e (ap (release_chunks i.ordinal) d.chunks ∙ f) in
    (
      v'',
      w'',
      runs,
      ap (λ (x : World). x.meta_blk) is,
      ap (λ (x : World). x.index_table) is,
      ap (λ (x : World). x.repl_dev) is ∙ device_left removed w'.repl_dev d.device,
      subst (Restored w.volume_chunks) (sym (ap (λ (x : World). x.volume_chunks) is)) same,
      subst (Restored w.index_chunks) (sym (ap (λ (x : World). x.index_chunks) is)) index_same,
    )
