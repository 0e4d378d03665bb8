-- ===== src/Volume/Creation.antt =====
-- What `make_volume` (volume/volume.hpp, volume/volume.cpp) leaves behind, when it succeeds and when it
-- fails.
use home_blocks.Prelude.{
  ℕ, ◌^◌, ◌<◌, ◌≡◌, refl, ap, sym, ◌∙◌, subst, Bool, true, false, List, ◌∷◌, Option, none, some,
  arith, length,
}
use home_blocks.Manager.State.{vol_init, vol_online}
use home_blocks.Chunks.State.{Selector, volume_at}
use home_blocks.Chunks.Ops.{allocate_init_chunks}
use home_blocks.Chunks.Answers.{chunk_ids_of, allocate_init_chunks-ids}
use home_blocks.Volume.Superblock.{VolumeInfo, VolSb, sb_of, info_of, get_chunk_ids, info_of-sb_of}
use home_blocks.Volume.Lifecycle.{
  Volume, World, init_devices, device_or, constructed, init_new, make_volume,
}
use home_blocks.Volume.Restart.{kept, Synced}
use home_blocks.Volume.Devices.{make_volume-Created}

info_of-online : (sb : VolSb) → info_of (record sb { state = vol_online }) ≡ info_of sb
unfolding info_of
info_of-online sb = refl

get_chunk_ids-online :
    (sb : VolSb) → get_chunk_ids (record sb { state = vol_online }) ≡ get_chunk_ids sb
unfolding get_chunk_ids
get_chunk_ids-online sb = refl

-- A creation that succeeds, where the superblock starts in its first state and the volume's slot is
-- empty, leaves an online volume with its devices, whose meta block has its state, its information and
-- the ids of its chunks.
pub make_volume-Synced :
    (made : Bool) (unset : ℕ) (blank : VolSb) (i : VolumeInfo) (w : World) (v : Volume) (w' : World)
    → blank.state ≡ vol_init
    → i.page_size < 2 ^ 32
    → volume_at i.ordinal w.volume_chunks.volume_chunks ≡ none
    → length (chunk_ids_of i.ordinal w'.volume_chunks) < 2 ^ 32
    → make_volume made unset blank i w ≡ some (true, v, w')
    → Synced v w' × (v.m_state ≡ vol_online) × (v.info ≡ i) × (v.rd ≡ true) × (v.indx_tbl ≡ true)
make_volume-Synced made unset blank i w v w' b page vacant few h =
    let c = make_volume-Created made unset blank i w v w' b h in
    let d = c.devices in
    let ids = c.allocated.first ∷ c.allocated.others in
    let sb₀ = sb_of i (device_or unset c.allocated.pdev) ids blank in
    let named : chunk_ids_of i.ordinal w'.volume_chunks ≡ ids =
      ap (chunk_ids_of i.ordinal) d.chunks
      ∙ allocate_init_chunks-ids i.ordinal w.volume_chunks ids c.allocated.pdev c.s vacant true
          i.size_bytes c.allocated.answer in
    let few' : length ids < 2 ^ 32 = subst (λ (ns : List ℕ). length ns < 2 ^ 32) named few in
    let back = info_of-sb_of i (device_or unset c.allocated.pdev) ids blank page few' in
    (
      record {
        stored = d.stored;
        state = d.online ∙ ap (λ (b : VolSb). b.state) (sym d.sb);
        info = ap info_of d.sb ∙ info_of-online sb₀ ∙ back.0 ∙ ap kept (sym d.info);
        page = subst (λ (j : VolumeInfo). j.page_size < 2 ^ 32) (sym d.info) page;
        chunks =
            ap get_chunk_ids d.sb
            ∙ get_chunk_ids-online sb₀
            ∙ back.1
            ∙ sym named
            ∙ ap (λ (j : VolumeInfo). chunk_ids_of j.ordinal w'.volume_chunks) (sym d.info);
      },
      d.online,
      d.info,
      d.rd,
      d.table,
    )

-- Where HomeStore makes no replication device, the creation fails, and every chunk that it has taken
-- stays with the volume's ordinal in the selector: the meta block of the volume is what it was.
pub make_volume_leaks :
    (unset : ℕ) (blank : VolSb) (i : VolumeInfo) (w : World) (id : ℕ) (ids : List ℕ)
    (pdev : Option ℕ) (s : Selector)
    → volume_at i.ordinal w.volume_chunks.volume_chunks ≡ none
    → allocate_init_chunks true i.ordinal i.size_bytes w.volume_chunks ≡ some ((id ∷ ids, pdev), s)
    → (v : Volume) × (w' : World) × (make_volume false unset blank i w ≡ some (false, v, w'))
      × (chunk_ids_of i.ordinal w'.volume_chunks ≡ id ∷ ids)
      × (w'.meta_blk ≡ w.meta_blk)
unfolding make_volume init_new init_devices
make_volume_leaks unset blank i w id ids pdev s vacant e = (
  constructed i (sb_of i (device_or unset pdev) (id ∷ ids) blank) vol_init,
  record w { volume_chunks = s },
  ground (arith, e),
  allocate_init_chunks-ids i.ordinal w.volume_chunks (id ∷ ids) pdev s vacant true i.size_bytes e,
  refl,
)
