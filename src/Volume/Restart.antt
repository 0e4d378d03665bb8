-- ===== src/Volume/Restart.antt =====
-- What the superblock of a volume (volume/volume.hpp, volume/volume.cpp) keeps across a restart.
use home_blocks.Prelude.{
  ℕ, zero, suc, ◌-◌, ◌^◌, ◌<◌, ◌≡◌, refl, ap, sym, ◌∙◌, subst, true, false, List, [], ◌∷◌, some,
  arith, ◌==◌, length, take, Bool-cases, Option-cases, inl, inr,
}
use home_blocks.Manager.State.{VolumeState}
use home_blocks.Chunks.State.{Selector}
use home_blocks.Chunks.Ops.{resize_task}
use home_blocks.Chunks.Recovery.{recover_chunks}
use home_blocks.Chunks.Reclaim.{IsKeyed}
use home_blocks.Chunks.Answers.{chunk_ids_of, resize_task-ids}
use home_blocks.Chunks.Returned.{recover_chunks-ids}
use home_blocks.Volume.Superblock.{
  vol_name_size, VolumeInfo, disabled, VolSb, c_string, info_of, get_chunk_ids, info_of-sb_of,
}
use home_blocks.Volume.Lifecycle.{
  Volume, World, same_state, state_change, init_recovered, recover_volume, update_vol_sb_cb,
}

-- What the superblock keeps of the information: the name up to its first zero byte and to 99 bytes,
-- and not the replication mode.
abbrev pub kept : VolumeInfo → VolumeInfo
kept i = record i { name = take (vol_name_size - 1) (c_string i.name); repl_mode = disabled }

-- The meta block is the superblock in memory, with the state, the information and the chunks of the
-- volume.
pub record Synced (v : Volume) (w : World) : Type 0 where
  pub stored : w.meta_blk ≡ some v.sb
  pub state : v.m_state ≡ v.sb.state
  pub info : info_of v.sb ≡ kept v.info
  pub page : v.info.page_size < 2 ^ 32
  pub chunks : get_chunk_ids v.sb ≡ chunk_ids_of v.info.ordinal w.volume_chunks

same_state-eq : (a b : VolumeState) → same_state a b ≡ true → a ≡ b
same_state-eq a b h = ground (arith, h)

pub state_change-Synced :
    (s : VolumeState) (v : Volume) (w : World)
    → Synced v w
    → Synced (state_change s v w).0 (state_change s v w).1 × ((state_change s v w).0.m_state ≡ s)
unfolding state_change info_of get_chunk_ids
state_change-Synced s v w h = elim (Bool-cases (same_state v.sb.state s)) [
  | inl e ↦ rw e (h, h.state ∙ same_state-eq v.sb.state s e)
  | inr e ↦ rw e (
    record { stored = refl; state = refl; info = h.info; page = h.page; chunks = h.chunks },
    refl,
  )
]

-- The superblock with the chunks that the selector has for the volume.
pub update_vol_sb_cb-Synced :
    (ids : List ℕ) (v : Volume) (w : World)
    → Synced v w
    → length ids < 2 ^ 32
    → (s : Selector) → resize_task v.info.ordinal w.volume_chunks ≡ some (ids, s)
    → let (v', w') = update_vol_sb_cb ids v (record w { volume_chunks = s }) in
      Synced v' w' × (v'.m_state ≡ v.m_state) × (v'.info ≡ v.info)
unfolding update_vol_sb_cb
update_vol_sb_cb-Synced ids v w h few s grows =
    let (info, chunks, state) = info_of-sb_of v.info v.sb.pdev_id ids v.sb h.page few in
    (
      record {
        stored = refl;
        state = h.state ∙ sym state;
        info = info;
        page = h.page;
        chunks = chunks ∙ sym (resize_task-ids v.info.ordinal w.volume_chunks ids s grows);
      },
      refl,
      refl,
    )

take-c_string :
    (n : ℕ) (cs : List ℕ) → take n (c_string (take n (c_string cs))) ≡ take n (c_string cs)
unfolding c_string
take-c_string zero cs = refl
take-c_string (suc n) [] = refl
take-c_string (suc n) (c ∷ cs) = elim (Bool-cases (c == 0)) [
  | inl e ↦ rw e refl
  | inr e ↦ rw e (rw e (ap (λ r. c ∷ r) (take-c_string n cs)))
]

kept-kept : (i : VolumeInfo) → kept (kept i) ≡ kept i
kept-kept i =
    λ r. record i { name = take-c_string (vol_name_size - 1) i.name r; repl_mode = disabled }

-- A recovery from the meta block that succeeds, with a selector that a new process has filled: the
-- volume is the one that the meta block was written for.
pub recover_volume-Synced :
    (v : Volume) (w : World) (s t : Selector) (v' : Volume) (w' : World)
    → Synced v w
    → IsKeyed s.all_chunks
    → recover_volume v.sb (record w { volume_chunks = s; index_chunks = t }) ≡ some (true, v', w')
    → Synced v' w'
      × (v'.m_state ≡ v.m_state)
      × (v'.info ≡ kept v.info)
      × (chunk_ids_of v.info.ordinal w'.volume_chunks ≡ chunk_ids_of v.info.ordinal w.volume_chunks)
unfolding recover_volume init_recovered
recover_volume-Synced v w s t v' w' h keyed r =
    let i = info_of v.sb in
    elim (Option-cases
      (recover_chunks i.ordinal v.sb.pdev_id i.size_bytes (get_chunk_ids v.sb) s)) [
        | inl e ↦ absurd (ground (arith, r, e))
        | inr ((false, u), e) ↦ absurd (ground (arith, r, e))
        | inr ((true, u), e) ↦
            let ids : chunk_ids_of i.ordinal u ≡ get_chunk_ids v.sb =
              recover_chunks-ids i.ordinal v.sb.pdev_id i.size_bytes (get_chunk_ids v.sb) s u keyed
                e in
            let same_info : v'.info ≡ i = ground (arith, r, e) in
            let same_sb : v'.sb ≡ v.sb = ground (arith, r, e) in
            let persisted : v'.m_state ≡ v.sb.state = ground (arith, r, e) in
            let same_meta : w'.meta_blk ≡ w.meta_blk = ground (arith, r, e) in
            let same_chunks : w'.volume_chunks ≡ u = ground (arith, r, e) in
            let named : (n : ℕ)
                → n ≡ i.ordinal
                → chunk_ids_of n w'.volume_chunks ≡ get_chunk_ids v.sb =
              λ n q.
                ap (λ m. chunk_ids_of m w'.volume_chunks) q
                ∙ ap (chunk_ids_of i.ordinal) same_chunks
                ∙ ids in
            (
              record {
                stored = same_meta ∙ h.stored ∙ ap some (sym same_sb);
                state = persisted ∙ ap (λ (b : VolSb). b.state) (sym same_sb);
                info =
                    ap info_of same_sb
                    ∙ h.info
                    ∙ sym (kept-kept v.info)
                    ∙ ap kept (sym (same_info ∙ h.info));
                page =
                    subst (λ (j : VolumeInfo). j.page_size < 2 ^ 32) (sym (same_info ∙ h.info))
                      h.page;
                chunks =
                    ap get_chunk_ids same_sb
                    ∙ sym (named v'.info.ordinal (ap (λ (j : VolumeInfo). j.ordinal) same_info));
              },
              persisted ∙ sym h.state,
              same_info ∙ h.info,
              named v.info.ordinal (ap (λ (j : VolumeInfo). j.ordinal) (sym h.info)) ∙ h.chunks,
            )
      ]
