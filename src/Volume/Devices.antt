-- ===== src/Volume/Devices.antt =====
-- The steps of `volume::init` (volume/volume.cpp) for a new volume, when all succeed.
use home_blocks.Prelude.{
  ℕ, ◌≡◌, refl, ap, sym, ◌∙◌, subst, Bool, true, false, List, [], ◌∷◌, Option, none, some, arith,
  Option-cases, inl, inr,
}
use home_blocks.Manager.State.{vol_init, vol_online}
use home_blocks.Chunks.State.{Selector}
use home_blocks.Chunks.Ops.{allocate_init_chunks}
use home_blocks.Volume.Superblock.{VolumeInfo, VolSb, sb_of, get_index_size}
use home_blocks.Volume.Lifecycle.{
  Volume, World, state_change, init_index_table, finish_init, init_devices, device_or, constructed,
  init_new, make_volume,
}

-- An allocation that found chunks.
pub record Allocated (lazy_alloc : Bool) (ordinal size : ℕ) (s s' : Selector) : Type 0 where
  pub first : ℕ
  pub others : List ℕ
  pub pdev : Option ℕ
  pub answer : allocate_init_chunks lazy_alloc ordinal size s ≡ some ((first ∷ others, pdev), s')

-- The index touches neither the superblock nor the chunks of the volume.
record IndexMade (v : Volume) (w : World) (v' : Volume) (w' : World) : Type 0 where
  volume : v' ≡ record v { indx_tbl = true }
  chunks : w'.volume_chunks ≡ w.volume_chunks
  device : w'.repl_dev ≡ w.repl_dev
  table : w'.index_table ≡ true
  index_size : ℕ
  allocated : Allocated false v.info.ordinal index_size w.index_chunks w'.index_chunks

init_index_table-IndexMade :
    (v : Volume) (w : World) (v' : Volume) (w' : World)
    → init_index_table v w ≡ some (true, v', w')
    → IndexMade v w v' w'
unfolding init_index_table
init_index_table-IndexMade v w v' w' h = elim (Option-cases (get_index_size v.info)) [
  | inl e ↦ absurd (ground (arith, h, e))
  | inr (n, e) ↦ elim (Option-cases (allocate_init_chunks false v.info.ordinal n w.index_chunks)) [
    | inl f ↦ absurd (ground (arith, h, e, f))
    | inr ((([], p), s), f) ↦ absurd (ground (arith, h, e, f))
    | inr (((id ∷ ids, p), s), f) ↦ record {
      volume = ground (arith, h, e, f);
      chunks = ground (arith, h, e, f);
      device = ground (arith, h, e, f);
      table = ground (arith, h, e, f);
      index_size = n;
      allocated = record {
        first = id;
        others = ids;
        pdev = p;
        answer =
            let same : s ≡ w'.index_chunks = ground (arith, h, e, f) in
            f ∙ ap (λ (t : Selector). some ((id ∷ ids, p), t)) same;
      };
    }
  ]
]

-- The end of a creation whose superblock is in its first state.
record Finished (v : Volume) (w : World) (v' : Volume) (w' : World) : Type 0 where
  sb : v'.sb ≡ record v.sb { state = vol_online }
  stored : w'.meta_blk ≡ some v'.sb
  online : v'.m_state ≡ vol_online
  info : v'.info ≡ v.info
  rd : v'.rd ≡ v.rd
  table : v'.indx_tbl ≡ v.indx_tbl
  chunks : w'.volume_chunks ≡ w.volume_chunks
  device : w'.repl_dev ≡ w.repl_dev
  index : w'.index_table ≡ w.index_table
  index_chunks : w'.index_chunks ≡ w.index_chunks

finish_init-Finished :
    (v : Volume) (w : World) (v' : Volume) (w' : World)
    → v.sb.state ≡ vol_init
    → finish_init (some (true, v, w)) ≡ some (true, v', w')
    → Finished v w v' w'
unfolding finish_init state_change
finish_init-Finished v w v' w' e h = record {
  sb = ground (arith, h, e);
  stored = ground (arith, h, e);
  online = ground (arith, h, e);
  info = ground (arith, h, e);
  rd = ground (arith, h, e);
  table = ground (arith, h, e);
  chunks = ground (arith, h, e);
  device = ground (arith, h, e);
  index = ground (arith, h, e);
  index_chunks = ground (arith, h, e);
}

-- The devices of a volume, once all are made.
pub record Made (made : Bool) (v : Volume) (w : World) (v' : Volume) (w' : World) : Type 0 where
  pub asked : made ≡ true
  pub sb : v'.sb ≡ record v.sb { state = vol_online }
  pub stored : w'.meta_blk ≡ some v'.sb
  pub online : v'.m_state ≡ vol_online
  pub info : v'.info ≡ v.info
  pub rd : v'.rd ≡ true
  pub table : v'.indx_tbl ≡ true
  pub chunks : w'.volume_chunks ≡ w.volume_chunks
  pub device : w'.repl_dev ≡ true
  pub index : w'.index_table ≡ true
  pub index_size : ℕ
  pub allocated : Allocated false v.info.ordinal index_size w.index_chunks w'.index_chunks

finish_none : finish_init none ≡ none
unfolding finish_init
finish_none = refl

finish_false : (v : Volume) (w : World) → finish_init (some (false, v, w)) ≡ some (false, v, w)
unfolding finish_init
finish_false v w = refl

init_devices-Made :
    (made : Bool) (v : Volume) (w : World) (v' : Volume) (w' : World)
    → v.sb.state ≡ vol_init
    → init_devices made v w ≡ some (true, v', w')
    → Made made v w v' w'
unfolding init_devices
init_devices-Made false v w v' w' e h = absurd (ground (arith, h))
init_devices-Made true v w v' w' e h =
    let v₁ = record v { rd = true } in
    let w₁ = record w { repl_dev = true } in
    elim (Option-cases (init_index_table v₁ w₁)) [
      | inl f ↦ absurd (ground (arith, ap finish_init (sym f) ∙ h, finish_none))
      | inr ((false, v₂, w₂), f) ↦
          absurd (ground (arith, ap finish_init (sym f) ∙ h, finish_false v₂ w₂))
      | inr ((true, v₂, w₂), f) ↦
          let m = init_index_table-IndexMade v₁ w₁ v₂ w₂ f in
          let e₂ : v₂.sb.state ≡ vol_init = ap (λ (x : Volume). x.sb.state) m.volume ∙ e in
          let d = finish_init-Finished v₂ w₂ v' w' e₂ (ap finish_init (sym f) ∙ h) in
          record {
            asked = refl;
            sb = d.sb ∙ ap (λ (x : Volume). record x.sb { state = vol_online }) m.volume;
            stored = d.stored;
            online = d.online;
            info = d.info ∙ ap (λ (x : Volume). x.info) m.volume;
            rd = d.rd ∙ ap (λ (x : Volume). x.rd) m.volume;
            table = d.table ∙ ap (λ (x : Volume). x.indx_tbl) m.volume;
            chunks = d.chunks ∙ m.chunks;
            device = d.device ∙ m.device;
            index = d.index ∙ m.table;
            index_size = m.index_size;
            allocated =
                subst (Allocated false v.info.ordinal m.index_size w.index_chunks)
                  (sym d.index_chunks) m.allocated;
          }
    ]

-- The steps of a creation that succeeds.
pub record Created (made : Bool) (unset : ℕ) (blank : VolSb) (i : VolumeInfo) (w : World)
    (v : Volume) (w' : World) : Type 0 where
  pub s : Selector
  pub allocated : Allocated true i.ordinal i.size_bytes w.volume_chunks s
  pub devices :
      let sb =
        sb_of i (device_or unset allocated.pdev) (allocated.first ∷ allocated.others) blank in
      Made made (constructed i sb vol_init) (record w { volume_chunks = s }) v w'

sb_of-state :
    (i : VolumeInfo) (pdev : ℕ) (ids : List ℕ) (sb : VolSb) → (sb_of i pdev ids sb).state ≡ sb.state
unfolding sb_of
sb_of-state i pdev ids sb = refl

pub make_volume-Created :
    (made : Bool) (unset : ℕ) (blank : VolSb) (i : VolumeInfo) (w : World) (v : Volume) (w' : World)
    → blank.state ≡ vol_init
    → make_volume made unset blank i w ≡ some (true, v, w')
    → Created made unset blank i w v w'
unfolding make_volume init_new
make_volume-Created made unset blank i w v w' b h =
    elim (Option-cases (allocate_init_chunks true i.ordinal i.size_bytes w.volume_chunks)) [
      | inl e ↦ absurd (ground (arith, h, e))
      | inr ((([], p), s), e) ↦ absurd (ground (arith, h, e))
      | inr (((id ∷ ids, p), s), e) ↦ record {
        s = s;
        allocated = record { first = id; others = ids; pdev = p; answer = e };
        devices =
            init_devices-Made made
              (constructed i (sb_of i (device_or unset p) (id ∷ ids) blank) vol_init)
              (record w { volume_chunks = s }) v w'
              (sb_of-state i (device_or unset p) (id ∷ ids) blank ∙ b) (ground (arith, h, e));
      }
    ]
