-- ===== src/Volume/Lifecycle.antt =====
-- The life of a volume: its creation, recovery, changes of its superblock, and its destruction
-- (volume/volume.cpp and volume.hpp). `none` is a process that stops, at an assertion of a chunk
-- selector or a division by zero.
use home_blocks.Prelude.{
  ℕ, Bool, true, false, List, [], ◌∷◌, Option, none, some, ◌==◌, if◌then◌else◌,
}
use home_blocks.Manager.State.{
  VolumeState, vol_init, vol_online, vol_offline, vol_destroying, vol_destroyed, vol_readonly,
}
use home_blocks.Chunks.State.{Selector}
use home_blocks.Chunks.Ops.{allocate_init_chunks, release_chunks}
use home_blocks.Chunks.Recovery.{recover_chunks}
use home_blocks.Volume.Superblock.{VolumeInfo, VolSb, sb_of, info_of, get_chunk_ids, get_index_size}

-- `volume`: its members that the control path reads. `rd` and `indx_tbl` tell whether the pointer is
-- set.
pub record Volume : Type 0 where
  pub info : VolumeInfo
  pub rd : Bool
  pub indx_tbl : Bool
  pub sb : VolSb
  pub m_state : VolumeState
  pub destroy_started : Bool

-- What is outside of the volume: the two chunk selectors, and what HomeStore has for this volume: the
-- meta block, the replication device and the index table.
pub record World : Type 0 where
  pub volume_chunks : Selector
  pub index_chunks : Selector
  pub meta_blk : Option VolSb
  pub repl_dev : Bool
  pub index_table : Bool

-- Where the code goes on only after a success.
abbrev pub Outcome : Type 0
Outcome = Option (Bool × Volume × World)

abbrev code_of : VolumeState → ℕ
code_of vol_init = 0
code_of vol_online = 1
code_of vol_offline = 2
code_of vol_destroying = 3
code_of vol_destroyed = 4
code_of vol_readonly = 5

abbrev pub same_state : VolumeState → VolumeState → Bool
same_state a b = code_of a == code_of b

-- `state_change`: nothing is written for the state that is there.
unfoldable pub state_change : VolumeState → Volume → World → Volume × World
state_change s v w = if same_state v.sb.state s then (v, w) else (
  record v { sb = record v.sb { state = s }; m_state = s },
  record w { meta_blk = some (record v.sb { state = s }) },
)

-- `init_index_table(false)`
unfoldable pub init_index_table : Volume → World → Outcome
init_index_table v w = elim (get_index_size v.info) [
  | none ↦ none
  | some index_size ↦ elim (allocate_init_chunks false v.info.ordinal index_size w.index_chunks) [
    | none ↦ none
    | some (([], pdev), s) ↦ some (false, v, record w { index_chunks = s })
    | some ((id ∷ ids, pdev), s) ↦
        some (true, record v { indx_tbl = true }, record w { index_chunks = s; index_table = true })
  ]
]

-- The end of `init`.
abbrev pub state_from_sb : Volume → Volume
state_from_sb v = record v { m_state = v.sb.state }

unfoldable pub finish_init : Outcome → Outcome
finish_init none = none
finish_init (some (false, v, w)) = some (false, v, w)
finish_init (some (true, v, w)) =
    let (v', w') = state_change vol_online v w in some (true, state_from_sb v', w')

-- `create_repl_dev`, whose success is `made`, and the index.
unfoldable pub init_devices : Bool → Volume → World → Outcome
init_devices made v w =
    if made
    then finish_init (init_index_table (record v { rd = true }) (record w { repl_dev = true }))
    else some (false, v, w)

abbrev pub device_or : ℕ → Option ℕ → ℕ
device_or unset none = unset
device_or unset (some pdev) = pdev

-- `init(false)`. `unset` is what the variable `pdev_id` holds before it is set, and `v.sb` what
-- `sb_.create` makes.
unfoldable pub init_new : Bool → ℕ → Volume → World → Outcome
init_new made unset v w =
    elim (allocate_init_chunks true v.info.ordinal v.info.size_bytes w.volume_chunks) [
      | none ↦ none
      | some (([], pdev), s) ↦ some (false, v, record w { volume_chunks = s })
      | some ((id ∷ ids, pdev), s) ↦
          init_devices made (record v { sb = sb_of v.info (device_or unset pdev) (id ∷ ids) v.sb })
            (record w { volume_chunks = s })
    ]

-- What the constructors set. `m_state_` has no value until `init` when there is no superblock.
abbrev pub constructed : VolumeInfo → VolSb → VolumeState → Volume
constructed i sb s = record {
  info = i;
  rd = false;
  indx_tbl = false;
  sb = sb;
  m_state = s;
  destroy_started = false;
}

-- `make_volume` from the information, with the superblock that `sb_.create` gives.
unfoldable pub make_volume : Bool → ℕ → VolSb → VolumeInfo → World → Outcome
make_volume made unset blank i w = init_new made unset (constructed i blank vol_init) w

-- `init(true)`
unfoldable pub init_recovered : Volume → World → Outcome
init_recovered v w =
    elim (recover_chunks v.info.ordinal v.sb.pdev_id v.info.size_bytes (get_chunk_ids v.sb)
      w.volume_chunks) [
        | none ↦ none
        | some (false, s) ↦
            some (false, record v { rd = w.repl_dev }, record w { volume_chunks = s })
        | some (true, s) ↦
            some
              (true, state_from_sb (record v { rd = w.repl_dev }), record w { volume_chunks = s })
      ]

-- `make_volume` from the superblock in a meta block.
unfoldable pub recover_volume : VolSb → World → Outcome
recover_volume sb w = init_recovered (constructed (info_of sb) sb sb.state) w

-- `init_index_table(true, tbl)`, with the table that HomeStore has found.
unfoldable pub set_index_table : Volume → World → Volume × World
set_index_table v w = (record v { indx_tbl = true }, record w { index_table = true })

unfoldable pub update_vol_sb_cb : List ℕ → Volume → World → Volume × World
update_vol_sb_cb chunk_ids v w =
    let sb' = sb_of v.info v.sb.pdev_id chunk_ids v.sb in
    (record v { sb = sb' }, record w { meta_blk = some sb' })

-- `destroy`, the replication device: `removed` is whether HomeStore removed it, which is not looked at.
unfoldable pub destroy_repl_dev : Bool → Volume → World → Volume × World
destroy_repl_dev removed v w =
    if v.rd
    then (
      record v { rd = false; destroy_started = true },
      record w { repl_dev = if removed then false else w.repl_dev },
    )
    else (record v { destroy_started = true }, w)

-- The index table and its chunks.
unfoldable pub destroy_index : Volume → World → Option (Volume × World)
destroy_index v w =
    if v.indx_tbl
    then (elim (release_chunks v.info.ordinal w.index_chunks) [
      | none ↦ none
      | some s ↦
          some (record v { indx_tbl = false }, record w { index_chunks = s; index_table = false })
    ])
    else some (v, w)

-- The superblock, and then the chunks.
unfoldable pub destroy_sb : Volume → World → Option (Volume × World)
destroy_sb v w = elim (release_chunks v.info.ordinal w.volume_chunks) [
  | none ↦ none
  | some s ↦ some (v, record w { volume_chunks = s; meta_blk = none })
]

unfoldable pub destroy : Bool → Volume → World → Option (Volume × World)
destroy removed v w =
    let (v₁, w₁) = destroy_repl_dev removed v w in
    elim (destroy_index v₁ w₁) [ none ↦ none | some (v₂, w₂) ↦ destroy_sb v₂ w₂ ]
