-- ===== src/Manager/Recovery.antt =====
-- The recovery of the volumes at a start (volume_mgr.cpp): `recover_index_table`,
-- `on_vol_meta_blk_found`, and the calls that go from the server to a volume. `none` is a process that
-- stops, at an assertion or at a null.
use home_blocks.Prelude.{
  ℕ, Bool, true, false, List, [], ◌∷◌, Option, none, some, ◌==◌, ◌||◌, if◌then◌else◌,
}
use home_blocks.Prelude.Errors.{Result, ok, err, unknown_volume}
use home_blocks.Chunks.State.{Selector}
use home_blocks.Chunks.Recovery.{recover_chunks}
use home_blocks.Manager.State.{VolumeState, Vol, Manager, find_vol, is_destroying}
use home_blocks.Manager.Ops.{emplace_vol, remove_volume}
use home_blocks.Volume.Superblock.{VolSb}
use home_blocks.Volume.Lifecycle.{recover_volume, World}

-- `index_table_sb`, as HomeStore hands it over.
pub record IndexTableSb : Type 0 where
  pub parent_uuid : ℕ
  pub ordinal : ℕ
  pub pdev_id : ℕ
  pub max_size_bytes : ℕ
  pub chunk_ids : List ℕ

-- The members of `HomeBlocksImpl` that a recovery changes. `idx_tbl_map` has the ids of the volumes whose
-- index tables were found, and `removals` those whose removal was scheduled.
pub record Recovery : Type 0 where
  pub manager : Manager
  pub volume_chunks : Selector
  pub index_chunks : Selector
  pub idx_tbl_map : List ℕ
  pub removals : List ℕ

abbrev pub contains : ℕ → List ℕ → Bool
contains id [] = false
contains id (k ∷ ks) = k == id || contains id ks

abbrev pub erase_id : ℕ → List ℕ → List ℕ
erase_id id [] = []
erase_id id (k ∷ ks) = if k == id then ks else k ∷ erase_id id ks

-- A failed recovery of the chunks is only logged.
unfoldable pub recover_index_table : IndexTableSb → Recovery → Option Recovery
recover_index_table sb r =
    elim (recover_chunks sb.ordinal sb.pdev_id sb.max_size_bytes sb.chunk_ids r.index_chunks) [
      | none ↦ none
      | some (success, s) ↦ some record r {
        index_chunks = s;
        idx_tbl_map =
            if contains sb.parent_uuid r.idx_tbl_map
            then r.idx_tbl_map
            else sb.parent_uuid ∷ r.idx_tbl_map;
      }
    ]

-- The volume that a superblock stands for.
abbrev pub vol_of : VolSb → Vol
vol_of sb = record {
  id = sb.id;
  ordinal = sb.ordinal;
  state = sb.state;
  outstanding_reqs = 0;
  destroy_started = false;
}

-- A volume that was being destroyed is removed again.
unfoldable pub resume_removal : Vol → Recovery → Recovery
resume_removal v r =
    if is_destroying v
    then (elim (remove_volume v.id r.manager) [
      | ok _ ↦ record r { removals = v.id ∷ r.removals }
      | err e ↦ r
    ])
    else r

unfoldable pub add_recovered : Vol → Selector → Recovery → Recovery
unfolding resume_removal
add_recovered v s r = resume_removal v record r {
  manager = record r.manager {
    vols = emplace_vol v r.manager.vols;
    reserved = v.ordinal ∷ r.manager.reserved;
  };
  volume_chunks = s;
  idx_tbl_map = erase_id v.id r.idx_tbl_map;
}

abbrev pub world_of : VolSb → Bool → Recovery → World
world_of sb has_repl_dev r = record {
  volume_chunks = r.volume_chunks;
  index_chunks = r.index_chunks;
  meta_blk = some sb;
  repl_dev = has_repl_dev;
  index_table = false;
}

-- `make_volume` gives a null when the chunks cannot be recovered, and the index table must have been
-- found before.
unfoldable pub on_vol_meta_blk_found : VolSb → Bool → Recovery → Option Recovery
on_vol_meta_blk_found sb has_repl_dev r = elim (recover_volume sb (world_of sb has_repl_dev r)) [
  | none ↦ none
  | some (false, v, w) ↦ none
  | some (true, v, w) ↦
      if contains sb.id r.idx_tbl_map
      then some (
          add_recovered
            (record {
              id = v.info.id;
              ordinal = v.info.ordinal;
              state = v.m_state;
              outstanding_reqs = 0;
              destroy_started = false;
            })
            w.volume_chunks r)
      else none
]

-- The meta blocks one after the other. `has_repl_dev` tells for which volumes HomeStore has a device.
unfoldable pub recover_all : (ℕ → Bool) → List VolSb → Recovery → Option Recovery
recover_all has_repl_dev [] r = some r
recover_all has_repl_dev (sb ∷ sbs) r = elim (on_vol_meta_blk_found sb (has_repl_dev sb.id) r) [
  | none ↦ none
  | some r' ↦ recover_all has_repl_dev sbs r'
]

-- The volume of an ordinal, which `update_vol_sb_cb` looks for; it must be there.
abbrev pub find_ordinal : ℕ → List Vol → Option Vol
find_ordinal n [] = none
find_ordinal n (v ∷ vs) = if v.ordinal == n then some v else find_ordinal n vs

-- `get_stats`: the id and the state.
unfoldable pub get_stats : ℕ → Manager → Result (ℕ × VolumeState)
get_stats id m = elim (find_vol id m.vols) [
  | none ↦ err unknown_volume
  | some v ↦ ok (v.id, v.state)
]
