-- ===== src/Manager/State.antt =====
-- The state of `HomeBlocksImpl` (homeblks_impl.hpp) and what it keeps of each volume (volume/volume.hpp).
use home_blocks.Prelude.{
  ℕ, Bool, true, false, not, ◌&&◌, List, [], ◌∷◌, Option, none, some, ◌==◌, if◌then◌else◌,
}

abbrev pub max_num_volumes : ℕ
max_num_volumes = 2048

pub data VolumeState : Type 0 where
  vol_init : VolumeState
  vol_online : VolumeState
  vol_offline : VolumeState
  vol_destroying : VolumeState
  vol_destroyed : VolumeState
  vol_readonly : VolumeState

-- `volume`. `outstanding_reqs` counts the requests that run on it.
pub record Vol : Type 0 where
  pub id : ℕ
  pub ordinal : ℕ
  pub state : VolumeState
  pub outstanding_reqs : ℕ
  pub destroy_started : Bool

-- `vol_map_` is the list of its values; `reserved` has the ordinals that `ordinal_reserver_` gave out.
pub record Manager : Type 0 where
  pub is_restricted : Bool
  pub shutdown_started : Bool
  pub outstanding_reqs : ℕ
  pub vols : List Vol
  pub reserved : List ℕ

abbrev pub find_vol : ℕ → List Vol → Option Vol
find_vol id [] = none
find_vol id (v ∷ vs) = if v.id == id then some v else find_vol id vs

-- A change of the volume that the map has under an id.
abbrev pub update_vol : (Vol → Vol) → ℕ → List Vol → List Vol
update_vol f id [] = []
update_vol f id (v ∷ vs) = if v.id == id then f v ∷ vs else v ∷ update_vol f id vs

abbrev pub erase_vol : ℕ → List Vol → List Vol
erase_vol id [] = []
erase_vol id (v ∷ vs) = if v.id == id then vs else v ∷ erase_vol id vs

-- `unreserve`
abbrev pub unreserve : ℕ → List ℕ → List ℕ
unreserve n [] = []
unreserve n (k ∷ ks) = if k == n then ks else k ∷ unreserve n ks

unfoldable pub is_destroying : Vol → Bool
is_destroying v = elim v.state [
  | vol_init ↦ false
  | vol_online ↦ false
  | vol_offline ↦ false
  | vol_destroying ↦ true
  | vol_destroyed ↦ false
  | vol_readonly ↦ false
]

unfoldable pub is_offline : Vol → Bool
is_offline v = elim v.state [
  | vol_init ↦ false
  | vol_online ↦ false
  | vol_offline ↦ true
  | vol_destroying ↦ false
  | vol_destroyed ↦ false
  | vol_readonly ↦ false
]

-- `state_change`: a volume whose state is another gets it, on disk and in memory.
unfoldable pub state_change : VolumeState → Vol → Vol
state_change s v = record v { state = s }

unfoldable pub can_remove : Vol → Bool
can_remove v = not v.destroy_started && v.outstanding_reqs == 0
