-- ===== src/Manager/SameId.antt =====
-- Two creations with one id (volume_mgr.cpp): the id is looked up before `make_volume`, the volume put
-- into the map behind it, and `emplace` keeps what is there.
use home_blocks.Prelude.{ℕ, ◌≡◌, ◌≢◌, some, All}
use home_blocks.Manager.State.{Manager, find_vol}
use home_blocks.Manager.Ops.{new_vol}
use home_blocks.Manager.Invariant.{Has}

-- What is left of the second volume: it is the answer of its creation, the map has the first one for the
-- id, and its ordinal is reserved although no volume of the map has it.
pub record Lost (id n₁ n₂ : ℕ) (m : Manager) : Type 0 where
  pub first : find_vol id m.vols ≡ some (new_vol id n₁)
  pub reserved : Has n₂ m.reserved
  pub in_no_vol : All (λ v. v.ordinal ≢ n₂) m.vols
