-- ===== src/Manager/Creations.antt =====
-- Creations and removals that run at once, beside the fault containment (volume_mgr.cpp and
-- homeblks_impl.cpp). `create_volume` lets go of the lock while `make_volume` runs, and
-- `do_remove_volume` while the volume is destroyed: the start and the end of each is a step of its own. A
-- removal reads `can_remove` and sets `destroy_started_` in one step here; Manager/TwoRemovals has what
-- comes of it when another task steps in between. The collector only schedules removals.
use home_blocks.Prelude.{ℕ, Bool, List, [], ◌∷◌, Option, none, some, ◌==◌, if◌then◌else◌}
use home_blocks.Prelude.Errors.{Result, ok, err}
use home_blocks.Manager.State.{Manager, find_vol}
use home_blocks.Manager.Ops.{create_check, create_finish, FcEvent, on_fault_containment}
use home_blocks.Manager.TwoRemovals.{mark_task, may_destroy, start_task, finish_task}

-- A creation that is behind its check, or a removal whose volume is being destroyed.
pub record Pending : Type 0 where
  pub id : ℕ
  pub ordinal : ℕ

pub record Creations : Type 0 where
  pub manager : Manager
  pub pending : List Pending
  pub removals : List Pending

abbrev pub find_pending : ℕ → List Pending → Option Pending
find_pending n [] = none
find_pending n (p ∷ ps) = if p.ordinal == n then some p else find_pending n ps

abbrev pub erase_pending : ℕ → List Pending → List Pending
erase_pending n [] = []
erase_pending n (p ∷ ps) = if p.ordinal == n then ps else p ∷ erase_pending n ps

abbrev pub add_pending : ℕ → Creations → Result ℕ × Manager → Creations
add_pending id c (err e, m) = record c { manager = m }
add_pending id c (ok n, m) = record c {
  manager = m;
  pending = record { id = id; ordinal = n } ∷ c.pending;
}

unfoldable pub begin_create : (List ℕ → ℕ) → ℕ → Creations → Creations
begin_create reserve id c = add_pending id c (create_check reserve id c.manager)

-- The creation that has the ordinal ends.
unfoldable pub end_create : Bool → ℕ → Creations → Creations
end_create made n c = elim (find_pending n c.pending) [
  | none ↦ c
  | some p ↦ record c {
    manager = (create_finish made p.id p.ordinal c.manager).1;
    pending = erase_pending n c.pending;
  }
]

-- A removal up to the start of the destruction, if there is one.
unfoldable pub begin_removal : ℕ → Creations → Creations
begin_removal id c =
    let marked = mark_task id c.manager in
    elim (find_vol id c.manager.vols) [
      | none ↦ c
      | some v ↦
          if may_destroy id marked
          then record c {
            manager = start_task id marked;
            removals = record { id = id; ordinal = v.ordinal } ∷ c.removals;
          }
          else record c { manager = marked }
    ]

-- The removal of the volume that has the ordinal ends.
unfoldable pub end_removal : ℕ → Creations → Creations
end_removal n c = elim (find_pending n c.removals) [
  | none ↦ c
  | some q ↦ record c {
    manager = finish_task q.id q.ordinal c.manager;
    removals = erase_pending n c.removals;
  }
]

pub data Act : Type 0 where
  begin : ℕ → Act
  end : Bool → ℕ → Act
  remove : ℕ → Act
  removed : ℕ → Act
  event : FcEvent → Option ℕ → Act

abbrev pub act : (List ℕ → ℕ) → Act → Creations → Creations
act reserve (begin id) c = begin_create reserve id c
act reserve (end made n) c = end_create made n c
act reserve (remove id) c = begin_removal id c
act reserve (removed n) c = end_removal n c
act reserve (event e cookie) c = record c { manager = on_fault_containment e cookie c.manager }

abbrev pub run : (List ℕ → ℕ) → List Act → Creations → Creations
run reserve [] c = c
run reserve (a ∷ rest) c = run reserve rest (act reserve a c)
