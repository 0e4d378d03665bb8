-- ===== src/Manager/TwoRemovals.antt =====
-- Two tasks that remove one volume, at the same time (volume_mgr.cpp): that of `remove_volume` and that
-- of the collector, which looks for volumes that are marked and not begun. `do_remove_volume` marks the
-- volume, looks at it, has it destroyed, and takes it out of the map; each is a step here.
use home_blocks.Prelude.{
  ℕ, ◌<◌, ◌≡◌, ◌≢◌, refl, ◌∙◌, ap, Bool, true, false, List, [], ◌∷◌, none, some, arith, ◌==◌,
  if◌then◌else◌, Bool-cases, inl, inr,
}
use home_blocks.Manager.State.{
  max_num_volumes, Vol, Manager, find_vol, update_vol, erase_vol, unreserve, state_change,
  can_remove, vol_destroying,
}
use home_blocks.Manager.Ops.{
  create_volume, create_check, create_finish, new_vol, set_state, do_remove_volume,
}
use home_blocks.Manager.Invariant.{HasNot}

unfoldable pub mark_task : ℕ → Manager → Manager
mark_task id m = set_state vol_destroying id m

unfoldable pub may_destroy : ℕ → Manager → Bool
may_destroy id m = elim (find_vol id m.vols) [ none ↦ false | some v ↦ can_remove v ]

abbrev pub started : Vol → Vol
started v = record v { destroy_started = true }

unfoldable pub start_task : ℕ → Manager → Manager
start_task id m = record m { vols = update_vol started id m.vols }

-- The end of the task, once `destroy` is through. The task has the volume's ordinal from the handle that
-- it holds. What `destroy` does to chunks and devices is in Volume/Lifecycle.
unfoldable pub finish_task : ℕ → ℕ → Manager → Manager
finish_task id ordinal m = record m {
  vols = erase_vol id m.vols;
  reserved = unreserve ordinal m.reserved;
}

find_vol-erase_vol :
    (id other : ℕ) (vs : List Vol)
    → find_vol other vs ≡ none
    → find_vol other (erase_vol id vs) ≡ none
find_vol-erase_vol id other [] h = refl
find_vol-erase_vol id other (w ∷ vs) h = elim (Bool-cases (w.id == other)) [
  | inl e ↦ absurd (ground (arith, h, e))
  | inr e ↦
      let later : find_vol other vs ≡ none = ground (arith, h, e) in
      elim (Bool-cases (w.id == id)) [
        | inl g ↦ ground (arith, g, later)
        | inr g ↦ ground (arith, e, g, find_vol-erase_vol id other vs later)
      ]
]

module _ (f : Vol → Vol) (keeps : (v : Vol) → (f v).id ≡ v.id) (id : ℕ) where
  pub find_vol-update_vol :
      (vs : List Vol) (v : Vol)
      → find_vol id vs ≡ some v
      → find_vol id (update_vol f id vs) ≡ some (f v)
  find_vol-update_vol [] v h = absurd (ground (arith, h))
  find_vol-update_vol (w ∷ vs) v h = elim (Bool-cases (w.id == id)) [
    | inl e ↦ let same : w ≡ v = ground (arith, h, e) in ground (arith, e, keeps w, ap f same)
    | inr e ↦ ground (arith, e, find_vol-update_vol vs v (ground (arith, h, e)))
  ]

  erase_vol-update_vol : (vs : List Vol) → erase_vol id (update_vol f id vs) ≡ erase_vol id vs
  erase_vol-update_vol [] = refl
  erase_vol-update_vol (w ∷ vs) = elim (Bool-cases (w.id == id)) [
    | inl e ↦ ground (arith, e, keeps w)
    | inr e ↦ ground (arith, e, erase_vol-update_vol vs)
  ]

pub state_change-id : (v : Vol) → (state_change vol_destroying v).id ≡ v.id
unfolding state_change
state_change-id v = refl

-- A task that no other runs beside.
pub do_remove_volume-steps :
    (id : ℕ) (m : Manager) (v : Vol)
    → find_vol id m.vols ≡ some v
    → let marked = mark_task id m in
      do_remove_volume id m
      ≡ (if may_destroy id marked then finish_task id v.ordinal (start_task id marked) else marked)
unfolding do_remove_volume mark_task may_destroy start_task finish_task
do_remove_volume-steps id m v e =
    let vs' = update_vol (state_change vol_destroying) id m.vols in
    let found : find_vol id vs' ≡ some (state_change vol_destroying v) =
      find_vol-update_vol (state_change vol_destroying) state_change-id id m.vols v e in
    let gone : erase_vol id (update_vol started id vs') ≡ erase_vol id m.vols =
      erase_vol-update_vol started (λ w. refl) id vs'
      ∙ erase_vol-update_vol (state_change vol_destroying) state_change-id id m.vols in
    rw (e, found, gone, do_remove_volume, may_destroy) refl

create_volume-free :
    (reserve : List ℕ → ℕ) (other n : ℕ) (m : Manager)
    → m.is_restricted ≡ false
    → reserve m.reserved ≡ n
    → n < max_num_volumes
    → find_vol other m.vols ≡ none
    → ((create_volume reserve true other m).1.vols ≡ new_vol other n ∷ m.vols)
      × ((create_volume reserve true other m).1.reserved ≡ n ∷ m.reserved)
unfolding create_volume create_check create_finish
create_volume-free reserve other n m a g l e =
    (ground (arith, a, g, l, e), ground (arith, a, g, l, e))

marked_twice :
    (v : Vol)
    → can_remove v ≡ true
    → can_remove (state_change vol_destroying (state_change vol_destroying v)) ≡ true
unfolding can_remove state_change
marked_twice v c = c

abbrev pub both_marked : ℕ → Manager → Manager
both_marked id m = mark_task id (mark_task id m)

-- Two tasks that both look at the volume before either begins both destroy it. If a creation gets the
-- ordinal between their ends, where it is reserved once and the id of the new volume is not there, the
-- second task takes it away from the new volume: this one is in the map, and its ordinal is free.
pub finish_task-twice :
    (reserve : List ℕ → ℕ) (id other : ℕ) (m : Manager) (v : Vol)
    → find_vol id m.vols ≡ some v
    → can_remove v ≡ true
    → m.is_restricted ≡ false
    → id ≢ other
    → find_vol other m.vols ≡ none
    → v.ordinal < max_num_volumes
    → HasNot v.ordinal (unreserve v.ordinal m.reserved)
    → reserve (unreserve v.ordinal m.reserved) ≡ v.ordinal
    → let both = both_marked id m in
      let first = finish_task id v.ordinal (start_task id (start_task id both)) in
      let last = finish_task id v.ordinal (create_volume reserve true other first).1 in
      (may_destroy id both ≡ true)
      × (find_vol other last.vols ≡ some (new_vol other v.ordinal))
      × HasNot v.ordinal last.reserved
unfolding mark_task may_destroy start_task finish_task
finish_task-twice reserve id other m v e c a apart free l once g =
    let mark = state_change vol_destroying in
    let vs₁ = update_vol mark id m.vols in
    let vs₂ = update_vol mark id vs₁ in
    let vs₃ = update_vol started id vs₂ in
    let first = finish_task id v.ordinal (start_task id (start_task id (both_marked id m))) in
    let gone : erase_vol id (update_vol started id vs₃) ≡ erase_vol id m.vols =
      erase_vol-update_vol started (λ w. refl) id vs₃
      ∙ erase_vol-update_vol started (λ w. refl) id vs₂
      ∙ erase_vol-update_vol mark state_change-id id vs₁
      ∙ erase_vol-update_vol mark state_change-id id m.vols in
    let found : find_vol id vs₂ ≡ some (mark (mark v)) =
      find_vol-update_vol mark state_change-id id vs₁ (mark v)
        (find_vol-update_vol mark state_change-id id m.vols v e) in
    let vacant : find_vol other first.vols ≡ none =
      ap (find_vol other) gone ∙ find_vol-erase_vol id other m.vols free in
    let (vols, reserved) = create_volume-free reserve other v.ordinal first a g l vacant in
    (
      rw (found, may_destroy) (marked_twice v c),
      rw vols (ground (arith, apart)),
      rw reserved (ground (arith, once)),
    )
