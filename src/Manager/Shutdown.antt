-- ===== src/Manager/Shutdown.antt =====
-- What keeps a server from shutting down (volume_mgr.cpp and homeblks_impl.cpp).
use home_blocks.Prelude.{
  ℕ, ◌+◌, ◌≤◌, ◌≡◌, refl, Bool, false, List, [], ◌∷◌, Option, none, some, arith, leb, Bool-cases,
  Option-cases, inl, inr,
}
use home_blocks.Prelude.Errors.{Result-cases}
use home_blocks.Manager.State.{
  max_num_volumes, Manager, find_vol, state_change, can_remove, vol_destroying,
}
use home_blocks.Manager.Ops.{
  create_check, create_finish, create_volume, remove_volume, do_remove_volume, remove_all, vol_gc,
  vols_to_remove, can_shutdown, fault_containment, exit_fc, FcEvent, enter_global, enter, exit,
  on_fault_containment,
}

-- What happens to the server: a creation, the task of a removal, a run of the collector, an event.
pub data Op : Type 0 where
  create : Bool → ℕ → Op
  remove : ℕ → Op
  collect : Op
  event : FcEvent → Option ℕ → Op

abbrev pub step : (List ℕ → ℕ) → Op → Manager → Manager
step reserve (create made id) m = (create_volume reserve made id m).1
step reserve (remove id) m = do_remove_volume id m
step reserve collect m = vol_gc m
step reserve (event e cookie) m = on_fault_containment e cookie m

abbrev pub run : (List ℕ → ℕ) → List Op → Manager → Manager
run reserve [] m = m
run reserve (o ∷ os) m = run reserve os (step reserve o m)

create-outstanding :
    (reserve : List ℕ → ℕ) (made : Bool) (id : ℕ) (m : Manager)
    → m.outstanding_reqs ≤ (create_volume reserve made id m).1.outstanding_reqs
unfolding create_volume create_check create_finish
create-outstanding reserve made id m = elim (Bool-cases m.is_restricted) [
  | inl a ↦ ground (arith, a)
  | inr a ↦ elim (Bool-cases (leb max_num_volumes (reserve m.reserved))) [
    | inl b ↦ ground (arith, a, b)
    | inr b ↦ elim (Option-cases (find_vol id m.vols)) [
      | inr (v, c) ↦ ground (arith, a, b, c)
      | inl c ↦ elim (Bool-cases made) [
        | inl d ↦ ground (arith, a, b, c, d)
        | inr d ↦ ground (arith, a, b, c, d)
      ]
    ]
  ]
]

pub remove-outstanding :
    (id : ℕ) (m : Manager) → (do_remove_volume id m).outstanding_reqs ≡ m.outstanding_reqs
unfolding do_remove_volume
remove-outstanding id m = elim (Option-cases (find_vol id m.vols)) [
  | inl e ↦ ground (arith, e)
  | inr (v, e) ↦ elim (Bool-cases (can_remove (state_change vol_destroying v))) [
    | inl f ↦ ground (arith, e, f)
    | inr f ↦ ground (arith, e, f)
  ]
]

remove_all-outstanding :
    (ids : List ℕ) (m : Manager) → (remove_all ids m).outstanding_reqs ≡ m.outstanding_reqs
unfolding remove_all
remove_all-outstanding [] m = refl
remove_all-outstanding (id ∷ ids) m = elim (Result-cases (remove_volume id m)) [
  | inl (u, e) ↦
      ground (arith, e, remove_all-outstanding ids (do_remove_volume id m), remove-outstanding id m)
  | inr (f, e) ↦ ground (arith, e, remove_all-outstanding ids m)
]

event-outstanding :
    (e : FcEvent) (cookie : Option ℕ) (m : Manager)
    → (on_fault_containment e cookie m).outstanding_reqs ≡ m.outstanding_reqs
unfolding on_fault_containment fault_containment exit_fc
event-outstanding enter_global cookie m = refl
event-outstanding enter none m = refl
event-outstanding exit none m = refl
event-outstanding enter (some id) m = elim (Option-cases (find_vol id m.vols)) [
  | inl f ↦ ground (arith, f)
  | inr (v, f) ↦ ground (arith, f)
]
event-outstanding exit (some id) m = elim (Option-cases (find_vol id m.vols)) [
  | inl f ↦ ground (arith, f)
  | inr (v, f) ↦ ground (arith, f)
]

run-outstanding :
    (reserve : List ℕ → ℕ) (os : List Op) (m : Manager)
    → m.outstanding_reqs ≤ (run reserve os m).outstanding_reqs
unfolding vol_gc
run-outstanding reserve [] m = omega arith
run-outstanding reserve (create made id ∷ os) m = omega (
  arith,
  create-outstanding reserve made id m,
  run-outstanding reserve os (create_volume reserve made id m).1,
)
run-outstanding reserve (remove id ∷ os) m =
    omega (arith, remove-outstanding id m, run-outstanding reserve os (do_remove_volume id m))
run-outstanding reserve (collect ∷ os) m = omega (
  arith,
  remove_all-outstanding (vols_to_remove m.vols) m,
  run-outstanding reserve os (remove_all (vols_to_remove m.vols) m),
)
run-outstanding reserve (event e cookie ∷ os) m = omega (
  arith,
  event-outstanding e cookie m,
  run-outstanding reserve os (on_fault_containment e cookie m),
)

counted :
    (reserve : List ℕ → ℕ) (made : Bool) (id : ℕ) (m : Manager)
    → m.is_restricted ≡ false
    → max_num_volumes ≤ reserve m.reserved
    → (create_volume reserve made id m).1.outstanding_reqs ≡ m.outstanding_reqs + 1
unfolding create_volume create_check
counted reserve made id m a b = ground (arith, a, b)

-- A creation that finds no ordinal below the maximum, on a server that is not restricted, keeps its
-- count: whatever is created, removed, collected or contained after it, the server cannot shut down.
pub create_volume_blocks_shutdown :
    (reserve : List ℕ → ℕ) (made : Bool) (id : ℕ) (m : Manager) (os : List Op)
    → m.is_restricted ≡ false
    → max_num_volumes ≤ reserve m.reserved
    → can_shutdown (run reserve os (create_volume reserve made id m).1) ≡ false
unfolding can_shutdown
create_volume_blocks_shutdown reserve made id m os a b = ground (
  arith,
  counted reserve made id m a b,
  run-outstanding reserve os (create_volume reserve made id m).1,
)
