-- ===== src/Manager/CreationTests.antt =====
-- Runs of creations and removals beside each other (volume_mgr.cpp).
use home_blocks.Prelude.{ℕ, suc, ◌≤◌, ◌≡◌, refl, max, List, [], ◌∷◌, true, false, some, arith, inl}
use home_blocks.Manager.State.{vol_online, Vol, Manager, can_remove, find_vol, is_destroying}
use home_blocks.Manager.Ops.{
  create_volume, create_check, create_finish, new_vol, can_shutdown, enter, no_outstanding_vols,
}
use home_blocks.Manager.Invariant.{HasNot}
use home_blocks.Manager.Creations.{
  Creations, find_pending, begin_create, end_create, begin, end, remove, removed, event, run,
}
use home_blocks.Manager.Sound.{IsSound, GivesNew}
use home_blocks.Manager.Concurrent.{run-IsSound, pending-can_shutdown}
use home_blocks.Manager.TwoRemovals.{
  both_marked, may_destroy, start_task, finish_task, finish_task-twice,
}

-- The ordinal behind the largest one.
abbrev next_id : List ℕ → ℕ
next_id [] = 0
next_id (n ∷ ns) = max (suc n) (next_id ns)

above-HasNot : (k : ℕ) (ns : List ℕ) → next_id ns ≤ k → HasNot k ns
above-HasNot k [] le = tt
above-HasNot k (n ∷ ns) le = ((λ e. omega (arith, e, le)), above-HasNot k ns (omega (arith, le)))

next_id-GivesNew : GivesNew next_id
next_id-GivesNew ns = above-HasNot (next_id ns) ns (omega arith)

abbrev first_vol : Vol
first_vol = record {
  id = 70;
  ordinal = 0;
  state = vol_online;
  outstanding_reqs = 0;
  destroy_started = false;
}

abbrev server : Manager
server = record {
  is_restricted = false;
  shutdown_started = true;
  outstanding_reqs = 0;
  vols = first_vol ∷ [];
  reserved = 0 ∷ [];
}

abbrev quiet : Creations
quiet = record { manager = server; pending = []; removals = [] }

quiet-IsSound : IsSound quiet.manager quiet.pending quiet.removals
quiet-IsSound = record {
  valid = record { apart = (tt, tt); reserved = (inl refl, omega arith, tt) };
  owned = tt;
  counted = omega arith;
  underway = tt;
}

-- Two creations at once, a removal between them; the first one ends last, behind a third that fails.
run-IsSound_example :
    let acts =
      begin 71
      ∷ begin 72
      ∷ remove 70
      ∷ end true 2
      ∷ begin 73
      ∷ event enter (some 72)
      ∷ end false 3
      ∷ removed 0
      ∷ end true 1
      ∷ [] in
    IsSound
      (run next_id acts quiet).manager
      (run next_id acts quiet).pending
      (run next_id acts quiet).removals
run-IsSound_example =
    run-IsSound next_id
      (begin 71
        ∷ begin 72
        ∷ remove 70
        ∷ end true 2
        ∷ begin 73
        ∷ event enter (some 72)
        ∷ end false 3
        ∷ removed 0
        ∷ end true 1
        ∷ [])
      quiet next_id-GivesNew quiet-IsSound

still_pending :
    find_pending 1 (run next_id (begin 71 ∷ begin 72 ∷ end true 2 ∷ []) quiet).pending
    ≡ some (record { id = 71; ordinal = 1 })
unfolding begin_create end_create create_check create_finish
still_pending = refl

pending-can_shutdown_example :
    can_shutdown (run next_id (begin 71 ∷ begin 72 ∷ end true 2 ∷ []) quiet).manager ≡ false
pending-can_shutdown_example =
    pending-can_shutdown next_id (begin 71 ∷ begin 72 ∷ end true 2 ∷ []) quiet 1
      (record { id = 71; ordinal = 1 }) next_id-GivesNew quiet-IsSound still_pending

ended :
    can_shutdown (run next_id (begin 71 ∷ begin 72 ∷ end true 2 ∷ end false 1 ∷ []) quiet).manager
    ≡ true
unfolding begin_create end_create create_check create_finish can_shutdown no_outstanding_vols
    is_destroying
ended = refl

-- A reserver that gives the lowest ordinal to the first volume.
abbrev reuse : List ℕ → ℕ
reuse [] = 0
reuse (n ∷ ns) = suc n

may_go : can_remove first_vol ≡ true
unfolding can_remove
may_go = refl

finish_task-twice_example :
    let both = both_marked 70 server in
    let first = finish_task 70 0 (start_task 70 (start_task 70 both)) in
    let last = finish_task 70 0 (create_volume reuse true 71 first).1 in
    (may_destroy 70 both ≡ true)
    × (find_vol 71 last.vols ≡ some (new_vol 71 0))
    × HasNot 0 last.reserved
finish_task-twice_example =
    finish_task-twice reuse 70 71 server first_vol refl may_go refl (λ e. omega (arith, e)) refl
      (omega arith) tt refl
