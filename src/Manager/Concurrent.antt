-- ===== src/Manager/Concurrent.antt =====
-- The invariant of creations that run at once with removals, collections and fault containment
-- (volume_mgr.cpp and homeblks_impl.cpp), and the race that the count of `create_volume` is there for.
use home_blocks.Prelude.{
  ℕ, ◌+◌, ◌-◌, ◌≤◌, ◌<◌, ◌≡◌, ◌≢◌, refl, sym, subst, Bool, false, true, List, [], ◌∷◌, none, some,
  arith, leb, ◌==◌, All, length, Bool-cases, Option-cases, inl, inr,
}
use home_blocks.Prelude.Errors.{
  Result, operation_not_supported, internal_error, invalid_argument, ok, err,
}
use home_blocks.Manager.State.{
  max_num_volumes, Vol, Manager, find_vol, state_change, can_remove, vol_destroying,
}
use home_blocks.Manager.Ops.{
  emplace_vol, dec_ref, create_check, create_finish, new_vol, can_shutdown,
}
use home_blocks.Manager.Creations.{
  add_pending, Pending, Creations, find_pending, erase_pending, begin_create, end_create,
  begin_removal, end_removal, Act, begin, end, remove, removed, event, act, run,
}
use home_blocks.Manager.TwoRemovals.{mark_task, may_destroy, find_vol-update_vol, state_change-id}
use home_blocks.Manager.Pending.{new-vols, new-pending, Owned-vol, find_pending-Ends}
use home_blocks.Manager.Underway.{Underway-vol}
use home_blocks.Manager.Sound.{
  IsSound, GivesNew, mark_task-IsSound, start_task-IsSound, finish_task-IsSound, event-IsSound,
  reserved-IsSound,
}

abbrev Sound : Creations → Type 0
Sound c = IsSound c.manager c.pending c.removals

-- What follows a check that came out as `r`.
begin_create-from :
    (reserve : List ℕ → ℕ) (id : ℕ) (c : Creations) (r : Result ℕ × Manager)
    → create_check reserve id c.manager ≡ r
    → Sound (add_pending id c r)
    → Sound (begin_create reserve id c)
unfolding begin_create
begin_create-from reserve id c r e h = subst (λ x. Sound (add_pending id c x)) (sym e) h

begin_create-IsSound :
    (reserve : List ℕ → ℕ) (id : ℕ) (c : Creations)
    → GivesNew reserve
    → Sound c
    → Sound (begin_create reserve id c)
unfolding create_check
begin_create-IsSound reserve id c new h =
    let m = c.manager in
    let n = reserve m.reserved in
    let from = begin_create-from reserve id c in
    let taken =
      λ (k : ℕ) (le : m.outstanding_reqs ≤ k). reserved-IsSound n k m c.pending c.removals h le in
    let m' = record m { reserved = n ∷ m.reserved; outstanding_reqs = m.outstanding_reqs + 1 } in
    elim (Bool-cases m.is_restricted) [
      | inl a ↦ from (err operation_not_supported, m) (ground (arith, a)) h
      | inr a ↦ elim (Bool-cases (leb max_num_volumes n)) [
        | inl b ↦
            from (err internal_error, m') (ground (arith, a, b))
              (taken (m.outstanding_reqs + 1) (omega arith))
        | inr b ↦ elim (Option-cases (find_vol id m.vols)) [
          | inr (v, e) ↦
              from (err invalid_argument, dec_ref m') (ground (arith, a, b, e))
                (taken (m.outstanding_reqs + 1 - 1) (omega arith))
          | inl e ↦
              let more = taken (m.outstanding_reqs + 1) (omega arith) in
              from (ok n, m') (ground (arith, a, b, e))
                record {
                  valid = more.valid;
                  owned = (
                    (inl refl, ground (arith, b)),
                    new-vols n m.reserved m.vols (new m.reserved) h.valid.reserved,
                    new-pending n m.reserved m.vols c.pending (new m.reserved) h.owned,
                    more.owned,
                  );
                  counted = omega (arith, h.counted);
                  underway = h.underway;
                }
        ]
      ]
    ]

not_found :
    (id n : ℕ) (vs : List Vol)
    → find_vol id vs ≡ none
    → All (λ w. w.ordinal ≢ n) vs
    → All (λ w. (w.id ≢ id) × (w.ordinal ≢ n)) vs
not_found id n [] f h = tt
not_found id n (v ∷ vs) f h = elim (Bool-cases (v.id == id)) [
  | inl e ↦ absurd (ground (arith, f, e))
  | inr e ↦ ((ground (arith, e), h.0), not_found id n vs (ground (arith, f, e)) h.1)
]

-- A creation that ends puts its volume into the map, unless its id is there by then.
made-IsSound :
    (made : Bool) (m : Manager) (ps qs : List Pending) (p : Pending) (n : ℕ)
    → find_pending n ps ≡ some p
    → IsSound m ps qs
    → IsSound (create_finish made p.id p.ordinal m).1 (erase_pending n ps) qs
unfolding create_finish
made-IsSound made m ps qs p n f h =
    let ends = find_pending-Ends n m.reserved m.vols ps p f h.owned in
    let fewer : length (erase_pending n ps) ≤ m.outstanding_reqs - 1 =
      omega (arith, ends.fewer, h.counted) in
    elim (Bool-cases made) [
      | inr a ↦
          rw (a, create_finish)
            record {
              valid = record { apart = h.valid.apart; reserved = h.valid.reserved };
              owned = ends.owned;
              counted = fewer;
              underway = h.underway;
            }
      | inl a ↦ elim (Option-cases (find_vol p.id m.vols)) [
        | inr (w, e) ↦
            rw (a, e, create_finish, emplace_vol)
              record {
                valid = record { apart = h.valid.apart; reserved = h.valid.reserved };
                owned = ends.owned;
                counted = fewer;
                underway = h.underway;
              }
        | inl e ↦
            rw (a, e, create_finish, emplace_vol)
              record {
                valid = record {
                  apart = (not_found p.id p.ordinal m.vols e ends.not_in_vols, h.valid.apart);
                  reserved = (ends.reserved, ends.in_range, h.valid.reserved);
                };
                owned =
                    Owned-vol (new_vol p.id p.ordinal) m.reserved m.vols (erase_pending n ps)
                      ends.others ends.owned;
                counted = fewer;
                underway = Underway-vol (new_vol p.id p.ordinal) m.vols qs e h.underway;
              }
      ]
    ]

end_create-IsSound : (made : Bool) (n : ℕ) (c : Creations) → Sound c → Sound (end_create made n c)
unfolding end_create
end_create-IsSound made n c h = elim (Option-cases (find_pending n c.pending)) [
  | inl e ↦ rw (e, end_create) h
  | inr (p, e) ↦ rw (e, end_create) (made-IsSound made c.manager c.pending c.removals p n e h)
]

find_vol-mark_task :
    (id : ℕ) (m : Manager) (v : Vol)
    → find_vol id m.vols ≡ some v
    → find_vol id (mark_task id m).vols ≡ some (state_change vol_destroying v)
unfolding mark_task
find_vol-mark_task id m v =
    find_vol-update_vol (state_change vol_destroying) state_change-id id m.vols v

may_destroy-idle :
    (id : ℕ) (m : Manager) (v : Vol)
    → find_vol id m.vols ≡ some v
    → may_destroy id m ≡ true
    → v.destroy_started ≡ false
unfolding may_destroy can_remove
may_destroy-idle id m v e h = ground (arith, e, h)

begin_removal-IsSound : (id : ℕ) (c : Creations) → Sound c → Sound (begin_removal id c)
unfolding begin_removal state_change
begin_removal-IsSound id c h =
    let m = c.manager in
    let marked = mark_task id m in
    elim (Option-cases (find_vol id m.vols)) [
      | inl e ↦ rw (e, begin_removal) h
      | inr (v, e) ↦
          let sound = mark_task-IsSound id m c.pending c.removals h in
          let found = find_vol-mark_task id m v e in
          elim (Bool-cases (may_destroy id marked)) [
            | inr g ↦ rw (e, g, begin_removal) sound
            | inl g ↦
                rw (e, g, begin_removal)
                  (start_task-IsSound id marked (state_change vol_destroying v) c.pending c.removals
                    found (may_destroy-idle id marked (state_change vol_destroying v) found g)
                    sound)
          ]
    ]

end_removal-IsSound : (n : ℕ) (c : Creations) → Sound c → Sound (end_removal n c)
unfolding end_removal
end_removal-IsSound n c h = elim (Option-cases (find_pending n c.removals)) [
  | inl e ↦ rw (e, end_removal) h
  | inr (q, e) ↦ rw (e, end_removal) (finish_task-IsSound n c.manager c.pending c.removals q e h)
]

act-IsSound :
    (reserve : List ℕ → ℕ) (a : Act) (c : Creations)
    → GivesNew reserve
    → Sound c
    → Sound (act reserve a c)
act-IsSound reserve (begin id) c new h = begin_create-IsSound reserve id c new h
act-IsSound reserve (end made n) c new h = end_create-IsSound made n c h
act-IsSound reserve (remove id) c new h = begin_removal-IsSound id c h
act-IsSound reserve (removed n) c new h = end_removal-IsSound n c h
act-IsSound reserve (event e cookie) c new h =
    event-IsSound e cookie c.manager c.pending c.removals h

-- Whatever creations and removals are begun and ended, in whatever order, with events of the fault
-- containment in between, where no other step comes between a removal's look at its volume and the start
-- of the destruction, and the reserver never gives an ordinal that is reserved: ids and ordinals of the
-- volumes stay apart; the ordinal of a pending creation stays reserved, in no volume and in no other
-- creation, and its count stays held; and a volume that is being destroyed stays in the map, with its
-- ordinal and for one removal only, until this ends.
pub run-IsSound :
    (reserve : List ℕ → ℕ) (acts : List Act) (c : Creations)
    → GivesNew reserve
    → IsSound c.manager c.pending c.removals
    → IsSound
        (run reserve acts c).manager
        (run reserve acts c).pending
        (run reserve acts c).removals
run-IsSound reserve [] c new h = h
run-IsSound reserve (a ∷ acts) c new h =
    run-IsSound reserve acts (act reserve a c) new (act-IsSound reserve a c new h)

-- While a creation is between its check and its end, the server cannot shut down, whatever creations,
-- removals and events of the fault containment run beside in these steps, if the reserver never gives an
-- ordinal that is reserved.
pub pending-can_shutdown :
    (reserve : List ℕ → ℕ) (acts : List Act) (c : Creations) (n : ℕ) (p : Pending)
    → GivesNew reserve
    → IsSound c.manager c.pending c.removals
    → find_pending n (run reserve acts c).pending ≡ some p
    → can_shutdown (run reserve acts c).manager ≡ false
unfolding can_shutdown
pending-can_shutdown reserve acts c n p new h f =
    let c' = run reserve acts c in
    let sound = run-IsSound reserve acts c new h in
    let ends = find_pending-Ends n c'.manager.reserved c'.manager.vols c'.pending p f sound.owned in
    let busy : 0 < c'.manager.outstanding_reqs = omega (arith, ends.fewer, sound.counted) in
    ground (arith, busy)
