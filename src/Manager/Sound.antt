-- ===== src/Manager/Sound.antt =====
-- What pending creations and volumes keep apart, over removals, collections and fault containment
-- (volume_mgr.cpp and homeblks_impl.cpp).
use home_blocks.Prelude.{
  ℕ, ◌≤◌, ◌≡◌, refl, subst, true, false, List, ◌∷◌, Option, none, some, arith, length, Option-cases,
  inl, inr,
}
use home_blocks.Manager.State.{
  VolumeState, Vol, Manager, find_vol, update_vol, erase_vol, unreserve, state_change,
  vol_destroying, vol_offline, vol_online,
}
use home_blocks.Manager.Ops.{
  set_state, FcEvent, enter_global, enter, exit, on_fault_containment, fault_containment, exit_fc,
}
use home_blocks.Manager.Invariant.{HasNot, Reserved-more, IsValid}
use home_blocks.Manager.Removal.{update_vol-IsValid, erase_vol-IsValid}
use home_blocks.Manager.TwoRemovals.{
  mark_task, start_task, finish_task, started, find_vol-update_vol,
}
use home_blocks.Manager.Creations.{Pending, find_pending, erase_pending}
use home_blocks.Manager.Pending.{Owned, Owned-more, Owned-erase, Owned-update}
use home_blocks.Manager.Underway.{
  Underway, Underway-update, Underway-others, Underway-erase, find_pending-Underway,
}

-- Ids and ordinals of the volumes are apart, the pending creations hold theirs and are counted, and each
-- removal whose volume is being destroyed has its own volume, which is still in the map.
pub record IsSound (m : Manager) (ps qs : List Pending) : Type 0 where
  pub valid : IsValid m
  pub owned : Owned m.reserved m.vols ps
  pub counted : length ps ≤ m.outstanding_reqs
  pub underway : Underway m.vols qs

-- `IDReserver` gives an ordinal that is not reserved.
abbrev pub GivesNew : (List ℕ → ℕ) → Type 0
GivesNew reserve = (ns : List ℕ) → HasNot (reserve ns) ns

module _ (f : Vol → Vol) (keeps_id : (w : Vol) → (f w).id ≡ w.id)
    (keeps_ordinal : (w : Vol) → (f w).ordinal ≡ w.ordinal)
    (keeps_started : (w : Vol) → w.destroy_started ≡ true → (f w).destroy_started ≡ true) where
  -- A change of one volume.
  update_vol-IsSound :
      (id : ℕ) (m : Manager) (ps qs : List Pending)
      → IsSound m ps qs
      → IsSound (record m { vols = update_vol f id m.vols }) ps qs
  update_vol-IsSound id m ps qs h = record {
    valid = update_vol-IsValid f keeps_id keeps_ordinal id m h.valid;
    owned = Owned-update f keeps_ordinal id m.reserved m.vols ps h.owned;
    counted = h.counted;
    underway = Underway-update f keeps_id keeps_ordinal keeps_started id m.vols qs h.underway;
  }

set_state-IsSound :
    (s : VolumeState) (id : ℕ) (m : Manager) (ps qs : List Pending)
    → IsSound m ps qs
    → IsSound (set_state s id m) ps qs
unfolding state_change
set_state-IsSound s = update_vol-IsSound (state_change s) (λ w. refl) (λ w. refl) (λ w h. h)

pub mark_task-IsSound :
    (id : ℕ) (m : Manager) (ps qs : List Pending) → IsSound m ps qs → IsSound (mark_task id m) ps qs
unfolding mark_task
mark_task-IsSound = set_state-IsSound vol_destroying

-- The destruction of a volume that had none begins.
pub start_task-IsSound :
    (id : ℕ) (m : Manager) (v : Vol) (ps qs : List Pending)
    → find_vol id m.vols ≡ some v
    → v.destroy_started ≡ false
    → IsSound m ps qs
    → IsSound (start_task id m) ps (record { id = id; ordinal = v.ordinal } ∷ qs)
unfolding start_task
start_task-IsSound id m v ps qs e idle h =
    let after = update_vol-IsSound started (λ w. refl) (λ w. refl) (λ w s. refl) id m ps qs h in
    record {
      valid = after.valid;
      owned = after.owned;
      counted = h.counted;
      underway = (
        record {
          vol = started v;
          found = find_vol-update_vol started (λ w. refl) id m.vols v e;
          ordinal = refl;
          started = refl;
        },
        Underway-others id m.vols v qs e idle h.underway,
        after.underway,
      );
    }

-- The volume of a removal that ends goes, with its ordinal.
pub finish_task-IsSound :
    (n : ℕ) (m : Manager) (ps qs : List Pending) (q : Pending)
    → find_pending n qs ≡ some q
    → IsSound m ps qs
    → IsSound (finish_task q.id q.ordinal m) ps (erase_pending n qs)
unfolding finish_task
finish_task-IsSound n m ps qs q f h =
    let (own, others, rest) = find_pending-Underway n m.vols qs q f h.underway in
    subst
      (λ (o : ℕ).
        IsSound (record m { vols = erase_vol q.id m.vols; reserved = unreserve o m.reserved }) ps
          (erase_pending n qs))
      own.ordinal
      record {
        valid = erase_vol-IsValid q.id m own.vol own.found h.valid;
        owned = Owned-erase q.id m.reserved m.vols own.vol ps own.found h.owned;
        counted = h.counted;
        underway = Underway-erase q.id m.vols (erase_pending n qs) others rest;
      }

pub event-IsSound :
    (e : FcEvent) (cookie : Option ℕ) (m : Manager) (ps qs : List Pending)
    → IsSound m ps qs
    → IsSound (on_fault_containment e cookie m) ps qs
unfolding on_fault_containment fault_containment exit_fc
event-IsSound enter_global cookie m ps qs h = record {
  valid = record { apart = h.valid.apart; reserved = h.valid.reserved };
  owned = h.owned;
  counted = h.counted;
  underway = h.underway;
}
event-IsSound enter none m ps qs h = h
event-IsSound exit none m ps qs h = h
event-IsSound enter (some id) m ps qs h = elim (Option-cases (find_vol id m.vols)) [
  | inl e ↦ rw (e, on_fault_containment) h
  | inr (v, e) ↦ rw (e, on_fault_containment) (set_state-IsSound vol_offline id m ps qs h)
]
event-IsSound exit (some id) m ps qs h = elim (Option-cases (find_vol id m.vols)) [
  | inl e ↦ rw (e, on_fault_containment) h
  | inr (v, e) ↦ rw (e, on_fault_containment) (set_state-IsSound vol_online id m ps qs h)
]

-- The reserver's ordinal is taken, and a count with it.
pub reserved-IsSound :
    (n k : ℕ) (m : Manager) (ps qs : List Pending)
    → IsSound m ps qs
    → m.outstanding_reqs ≤ k
    → IsSound (record m { reserved = n ∷ m.reserved; outstanding_reqs = k }) ps qs
reserved-IsSound n k m ps qs h le = record {
  valid = record {
    apart = h.valid.apart;
    reserved = Reserved-more n m.reserved m.vols h.valid.reserved;
  };
  owned = Owned-more n m.reserved m.vols ps h.owned;
  counted = omega (arith, h.counted, le);
  underway = h.underway;
}
