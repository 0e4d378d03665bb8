-- ===== src/Manager/Lifecycle.antt =====
-- Removal and fault containment as they follow each other (volume_mgr.cpp and homeblks_impl.cpp).
use home_blocks.Prelude.{
  ℕ, ◌≡◌, ◌≢◌, refl, ap, sym, ◌∙◌, true, false, List, [], ◌∷◌, none, some, arith, ◌==◌, All,
  Bool-cases, ==_iff, inl, inr,
}
use home_blocks.Manager.State.{
  VolumeState, Vol, Manager, find_vol, update_vol, erase_vol, state_change, can_remove,
  is_destroying, vol_online, vol_destroying,
}
use home_blocks.Manager.Ops.{do_remove_volume, set_state, exit_fc, exit, on_fault_containment}
use home_blocks.Manager.Invariant.{Apart}

nowhere : (id : ℕ) (vs : List Vol) → All (λ w. w.id ≢ id) vs → find_vol id vs ≡ none
nowhere id [] h = refl
nowhere id (w ∷ ws) h = ground (arith, h.0, nowhere id ws h.1)

ids_apart :
    (v : Vol) (id : ℕ) (vs : List Vol)
    → v.id ≡ id
    → All (λ w. (w.id ≢ v.id) × (w.ordinal ≢ v.ordinal)) vs
    → All (λ w. w.id ≢ id) vs
ids_apart v id [] e h = tt
ids_apart v id (w ∷ ws) e h = ((λ same. h.0.0 (same ∙ sym e)), ids_apart v id ws e h.1)

find-erase :
    (id : ℕ) (vs : List Vol) (v : Vol)
    → Apart vs
    → find_vol id vs ≡ some v
    → find_vol id (erase_vol id vs) ≡ none
find-erase id [] v h f = refl
find-erase id (w ∷ ws) v h f = elim (Bool-cases (w.id == id)) [
  | inl e ↦ rw e (nowhere id ws (ids_apart w id ws ((==_iff w.id id).0 e) h.0))
  | inr e ↦ ground (arith, e, f, find-erase id ws v h.1)
]

pub find-erase_other :
    (id other : ℕ) (vs : List Vol)
    → other ≢ id
    → find_vol other (erase_vol id vs) ≡ find_vol other vs
find-erase_other id other [] h = refl
find-erase_other id other (w ∷ ws) h = ground (arith, h, find-erase_other id other ws h)

find-update :
    (f : Vol → Vol) (id : ℕ) (vs : List Vol) (v : Vol)
    → ((w : Vol) → (f w).id ≡ w.id)
    → find_vol id vs ≡ some v
    → find_vol id (update_vol f id vs) ≡ some (f v)
find-update f id [] v keep h = ground (arith, h)
find-update f id (w ∷ ws) v keep h = ground (arith, h, keep w, find-update f id ws v keep)

-- The two ends of the task.
removed :
    (id : ℕ) (m : Manager) (v : Vol)
    → find_vol id m.vols ≡ some v
    → can_remove v ≡ true
    → (do_remove_volume id m).vols ≡ erase_vol id m.vols
unfolding do_remove_volume can_remove state_change
removed id m v f free = ground (arith, f, free)

put_off :
    (id : ℕ) (m : Manager) (v : Vol)
    → find_vol id m.vols ≡ some v
    → can_remove v ≡ false
    → do_remove_volume id m ≡ set_state vol_destroying id m
unfolding do_remove_volume can_remove state_change
put_off id m v f busy = ground (arith, f, busy)

-- After a removal of a volume without requests no volume has the id, the ids being apart; the other
-- volumes are found as before.
pub do_remove_volume-find_vol :
    (id other : ℕ) (m : Manager) (v : Vol)
    → Apart m.vols
    → find_vol id m.vols ≡ some v
    → can_remove v ≡ true
    → (find_vol id (do_remove_volume id m).vols ≡ none)
      × (other ≢ id → find_vol other (do_remove_volume id m).vols ≡ find_vol other m.vols)
do_remove_volume-find_vol id other m v apart f free =
    let gone = removed id m v f free in
    (
      ap (find_vol id) gone ∙ find-erase id m.vols v apart f,
      λ h. ap (find_vol other) gone ∙ find-erase_other id other m.vols h,
    )

revived :
    (s : VolumeState) (id : ℕ) (m : Manager) (v : Vol)
    → find_vol id m.vols ≡ some v
    → find_vol id (set_state s id m).vols ≡ some (state_change s v)
unfolding state_change
revived s id m v f = find-update (state_change s) id m.vols v (λ w. refl) f

exited :
    (id : ℕ) (m : Manager) (v : Vol)
    → find_vol id m.vols ≡ some v
    → on_fault_containment exit (some id) m ≡ set_state vol_online id m
unfolding on_fault_containment exit_fc
exited id m v f = ground (arith, f)

-- The end of a containment takes back a removal that waits for the volume's requests: the volume is
-- found as it was, but online, and so is no longer being destroyed.
pub exit_fc_cancels_remove :
    (id : ℕ) (m : Manager) (v : Vol)
    → find_vol id m.vols ≡ some v
    → can_remove v ≡ false
    → (w : Vol) × (find_vol id (on_fault_containment exit (some id) (do_remove_volume id m)).vols
        ≡ some w)
      × (w.state ≡ vol_online)
      × (is_destroying w ≡ false)
      × (w.outstanding_reqs ≡ v.outstanding_reqs)
unfolding is_destroying state_change
exit_fc_cancels_remove id m v f busy =
    let marked = revived vol_destroying id m v f in
    let m₁ = set_state vol_destroying id m in
    (
      state_change vol_online (state_change vol_destroying v),
      ap (λ (n : Manager). find_vol id (on_fault_containment exit (some id) n).vols)
            (put_off id m v f busy)
          ∙ ap (λ (n : Manager). find_vol id n.vols)
              (exited id m₁ (state_change vol_destroying v) marked)
          ∙ revived vol_online id m₁ (state_change vol_destroying v) marked,
      refl,
      refl,
      refl,
    )
