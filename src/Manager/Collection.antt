-- ===== src/Manager/Collection.antt =====
-- What a run of the collector removes (homeblks_impl.cpp, `vol_gc`).
use home_blocks.Prelude.{
  ℕ, ◌≡◌, ◌≢◌, refl, ap, sym, ◌∙◌, true, false, List, [], ◌∷◌, none, some, arith, ◌==◌, ◌&&◌,
  Bool-cases, Option-cases, ==_iff, inl, inr,
}
use home_blocks.Prelude.Errors.{ok, Result-cases}
use home_blocks.Manager.State.{
  VolumeState, Vol, Manager, find_vol, update_vol, state_change, can_remove, is_destroying,
  is_offline, vol_destroying,
}
use home_blocks.Manager.Ops.{
  get_volume, remove_volume, do_remove_volume, vols_to_remove, remove_all, vol_gc,
}
use home_blocks.Manager.Invariant.{Has, IsValid}
use home_blocks.Manager.Removal.{do_remove_volume-IsValid}
use home_blocks.Manager.Lifecycle.{do_remove_volume-find_vol, find-erase_other}

find-update_other :
    (s : VolumeState) (id other : ℕ) (vs : List Vol)
    → other ≢ id
    → find_vol other (update_vol (state_change s) id vs) ≡ find_vol other vs
unfolding state_change
find-update_other s id other [] h = refl
find-update_other s id other (w ∷ ws) h = ground (arith, h, find-update_other s id other ws h)

-- The task for one id leaves the volumes with other ids.
find_vol-do_remove_volume :
    (k id : ℕ) (m : Manager) → id ≢ k → find_vol id (do_remove_volume k m).vols ≡ find_vol id m.vols
unfolding do_remove_volume
find_vol-do_remove_volume k id m h = elim (Option-cases (find_vol k m.vols)) [
  | inl e ↦ ground (arith, e)
  | inr (v, e) ↦ elim (Bool-cases (can_remove (state_change vol_destroying v))) [
    | inl f ↦ ground (arith, e, f, find-erase_other k id m.vols h)
    | inr f ↦ ground (arith, e, f, find-update_other vol_destroying k id m.vols h)
  ]
]

do_remove_volume-none :
    (k id : ℕ) (m : Manager)
    → find_vol id m.vols ≡ none
    → find_vol id (do_remove_volume k m).vols ≡ none
unfolding do_remove_volume
do_remove_volume-none k id m h = elim (Bool-cases (id == k)) [
  | inl e ↦
      let same : id ≡ k = (==_iff id k).0 e in
      let gone : find_vol k m.vols ≡ none = ap (λ (i : ℕ). find_vol i m.vols) (sym same) ∙ h in
      ground (arith, gone, h)
  | inr e ↦ find_vol-do_remove_volume k id m (ground (arith, e)) ∙ h
]

is_restricted-do_remove_volume :
    (k : ℕ) (m : Manager) → (do_remove_volume k m).is_restricted ≡ m.is_restricted
unfolding do_remove_volume
is_restricted-do_remove_volume k m = elim (Option-cases (find_vol k m.vols)) [
  | inl e ↦ ground (arith, e)
  | inr (v, e) ↦ elim (Bool-cases (can_remove (state_change vol_destroying v))) [
    | inl f ↦ ground (arith, e, f)
    | inr f ↦ ground (arith, e, f)
  ]
]

remove_all-none :
    (ids : List ℕ) (id : ℕ) (m : Manager)
    → find_vol id m.vols ≡ none
    → find_vol id (remove_all ids m).vols ≡ none
unfolding remove_all
remove_all-none [] id m h = h
remove_all-none (k ∷ ids) id m h = elim (Result-cases (remove_volume k m)) [
  | inl (u, e) ↦
      ground
        (arith, e, remove_all-none ids id (do_remove_volume k m) (do_remove_volume-none k id m h))
  | inr (f, e) ↦ ground (arith, e, remove_all-none ids id m h)
]

not_offline : (v : Vol) → is_destroying v ≡ true → is_offline v ≡ false
unfolding is_destroying is_offline
not_offline v d = ground (arith, d)

-- A volume that is being destroyed may be removed.
remove_volume_accepts :
    (id : ℕ) (m : Manager) (v : Vol)
    → m.is_restricted ≡ false
    → find_vol id m.vols ≡ some v
    → is_destroying v ≡ true
    → remove_volume id m ≡ ok tt
unfolding remove_volume get_volume
remove_volume_accepts id m v a f d = ground (arith, a, f, not_offline v d)

remove_all-find_vol :
    (ids : List ℕ) (id : ℕ) (m : Manager) (v : Vol)
    → Has id ids
    → IsValid m
    → m.is_restricted ≡ false
    → find_vol id m.vols ≡ some v
    → is_destroying v ≡ true
    → can_remove v ≡ true
    → find_vol id (remove_all ids m).vols ≡ none
unfolding remove_all
remove_all-find_vol [] id m v there valid a f d c = elim there [ ]
remove_all-find_vol (k ∷ ids) id m v there valid a f d c = elim (Bool-cases (id == k)) [
  | inl e ↦
      let same : id ≡ k = (==_iff id k).0 e in
      let found : find_vol k m.vols ≡ some v = ap (λ (i : ℕ). find_vol i m.vols) (sym same) ∙ f in
      let gone : find_vol id (do_remove_volume k m).vols ≡ none =
        ap (λ (i : ℕ). find_vol i (do_remove_volume k m).vols) same
        ∙ (do_remove_volume-find_vol k k m v valid.apart found c).0 in
      ground (
        arith,
        remove_volume_accepts k m v a found d,
        remove_all-none ids id (do_remove_volume k m) gone,
      )
  | inr e ↦
      let other : id ≢ k = ground (arith, e) in
      let later : Has id ids = elim there [ inl s ↦ absurd (other (sym s)) | inr l ↦ l ] in
      elim (Result-cases (remove_volume k m)) [
        | inl (u, g) ↦
            let rest =
              remove_all-find_vol ids id (do_remove_volume k m) v later
                (do_remove_volume-IsValid k m valid) (is_restricted-do_remove_volume k m ∙ a)
                (find_vol-do_remove_volume k id m other ∙ f) d c in
            ground (arith, g, rest)
        | inr (x, g) ↦ ground (arith, g, remove_all-find_vol ids id m v later valid a f d c)
      ]
]

vols_to_remove-Has :
    (id : ℕ) (vs : List Vol) (v : Vol)
    → find_vol id vs ≡ some v
    → is_destroying v ≡ true
    → can_remove v ≡ true
    → Has id (vols_to_remove vs)
unfolding vols_to_remove
vols_to_remove-Has id [] v f d c = absurd (ground (arith, f))
vols_to_remove-Has id (w ∷ ws) v f d c = elim (Bool-cases (w.id == id)) [
  | inl e ↦
      let same : w ≡ v = ground (arith, f, e) in
      let picked : (is_destroying w && can_remove w) ≡ true = rw same (ground (arith, d, c)) in
      rw picked (inl ((==_iff w.id id).0 e))
  | inr e ↦
      let later = vols_to_remove-Has id ws v (ground (arith, f, e)) d c in
      elim (Bool-cases (is_destroying w && can_remove w)) [
        | inl p ↦ rw p (inr later)
        | inr p ↦ rw p later
      ]
]

-- On a server that is not restricted, with ids and ordinals apart, a run of the collector removes
-- every volume that is being destroyed, has no requests, and whose destruction has not begun.
pub vol_gc-find_vol :
    (id : ℕ) (m : Manager) (v : Vol)
    → IsValid m
    → m.is_restricted ≡ false
    → find_vol id m.vols ≡ some v
    → is_destroying v ≡ true
    → can_remove v ≡ true
    → find_vol id (vol_gc m).vols ≡ none
unfolding vol_gc
vol_gc-find_vol id m v valid a f d c =
    remove_all-find_vol (vols_to_remove m.vols) id m v (vols_to_remove-Has id m.vols v f d c) valid
      a f d c
