-- ===== src/Manager/Removal.antt =====
-- Removals and changes of state keep ids and ordinals apart (volume_mgr.cpp).
use home_blocks.Prelude.{
  ℕ, ◌≡◌, ◌≢◌, refl, subst, sym, List, [], ◌∷◌, some, arith, ◌==◌, All, Bool-cases, Option-cases,
  inl, inr,
}
use home_blocks.Manager.State.{
  VolumeState, Vol, Manager, find_vol, update_vol, erase_vol, unreserve, state_change, can_remove,
  vol_destroying,
}
use home_blocks.Manager.Ops.{do_remove_volume, set_state}
use home_blocks.Manager.Invariant.{Has, Apart, Reserved, IsValid}

module _ (P : Vol → Type 0) where
  pub All-find : (id : ℕ) (vs : List Vol) (v : Vol) → find_vol id vs ≡ some v → All P vs → P v
  All-find id [] v f h = absurd (ground (arith, f))
  All-find id (w ∷ ws) v f h = elim (Bool-cases (w.id == id)) [
    | inl e ↦ subst P (ground (arith, f, e)) h.0
    | inr e ↦ All-find id ws v (ground (arith, f, e)) h.1
  ]

  pub All-erase : (id : ℕ) (vs : List Vol) → All P vs → All P (erase_vol id vs)
  All-erase id [] h = tt
  All-erase id (w ∷ ws) h = elim (Bool-cases (w.id == id)) [
    | inl e ↦ rw e h.1
    | inr e ↦ rw e (h.0, All-erase id ws h.1)
  ]

Apart-erase : (id : ℕ) (vs : List Vol) → Apart vs → Apart (erase_vol id vs)
Apart-erase id [] h = tt
Apart-erase id (w ∷ ws) h = elim (Bool-cases (w.id == id)) [
  | inl e ↦ rw e h.1
  | inr e ↦
      rw e
        (All-erase (λ u. (u.id ≢ w.id) × (u.ordinal ≢ w.ordinal)) id ws h.0, Apart-erase id ws h.1)
]

pub Has-unreserve : (n k : ℕ) (ns : List ℕ) → k ≢ n → Has k ns → Has k (unreserve n ns)
Has-unreserve n k [] h there = there
Has-unreserve n k (j ∷ ns) h there = elim (Bool-cases (j == n)) [
  | inl e ↦
      rw e (elim there [ inl same ↦ absurd (h (ground (arith, same, e))) | inr later ↦ later ])
  | inr e ↦
      rw e (elim there [ inl same ↦ inl same | inr later ↦ inr (Has-unreserve n k ns h later) ])
]

Reserved-unreserve :
    (n : ℕ) (ns : List ℕ) (vs : List Vol)
    → All (λ w. w.ordinal ≢ n) vs
    → Reserved ns vs
    → Reserved (unreserve n ns) vs
Reserved-unreserve n ns [] h r = tt
Reserved-unreserve n ns (v ∷ vs) h r =
    (Has-unreserve n v.ordinal ns h.0 r.0, r.1, Reserved-unreserve n ns vs h.1 r.2)

ordinals_apart :
    (v : Vol) (vs : List Vol)
    → All (λ w. (w.id ≢ v.id) × (w.ordinal ≢ v.ordinal)) vs
    → All (λ w. w.ordinal ≢ v.ordinal) vs
ordinals_apart v [] h = tt
ordinals_apart v (w ∷ ws) h = (h.0.1, ordinals_apart v ws h.1)

Reserved-erase :
    (id : ℕ) (ns : List ℕ) (vs : List Vol) (v : Vol)
    → find_vol id vs ≡ some v
    → Apart vs
    → Reserved ns vs
    → Reserved (unreserve v.ordinal ns) (erase_vol id vs)
Reserved-erase id ns [] v f a r = tt
Reserved-erase id ns (w ∷ ws) v f a r = elim (Bool-cases (w.id == id)) [
  | inl e ↦
      let same : w ≡ v = ground (arith, f, e) in
      rw e (
        subst (λ (u : Vol). Reserved (unreserve u.ordinal ns) ws) same
          (Reserved-unreserve w.ordinal ns ws (ordinals_apart w ws a.0) r.2))
  | inr e ↦
      let later : find_vol id ws ≡ some v = ground (arith, f, e) in
      rw e (
        Has-unreserve v.ordinal w.ordinal ns
            (λ same.
              (All-find (λ u. (u.id ≢ w.id) × (u.ordinal ≢ w.ordinal)) id ws v later a.0).1
                (sym same))
            r.0,
        r.1,
        Reserved-erase id ns ws v later a.1 r.2,
      )
]

module _ (f : Vol → Vol) (keeps_id : (w : Vol) → (f w).id ≡ w.id)
    (keeps_ordinal : (w : Vol) → (f w).ordinal ≡ w.ordinal) (id : ℕ) where
  All-update :
      (v : Vol) (vs : List Vol)
      → All (λ w. (w.id ≢ v.id) × (w.ordinal ≢ v.ordinal)) vs
      → All (λ w. (w.id ≢ v.id) × (w.ordinal ≢ v.ordinal)) (update_vol f id vs)
  All-update v [] h = tt
  All-update v (w ∷ ws) h = elim (Bool-cases (w.id == id)) [
    | inl e ↦ rw (e, keeps_id w, keeps_ordinal w) h
    | inr e ↦ rw e (h.0, All-update v ws h.1)
  ]

  Apart-update : (vs : List Vol) → Apart vs → Apart (update_vol f id vs)
  Apart-update [] h = tt
  Apart-update (w ∷ ws) h = elim (Bool-cases (w.id == id)) [
    | inl e ↦ rw (e, keeps_id w, keeps_ordinal w) h
    | inr e ↦ rw e (All-update w ws h.0, Apart-update ws h.1)
  ]

  Reserved-update :
      (ns : List ℕ) (vs : List Vol) → Reserved ns vs → Reserved ns (update_vol f id vs)
  Reserved-update ns [] h = tt
  Reserved-update ns (w ∷ ws) h = elim (Bool-cases (w.id == id)) [
    | inl e ↦ rw (e, keeps_ordinal w) h
    | inr e ↦ rw e (h.0, h.1, Reserved-update ns ws h.2)
  ]

  -- A change that keeps a volume's id and ordinal leaves ids and ordinals apart and reserved.
  pub update_vol-IsValid :
      (m : Manager) → IsValid m → IsValid (record m { vols = update_vol f id m.vols })
  update_vol-IsValid m h = record {
    apart = Apart-update m.vols h.apart;
    reserved = Reserved-update m.reserved m.vols h.reserved;
  }

pub set_state-IsValid :
    (s : VolumeState) (id : ℕ) (m : Manager) → IsValid m → IsValid (set_state s id m)
unfolding state_change
set_state-IsValid s id m h = update_vol-IsValid (state_change s) (λ w. refl) (λ w. refl) id m h

-- The volume of an id and its ordinal go.
pub erase_vol-IsValid :
    (id : ℕ) (m : Manager) (v : Vol)
    → find_vol id m.vols ≡ some v
    → IsValid m
    → IsValid (record m { vols = erase_vol id m.vols; reserved = unreserve v.ordinal m.reserved })
erase_vol-IsValid id m v e h = record {
  apart = Apart-erase id m.vols h.apart;
  reserved = Reserved-erase id m.reserved m.vols v e h.apart h.reserved;
}

-- A removal, whether it is done or put off, leaves ids and ordinals apart and reserved.
pub do_remove_volume-IsValid : (id : ℕ) (m : Manager) → IsValid m → IsValid (do_remove_volume id m)
unfolding do_remove_volume
do_remove_volume-IsValid id m h = elim (Option-cases (find_vol id m.vols)) [
  | inl e ↦ rw (e, do_remove_volume) h
  | inr (v, e) ↦ elim (Bool-cases (can_remove (state_change vol_destroying v))) [
    | inl f ↦ rw (e, f, do_remove_volume) (erase_vol-IsValid id m v e h)
    | inr f ↦ rw (e, f, do_remove_volume) (set_state-IsValid vol_destroying id m h)
  ]
]
