-- ===== src/Manager/Underway.antt =====
-- Removals whose volume is being destroyed: the volume is in the map until they end (volume_mgr.cpp).
use home_blocks.Prelude.{
  ℕ, ◌≡◌, ◌≢◌, ◌⊎◌, refl, ap, sym, ◌∙◌, subst, true, false, List, [], ◌∷◌, none, some, arith, ◌==◌,
  ==_iff, All, Bool-cases, inl, inr,
}
use home_blocks.Manager.State.{Vol, find_vol, update_vol, erase_vol}
use home_blocks.Manager.Lifecycle.{find-erase_other}
use home_blocks.Manager.Creations.{Pending, find_pending, erase_pending}

pub record IsUnderway (vs : List Vol) (q : Pending) : Type 0 where
  pub vol : Vol
  pub found : find_vol q.id vs ≡ some vol
  pub ordinal : vol.ordinal ≡ q.ordinal
  pub started : vol.destroy_started ≡ true

-- Each removal has its own volume.
abbrev pub Underway : List Vol → List Pending → Type 0
Underway vs [] = Unit
Underway vs (q ∷ qs) = IsUnderway vs q × All (λ r. r.id ≢ q.id) qs × Underway vs qs

IsUnderway-vol :
    (v : Vol) (vs : List Vol) (q : Pending)
    → find_vol v.id vs ≡ none
    → IsUnderway vs q
    → IsUnderway (v ∷ vs) q
IsUnderway-vol v vs q new u = record {
  vol = u.vol;
  found = elim (Bool-cases (v.id == q.id)) [
    | inl e ↦
        let same : v.id ≡ q.id = (==_iff v.id q.id).0 e in
        absurd (ground (arith, sym u.found ∙ ap (λ (k : ℕ). find_vol k vs) (sym same) ∙ new))
    | inr e ↦ ground (arith, e, u.found)
  ];
  ordinal = u.ordinal;
  started = u.started;
}

-- A volume that gets into the map has an id that is not there.
pub Underway-vol :
    (v : Vol) (vs : List Vol) (qs : List Pending)
    → find_vol v.id vs ≡ none
    → Underway vs qs
    → Underway (v ∷ vs) qs
Underway-vol v vs [] new h = tt
Underway-vol v vs (q ∷ qs) new h =
    (IsUnderway-vol v vs q new h.0, h.1, Underway-vol v vs qs new h.2)

module _ (f : Vol → Vol) (keeps_id : (w : Vol) → (f w).id ≡ w.id)
    (keeps_ordinal : (w : Vol) → (f w).ordinal ≡ w.ordinal)
    (keeps_started : (w : Vol) → w.destroy_started ≡ true → (f w).destroy_started ≡ true)
    (id : ℕ) where
  find_vol-changed :
      (k : ℕ) (vs : List Vol) (v : Vol)
      → find_vol k vs ≡ some v
      → (u : Vol) × (find_vol k (update_vol f id vs) ≡ some u) × ((u ≡ v) ⊎ (u ≡ f v))
  find_vol-changed k [] v h = absurd (ground (arith, h))
  find_vol-changed k (w ∷ ws) v h = elim (Bool-cases (w.id == k)) [
    | inl a ↦
        let same : w ≡ v = ground (arith, h, a) in
        elim (Bool-cases (w.id == id)) [
          | inl b ↦ (f w, ground (arith, a, b, keeps_id w), inr (ap f same))
          | inr b ↦ (w, ground (arith, a, b), inl same)
        ]
    | inr a ↦
        let later : find_vol k ws ≡ some v = ground (arith, h, a) in
        elim (Bool-cases (w.id == id)) [
          | inl b ↦ (v, ground (arith, a, b, keeps_id w, later), inl refl)
          | inr b ↦ let (u, e, c) = find_vol-changed k ws v later in (u, ground (arith, a, b, e), c)
        ]
  ]

  IsUnderway-update :
      (vs : List Vol) (q : Pending) → IsUnderway vs q → IsUnderway (update_vol f id vs) q
  IsUnderway-update vs q h =
      let (u, e, c) = find_vol-changed q.id vs h.vol h.found in
      record {
        vol = u;
        found = e;
        ordinal = elim c [
          | inl s ↦ ap (λ (x : Vol). x.ordinal) s ∙ h.ordinal
          | inr s ↦ ap (λ (x : Vol). x.ordinal) s ∙ keeps_ordinal h.vol ∙ h.ordinal
        ];
        started = elim c [
          | inl s ↦ ap (λ (x : Vol). x.destroy_started) s ∙ h.started
          | inr s ↦ ap (λ (x : Vol). x.destroy_started) s ∙ keeps_started h.vol h.started
        ];
      }

  pub Underway-update :
      (vs : List Vol) (qs : List Pending) → Underway vs qs → Underway (update_vol f id vs) qs
  Underway-update vs [] h = tt
  Underway-update vs (q ∷ qs) h = (IsUnderway-update vs q h.0, h.1, Underway-update vs qs h.2)

pub Underway-erase :
    (id : ℕ) (vs : List Vol) (qs : List Pending)
    → All (λ r. r.id ≢ id) qs
    → Underway vs qs
    → Underway (erase_vol id vs) qs
Underway-erase id vs [] a h = tt
Underway-erase id vs (q ∷ qs) a h = (
  record {
    vol = h.0.vol;
    found = find-erase_other id q.id vs a.0 ∙ h.0.found;
    ordinal = h.0.ordinal;
    started = h.0.started;
  },
  h.1,
  Underway-erase id vs qs a.1 h.2,
)

-- A volume whose destruction has not begun is no other removal's.
pub Underway-others :
    (id : ℕ) (vs : List Vol) (v : Vol) (qs : List Pending)
    → find_vol id vs ≡ some v
    → v.destroy_started ≡ false
    → Underway vs qs
    → All (λ r. r.id ≢ id) qs
Underway-others id vs v [] e idle h = tt
Underway-others id vs v (q ∷ qs) e idle h = (
  λ same.
      let here : some h.0.vol ≡ some v = sym h.0.found ∙ ap (λ (k : ℕ). find_vol k vs) same ∙ e in
      let vols : h.0.vol ≡ v = ground (arith, here) in
      absurd (ground (arith, idle, h.0.started, ap (λ (x : Vol). x.destroy_started) vols)),
  Underway-others id vs v qs e idle h.2,
)

All-ids :
    (n k : ℕ) (qs : List Pending)
    → All (λ r. r.id ≢ k) qs
    → All (λ r. r.id ≢ k) (erase_pending n qs)
All-ids n k [] h = tt
All-ids n k (q ∷ qs) h = elim (Bool-cases (q.ordinal == n)) [
  | inl e ↦ rw e h.1
  | inr e ↦ rw e (h.0, All-ids n k qs h.1)
]

found-id :
    (n k : ℕ) (qs : List Pending) (q : Pending)
    → find_pending n qs ≡ some q
    → All (λ r. r.id ≢ k) qs
    → q.id ≢ k
found-id n k [] q f h same = ground (arith, f)
found-id n k (r ∷ qs) q f h same = elim (Bool-cases (r.ordinal == n)) [
  | inl e ↦ let here : r ≡ q = ground (arith, f, e) in h.0 (ap (λ (x : Pending). x.id) here ∙ same)
  | inr e ↦ found-id n k qs q (ground (arith, f, e)) h.1 same
]

-- What a removal that ends had, and what stays.
pub find_pending-Underway :
    (n : ℕ) (vs : List Vol) (qs : List Pending) (q : Pending)
    → find_pending n qs ≡ some q
    → Underway vs qs
    → IsUnderway vs q
      × All (λ r. r.id ≢ q.id) (erase_pending n qs)
      × Underway vs (erase_pending n qs)
find_pending-Underway n vs [] q f h = absurd (ground (arith, f))
find_pending-Underway n vs (r ∷ qs) q f h = elim (Bool-cases (r.ordinal == n)) [
  | inl e ↦
      let same : r ≡ q = ground (arith, f, e) in
      rw e (
        subst (IsUnderway vs) same h.0,
        subst (λ (x : Pending). All (λ s. s.id ≢ x.id) qs) same h.1,
        h.2,
      )
  | inr e ↦
      let later : find_pending n qs ≡ some q = ground (arith, f, e) in
      let (own, others, rest) = find_pending-Underway n vs qs q later h.2 in
      rw e (
        own,
        ((λ s. found-id n r.id qs q later h.1 (sym s)), others),
        (h.0, All-ids n r.id qs h.1, rest),
      )
]
