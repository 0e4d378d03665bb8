-- ===== src/Manager/Invariant.antt =====
-- Ids and ordinals: each volume has its own, and each ordinal that a volume has is reserved
-- (volume_mgr.cpp).
use home_blocks.Prelude.{
  ℕ, ◌<◌, ◌≡◌, ◌≢◌, ◌⊎◌, subst, refl, sym, ◌∙◌, Bool, List, [], ◌∷◌, none, arith, leb, ◌==◌, All,
  Bool-cases, Option-cases, inl, inr,
}
use home_blocks.Manager.State.{max_num_volumes, Vol, Manager, find_vol}
use home_blocks.Manager.Ops.{create_check, create_finish, create_volume, new_vol}

-- A number is in a list.
abbrev pub Has : ℕ → List ℕ → Type 0
Has n [] = ⊥
Has n (k ∷ ks) = (k ≡ n) ⊎ Has n ks

abbrev pub HasNot : ℕ → List ℕ → Type 0
HasNot n [] = Unit
HasNot n (k ∷ ks) = (k ≢ n) × HasNot n ks

-- Ordinals that are in use and reserved: no two volumes share an id or an ordinal.
abbrev pub Apart : List Vol → Type 0
Apart [] = Unit
Apart (v ∷ vs) = All (λ w. (w.id ≢ v.id) × (w.ordinal ≢ v.ordinal)) vs × Apart vs

abbrev pub Reserved : List ℕ → List Vol → Type 0
Reserved ns [] = Unit
Reserved ns (v ∷ vs) = Has v.ordinal ns × (v.ordinal < max_num_volumes) × Reserved ns vs

pub record IsValid (m : Manager) : Type 0 where
  pub apart : Apart m.vols
  pub reserved : Reserved m.reserved m.vols

pub Reserved-more : (n : ℕ) (ns : List ℕ) (vs : List Vol) → Reserved ns vs → Reserved (n ∷ ns) vs
Reserved-more n ns [] h = tt
Reserved-more n ns (v ∷ vs) h = (inr h.0, h.1, Reserved-more n ns vs h.2)

pub HasNot-Has : (n k : ℕ) (ns : List ℕ) → HasNot n ns → Has k ns → k ≢ n
HasNot-Has n k [] h there e = there
HasNot-Has n k (j ∷ ns) h (inl same) e = h.0 (same ∙ e)
HasNot-Has n k (j ∷ ns) h (inr there) e = HasNot-Has n k ns h.1 there e

-- An id that is not found and an ordinal that is not reserved are new.
fresh :
    (id n : ℕ) (ns : List ℕ) (vs : List Vol)
    → find_vol id vs ≡ none
    → HasNot n ns
    → Reserved ns vs
    → All (λ w. (w.id ≢ id) × (w.ordinal ≢ n)) vs
fresh id n ns [] f h r = tt
fresh id n ns (v ∷ vs) f h r = elim (Bool-cases (v.id == id)) [
  | inl e ↦ absurd (ground (arith, f, e))
  | inr e ↦ (
    (ground (arith, e), HasNot-Has n v.ordinal ns h r.0),
    fresh id n ns vs (ground (arith, f, e)) h r.2,
  )
]

vols-IsValid :
    (m : Manager) (ns : List ℕ) (vs : List Vol)
    → m.vols ≡ vs
    → m.reserved ≡ ns
    → Apart vs
    → Reserved ns vs
    → IsValid m
vols-IsValid m ns vs e f a r = record {
  apart = subst Apart (sym e) a;
  reserved =
      subst (λ (ws : List Vol). Reserved m.reserved ws) (sym e)
        (subst (λ (ks : List ℕ). Reserved ks vs) (sym f) r);
}

-- A volume that is created, where `IDReserver` gives an ordinal that is not reserved, leaves the ids
-- and ordinals apart and reserved, and so does a creation that fails.
pub create_volume-IsValid :
    (reserve : List ℕ → ℕ) (made : Bool) (id : ℕ) (m : Manager)
    → HasNot (reserve m.reserved) m.reserved
    → IsValid m
    → IsValid (create_volume reserve made id m).1
unfolding create_volume create_check create_finish
create_volume-IsValid reserve made id m new h =
    let n = reserve m.reserved in
    let more = Reserved-more n m.reserved m.vols h.reserved in
    let m' = (create_volume reserve made id m).1 in
    elim (Bool-cases m.is_restricted) [
      | inl a ↦
          vols-IsValid m' m.reserved m.vols (ground (arith, a)) (ground (arith, a)) h.apart
            h.reserved
      | inr a ↦ elim (Bool-cases (leb max_num_volumes n)) [
        | inl b ↦
            vols-IsValid m' (n ∷ m.reserved) m.vols (ground (arith, a, b)) (ground (arith, a, b))
              h.apart more
        | inr b ↦ elim (Option-cases (find_vol id m.vols)) [
          | inr (v, c) ↦
              vols-IsValid m' (n ∷ m.reserved) m.vols (ground (arith, a, b, c))
                (ground (arith, a, b, c)) h.apart more
          | inl c ↦ elim (Bool-cases made) [
            | inr d ↦
                vols-IsValid m' (n ∷ m.reserved) m.vols (ground (arith, a, b, c, d))
                  (ground (arith, a, b, c, d)) h.apart more
            | inl d ↦
                vols-IsValid m' (n ∷ m.reserved) (new_vol id n ∷ m.vols)
                  (ground (arith, a, b, c, d)) (ground (arith, a, b, c, d))
                  (fresh id n m.reserved m.vols c new h.reserved, h.apart)
                  (inl refl, ground (arith, b), more)
          ]
        ]
      ]
    ]
