-- ===== src/Manager/Pending.antt =====
-- What pending creations hold: each its own ordinal, which is reserved, and a count of the server
-- (volume_mgr.cpp).
use home_blocks.Prelude.{
  ℕ, ◌+◌, ◌<◌, ◌≡◌, ◌≢◌, sym, List, [], ◌∷◌, some, arith, ◌==◌, All, length, subst, Bool-cases, inl,
  inr,
}
use home_blocks.Manager.State.{max_num_volumes, Vol, find_vol, update_vol, erase_vol, unreserve}
use home_blocks.Manager.Invariant.{Has, HasNot, HasNot-Has, Reserved}
use home_blocks.Manager.Removal.{All-find, All-erase, Has-unreserve}
use home_blocks.Manager.Creations.{Pending, find_pending, erase_pending}

-- The ordinals of pending creations are reserved and in range, and neither another creation nor a
-- volume has them.
abbrev pub Owned : List ℕ → List Vol → List Pending → Type 0
Owned ns vs [] = Unit
Owned ns vs (p ∷ ps) =
    (Has p.ordinal ns × (p.ordinal < max_num_volumes))
    × All (λ w. w.ordinal ≢ p.ordinal) vs
    × All (λ q. q.ordinal ≢ p.ordinal) ps
    × Owned ns vs ps

pub Owned-more :
    (n : ℕ) (ns : List ℕ) (vs : List Vol) (ps : List Pending)
    → Owned ns vs ps
    → Owned (n ∷ ns) vs ps
Owned-more n ns vs [] h = tt
Owned-more n ns vs (p ∷ ps) h = ((inr h.0.0, h.0.1), h.1, h.2, Owned-more n ns vs ps h.3)

pub new-vols :
    (n : ℕ) (ns : List ℕ) (vs : List Vol)
    → HasNot n ns
    → Reserved ns vs
    → All (λ w. w.ordinal ≢ n) vs
new-vols n ns [] h r = tt
new-vols n ns (v ∷ vs) h r = (HasNot-Has n v.ordinal ns h r.0, new-vols n ns vs h r.2)

pub new-pending :
    (n : ℕ) (ns : List ℕ) (vs : List Vol) (ps : List Pending)
    → HasNot n ns
    → Owned ns vs ps
    → All (λ q. q.ordinal ≢ n) ps
new-pending n ns vs [] h o = tt
new-pending n ns vs (p ∷ ps) h o = (HasNot-Has n p.ordinal ns h o.0.0, new-pending n ns vs ps h o.3)

-- A volume gets an ordinal that no pending creation has.
pub Owned-vol :
    (v : Vol) (ns : List ℕ) (vs : List Vol) (ps : List Pending)
    → All (λ q. q.ordinal ≢ v.ordinal) ps
    → Owned ns vs ps
    → Owned ns (v ∷ vs) ps
Owned-vol v ns vs [] a h = tt
Owned-vol v ns vs (p ∷ ps) a h = (h.0, (λ e. a.0 (sym e), h.1), h.2, Owned-vol v ns vs ps a.1 h.3)

All-erase_pending :
    (n k : ℕ) (ps : List Pending)
    → All (λ q. q.ordinal ≢ k) ps
    → All (λ q. q.ordinal ≢ k) (erase_pending n ps)
All-erase_pending n k [] h = tt
All-erase_pending n k (p ∷ ps) h = elim (Bool-cases (p.ordinal == n)) [
  | inl e ↦ rw e h.1
  | inr e ↦ rw e (h.0, All-erase_pending n k ps h.1)
]

-- What a creation gives up when it ends.
pub record Ends (p : Pending) (n : ℕ) (ns : List ℕ) (vs : List Vol) (ps : List Pending)
    : Type 0 where
  pub ordinal : p.ordinal ≡ n
  pub reserved : Has p.ordinal ns
  pub in_range : p.ordinal < max_num_volumes
  pub not_in_vols : All (λ w. w.ordinal ≢ p.ordinal) vs
  pub others : All (λ q. q.ordinal ≢ p.ordinal) (erase_pending n ps)
  pub owned : Owned ns vs (erase_pending n ps)
  pub fewer : length (erase_pending n ps) + 1 ≡ length ps

pub find_pending-Ends :
    (n : ℕ) (ns : List ℕ) (vs : List Vol) (ps : List Pending) (p : Pending)
    → find_pending n ps ≡ some p
    → Owned ns vs ps
    → Ends p n ns vs ps
find_pending-Ends n ns vs [] p f h = absurd (ground (arith, f))
find_pending-Ends n ns vs (q ∷ ps) p f h = elim (Bool-cases (q.ordinal == n)) [
  | inl e ↦
      let same : q ≡ p = ground (arith, f, e) in
      subst (λ (r : Pending). Ends r n ns vs (q ∷ ps)) same
        record {
          ordinal = ground (arith, e);
          reserved = h.0.0;
          in_range = h.0.1;
          not_in_vols = h.1;
          others = rw e h.2;
          owned = rw e h.3;
          fewer = rw e (omega arith);
        }
  | inr e ↦
      let later = find_pending-Ends n ns vs ps p (ground (arith, f, e)) h.3 in
      record {
        ordinal = later.ordinal;
        reserved = later.reserved;
        in_range = later.in_range;
        not_in_vols = later.not_in_vols;
        others = rw e ((λ s. absurd (ground (arith, s, later.ordinal, e))), later.others);
        owned = rw e (h.0, h.1, All-erase_pending n q.ordinal ps h.2, later.owned);
        fewer = rw e (omega (arith, later.fewer));
      }
]

-- A removal takes the ordinal of a volume.
pub Owned-erase :
    (id : ℕ) (ns : List ℕ) (vs : List Vol) (v : Vol) (ps : List Pending)
    → find_vol id vs ≡ some v
    → Owned ns vs ps
    → Owned (unreserve v.ordinal ns) (erase_vol id vs) ps
Owned-erase id ns vs v [] f h = tt
Owned-erase id ns vs v (p ∷ ps) f h =
    let other : v.ordinal ≢ p.ordinal = All-find (λ w. w.ordinal ≢ p.ordinal) id vs v f h.1 in
    (
      (Has-unreserve v.ordinal p.ordinal ns (λ e. other (sym e)) h.0.0, h.0.1),
      All-erase (λ w. w.ordinal ≢ p.ordinal) id vs h.1,
      h.2,
      Owned-erase id ns vs v ps f h.3,
    )

module _ (f : Vol → Vol) (keeps_ordinal : (w : Vol) → (f w).ordinal ≡ w.ordinal) (id : ℕ) where
  All-ordinal-update :
      (k : ℕ) (vs : List Vol)
      → All (λ w. w.ordinal ≢ k) vs
      → All (λ w. w.ordinal ≢ k) (update_vol f id vs)
  All-ordinal-update k [] h = tt
  All-ordinal-update k (w ∷ ws) h = elim (Bool-cases (w.id == id)) [
    | inl e ↦ rw (e, keeps_ordinal w) h
    | inr e ↦ rw e (h.0, All-ordinal-update k ws h.1)
  ]

  pub Owned-update :
      (ns : List ℕ) (vs : List Vol) (ps : List Pending)
      → Owned ns vs ps
      → Owned ns (update_vol f id vs) ps
  Owned-update ns vs [] h = tt
  Owned-update ns vs (p ∷ ps) h =
      (h.0, All-ordinal-update p.ordinal vs h.1, h.2, Owned-update ns vs ps h.3)
