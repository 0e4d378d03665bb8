-- ===== src/Manager/Restart.antt =====
-- All meta blocks of a server, recovered one after the other (volume_mgr.cpp).
use home_blocks.Prelude.{
  ℕ, ◌<◌, ◌≡◌, ◌≢◌, refl, ap, sym, ◌∙◌, subst, Bool, false, List, [], ◌∷◌, none, some, arith,
  if◌then◌else◌, All, Option-cases, inl, inr,
}
use home_blocks.Manager.State.{max_num_volumes, Vol, Manager, find_vol, is_destroying}
use home_blocks.Manager.Invariant.{Apart, Reserved, IsValid, Reserved-more}
use home_blocks.Volume.Superblock.{VolSb}
use home_blocks.Manager.Recovery.{Recovery, vol_of, on_vol_meta_blk_found, recover_all}
use home_blocks.Manager.Recovered.{found_first, Found, on_vol_meta_blk_found-Found}

-- No volume in the list has the id or the ordinal.
abbrev pub IsNew : VolSb → List Vol → Type 0
IsNew sb vs = All (λ w. (w.id ≢ sb.id) × (w.ordinal ≢ sb.ordinal)) vs

-- No two of the superblocks share an id or an ordinal, and the ordinals are in range.
abbrev pub Distinct : List VolSb → Type 0
Distinct [] = Unit
Distinct (sb ∷ sbs) =
    All (λ c. (c.id ≢ sb.id) × (c.ordinal ≢ sb.ordinal)) sbs
    × (sb.ordinal < max_num_volumes)
    × Distinct sbs

-- The removals that are resumed.
abbrev pub resumed : List VolSb → List ℕ → List ℕ
resumed [] ids = ids
resumed (sb ∷ sbs) ids = resumed sbs (if is_destroying (vol_of sb) then sb.id ∷ ids else ids)

new_not_found : (sb : VolSb) (vs : List Vol) → IsNew sb vs → find_vol sb.id vs ≡ none
new_not_found sb [] h = refl
new_not_found sb (v ∷ vs) h = ground (arith, h.0, new_not_found sb vs h.1)

-- What the meta blocks that are left are to find.
record Left (sbs : List VolSb) (m : Manager) : Type 0 where
  distinct : Distinct sbs
  new : All (λ sb. IsNew sb m.vols) sbs

later-IsNew :
    (sb : VolSb) (sbs : List VolSb) (vs : List Vol)
    → All (λ c. (c.id ≢ sb.id) × (c.ordinal ≢ sb.ordinal)) sbs
    → All (λ c. IsNew c vs) sbs
    → All (λ c. IsNew c (vol_of sb ∷ vs)) sbs
later-IsNew sb [] vs h k = tt
later-IsNew sb (c ∷ sbs) vs h k =
    (((λ e. h.0.0 (sym e), λ e. h.0.1 (sym e)), k.0), later-IsNew sb sbs vs h.1 k.1)

Found-Left :
    (sb : VolSb) (sbs : List VolSb) (r r' : Recovery)
    → Found sb r r'
    → Left (sb ∷ sbs) r.manager
    → Left sbs r'.manager
Found-Left sb sbs r r' f l = record {
  distinct = l.distinct.2;
  new =
      subst (λ (vs : List Vol). All (λ c. IsNew c vs) sbs) (sym f.vols)
        (later-IsNew sb sbs r.manager.vols l.distinct.0 l.new.1);
}

Found-IsValid :
    (sb : VolSb) (sbs : List VolSb) (r r' : Recovery)
    → Found sb r r'
    → Left (sb ∷ sbs) r.manager
    → IsValid r.manager
    → IsValid r'.manager
Found-IsValid sb sbs r r' f l h = record {
  apart = subst Apart (sym f.vols) (l.new.0, h.apart);
  reserved =
      subst (λ (ns : List ℕ). Reserved ns r'.manager.vols) (sym f.reserved)
        (subst (Reserved (sb.ordinal ∷ r.manager.reserved)) (sym f.vols) (
          inl refl,
          l.distinct.1,
          Reserved-more sb.ordinal r.manager.reserved r.manager.vols h.reserved,
        ));
}

keeps :
    (has_repl_dev : ℕ → Bool) (sbs : List VolSb) (r r' : Recovery) (id : ℕ)
    → r.manager.is_restricted ≡ false
    → Left sbs r.manager
    → All (λ c. c.id ≢ id) sbs
    → recover_all has_repl_dev sbs r ≡ some r'
    → find_vol id r'.manager.vols ≡ find_vol id r.manager.vols
unfolding recover_all
keeps has_repl_dev [] r r' id free l h e = ground (arith, e)
keeps has_repl_dev (sb ∷ sbs) r r' id free l h e =
    elim (Option-cases (on_vol_meta_blk_found sb (has_repl_dev sb.id) r)) [
      | inl f ↦ absurd (ground (arith, e, f))
      | inr (t, f) ↦
          let found =
            on_vol_meta_blk_found-Found sb (has_repl_dev sb.id) r t
              (new_not_found sb r.manager.vols l.new.0) free f in
          let rest =
            keeps has_repl_dev sbs t r' id (found.restricted ∙ free) (Found-Left sb sbs r t found l)
              h.1 (ground (arith, e, f)) in
          rest ∙ ap (find_vol id) found.vols ∙ ground (arith, h.0)
    ]

ids_apart :
    (sb : VolSb) (sbs : List VolSb)
    → All (λ c. (c.id ≢ sb.id) × (c.ordinal ≢ sb.ordinal)) sbs
    → All (λ c. c.id ≢ sb.id) sbs
ids_apart sb [] h = tt
ids_apart sb (c ∷ sbs) h = (h.0.0, ids_apart sb sbs h.1)

All-IsNew : (sbs : List VolSb) → All (λ sb. IsNew sb []) sbs
All-IsNew [] = tt
All-IsNew (sb ∷ sbs) = (tt, All-IsNew sbs)

recover_all-lists :
    (has_repl_dev : ℕ → Bool) (sbs : List VolSb) (r r' : Recovery)
    → r.manager.is_restricted ≡ false
    → IsValid r.manager
    → Left sbs r.manager
    → recover_all has_repl_dev sbs r ≡ some r'
    → IsValid r'.manager
      × All (λ sb. find_vol sb.id r'.manager.vols ≡ some (vol_of sb)) sbs
      × (r'.removals ≡ resumed sbs r.removals)
unfolding recover_all
recover_all-lists has_repl_dev [] r r' free valid l e =
    let same : r ≡ r' = ground (arith, e) in
    (
      subst (λ (x : Recovery). IsValid x.manager) same valid,
      tt,
      ap (λ (x : Recovery). x.removals) (sym same),
    )
recover_all-lists has_repl_dev (sb ∷ sbs) r r' free valid l e =
    elim (Option-cases (on_vol_meta_blk_found sb (has_repl_dev sb.id) r)) [
      | inl f ↦ absurd (ground (arith, e, f))
      | inr (t, f) ↦
          let found =
            on_vol_meta_blk_found-Found sb (has_repl_dev sb.id) r t
              (new_not_found sb r.manager.vols l.new.0) free f in
          let left = Found-Left sb sbs r t found l in
          let free' = found.restricted ∙ free in
          let rest : recover_all has_repl_dev sbs t ≡ some r' = ground (arith, e, f) in
          let (v, a, m) =
            recover_all-lists has_repl_dev sbs t r' free' (Found-IsValid sb sbs r t found l valid)
              left rest in
          let kept =
            keeps has_repl_dev sbs t r' sb.id free' left (ids_apart sb sbs l.distinct.0) rest in
          (
            v,
            (kept ∙ ap (find_vol sb.id) found.vols ∙ found_first (vol_of sb) r.manager.vols, a),
            m ∙ ap (resumed sbs) found.removals,
          )
    ]

-- A server without volumes that is not restricted, whose meta blocks share no id and no ordinal, which
-- are in range: a recovery that does not
-- stop leaves a well-formed server, where each volume is found under its id with its ordinal and its
-- state, and schedules the removal of exactly the volumes that were being destroyed.
pub recover_all-IsValid :
    (has_repl_dev : ℕ → Bool) (sbs : List VolSb) (r r' : Recovery)
    → r.manager.is_restricted ≡ false
    → r.manager.vols ≡ []
    → Distinct sbs
    → recover_all has_repl_dev sbs r ≡ some r'
    → IsValid r'.manager
      × All (λ sb. find_vol sb.id r'.manager.vols ≡ some (vol_of sb)) sbs
      × (r'.removals ≡ resumed sbs r.removals)
recover_all-IsValid has_repl_dev sbs r r' free empty d e =
    recover_all-lists has_repl_dev sbs r r' free
      (record {
        apart = subst Apart (sym empty) tt;
        reserved = subst (Reserved r.manager.reserved) (sym empty) tt;
      })
      (record {
        distinct = d;
        new = subst (λ (vs : List Vol). All (λ sb. IsNew sb vs) sbs) (sym empty) (All-IsNew sbs);
      })
      e
