-- ===== src/Craft/Coverage.antt =====
-- No slot behind the frontier is forgotten: under every interleaving of writes, term changes and
-- truncations (while no write is in flight), it is missing, has an Empty verdict, or is in the journal.
use home_blocks.Prelude.{
  ℕ, ◌≡◌, subst, Bool, true, not, ◌&&◌, ◌||◌, inl, inr, List, [], ◌∷◌, ◌++◌, arith, All, Bool-cases,
}
use home_blocks.Prelude.Int.{ℤ, pos, leb_ℤ, ltb_ℤ, eqb_ℤ, eqb_ℤ_iff}
use home_blocks.Prelude.Errors.{ok, Result-cases}
use home_blocks.Craft.Lsns.{contains, contains-erase, contains-erase_above}
use home_blocks.Craft.Journal.{JournalBackend, JournalLaws}
use home_blocks.Craft.Device.{ReplDev, fresh_dev, seed_term}
use home_blocks.Craft.Write.{Request, track, complete, store_payload, store_slot, truncate, u32}
use home_blocks.Craft.Admission.{admit-Passed, contains-track, behind-track, track-empty_lsns}
use home_blocks.Craft.Interleaving.{
  System, Step, begins, allocates, alloc_fails, stores, store_fails, completes, changes_term,
  truncates, Reach, here, next, start,
}

All-remove {ℓ κ} :
    {A : Type ℓ} (P : A → Type κ) (xs ys : List A) {a : A}
    → All P (xs ++ a ∷ ys)
    → P a × All P (xs ++ ys)
All-remove P [] ys h = (h.0, h.1)
All-remove P (x ∷ xs) ys h = let r = All-remove P xs ys h.1 in (r.0, (h.0, r.1))

All-map {ℓ κ μ} :
    {A : Type ℓ} {P : A → Type κ} {Q : A → Type μ} (f : (a : A) → P a → Q a) (xs : List A)
    → All P xs
    → All Q xs
All-map f [] h = tt
All-map f (x ∷ xs) h = (f x h.0, All-map f xs h.1)

module _ {J Blk : Type 0} (backend : JournalBackend J Blk) (laws : JournalLaws backend) where
  open laws use {holds}

  -- A slot is accounted for.
  abbrev pub accounted : ReplDev → J → ℤ → Bool
  accounted d j l = (contains l d.missing_lsns || contains l d.empty_lsns) || holds j l

  pub record IsCovered (s : System J Blk) : Type 0 where
    pub slots :
        (l : ℤ)
        → leb_ℤ (pos 0) l ≡ true
        → leb_ℤ l s.dev.state.last_append_lsn ≡ true
        → accounted s.dev s.journal l ≡ true
    pub held : All (λ r. holds s.journal r.dlsn ≡ true) s.stored

  -- The journal gives up nothing.
  abbrev Keeps : J → J → Type 0
  Keeps j j' = (l : ℤ) → holds j l ≡ true → holds j' l ≡ true

  store_payload-Keeps : (r : Request) (j : J) → Keeps j (store_payload backend r j).1
  unfolding store_payload
  store_payload-Keeps r j l h = ground (arith, laws.alloc_keeps r.payload (u32 r.len) j l h)

  store_slot-Keeps : (r : Request) (b : Blk) (j : J) → Keeps j (store_slot backend r b j).1
  unfolding store_slot
  store_slot-Keeps r b j l h =
      let w = backend.write_slot r.dlsn r.hdr.term r.addr (u32 r.len) b r.all_zeros j in
      let kept = laws.write_keeps r.dlsn r.hdr.term r.addr (u32 r.len) b r.all_zeros j l h in
      ground (arith, kept, laws.free_keeps b w.1 l)

  store_slot-holds :
      (r : Request) (b : Blk) (j : J)
      → (store_slot backend r b j).0 ≡ ok tt
      → holds (store_slot backend r b j).1 r.dlsn ≡ true
  unfolding store_slot
  store_slot-holds r b j h =
      ground (arith, laws.write_holds r.dlsn r.hdr.term r.addr (u32 r.len) b r.all_zeros j)

  accounted_mono :
      (d : ReplDev) (j j' : J) (l : ℤ)
      → Keeps j j'
      → accounted d j l ≡ true
      → accounted d j' l ≡ true
  accounted_mono d j j' l k h = ground (arith, k l)

  held_mono :
      (rs : List Request) (j j' : J)
      → Keeps j j'
      → All (λ r. holds j r.dlsn ≡ true) rs
      → All (λ r. holds j' r.dlsn ≡ true) rs
  held_mono rs j j' k = All-map (λ r. k r.dlsn) rs

  accounted-step :
      (missing behind gap self verdict held : Bool)
      → (behind ≡ true → ((missing || verdict) || held) ≡ true)
      → (behind || (gap || self)) ≡ true
      → ((((missing || (gap && not verdict)) || self) || verdict) || held) ≡ true
  accounted-step missing behind gap self verdict held old h = ground arith

  track-accounted :
      (d : ReplDev) (dlsn : ℤ) (j : J) (l : ℤ)
      → (leb_ℤ l d.state.last_append_lsn ≡ true → accounted d j l ≡ true)
      → leb_ℤ l (track d dlsn).state.last_append_lsn ≡ true
      → accounted (track d dlsn) j l ≡ true
  track-accounted d dlsn j l old h =
      let last = d.state.last_append_lsn in
      rw (contains-track d dlsn l, track-empty_lsns d dlsn)
        (accounted-step (contains l d.missing_lsns) (leb_ℤ l last) (ltb_ℤ last l && ltb_ℤ l dlsn)
          (eqb_ℤ l dlsn && ltb_ℤ last dlsn) (contains l d.empty_lsns) (holds j l) old
          (rw (behind-track d dlsn l) at h))

  complete-accounted :
      (d : ReplDev) (term : ℕ) (dlsn : ℤ) (j : J) (l : ℤ)
      → holds j dlsn ≡ true
      → accounted d j l ≡ true
      → accounted (complete d term dlsn).1 j l ≡ true
  unfolding complete
  complete-accounted d term dlsn j l stored h = elim (Bool-cases (eqb_ℤ l dlsn)) [
    | inl e ↦ rw ((eqb_ℤ_iff l dlsn).0 e, stored) (ground arith)
    | inr e ↦ ground (arith, contains-erase l dlsn d.missing_lsns)
  ]

  complete-last :
      (d : ReplDev) (term : ℕ) (dlsn : ℤ)
      → (complete d term dlsn).1.state.last_append_lsn ≡ d.state.last_append_lsn
  unfolding complete
  complete-last d term dlsn = ground arith

  truncate-accounted :
      (d : ReplDev) (j : J) (lsn l : ℤ)
      → (leb_ℤ l d.state.last_append_lsn ≡ true → accounted d j l ≡ true)
      → let after = (truncate backend d j lsn).1 in
        leb_ℤ l after.0.state.last_append_lsn ≡ true → accounted after.0 after.1 l ≡ true
  unfolding truncate
  truncate-accounted d j lsn l old h = elim (Result-cases (backend.truncate_to lsn j).0) [
    | inl (u, e) ↦
        ground (arith, e, contains-erase_above l lsn d.missing_lsns, laws.truncate_keeps lsn j l)
    | inr (f, e) ↦ ground (arith, e, laws.truncate_fails lsn j l f)
  ]

  Step-IsCovered : {s t : System J Blk} → Step backend s t → IsCovered s → IsCovered t
  unfolding seed_term
  Step-IsCovered {s} (begins r d e) c = record {
    slots = λ l lo hi.
        let eq = (admit-Passed s.dev d r.hdr.term r.dlsn r.payload.size r.all_zeros e).1 in
        rw eq (track-accounted s.dev r.dlsn s.journal l (c.slots l lo) (rw eq at hi));
    held = c.held;
  }
  Step-IsCovered {s} (allocates before after r blkid e ok_blk) c =
      let k = store_payload-Keeps r s.journal in
      record {
        slots = λ l lo hi. accounted_mono s.dev _ _ l k (c.slots l lo hi);
        held = held_mono s.stored _ _ k c.held;
      }
  Step-IsCovered {s} (alloc_fails before after r e) c =
      let k = store_payload-Keeps r s.journal in
      record {
        slots = λ l lo hi. accounted_mono s.dev _ _ l k (c.slots l lo hi);
        held = held_mono s.stored _ _ k c.held;
      }
  Step-IsCovered {s} (stores before after r blkid e done) c =
      let k = store_slot-Keeps r blkid s.journal in
      record {
        slots = λ l lo hi. accounted_mono s.dev _ _ l k (c.slots l lo hi);
        held = (store_slot-holds r blkid s.journal done, held_mono s.stored _ _ k c.held);
      }
  Step-IsCovered {s} (store_fails before after r blkid e) c =
      let k = store_slot-Keeps r blkid s.journal in
      record {
        slots = λ l lo hi. accounted_mono s.dev _ _ l k (c.slots l lo hi);
        held = held_mono s.stored _ _ k c.held;
      }
  Step-IsCovered {s} (completes before after r e) c =
      let (held_r, rest) =
        All-remove {A = Request} (λ q. holds s.journal q.dlsn ≡ true) before after {a = r}
          (subst (All (λ q. holds s.journal q.dlsn ≡ true)) e c.held) in
      record {
        slots = λ l lo hi.
            complete-accounted s.dev r.hdr.term r.dlsn s.journal l held_r
              (c.slots l lo (rw (complete-last s.dev r.hdr.term r.dlsn) at hi));
        held = rest;
      }
  Step-IsCovered (changes_term term) c = record { slots = c.slots; held = c.held }
  Step-IsCovered {s} (truncates lsn e₁ e₂ e₃ h) c = record {
    slots = λ l lo hi. truncate-accounted s.dev s.journal lsn l (c.slots l lo) hi;
    held = rw e₁ tt;
  }

  -- Whatever the writes and term changes, however the critical sections and journal calls of the
  -- writes interleave, with truncations at or above the commit point while no write is in flight: if every slot from 0 to the frontier is accounted for, that is, is
  -- missing, has an Empty verdict, or is in the journal, and each write whose journal call has
  -- succeeded is in the journal, then this is so afterwards.
  pub Reach-IsCovered : {s t : System J Blk} → Reach backend s t → IsCovered s → IsCovered t
  Reach-IsCovered here c = c
  Reach-IsCovered (next r st) c = Step-IsCovered st (Reach-IsCovered r c)

  -- A new device has no slot to account for.
  pub start-IsCovered : (j : J) → IsCovered (start backend j)
  unfolding fresh_dev
  start-IsCovered j = record { slots = λ l lo hi. ground arith; held = tt }
