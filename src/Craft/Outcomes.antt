-- ===== src/Craft/Outcomes.antt =====
-- How a call of `write` ends, on every path (craft/craft_repl_dev.cpp).
use home_blocks.Prelude.{
  ℕ, ◌-◌, ◌≡◌, ◌≢◌, refl, ap, sym, ◌∙◌, Bool, true, false, not, ◌&&◌, inl, inr, arith, Bool-cases,
}
use home_blocks.Prelude.Int.{ℤ, pos, ◌≤ℤ◌, leb_ℤ, ltb_ℤ, eqb_ℤ, ◌-ℤ◌, ◌+ℤ◌, -ℤ_parts, +ℤ_parts}
use home_blocks.Prelude.Errors.{Error, ok, err, stale_term, Result-cases}
use home_blocks.Craft.Lsns.{contains, erase, contains-erase}
use home_blocks.Craft.Journal.{JournalBackend}
use home_blocks.Craft.Device.{ReplDev, LsnPair, lsns_of}
use home_blocks.Craft.Write.{
  Request, Admission-cases, rejected, replayed, admitted, track, admit, complete, store, write,
  shape_mismatch, int64_max, k_max_ooo_gap,
}
use home_blocks.Craft.Admission.{admit-Passed, contains-track, behind-track, track-empty_lsns}

-- An admission makes the write's slot missing and puts it behind the frontier; the commit point,
-- the term and the verdicts stay.
admit-missing :
    (d d' : ReplDev) (term : ℕ) (dlsn : ℤ) (size : ℕ) (all_zeros : Bool)
    → admit d term dlsn size all_zeros ≡ admitted d'
    → (contains dlsn d'.missing_lsns ≡ true)
      × (leb_ℤ dlsn d'.state.last_append_lsn ≡ true)
      × (d'.state.term ≡ d.state.term)
      × (d'.empty_lsns ≡ d.empty_lsns)
admit-missing d d' term dlsn size all_zeros e =
    let (p, eq) = admit-Passed d d' term dlsn size all_zeros e in
    rw eq (
      ground (arith, p.unwritten, contains-track d dlsn dlsn),
      ground (arith, p.unwritten, behind-track d dlsn dlsn),
      track-term d dlsn,
      track-empty_lsns d dlsn,
    )
  where
    track-term : (d : ReplDev) (dlsn : ℤ) → (track d dlsn).state.term ≡ d.state.term
    track-term d dlsn = unfold track in refl

-- A written slot of the session is answered from memory.
admit-replays :
    (d : ReplDev) (term : ℕ) (dlsn : ℤ) (size : ℕ) (all_zeros : Bool)
    → pos 0 ≤ℤ dlsn
    → shape_mismatch all_zeros size ≡ false
    → term ≡ d.state.term
    → contains dlsn d.empty_lsns ≡ false
    → leb_ℤ dlsn d.state.last_append_lsn ≡ true
    → contains dlsn d.missing_lsns ≡ false
    → admit d term dlsn size all_zeros ≡ replayed (lsns_of d)
unfolding admit
admit-replays d term dlsn size all_zeros h shape t e l m = ground arith

admit-shape :
    (d d' : ReplDev) (term : ℕ) (dlsn : ℤ) (size : ℕ) (all_zeros : Bool)
    → admit d term dlsn size all_zeros ≡ admitted d'
    → shape_mismatch all_zeros size ≡ false
unfolding admit
admit-shape d d' term dlsn size all_zeros e = elim (Bool-cases (shape_mismatch all_zeros size)) [
  | inl m ↦ absurd (ground arith)
  | inr m ↦ m
]

admit-replayed :
    (d : ReplDev) (term : ℕ) (dlsn : ℤ) (size : ℕ) (all_zeros : Bool) (pair : LsnPair)
    → admit d term dlsn size all_zeros ≡ replayed pair
    → pair ≡ lsns_of d
unfolding admit
admit-replayed d term dlsn size all_zeros pair e = ground arith

admit-missing_behind :
    (d : ReplDev) (term : ℕ) (dlsn : ℤ) (size : ℕ) (all_zeros : Bool)
    → pos 0 ≤ℤ dlsn
    → shape_mismatch all_zeros size ≡ false
    → term ≡ d.state.term
    → contains dlsn d.empty_lsns ≡ false
    → leb_ℤ dlsn d.state.last_append_lsn ≡ true
    → contains dlsn d.missing_lsns ≡ true
    → dlsn ≤ℤ pos (int64_max - k_max_ooo_gap)
    → admit d term dlsn size all_zeros ≡ admitted (track d dlsn)
unfolding admit
admit-missing_behind d term dlsn size all_zeros h shape t e l m r =
    let last = d.state.last_append_lsn in
    let behind : dlsn ≤ℤ last = ground (arith, l) in
    let near : ltb_ℤ (pos k_max_ooo_gap) (dlsn -ℤ last) ≡ false =
      ground (arith, -ℤ_parts dlsn last, behind) in
    let next : ltb_ℤ (last +ℤ pos 1) dlsn ≡ false = ground (arith, +ℤ_parts last (pos 1), behind) in
    ground (arith, near, next)

-- A slot that is missing behind the frontier goes to the journal again.
admit-again :
    (d d₁ : ReplDev) (term : ℕ) (dlsn : ℤ) (size : ℕ) (all_zeros : Bool)
    → admit d term dlsn size all_zeros ≡ admitted d₁
    → admit d₁ term dlsn size all_zeros ≡ admitted (track d₁ dlsn)
admit-again d d₁ term dlsn size all_zeros a =
    let p = (admit-Passed d d₁ term dlsn size all_zeros a).0 in
    let m = admit-missing d d₁ term dlsn size all_zeros a in
    admit-missing_behind d₁ term dlsn size all_zeros p.nonneg
      (admit-shape d d₁ term dlsn size all_zeros a) (p.in_term ∙ sym m.2) (rw m.3 p.unverdicted) m.1
      m.0 p.in_range

complete-same :
    (d : ReplDev) (term : ℕ) (dlsn : ℤ)
    → term ≡ d.state.term
    → complete d term dlsn ≡ (ok (lsns_of d), record d { missing_lsns = erase dlsn d.missing_lsns })
unfolding complete
complete-same d term dlsn e = ground arith

-- Once completed, the slot of a write is answered from memory.
complete-replays :
    (d d₁ : ReplDev) (term : ℕ) (dlsn : ℤ) (size : ℕ) (all_zeros : Bool)
    → admit d term dlsn size all_zeros ≡ admitted d₁
    → let d₂ = record d₁ { missing_lsns = erase dlsn d₁.missing_lsns } in
      admit d₂ term dlsn size all_zeros ≡ replayed (lsns_of d₂)
complete-replays d d₁ term dlsn size all_zeros a =
    let p = (admit-Passed d d₁ term dlsn size all_zeros a).0 in
    let m = admit-missing d d₁ term dlsn size all_zeros a in
    admit-replays (record d₁ { missing_lsns = erase dlsn d₁.missing_lsns }) term dlsn size all_zeros
      p.nonneg (admit-shape d d₁ term dlsn size all_zeros a) (p.in_term ∙ sym m.2)
      (rw m.3 p.unverdicted) m.1 (ground (arith, contains-erase dlsn dlsn d₁.missing_lsns))

module _ {J Blk : Type 0} (backend : JournalBackend J Blk) where
  write-rejected :
      (meanwhile : ReplDev × J → ReplDev × J) (r : Request) (d : ReplDev) (j : J) (e : Error)
      → admit d r.hdr.term r.dlsn r.payload.size r.all_zeros ≡ rejected e
      → write backend meanwhile r d j ≡ (err e, (d, j))
  unfolding write
  write-rejected meanwhile r d j e a = rw (a, write)

  write-replayed :
      (meanwhile : ReplDev × J → ReplDev × J) (r : Request) (d : ReplDev) (j : J) (pair : LsnPair)
      → admit d r.hdr.term r.dlsn r.payload.size r.all_zeros ≡ replayed pair
      → write backend meanwhile r d j ≡ (ok pair, (d, j))
  unfolding write
  write-replayed meanwhile r d j pair a = rw (a, write)

  write-failed :
      (meanwhile : ReplDev × J → ReplDev × J) (r : Request) (d d₁ : ReplDev) (j : J) (e : Error)
      → admit d r.hdr.term r.dlsn r.payload.size r.all_zeros ≡ admitted d₁
      → (store backend r j).0 ≡ err e
      → write backend meanwhile r d j ≡ (err e, meanwhile (d₁, (store backend r j).1))
  unfolding write
  write-failed meanwhile r d d₁ j e a s = rw (a, write) (rw s)

  write-stored :
      (meanwhile : ReplDev × J → ReplDev × J) (r : Request) (d d₁ : ReplDev) (j : J)
      → admit d r.hdr.term r.dlsn r.payload.size r.all_zeros ≡ admitted d₁
      → (store backend r j).0 ≡ ok tt
      → let s₂ = meanwhile (d₁, (store backend r j).1) in
        let c = complete s₂.0 r.hdr.term r.dlsn in
        write backend meanwhile r d j ≡ (c.0, (c.1, s₂.1))
  unfolding write
  write-stored meanwhile r d d₁ j a s = rw (a, write) (rw s)

  -- If the journal refuses the payload or the slot, the call returns that error, and after its admission
  -- does nothing to the device: what it leaves is what the other calls make of the admitted one. There
  -- its slot is missing behind the frontier, and a retry with no other call between is admitted again.
  pub write_fails :
      (meanwhile : ReplDev × J → ReplDev × J) (r : Request) (d d₁ : ReplDev) (j : J) (e : Error)
      → admit d r.hdr.term r.dlsn r.payload.size r.all_zeros ≡ admitted d₁
      → (store backend r j).0 ≡ err e
      → (write backend meanwhile r d j ≡ (err e, meanwhile (d₁, (store backend r j).1)))
        × (contains r.dlsn d₁.missing_lsns ≡ true)
        × (leb_ℤ r.dlsn d₁.state.last_append_lsn ≡ true)
        × (admit d₁ r.hdr.term r.dlsn r.payload.size r.all_zeros ≡ admitted (track d₁ r.dlsn))
  write_fails meanwhile r d d₁ j e a s =
      let m = admit-missing d d₁ r.hdr.term r.dlsn r.payload.size r.all_zeros a in
      (
        write-failed meanwhile r d d₁ j e a s,
        m.0,
        m.1,
        admit-again d d₁ r.hdr.term r.dlsn r.payload.size r.all_zeros a,
      )

  -- Once the journal has the slot, the term is checked again, against the device as the other calls
  -- have left it. In a new session nothing more is done, and the call returns `stale_term`.
  -- Otherwise it acknowledges with the watermarks of that moment: its slot is no longer missing, and
  -- every other slot, the frontier and the commit point stay.
  pub write_stored :
      (meanwhile : ReplDev × J → ReplDev × J) (r : Request) (d d₁ : ReplDev) (j : J)
      → admit d r.hdr.term r.dlsn r.payload.size r.all_zeros ≡ admitted d₁
      → (store backend r j).0 ≡ ok tt
      → let s₂ = meanwhile (d₁, (store backend r j).1) in
        let (res, s₃) = write backend meanwhile r d j in
        ((r.hdr.term ≢ s₂.0.state.term) → (res ≡ err stale_term) × (s₃ ≡ s₂))
        × ((r.hdr.term ≡ s₂.0.state.term)
            → (res ≡ ok (lsns_of s₂.0))
              × (s₃.1 ≡ s₂.1)
              × (s₃.0.state ≡ s₂.0.state)
              × ((x : ℤ)
                  → contains x s₃.0.missing_lsns
                    ≡ (not (eqb_ℤ x r.dlsn) && contains x s₂.0.missing_lsns)))
  unfolding complete
  write_stored meanwhile r d d₁ j a s =
      let s₂ = meanwhile (d₁, (store backend r j).1) in
      rw (write-stored meanwhile r d d₁ j a s) (
        λ ne. ground arith,
        λ e. (
          ground arith,
          ground arith,
          ground arith,
          λ x. ground (arith, contains-erase x r.dlsn s₂.0.missing_lsns),
        ),
      )

  -- A write that was acknowledged is acknowledged again when it is sent again, if no other call
  -- comes between: neither the device nor the journal changes.
  pub write_twice :
      (r : Request) (d : ReplDev) (j : J) (pair : LsnPair)
      → let (res, s) = write backend (λ s. s) r d j in
        res ≡ ok pair → write backend (λ s. s) r s.0 s.1 ≡ (ok (lsns_of s.0), s)
  write_twice r d j pair h =
      elim (Admission-cases (admit d r.hdr.term r.dlsn r.payload.size r.all_zeros)) [
        | inl (e, a) ↦ absurd (cc (h, write-rejected (λ s. s) r d j e a))
        | inr (inl (q, a)) ↦ rw (write-replayed (λ s. s) r d j q a) (
            write-replayed (λ s. s) r d j q a
            ∙ ap (λ x. (ok x, (d, j)))
                (admit-replayed d r.hdr.term r.dlsn r.payload.size r.all_zeros q a))
        | inr (inr (d₁, a)) ↦ elim (Result-cases (store backend r j).0) [
          | inl (u, s) ↦
              let p = (admit-Passed d d₁ r.hdr.term r.dlsn r.payload.size r.all_zeros a).0 in
              let m = admit-missing d d₁ r.hdr.term r.dlsn r.payload.size r.all_zeros a in
              let j₁ = (store backend r j).1 in
              rw
                (
                  write-stored (λ s. s) r d d₁ j a s,
                  complete-same d₁ r.hdr.term r.dlsn (p.in_term ∙ sym m.2),
                )
                (write-replayed (λ s. s) r _ j₁ _
                  (complete-replays d d₁ r.hdr.term r.dlsn r.payload.size r.all_zeros a))
          | inr (e, s) ↦ absurd (cc (h, write-failed (λ s. s) r d d₁ j e a s))
        ]
      ]
