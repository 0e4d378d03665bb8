-- ===== src/Craft/Truncation.antt =====
-- How a call of `truncate` ends (craft/craft_repl_dev.cpp).
use home_blocks.Prelude.{if◌then◌else◌, ◌≡◌, ◌≢◌, refl, ◌&&◌, inl, inr, arith}
use home_blocks.Prelude.Int.{ℤ, negsuc, ◌≤ℤ◌, leb_ℤ, ltb_ℤ}
use home_blocks.Prelude.Errors.{Error, ok, err, Result-cases}
use home_blocks.Craft.Lsns.{contains, contains-erase_above}
use home_blocks.Craft.Journal.{JournalBackend}
use home_blocks.Craft.Device.{ReplDev}
use home_blocks.Craft.Write.{truncate, truncate_dev}
use home_blocks.Craft.Admission.{IsValid}

module _ {J Blk : Type 0} (backend : JournalBackend J Blk) where
  truncate-done :
      (d : ReplDev) (j : J) (lsn : ℤ)
      → (backend.truncate_to lsn j).0 ≡ ok tt
      → truncate backend d j lsn ≡ (ok tt, (truncate_dev d lsn, (backend.truncate_to lsn j).1))
  unfolding truncate
  truncate-done d j lsn e = rw (e, truncate)

  truncate-failed :
      (d : ReplDev) (j : J) (lsn : ℤ) (f : Error)
      → (backend.truncate_to lsn j).0 ≡ err f
      → truncate backend d j lsn ≡ (err f, (d, (backend.truncate_to lsn j).1))
  unfolding truncate
  truncate-failed d j lsn f e = rw (e, truncate)

  -- `truncate` at an `lsn` of -1 or more that is not below the commit point, if the journal's rollback
  -- succeeds, sets a frontier above `lsn` to `lsn` and leaves any other frontier, and drops the missing
  -- slots above `lsn`; the commit point, the term and the verdicts stay, a well-formed device stays
  -- well-formed, and its commit point stays at or below its frontier if it was. If the rollback fails,
  -- the device stays.
  pub truncate-IsValid :
      (d : ReplDev) (j : J) (lsn : ℤ)
      → IsValid d
      → negsuc 0 ≤ℤ lsn
      → d.state.commit_lsn ≤ℤ lsn
      → d.state.commit_lsn ≤ℤ d.state.last_append_lsn
      → let (res, s) = truncate backend d j lsn in
        IsValid s.0
        × (s.0.state.commit_lsn ≡ d.state.commit_lsn)
        × (s.0.state.commit_lsn ≤ℤ s.0.state.last_append_lsn)
        × (s.0.state.term ≡ d.state.term)
        × (s.0.empty_lsns ≡ d.empty_lsns)
        × (res ≡ ok tt
            → (s.0.state.last_append_lsn
                ≡ (if ltb_ℤ lsn d.state.last_append_lsn then lsn else d.state.last_append_lsn))
              × ((x : ℤ)
                  → contains x s.0.missing_lsns ≡ (leb_ℤ x lsn && contains x d.missing_lsns)))
        × (res ≢ ok tt → s.0 ≡ d)
  unfolding truncate_dev
  truncate-IsValid d j lsn v h c₁ c₂ = elim (Result-cases (backend.truncate_to lsn j).0) [
    | inl (u, e) ↦ rw (truncate-done d j lsn e) (
      record {
        from = ground (arith, v.from);
        below = ground (arith, v.below);
        behind = λ x m. ground (arith, v.behind x, contains-erase_above x lsn d.missing_lsns);
        unverdicted =
            λ x m. ground (arith, v.unverdicted x, contains-erase_above x lsn d.missing_lsns);
      },
      refl,
      ground (arith, c₁, c₂),
      refl,
      refl,
      λ _. (refl, λ x. contains-erase_above x lsn d.missing_lsns),
      λ ne. absurd (ne refl),
    )
    | inr (f, e) ↦
        rw (truncate-failed d j lsn f e) (v, refl, c₂, refl, refl, λ x. absurd (cc x), λ _. refl)
  ]
