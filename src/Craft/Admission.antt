-- ===== src/Craft/Admission.antt =====
-- What the admission of a write does to the missing set and the frontier.
use home_blocks.Prelude.{
  ℕ, ◌+◌, ◌-◌, ◌≤◌, ◌<◌, ◌≡◌, refl, ap, ◌∙◌, Bool, true, false, not, ◌&&◌, ◌||◌, ◌⊎◌, inl, inr,
  arith, if◌then◌else◌, length, Bool-cases,
}
use home_blocks.Prelude.Int.{
  ℤ, pos, negsuc, pos_part, ◌+ℤ◌, ◌-ℤ◌, ◌≤ℤ◌, ◌<ℤ◌, ltb_ℤ, leb_ℤ, eqb_ℤ, eqb_ℤ_iff, +ℤ_parts,
  -ℤ_parts, parts_exclusive,
}
use home_blocks.Craft.Lsns.{
  Lsns, contains, insert, insert_gaps, in_window, contains-insert, contains-insert_gaps,
  length-insert, length-insert_gaps,
}
use home_blocks.Craft.Device.{ReplDev}
use home_blocks.Craft.Write.{admitted, track, admit, int64_max, k_max_ooo_gap, k_max_missing_lsns}

gap_window :
    (last dlsn x : ℤ)
    → in_window (pos_part (dlsn -ℤ (last +ℤ pos 1))) (last +ℤ pos 1) x
      ≡ (ltb_ℤ last x && ltb_ℤ x dlsn)
gap_window last dlsn x = ground (
  arith,
  +ℤ_parts last (pos 1),
  -ℤ_parts dlsn (last +ℤ pos 1),
  parts_exclusive (dlsn -ℤ (last +ℤ pos 1)),
  +ℤ_parts (last +ℤ pos 1) (pos (pos_part (dlsn -ℤ (last +ℤ pos 1)))),
)

contains-insert_also :
    (x y : ℤ) (b : Bool) (s : Lsns)
    → contains x (if b || contains y s then insert y s else s) ≡ (contains x s || (eqb_ℤ x y && b))
contains-insert_also x y b s = elim (Bool-cases (eqb_ℤ x y)) [
  | inl e ↦ rw ((eqb_ℤ_iff x y).0 e) (ground (arith, contains-insert y y s))
  | inr e ↦ ground (arith, contains-insert x y s)
]

-- The missing set after an admission: what was missing, the slots skipped over that have no Empty
-- verdict, and the slot of the write.
pub contains-track :
    (d : ReplDev) (dlsn x : ℤ)
    → contains x (track d dlsn).missing_lsns ≡ (
        (contains x d.missing_lsns
          || ((ltb_ℤ d.state.last_append_lsn x && ltb_ℤ x dlsn) && not (contains x d.empty_lsns)))
        || (eqb_ℤ x dlsn && ltb_ℤ d.state.last_append_lsn dlsn))
unfolding track
contains-track d dlsn x =
    let last = d.state.last_append_lsn in
    let n = pos_part (dlsn -ℤ (last +ℤ pos 1)) in
    contains-insert_also x dlsn (ltb_ℤ last dlsn)
      (insert_gaps n (last +ℤ pos 1) d.empty_lsns d.missing_lsns)
    ∙ ap (λ b. b || (eqb_ℤ x dlsn && ltb_ℤ last dlsn))
        (contains-insert_gaps x n (last +ℤ pos 1) d.empty_lsns d.missing_lsns)
    ∙ ap
        (λ w.
          (contains x d.missing_lsns || (w && not (contains x d.empty_lsns)))
          || (eqb_ℤ x dlsn && ltb_ℤ last dlsn))
        (gap_window last dlsn x)

-- The slots behind the new frontier: those behind the old one, those skipped over, and the write's.
pub behind-track :
    (d : ReplDev) (dlsn x : ℤ)
    → leb_ℤ x (track d dlsn).state.last_append_lsn ≡ (
        leb_ℤ x d.state.last_append_lsn
        || ((ltb_ℤ d.state.last_append_lsn x && ltb_ℤ x dlsn)
            || (eqb_ℤ x dlsn && ltb_ℤ d.state.last_append_lsn dlsn)))
unfolding track
behind-track d dlsn x = ground (arith, parts_exclusive x, parts_exclusive dlsn)

pub track-empty_lsns : (d : ReplDev) (dlsn : ℤ) → (track d dlsn).empty_lsns ≡ d.empty_lsns
unfolding track
track-empty_lsns d dlsn = refl

-- The well-formed devices: a frontier within range, and missing slots that lie behind it and have
-- no Empty verdict.
pub record IsValid (d : ReplDev) : Type 0 where
  pub from : negsuc 0 ≤ℤ d.state.last_append_lsn
  pub below : d.state.last_append_lsn ≤ℤ pos (int64_max - k_max_ooo_gap)
  pub behind :
      (x : ℤ) → contains x d.missing_lsns ≡ true → (pos 0 ≤ℤ x) × (x ≤ℤ d.state.last_append_lsn)
  pub unverdicted : (x : ℤ) → contains x d.missing_lsns ≡ true → contains x d.empty_lsns ≡ false

-- What an admission passed on the way.
pub record Passed (d : ReplDev) (term : ℕ) (dlsn : ℤ) (size : ℕ) (all_zeros : Bool) : Type 0 where
  pub nonneg : pos 0 ≤ℤ dlsn
  pub in_term : term ≡ d.state.term
  pub unverdicted : contains dlsn d.empty_lsns ≡ false
  pub unwritten : (d.state.last_append_lsn <ℤ dlsn) ⊎ (contains dlsn d.missing_lsns ≡ true)
  pub in_range : dlsn ≤ℤ pos (int64_max - k_max_ooo_gap)
  pub near : (dlsn -ℤ d.state.last_append_lsn) ≤ℤ pos k_max_ooo_gap
  pub room :
      (dlsn ≤ℤ (d.state.last_append_lsn +ℤ pos 1)) ⊎ (length d.missing_lsns < k_max_missing_lsns)

pub admit-Passed :
    (d d' : ReplDev) (term : ℕ) (dlsn : ℤ) (size : ℕ) (all_zeros : Bool)
    → admit d term dlsn size all_zeros ≡ admitted d'
    → Passed d term dlsn size all_zeros × (d' ≡ track d dlsn)
unfolding admit
admit-Passed d d' term dlsn size all_zeros e = ground arith

pub track-IsValid :
    (d : ReplDev) (term : ℕ) (dlsn : ℤ) (size : ℕ) (all_zeros : Bool)
    → IsValid d
    → Passed d term dlsn size all_zeros
    → IsValid (track d dlsn)
unfolding track
track-IsValid d term dlsn size all_zeros v p = record {
  from = ground (arith, v.from, p.nonneg);
  below = ground (arith, v.below, p.in_range);
  behind = λ x m.
      ground (arith, v.behind x, p.nonneg, contains-track d dlsn x, v.from, eqb_ℤ_iff x dlsn);
  unverdicted = λ x m.
      ground (arith, v.unverdicted x, p.unverdicted, contains-track d dlsn x, eqb_ℤ_iff x dlsn);
}

-- A write that is admitted leaves a well-formed device well-formed.
pub admit-IsValid :
    (d d' : ReplDev) (term : ℕ) (dlsn : ℤ) (size : ℕ) (all_zeros : Bool)
    → IsValid d
    → admit d term dlsn size all_zeros ≡ admitted d'
    → IsValid d'
admit-IsValid d d' term dlsn size all_zeros v e =
    let (p, eq) = admit-Passed d d' term dlsn size all_zeros e in
    rw eq (track-IsValid d term dlsn size all_zeros v p)

length-track :
    (d : ReplDev) (dlsn : ℤ)
    → length (track d dlsn).missing_lsns
      ≤ length d.missing_lsns + pos_part (dlsn -ℤ (d.state.last_append_lsn +ℤ pos 1)) + 1
unfolding track
length-track d dlsn =
    let last = d.state.last_append_lsn in
    let n = pos_part (dlsn -ℤ (last +ℤ pos 1)) in
    let gaps = insert_gaps n (last +ℤ pos 1) d.empty_lsns d.missing_lsns in
    ground (
      arith,
      length-insert dlsn gaps,
      length-insert_gaps n (last +ℤ pos 1) d.empty_lsns d.missing_lsns,
    )

-- An admission lets the missing set grow by the write's own slot at most once the set holds
-- `k_max_missing_lsns` slots, and takes it to `k_max_missing_lsns + k_max_ooo_gap - 1` slots at most
-- otherwise, unless the write is in order: then it grows by one.
pub admit-length :
    (d d' : ReplDev) (term : ℕ) (dlsn : ℤ) (size : ℕ) (all_zeros : Bool)
    → admit d term dlsn size all_zeros ≡ admitted d'
    → (length d'.missing_lsns ≤ length d.missing_lsns + 1)
      ⊎ ((length d.missing_lsns < k_max_missing_lsns)
          × (length d'.missing_lsns < k_max_missing_lsns + k_max_ooo_gap))
admit-length d d' term dlsn size all_zeros e =
    let (p, eq) = admit-Passed d d' term dlsn size all_zeros e in
    let last = d.state.last_append_lsn in
    ground (
      arith,
      p.near,
      p.room,
      eq,
      length-track d dlsn,
      +ℤ_parts last (pos 1),
      -ℤ_parts dlsn (last +ℤ pos 1),
      -ℤ_parts dlsn last,
      parts_exclusive (dlsn -ℤ (last +ℤ pos 1)),
    )

-- On a well-formed device, no step of the arithmetic of an admission leaves the range of `int64_t`:
-- not the successor of the frontier, nor the distance to a write that passed the first guard, nor
-- any slot of the gap loop, its last increment included.
pub admit_no_overflow :
    (d : ReplDev) (dlsn : ℤ)
    → IsValid d
    → pos 0 ≤ℤ dlsn
    → dlsn ≤ℤ pos (int64_max - k_max_ooo_gap)
    → ((d.state.last_append_lsn +ℤ pos 1) ≤ℤ pos int64_max)
      × ((dlsn -ℤ d.state.last_append_lsn) ≤ℤ pos int64_max)
      × ((negsuc int64_max) ≤ℤ (dlsn -ℤ d.state.last_append_lsn))
      × ((gap : ℤ) → gap <ℤ dlsn → (gap +ℤ pos 1) ≤ℤ pos int64_max)
admit_no_overflow d dlsn v h k =
    let last = d.state.last_append_lsn in
    let facts = v.from in
    let facts' = v.below in
    (
      omega (arith, +ℤ_parts last (pos 1)),
      omega (arith, -ℤ_parts dlsn last, parts_exclusive last, parts_exclusive dlsn),
      omega (arith, -ℤ_parts dlsn last, parts_exclusive last, parts_exclusive dlsn),
      λ gap g. omega (arith, +ℤ_parts gap (pos 1)),
    )
