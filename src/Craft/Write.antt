-- ===== src/Craft/Write.antt =====
-- `CraftReplDev::write` (craft/craft_repl_dev.cpp): the critical section that admits a write, the
-- journal calls outside the lock, and the critical section that completes it. And `truncate`.
use home_blocks.Prelude.{
  ℕ, ◌≡◌, refl, ◌⊎◌, inl, inr, ◌-◌, ◌%◌, ◌^◌, Bool, true, false, not, ◌&&◌, ◌||◌, ltb, leb, ◌==◌,
  if◌then◌else◌, length,
}
use home_blocks.Prelude.Int.{ℤ, pos, pos_part, ◌+ℤ◌, ◌-ℤ◌, ltb_ℤ, leb_ℤ, max_ℤ}
use home_blocks.Prelude.Errors.{
  Error, Result, ok, err, Status, stale_term, empty_slot, invalid_argument, value_too_large,
}
use home_blocks.Prelude.Buffers.{SgList}
use home_blocks.Craft.Lsns.{contains, insert, erase, erase_above, insert_gaps}
use home_blocks.Craft.Journal.{JournalBackend}
use home_blocks.Craft.Device.{ReplDev, LsnPair, ClientHdr, lsns_of}

abbrev pub int64_max : ℕ
int64_max = 2 ^ 63 - 1

abbrev pub k_max_ooo_gap : ℕ
k_max_ooo_gap = 1_000_000

abbrev pub k_max_missing_lsns : ℕ
k_max_missing_lsns = 2_000_000

-- `all_zeros == (data.size > 0)`
abbrev pub shape_mismatch : Bool → ℕ → Bool
shape_mismatch true size = ltb 0 size
shape_mismatch false size = not (ltb 0 size)

-- How the first critical section ends: an error, an early acknowledgement, or the way to the journal.
pub data Admission : Type 0 where
  rejected : Error → Admission
  replayed : LsnPair → Admission
  admitted : ReplDev → Admission

-- The gaps up to `dlsn`, and `dlsn` itself, become missing; the frontier moves.
unfoldable pub track : ReplDev → ℤ → ReplDev
track d dlsn =
    let first = d.state.last_append_lsn +ℤ pos 1 in
    let gaps = insert_gaps (pos_part (dlsn -ℤ first)) first d.empty_lsns d.missing_lsns in
    record d {
      missing_lsns =
          if ltb_ℤ d.state.last_append_lsn dlsn || contains dlsn gaps
          then insert dlsn gaps
          else gaps;
      state = record d.state { last_append_lsn = max_ℤ d.state.last_append_lsn dlsn };
    }

-- The checks under the lock, in order.
unfoldable pub admit_locked : ReplDev → ℕ → ℤ → Admission
admit_locked d term dlsn =
    let last = d.state.last_append_lsn in
    if not (term == d.state.term)
    then rejected stale_term
    else if contains dlsn d.empty_lsns
    then rejected empty_slot
    else if leb_ℤ dlsn last && not (contains dlsn d.missing_lsns)
    then replayed (lsns_of d)
    else if ltb_ℤ (pos (int64_max - k_max_ooo_gap)) dlsn
    then rejected invalid_argument
    else if ltb_ℤ (pos k_max_ooo_gap) (dlsn -ℤ last)
    then rejected value_too_large
    else if ltb_ℤ (last +ℤ pos 1) dlsn && leb k_max_missing_lsns (length d.missing_lsns)
    then rejected value_too_large
    else admitted (track d dlsn)

unfoldable pub admit : ReplDev → ℕ → ℤ → ℕ → Bool → Admission
unfolding admit_locked
admit d term dlsn size all_zeros =
    if ltb_ℤ dlsn (pos 0)
    then rejected invalid_argument
    else if shape_mismatch all_zeros size
    then rejected invalid_argument
    else admit_locked d term dlsn

-- The second critical section: the term is checked again, and the slot is no longer missing.
unfoldable pub complete : ReplDev → ℕ → ℤ → Result LsnPair × ReplDev
complete d term dlsn =
    if term == d.state.term
    then (ok (lsns_of d), record d { missing_lsns = erase dlsn d.missing_lsns })
    else (err stale_term, d)

-- The second half of `truncate`: the frontier is clamped and the missing set cut.
unfoldable pub truncate_dev : ReplDev → ℤ → ReplDev
truncate_dev d lsn = record d {
  state = record d.state {
    last_append_lsn = if ltb_ℤ lsn d.state.last_append_lsn then lsn else d.state.last_append_lsn;
  };
  missing_lsns = erase_above lsn d.missing_lsns;
}

-- One call of `write` after its admission, as the journal calls need it.
pub record Request : Type 0 where
  pub hdr : ClientHdr
  pub dlsn : ℤ
  pub addr : ℕ
  pub len : ℕ
  pub payload : SgList
  pub all_zeros : Bool

-- `static_cast< lba_count_t >(len)`
abbrev pub u32 : ℕ → ℕ
u32 n = n % 2 ^ 32

module _ {J Blk : Type 0} (journal : JournalBackend J Blk) where
  -- The payload goes to the block store first; a zero write has none.
  unfoldable pub store_payload : Request → J → Result Blk × J
  store_payload r j =
      if r.all_zeros
      then (ok journal.no_blkid, j)
      else journal.alloc_write_data r.payload (u32 r.len) j

  -- `write_slot`; if it fails, blocks that were allocated are freed, and an error of that is logged.
  unfoldable pub store_slot : Request → Blk → J → Status × J
  store_slot r blkid j =
      let (res, j') = journal.write_slot r.dlsn r.hdr.term r.addr (u32 r.len) blkid r.all_zeros j in
      elim res [
        | ok _ ↦ (ok tt, j')
        | err e ↦ (err e, if r.all_zeros then j' else (journal.free_data blkid j').1)
      ]

  unfoldable pub store : Request → J → Status × J
  store r j =
      let (alloc_res, j') = store_payload r j in
      elim alloc_res [ err e ↦ (err e, j') | ok blkid ↦ store_slot r blkid j' ]

  -- The whole call. `meanwhile` is what other calls do while the journal is at work and this one does
  -- not hold the lock.
  unfoldable pub write :
      (ReplDev × J → ReplDev × J) → Request → ReplDev → J → Result LsnPair × (ReplDev × J)
  write meanwhile r d j = elim (admit d r.hdr.term r.dlsn r.payload.size r.all_zeros) [
    | rejected e ↦ (err e, (d, j))
    | replayed pair ↦ (ok pair, (d, j))
    | admitted d₁ ↦
        let (res, j₁) = store r j in
        elim res [
          | err e ↦ (err e, meanwhile (d₁, j₁))
          | ok _ ↦
              let (d₂, j₂) = meanwhile (d₁, j₁) in
              let (done, d₃) = complete d₂ r.hdr.term r.dlsn in (done, (d₃, j₂))
        ]
  ]

  -- The journal is rolled back first; an error of that ends the call.
  unfoldable pub truncate : ReplDev → J → ℤ → Status × (ReplDev × J)
  unfolding truncate_dev
  truncate d j lsn =
      let (res, j') = journal.truncate_to lsn j in
      elim res [ err e ↦ (err e, (d, j')) | ok _ ↦ (ok tt, (truncate_dev d lsn, j')) ]

pub Admission-cases :
    (a : Admission)
    → ((e : Error) × (a ≡ rejected e))
      ⊎ ((pair : LsnPair) × (a ≡ replayed pair))
      ⊎ ((d : ReplDev) × (a ≡ admitted d))
Admission-cases (rejected e) = inl (e, refl)
Admission-cases (replayed pair) = inr (inl (pair, refl))
Admission-cases (admitted d) = inr (inr (d, refl))
