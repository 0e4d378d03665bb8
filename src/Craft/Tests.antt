-- ===== src/Craft/Tests.antt =====
-- The CRAFT device at work on a journal that keeps the numbers of its slots in a list.
use home_blocks.Prelude.{
  ℕ, ◌+◌, ◌≡◌, ◌≢◌, refl, true, false, not, ◌||◌, ◌&&◌, List, [], ◌∷◌, map, length, Option, none,
  some, All, ◌<◌, ◌≤◌, ◌⊎◌, arith, if◌then◌else◌,
}
use home_blocks.Prelude.Int.{ℤ, pos, negsuc, ◌+ℤ◌, ◌-ℤ◌, ◌≤ℤ◌, leb_ℤ, ltb_ℤ, eqb_ℤ, eqb_ℤ_iff}
use home_blocks.Prelude.Errors.{Result, ok, err, io_error, stale_term, not_supported}
use home_blocks.Craft.Lsns.{
  Lsns, contains, insert, erase_above, insert_gaps, contains-insert, contains-erase_above,
}
use home_blocks.Craft.Journal.{JournalSlot, empty_verdict, JournalBackend, JournalLaws}
use home_blocks.Craft.Device.{
  ReplDev, lsns_of, seed_term, fresh_dev, fetch_data, fetch_kind, slot_kind,
}
use home_blocks.Craft.Write.{
  Request, admitted, admit, admit_locked, track, complete, store, store_payload, store_slot, write,
  truncate, k_max_missing_lsns, k_max_ooo_gap,
}
use home_blocks.Craft.Admission.{IsValid, admit-IsValid, admit-length}
use home_blocks.Craft.Interleaving.{System, begins, Reach, here, next, start}
use home_blocks.Craft.Coverage.{IsCovered, Reach-IsCovered, start-IsCovered}
use home_blocks.Craft.Fetch.{
  answerable_among, ShowsVerdict, fetch_data-lsns, fetch_data-held, Among,
}
use home_blocks.Craft.Outcomes.{write_fails, write_stored, write_twice}
use home_blocks.Craft.Truncation.{truncate-IsValid}
use home_blocks.Craft.Entry.{JournalEntry, decode, InRange}
use home_blocks.Craft.HomeStoreBackend.{HomeStore, write_slot, written_entry, write_slot-readable}

abbrev slot_of : ℤ → JournalSlot
slot_of lsn = record {
  lsn = lsn;
  is_empty = false;
  all_zeros = false;
  lba_off_bytes = 0;
  len_bytes = 4096;
  payload = record { size = 0; iovs = [] };
}

-- The journal with a way to read its slots.
abbrev journal_with : (ℤ → Lsns → Result JournalSlot) → JournalBackend Lsns ℕ
journal_with read = record {
  no_blkid = 0;
  alloc_write_data = λ payload len j. (ok 1, j);
  write_slot = λ lsn term lba len blkid zeros j. (ok tt, insert lsn j);
  read_slot = read;
  truncate_to = λ lsn j. (ok tt, erase_above lsn j);
  free_data = λ blkid j. (ok tt, j);
}

abbrev list_journal : JournalBackend Lsns ℕ
list_journal = journal_with (λ lsn j. if contains lsn j then ok (slot_of lsn) else err io_error)

-- As the journal on HomeStore.
abbrev unreadable : JournalBackend Lsns ℕ
unreadable = journal_with (λ lsn j. err not_supported)

laws_with : (read : ℤ → Lsns → Result JournalSlot) → JournalLaws (journal_with read)
laws_with read = record {
  holds = λ j l. contains l j;
  alloc_keeps = λ payload len j l h. h;
  write_keeps = λ lsn term lba len blkid zeros j l h. ground (arith, h, contains-insert l lsn j);
  write_holds = λ lsn term lba len blkid zeros j h.
      ground (arith, contains-insert lsn lsn j, (eqb_ℤ_iff lsn lsn).1 refl);
  free_keeps = λ blkid j l h. h;
  truncate_keeps = λ lsn j l k h. ground (arith, h, k, contains-erase_above l lsn j);
  truncate_fails = λ lsn j l e h. ground (arith, h);
}

list_laws : JournalLaws list_journal
list_laws = laws_with (λ lsn j. if contains lsn j then ok (slot_of lsn) else err io_error)

-- A journal that has no room.
abbrev full_journal : JournalBackend Lsns ℕ
full_journal = record list_journal {
  write_slot = λ lsn term lba len blkid zeros j. (err io_error, j);
}

abbrev write_at : ℤ → ℕ → Request
write_at lsn term = record {
  hdr = record { term = term; commit_lsn = negsuc 0; all_committed_lsn = negsuc 0 };
  dlsn = lsn;
  addr = 8;
  len = 4096;
  payload = record { size = 4096; iovs = (7 ∷ []) ∷ [] };
  all_zeros = false;
}

fresh-IsValid : IsValid fresh_dev
unfolding fresh_dev contains
fresh-IsValid = record {
  from = omega arith;
  below = omega arith;
  behind = λ x h. ground (arith, h);
  unverdicted = λ x h. ground (arith, h);
}

-- A write two slots ahead of a new device.
admitted_2 : admit fresh_dev 0 (pos 2) 4096 false ≡ admitted (track fresh_dev (pos 2))
unfolding admit admit_locked fresh_dev contains ◌-ℤ◌ ◌+ℤ◌
admitted_2 = refl

abbrev dev_2 : ReplDev
dev_2 = track fresh_dev (pos 2)

admit-IsValid_example : IsValid dev_2
admit-IsValid_example = admit-IsValid fresh_dev dev_2 0 (pos 2) 4096 false fresh-IsValid admitted_2

admit-length_example :
    (length dev_2.missing_lsns ≤ length fresh_dev.missing_lsns + 1)
    ⊎ ((length fresh_dev.missing_lsns < k_max_missing_lsns)
        × (length dev_2.missing_lsns < k_max_missing_lsns + k_max_ooo_gap))
admit-length_example = admit-length fresh_dev dev_2 0 (pos 2) 4096 false admitted_2

-- A write is admitted and waits for its blocks.
abbrev begun : System Lsns ℕ
begun = record (start list_journal []) { dev = dev_2; admitted_writes = write_at (pos 2) 0 ∷ [] }

begun-Reach : Reach list_journal (start list_journal []) begun
begun-Reach = next here (begins (write_at (pos 2) 0) dev_2 admitted_2)

Reach-IsCovered_example : IsCovered list_journal list_laws begun
Reach-IsCovered_example =
    Reach-IsCovered list_journal list_laws begun-Reach (start-IsCovered list_journal list_laws [])

-- Slot 0 has a verdict, slot 1 is written, slot 2 is missing.
abbrev dev_v : ReplDev
dev_v = record {
  state = record { commit_lsn = negsuc 0; last_append_lsn = pos 2; client_token = 0; term = 3 };
  missing_lsns = pos 2 ∷ [];
  empty_lsns = pos 0 ∷ [];
}

-- The same device with slot 1 in a journal that cannot be read.
abbrev unread : System Lsns ℕ
unread = record (start unreadable (pos 1 ∷ [])) { dev = dev_v }

abbrev unreadable_laws : JournalLaws unreadable
unreadable_laws = laws_with (λ lsn j. err not_supported)

three_slots :
    (l : ℤ)
    → leb_ℤ (pos 0) l ≡ true
    → leb_ℤ l (pos 2) ≡ true
    → ((contains l (pos 2 ∷ []) || contains l (pos 0 ∷ [])) || contains l (pos 1 ∷ [])) ≡ true
unfolding contains
three_slots (pos n) lo hi = ground (arith, lo, hi)
three_slots (negsuc n) lo hi = ground (arith, lo, hi)

unread-IsCovered : IsCovered unreadable unreadable_laws unread
unfolding laws_with
unread-IsCovered = record { slots = three_slots; held = tt }

refused : fetch_data unreadable dev_v (pos 1 ∷ []) (pos 0 ∷ pos 1 ∷ pos 2 ∷ []) ≡ err not_supported
unfolding fetch_data fetch_kind slot_kind contains
refused = refl

fetch_data-held_example :
    (l : ℤ) × Among l (pos 0 ∷ pos 1 ∷ pos 2 ∷ [])
    × (unreadable_laws.holds (pos 1 ∷ []) l ≡ true)
    × (unreadable.read_slot l (pos 1 ∷ []) ≡ err not_supported)
fetch_data-held_example =
    fetch_data-held unreadable unreadable_laws unread (pos 0 ∷ pos 1 ∷ pos 2 ∷ []) not_supported
      unread-IsCovered refused

fetched :
    fetch_data list_journal dev_v (pos 1 ∷ []) (pos 0 ∷ pos 1 ∷ pos 2 ∷ [])
    ≡ ok (empty_verdict (pos 0) ∷ slot_of (pos 1) ∷ [])
unfolding fetch_data fetch_kind slot_kind contains
fetched = refl

fetch_data-lsns_example :
    (map (λ s. s.lsn) (empty_verdict (pos 0) ∷ slot_of (pos 1) ∷ [])
      ≡ answerable_among dev_v (pos 0 ∷ pos 1 ∷ pos 2 ∷ []))
    × All (ShowsVerdict dev_v) (empty_verdict (pos 0) ∷ slot_of (pos 1) ∷ [])
fetch_data-lsns_example =
    fetch_data-lsns list_journal dev_v (pos 1 ∷ []) (pos 0 ∷ pos 1 ∷ pos 2 ∷ []) _ fetched

store_fails : (store full_journal (write_at (pos 2) 0) []).0 ≡ err io_error
unfolding store store_payload store_slot
store_fails = refl

write_fails_example :
    (write full_journal (λ s. s) (write_at (pos 2) 0) fresh_dev []
      ≡ (err io_error, (dev_2, (store full_journal (write_at (pos 2) 0) []).1)))
    × (contains (pos 2) dev_2.missing_lsns ≡ true)
    × (leb_ℤ (pos 2) dev_2.state.last_append_lsn ≡ true)
    × (admit dev_2 0 (pos 2) 4096 false ≡ admitted (track dev_2 (pos 2)))
write_fails_example =
    write_fails full_journal (λ s. s) (write_at (pos 2) 0) fresh_dev dev_2 [] io_error admitted_2
      store_fails

store_succeeds : (store list_journal (write_at (pos 2) 0) []).0 ≡ ok tt
unfolding store store_payload store_slot
store_succeeds = refl

-- While the write is in the journal, another session begins.
abbrev relogin : ReplDev × Lsns → ReplDev × Lsns
relogin (d, j) = (seed_term d 1, j)

write_stored_example :
    let s₂ = relogin (dev_2, (store list_journal (write_at (pos 2) 0) []).1) in
    let (res, s₃) = write list_journal relogin (write_at (pos 2) 0) fresh_dev [] in
    ((0 ≢ s₂.0.state.term) → (res ≡ err stale_term) × (s₃ ≡ s₂))
    × ((0 ≡ s₂.0.state.term)
        → (res ≡ ok (lsns_of s₂.0))
          × (s₃.1 ≡ s₂.1)
          × (s₃.0.state ≡ s₂.0.state)
          × ((x : ℤ)
              → contains x s₃.0.missing_lsns
                ≡ (not (eqb_ℤ x (pos 2)) && contains x s₂.0.missing_lsns)))
write_stored_example =
    write_stored list_journal relogin (write_at (pos 2) 0) fresh_dev dev_2 [] admitted_2
      store_succeeds

abbrev written : ReplDev × Lsns
written = (write list_journal (λ s. s) (write_at (pos 2) 0) fresh_dev []).1

acknowledged :
    (write list_journal (λ s. s) (write_at (pos 2) 0) fresh_dev []).0
    ≡ ok (record { commit_lsn = negsuc 0; last_append_lsn = pos 2 })
unfolding write admit admit_locked track complete store store_payload store_slot fresh_dev contains
    insert insert_gaps ◌-ℤ◌ ◌+ℤ◌
acknowledged = refl

write_twice_example :
    write list_journal (λ s. s) (write_at (pos 2) 0) written.0 written.1
    ≡ (ok (lsns_of written.0), written)
write_twice_example = write_twice list_journal (write_at (pos 2) 0) fresh_dev [] _ acknowledged

commit_below : dev_2.state.commit_lsn ≤ℤ pos 1
unfolding track fresh_dev
commit_below = omega arith

commit_behind : dev_2.state.commit_lsn ≤ℤ dev_2.state.last_append_lsn
unfolding track fresh_dev
commit_behind = omega arith

truncate-IsValid_example :
    let (res, s) = truncate list_journal dev_2 [] (pos 1) in
    IsValid s.0
    × (s.0.state.commit_lsn ≡ dev_2.state.commit_lsn)
    × (s.0.state.commit_lsn ≤ℤ s.0.state.last_append_lsn)
    × (s.0.state.term ≡ dev_2.state.term)
    × (s.0.empty_lsns ≡ dev_2.empty_lsns)
    × (res ≡ ok tt
        → (s.0.state.last_append_lsn ≡ (
            if ltb_ℤ (pos 1) dev_2.state.last_append_lsn
            then pos 1
            else dev_2.state.last_append_lsn))
          × ((x : ℤ)
              → contains x s.0.missing_lsns ≡ (leb_ℤ x (pos 1) && contains x dev_2.missing_lsns)))
    × (res ≢ ok tt → s.0 ≡ dev_2)
truncate-IsValid_example =
    truncate-IsValid list_journal dev_2 [] (pos 1) admit-IsValid_example (omega arith) commit_below
      commit_behind

abbrev entry : JournalEntry
entry = record {
  magic = 0xC4AF5AFE;
  version = 1;
  term = 7;
  lsn = negsuc 4;
  lba = 300;
  len = 70_000;
  all_zeros = 1;
}

entry-InRange : InRange entry
entry-InRange = record {
  magic = omega arith;
  version = omega arith;
  term = omega arith;
  lsn_from = omega arith;
  lsn_to = omega arith;
  lba = omega arith;
  len = omega arith;
  all_zeros = omega arith;
}

-- A log store that keeps its last record.
abbrev last_store : HomeStore (Option (ℤ × List ℕ)) ℕ
last_store = record {
  no_blkid = 0;
  serialize = λ b. b ∷ [];
  async_alloc_write = λ payload ordinal s. (some 1, s);
  async_free_blk = λ b s. (true, s);
  write_async = λ lsn blob s. (true, some (lsn, blob));
  rollback = λ lsn s. (true, s);
}

abbrev last_record : ℤ → Option (ℤ × List ℕ) → Option (List ℕ)
last_record lsn none = none
last_record lsn (some (l, blob)) = if eqb_ℤ l lsn then some blob else none

last_store_keeps :
    (lsn : ℤ) (blob : List ℕ) (s : Option (ℤ × List ℕ))
    → (last_store.write_async lsn blob s).0 ≡ true
    → last_record lsn (last_store.write_async lsn blob s).1 ≡ some blob
last_store_keeps lsn blob s h = rw ((eqb_ℤ_iff lsn lsn).1 refl) refl

last_store_accepts : (write_slot last_store 3 (pos 5) 2 8 4096 1 false none).0 ≡ ok tt
unfolding write_slot
last_store_accepts = refl

write_slot-readable_example :
    (blob : List ℕ) × (last_record (pos 5) (write_slot last_store 3 (pos 5) 2 8 4096 1 false none).1
      ≡ some blob)
    × (decode blob ≡ (written_entry last_store 3 (pos 5) 2 8 4096 0, 1 ∷ []))
write_slot-readable_example =
    write_slot-readable last_store 3 last_record last_store_keeps (pos 5) 2 8 4096 1 false none
      (omega arith) (omega arith) (omega arith) (omega arith) (omega arith) last_store_accepts
