-- ===== src/Craft/Device.antt =====
-- The state of `CraftReplDev` and the operations that only read it (craft/craft_repl_dev.hpp and
-- .cpp). The mutexes order the critical sections; the journal is an argument of its own.
use home_blocks.Prelude.{ℕ, Bool, not, ◌&&◌, List, [], ◌∷◌, ◌++◌, if◌then◌else◌, length}
use home_blocks.Prelude.Int.{ℤ, pos, negsuc, leb_ℤ}
use home_blocks.Prelude.Errors.{Result, ok, err, not_supported, ◌>>=◌}
use home_blocks.Craft.Lsns.{Lsns, contains, insert, erase}
use home_blocks.Craft.Journal.{JournalSlot, JournalBackend, empty_verdict}

pub record PartitionState : Type 0 where
  pub commit_lsn : ℤ
  pub last_append_lsn : ℤ
  pub client_token : ℕ
  pub term : ℕ

pub record ReplDev : Type 0 where
  pub state : PartitionState
  pub missing_lsns : Lsns
  pub empty_lsns : Lsns

-- `craft::lsn_pair`
pub record LsnPair : Type 0 where
  pub commit_lsn : ℤ
  pub last_append_lsn : ℤ

-- `craft::client_hdr`
pub record ClientHdr : Type 0 where
  pub term : ℕ
  pub commit_lsn : ℤ
  pub all_committed_lsn : ℤ

-- A new device: the default members of `CraftPartitionState`, and empty sets.
unfoldable pub fresh_dev : ReplDev
fresh_dev = record {
  state = record { commit_lsn = negsuc 0; last_append_lsn = negsuc 0; client_token = 0; term = 0 };
  missing_lsns = [];
  empty_lsns = [];
}

abbrev pub lsns_of : ReplDev → LsnPair
lsns_of d = record { commit_lsn = d.state.commit_lsn; last_append_lsn = d.state.last_append_lsn }

unfoldable pub get_lsns : ReplDev → Result LsnPair
get_lsns d = ok (lsns_of d)

unfoldable pub get_rs_commit_lsn : ReplDev → Result LsnPair
get_rs_commit_lsn d = ok (lsns_of d)

unfoldable pub missing_count : ReplDev → ℕ
missing_count d = length d.missing_lsns

unfoldable pub is_missing : ReplDev → ℤ → Bool
is_missing d lsn = contains lsn d.missing_lsns

unfoldable pub is_empty_slot : ReplDev → ℤ → Bool
is_empty_slot d lsn = contains lsn d.empty_lsns

-- The test seeds, which stand in for the recovery and RAFT handlers that are not written yet.
unfoldable pub seed_term : ReplDev → ℕ → ReplDev
seed_term d term = record d { state = record d.state { term = term } }

unfoldable pub seed_commit_lsn : ReplDev → ℤ → ReplDev
seed_commit_lsn d commit = record d { state = record d.state { commit_lsn = commit } }

unfoldable pub insert_all : List ℤ → Lsns → Lsns
insert_all [] s = s
insert_all (l ∷ ls) s = insert_all ls (insert l s)

unfoldable pub erase_all : List ℤ → Lsns → Lsns
erase_all [] s = s
erase_all (l ∷ ls) s = erase_all ls (erase l s)

unfoldable pub seed_lsns : ReplDev → ℤ → List ℤ → ReplDev
unfolding insert_all
seed_lsns d last_append missing = record d {
  state = record d.state { last_append_lsn = last_append };
  missing_lsns = insert_all missing [];
}

unfoldable pub seed_empty : ReplDev → List ℤ → ReplDev
unfolding insert_all erase_all
seed_empty d empty = record d {
  empty_lsns = insert_all empty [];
  missing_lsns = erase_all empty d.missing_lsns;
}

-- The verbs whose handlers are stubs.
unfoldable pub unsupported {ℓ} : {A : Type ℓ} → ReplDev → Result A × ReplDev
unsupported d = (err not_supported, d)

-- How `fetch_data` sees a slot.
pub data SlotKind : Type 0 where
  empty present absent : SlotKind

unfoldable pub slot_kind : ReplDev → ℤ → SlotKind
slot_kind d lsn =
    if contains lsn d.empty_lsns
    then empty
    else if leb_ℤ (pos 0) lsn
        && leb_ℤ lsn d.state.last_append_lsn
        && not (contains lsn d.missing_lsns)
    then present
    else absent

module _ {J Blk : Type 0} (journal : JournalBackend J Blk) where
  -- One round of the loop, by the kind of the slot: what it adds to the response.
  unfoldable pub fetch_kind : J → ℤ → SlotKind → Result (List JournalSlot)
  fetch_kind j lsn empty = ok (empty_verdict lsn ∷ [])
  fetch_kind j lsn present = do slot ← journal.read_slot lsn j; ok (record slot { lsn = lsn } ∷ [])
  fetch_kind j lsn absent = ok []

  unfoldable pub fetch_data : ReplDev → J → List ℤ → Result (List JournalSlot)
  fetch_data d j [] = ok []
  fetch_data d j (lsn ∷ lsns) = do
    here ← fetch_kind j lsn (slot_kind d lsn)
    rest ← fetch_data d j lsns
    ok (here ++ rest)
