-- ===== src/Craft/Interleaving.antt =====
-- Concurrent writes on one device: each suspension point of `CraftReplDev::write` is a place where
-- another call may run. A step is one critical section, or one journal call outside the lock. A
-- truncation is one step, and needs what the login gives: no write in flight, and a new end at or above
-- the commit point.
use home_blocks.Prelude.{ℕ, ◌≡◌, List, [], ◌∷◌, ◌++◌}
use home_blocks.Prelude.Int.{ℤ, ◌≤ℤ◌}
use home_blocks.Prelude.Errors.{ok}
use home_blocks.Craft.Journal.{JournalBackend}
use home_blocks.Craft.Device.{ReplDev, fresh_dev, seed_term}
use home_blocks.Craft.Write.{
  Request, admitted, admit, complete, store_payload, store_slot, truncate,
}

-- The writes in flight: before `alloc_write_data`, before `write_slot`, and before the last lock.
pub record System (J Blk : Type 0) : Type 0 where
  pub dev : ReplDev
  pub journal : J
  pub admitted_writes : List Request
  pub allocated : List (Request × Blk)
  pub stored : List Request

module _ {J Blk : Type 0} (backend : JournalBackend J Blk) where
  pub data Step (s : System J Blk) : System J Blk → Type 0 where
    -- the first critical section
    begins :
        (r : Request) (d : ReplDev)
        → admit s.dev r.hdr.term r.dlsn r.payload.size r.all_zeros ≡ admitted d
        → Step s (record s { dev = d; admitted_writes = r ∷ s.admitted_writes })
    -- `alloc_write_data` returns, with blocks or with an error
    allocates :
        (before after : List Request) (r : Request) (blkid : Blk)
        → s.admitted_writes ≡ before ++ r ∷ after
        → (store_payload backend r s.journal).0 ≡ ok blkid
        → Step s (record s {
          journal = (store_payload backend r s.journal).1;
          admitted_writes = before ++ after;
          allocated = (r, blkid) ∷ s.allocated;
        })
    alloc_fails :
        (before after : List Request) (r : Request)
        → s.admitted_writes ≡ before ++ r ∷ after
        → Step s (record s {
          journal = (store_payload backend r s.journal).1;
          admitted_writes = before ++ after;
        })
    -- `write_slot` returns; on an error the blocks are freed and the call ends
    stores :
        (before after : List (Request × Blk)) (r : Request) (blkid : Blk)
        → s.allocated ≡ before ++ (r, blkid) ∷ after
        → (store_slot backend r blkid s.journal).0 ≡ ok tt
        → Step s (record s {
          journal = (store_slot backend r blkid s.journal).1;
          allocated = before ++ after;
          stored = r ∷ s.stored;
        })
    store_fails :
        (before after : List (Request × Blk)) (r : Request) (blkid : Blk)
        → s.allocated ≡ before ++ (r, blkid) ∷ after
        → Step s (record s {
          journal = (store_slot backend r blkid s.journal).1;
          allocated = before ++ after;
        })
    -- the second critical section, whatever it returns
    completes :
        (before after : List Request) (r : Request)
        → s.stored ≡ before ++ r ∷ after
        → Step s (record s { dev = (complete s.dev r.hdr.term r.dlsn).1; stored = before ++ after })
    -- a login: the term changes, and with no write in flight the tail may be cut
    changes_term : (term : ℕ) → Step s (record s { dev = seed_term s.dev term })
    truncates :
        (lsn : ℤ)
        → s.stored ≡ []
        → s.allocated ≡ []
        → s.admitted_writes ≡ []
        → s.dev.state.commit_lsn ≤ℤ lsn
        → Step s (record s {
          dev = (truncate backend s.dev s.journal lsn).1.0;
          journal = (truncate backend s.dev s.journal lsn).1.1;
        })

  pub data Reach (s : System J Blk) : System J Blk → Type 0 where
    here : Reach s s
    next : {t u : System J Blk} → Reach s t → Step t u → Reach s u

  abbrev pub start : J → System J Blk
  start j = record {
    dev = fresh_dev;
    journal = j;
    admitted_writes = [];
    allocated = [];
    stored = [];
  }
