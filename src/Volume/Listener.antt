-- ===== src/Volume/Listener.antt =====
-- The listener of the replication device (listener.cpp), which hands committed entries to the server, and
-- the replay of a journal.
use home_blocks.Prelude.{ℕ, ◌≡◌, refl, Bool, true, List, [], ◌∷◌, Option, none, some}
use home_blocks.Prelude.Errors.{Status}
use home_blocks.Index.FixedTable.{Btree}
use home_blocks.Volume.Read.{IoReq}
use home_blocks.Volume.Write.{MultiBlk, JournalKey, data_size, write, BlkStore, free_all, on_write}
use home_blocks.Volume.Replay.{total_blks, on_write-write}

-- `MsgType`
pub data MsgType : Type 0 where
  read_msg write_msg unmap_msg : MsgType

-- A journal entry: the type in its header, its key, and the new blocks.
pub record Commit : Type 0 where
  pub msg_type : MsgType
  pub key : JournalKey
  pub blkids : List MultiBlk

module _ {T D : Type 0} (tree : Btree T) (store : BlkStore D) where
  -- `recovering` is whether the entry comes without a request.
  unfoldable pub on_commit : ℕ → Bool → Commit → T → D → Option (T × D)
  on_commit fuel recovering c t d = elim c.msg_type [
    | write_msg ↦ on_write tree store fuel recovering c.key c.blkids t d
    | read_msg ↦ some (t, d)
    | unmap_msg ↦ some (t, d)
  ]

  -- The entries of a journal, in order.
  unfoldable pub replay : ℕ → List Commit → T → D → Option (T × D)
  replay fuel [] t d = some (t, d)
  replay fuel (c ∷ cs) t d = elim (on_commit fuel true c t d) [
    | none ↦ none
    | some (t', d') ↦ replay fuel cs t' d'
  ]

  -- The old blocks that the entries name are handed to `free_blk_now`.
  abbrev pub free_log : List Commit → D → D
  free_log [] d = d
  free_log (c ∷ cs) d = free_log cs (free_all tree store true c.key d)

  abbrev pub written : JournalKey → List MultiBlk → Commit
  written key ms = record { msg_type = write_msg; key = key; blkids = ms }

  -- Writes one after the other, with the entries that they left.
  pub data Journaled (fuel : ℕ) : T → List Commit → T → Type 0 where
    nothing : {t : T} → Journaled fuel t [] t
    entry :
        {t t' t'' : T} {cs : List Commit} (csum_of : ℕ → ℕ) (blk_size : ℕ) (req : IoReq)
        (ms : List MultiBlk) (alloc_blks : ℕ → Option (List MultiBlk))
        (async_write : List MultiBlk → ℕ → Bool) (flush : JournalKey → Status) (s : Status)
        (key : JournalKey)
        → total_blks ms ≡ req.nlbas
        → alloc_blks (data_size blk_size req) ≡ some ms
        → write tree fuel csum_of blk_size req alloc_blks async_write flush t
          ≡ some (s, t', some key)
        → Journaled fuel t' cs t''
        → Journaled fuel t (written key ms ∷ cs) t''

  -- Writes that came to their journal entries, one after the other, on any index: the replay of the
  -- entries, from the index before the first write, ends in the index after the last one, and asks for
  -- the release of the old blocks that the entries name.
  pub replay-Journaled :
      (fuel : ℕ) (t : T) (cs : List Commit) (t' : T) (d : D)
      → Journaled fuel t cs t'
      → replay fuel cs t d ≡ some (t', free_log cs d)
  unfolding replay on_commit
  replay-Journaled fuel t [] t' d nothing = refl
  replay-Journaled fuel t (c ∷ cs) t'' d
        (entry {t' = u} csum_of blk_size req ms alloc_blks async_write flush s key enough got w
          rest) =
      let now =
        on_write-write tree store fuel csum_of blk_size req ms alloc_blks async_write flush t u d s
          key enough got w in
      rw (now, replay, on_commit)
        (replay-Journaled fuel u cs t'' (free_all tree store true key d) rest)
