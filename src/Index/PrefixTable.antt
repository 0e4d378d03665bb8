-- ===== src/Index/PrefixTable.antt =====
-- `VolumeIndexTable` over the prefix btree (volume/index_prefix_table.hpp): a range is written by one
-- put, for which the btree shifts the key and the value of the first lba.
use home_blocks.Prelude.{
  ℕ, zero, suc, ◌+◌, ◌^◌, ◌≤◌, ◌<◌, ◌≡◌, ◌≢◌, Bool, true, false, List, [], ◌∷◌, Option, none, some,
}
use home_blocks.Prelude.Errors.{Result, ok, err, Status, index_error}
use home_blocks.Index.Key.{IndexKey, key_of, lba_of, shift_key, distance}
use home_blocks.Index.Value.{BlkId, IndexValue, value_of, blkid_of, shift_value}
use home_blocks.Index.FixedTable.{Blocks, set_info}

-- An entry of the index.
abbrev pub Entry : Type 0
Entry = IndexKey × IndexValue

-- HomeStore's btree on interval keys. `put_range` takes the first and the last key and the value for
-- each distance from the first; it tells whether it succeeded, and the entries for which it called the
-- filter. A query tells whether it succeeded, and the entries.
pub record RangeBtree (T : Type 0) : Type 0 where
  pub lookup : T → IndexKey → Option IndexValue
  pub put_range : IndexKey → IndexKey → (ℕ → IndexValue) → T → Bool × T × List Entry
  pub query : IndexKey → IndexKey → T → Bool × List Entry

-- The filter callback.
unfoldable pub note_old : Entry → Blocks → Blocks
note_old (key, v) b =
    set_info b (lba_of key) (record (b (lba_of key)) { old_blkid = some (blkid_of v) })

unfoldable pub note_all : List Entry → Blocks → Blocks
note_all [] b = b
note_all (e ∷ es) b = note_all es (note_old e b)

abbrev status_of : Bool → Status
status_of true = ok tt
status_of false = err index_error

-- The value of the first lba, and what the btree makes of it for the lbas behind.
unfoldable pub value_at : (BlkId → ℕ) → ℕ → Blocks → ℕ → IndexValue
value_at to_integer start_lba b n =
    shift_value (λ lba. (b lba).new_checksum) start_lba
      (value_of (to_integer (b start_lba).new_blkid) (b start_lba).new_checksum) n

module _ {T : Type 0} (tree : RangeBtree T) where
  -- The entries that are there, among `count` keys from `n` behind `from` on.
  abbrev pub existing : IndexKey → ℕ → ℕ → T → List Entry
  existing from n zero t = []
  existing from n (suc count) t =
      let rest = existing from (n + 1) count t in
      elim (tree.lookup t (shift_key from n)) [
        | none ↦ rest
        | some v ↦ (shift_key from n, v) ∷ rest
      ]

  unfoldable pub write_to_index : (BlkId → ℕ) → ℕ → ℕ → Blocks → T → Status × T × Blocks
  write_to_index to_integer start_lba end_lba b t =
      let (done, t', seen) =
        tree.put_range (key_of start_lba) (key_of end_lba) (value_at to_integer start_lba b) t in
      (status_of done, t', note_all seen b)

  unfoldable pub read_from_index : ℕ → ℕ → T → Result (List Entry)
  read_from_index start_lba end_lba t =
      let (done, kvs) = tree.query (key_of start_lba) (key_of end_lba) t in
      elim done [ true ↦ ok kvs | false ↦ err index_error ]

-- A range inside one prefix.
pub record IsRange (from to : IndexKey) : Type 0 where
  pub one_prefix : from.lba_base ≡ to.lba_base
  pub rising : from.lba_offset ≤ to.lba_offset
  pub word : to.lba_offset < 2 ^ 32

-- A put that succeeds writes each shifted key of the range and no other, and shows the filter what was
-- there.
pub record RangeLaws {T : Type 0} (tree : RangeBtree T) : Type 0 where
  pub lookup-put :
      (from to : IndexKey) (vs : ℕ → IndexValue) (t : T) (n : ℕ)
      → IsRange from to
      → (tree.put_range from to vs t).0 ≡ true
      → n ≤ distance to from
      → tree.lookup (tree.put_range from to vs t).1 (shift_key from n) ≡ some (vs n)
  pub lookup-put_other :
      (from to : IndexKey) (vs : ℕ → IndexValue) (t : T) (k : IndexKey)
      → IsRange from to
      → (tree.put_range from to vs t).0 ≡ true
      → ((n : ℕ) → n ≤ distance to from → k ≢ shift_key from n)
      → tree.lookup (tree.put_range from to vs t).1 k ≡ tree.lookup t k
  pub filter_sees :
      (from to : IndexKey) (vs : ℕ → IndexValue) (t : T)
      → IsRange from to
      → (tree.put_range from to vs t).0 ≡ true
      → (tree.put_range from to vs t).2 ≡ existing tree from 0 (distance to from + 1) t
