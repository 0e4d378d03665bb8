-- ===== src/Index/FixedTable.antt =====
-- `VolumeIndexTable` over the fixed btree (volume/index_fixed_kv.hpp and index_fixed_table.hpp): a
-- range is written one lba at a time, and a failure undoes what was written.
use home_blocks.Prelude.{
  ℕ, zero, suc, ◌+◌, ◌-◌, ◌%◌, ◌^◌, ◌≡◌, Bool, true, false, Option, none, some, leb, ◌==◌,
  if◌then◌else◌, List,
}
use home_blocks.Prelude.Errors.{Result, ok, err, Status, index_error}
use home_blocks.Index.Value.{BlkId}

-- `VolumeIndexValue` of the fixed index.
pub record FixedValue : Type 0 where
  pub blkid : BlkId
  pub checksum : ℕ

-- `none` is the default `blk_id{}`, which is not valid.
pub record BlockInfo : Type 0 where
  pub new_blkid : BlkId
  pub new_checksum : ℕ
  pub old_blkid : Option BlkId
  pub old_checksum : ℕ

-- `std::unordered_map< lba_t, BlockInfo >` as `operator[]` reads and writes it.
abbrev pub Blocks : Type 0
Blocks = ℕ → BlockInfo

abbrev pub set_info : Blocks → ℕ → BlockInfo → Blocks
set_info b k i j = if j == k then i else b j

abbrev pub new_value : BlockInfo → FixedValue
new_value i = record { blkid = i.new_blkid; checksum = i.new_checksum }

-- HomeStore's btree: an upsert and a removal report success; a failed one changes nothing.
pub record Btree (T : Type 0) : Type 0 where
  pub lookup : T → ℕ → Option FixedValue
  pub put : ℕ → FixedValue → T → Bool × T
  pub remove : ℕ → T → Bool × T

pub record BtreeLaws {T : Type 0} (tree : Btree T) : Type 0 where
  pub lookup-put :
      (k : ℕ) (v : FixedValue) (t : T) (j : ℕ)
      → (tree.put k v t).0 ≡ true
      → tree.lookup (tree.put k v t).1 j ≡ (if j == k then some v else tree.lookup t j)
  pub lookup-put_failed :
      (k : ℕ) (v : FixedValue) (t : T) (j : ℕ)
      → (tree.put k v t).0 ≡ false
      → tree.lookup (tree.put k v t).1 j ≡ tree.lookup t j
  pub lookup-remove :
      (k : ℕ) (t : T) (j : ℕ)
      → (tree.remove k t).0 ≡ true
      → tree.lookup (tree.remove k t).1 j ≡ (if j == k then none else tree.lookup t j)

abbrev pub u64_mod : ℕ
u64_mod = 2 ^ 64

module _ {T : Type 0} (tree : Btree T) where
  -- The filter callback of an upsert: it sees the existing value, if there is one.
  unfoldable pub note_existing : T → ℕ → Blocks → Blocks
  note_existing t lba b = elim (tree.lookup t lba) [
    | none ↦ b
    | some v ↦
        set_info b lba (record (b lba) { old_blkid = some v.blkid; old_checksum = v.checksum })
  ]

  -- One round of `rollback_write`; a failure is only logged.
  unfoldable pub undo : BlockInfo → ℕ → T → T
  undo i lba t = elim i.old_blkid [
    | some b ↦ (tree.put lba (record { blkid = b; checksum = i.old_checksum }) t).1
    | none ↦ (tree.remove lba t).1
  ]

  -- `for (lba = start_lba; lba <= end_lba; ++lba)` in 64 bits; `none` when the fuel runs out.
  unfoldable pub rollback_write : ℕ → ℕ → ℕ → Blocks → T → Option T
  rollback_write zero lba end_lba b t = none
  rollback_write (suc fuel) lba end_lba b t = elim (leb lba end_lba) [
    | true ↦ rollback_write fuel ((lba + 1) % u64_mod) end_lba b (undo (b lba) lba t)
    | false ↦ some t
  ]

  -- The rollback of a write that failed at `lba`: up to `lba - 1`, in 64 bits.
  unfoldable pub give_up : ℕ → ℕ → ℕ → Blocks → T → Option (Status × T × Blocks)
  give_up fuel start_lba lba b t =
      elim (rollback_write fuel start_lba ((lba + u64_mod - 1) % u64_mod) b t) [
        | none ↦ none
        | some t' ↦ some (err index_error, t', b)
      ]

  -- The loop of `write_to_index`, in 64 bits as well: `rounds` is its fuel, `fuel` that of a rollback.
  unfoldable pub write_loop : ℕ → ℕ → ℕ → ℕ → ℕ → Blocks → T → Option (Status × T × Blocks)
  write_loop zero fuel start_lba end_lba lba b t = none
  write_loop (suc rounds) fuel start_lba end_lba lba b t = elim (leb lba end_lba) [
    | false ↦ some (ok tt, t, b)
    | true ↦
        let b' = note_existing t lba b in
        let (done, t') = tree.put lba (new_value (b' lba)) t in
        elim done [
          | true ↦ write_loop rounds fuel start_lba end_lba ((lba + 1) % u64_mod) b' t'
          | false ↦ give_up fuel start_lba lba b' t'
        ]
  ]

  unfoldable pub write_to_index : ℕ → ℕ → ℕ → Blocks → T → Option (Status × T × Blocks)
  write_to_index fuel start_lba end_lba b t = write_loop fuel fuel start_lba end_lba start_lba b t

  -- A query of the btree tells whether it succeeded, and the entries.
  unfoldable pub read_from_index :
      (ℕ → ℕ → T → Bool × List (ℕ × FixedValue)) → ℕ → ℕ → T → Result (List (ℕ × FixedValue))
  read_from_index query start_lba end_lba t =
      let (done, kvs) = query start_lba end_lba t in
      elim done [ true ↦ ok kvs | false ↦ err index_error ]
