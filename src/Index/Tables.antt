-- ===== src/Index/Tables.antt =====
-- The two forms of `VolumeIndexTable` (volume/index_fixed_table.hpp and index_prefix_table.hpp), of which
-- a build chooses one.
use home_blocks.Prelude.{
  ℕ, ◌+◌, ◌-◌, ◌^◌, ◌≤◌, ◌<◌, ◌≡◌, ap, sym, ◌∙◌, subst, true, Option, none, some, arith, leb, ◌&&◌,
  if◌then◌else◌,
}
use home_blocks.Index.Key.{key_of}
use home_blocks.Index.Value.{BlkId, IndexValue, HasLayout}
use home_blocks.Index.FixedTable.{FixedValue, BlockInfo, Blocks, new_value, Btree, BtreeLaws}
use home_blocks.Index.FixedTable as Fixed
use home_blocks.Index.Atomicity.{Recalls, Succeed}
use home_blocks.Index.Ranges.{write_to_index-writes}
use home_blocks.Index.PrefixTable.{RangeBtree, RangeLaws, value_at, write_to_index}
use home_blocks.Index.Agreement.{plain?, noted, IsRun, write_to_index-plain}

-- Both indexes map each lba of 64 bits to the same block and checksum.
abbrev pub Same : {F T : Type 0} → Btree F → RangeBtree T → F → T → Type 0
Same fixed tree tf t = (j : ℕ) → j < 2 ^ 64 → plain? (tree.lookup t (key_of j)) ≡ fixed.lookup tf j

within :
    {A : Type 0} (start end j : ℕ)
    → start ≤ j
    → j ≤ end
    → (x y : A) → (if leb start j && leb j end then x else y) ≡ x
within start end j p q x y = ground arith

noted-Recalls :
    (o : Option IndexValue) (i k : BlockInfo)
    → i.old_blkid ≡ none
    → Recalls k (plain? o)
    → (noted o i).old_blkid ≡ k.old_blkid
noted-Recalls none i k e r = e ∙ sym r
noted-Recalls (some v) i k e r = sym r.0

module _ {F T : Type 0} (fixed : Btree F) (fixed_laws : BtreeLaws fixed) (tree : RangeBtree T)
    (laws : RangeLaws tree) (to_integer : BlkId → ℕ) (layout : HasLayout to_integer) where
  -- On indexes that agree, where the new blocks of a range inside one 32-bit prefix and below the last
  -- lba of 64 bits follow each other, no btree refuses and there is more fuel than lbas, `write_to_index` of the two tables gives the same answer, indexes that agree,
  -- and the same old blocks to free.
  pub write_to_index-Same :
      (fuel start end : ℕ) (b : Blocks) (tf : F) (t : T) (run : IsRun start end b)
      → Same fixed tree tf t
      → end + 1 < 2 ^ 64
      → end + 1 - start < fuel
      → ((j : ℕ) → (b j).old_blkid ≡ none)
      → Succeed fixed fixed_laws start (end + 1 - start)
      → (tree.put_range (key_of start) (key_of end) (value_at to_integer start b) t).0 ≡ true
      → let (answer, t', b') = write_to_index tree to_integer start end b t in
        (bf : Blocks) × (tf' : F) × (Fixed.write_to_index fixed fuel start end b tf
          ≡ some (answer, tf', bf))
        × Same fixed tree tf' t'
        × ((j : ℕ) → start ≤ j → j ≤ end → (b' j).old_blkid ≡ (bf j).old_blkid)
  write_to_index-Same fuel start end b tf t run same word enough old works done =
      let prefix = λ (j : ℕ) (w : j < 2 ^ 64).
        write_to_index-plain tree laws to_integer layout start end b t run j done w in
      let (bf, tf', eq, lookups, recalls) =
        write_to_index-writes fixed fixed_laws fuel start end b tf run.rising word enough old
          works in
      (
        bf,
        tf',
        eq
            ∙ ap (λ r. some (r, tf', bf))
                (sym (prefix start (omega (arith, run.word, run.rising))).0),
        λ j w.
            (prefix j w).1
            ∙ ap (λ o. if leb start j && leb j end then some (new_value (b j)) else o) (same j w)
            ∙ sym (lookups j),
        λ j p q.
            let w : j < 2 ^ 64 = omega (arith, run.word) in
            ap (λ (i : BlockInfo). i.old_blkid) ((prefix j w).2 ∙ within start end j p q _ _)
            ∙ noted-Recalls (tree.lookup t (key_of j)) (b j) (bf j) (old j)
                (subst (λ o. Recalls (bf j) o) (sym (same j w)) (recalls j p q)),
      )
