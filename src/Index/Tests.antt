-- ===== src/Index/Tests.antt =====
-- The index on a btree that is a function, and whose put fails at one key.
use home_blocks.Prelude.{
  ℕ, zero, suc, ap, [], ◌∷◌, ◌%◌, Bool, ◌+◌, ◌-◌, ◌*◌, ◌^◌, ◌≤◌, ◌≡◌, ◌≢◌, refl, true, false,
  Option, none, some, arith, leb, ◌==◌, ◌&&◌, if◌then◌else◌, Bool-cases, inl, inr,
}
use home_blocks.Prelude.Errors.{ok, err, index_error}
use home_blocks.Index.Key.{IndexKey, distance, shift_key}
use home_blocks.Index.Value.{IndexValue, BlkId, HasLayout}
use home_blocks.Index.FixedTable.{FixedValue, Blocks, new_value, Btree, BtreeLaws, write_to_index}
use home_blocks.Index.Atomicity.{Recalls, Succeed}
use home_blocks.Index.PrefixTable.{
  RangeBtree, IsRange, RangeLaws, existing, write_to_index as prefix_write,
}
use home_blocks.Index.Agreement.{IsRun}
use home_blocks.Index.Tables.{Same, write_to_index-Same}
use home_blocks.Index.Ranges.{write_to_index-writes, write_to_index-atomic, write_to_index_diverges}

abbrev Table : Type 0
Table = ℕ → Option FixedValue

abbrev store : ℕ → Option FixedValue → Table → Table
store k v t j = if j == k then v else t j

abbrev table : ℕ → Btree Table
table bad = record {
  lookup = λ t j. t j;
  put = λ k v t. if k == bad then (false, t) else (true, store k (some v) t);
  remove = λ k t. (true, store k none t);
}

table_laws : (bad : ℕ) → BtreeLaws (table bad)
table_laws bad = record {
  lookup-put = λ k v t j h. elim (Bool-cases (k == bad)) [
    | inl e ↦ ground (arith, h, e)
    | inr e ↦ rw e refl
  ];
  lookup-put_failed = λ k v t j h. elim (Bool-cases (k == bad)) [
    | inl e ↦ rw e refl
    | inr e ↦ ground (arith, h, e)
  ];
  lookup-remove = λ k t j h. refl;
}

abbrev blk : ℕ → BlkId
blk n = record { blk_num = n; nblks = 1; chunk_num = 4 }

abbrev new_blocks : Blocks
new_blocks j = record {
  new_blkid = blk (100 + j);
  new_checksum = 7;
  old_blkid = none;
  old_checksum = 0;
}

-- Lba 2 is mapped.
abbrev filled : Table
filled j = if j == 2 then some (record { blkid = blk 5; checksum = 9 }) else none

-- Below the key that fails, all calls succeed.
succeeds : (bad lo n : ℕ) → lo + n ≤ bad → Succeed (table bad) (table_laws bad) lo n
succeeds bad lo n h = record {
  puts = λ j a b v t. ground (arith, a, b, h);
  removes = λ j a b t. refl;
}

write_to_index-writes_example :
    (b' : Blocks) × (t' : Table) × (write_to_index (table 50) 5 1 2 new_blocks filled
      ≡ some (ok tt, t', b'))
    × ((j : ℕ) → t' j ≡ (if leb 1 j && leb j 2 then some (new_value (new_blocks j)) else filled j))
    × ((j : ℕ) → 1 ≤ j → j ≤ 2 → Recalls (b' j) (filled j))
write_to_index-writes_example =
    write_to_index-writes (table 50) (table_laws 50) 5 1 2 new_blocks filled (omega arith)
      (omega arith) (omega arith) (λ j. refl) (succeeds 50 1 2 (omega arith))

-- The put at lba 3 fails after those at 1 and 2.
write_to_index-atomic_example :
    (b' : Blocks) × (t' : Table) × (write_to_index (table 3) 5 1 4 new_blocks filled
      ≡ some (err index_error, t', b'))
    × ((j : ℕ) → t' j ≡ filled j)
write_to_index-atomic_example =
    write_to_index-atomic (table 3) (table_laws 3) 5 1 4 3 new_blocks filled (omega arith)
      (omega arith) (omega arith) (omega arith) (omega arith) (λ j. refl)
      (succeeds 3 1 2 (omega arith)) (λ v t. refl)

write_to_index_diverges_example : write_to_index (table 0) 1000 0 4 new_blocks filled ≡ none
write_to_index_diverges_example =
    write_to_index_diverges (table 0) (table_laws 0) 1000 4 new_blocks filled (λ v t. refl)

-- The layout of `blk_id` itself.
abbrev packed : BlkId → ℕ
packed b = (b.chunk_num * 2 ^ 16 + b.nblks) * 2 ^ 32 + b.blk_num * 2

packed-HasLayout : HasLayout packed
packed-HasLayout b h k l = refl

-- The prefix index on a btree that is a function.
abbrev RangeTable : Type 0
RangeTable = IndexKey → Option IndexValue

abbrev between : IndexKey → IndexKey → IndexKey → Bool
between from to k =
    k.lba_base == from.lba_base
    && (leb from.lba_offset k.lba_offset && leb k.lba_offset to.lba_offset)

abbrev lookup_in : RangeTable → IndexKey → Option IndexValue
lookup_in t k = t k

abbrev finder : RangeBtree RangeTable
finder = record {
  lookup = lookup_in;
  put_range = λ from to vs t. (true, t, []);
  query = λ from to t. (true, []);
}

abbrev range_table : RangeBtree RangeTable
range_table = record {
  lookup = lookup_in;
  put_range = λ from to vs t. (
    true,
    λ k. if between from to k then some (vs (distance k from)) else t k,
    existing finder from 0 (distance to from + 1) t,
  );
  query = λ from to t. (true, []);
}

same_existing :
    (from : IndexKey) (n count : ℕ) (t : RangeTable)
    → existing finder from n count t ≡ existing range_table from n count t
same_existing from n zero t = refl
same_existing from n (suc count) t =
    ap (λ rest. elim (t (shift_key from n)) [ none ↦ rest | some v ↦ (shift_key from n, v) ∷ rest ])
      (same_existing from (n + 1) count t)

range_put :
    (from to : IndexKey) (vs : ℕ → IndexValue) (t : RangeTable) (n : ℕ)
    → IsRange from to
    → n ≤ distance to from
    → (range_table.put_range from to vs t).1 (shift_key from n) ≡ some (vs n)
unfolding distance shift_key
range_put from to vs t n r h =
    let off : (from.lba_offset + n) % 2 ^ 32 ≡ from.lba_offset + n =
      omega (arith, r.word, r.rising) in
    let back : from.lba_offset + n - from.lba_offset ≡ n = omega arith in
    let inside : between from to (shift_key from n) ≡ true = ground (arith, off, r.word, h) in
    rw inside (rw (off, back) refl)

range_other :
    (from to : IndexKey) (vs : ℕ → IndexValue) (t : RangeTable) (k : IndexKey)
    → IsRange from to
    → ((n : ℕ) → n ≤ distance to from → k ≢ shift_key from n)
    → (range_table.put_range from to vs t).1 k ≡ t k
unfolding distance shift_key
range_other from to vs t k r h = elim (Bool-cases (between from to k)) [
  | inr e ↦ rw e refl
  | inl e ↦
      let n = k.lba_offset - from.lba_offset in
      let base : k.lba_base ≡ from.lba_base = ground (arith, e) in
      let lo : from.lba_offset ≤ k.lba_offset = ground (arith, e) in
      let hi : k.lba_offset ≤ to.lba_offset = ground (arith, e) in
      let off : k.lba_offset ≡ (from.lba_offset + n) % 2 ^ 32 = omega (arith, r.word) in
      absurd (h n (omega arith) (λ i. record { lba_base = base i; lba_offset = off i }))
]

range_laws : RangeLaws range_table
range_laws = record {
  lookup-put = λ from to vs t n r d h. range_put from to vs t n r h;
  lookup-put_other = λ from to vs t k r d h. range_other from to vs t k r h;
  filter_sees = λ from to vs t r d. same_existing from 0 (distance to from + 1) t;
}

-- The layout of a block id, as a number.
abbrev number_of : BlkId → ℕ
number_of k = (k.chunk_num * 2 ^ 16 + k.nblks) * 2 ^ 32 + k.blk_num * 2

abbrev unmapped : RangeTable
unmapped k = none

abbrev nothing_mapped : Table
nothing_mapped j = none

three-IsRun : IsRun 1 3 new_blocks
three-IsRun = record {
  rising = omega arith;
  word = omega arith;
  one_prefix = omega arith;
  follow = λ n h. let e : 100 + (1 + n) ≡ 101 + n = omega arith in ap blk e;
  nblks = omega arith;
  chunk_num = omega arith;
  blk_num = omega arith;
}

write_to_index-Same_example :
    let (answer, t', b') = prefix_write range_table number_of 1 3 new_blocks unmapped in
    (bf : Blocks) × (tf' : Table) × (write_to_index (table 50) 5 1 3 new_blocks nothing_mapped
      ≡ some (answer, tf', bf))
    × Same (table 50) range_table tf' t'
    × ((j : ℕ) → 1 ≤ j → j ≤ 3 → (b' j).old_blkid ≡ (bf j).old_blkid)
write_to_index-Same_example =
    write_to_index-Same (table 50) (table_laws 50) range_table range_laws number_of
      (λ b h k m. refl) 5 1 3 new_blocks nothing_mapped unmapped three-IsRun (λ j w. refl)
      (omega arith) (omega arith) (λ j. refl) (succeeds 50 1 3 (omega arith)) refl
