-- ===== src/Index/Agreement.antt =====
-- The prefix index (volume/index_prefix_table.hpp) against the fixed one (index_fixed_table.hpp).
use home_blocks.Prelude.{
  ℕ, zero, suc, ◌+◌, ◌-◌, ◌%◌, ◌^◌, ◌≤◌, ◌<◌, ◌≡◌, refl, ap, sym, ◌∙◌, Bool, true, ◌&&◌, List, ◌∷◌,
  Option, none, some, arith, ℕ_discrete, leb, leb→le, ltb, if◌then◌else◌, ◌⊎◌, Bool-cases,
  Option-cases, inl, inr,
}
use home_blocks.Prelude.Errors.{ok}
use home_blocks.Index.Key.{key_of, lba_of, shift_key, distance, lba_of-key_of, shift_key-lba}
use home_blocks.Index.Value.{BlkId, IndexValue, blkid_of, HasLayout, shift_value-blkid}
use home_blocks.Index.FixedTable.{FixedValue, BlockInfo, Blocks, new_value}
use home_blocks.Index.PrefixTable.{
  Entry, RangeBtree, IsRange, RangeLaws, existing, note_old, note_all, value_at, write_to_index,
}

-- A value as the fixed index keeps it.
abbrev pub plain : IndexValue → FixedValue
plain v = record { blkid = blkid_of v; checksum = v.checksum }

abbrev pub plain? : Option IndexValue → Option FixedValue
plain? none = none
plain? (some v) = some (plain v)

-- What the filter makes of the record of an lba.
abbrev pub noted : Option IndexValue → BlockInfo → BlockInfo
noted none i = i
noted (some v) i = record i { old_blkid = some (blkid_of v) }

-- The lbas from `start` to `end` lie in one prefix, and their new blocks follow each other.
pub record IsRun (start end : ℕ) (b : Blocks) : Type 0 where
  pub rising : start ≤ end
  pub word : end < 2 ^ 64
  pub one_prefix : start % 2 ^ 32 + (end - start) < 2 ^ 32
  pub follow :
      (n : ℕ)
      → n ≤ end - start
      → (b (start + n)).new_blkid
        ≡ record (b start).new_blkid { blk_num = (b start).new_blkid.blk_num + n }
  pub nblks : (b start).new_blkid.nblks < 2 ^ 16
  pub chunk_num : (b start).new_blkid.chunk_num < 2 ^ 16
  pub blk_num : (b start).new_blkid.blk_num + (end - start) < 2 ^ 31

lba_of-shift_key :
    (start n : ℕ)
    → start + n < 2 ^ 64
    → start % 2 ^ 32 + n < 2 ^ 32
    → lba_of (shift_key (key_of start) n) ≡ start + n
lba_of-shift_key start n h k =
    ap lba_of (shift_key-lba start n (omega arith) k).0 ∙ lba_of-key_of (start + n) h

module _ {T : Type 0} (tree : RangeBtree T) where
  note_all-existing :
      (start n count : ℕ) (b : Blocks) (t : T) (j : ℕ)
      → start + n + count ≤ 2 ^ 64
      → start % 2 ^ 32 + n + count ≤ 2 ^ 32
      → note_all (existing tree (key_of start) n count t) b j ≡ (
          if leb (start + n) j && ltb j (start + n + count)
          then noted (tree.lookup t (shift_key (key_of start) (j - start))) (b j)
          else b j)
  unfolding note_all note_old
  note_all-existing start n zero b t j h k = ground arith
  note_all-existing start n (suc count) b t j h k =
      let key = shift_key (key_of start) n in
      let ih =
        λ (b' : Blocks). note_all-existing start (n + 1) count b' t j (omega arith) (omega arith) in
      let same : j ≡ start + n → j - start ≡ n = λ q. omega arith in
      elim (Option-cases (tree.lookup t key)) [
        | inl e ↦
            let skip : existing tree (key_of start) n (suc count) t
                ≡ existing tree (key_of start) (n + 1) count t =
              rw (e, existing) refl in
            rw skip (elim (ℕ_discrete j (start + n)) [
              | yes q ↦ rw (same q) (ground (arith, e, ih b))
              | no q ↦ ground (arith, ih b)
            ])
        | inr (v, e) ↦
            let at = lba_of-shift_key start n (omega arith) (omega arith) in
            let take : existing tree (key_of start) n (suc count) t
                ≡ (key, v) ∷ existing tree (key_of start) (n + 1) count t =
              rw (e, existing) refl in
            rw take (elim (ℕ_discrete j (start + n)) [
              | yes q ↦ rw (same q) (ground (arith, at, e, ih (note_old (key, v) b)))
              | no q ↦ ground (arith, at, ih (note_old (key, v) b))
            ])
      ]

module _ {T : Type 0} (tree : RangeBtree T) (laws : RangeLaws tree) (to_integer : BlkId → ℕ)
    (layout : HasLayout to_integer) (start end : ℕ) (b : Blocks) (t : T)
    (run : IsRun start end b) where
  -- The put of `write_to_index`.
  abbrev pub the_put : Bool × T × List Entry
  the_put = tree.put_range (key_of start) (key_of end) (value_at to_integer start b) t

  key-IsRange : IsRange (key_of start) (key_of end)
  unfolding key_of
  key-IsRange = record {
    one_prefix = omega (arith, run.rising, run.one_prefix);
    rising = omega (arith, run.rising, run.one_prefix);
    word = omega arith;
  }

  span : distance (key_of end) (key_of start) ≡ end - start
  unfolding distance key_of
  span = omega (arith, run.rising, run.one_prefix)

  shifted : (n : ℕ) → n ≤ end - start → shift_key (key_of start) n ≡ key_of (start + n)
  shifted n h =
      (shift_key-lba start n (omega (arith, run.word, run.rising))
        (omega (arith, run.one_prefix))).0

  value_at-plain :
      (n : ℕ) → n ≤ end - start → plain (value_at to_integer start b n) ≡ new_value (b (start + n))
  unfolding value_at
  value_at-plain n h =
      let (blk, csum) =
        shift_value-blkid to_integer (λ lba. (b lba).new_checksum) start n (b start).new_blkid
          (b start).new_checksum layout (omega (arith, run.blk_num)) run.nblks run.chunk_num in
      λ i. record { blkid = (blk ∙ sym (run.follow n h)) i; checksum = csum i }

  at-in :
      (j : ℕ)
      → the_put.0 ≡ true
      → start ≤ j
      → j ≤ end
      → plain? (tree.lookup the_put.1 (key_of j)) ≡ some (new_value (b j))
  at-in j done p q =
      let n = j - start in
      let h : n ≤ end - start = omega arith in
      let back : start + n ≡ j = omega arith in
      let put =
        laws.lookup-put (key_of start) (key_of end) (value_at to_integer start b) t n key-IsRange
          done (omega (arith, span)) in
      let key : shift_key (key_of start) n ≡ key_of j = shifted n h ∙ ap key_of back in
      ap plain? (ap (tree.lookup the_put.1) (sym key) ∙ put)
      ∙ ap some (value_at-plain n h ∙ ap (λ k. new_value (b k)) back)

  at-out :
      (j : ℕ)
      → the_put.0 ≡ true
      → j < 2 ^ 64
      → (j < start) ⊎ (end < j)
      → tree.lookup the_put.1 (key_of j) ≡ tree.lookup t (key_of j)
  at-out j done w h =
      laws.lookup-put_other (key_of start) (key_of end) (value_at to_integer start b) t (key_of j)
        key-IsRange done
        (λ n p e.
          let q : n ≤ end - start = omega (arith, span) in
          let same : j ≡ start + n =
            sym (lba_of-key_of j w)
            ∙ ap lba_of (e ∙ shifted n q)
            ∙ lba_of-key_of (start + n) (omega (arith, run.word, run.rising)) in
          elim h [ inl lo ↦ absurd (omega arith) | inr hi ↦ absurd (omega (arith, run.rising)) ])

  lookup-plain :
      (j : ℕ)
      → the_put.0 ≡ true
      → j < 2 ^ 64
      → plain? (tree.lookup the_put.1 (key_of j)) ≡ (
          if leb start j && leb j end
          then some (new_value (b j))
          else plain? (tree.lookup t (key_of j)))
  lookup-plain j done w = elim (Bool-cases (leb start j)) [
    | inr p ↦ rw p (ap plain? (at-out j done w (inl (ground (arith, p)))))
    | inl p ↦ elim (Bool-cases (leb j end)) [
      | inr q ↦ rw (p, q) (ap plain? (at-out j done w (inr (ground (arith, q)))))
      | inl q ↦ rw (p, q) (at-in j done (leb→le start j p) (leb→le j end q))
    ]
  ]

  seen-noted :
      (j : ℕ)
      → the_put.0 ≡ true
      → note_all the_put.2 b j
        ≡ (if leb start j && leb j end then noted (tree.lookup t (key_of j)) (b j) else b j)
  seen-noted j done =
      let sees =
        laws.filter_sees (key_of start) (key_of end) (value_at to_integer start b) t key-IsRange
          done in
      let at =
        note_all-existing tree start 0 (distance (key_of end) (key_of start) + 1) b t j
          (omega (arith, span, run.word, run.rising)) (omega (arith, span, run.one_prefix)) in
      rw sees (elim (Bool-cases (leb start j)) [
        | inr p ↦ ground (arith, p, at)
        | inl p ↦ elim (Bool-cases (leb j end)) [
          | inr q ↦ ground (arith, p, q, at, span, run.rising)
          | inl q ↦
              let back : start + (j - start) ≡ j = omega (arith, leb→le start j p) in
              let key : shift_key (key_of start) (j - start) ≡ key_of j =
                shifted (j - start) (omega (arith, leb→le j end q)) ∙ ap key_of back in
              rw (sym key) (ground (arith, p, q, at, span, run.rising))
        ]
      ])

  -- If the put succeeds, and the new blocks of a range inside one 32-bit prefix follow each other, then
  -- the prefix index has for each lba of the range its own new block and checksum, and for every other
  -- lba what it had; the record of each lba of the range names the block that was there before, and the
  -- other records stay.
  pub write_to_index-plain :
      (j : ℕ)
      → the_put.0 ≡ true
      → j < 2 ^ 64
      → let (answer, t', b') = write_to_index tree to_integer start end b t in
        let within = leb start j && leb j end in
        (answer ≡ ok tt)
        × (plain? (tree.lookup t' (key_of j))
            ≡ (if within then some (new_value (b j)) else plain? (tree.lookup t (key_of j))))
        × (b' j ≡ (if within then noted (tree.lookup t (key_of j)) (b j) else b j))
  unfolding write_to_index
  write_to_index-plain j done w = (ground (arith, done), lookup-plain j done w, seen-noted j done)
