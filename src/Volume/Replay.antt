-- ===== src/Volume/Replay.antt =====
-- The replay of a write from its journal entry (volume/volume.cpp and volume_mgr.cpp).
use home_blocks.Prelude.{
  ℕ, zero, suc, ◌+◌, ◌-◌, ◌%◌, ◌<◌, ◌≡◌, ◌≢◌, leb, ltb, ltb→lt, ltb→ge, refl, ap, ap₂, sym, ◌∙◌,
  true, Bool, List, [], ◌∷◌, Option, some, arith, ==_iff, Bool-cases, Option-cases, inl, inr,
}
use home_blocks.Prelude.Errors.{ok, err, Status}
use home_blocks.Index.FixedTable.{
  BlockInfo, Blocks, set_info, new_value, Btree, note_existing, give_up, rollback_write, write_loop,
  write_to_index, u64_mod,
}
use home_blocks.Volume.Read.{IoReq}
use home_blocks.Volume.Write.{
  MultiBlk, JournalKey, new_info, add_blocks, no_blocks, csums_of, journal_key, csum_at,
  write_blkids, write, data_size, journaled, BlkStore, free_all, on_write,
}

abbrev pub total_blks : List MultiBlk → ℕ
total_blks [] = 0
total_blks (m ∷ ms) = m.blk_count + total_blks ms

csum_at-csums_of :
    (n lba k : ℕ) (b : Blocks) → k < n → csum_at (csums_of n lba b) k ≡ (b (lba + k)).new_checksum
unfolding csums_of
csum_at-csums_of zero lba k b h = elim h [ ]
csum_at-csums_of (suc n) lba zero b h = ap (λ (j : ℕ). (b j).new_checksum) (omega arith)
csum_at-csums_of (suc n) lba (suc k) b h =
    csum_at-csums_of n (lba + 1) k b (omega arith)
    ∙ ap (λ (j : ℕ). (b j).new_checksum) {x = lba + 1 + k} (omega arith)

-- Only the checksums of the blocks in question matter.
add_blocks_congr :
    (f g : ℕ → ℕ) (n blk_num chunk_num lba i : ℕ) (b : Blocks)
    → ((k : ℕ) → k < n → f (i + k) ≡ g (i + k))
    → add_blocks f n blk_num chunk_num lba i b ≡ add_blocks g n blk_num chunk_num lba i b
unfolding add_blocks
add_blocks_congr f g zero blk_num chunk_num lba i b h = refl
add_blocks_congr f g (suc n) blk_num chunk_num lba i b h =
    let first : f i ≡ g i =
      ap f {x = i} {y = i + 0} (omega arith)
      ∙ h 0 (omega arith)
      ∙ ap g {x = i + 0} {y = i} (omega arith) in
    ap
      (λ (c : ℕ).
        add_blocks f n (blk_num + 1) chunk_num (lba + 1) (i + 1)
          (set_info b lba (new_info blk_num chunk_num c)))
      first
    ∙ add_blocks_congr f g n (blk_num + 1) chunk_num (lba + 1) (i + 1)
        (set_info b lba (new_info blk_num chunk_num (g i)))
        (λ k l.
          ap f {x = i + 1 + k} {y = i + suc k} (omega arith)
          ∙ h (suc k) (omega arith)
          ∙ ap g {x = i + suc k} {y = i + 1 + k} (omega arith))

add_blocks-below :
    (f : ℕ → ℕ) (n blk_num chunk_num lba i j : ℕ) (b : Blocks)
    → j < lba
    → add_blocks f n blk_num chunk_num lba i b j ≡ b j
unfolding add_blocks
add_blocks-below f zero blk_num chunk_num lba i j b h = refl
add_blocks-below f (suc n) blk_num chunk_num lba i j b h =
    add_blocks-below f n (blk_num + 1) chunk_num (lba + 1) (i + 1) j
      (set_info b lba (new_info blk_num chunk_num (f i))) (omega arith)
    ∙ ground arith

add_blocks-csum :
    (f : ℕ → ℕ) (n blk_num chunk_num lba i k : ℕ) (b : Blocks)
    → k < n
    → (add_blocks f n blk_num chunk_num lba i b (lba + k)).new_checksum ≡ f (i + k)
unfolding add_blocks
add_blocks-csum f zero blk_num chunk_num lba i k b h = elim h [ ]
add_blocks-csum f (suc n) blk_num chunk_num lba i zero b h =
    let b' = set_info b lba (new_info blk_num chunk_num (f i)) in
    let newest : (b' lba).new_checksum ≡ f i = rw ((==_iff lba lba).1 refl) refl in
    ap (λ (x : BlockInfo). x.new_checksum)
      (add_blocks-below f n (blk_num + 1) chunk_num (lba + 1) (i + 1) (lba + 0) b' (omega arith))
    ∙ ap (λ (j : ℕ). (b' j).new_checksum) {x = lba + 0} {y = lba} (omega arith)
    ∙ newest
    ∙ ap f {x = i} {y = i + 0} (omega arith)
add_blocks-csum f (suc n) blk_num chunk_num lba i (suc k) b h =
    let b' = set_info b lba (new_info blk_num chunk_num (f i)) in
    ap (λ (j : ℕ). (add_blocks f n (blk_num + 1) chunk_num (lba + 1) (i + 1) b' j).new_checksum)
      {x = lba + suc k} {y = lba + 1 + k} (omega arith)
    ∙ add_blocks-csum f n (blk_num + 1) chunk_num (lba + 1) (i + 1) k b' (omega arith)
    ∙ ap f {x = i + 1 + k} {y = i + suc k} (omega arith)

module _ {T : Type 0} (tree : Btree T) where
  note_existing-csum :
      (t : T) (lba j : ℕ) (b : Blocks)
      → (note_existing tree t lba b j).new_checksum ≡ (b j).new_checksum
  unfolding note_existing
  note_existing-csum t lba j b = elim (Option-cases (tree.lookup t lba)) [
    | inl e ↦ ground (arith, e)
    | inr (v, e) ↦ ground (arith, e)
  ]

  give_up_fails :
      (fuel start lba : ℕ) (b b' : Blocks) (t t' : T)
      → give_up tree fuel start lba b t ≢ some (ok tt, t', b')
  unfolding give_up
  give_up_fails fuel start lba b b' t t' h =
      elim (Option-cases (rollback_write tree fuel start ((lba + u64_mod - 1) % u64_mod) b t)) [
        | inl e ↦ ground (arith, h, e)
        | inr (t₁, e) ↦ ground (arith, h, e)
      ]

  write_loop-csum :
      (rounds fuel start end_lba lba j : ℕ) (b b' : Blocks) (t t' : T)
      → write_loop tree rounds fuel start end_lba lba b t ≡ some (ok tt, t', b')
      → (b' j).new_checksum ≡ (b j).new_checksum
  unfolding write_loop
  write_loop-csum zero fuel start end_lba lba j b b' t t' h = absurd (ground (arith, h))
  write_loop-csum (suc rounds) fuel start end_lba lba j b b' t t' h =
      let b₁ = note_existing tree t lba b in
      let p = tree.put lba (new_value (b₁ lba)) t in
      elim (Bool-cases (leb lba end_lba)) [
        | inr over ↦ ground (arith, h, over)
        | inl more ↦ elim (Bool-cases p.0) [
          | inl e ↦
              write_loop-csum rounds fuel start end_lba ((lba + 1) % u64_mod) j b₁ b' p.1 t'
                (ground (arith, h, more, e))
              ∙ note_existing-csum t lba j b
          | inr e ↦ absurd (give_up_fails fuel start lba b₁ b' p.1 t' (ground (arith, h, more, e)))
        ]
      ]

  write_to_index-csum :
      (fuel lo hi j : ℕ) (b b' : Blocks) (t t' : T)
      → write_to_index tree fuel lo hi b t ≡ some (ok tt, t', b')
      → (b' j).new_checksum ≡ (b j).new_checksum
  unfolding write_to_index
  write_to_index-csum fuel lo hi j b b' t t' h = write_loop-csum fuel fuel lo hi lo j b b' t t' h

  -- The checksums of the request, block by block, are those of `blocks_info` at the end.
  write_blkids-csum :
      (fuel : ℕ) (f : ℕ → ℕ) (ms : List MultiBlk) (lba i : ℕ) (b b' : Blocks) (t t' : T)
      → write_blkids tree fuel f ms lba i b t ≡ some (ok tt, t', b')
      → ((j : ℕ) → j < lba → (b' j).new_checksum ≡ (b j).new_checksum)
        × ((k : ℕ) → k < total_blks ms → (b' (lba + k)).new_checksum ≡ f (i + k))
  unfolding write_blkids
  write_blkids-csum fuel f [] lba i b b' t t' h = (λ j l. ground (arith, h), λ k l. elim l [ ])
  write_blkids-csum fuel f (m ∷ ms) lba i b b' t t' h =
      let n = m.blk_count in
      let b₁ = add_blocks f n m.blk_num m.chunk_num lba i b in
      elim (Option-cases (write_to_index tree fuel lba (lba + n - 1) b₁ t)) [
        | inl e ↦ absurd (ground (arith, h, e))
        | inr ((err x, t₁, b₂), e) ↦ absurd (ground (arith, h, e))
        | inr ((ok _, t₁, b₂), e) ↦
            let (low, high) =
              write_blkids-csum fuel f ms (lba + n) (i + n) b₂ b' t₁ t' (ground (arith, h, e)) in
            let kept : (j : ℕ) → (b₂ j).new_checksum ≡ (b₁ j).new_checksum =
              λ j. write_to_index-csum fuel lba (lba + n - 1) j b₁ b₂ t t₁ e in
            (
              λ j l.
                  low j (omega arith)
                  ∙ kept j
                  ∙ ap (λ (x : BlockInfo). x.new_checksum)
                      (add_blocks-below f n m.blk_num m.chunk_num lba i j b l),
              λ k l. elim (Bool-cases (ltb k n)) [
                | inl s ↦
                    low (lba + k) (omega (arith, ltb→lt k n s))
                    ∙ kept (lba + k)
                    ∙ add_blocks-csum f n m.blk_num m.chunk_num lba i k b (ltb→lt k n s)
                | inr s ↦
                    ap (λ (j : ℕ). (b' j).new_checksum) {x = lba + k} {y = lba + n + (k - n)}
                      (omega (arith, ltb→ge k n s))
                    ∙ high (k - n) (omega (arith, ltb→ge k n s))
                    ∙ ap f {x = i + n + (k - n)} {y = i + k} (omega (arith, ltb→ge k n s))
              ],
            )
      ]

  write_blkids_congr :
      (fuel : ℕ) (f g : ℕ → ℕ) (ms : List MultiBlk) (lba i : ℕ) (b : Blocks) (t : T)
      → ((k : ℕ) → k < total_blks ms → f (i + k) ≡ g (i + k))
      → write_blkids tree fuel f ms lba i b t ≡ write_blkids tree fuel g ms lba i b t
  unfolding write_blkids
  write_blkids_congr fuel f g [] lba i b t h = refl
  write_blkids_congr fuel f g (m ∷ ms) lba i b t h =
      let n = m.blk_count in
      let b₁ = add_blocks g n m.blk_num m.chunk_num lba i b in
      let same = add_blocks_congr f g n m.blk_num m.chunk_num lba i b (λ k l. h k (omega arith)) in
      rw (same, write_blkids)
        (elim (Option-cases (write_to_index tree fuel lba (lba + n - 1) b₁ t)) [
          | inl e ↦ rw (e, write_blkids) refl
          | inr ((err x, t₁, b₂), e) ↦ rw (e, write_blkids) refl
          | inr ((ok _, t₁, b₂), e) ↦
              rw (e, write_blkids)
                (write_blkids_congr fuel f g ms (lba + n) (i + n) b₂ t₁ (λ k l.
                  ap f {x = i + n + k} {y = i + (n + k)} (omega arith)
                  ∙ h (n + k) (omega arith)
                  ∙ ap g {x = i + (n + k)} {y = i + n + k} (omega arith)))
        ])

  -- A write that has come to its journal entry had its blocks and its data written.
  write-wrote :
      (fuel : ℕ) (csum_of : ℕ → ℕ) (blk_size : ℕ) (req : IoReq) (ms : List MultiBlk)
      (alloc_blks : ℕ → Option (List MultiBlk)) (async_write : List MultiBlk → ℕ → Bool)
      (flush : JournalKey → Status) (t t' : T) (s : Status) (key : JournalKey)
      → alloc_blks (data_size blk_size req) ≡ some ms
      → write tree fuel csum_of blk_size req alloc_blks async_write flush t ≡ some (s, t', some key)
      → journaled flush req (write_blkids tree fuel csum_of ms req.lba 0 no_blocks t)
        ≡ some (s, t', some key)
  unfolding write
  write-wrote fuel csum_of blk_size req ms alloc_blks async_write flush t t' s key got h =
      elim (Bool-cases (async_write ms (data_size blk_size req))) [
        | inl e ↦ ground (arith, got, h, e)
        | inr e ↦ absurd (ground (arith, got, h, e))
      ]

module _ {T D : Type 0} (tree : Btree T) (store : BlkStore D) where
  -- If the write of a request has come to its journal entry, then the recovery that starts from the
  -- index as it was before the write, and reads the entry, leaves the index as the write left it, and
  -- asks for the release of the old blocks that the entry names. The blocks are as many as the request asks for.
  pub on_write-write :
      (fuel : ℕ) (csum_of : ℕ → ℕ) (blk_size : ℕ) (req : IoReq) (ms : List MultiBlk)
      (alloc_blks : ℕ → Option (List MultiBlk)) (async_write : List MultiBlk → ℕ → Bool)
      (flush : JournalKey → Status) (t t' : T) (d : D) (s : Status) (key : JournalKey)
      → total_blks ms ≡ req.nlbas
      → alloc_blks (data_size blk_size req) ≡ some ms
      → write tree fuel csum_of blk_size req alloc_blks async_write flush t ≡ some (s, t', some key)
      → on_write tree store fuel true key ms t d ≡ some (t', free_all tree store true key d)
  unfolding write on_write journal_key
  on_write-write fuel csum_of blk_size req ms alloc_blks async_write flush t t' d s key enough got
        h₀ =
      let h =
        write-wrote tree fuel csum_of blk_size req ms alloc_blks async_write flush t t' s key got
          h₀ in
      elim (Option-cases (write_blkids tree fuel csum_of ms req.lba 0 no_blocks t)) [
        | inl e ↦ absurd (ground (arith, h, e))
        | inr ((err x, t₁, b), e) ↦ absurd (ground (arith, h, e))
        | inr ((ok _, t₁, b), e) ↦
            let csums = csums_of req.nlbas req.lba b in
            let same =
              write_blkids_congr tree fuel csum_of (csum_at csums) ms req.lba 0 no_blocks t (λ k l.
                sym ((write_blkids-csum tree fuel csum_of ms req.lba 0 no_blocks b t t₁ e).1 k l)
                ∙ sym (csum_at-csums_of req.nlbas req.lba k b (omega arith))
                ∙ ap (csum_at csums) {x = k} {y = 0 + k} (omega arith)) in
            let replayed : on_write tree store fuel true (journal_key req b) ms t d
                ≡ some (t₁, free_all tree store true (journal_key req b) d) =
              rw (sym same ∙ e, on_write) refl in
            let key_eq : journal_key req b ≡ key = ground (arith, h, e) in
            let index_eq : t₁ ≡ t' = ground (arith, h, e) in
            ap (λ (k : JournalKey). on_write tree store fuel true k ms t d) (sym key_eq)
            ∙ replayed
            ∙ ap₂ (λ (u : T) (k : JournalKey). some (u, free_all tree store true k d)) index_eq
                key_eq
      ]
