-- ===== src/Volume/Release.antt =====
-- The blocks that a committed write gives up (volume_mgr.cpp, `on_write`).
use home_blocks.Prelude.{
  ◌⊎◌, true, Bool, ℕ, zero, suc, ◌%◌, ◌^◌, ◌<◌, ◌≡◌, refl, subst, sym, false, List, [], ◌∷◌, some,
  arith, length, All, Bool-cases, inl, inr,
}
use home_blocks.Index.Value.{BlkId}
use home_blocks.Index.FixedTable.{Blocks, Btree}
use home_blocks.Volume.Read.{IoReq}
use home_blocks.Volume.Write.{MultiBlk, old_blkids_of, journal_key, BlkStore, free_old, on_write}

-- What the start of a release does: it is under way, those before it stay so, and no block becomes
-- allocated. Nothing is said of its end.
pub record ReleaseLaws {D : Type 0} (store : BlkStore D) : Type 0 where
  pub is_releasing : D → BlkId → Bool
  pub starts : (b : BlkId) (d : D) → is_releasing (store.async_free_blks b d) b ≡ true
  pub keeps_releasing :
      (a b : BlkId) (d : D)
      → is_releasing d a ≡ true
      → is_releasing (store.async_free_blks b d) a ≡ true
  pub keeps_free :
      (a b : BlkId) (d : D)
      → store.is_blk_alloced d a ≡ false
      → store.is_blk_alloced (store.async_free_blks b d) a ≡ false

module _ {D : Type 0} (store : BlkStore D) (laws : ReleaseLaws store) where
  -- A block is free, or its release is under way.
  abbrev pub IsGivenUp : D → BlkId → Type 0
  IsGivenUp d o = (store.is_blk_alloced d o ≡ false) ⊎ (laws.is_releasing d o ≡ true)

  IsGivenUp-start : (a b : BlkId) (d : D) → IsGivenUp d a → IsGivenUp (store.async_free_blks b d) a
  IsGivenUp-start a b d (inl h) = inl (laws.keeps_free a b d h)
  IsGivenUp-start a b d (inr h) = inr (laws.keeps_releasing a b d h)

  free_old-keeps :
      (n : ℕ) (os : List BlkId) (d : D) (a : BlkId)
      → IsGivenUp d a
      → IsGivenUp (free_old store.is_blk_alloced store.async_free_blks n os d) a
  unfolding free_old
  free_old-keeps zero os d a h = h
  free_old-keeps (suc n) [] d a h = h
  free_old-keeps (suc n) (o ∷ os) d a h = elim (Bool-cases (store.is_blk_alloced d o)) [
    | inl e ↦ rw e (free_old-keeps n os (store.async_free_blks o d) a (IsGivenUp-start a o d h))
    | inr e ↦ rw e (free_old-keeps n os d a h)
  ]

  free_old-releases :
      (n : ℕ) (os : List BlkId) (d : D)
      → n ≡ length os
      → All (IsGivenUp (free_old store.is_blk_alloced store.async_free_blks n os d)) os
  unfolding free_old
  free_old-releases n [] d h = tt
  free_old-releases zero (o ∷ os) d h = absurd (omega arith)
  free_old-releases (suc n) (o ∷ os) d h =
      let free = free_old store.is_blk_alloced store.async_free_blks in
      let gone = λ (x : D). All (IsGivenUp x) (o ∷ os) in
      elim (Bool-cases (store.is_blk_alloced d o)) [
        | inl e ↦
            let started = store.async_free_blks o d in
            let step : free (suc n) (o ∷ os) d ≡ free n os started = rw e refl in
            subst gone (sym step) (
              free_old-keeps n os started o (inr (laws.starts o d)),
              free_old-releases n os started (omega arith),
            )
        | inr e ↦
            let step : free (suc n) (o ∷ os) d ≡ free n os d = rw e refl in
            subst gone (sym step)
              (free_old-keeps n os d o (inl e), free_old-releases n os d (omega arith))
      ]

  -- When the commit of a write's journal entry has been handled, each of the blocks that the write has
  -- replaced is free or its release is under way, where fewer than 2^16 were replaced.
  pub on_write-releases :
      {T : Type 0} (tree : Btree T) (fuel : ℕ) (req : IoReq) (b : Blocks) (ms : List MultiBlk)
      (t t' : T) (d d' : D)
      → length (old_blkids_of req.nlbas req.lba b) < 2 ^ 16
      → on_write tree store fuel false (journal_key req b) ms t d ≡ some (t', d')
      → All (IsGivenUp d') (old_blkids_of req.nlbas req.lba b)
  unfolding on_write journal_key
  on_write-releases tree fuel req b ms t t' d d' few h =
      let olds = old_blkids_of req.nlbas req.lba b in
      let n = length olds % 2 ^ 16 in
      let done : free_old store.is_blk_alloced store.async_free_blks n olds d ≡ d' =
        ground (arith, h) in
      subst (λ (x : D). All (IsGivenUp x) olds) done (free_old-releases n olds d (omega arith))
