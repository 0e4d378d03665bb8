-- ===== src/Index/Ranges.antt =====
-- The range write of the fixed index, whole.
use home_blocks.Prelude.{
  ℕ, zero, suc, ◌+◌, ◌-◌, ◌%◌, ◌≤◌, ◌<◌, ◌≡◌, refl, ap, ◌∙◌, true, false, ◌&&◌, Option, none, some,
  arith, leb, if◌then◌else◌,
}
use home_blocks.Prelude.Errors.{ok, err, index_error}
use home_blocks.Index.FixedTable.{
  FixedValue, Blocks, Btree, BtreeLaws, u64_mod, new_value, note_existing, give_up, undo,
  rollback_write, write_loop, write_to_index,
}
use home_blocks.Index.Atomicity.{
  Recalls, Succeed, write_prefix, rollback_restores, in_range, note_existing-other,
}

module _ {T : Type 0} (tree : Btree T) (laws : BtreeLaws tree) where
  write_loop_end :
      (rounds fuel start_lba end_lba lba : ℕ) (b : Blocks) (t : T)
      → 0 < rounds
      → end_lba < lba
      → write_loop tree rounds fuel start_lba end_lba lba b t ≡ some (ok tt, t, b)
  unfolding write_loop
  write_loop_end zero fuel start_lba end_lba lba b t h past = elim h [ ]
  write_loop_end (suc rounds) fuel start_lba end_lba lba b t h past =
      let over : leb lba end_lba ≡ false = ground (arith, past) in rw (over, write_loop)

  write_loop_fails :
      (rounds fuel start_lba end_lba lba : ℕ) (b : Blocks) (t : T)
      → 0 < rounds
      → lba ≤ end_lba
      → ((v : FixedValue) (s : T) → (tree.put lba v s).0 ≡ false)
      → let b' = note_existing tree t lba b in
        write_loop tree rounds fuel start_lba end_lba lba b t
        ≡ give_up tree fuel start_lba lba b' (tree.put lba (new_value (b' lba)) t).1
  unfolding write_loop
  write_loop_fails zero fuel start_lba end_lba lba b t h inside fails = elim h [ ]
  write_loop_fails (suc rounds) fuel start_lba end_lba lba b t h inside fails =
      let more : leb lba end_lba ≡ true = ground (arith, inside) in
      rw (more, fails (new_value (note_existing tree t lba b lba)) t, write_loop)

  give_up-done :
      (fuel start_lba failing last : ℕ) (b : Blocks) (t t' : T)
      → (failing + u64_mod - 1) % u64_mod ≡ last
      → rollback_write tree fuel start_lba last b t ≡ some t'
      → give_up tree fuel start_lba failing b t ≡ some (err index_error, t', b)
  unfolding give_up
  give_up-done fuel start_lba failing last b t t' e r = rw (e, give_up) (rw r)

  give_up-restores :
      (fuel start_lba failing : ℕ) (b : Blocks) (t : T) (old : ℕ → Option FixedValue)
      → start_lba ≤ failing
      → 0 < failing
      → failing < u64_mod
      → failing < fuel
      → Succeed tree laws start_lba (failing - start_lba)
      → ((j : ℕ) → start_lba ≤ j → j < failing → Recalls (b j) (old j))
      → (t' : T) × (give_up tree fuel start_lba failing b t ≡ some (err index_error, t', b))
        × ((j : ℕ)
            → tree.lookup t' j
              ≡ (if in_range start_lba (failing - start_lba) j then old j else tree.lookup t j))
  give_up-restores fuel start_lba failing b t old h₁ h₃ h₄ h₅ s r =
      let last : (failing + u64_mod - 1) % u64_mod ≡ failing - 1 = omega arith in
      let (t', eq, at) =
        rollback_restores tree laws (failing - start_lba) fuel start_lba (failing - 1) b t old
          (omega arith) (omega arith) (omega arith) s (λ j p q. r j p (omega arith)) in
      (t', give_up-done fuel start_lba failing (failing - 1) b t t' last eq, at)

  rollback_never :
      (fuel lba : ℕ) (b : Blocks) (t : T)
      → lba < u64_mod
      → rollback_write tree fuel lba (u64_mod - 1) b t ≡ none
  unfolding rollback_write
  rollback_never zero lba b t h = refl
  rollback_never (suc fuel) lba b t h =
      let more : leb lba (u64_mod - 1) ≡ true = ground arith in
      rw (more, rollback_write)
        (rollback_never fuel ((lba + 1) % u64_mod) b (undo tree (b lba) lba t) (omega arith))

  -- If every put succeeds and the range ends below the last lba of 64 bits, with more fuel than lbas,
  -- the loop ends and reports success, every lba of the range gets its new block and checksum, every
  -- other lba keeps its own, and the record of each lba names the value that was there before, or none.
  pub write_to_index-writes :
      (fuel start_lba end_lba : ℕ) (b : Blocks) (t : T)
      → start_lba ≤ end_lba
      → end_lba + 1 < u64_mod
      → end_lba + 1 - start_lba < fuel
      → ((j : ℕ) → (b j).old_blkid ≡ none)
      → Succeed tree laws start_lba (end_lba + 1 - start_lba)
      → (b' : Blocks) × (t' : T) × (write_to_index tree fuel start_lba end_lba b t
          ≡ some (ok tt, t', b'))
        × ((j : ℕ)
            → tree.lookup t' j ≡ (
                if leb start_lba j && leb j end_lba
                then some (new_value (b j))
                else tree.lookup t j))
        × ((j : ℕ) → start_lba ≤ j → j ≤ end_lba → Recalls (b' j) (tree.lookup t j))
  unfolding write_to_index
  write_to_index-writes fuel start_lba end_lba b t h word enough old s =
      let n = end_lba + 1 - start_lba in
      let (b', t', eq, w, kept, new) =
        write_prefix tree laws n fuel fuel start_lba end_lba start_lba b t (omega arith)
          (omega arith) (omega arith) (λ j p. old j) s in
      (
        b',
        t',
        eq
            ∙ write_loop_end (fuel - n) fuel start_lba end_lba (start_lba + n) b' t' (omega arith)
                (omega arith),
        λ j. ground (arith, w.at j),
        λ j p q. w.recalls j p (omega arith),
      )

  -- If a put fails after the first lba of the address space, and the calls at the lbas before it in
  -- the range succeed, for the write and for the rollback, then the write reports `index_error`, and
  -- every lba of the index has the value that it had.
  pub write_to_index-atomic :
      (fuel start_lba end_lba failing : ℕ) (b : Blocks) (t : T)
      → start_lba ≤ failing
      → failing ≤ end_lba
      → 0 < failing
      → failing < u64_mod
      → failing < fuel
      → ((j : ℕ) → (b j).old_blkid ≡ none)
      → Succeed tree laws start_lba (failing - start_lba)
      → ((v : FixedValue) (s : T) → (tree.put failing v s).0 ≡ false)
      → (b' : Blocks) × (t' : T) × (write_to_index tree fuel start_lba end_lba b t
          ≡ some (err index_error, t', b'))
        × ((j : ℕ) → tree.lookup t' j ≡ tree.lookup t j)
  unfolding write_to_index
  write_to_index-atomic fuel start_lba end_lba failing b t h₁ h₂ h₃ h₄ h₅ old s fails =
      let m = failing - start_lba in
      let here : start_lba + m ≡ failing = omega arith in
      let (b₁, t₁, eq, w, kept, new) =
        write_prefix tree laws m fuel fuel start_lba end_lba start_lba b t (omega arith)
          (omega arith) (omega arith) (λ j p. old j) s in
      let b₂ = note_existing tree t₁ failing b₁ in
      let v = new_value (b₂ failing) in
      let t₂ = (tree.put failing v t₁).1 in
      let (t', back, at) =
        give_up-restores fuel start_lba failing b₂ t₂ (tree.lookup t) h₁ h₃ h₄ h₅ s (λ j p q.
          rw (note_existing-other tree laws t₁ failing j b₁ (omega arith))
            (w.recalls j p (omega arith))) in
      (
        b₂,
        t',
        eq
            ∙ ap (λ (l : ℕ). write_loop tree (fuel - m) fuel start_lba end_lba l b₁ t₁) here
            ∙ write_loop_fails (fuel - m) fuel start_lba end_lba failing b₁ t₁ (omega arith)
                (omega arith) fails
            ∙ back,
        λ j. ground (arith, at j, w.at j, laws.lookup-put_failed failing v t₁ j (fails v t₁)),
      )

  -- If the very first put at lba 0 fails, the rollback runs up to the lba before it, which is the
  -- last one of all 64 bits: no amount of fuel ends it.
  pub write_to_index_diverges :
      (fuel end_lba : ℕ) (b : Blocks) (t : T)
      → ((v : FixedValue) (s : T) → (tree.put 0 v s).0 ≡ false)
      → write_to_index tree fuel 0 end_lba b t ≡ none
  unfolding write_to_index give_up write_loop
  write_to_index_diverges zero end_lba b t fails = refl
  write_to_index_diverges (suc n) end_lba b t fails =
      write_loop_fails (suc n) (suc n) 0 end_lba 0 b t (omega arith) (omega arith) fails ∙ stuck
    where
      stuck :
          give_up tree
            (suc n)
            0
            0
            (note_existing tree t 0 b)
            (tree.put 0 (new_value (note_existing tree t 0 b 0)) t).1
          ≡ none
      stuck = rw (
        rollback_never (suc n) 0 (note_existing tree t 0 b)
            (tree.put 0 (new_value (note_existing tree t 0 b 0)) t).1 (omega arith),
        give_up,
      )
