-- ===== src/Index/Atomicity.antt =====
-- A range write on the fixed index is all or nothing, and notes what it replaces; but a first put
-- that fails at lba 0 starts a rollback that never ends.
use home_blocks.Prelude.{
  ℕ, zero, suc, ◌+◌, ◌-◌, ◌%◌, ◌≤◌, ◌<◌, ◌≡◌, ◌≢◌, refl, ap, ap₂, ◌∙◌, Bool, true, ◌&&◌, Option,
  none, some, arith, ltb, leb, ◌==◌, if◌then◌else◌, inl, inr, Option-cases, Bool-cases, ==_iff, ◌⊎◌,
  subst,
}
use home_blocks.Index.FixedTable.{
  FixedValue, BlockInfo, Blocks, Btree, BtreeLaws, u64_mod, note_existing, new_value, undo,
  rollback_write, write_loop,
}

-- What a block's record says of the value that it replaces.
abbrev pub Recalls : BlockInfo → Option FixedValue → Type 0
Recalls i none = i.old_blkid ≡ none
Recalls i (some v) = (i.old_blkid ≡ some v.blkid) × (i.old_checksum ≡ v.checksum)

abbrev pub in_range : ℕ → ℕ → ℕ → Bool
in_range lo n j = leb lo j && ltb j (lo + n)

module _ {T : Type 0} (tree : Btree T) (laws : BtreeLaws tree) where
  note_existing-Recalls :
      (t : T) (lba : ℕ) (b : Blocks)
      → (b lba).old_blkid ≡ none
      → Recalls (note_existing tree t lba b lba) (tree.lookup t lba)
  unfolding note_existing
  note_existing-Recalls t lba b h = elim (Option-cases (tree.lookup t lba)) [
    | inl e ↦ rw (e, note_existing) (ground arith)
    | inr (v, e) ↦ rw (e, note_existing) (ground arith)
  ]

  pub note_existing-other :
      (t : T) (lba j : ℕ) (b : Blocks) → j ≢ lba → note_existing tree t lba b j ≡ b j
  unfolding note_existing
  note_existing-other t lba j b h = ground arith

  note_existing-new :
      (t : T) (lba j : ℕ) (b : Blocks) → new_value (note_existing tree t lba b j) ≡ new_value (b j)
  unfolding note_existing
  note_existing-new t lba j b = ground arith

  -- Undoing a put brings back what the record recalls.
  lookup-undo :
      (i : BlockInfo) (lba : ℕ) (t : T) (j : ℕ) (old : Option FixedValue)
      → Recalls i old
      → ((v : FixedValue) (s : T) → (tree.put lba v s).0 ≡ true)
      → ((s : T) → (tree.remove lba s).0 ≡ true)
      → tree.lookup (undo tree i lba t) j ≡ (if j == lba then old else tree.lookup t j)
  unfolding undo
  lookup-undo i lba t j none r puts removes = rw r (laws.lookup-remove lba t j (removes t))
  lookup-undo i lba t j (some v) r puts removes =
      rw (r.0, r.1) (laws.lookup-put lba v t j (puts v t))

  -- The puts at the `n` lbas from `lo` on succeed, whatever the tree; so do the removals.
  pub record Succeed (lo n : ℕ) : Type 0 where
    pub puts : (j : ℕ) → lo ≤ j → j < lo + n → (v : FixedValue) (s : T) → (tree.put j v s).0 ≡ true
    pub removes : (j : ℕ) → lo ≤ j → j < lo + n → (s : T) → (tree.remove j s).0 ≡ true

  Succeed-tail : (lo n : ℕ) → Succeed lo (suc n) → Succeed (lo + 1) n
  Succeed-tail lo n s = record {
    puts = λ j h k. s.puts j (omega arith) (omega arith);
    removes = λ j h k. s.removes j (omega arith) (omega arith);
  }

  pub rollback_restores :
      (n fuel lba end_lba : ℕ) (b : Blocks) (t : T) (old : ℕ → Option FixedValue)
      → n < fuel
      → lba + n ≡ end_lba + 1
      → lba + n < u64_mod
      → Succeed lba n
      → ((j : ℕ) → lba ≤ j → j < lba + n → Recalls (b j) (old j))
      → (t' : T) × (rollback_write tree fuel lba end_lba b t ≡ some t')
        × ((j : ℕ) → tree.lookup t' j ≡ (if in_range lba n j then old j else tree.lookup t j))
  unfolding rollback_write
  rollback_restores n zero lba end_lba b t old f e h s r = elim f [ ]
  rollback_restores zero (suc fuel) lba end_lba b t old f e h s r =
      (t, ground arith, λ j. ground arith)
  rollback_restores (suc n) (suc fuel) lba end_lba b t old f e h s r =
      let next : (lba + 1) % u64_mod ≡ lba + 1 = omega arith in
      let (t', eq, at) =
        rollback_restores n fuel (lba + 1) end_lba b (undo tree (b lba) lba t) old (omega arith)
          (omega arith) (omega arith) (Succeed-tail lba n s)
          (λ j p q. r j (omega arith) (omega arith)) in
      (
        t',
        ground arith,
        λ j. ground (
          arith,
          at j,
          lookup-undo (b lba) lba t j (old lba) (r lba (omega arith) (omega arith))
              (s.puts lba (omega arith) (omega arith)) (s.removes lba (omega arith) (omega arith)),
        ),
      )

  -- The state of the tree and of the records after the puts of the `m` lbas from `lba` on.
  pub record Written (lba m : ℕ) (b b' : Blocks) (t t' : T) : Type 0 where
    pub at :
        (j : ℕ)
        → tree.lookup t' j ≡ (if in_range lba m j then some (new_value (b j)) else tree.lookup t j)
    pub recalls : (j : ℕ) → lba ≤ j → j < lba + m → Recalls (b' j) (tree.lookup t j)

  -- One round: what is known after the rest of the loop is known of the whole.
  Written-cons :
      (lba m : ℕ) (b b' : Blocks) (t t' : T)
      → (b lba).old_blkid ≡ none
      → let b₁ = note_existing tree t lba b in
        let p₁ = tree.put lba (new_value (b₁ lba)) t in
        p₁.0 ≡ true
        → Written (lba + 1) m b₁ b' p₁.1 t'
        → b' lba ≡ b₁ lba
        → Written lba (suc m) b b' t t'
  Written-cons lba m b b' t t' old ok₁ w kept =
      let b₁ = note_existing tree t lba b in
      let put_at = λ (j : ℕ). laws.lookup-put lba (new_value (b₁ lba)) t j ok₁ in
      record {
        at = λ j.
            ground
              (arith, w.at j, put_at j, note_existing-new t lba j b, note_existing-new t lba lba b);
        recalls = λ j p q. elim (Bool-cases (j == lba)) [
          | inl e ↦ rw ((==_iff j lba).0 e, kept) (note_existing-Recalls t lba b old)
          | inr e ↦
              let same : tree.lookup (tree.put lba (new_value (b₁ lba)) t).1 j ≡ tree.lookup t j =
                ground (arith, put_at j) in
              subst (Recalls (b' j)) same (w.recalls j (ground arith) (omega arith))
        ];
      }

  -- A round whose put succeeds.
  write_loop_more :
      (k fuel start end_lba lba : ℕ) (b : Blocks) (t : T)
      → lba ≤ end_lba
      → lba + 1 < u64_mod
      → let b₁ = note_existing tree t lba b in
        let p₁ = tree.put lba (new_value (b₁ lba)) t in
        p₁.0 ≡ true
        → write_loop tree (suc k) fuel start end_lba lba b t
          ≡ write_loop tree k fuel start end_lba (lba + 1) b₁ p₁.1
  unfolding write_loop
  write_loop_more k fuel start end_lba lba b t inside word done =
      let more : leb lba end_lba ≡ true = ground (arith, inside) in
      let next : (lba + 1) % u64_mod ≡ lba + 1 = omega (arith, word) in
      rw (more, done, write_loop)
        (ap
          (λ (l : ℕ).
            write_loop tree k fuel start end_lba l (note_existing tree t lba b)
              (tree.put lba (new_value (note_existing tree t lba b lba)) t).1)
          next)

  pub write_prefix :
      (m k fuel start end_lba lba : ℕ) (b : Blocks) (t : T)
      → m ≤ k
      → lba + m ≤ end_lba + 1
      → lba + m < u64_mod
      → ((j : ℕ) → lba ≤ j → (b j).old_blkid ≡ none)
      → Succeed lba m
      → (b' : Blocks) × (t' : T) × (write_loop tree k fuel start end_lba lba b t
          ≡ write_loop tree (k - m) fuel start end_lba (lba + m) b' t')
        × Written lba m b b' t t'
        × ((j : ℕ) → (j < lba) ⊎ (lba + m ≤ j) → b' j ≡ b j)
        × ((j : ℕ) → new_value (b' j) ≡ new_value (b j))
  unfolding write_loop
  write_prefix zero k fuel start end_lba lba b t h fits word old s = (
    b,
    t,
    ap₂ (λ (n l : ℕ). write_loop tree n fuel start end_lba l b t) (omega arith) (omega arith),
    record { at = λ j. ground arith; recalls = λ j p q. absurd (omega arith) },
    λ j p. refl,
    λ j. refl,
  )
  write_prefix (suc m) zero fuel start end_lba lba b t h fits word old s = elim h [ ]
  write_prefix (suc m) (suc k) fuel start end_lba lba b t h fits word old s =
      let b₁ = note_existing tree t lba b in
      let p₁ = tree.put lba (new_value (b₁ lba)) t in
      let ok₁ = s.puts lba (omega arith) (omega arith) (new_value (b₁ lba)) t in
      let (b', t', eq, w, kept, new) =
        write_prefix m k fuel start end_lba (lba + 1) b₁ p₁.1 (omega arith) (omega arith)
          (omega arith)
          (λ j p. rw (note_existing-other t lba j b (omega arith)) (old j (omega arith)))
          (Succeed-tail lba m s) in
      (
        b',
        t',
        write_loop_more k fuel start end_lba lba b t (omega arith) (omega arith) ok₁
            ∙ (eq
                ∙ ap₂ (λ (n l : ℕ). write_loop tree n fuel start end_lba l b' t') (omega arith)
                    (omega arith)),
        Written-cons lba m b b' t t' (old lba (omega arith)) ok₁ w (kept lba (inl (omega arith))),
        λ j p. kept j (omega (arith, p)) ∙ note_existing-other t lba j b (omega (arith, p)),
        λ j. new j ∙ note_existing-new t lba j b,
      )
