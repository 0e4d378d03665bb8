-- ===== src/Chunks/RoundTrip.antt =====
-- Allocation and release (volume/volume_chunk_selector.cpp) undo each other.
use home_blocks.Prelude.{
  ℕ, zero, suc, ◌≤◌, ◌≡◌, refl, ap, sym, ◌∙◌, Bool, ◌&&◌, List, [], ◌∷◌, Option, none, some, arith,
  ltb, leb, if◌then◌else◌, min, length, set, Bool-cases, Option-cases, inl, inr,
}
use home_blocks.Chunks.State.{
  num_chunks_per_vol_init, Chunk, VolumeChunksInfo, Pool, Known, Selector, volume_at,
}
use home_blocks.Chunks.Ops.{
  from_pdev, allocate_init_chunks_from_pdev, assign, started, attach, allocate_sized,
  allocate_fresh, allocate_init_chunks, max_chunks, release_chunks,
}
use home_blocks.Chunks.Count.{count_free, count_owned, places}
use home_blocks.Chunks.Conservation.{allocate_init_chunks-places, release_chunks-places}

-- The volumes but for one slot.
abbrev SetAt : ℕ → List (Option VolumeChunksInfo) → List (Option VolumeChunksInfo) → Type 0
SetAt i vs ws = (v : Option VolumeChunksInfo) × (ws ≡ set vs i v)

set_back :
    (i : ℕ) (vs : List (Option VolumeChunksInfo)) (v : Option VolumeChunksInfo)
    → volume_at i vs ≡ none
    → set (set vs i v) i none ≡ vs
set_back i [] v h = refl
set_back zero (w ∷ ws) v h = ap (λ u. u ∷ ws) (sym h)
set_back (suc i) (w ∷ ws) v h = ap (λ us. w ∷ us) (set_back i ws v h)

set-none :
    (i : ℕ) (vs : List (Option VolumeChunksInfo)) → volume_at i vs ≡ none → vs ≡ set vs i none
set-none i [] h = refl
set-none zero (w ∷ ws) h = ap (λ u. u ∷ ws) h
set-none (suc i) (w ∷ ws) h = ap (λ us. w ∷ us) (set-none i ws h)

module _ (ordinal : ℕ) (s : Selector) (r : List ℕ × Option ℕ) (s' : Selector)
    (vacant : volume_at ordinal s.volume_chunks ≡ none) where
  attach-SetAt :
      (total active : ℕ) (cs : List Chunk) (pools : List Pool)
      → attach ordinal total active (cs, pools) s ≡ some (r, s')
      → SetAt ordinal s.volume_chunks s'.volume_chunks
  unfolding attach
  attach-SetAt total active [] pools h =
      (none, (ground (arith, h)) ∙ set-none ordinal s.volume_chunks vacant)
  attach-SetAt total active (c ∷ cs) pools h =
      elim (Option-cases (assign ordinal (c ∷ cs) s.vol_ordinal)) [
        | inl e ↦ absurd (ground (arith, h, e))
        | inr (f, e) ↦
            elim (Bool-cases
              (leb (length (c ∷ cs)) total && ltb ordinal (length s.volume_chunks))) [
                | inr g ↦ absurd (ground (arith, h, e, g))
                | inl g ↦ (some (started ordinal total active c cs), ground (arith, h, e, g))
              ]
      ]

  allocate_fresh-SetAt :
      (lazy_alloc : Bool) (volume_size : ℕ) (ks : List Known)
      → allocate_fresh lazy_alloc ordinal volume_size ks s ≡ some (r, s')
      → SetAt ordinal s.volume_chunks s'.volume_chunks
  unfolding allocate_fresh allocate_sized allocate_init_chunks_from_pdev
  allocate_fresh-SetAt lazy_alloc volume_size [] h =
      (none, (ground (arith, h)) ∙ set-none ordinal s.volume_chunks vacant)
  allocate_fresh-SetAt lazy_alloc volume_size (k ∷ ks) h = elim (Option-cases k.chunk) [
    | inl e ↦ absurd (ground (arith, h, e))
    | inr (c, e) ↦
        let total = max_chunks volume_size c.size in
        let active = if lazy_alloc then min total num_chunks_per_vol_init else total in
        let found = from_pdev active total s.per_dev_chunks in
        elim (Bool-cases (leb c.size 0)) [
          | inl f ↦ absurd (ground (arith, h, e, f))
          | inr f ↦ elim (Bool-cases (leb active total)) [
            | inl g ↦ attach-SetAt total active found.0 found.1 (ground (arith, h, e, f, g))
            | inr g ↦ absurd (ground (arith, h, e, f, g))
          ]
        ]
  ]

  allocate_init_chunks-SetAt :
      (lazy_alloc : Bool) (volume_size : ℕ)
      → allocate_init_chunks lazy_alloc ordinal volume_size s ≡ some (r, s')
      → SetAt ordinal s.volume_chunks s'.volume_chunks
  unfolding allocate_init_chunks
  allocate_init_chunks-SetAt lazy_alloc volume_size h =
      elim (Bool-cases (ltb ordinal (length s.volume_chunks))) [
        | inr e ↦ absurd (ground (arith, h, e))
        | inl e ↦
            allocate_fresh-SetAt lazy_alloc volume_size s.all_chunks (ground (arith, h, e, vacant))
      ]

emptied :
    (ordinal : ℕ) (s' s'' : Selector)
    → release_chunks ordinal s' ≡ some s''
    → s''.volume_chunks ≡ set s'.volume_chunks ordinal none
unfolding release_chunks
emptied ordinal s' s'' k = elim (Option-cases (volume_at ordinal s'.volume_chunks)) [
  | inl e ↦ ground (arith, k, e)
  | inr (v, e) ↦ ground (arith, k, e)
]

-- Where no chunk is in two places, an allocation for an ordinal without a volume, with a release
-- behind it, leaves the volumes as they were, and each chunk is as often in the pools as before.
pub release_chunks-allocate_init_chunks :
    (x : ℕ) (lazy_alloc : Bool) (ordinal volume_size : ℕ) (s : Selector) (r : List ℕ × Option ℕ)
    (s' s'' : Selector)
    → ((y : ℕ) → places y s ≤ 1)
    → volume_at ordinal s.volume_chunks ≡ none
    → allocate_init_chunks lazy_alloc ordinal volume_size s ≡ some (r, s')
    → release_chunks ordinal s' ≡ some s''
    → (s''.volume_chunks ≡ s.volume_chunks)
      × (count_free x s''.per_dev_chunks ≡ count_free x s.per_dev_chunks)
release_chunks-allocate_init_chunks x lazy_alloc ordinal volume_size s r s' s'' once vacant h k =
    let kept : (y : ℕ) → places y s' ≡ places y s =
      λ y. allocate_init_chunks-places y lazy_alloc ordinal volume_size s r s' h in
    let back = release_chunks-places x ordinal s' s'' (λ y. omega (arith, kept y, once y)) k in
    let (w, at) = allocate_init_chunks-SetAt ordinal s r s' vacant lazy_alloc volume_size h in
    let same : s''.volume_chunks ≡ s.volume_chunks =
      emptied ordinal s' s'' k
      ∙ ap (λ vs. set vs ordinal none) at
      ∙ set_back ordinal s.volume_chunks w vacant in
    (same, omega (arith, kept x, back, ap (count_owned x) same))
