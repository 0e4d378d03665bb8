-- ===== src/Chunks/Conservation.antt =====
-- No operation of the selector loses a chunk or gives it to a second owner.
use home_blocks.Prelude.{
  both, ℕ, zero, suc, ◌+◌, ◌-◌, ◌^◌, ◌%◌, min, ◌≤◌, ◌<◌, ◌≡◌, Bool, List, [], ◌∷◌, Option, none,
  some, arith, ltb, leb, ◌&&◌, if◌then◌else◌, length, replicate, length-replicate, Bool-cases,
  Option-cases, ltb→lt, leb→le, inl, inr,
}
use home_blocks.Chunks.State.{
  num_chunks_per_vol_init, num_chunks_per_resize, Chunk, VolumeChunksInfo, Pool, Known, Selector,
  volume_at, present,
}
use home_blocks.Chunks.Ops.{
  from_pdev, allocate_init_chunks_from_pdev, resize_from, assign, started, attach, allocate_sized,
  allocate_fresh, allocate_init_chunks, max_chunks, release_chunks, grown, add_chunks, resize_task,
}
use home_blocks.Chunks.Count.{
  count, count_free, count_volume, count_owned, places, from_pdev-count, count_owned-set,
  present-empty, Vacant, count-place, Vacant-empty, count_free-add_all, resize_from-count,
}

attach-places :
    (x ordinal total active : ℕ) (cs : List Chunk) (pools : List Pool) (s : Selector)
    (r : List ℕ × Option ℕ) (s' : Selector)
    → count x cs + count_free x pools ≡ count_free x s.per_dev_chunks
    → volume_at ordinal s.volume_chunks ≡ none
    → attach ordinal total active (cs, pools) s ≡ some (r, s')
    → places x s' ≡ places x s
unfolding attach
attach-places x ordinal total active [] pools s r s' found vacant h = ground (arith, h, found)
attach-places x ordinal total active (c ∷ cs) pools s r s' found vacant h =
    elim (Option-cases (assign ordinal (c ∷ cs) s.vol_ordinal)) [
      | inl e ↦ ground (arith, h, e)
      | inr (f, e) ↦
          elim (Bool-cases (leb (length (c ∷ cs)) total && ltb ordinal (length s.volume_chunks))) [
            | inr g ↦ ground (arith, h, e, g)
            | inl g ↦
                let (fits, there) =
                  both (leb (length (c ∷ cs)) total) (ltb ordinal (length s.volume_chunks)) g in
                let placed = count-place x 0 (c ∷ cs) (replicate total none) (Vacant-empty total) (
                  omega (
                    arith,
                    leb→le (length (c ∷ cs)) total fits,
                    length-replicate {A = Option Chunk} total none,
                  )) in
                ground (
                  arith,
                  h,
                  e,
                  g,
                  found,
                  placed,
                  present-empty total,
                  vacant,
                  count_owned-set x ordinal s.volume_chunks
                      (some (started ordinal total active c cs))
                      (ltb→lt ordinal (length s.volume_chunks) there),
                )
          ]
    ]

allocate_sized-places :
    (x : ℕ) (lazy_alloc : Bool) (ordinal total : ℕ) (s : Selector) (r : List ℕ × Option ℕ)
    (s' : Selector)
    → volume_at ordinal s.volume_chunks ≡ none
    → allocate_sized lazy_alloc ordinal total s ≡ some (r, s')
    → places x s' ≡ places x s
unfolding allocate_sized allocate_init_chunks_from_pdev
allocate_sized-places x lazy_alloc ordinal total s r s' vacant h =
    let active = if lazy_alloc then min total num_chunks_per_vol_init else total in
    let found = from_pdev active total s.per_dev_chunks in
    elim (Bool-cases (leb active total)) [
      | inl e ↦
          attach-places x ordinal total active found.0 found.1 s r s'
            (from_pdev-count x active total s.per_dev_chunks) vacant (ground (arith, h, e))
      | inr e ↦ ground (arith, h, e)
    ]

allocate_fresh-places :
    (x : ℕ) (lazy_alloc : Bool) (ordinal volume_size : ℕ) (ks : List Known) (s : Selector)
    (r : List ℕ × Option ℕ) (s' : Selector)
    → volume_at ordinal s.volume_chunks ≡ none
    → allocate_fresh lazy_alloc ordinal volume_size ks s ≡ some (r, s')
    → places x s' ≡ places x s
unfolding allocate_fresh
allocate_fresh-places x lazy_alloc ordinal volume_size [] s r s' vacant h = ground (arith, h)
allocate_fresh-places x lazy_alloc ordinal volume_size (k ∷ ks) s r s' vacant h =
    elim (Option-cases k.chunk) [
      | inl e ↦ ground (arith, h, e)
      | inr (c, e) ↦ elim (Bool-cases (leb c.size 0)) [
        | inl f ↦ ground (arith, h, e, f)
        | inr f ↦
            allocate_sized-places x lazy_alloc ordinal (max_chunks volume_size c.size) s r s' vacant
              (ground (arith, h, e, f))
      ]
    ]

-- An allocation for a new volume, where it ends, leaves each chunk in as many places as before, in the
-- pools or in a volume, also where it finds no chunks.
pub allocate_init_chunks-places :
    (x : ℕ) (lazy_alloc : Bool) (ordinal volume_size : ℕ) (s : Selector) (r : List ℕ × Option ℕ)
    (s' : Selector)
    → allocate_init_chunks lazy_alloc ordinal volume_size s ≡ some (r, s')
    → places x s' ≡ places x s
unfolding allocate_init_chunks
allocate_init_chunks-places x lazy_alloc ordinal volume_size s r s' h =
    elim (Bool-cases (ltb ordinal (length s.volume_chunks))) [
      | inr e ↦ ground (arith, h, e)
      | inl e ↦ elim (Option-cases (volume_at ordinal s.volume_chunks)) [
        | inr (v, f) ↦ ground (arith, h, e, f)
        | inl f ↦
            allocate_fresh-places x lazy_alloc ordinal volume_size s.all_chunks s r s' f
              (ground (arith, h, e, f))
      ]
    ]

volume_at_lt :
    (i : ℕ) (vs : List (Option VolumeChunksInfo)) (v : VolumeChunksInfo)
    → volume_at i vs ≡ some v
    → i < length vs
volume_at_lt i [] v h = ground (arith, h)
volume_at_lt zero (w ∷ ws) v h = omega arith
volume_at_lt (suc i) (w ∷ ws) v h = omega (arith, volume_at_lt i ws v h)

count_volume_le :
    (x i : ℕ) (vs : List (Option VolumeChunksInfo))
    → count_volume x (volume_at i vs) ≤ count_owned x vs
count_volume_le x i [] = omega arith
count_volume_le x zero (w ∷ ws) = omega arith
count_volume_le x (suc i) (w ∷ ws) = omega (arith, count_volume_le x i ws)

-- If no chunk is in two places, then a release leaves each in as many places as before: all chunks of
-- the volume are free again.
pub release_chunks-places :
    (x ordinal : ℕ) (s s' : Selector)
    → ((y : ℕ) → places y s ≤ 1)
    → release_chunks ordinal s ≡ some s'
    → places x s' ≡ places x s
unfolding release_chunks
release_chunks-places x ordinal s s' once h =
    elim (Option-cases (volume_at ordinal s.volume_chunks)) [
      | inl e ↦ ground (arith, h, e)
      | inr (v, e) ↦
          let apart : (y : ℕ) → count_free y s.per_dev_chunks + count y (present v.chunks) ≤ 1 =
            λ y. ground (arith, once y, count_volume_le y ordinal s.volume_chunks, e) in
          ground (
            arith,
            h,
            e,
            count_free-add_all (present v.chunks) s.per_dev_chunks apart x,
            count_owned-set x ordinal s.volume_chunks none
                (volume_at_lt ordinal s.volume_chunks v e),
          )
    ]

-- The task that adds chunks to a volume, where it ends, leaves each chunk in as many places as before,
-- if the volume's slots behind the active chunks are empty.
pub resize_task-places :
    (x ordinal : ℕ) (s : Selector) (v : VolumeChunksInfo) (r : List ℕ) (s' : Selector)
    → volume_at ordinal s.volume_chunks ≡ some v
    → Vacant v.num_active_chunks v.chunks
    → resize_task ordinal s ≡ some (r, s')
    → places x s' ≡ places x s
unfolding resize_task add_chunks
resize_task-places x ordinal s v r s' e vacant h =
    let n =
      min num_chunks_per_resize ((v.max_num_chunks + 2 ^ 64 - v.num_active_chunks) % 2 ^ 64) in
    elim (Option-cases (resize_from v.pdev n s.per_dev_chunks)) [
      | inl f ↦ ground (arith, h, e, f)
      | inr (([], pools), f) ↦ ground (arith, h, e, f)
      | inr ((c ∷ cs, pools), f) ↦
          elim (Bool-cases (leb (v.num_active_chunks + length (c ∷ cs)) (length v.chunks))) [
            | inr g ↦ ground (arith, h, e, f, g)
            | inl g ↦ ground (
              arith,
              h,
              e,
              f,
              g,
              resize_from-count x v.pdev n s.per_dev_chunks (c ∷ cs) pools f,
              count-place x v.num_active_chunks (c ∷ cs) v.chunks vacant (leb→le _ _ g),
              count_owned-set x ordinal s.volume_chunks (some (grown (c ∷ cs) v))
                  (volume_at_lt ordinal s.volume_chunks v e),
            )
          ]
    ]
