-- ===== src/Chunks/Answers.antt =====
-- The chunk ids that allocation, growth and recovery answer or take (volume/volume_chunk_selector.cpp)
-- are those of the volume afterwards.
use home_blocks.Prelude.{
  ℕ, zero, suc, ◌+◌, ◌-◌, ◌%◌, ◌^◌, ◌≤◌, ◌<◌, ◌≡◌, refl, ap, ◌∙◌, Bool, ◌&&◌, List, [], ◌∷◌, Option,
  none, some, arith, ltb, ltb→lt, leb, leb→le, both, if◌then◌else◌, min, length, set, replicate,
  Bool-cases, Option-cases, inl, inr,
}
use home_blocks.Chunks.State.{
  num_chunks_per_vol_init, num_chunks_per_resize, Chunk, VolumeChunksInfo, Pool, Known, Selector,
  volume_at, present, place,
}
use home_blocks.Chunks.Ops.{
  ids_of, from_pdev, allocate_init_chunks_from_pdev, assign, started, attach, allocate_sized,
  allocate_fresh, allocate_init_chunks, max_chunks, grown, add_chunks, resize_from, resize_task,
}
use home_blocks.Chunks.Count.{present-empty}

-- The chunks of the volume at an ordinal; none where there is no volume.
abbrev pub ids_at : Option VolumeChunksInfo → List ℕ
ids_at none = []
ids_at (some v) = ids_of (present v.chunks)

abbrev pub chunk_ids_of : ℕ → Selector → List ℕ
chunk_ids_of ordinal s = ids_at (volume_at ordinal s.volume_chunks)

pub volume_at-set :
    (i : ℕ) (vs : List (Option VolumeChunksInfo)) (v : Option VolumeChunksInfo)
    → i < length vs
    → volume_at i (set vs i v) ≡ v
volume_at-set i [] v h = absurd (omega arith)
volume_at-set zero (w ∷ ws) v h = refl
volume_at-set (suc i) (w ∷ ws) v h = volume_at-set i ws v (omega arith)

pub volume_at-some :
    (i : ℕ) (vs : List (Option VolumeChunksInfo)) (v : VolumeChunksInfo)
    → volume_at i vs ≡ some v
    → i < length vs
volume_at-some i [] v h = absurd (cc)
volume_at-some zero (w ∷ ws) v h = omega arith
volume_at-some (suc i) (w ∷ ws) v h = omega (arith, volume_at-some i ws v h)

pub present-place :
    (cs : List Chunk) (n : ℕ) → length cs ≤ n → present (place 0 cs (replicate n none)) ≡ cs
present-place [] zero h = refl
present-place [] (suc n) h = present-empty n
present-place (c ∷ cs) zero h = absurd (omega arith)
present-place (c ∷ cs) (suc n) h = ap (λ r. c ∷ r) (present-place cs n (omega arith))

module _ (ordinal : ℕ) (s : Selector) (ids : List ℕ) (pdev : Option ℕ) (s' : Selector)
    (vacant : volume_at ordinal s.volume_chunks ≡ none) where
  attach-ids :
      (total active : ℕ) (cs : List Chunk) (pools : List Pool)
      → attach ordinal total active (cs, pools) s ≡ some ((ids, pdev), s')
      → chunk_ids_of ordinal s' ≡ ids
  unfolding attach
  attach-ids total active [] pools h = ground (arith, h, vacant)
  attach-ids total active (c ∷ cs) pools h =
      elim (Option-cases (assign ordinal (c ∷ cs) s.vol_ordinal)) [
        | inl e ↦ absurd (ground (arith, h, e))
        | inr (f, e) ↦
            elim (Bool-cases
              (leb (length (c ∷ cs)) total && ltb ordinal (length s.volume_chunks))) [
                | inr g ↦ absurd (ground (arith, h, e, g))
                | inl g ↦
                    let (fits, room) =
                      both (leb (length (c ∷ cs)) total) (ltb ordinal (length s.volume_chunks)) g in
                    let v = some (started ordinal total active c cs) in
                    let here : s'.volume_chunks ≡ set s.volume_chunks ordinal v =
                      ground (arith, h, e, g) in
                    let answer : ids_of (c ∷ cs) ≡ ids = ground (arith, h, e, g) in
                    ap (λ vs. ids_at (volume_at ordinal vs)) here
                    ∙ ap ids_at (volume_at-set ordinal s.volume_chunks v (ltb→lt _ _ room))
                    ∙ ap ids_of (present-place (c ∷ cs) total (leb→le _ _ fits))
                    ∙ answer
              ]
      ]

  allocate_fresh-ids :
      (lazy_alloc : Bool) (volume_size : ℕ) (ks : List Known)
      → allocate_fresh lazy_alloc ordinal volume_size ks s ≡ some ((ids, pdev), s')
      → chunk_ids_of ordinal s' ≡ ids
  unfolding allocate_fresh allocate_sized allocate_init_chunks_from_pdev
  allocate_fresh-ids lazy_alloc volume_size [] h = ground (arith, h, vacant)
  allocate_fresh-ids lazy_alloc volume_size (k ∷ ks) h = elim (Option-cases k.chunk) [
    | inl e ↦ absurd (ground (arith, h, e))
    | inr (c, e) ↦
        let total = max_chunks volume_size c.size in
        let active = if lazy_alloc then min total num_chunks_per_vol_init else total in
        let found = from_pdev active total s.per_dev_chunks in
        elim (Bool-cases (leb c.size 0)) [
          | inl f ↦ absurd (ground (arith, h, e, f))
          | inr f ↦ elim (Bool-cases (leb active total)) [
            | inl g ↦ attach-ids total active found.0 found.1 (ground (arith, h, e, f, g))
            | inr g ↦ absurd (ground (arith, h, e, f, g))
          ]
        ]
  ]

  -- The ids that an allocation for a new volume answers are those of the volume.
  pub allocate_init_chunks-ids :
      (lazy_alloc : Bool) (volume_size : ℕ)
      → allocate_init_chunks lazy_alloc ordinal volume_size s ≡ some ((ids, pdev), s')
      → chunk_ids_of ordinal s' ≡ ids
  unfolding allocate_init_chunks
  allocate_init_chunks-ids lazy_alloc volume_size h =
      elim (Bool-cases (ltb ordinal (length s.volume_chunks))) [
        | inr e ↦ absurd (ground (arith, h, e))
        | inl e ↦
            allocate_fresh-ids lazy_alloc volume_size s.all_chunks (ground (arith, h, e, vacant))
      ]

add_chunks-ids :
    (ordinal : ℕ) (v : VolumeChunksInfo) (cs : List Chunk) (pools : List Pool) (s : Selector)
    (ids : List ℕ) (s' : Selector)
    → ordinal < length s.volume_chunks
    → add_chunks ordinal v (cs, pools) s ≡ some (ids, s')
    → chunk_ids_of ordinal s' ≡ ids
unfolding add_chunks
add_chunks-ids ordinal v [] pools s ids s' room h = absurd (ground (arith, h))
add_chunks-ids ordinal v (c ∷ cs) pools s ids s' room h =
    elim (Bool-cases (leb (v.num_active_chunks + length (c ∷ cs)) (length v.chunks))) [
      | inr g ↦ absurd (ground (arith, h, g))
      | inl g ↦
          let w = some (grown (c ∷ cs) v) in
          let here : s'.volume_chunks ≡ set s.volume_chunks ordinal w = ground (arith, h, g) in
          let answer : ids_of (present (grown (c ∷ cs) v).chunks) ≡ ids = ground (arith, h, g) in
          ap (λ vs. ids_at (volume_at ordinal vs)) here
          ∙ ap ids_at (volume_at-set ordinal s.volume_chunks w room)
          ∙ answer
    ]

-- The ids that the task answers, for the superblock, are those of the volume with its new chunks.
pub resize_task-ids :
    (ordinal : ℕ) (s : Selector) (ids : List ℕ) (s' : Selector)
    → resize_task ordinal s ≡ some (ids, s')
    → chunk_ids_of ordinal s' ≡ ids
unfolding resize_task
resize_task-ids ordinal s ids s' h = elim (Option-cases (volume_at ordinal s.volume_chunks)) [
  | inl e ↦ absurd (ground (arith, h, e))
  | inr (v, e) ↦
      let left = (v.max_num_chunks + 2 ^ 64 - v.num_active_chunks) % 2 ^ 64 in
      let found = resize_from v.pdev (min num_chunks_per_resize left) s.per_dev_chunks in
      elim (Option-cases found) [
        | inl f ↦ absurd (ground (arith, h, e, f))
        | inr (r, f) ↦
            add_chunks-ids ordinal v r.0 r.1 s ids s' (volume_at-some ordinal s.volume_chunks v e)
              (ground (arith, h, e, f))
      ]
]
