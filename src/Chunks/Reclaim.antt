-- ===== src/Chunks/Reclaim.antt =====
-- `recover_chunks` (volume/volume_chunk_selector.cpp) moves chunks from the pools to their volume.
use home_blocks.Prelude.{
  both, ℕ, suc, ◌+◌, ◌<◌, ◌≡◌, ap, sym, Bool, ◌&&◌, List, [], ◌∷◌, Option, none, some, arith, ltb,
  ◌==◌, length, Bool-cases, Option-cases, ltb→lt, subst, inl, inr,
}
use home_blocks.Chunks.State.{
  invalid_vol_ordinal, Chunk, VolumeChunksInfo, Known, Selector, volume_at, present, place,
}
use home_blocks.Chunks.Ops.{max_chunks}
use home_blocks.Chunks.Recovery.{
  erase_pool, known, recover_chunk, recover_loop, recovered, recover_sized, recover_chunks,
  first_chunk,
}
use home_blocks.Chunks.Count.{
  one, count, count_free, count_owned, places, count_owned-set, present-empty, Vacant, count-place,
  Vacant-place, Vacant-empty, count_free-erase,
}

-- Each chunk is kept under its own id.
abbrev pub IsKeyed : List Known → Type 0
IsKeyed [] = Unit
IsKeyed (k ∷ ks) = ((c : Chunk) → k.chunk ≡ some c → c.chunk_id ≡ k.chunk_id) × IsKeyed ks

pub known-id :
    (id : ℕ) (ks : List Known) (c : Chunk) → IsKeyed ks → known id ks ≡ some c → c.chunk_id ≡ id
known-id id [] c keyed h = ground (arith, h)
known-id id (k ∷ ks) c keyed h = elim (Bool-cases (k.chunk_id == id)) [
  | inl e ↦ ground (arith, h, e, keyed.0 c)
  | inr e ↦ ground (arith, h, e, known-id id ks c keyed.1)
]

-- One round: the chunk leaves the pools for the volume.
recover_chunk-counts :
    (x ordinal idx id : ℕ) (c : Chunk) (v : VolumeChunksInfo) (s : Selector) (w : VolumeChunksInfo)
    (t : Selector)
    → c.chunk_id ≡ id
    → Vacant idx v.chunks
    → recover_chunk ordinal idx id c v s ≡ some (w, t)
    → (count_free x t.per_dev_chunks + count x (present w.chunks)
        ≡ count_free x s.per_dev_chunks + count x (present v.chunks))
      × (t.volume_chunks ≡ s.volume_chunks)
      × (t.all_chunks ≡ s.all_chunks)
      × Vacant (suc idx) w.chunks
unfolding recover_chunk
recover_chunk-counts x ordinal idx id c v s w t same vacant h =
    elim (Bool-cases (
      s.vol_ordinal c.chunk_id == invalid_vol_ordinal
      && (c.pdev_id == v.pdev && ltb idx (length v.chunks)))) [
        | inr e ↦ ground (arith, h, e)
        | inl e ↦ elim (Option-cases (erase_pool c.pdev_id id s.per_dev_chunks)) [
          | inl f ↦ ground (arith, h, e, f)
          | inr (pools, f) ↦
              let room =
                (both (c.pdev_id == v.pdev) (ltb idx (length v.chunks))
                  (both (s.vol_ordinal c.chunk_id == invalid_vol_ordinal)
                    (c.pdev_id == v.pdev && ltb idx (length v.chunks)) e).1).1 in
              let behind : Vacant (suc idx) (place idx (c ∷ []) v.chunks) =
                subst (λ (n : ℕ). Vacant n (place idx (c ∷ []) v.chunks)) {x = idx + 1}
                  (omega arith) (Vacant-place idx (c ∷ []) v.chunks vacant) in
              let slots : place idx (c ∷ []) v.chunks ≡ w.chunks = ground (arith, h, e, f) in
              let left : t.per_dev_chunks ≡ pools = ground (arith, h, e, f) in
              (
                rw (left, sym slots)
                    (omega (
                      arith,
                      same,
                      count_free-erase x c.pdev_id id s.per_dev_chunks pools f,
                      count-place x idx (c ∷ []) v.chunks vacant
                          (omega (arith, ltb→lt idx (length v.chunks) room)),
                      ap (λ (i : ℕ). one (i == x)) same,
                    )),
                ground (arith, h, e, f),
                ground (arith, h, e, f),
                subst (Vacant (suc idx)) slots behind,
              )
        ]
      ]

-- The loop, which puts the volume into its place at the end.
recover_loop-places :
    (x ordinal idx : ℕ) (ids : List ℕ) (v : VolumeChunksInfo) (s : Selector) (b : Bool)
    (s' : Selector)
    → IsKeyed s.all_chunks
    → ordinal < length s.volume_chunks
    → volume_at ordinal s.volume_chunks ≡ none
    → Vacant idx v.chunks
    → recover_loop ordinal idx ids v s ≡ some (b, s')
    → places x s' ≡ places x s + count x (present v.chunks)
unfolding recover_loop
recover_loop-places x ordinal idx [] v s b s' keyed room free vacant h =
    ground (arith, h, free, count_owned-set x ordinal s.volume_chunks (some v) room)
recover_loop-places x ordinal idx (id ∷ ids) v s b s' keyed room free vacant h =
    elim (Option-cases (known id s.all_chunks)) [
      | inl e ↦ ground (arith, h, e, free, count_owned-set x ordinal s.volume_chunks (some v) room)
      | inr (c, e) ↦ elim (Option-cases (recover_chunk ordinal idx id c v s)) [
        | inl f ↦ ground (arith, h, e, f)
        | inr ((w, t), f) ↦
            let (sum, vols, all, behind) =
              recover_chunk-counts x ordinal idx id c v s w t (known-id id s.all_chunks c keyed e)
                vacant f in
            let later =
              recover_loop-places x ordinal (suc idx) ids w t b s' (subst IsKeyed (sym all) keyed)
                (subst (λ (vs : List (Option VolumeChunksInfo)). ordinal < length vs) (sym vols)
                  room)
                (subst (λ (vs : List (Option VolumeChunksInfo)). volume_at ordinal vs ≡ none)
                  (sym vols) free)
                behind (ground (arith, h, e, f)) in
            omega (arith, later, sum, ap (count_owned x) vols)
      ]
    ]

-- A recovery, where it ends, leaves each chunk in as many places as before, also where it stops at an
-- id that it does not know. Each chunk of the selector is assumed to be kept under its own id.
pub recover_chunks-places :
    (x ordinal pdev volume_size : ℕ) (ids : List ℕ) (s : Selector) (b : Bool) (s' : Selector)
    → IsKeyed s.all_chunks
    → recover_chunks ordinal pdev volume_size ids s ≡ some (b, s')
    → places x s' ≡ places x s
unfolding recover_chunks recover_sized
recover_chunks-places x ordinal pdev volume_size ids s b s' keyed h =
    elim (Option-cases (volume_at ordinal s.volume_chunks)) [
      | inr (v, e) ↦ ground (arith, h, e)
      | inl e ↦ elim (Option-cases (first_chunk s.all_chunks)) [
        | inl f ↦ ground (arith, h, e, f)
        | inr (c, f) ↦ elim (Bool-cases (ltb 0 c.size && ltb ordinal (length s.volume_chunks))) [
          | inr g ↦ ground (arith, h, e, f, g)
          | inl g ↦
              let total = max_chunks volume_size c.size in
              let moved =
                recover_loop-places x ordinal 0 ids (recovered ordinal pdev total (length ids)) s b
                  s' keyed
                  (ltb→lt ordinal (length s.volume_chunks)
                    (both (ltb 0 c.size) (ltb ordinal (length s.volume_chunks)) g).1)
                  e (Vacant-empty total) (ground (arith, h, e, f, g)) in
              omega (arith, moved, ap (count x) (present-empty total))
        ]
      ]
    ]
