-- ===== src/Chunks/Returned.antt =====
-- The chunk ids that a volume has after `recover_chunks` (volume/volume_chunk_selector.cpp).
use home_blocks.Prelude.{
  ℕ, zero, suc, ◌≤◌, ◌<◌, ◌≡◌, refl, ap, sym, ap₂, ◌∙◌, subst, true, ◌&&◌, List, [], ◌∷◌, ◌++◌,
  Option, none, some, arith, ltb, ltb→lt, both, ◌==◌, length, length-replicate, length-append,
  append-nil, set, replicate, Bool-cases, Option-cases, inl, inr,
}
use home_blocks.Chunks.State.{
  invalid_vol_ordinal, Chunk, VolumeChunksInfo, Selector, volume_at, present, place,
}
use home_blocks.Chunks.Ops.{ids_of, max_chunks}
use home_blocks.Chunks.Recovery.{
  known, erase_pool, recover_chunk, recover_loop, recovered, recover_sized, recover_chunks,
  first_chunk,
}
use home_blocks.Chunks.Reclaim.{IsKeyed, known-id}
use home_blocks.Chunks.Answers.{ids_at, chunk_ids_of, volume_at-set, present-place}

length-place :
    (i : ℕ) (cs : List Chunk) (ss : List (Option Chunk)) → length (place i cs ss) ≡ length ss
length-place i cs [] = refl
length-place (suc i) cs (s ∷ ss) = ap suc (length-place i cs ss)
length-place zero [] (s ∷ ss) = refl
length-place zero (c ∷ cs) (s ∷ ss) = ap suc (length-place zero cs ss)

place-nil : (ss : List (Option Chunk)) → place 0 [] ss ≡ ss
place-nil [] = refl
place-nil (s ∷ ss) = refl

-- One more chunk behind those that stand in their slots.
place-next :
    (done : List Chunk) (c : Chunk) (n : ℕ)
    → length done < n
    → place (length done) (c ∷ []) (place 0 done (replicate n none))
      ≡ place 0 (done ++ c ∷ []) (replicate n none)
place-next done c zero h = absurd (omega arith)
place-next [] c (suc n) h = refl
place-next (d ∷ done) c (suc n) h = ap (λ r. some d ∷ r) (place-next done c n (omega arith))

ids-snoc :
    (done : List Chunk) (c : Chunk) (id : ℕ) (ids : List ℕ)
    → c.chunk_id ≡ id
    → ids_of (done ++ c ∷ []) ++ ids ≡ ids_of done ++ id ∷ ids
ids-snoc [] c id ids e = ap (λ k. k ∷ ids) e
ids-snoc (d ∷ done) c id ids e = ap (λ ks. d.chunk_id ∷ ks) (ids-snoc done c id ids e)

-- One round.
record Round (ordinal idx : ℕ) (c : Chunk) (v : VolumeChunksInfo) (s : Selector)
    (r : VolumeChunksInfo × Selector) : Type 0 where
  room : idx < length v.chunks
  slots : r.0.chunks ≡ place idx (c ∷ []) v.chunks
  same_known : r.1.all_chunks ≡ s.all_chunks
  same_vols : r.1.volume_chunks ≡ s.volume_chunks

recover_chunk-Round :
    (ordinal idx id : ℕ) (c : Chunk) (v : VolumeChunksInfo) (s : Selector)
    (r : VolumeChunksInfo × Selector)
    → recover_chunk ordinal idx id c v s ≡ some r
    → Round ordinal idx c v s r
unfolding recover_chunk
recover_chunk-Round ordinal idx id c v s r h =
    let free = s.vol_ordinal c.chunk_id == invalid_vol_ordinal in
    let own = c.pdev_id == v.pdev in
    let fits = ltb idx (length v.chunks) in
    elim (Bool-cases (free && (own && fits))) [
      | inr g ↦ absurd (ground (arith, h, g))
      | inl g ↦ elim (Option-cases (erase_pool c.pdev_id id s.per_dev_chunks)) [
        | inl e ↦ absurd (ground (arith, h, g, e))
        | inr (pools, e) ↦ record {
          room = ltb→lt idx (length v.chunks) (both own fits (both free (own && fits) g).1).1;
          slots = ground (arith, h, g, e);
          same_known = ground (arith, h, g, e);
          same_vols = ground (arith, h, g, e);
        }
      ]
    ]

recover_loop-ids :
    (n ordinal idx : ℕ) (ids : List ℕ) (done : List Chunk) (v : VolumeChunksInfo) (s s' : Selector)
    → v.chunks ≡ place 0 done (replicate n none)
    → length done ≡ idx
    → idx ≤ n
    → ordinal < length s.volume_chunks
    → IsKeyed s.all_chunks
    → recover_loop ordinal idx ids v s ≡ some (true, s')
    → chunk_ids_of ordinal s' ≡ ids_of done ++ ids
unfolding recover_loop
recover_loop-ids n ordinal idx [] done v s s' slots len fits room keyed h =
    let here : s'.volume_chunks ≡ set s.volume_chunks ordinal (some v) = ground (arith, h) in
    ap (λ vs. ids_at (volume_at ordinal vs)) here
    ∙ ap ids_at (volume_at-set ordinal s.volume_chunks (some v) room)
    ∙ ap (λ ss. ids_of (present ss)) slots
    ∙ ap ids_of (present-place done n (omega arith))
    ∙ sym (append-nil (ids_of done))
recover_loop-ids n ordinal idx (id ∷ ids) done v s s' slots len fits room keyed h =
    elim (Option-cases (known id s.all_chunks)) [
      | inl e ↦ absurd (ground (arith, h, e))
      | inr (c, e) ↦ elim (Option-cases (recover_chunk ordinal idx id c v s)) [
        | inl f ↦ absurd (ground (arith, h, e, f))
        | inr (r, f) ↦
            let round = recover_chunk-Round ordinal idx id c v s r f in
            let here : c.chunk_id ≡ id = known-id id s.all_chunks c keyed e in
            let all : length v.chunks ≡ n =
              ap length slots ∙ length-place 0 done (replicate n none) ∙ length-replicate n none in
            let slots' : r.0.chunks ≡ place 0 (done ++ c ∷ []) (replicate n none) =
              round.slots
              ∙ ap₂ (λ i ss. place i (c ∷ []) ss) (sym len) slots
              ∙ place-next done c n (omega (arith, round.room, all)) in
            let ih =
              recover_loop-ids n ordinal (suc idx) ids (done ++ c ∷ []) r.0 r.1 s' slots'
                (omega (arith, length-append {0} done (c ∷ []))) (omega (arith, round.room, all))
                (subst (λ (vs : List (Option VolumeChunksInfo)). ordinal < length vs)
                  (sym round.same_vols) room)
                (subst IsKeyed (sym round.same_known) keyed) (ground (arith, h, e, f)) in
            ih ∙ ids-snoc done c id ids here
      ]
    ]

-- A recovery that succeeds gives the volume the chunks with the ids that the superblock names, in its
-- order, each chunk being kept under its own id.
pub recover_chunks-ids :
    (ordinal pdev volume_size : ℕ) (ids : List ℕ) (s s' : Selector)
    → IsKeyed s.all_chunks
    → recover_chunks ordinal pdev volume_size ids s ≡ some (true, s')
    → chunk_ids_of ordinal s' ≡ ids
unfolding recover_chunks recover_sized
recover_chunks-ids ordinal pdev volume_size ids s s' keyed h =
    elim (Option-cases (volume_at ordinal s.volume_chunks)) [
      | inr (v, e) ↦ absurd (ground (arith, h, e))
      | inl e ↦ elim (Option-cases (first_chunk s.all_chunks)) [
        | inl f ↦ absurd (ground (arith, h, e, f))
        | inr (c, f) ↦ elim (Bool-cases (ltb 0 c.size && ltb ordinal (length s.volume_chunks))) [
          | inr g ↦ absurd (ground (arith, h, e, f, g))
          | inl g ↦
              let n = max_chunks volume_size c.size in
              recover_loop-ids n ordinal 0 ids [] (recovered ordinal pdev n (length ids)) s s'
                (sym (place-nil (replicate n none))) refl (omega arith)
                (ltb→lt ordinal (length s.volume_chunks)
                  (both (ltb 0 c.size) (ltb ordinal (length s.volume_chunks)) g).1)
                keyed (ground (arith, h, e, f, g))
        ]
      ]
    ]
