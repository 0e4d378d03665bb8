-- ===== src/Chunks/LateResize.antt =====
-- The task of `resize_volume_num_chunks` (volume/volume_chunk_selector.cpp) when its volume is released
-- before it runs. The task holds on to the volume's `VolumeChunksInfo`, which is then in no slot of
-- `m_volume_chunks`.
use home_blocks.Prelude.{
  ℕ, ◌+◌, ◌-◌, ◌%◌, ◌^◌, ◌<◌, ◌≡◌, ap, List, [], ◌∷◌, Option, none, some, arith, leb, if◌then◌else◌,
  min, length, Bool-cases, Option-cases, inl, inr,
}
use home_blocks.Chunks.State.{
  num_chunks_per_resize, Chunk, VolumeChunksInfo, idle, Pool, Selector, present,
}
use home_blocks.Chunks.Ops.{ids_of, resize_from, grown}
use home_blocks.Chunks.Count.{count, count_free, count_owned, places, resize_from-count}

-- Chunks that were found go to the information that nobody else holds.
unfoldable pub add_to_released :
    VolumeChunksInfo → List Chunk × List Pool → Selector → Option (List ℕ × Selector)
add_to_released v ([], pools) s = none
add_to_released v (c ∷ cs, pools) s =
    if leb (v.num_active_chunks + length (c ∷ cs)) (length v.chunks)
    then some (
      ids_of (present (grown (c ∷ cs) v).chunks),
      record s { per_dev_chunks = pools; resize_op = idle },
    )
    else none

abbrev pub wanted : VolumeChunksInfo → ℕ
wanted v = min num_chunks_per_resize ((v.max_num_chunks + 2 ^ 64 - v.num_active_chunks) % 2 ^ 64)

unfoldable pub late_resize_task : VolumeChunksInfo → Selector → Option (List ℕ × Selector)
unfolding add_to_released
late_resize_task v s = elim (resize_from v.pdev (wanted v) s.per_dev_chunks) [
  | none ↦ none
  | some found ↦ add_to_released v found s
]

-- What such a task leaves.
pub record Late (v : VolumeChunksInfo) (s : Selector) (ids : List ℕ) (s' : Selector) : Type 0 where
  pub taken : List Chunk
  pub some_taken : 0 < length taken
  pub answer : ids ≡ ids_of (present (grown taken v).chunks)
  pub volumes : s'.volume_chunks ≡ s.volume_chunks
  pub lost : (x : ℕ) → places x s' + count x taken ≡ places x s

-- A task that ends takes its chunks out of the pools and puts them into no volume; it answers the ids
-- of the released volume's chunks with the new ones.
pub late_resize_task-Late :
    (v : VolumeChunksInfo) (s : Selector) (ids : List ℕ) (s' : Selector)
    → late_resize_task v s ≡ some (ids, s')
    → Late v s ids s'
unfolding late_resize_task
late_resize_task-Late v s ids s' h =
    elim (Option-cases (resize_from v.pdev (wanted v) s.per_dev_chunks)) [
      | inl e ↦ absurd (ground (arith, h, e))
      | inr (([], pools), e) ↦ absurd (ground (arith, h, e))
      | inr ((c ∷ cs, pools), e) ↦
          elim (Bool-cases (leb (v.num_active_chunks + length (c ∷ cs)) (length v.chunks))) [
            | inr g ↦ absurd (ground (arith, h, e, g))
            | inl g ↦ record {
              taken = c ∷ cs;
              some_taken = omega arith;
              answer = ground (arith, h, e, g);
              volumes = ground (arith, h, e, g);
              lost = λ x.
                  let left : s'.per_dev_chunks ≡ pools = ground (arith, h, e, g) in
                  let vols : s'.volume_chunks ≡ s.volume_chunks = ground (arith, h, e, g) in
                  omega (
                    arith,
                    resize_from-count x v.pdev (wanted v) s.per_dev_chunks (c ∷ cs) pools e,
                    ap (count_free x) left,
                    ap (count_owned x) vols,
                  );
            }
          ]
    ]
