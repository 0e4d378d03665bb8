-- ===== src/Volume/ReadPlan.antt =====
-- `volume::generate_blkids_to_read` (volume/volume.cpp): the entries found in the index, in the order
-- of their lbas, are merged into runs of blocks that are contiguous on disk.
use home_blocks.Prelude.{
  ℕ, zero, suc, ◌+◌, ◌%◌, ◌^◌, ◌<◌, sym, length, ◌≡◌, refl, ap, ◌∙◌, Bool, true, ◌&&◌, List, [],
  ◌∷◌, ◌++◌, map, arith, ◌==◌, if◌then◌else◌, Bool-cases, inl, inr, All,
}
use mathlib.Core.List.{append_assoc, append-nil}

-- An index entry: the lba, the block that it maps to, and the block's checksum.
pub record IndexKv : Type 0 where
  pub lba : ℕ
  pub blk_num : ℕ
  pub chunk_num : ℕ
  pub checksum : ℕ

-- An element of `read_blks_list_t`: the first lba of a run, and the `multi_blk_id` of its blocks, whose
-- count is a 16-bit word.
pub record BlkRun : Type 0 where
  pub start_lba : ℕ
  pub blk_num : ℕ
  pub blk_count : ℕ
  pub chunk_num : ℕ

unfoldable pub follows : IndexKv → IndexKv → Bool
follows prev kv =
    kv.lba == prev.lba + 1 && kv.blk_num == prev.blk_num + 1 && kv.chunk_num == prev.chunk_num

unfoldable pub run_from : IndexKv → ℕ → BlkRun
run_from start count = record {
  start_lba = start.lba;
  blk_num = start.blk_num;
  blk_count = count % 2 ^ 16;
  chunk_num = start.chunk_num;
}

-- The rounds from the second entry on. `start` is the entry at `start_idx`, `len` is `i - start_idx`,
-- and `prev` is the entry before this one.
unfoldable pub plan_rest : IndexKv → ℕ → IndexKv → List IndexKv → List BlkRun
plan_rest start len prev [] = []
plan_rest start len prev (kv ∷ []) =
    if follows prev kv
    then run_from start (len + 1) ∷ []
    else run_from start len ∷ run_from kv 1 ∷ []
plan_rest start len prev (kv ∷ next ∷ rest) =
    let longer = plan_rest start (len + 1) kv (next ∷ rest) in
    let anew = run_from start len ∷ plan_rest kv 1 kv (next ∷ rest) in
    if follows prev kv then longer else anew

unfoldable pub generate_blkids_to_read : List IndexKv → List BlkRun
generate_blkids_to_read [] = []
generate_blkids_to_read (kv ∷ []) = run_from kv 1 ∷ []
generate_blkids_to_read (kv ∷ next ∷ rest) = plan_rest kv 1 kv (next ∷ rest)

-- One block of a volume: where it is on disk.
pub record Cell : Type 0 where
  pub lba : ℕ
  pub blk_num : ℕ
  pub chunk_num : ℕ

abbrev pub cell_of : IndexKv → Cell
cell_of kv = record { lba = kv.lba; blk_num = kv.blk_num; chunk_num = kv.chunk_num }

abbrev pub cells_from : ℕ → ℕ → ℕ → ℕ → List Cell
cells_from lba blk_num chunk_num zero = []
cells_from lba blk_num chunk_num (suc n) =
    record { lba = lba; blk_num = blk_num; chunk_num = chunk_num }
    ∷ cells_from (lba + 1) (blk_num + 1) chunk_num n

abbrev pub cells_of_run : BlkRun → List Cell
cells_of_run r = cells_from r.start_lba r.blk_num r.chunk_num r.blk_count

abbrev pub cells_of_runs : List BlkRun → List Cell
cells_of_runs [] = []
cells_of_runs (r ∷ rs) = cells_of_run r ++ cells_of_runs rs

cells_from-snoc :
    (lba blk_num chunk_num n : ℕ)
    → cells_from lba blk_num chunk_num (suc n)
      ≡ cells_from lba blk_num chunk_num n
        ++ record { lba = lba + n; blk_num = blk_num + n; chunk_num = chunk_num } ∷ []
cells_from-snoc lba blk_num chunk_num zero = ground arith
cells_from-snoc lba blk_num chunk_num (suc n) =
    ground (arith, cells_from-snoc (lba + 1) (blk_num + 1) chunk_num n)

-- The run that is being built ends at the entry before this one.
record Ends (start : IndexKv) (len : ℕ) (prev : IndexKv) : Type 0 where
  lba : prev.lba + 1 ≡ start.lba + len
  blk_num : prev.blk_num + 1 ≡ start.blk_num + len
  chunk_num : prev.chunk_num ≡ start.chunk_num

grow :
    (start prev kv : IndexKv) (len : ℕ)
    → Ends start len prev
    → len + 1 < 2 ^ 16
    → follows prev kv ≡ true
    → (cells_of_run (run_from start (len + 1))
        ≡ cells_of_run (run_from start len) ++ cell_of kv ∷ [])
      × Ends start (len + 1) kv
unfolding follows run_from
grow start prev kv len e w f =
    let cells = cells_from start.lba start.blk_num start.chunk_num in
    let longer : (len + 1) % 2 ^ 16 ≡ suc len = omega (arith, w) in
    let same : len % 2 ^ 16 ≡ len = omega (arith, w) in
    let grown : cells (suc len) ≡ cells len ++ cell_of kv ∷ [] =
      ground (arith, cells_from-snoc start.lba start.blk_num start.chunk_num len) in
    (ap cells longer ∙ grown ∙ ap (λ (n : ℕ). cells n ++ cell_of kv ∷ []) (sym same), ground arith)

single-cell : (kv : IndexKv) → cells_of_run (run_from kv 1) ≡ cell_of kv ∷ []
unfolding run_from
single-cell kv = refl

Ends-single : (kv : IndexKv) → Ends kv 1 kv
Ends-single kv = record { lba = refl; blk_num = refl; chunk_num = refl }

plan_rest-cells :
    (start prev kv : IndexKv) (len : ℕ) (rest : List IndexKv)
    → Ends start len prev
    → len + length (kv ∷ rest) < 2 ^ 16
    → cells_of_runs (plan_rest start len prev (kv ∷ rest))
      ≡ cells_of_run (run_from start len) ++ map cell_of (kv ∷ rest)
unfolding plan_rest
plan_rest-cells start prev kv len [] e w = elim (Bool-cases (follows prev kv)) [
  | inl f ↦ rw f (append-nil _ ∙ (grow start prev kv len e (omega (arith, w)) f).0)
  | inr f ↦ rw (f, single-cell kv)
]
plan_rest-cells start prev kv len (next ∷ rest) e w = elim (Bool-cases (follows prev kv)) [
  | inl f ↦
      let (longer, e') = grow start prev kv len e (omega (arith, w)) f in
      rw f (
        plan_rest-cells start kv next (len + 1) rest e' (omega (arith, w))
        ∙ ap (λ cs. cs ++ map cell_of (next ∷ rest)) longer
        ∙ append_assoc (cells_of_run (run_from start len)) (cell_of kv ∷ [])
            (map cell_of (next ∷ rest)))
  | inr f ↦ rw f (
      ap (λ cs. cells_of_run (run_from start len) ++ cs)
        (plan_rest-cells kv kv next 1 rest (Ends-single kv) (omega (arith, w))
          ∙ ap (λ cs. cs ++ map cell_of (next ∷ rest)) (single-cell kv)))
]

-- The runs of fewer than 2^16 entries, taken apart into their blocks, are the entries of the index, each
-- once and in order.
pub generate_blkids_to_read-cells :
    (kvs : List IndexKv)
    → length kvs < 2 ^ 16
    → cells_of_runs (generate_blkids_to_read kvs) ≡ map cell_of kvs
unfolding generate_blkids_to_read
generate_blkids_to_read-cells [] w = refl
generate_blkids_to_read-cells (kv ∷ []) w = append-nil _ ∙ single-cell kv
generate_blkids_to_read-cells (kv ∷ next ∷ rest) w =
    plan_rest-cells kv kv next 1 rest (Ends-single kv) (omega (arith, w))
    ∙ ap (λ cs. cs ++ map cell_of (next ∷ rest)) (single-cell kv)

plan_rest-pos :
    (start prev : IndexKv) (len : ℕ) (kvs : List IndexKv)
    → 0 < len
    → len + length kvs < 2 ^ 16
    → All (λ r. 0 < r.blk_count) (plan_rest start len prev kvs)
unfolding plan_rest run_from
plan_rest-pos start prev len [] h w = tt
plan_rest-pos start prev len (kv ∷ []) h w =
    let here : 0 < len % 2 ^ 16 = omega (arith, h, w) in
    let more : 0 < (len + 1) % 2 ^ 16 = omega (arith, h, w) in ground (arith, here, more)
plan_rest-pos start prev len (kv ∷ next ∷ rest) h w =
    let here : 0 < len % 2 ^ 16 = omega (arith, h, w) in
    ground (
      arith,
      here,
      plan_rest-pos start kv (len + 1) (next ∷ rest) (omega arith) (omega (arith, w)),
      plan_rest-pos kv kv 1 (next ∷ rest) (omega arith) (omega (arith, w)),
    )

-- No run of fewer than 2^16 entries is empty.
pub generate_blkids_to_read-pos :
    (kvs : List IndexKv)
    → length kvs < 2 ^ 16
    → All (λ r. 0 < r.blk_count) (generate_blkids_to_read kvs)
unfolding generate_blkids_to_read run_from
generate_blkids_to_read-pos [] w = tt
generate_blkids_to_read-pos (kv ∷ []) w = omega arith
generate_blkids_to_read-pos (kv ∷ next ∷ rest) w =
    plan_rest-pos kv kv 1 (next ∷ rest) (omega arith) (omega (arith, w))
