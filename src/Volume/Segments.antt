-- ===== src/Volume/Segments.antt =====
-- `submit_read_to_backend` refines the contents of the volume.
use home_blocks.Prelude.{
  mul_bound, ℕ, zero, suc, ◌+◌, ◌-◌, ◌*◌, ◌/◌, ◌^◌, ◌≤◌, ◌<◌, ◌≡◌, refl, ap, sym, ◌∙◌, subst, List,
  [], ◌∷◌, ◌++◌, map, none, some, arith, ltb, replicate, length, All, Bool-cases, inl, inr, ltb→ge,
}
use home_blocks.Volume.ReadPlan.{
  IndexKv, BlkRun, cell_of, cells_from, cells_of_run, cells_of_runs, generate_blkids_to_read,
  generate_blkids_to_read-cells, generate_blkids_to_read-pos,
}
use home_blocks.Volume.Read.{
  u32, u64, sub64, IoReq, end_lba, Segment, cleared, clear_hole, submit_runs,
  submit_read_to_backend,
}
use home_blocks.Volume.Contents.{
  blocks_of_all, contents, Rises, Rises-le, Rises-from, contents-gap, contents-gap_run,
}
use mathlib.Core.List.{append-nil}
use native.Mathlib.Nat.{le_refl, mul-div_cancel, zero-div}

-- A product of two 32-bit words does not wrap in 64 bits.
u64_mul : (n blk_size : ℕ) → n < 2 ^ 32 → blk_size < 2 ^ 32 → u64 (n * blk_size) ≡ n * blk_size
u64_mul n blk_size h k =
    let small : n * blk_size ≤ (2 ^ 32 - 1) * (2 ^ 32 - 1) =
      mul_bound n blk_size (2 ^ 32 - 1) (2 ^ 32 - 1) (omega arith) (omega arith) in
    omega arith

clear_hole-blocks :
    (blk_size bytes : ℕ) (rest : List Segment)
    → blocks_of_all blk_size (clear_hole bytes rest)
      ≡ replicate (bytes / blk_size) none ++ blocks_of_all blk_size rest
clear_hole-blocks blk_size zero rest =
    ap (λ (n : ℕ). replicate n none ++ blocks_of_all blk_size rest) (sym (zero-div blk_size))
clear_hole-blocks blk_size (suc n) rest = refl

-- A hole of `n` blocks, as both tests compute it.
hole-blocks :
    (blk_size a b n : ℕ) (rest : List Segment)
    → 0 < blk_size
    → blk_size < 2 ^ 32
    → a < 2 ^ 32
    → b + n ≡ a
    → blocks_of_all blk_size (clear_hole (u64 (sub64 a b * blk_size)) rest)
      ≡ replicate n none ++ blocks_of_all blk_size rest
hole-blocks blk_size a b n rest h k l e =
    let size : u64 (sub64 a b * blk_size) ≡ n * blk_size =
      ap (λ (m : ℕ). u64 (m * blk_size)) {x = sub64 a b} {y = n} (omega arith)
      ∙ u64_mul n blk_size (omega arith) k in
    clear_hole-blocks blk_size (u64 (sub64 a b * blk_size)) rest
    ∙ ap (λ (m : ℕ). replicate m none ++ blocks_of_all blk_size rest)
        (ap (λ (m : ℕ). m / blk_size) size ∙ mul-div_cancel n h)

submit_runs-blocks :
    (runs : List BlkRun) (blk_size prev_lba prev_nblks cur k : ℕ) (req : IoReq)
    → 0 < blk_size
    → blk_size < 2 ^ 32
    → 0 < req.nlbas
    → req.lba + req.nlbas < 2 ^ 32
    → prev_lba + prev_nblks ≡ cur
    → cur + k ≡ req.lba + req.nlbas
    → Rises cur (req.lba + req.nlbas) (cells_of_runs runs)
    → All (λ r. 0 < r.blk_count) runs
    → blocks_of_all blk_size (submit_runs blk_size req prev_lba prev_nblks runs)
      ≡ contents (cells_of_runs runs) cur k
unfolding submit_runs end_lba
submit_runs-blocks [] blk_size p q cur k req h₀ h₁ h₂ h₃ e f rise pos =
    let hi = req.lba + req.nlbas in
    elim (Bool-cases (ltb (u32 (p + q)) (u64 (end_lba req + 1)))) [
      | inl g ↦ rw g (
          hole-blocks blk_size (u64 (end_lba req + 1)) (u32 (p + q)) k [] h₀ h₁ (omega arith)
            (omega arith)
          ∙ append-nil (replicate k none)
          ∙ sym (contents-gap k cur hi [] (omega arith)))
      | inr g ↦ rw g (
          ap (contents [] cur) {x = 0}
            (omega (arith, ltb→ge (u32 (p + q)) (u64 (end_lba req + 1)) g)))
    ]
submit_runs-blocks (r ∷ rs) blk_size p q cur k req h₀ h₁ h₂ h₃ e f rise pos =
    let hi = req.lba + req.nlbas in
    let (from, there, past) = Rises-from cur hi r (cells_of_runs rs) pos.0 rise in
    let fits = Rises-le (r.start_lba + r.blk_count) hi (cells_of_runs rs) past in
    let gap = r.start_lba - cur in
    let k' = hi - (r.start_lba + r.blk_count) in
    let small : r.start_lba + r.blk_count < 2 ^ 32 = omega arith in
    let whole : u64 (r.blk_count * blk_size) / blk_size ≡ r.blk_count =
      ap (λ (m : ℕ). m / blk_size) (u64_mul r.blk_count blk_size (omega (arith, small)) h₁)
      ∙ mul-div_cancel r.blk_count h₀ in
    let cells = λ (n : ℕ). map some (cells_from r.start_lba r.blk_num r.chunk_num n) in
    hole-blocks blk_size r.start_lba (u32 (p + q)) gap _ h₀ h₁ (omega arith) (omega arith)
    ∙ ap
        (λ (n : ℕ).
          replicate gap none
          ++ (cells n
              ++ blocks_of_all blk_size
                  (submit_runs blk_size req (u32 r.start_lba) (u32 r.blk_count) rs)))
        whole
    ∙ ap (λ bs. replicate gap none ++ (map some (cells_of_run r) ++ bs))
        (submit_runs-blocks rs blk_size (u32 r.start_lba) (u32 r.blk_count)
          (r.start_lba + r.blk_count) k' req h₀ h₁ h₂ h₃ (omega arith) (omega arith) past pos.1)
    ∙ sym (contents-gap_run gap k' cur r (cells_of_runs rs) hi (omega arith) there)
    ∙ ap (contents (cells_of_run r ++ cells_of_runs rs) cur) (omega arith)

-- A read of a volume below lba 2^32 fills the buffer with the contents of the volume: the block that
-- the index maps each lba to, in order, and zeros where it maps none. The index is assumed to answer
-- fewer than 2^16 entries of the requested range, whose lbas rise.
pub submit_read_to_backend-contents :
    (blk_size : ℕ) (req : IoReq) (kvs : List IndexKv)
    → 0 < blk_size
    → blk_size < 2 ^ 32
    → 0 < req.nlbas
    → req.lba + req.nlbas < 2 ^ 32
    → length kvs < 2 ^ 16
    → Rises req.lba (req.lba + req.nlbas) (map cell_of kvs)
    → blocks_of_all blk_size (submit_read_to_backend blk_size req (generate_blkids_to_read kvs))
      ≡ contents (map cell_of kvs) req.lba req.nlbas
unfolding submit_read_to_backend
submit_read_to_backend-contents blk_size req kvs h₀ h₁ h₂ h₃ few rise =
    let runs = generate_blkids_to_read kvs in
    let same = generate_blkids_to_read-cells kvs few in
    submit_runs-blocks runs blk_size (u32 req.lba) 0 req.lba req.nlbas req h₀ h₁ h₂ h₃ (omega arith)
      refl (subst (Rises req.lba (req.lba + req.nlbas)) (sym same) rise)
      (generate_blkids_to_read-pos kvs few)
    ∙ ap (λ cs. contents cs req.lba req.nlbas) same

clear_hole_pos : (n : ℕ) → 0 < n → (rest : List Segment) → clear_hole n rest ≡ cleared n ∷ rest
clear_hole_pos zero h rest = elim h [ ]
clear_hole_pos (suc n) h rest = refl

-- A read from lba 2^32 on, whose first run starts below lba 2^40, with blocks of fewer than 2^16 bytes:
-- the first lba is cut to 32 bits, and the read starts by clearing 2^32 blocks of its buffer or more,
-- however few it asks for.
pub submit_read_to_backend_truncates :
    (blk_size : ℕ) (req : IoReq) (r : BlkRun) (rs : List BlkRun)
    → 0 < blk_size
    → blk_size < 2 ^ 16
    → 2 ^ 32 ≤ req.lba
    → req.lba ≤ r.start_lba
    → r.start_lba < 2 ^ 40
    → (bytes : ℕ) × (rest : List Segment) × (submit_read_to_backend blk_size req (r ∷ rs)
        ≡ cleared bytes ∷ rest)
      × (2 ^ 32 * blk_size ≤ bytes)
unfolding submit_read_to_backend submit_runs
submit_read_to_backend_truncates blk_size req r rs h₀ h₁ h₂ h₃ h₄ =
    let hole = sub64 r.start_lba (u32 (u32 req.lba + 0)) in
    let above : 2 ^ 32 ≤ hole = omega arith in
    let below : hole ≤ 2 ^ 41 = omega arith in
    let enough : 2 ^ 32 * blk_size ≤ hole * blk_size =
      mul_bound (2 ^ 32) blk_size hole blk_size above (le_refl blk_size) in
    let bound : hole * blk_size ≤ 2 ^ 41 * 2 ^ 16 =
      mul_bound hole blk_size (2 ^ 41) (2 ^ 16) below (omega arith) in
    let size : u64 (hole * blk_size) ≡ hole * blk_size = omega arith in
    (u64 (hole * blk_size), _, clear_hole_pos _ (omega arith) _, omega arith)
