-- ===== src/Volume/Checksum.antt =====
-- `verify_checksum` (volume/volume.cpp) checks each entry's block where the read has put it.
use home_blocks.Prelude.{
  mul_bound, ℕ, zero, suc, ◌+◌, ◌-◌, ◌*◌, ◌^◌, ◌≤◌, ◌<◌, ◌≡◌, refl, ap, ap₂, sym, ◌∙◌, Bool, true,
  false, ◌&&◌, List, [], ◌∷◌, map, some, arith, ◌==◌, if◌then◌else◌, length, Bool-cases, ==_iff,
  inl, inr,
}
use home_blocks.Prelude.Errors.{Status, ok, err, crc_mismatch}
use home_blocks.Volume.ReadPlan.{IndexKv, cell_of}
use home_blocks.Volume.Read.{u64, sub64, IoReq, verify_loop, verify_checksum}
use home_blocks.Volume.Contents.{Rises}
use native.Mathlib.Nat.{le_refl, add-mul}

-- The block of each entry has the entry's checksum. The block of an lba is `lba - first` blocks into
-- the buffer.
abbrev pub all_match : (ℕ → ℕ) → ℕ → ℕ → List IndexKv → Bool
all_match block_crc blk_size first [] = true
all_match block_crc blk_size first (kv ∷ kvs) =
    block_crc ((kv.lba - first) * blk_size) == kv.checksum && all_match block_crc blk_size first kvs

abbrev pub verdict : Bool → Status
verdict true = ok tt
verdict false = err crc_mismatch

offset_bound : (n blk_size : ℕ) → n ≤ 2 ^ 40 → blk_size < 2 ^ 16 → n * blk_size ≤ 2 ^ 40 * 2 ^ 16
offset_bound n blk_size h k = mul_bound n blk_size (2 ^ 40) (2 ^ 16) h (omega arith)

offset_skip :
    (first cur lba blk_size : ℕ)
    → first ≤ cur
    → cur ≤ lba
    → lba < 2 ^ 40
    → blk_size < 2 ^ 16
    → u64 ((cur - first) * blk_size + sub64 lba cur * blk_size) ≡ (lba - first) * blk_size
offset_skip first cur lba blk_size h₀ h₁ h₂ h₃ =
    let sum : (cur - first) * blk_size + sub64 lba cur * blk_size ≡ (lba - first) * blk_size =
      sym (add-mul (cur - first) (sub64 lba cur) blk_size)
      ∙ ap (λ (n : ℕ). n * blk_size) {x = (cur - first) + sub64 lba cur} {y = lba - first}
          (omega arith) in
    omega (arith, offset_bound (lba - first) blk_size (omega arith) h₃)

offset_next :
    (first lba blk_size : ℕ)
    → first ≤ lba
    → lba < 2 ^ 40
    → blk_size < 2 ^ 16
    → u64 ((lba - first) * blk_size + blk_size) ≡ (lba + 1 - first) * blk_size
offset_next first lba blk_size h₀ h₁ h₂ =
    let sum : (lba - first) * blk_size + 1 * blk_size ≡ (lba + 1 - first) * blk_size =
      sym (add-mul (lba - first) 1 blk_size)
      ∙ ap (λ (n : ℕ). n * blk_size) {x = (lba - first) + 1} {y = lba + 1 - first} (omega arith) in
    omega (arith, offset_bound (lba + 1 - first) blk_size (omega arith) h₂)

-- The round for the entry at the current lba.
verify_entry :
    (block_crc : ℕ → ℕ) (blk_size fuel offset : ℕ) (kv : IndexKv) (kvs : List IndexKv)
    → verify_loop block_crc blk_size (suc fuel) kv.lba offset (kv ∷ kvs) ≡ (
        if block_crc offset == kv.checksum
        then verify_loop block_crc blk_size fuel (u64 (kv.lba + 1)) (u64 (offset + blk_size)) kvs
        else some (err crc_mismatch))
unfolding verify_loop
verify_entry block_crc blk_size fuel offset kv kvs =
    rw ((==_iff kv.lba kv.lba).1 refl, verify_loop)
      (elim (Bool-cases (block_crc offset == kv.checksum)) [
        | inl e ↦ rw e refl
        | inr e ↦ rw e refl
      ])

verify_skip :
    (block_crc : ℕ → ℕ) (blk_size fuel cur offset : ℕ) (kv : IndexKv) (kvs : List IndexKv)
    → (cur == kv.lba) ≡ false
    → verify_loop block_crc blk_size (suc fuel) cur offset (kv ∷ kvs)
      ≡ verify_loop block_crc blk_size fuel kv.lba
          (u64 (offset + sub64 kv.lba cur * blk_size))
          (kv ∷ kvs)
unfolding verify_loop
verify_skip block_crc blk_size fuel cur offset kv kvs e = rw (e, verify_loop) refl

module _ (block_crc : ℕ → ℕ) (blk_size first : ℕ) (small : blk_size < 2 ^ 16) where
  at_entry :
      (kv : IndexKv) (kvs : List IndexKv) (fuel : ℕ)
      → first ≤ kv.lba
      → kv.lba < 2 ^ 40
      → verify_loop block_crc blk_size fuel (kv.lba + 1) ((kv.lba + 1 - first) * blk_size) kvs
        ≡ some (verdict (all_match block_crc blk_size first kvs))
      → verify_loop block_crc blk_size (suc fuel) kv.lba ((kv.lba - first) * blk_size) (kv ∷ kvs)
        ≡ some (verdict (all_match block_crc blk_size first (kv ∷ kvs)))
  at_entry kv kvs fuel le lt later =
      verify_entry block_crc blk_size fuel _ kv kvs
      ∙ elim (Bool-cases (block_crc ((kv.lba - first) * blk_size) == kv.checksum)) [
        | inl e ↦ rw e (
            ap₂ (λ (c o : ℕ). verify_loop block_crc blk_size fuel c o kvs) (omega arith)
              (offset_next first kv.lba blk_size le lt small)
            ∙ later)
        | inr e ↦ rw e refl
      ]

  verify_loop-all_match :
      (kvs : List IndexKv) (fuel cur : ℕ)
      → length kvs + length kvs < fuel
      → first ≤ cur
      → Rises cur (2 ^ 40) (map cell_of kvs)
      → verify_loop block_crc blk_size fuel cur ((cur - first) * blk_size) kvs
        ≡ some (verdict (all_match block_crc blk_size first kvs))
  unfolding verify_loop
  verify_loop-all_match kvs zero cur h le rise = elim h [ ]
  verify_loop-all_match [] (suc fuel) cur h le rise = refl
  verify_loop-all_match (kv ∷ kvs) (suc zero) cur h le rise = absurd (omega arith)
  verify_loop-all_match (kv ∷ kvs) (suc (suc fuel)) cur h le rise =
      elim (Bool-cases (cur == kv.lba)) [
        | inl e ↦
            let same : cur ≡ kv.lba = (==_iff cur kv.lba).0 e in
            ap
              (λ (c : ℕ).
                verify_loop block_crc blk_size (suc (suc fuel)) c ((c - first) * blk_size)
                  (kv ∷ kvs))
              same
            ∙ at_entry kv kvs (suc fuel) (omega (arith, rise.0)) rise.1 (
                verify_loop-all_match kvs (suc fuel) (kv.lba + 1) (omega arith)
                  (omega (arith, rise.0)) rise.2)
        | inr e ↦
            verify_skip block_crc blk_size (suc fuel) cur _ kv kvs e
            ∙ ap (λ (o : ℕ). verify_loop block_crc blk_size (suc fuel) kv.lba o (kv ∷ kvs))
                (offset_skip first cur kv.lba blk_size le rise.0 rise.1 small)
            ∙ at_entry kv kvs fuel (omega (arith, rise.0)) rise.1 (
                verify_loop-all_match kvs fuel (kv.lba + 1) (omega arith) (omega (arith, rise.0))
                  rise.2)
      ]

-- With two rounds of fuel for each entry and one more, `verify_checksum` ends, and accepts the read
-- exactly if the block at each entry's place in the buffer has the entry's checksum. The entries'
-- lbas rise from the first lba of the request on and lie below 2^40, the block size below 2^16.
pub verify_checksum-all_match :
    (block_crc : ℕ → ℕ) (blk_size fuel : ℕ) (req : IoReq) (kvs : List IndexKv)
    → blk_size < 2 ^ 16
    → length kvs + length kvs < fuel
    → Rises req.lba (2 ^ 40) (map cell_of kvs)
    → verify_checksum block_crc blk_size req fuel kvs
      ≡ some (verdict (all_match block_crc blk_size req.lba kvs))
unfolding verify_checksum
verify_checksum-all_match block_crc blk_size fuel req kvs small enough rise =
    ap (λ (o : ℕ). verify_loop block_crc blk_size fuel req.lba o kvs) {x = 0}
      {y = (req.lba - req.lba) * blk_size}
      (omega
        (arith, mul_bound (req.lba - req.lba) blk_size 0 blk_size (omega arith) (le_refl blk_size)))
    ∙ verify_loop-all_match block_crc blk_size req.lba small kvs fuel req.lba enough (le_refl _)
        rise
