-- ===== src/Chunks/Select.antt =====
-- `VolumeChunkSelector::select_chunk` (volume/volume_chunk_selector.cpp): the chunk that the next
-- blocks of a volume come from.
use home_blocks.Prelude.{
  ℕ, zero, suc, ◌+◌, ◌-◌, ◌*◌, ◌%◌, ◌^◌, ◌<◌, ◌≡◌, ◌≢◌, ap, sym, ◌∙◌, Bool, false, ◌&&◌, ◌||◌, List,
  [], ◌∷◌, Option, none, some, arith, ltb, leb, leb→le, if◌then◌else◌, set, Bool-cases,
  Option-cases, inl, inr,
}
use native.Mathlib.Nat.{mod-lt, mod-add-mod, add-mod_right, mod-eq_of_lt}
use home_blocks.Chunks.State.{Chunk, VolumeChunksInfo, Selector, volume_at, present}
use home_blocks.Chunks.Ops.{sum_of, resize_volume_num_chunks}

-- The chunk at an index, if there is one and it has blocks left.
abbrev pub usable : (Chunk → ℕ) → List (Option Chunk) → ℕ → Option Chunk
usable available [] i = none
usable available (none ∷ ss) zero = none
usable available (some c ∷ ss) zero = if ltb 0 (available c) then some c else none
usable available (s ∷ ss) (suc i) = usable available ss i

-- The rounds over the active chunks, and the 32-bit cursor that they leave behind.
unfoldable pub sweep : (Chunk → ℕ) → List (Option Chunk) → ℕ → ℕ → ℕ → Option Chunk × ℕ
sweep available slots active zero cursor = (none, cursor)
sweep available slots active (suc n) cursor =
    let later = sweep available slots active n ((cursor + 1) % 2 ^ 32) in
    elim (usable available slots (cursor % active)) [
      | some c ↦ (some c, (cursor + 1) % 2 ^ 32)
      | none ↦ later
    ]

pub data Selected : Type 0 where
  no_chunk : Selected
  chosen : Chunk → Selected
  wait : Selected

-- `usage_ratio < 0.5`, where 0 / 0 is not below.
abbrev pub is_short : ℕ → ℕ → ℕ → Bool
is_short nblks available total = ltb available nblks || ltb (2 * available) total

abbrev pub outcome_of : Option Chunk → Selected
outcome_of none = wait
outcome_of (some c) = chosen c

-- One turn of the `do` loop. `total` and `free` are the blocks that were counted before it. The answer
-- has the new state, whether a task that adds chunks is started, and what is selected.
unfoldable pub select_round :
    (Chunk → ℕ) → ℕ → ℕ → VolumeChunksInfo → ℕ → ℕ → Selector → (Selector × Bool) × Selected
select_round available nblks ordinal v total free s =
    let (s', started) =
      if is_short nblks free total && ltb v.num_active_chunks v.max_num_chunks
      then resize_volume_num_chunks available nblks v s
      else (s, false) in
    let (found, cursor) =
      sweep available v.chunks v.num_active_chunks v.num_active_chunks v.next_chunk_index in
    (
      (
        record s' {
          volume_chunks =
              set s'.volume_chunks ordinal (some record v { next_chunk_index = cursor });
        },
        started,
      ),
      outcome_of found,
    )

-- The call up to its first turn: without a hint or a volume there is no chunk.
unfoldable pub select_chunk : (Chunk → ℕ) → ℕ → Option ℕ → Selector → (Selector × Bool) × Selected
select_chunk available nblks none s = ((s, false), no_chunk)
select_chunk available nblks (some ordinal) s = elim (volume_at ordinal s.volume_chunks) [
  | none ↦ ((s, false), no_chunk)
  | some v ↦
      select_round available nblks ordinal v (sum_of (λ c. c.total_blks) (present v.chunks))
        (sum_of available (present v.chunks)) s
]

-- A sweep that finds nothing has looked at every index that its cursor passed.
sweep-none :
    (available : Chunk → ℕ) (slots : List (Option Chunk)) (active n cursor j : ℕ)
    → cursor + n < 2 ^ 32
    → j < n
    → (sweep available slots active n cursor).0 ≡ none
    → usable available slots ((cursor + j) % active) ≡ none
unfolding sweep
sweep-none available slots active zero cursor j h k e = absurd (omega arith)
sweep-none available slots active (suc n) cursor j h k e =
    elim (Option-cases (usable available slots (cursor % active))) [
      | inr (c, f) ↦ ground (arith, e, f)
      | inl f ↦
          elim j as (λ (i : ℕ). i < suc n → usable available slots ((cursor + i) % active) ≡ none) [
            | zero ↦ λ _.
                ap (λ (i : ℕ). usable available slots (i % active)) {x = cursor + 0} (omega arith)
                ∙ f
            | suc i ↦ λ small.
                ap (λ (m : ℕ). usable available slots (m % active)) {x = cursor + suc i}
                  {y = cursor + 1 + i} (omega arith)
                ∙ sweep-none available slots active n (cursor + 1) i (omega arith) (omega arith)
                    (later f)
          ]
            k
    ]
  where
    later :
        usable available slots (cursor % active) ≡ none
        → (sweep available slots active n (cursor + 1)).0 ≡ none
    later f =
        ap (λ (m : ℕ). (sweep available slots active n m).0) {y = (cursor + 1) % 2 ^ 32}
          (omega arith)
        ∙ ground (arith, e, f)

-- Every index is passed within as many rounds as there are chunks.
passed : (active cursor i : ℕ) → i < active → (j : ℕ) × (j < active) × ((cursor + j) % active ≡ i)
passed active cursor i h =
    let r = cursor % active in
    let small : r < active = mod-lt cursor (omega arith) in
    elim (Bool-cases (leb r i)) [
      | inl e ↦
          let below = leb→le r i e in
          (
            i - r,
            omega arith,
            sym (mod-add-mod cursor active (i - r))
                ∙ ap (λ (m : ℕ). m % active) {x = r + (i - r)} {y = i} (omega arith)
                ∙ mod-eq_of_lt h,
          )
      | inr e ↦
          let above : i < r = ground arith in
          (
            i + active - r,
            omega arith,
            sym (mod-add-mod cursor active (i + active - r))
                ∙ ap (λ (m : ℕ). m % active) {x = r + (i + active - r)} {y = i + active}
                    (omega arith)
                ∙ add-mod_right i active
                ∙ mod-eq_of_lt h,
          )
    ]

-- If one of the active chunks has blocks left, then the sweep of a turn selects a chunk, wherever the
-- cursor stands, as long as it does not wrap during the sweep.
pub sweep-finds :
    (available : Chunk → ℕ) (slots : List (Option Chunk)) (active cursor i : ℕ) (c : Chunk)
    → i < active
    → cursor + active < 2 ^ 32
    → usable available slots i ≡ some c
    → (sweep available slots active active cursor).0 ≢ none
sweep-finds available slots active cursor i c h room there e =
    let (j, k, at) = passed active cursor i h in
    let empty =
      sym (ap (usable available slots) at)
      ∙ sweep-none available slots active active cursor j room k e in
    ground (arith, there, empty)
