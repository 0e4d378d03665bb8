-- ===== src/Volume/Contents.antt =====
-- What a read puts into the buffer, block by block: the block that the index maps the lba to, or
-- zeros.
use home_blocks.Prelude.{
  ℕ, zero, suc, ◌+◌, ◌/◌, ◌≤◌, ◌<◌, ◌≡◌, refl, ap, ap₂, sym, ◌∙◌, subst, List, [], ◌∷◌, ◌++◌, map,
  Option, none, some, arith, ◌==◌, if◌then◌else◌, replicate,
}
use home_blocks.Volume.ReadPlan.{BlkRun, Cell, cells_from, cells_of_run}
use home_blocks.Volume.Read.{Segment, cleared, from_run}
use native.Mathlib.Nat.{le_refl}

-- The blocks of a segment: `none` is a block of zeros. A read of `bytes` bytes from a run brings as many
-- blocks as there are in these bytes.
abbrev pub blocks_of : ℕ → Segment → List (Option Cell)
blocks_of blk_size (cleared bytes) = replicate (bytes / blk_size) none
blocks_of blk_size (from_run r bytes) =
    map some (cells_from r.start_lba r.blk_num r.chunk_num (bytes / blk_size))

abbrev pub blocks_of_all : ℕ → List Segment → List (Option Cell)
blocks_of_all blk_size [] = []
blocks_of_all blk_size (s ∷ ss) = blocks_of blk_size s ++ blocks_of_all blk_size ss

abbrev pub find : ℕ → List Cell → Option Cell
find l [] = none
find l (c ∷ cs) = if c.lba == l then some c else find l cs

-- What the volume holds at the `n` lbas from `lba` on.
abbrev pub contents : List Cell → ℕ → ℕ → List (Option Cell)
contents cs lba zero = []
contents cs lba (suc n) = find lba cs ∷ contents cs (lba + 1) n

-- The lbas of the list rise, from `lo` on and below `hi`.
abbrev pub Rises : ℕ → ℕ → List Cell → Type 0
Rises lo hi [] = lo ≤ hi
Rises lo hi (c ∷ cs) = (lo ≤ c.lba) × (c.lba < hi) × Rises (c.lba + 1) hi cs

pub Rises-le : (lo hi : ℕ) (cs : List Cell) → Rises lo hi cs → lo ≤ hi
Rises-le lo hi [] h = h
Rises-le lo hi (c ∷ cs) h = omega (arith, h.0, h.1)

pub Rises-weaken : (lo hi more : ℕ) (cs : List Cell) → hi ≤ more → Rises lo hi cs → Rises lo more cs
Rises-weaken lo hi more [] h rise = omega arith
Rises-weaken lo hi more (c ∷ cs) h rise =
    (rise.0, omega (arith, rise.1), Rises-weaken (c.lba + 1) hi more cs h rise.2)

-- Below the first lba nothing is found.
pub find_below : (l lo hi : ℕ) (cs : List Cell) → l < lo → Rises lo hi cs → find l cs ≡ none
find_below l lo hi [] h r = refl
find_below l lo hi (c ∷ cs) h r =
    ground (arith, find_below l (c.lba + 1) hi cs (omega (arith, r.0)) r.2)

pub contents-gap :
    (n lba hi : ℕ) (cs : List Cell) → Rises (lba + n) hi cs → contents cs lba n ≡ replicate n none
contents-gap zero lba hi cs r = refl
contents-gap (suc n) lba hi cs r =
    ap₂ ◌∷◌ (find_below lba (lba + suc n) hi cs (omega arith) r)
      (contents-gap n (lba + 1) hi cs (subst (λ (l : ℕ). Rises l hi cs) (omega arith) r))

pub contents-append :
    (m n lba : ℕ) (cs : List Cell)
    → contents cs lba (m + n) ≡ contents cs lba m ++ contents cs (lba + m) n
contents-append zero n lba cs = ap₂ (λ (k l : ℕ). contents cs l k) (omega arith) (omega arith)
contents-append (suc m) n lba cs =
    ap (contents cs lba) (suc_add m n)
    ∙ ap (λ t. find lba cs ∷ t)
        (contents-append m n (lba + 1) cs
          ∙ ap (λ (l : ℕ). contents cs (lba + 1) m ++ contents cs l n) (omega arith))
  where
    suc_add : (a b : ℕ) → suc a + b ≡ suc (a + b)
    suc_add a b = omega arith

contents-skip :
    (n lba : ℕ) (c : Cell) (cs : List Cell)
    → c.lba < lba
    → contents (c ∷ cs) lba n ≡ contents cs lba n
contents-skip zero lba c cs h = refl
contents-skip (suc n) lba c cs h =
    ap₂ ◌∷◌ (ground arith) (contents-skip n (lba + 1) c cs (omega arith))

pub contents-run :
    (n lba blk_num chunk_num : ℕ) (cs : List Cell)
    → contents (cells_from lba blk_num chunk_num n ++ cs) lba n
      ≡ map some (cells_from lba blk_num chunk_num n)
contents-run zero lba blk_num chunk_num cs = refl
contents-run (suc n) lba blk_num chunk_num cs = ap₂ ◌∷◌ (ground arith) (
    contents-skip n (lba + 1) _ (cells_from (lba + 1) (blk_num + 1) chunk_num n ++ cs) (omega arith)
    ∙ contents-run n (lba + 1) (blk_num + 1) chunk_num cs)

contents-past :
    (n k l lba blk_num chunk_num : ℕ) (cs : List Cell)
    → lba + n ≤ l
    → contents (cells_from lba blk_num chunk_num n ++ cs) l k ≡ contents cs l k
contents-past zero k l lba blk_num chunk_num cs h = refl
contents-past (suc n) k l lba blk_num chunk_num cs h =
    contents-skip k l _ (cells_from (lba + 1) (blk_num + 1) chunk_num n ++ cs) (omega arith)
    ∙ contents-past n k l (lba + 1) (blk_num + 1) chunk_num cs (omega arith)

pub Rises-past :
    (n hi lba blk_num chunk_num : ℕ) (cs : List Cell)
    → Rises lba hi (cells_from lba blk_num chunk_num n ++ cs)
    → Rises (lba + n) hi cs
Rises-past zero hi lba blk_num chunk_num cs r = subst (λ (l : ℕ). Rises l hi cs) (omega arith) r
Rises-past (suc n) hi lba blk_num chunk_num cs r =
    subst (λ (l : ℕ). Rises l hi cs) (omega arith)
      (Rises-past n hi (lba + 1) (blk_num + 1) chunk_num cs r.2)

pub Rises-from :
    (lo hi : ℕ) (r : BlkRun) (cs : List Cell)
    → 0 < r.blk_count
    → Rises lo hi (cells_of_run r ++ cs)
    → (lo ≤ r.start_lba)
      × Rises r.start_lba hi (cells_of_run r ++ cs)
      × Rises (r.start_lba + r.blk_count) hi cs
Rises-from lo hi r cs h rise = go r.blk_count h rise
  where
    go :
        (n : ℕ)
        → 0 < n
        → Rises lo hi (cells_from r.start_lba r.blk_num r.chunk_num n ++ cs)
        → (lo ≤ r.start_lba)
          × Rises r.start_lba hi (cells_from r.start_lba r.blk_num r.chunk_num n ++ cs)
          × Rises (r.start_lba + n) hi cs
    go zero h rise = elim h [ ]
    go (suc n) h rise = (
      rise.0,
      (le_refl _, rise.1, rise.2),
      Rises-past (suc n) hi r.start_lba r.blk_num r.chunk_num cs (le_refl _, rise.1, rise.2),
    )

-- A run of blocks behind a gap.
pub contents-gap_run :
    (gap k lba : ℕ) (r : BlkRun) (cs : List Cell) (hi : ℕ)
    → lba + gap ≡ r.start_lba
    → Rises r.start_lba hi (cells_of_run r ++ cs)
    → contents (cells_of_run r ++ cs) lba (gap + (r.blk_count + k))
      ≡ replicate gap none
        ++ (map some (cells_of_run r) ++ contents cs (r.start_lba + r.blk_count) k)
contents-gap_run gap k lba r cs hi e rise =
    let all = cells_of_run r ++ cs in
    contents-append gap (r.blk_count + k) lba all
    ∙ ap₂ ◌++◌ (contents-gap gap lba hi all (subst (λ (l : ℕ). Rises l hi all) (sym e) rise)) (
        ap (λ (l : ℕ). contents all l (r.blk_count + k)) e
        ∙ contents-append r.blk_count k r.start_lba all
        ∙ ap₂ ◌++◌ (contents-run r.blk_count r.start_lba r.blk_num r.chunk_num cs) (
            contents-past r.blk_count k (r.start_lba + r.blk_count) r.start_lba r.blk_num
              r.chunk_num cs (le_refl _)))
