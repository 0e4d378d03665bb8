-- ===== src/Chunks/Count.antt =====
-- In how many places a chunk is: in the pools of the free chunks and in the volumes.
use home_blocks.Prelude.{
  ℕ, zero, suc, ◌+◌, ◌≤◌, ◌<◌, ◌≡◌, refl, ◌∙◌, Bool, true, false, List, [], ◌∷◌, Option, none, some,
  arith, leb, ◌==◌, length, set, take, drop, replicate, Bool-cases, Option-cases, subst, inl, inr,
}
use home_blocks.Chunks.State.{
  Chunk, VolumeChunksInfo, Pool, Selector, emplace, add_to_pools, volume_at, present, place,
}
use home_blocks.Chunks.Ops.{from_pdev, resize_from, add_all}
use home_blocks.Chunks.Recovery.{erase, erase_pool}

abbrev pub one : Bool → ℕ
one true = 1
one false = 0

-- How often the chunk with an id is in a list.
abbrev pub count : ℕ → List Chunk → ℕ
count x [] = 0
count x (c ∷ cs) = one (c.chunk_id == x) + count x cs

abbrev pub count_free : ℕ → List Pool → ℕ
count_free x [] = 0
count_free x (p ∷ ps) = count x p.chunks + count_free x ps

abbrev pub count_volume : ℕ → Option VolumeChunksInfo → ℕ
count_volume x none = 0
count_volume x (some v) = count x (present v.chunks)

abbrev pub count_owned : ℕ → List (Option VolumeChunksInfo) → ℕ
count_owned x [] = 0
count_owned x (v ∷ vs) = count_volume x v + count_owned x vs

abbrev pub places : ℕ → Selector → ℕ
places x s = count_free x s.per_dev_chunks + count_owned x s.volume_chunks

pub count-take-drop :
    (x n : ℕ) (cs : List Chunk) → count x (take n cs) + count x (drop n cs) ≡ count x cs
count-take-drop x zero cs = omega arith
count-take-drop x (suc n) [] = refl
count-take-drop x (suc n) (c ∷ cs) = omega (arith, count-take-drop x n cs)

pub from_pdev-count :
    (x init total : ℕ) (pools : List Pool)
    → count x (from_pdev init total pools).0 + count_free x (from_pdev init total pools).1
      ≡ count_free x pools
unfolding from_pdev
from_pdev-count x init total [] = refl
from_pdev-count x init total (p ∷ ps) = elim (Bool-cases (leb total (length p.chunks))) [
  | inl e ↦ rw e (omega (arith, count-take-drop x init p.chunks))
  | inr e ↦ rw e (omega (arith, from_pdev-count x init total ps))
]

-- Writing a slot.
pub count_owned-set :
    (x i : ℕ) (vs : List (Option VolumeChunksInfo)) (v : Option VolumeChunksInfo)
    → i < length vs
    → count_owned x (set vs i v) + count_volume x (volume_at i vs)
      ≡ count_owned x vs + count_volume x v
count_owned-set x i [] v h = absurd (omega arith)
count_owned-set x zero (w ∷ ws) v h = omega arith
count_owned-set x (suc i) (w ∷ ws) v h = omega (arith, count_owned-set x i ws v (omega arith))

pub present-empty : (n : ℕ) → present (replicate n none) ≡ []
present-empty zero = refl
present-empty (suc n) = present-empty n

-- Chunks that are put behind the first `n` slots, where no slot is in use.
abbrev pub Vacant : ℕ → List (Option Chunk) → Type 0
Vacant n [] = Unit
Vacant zero (none ∷ ss) = Vacant zero ss
Vacant zero (some c ∷ ss) = ⊥
Vacant (suc n) (s ∷ ss) = Vacant n ss

pub count-place :
    (x n : ℕ) (cs : List Chunk) (ss : List (Option Chunk))
    → Vacant n ss
    → n + length cs ≤ length ss
    → count x (present (place n cs ss)) ≡ count x (present ss) + count x cs
count-place x n [] [] vacant room = refl
count-place x n (c ∷ cs) [] vacant room = absurd (omega arith)
count-place x zero [] (s ∷ ss) vacant room = omega arith
count-place x zero (c ∷ cs) (none ∷ ss) vacant room =
    omega (arith, count-place x zero cs ss vacant (omega arith))
count-place x zero (c ∷ cs) (some d ∷ ss) vacant room = elim vacant [ ]
count-place x (suc n) cs (none ∷ ss) vacant room = count-place x n cs ss vacant (omega arith)
count-place x (suc n) cs (some d ∷ ss) vacant room =
    omega (arith, count-place x n cs ss vacant (omega arith))

pub Vacant-place :
    (n : ℕ) (cs : List Chunk) (ss : List (Option Chunk))
    → Vacant n ss
    → Vacant (n + length cs) (place n cs ss)
Vacant-place n cs [] vacant = tt
Vacant-place zero [] (s ∷ ss) vacant = vacant
Vacant-place zero (c ∷ cs) (none ∷ ss) vacant =
    subst (λ (m : ℕ). Vacant m (some c ∷ place zero cs ss)) {x = suc (0 + length cs)} (omega arith)
      (Vacant-place zero cs ss vacant)
Vacant-place zero (c ∷ cs) (some d ∷ ss) vacant = elim vacant [ ]
Vacant-place (suc n) cs (s ∷ ss) vacant =
    subst (λ (m : ℕ). Vacant m (s ∷ place n cs ss)) {x = suc (n + length cs)} (omega arith)
      (Vacant-place n cs ss vacant)

pub Vacant-empty : (n : ℕ) → Vacant 0 (replicate n none)
Vacant-empty zero = tt
Vacant-empty (suc n) = Vacant-empty n

pub count-emplace :
    (x : ℕ) (c : Chunk) (cs : List Chunk)
    → count c.chunk_id cs ≡ 0
    → count x (emplace c cs) ≡ one (c.chunk_id == x) + count x cs
unfolding emplace
count-emplace x c [] h = refl
count-emplace x c (d ∷ ds) h = elim (Bool-cases (d.chunk_id == c.chunk_id)) [
  | inl e ↦ absurd (ground (arith, h, e))
  | inr e ↦ rw e (omega (arith, count-emplace x c ds (omega arith)))
]

pub count_free-add :
    (x : ℕ) (c : Chunk) (pools : List Pool)
    → count_free c.chunk_id pools ≡ 0
    → count_free x (add_to_pools c pools) ≡ one (c.chunk_id == x) + count_free x pools
unfolding add_to_pools
count_free-add x c [] h = omega arith
count_free-add x c (p ∷ ps) h = elim (Bool-cases (p.pdev == c.pdev_id)) [
  | inl e ↦ rw e (omega (arith, count-emplace x c p.chunks (omega arith)))
  | inr e ↦ rw e (omega (arith, count_free-add x c ps (omega arith)))
]

one_self : (a : ℕ) → one (a == a) ≡ 1
one_self a = ground arith

-- Chunks that are nowhere twice go back to the pools.
pub count_free-add_all :
    (cs : List Chunk) (pools : List Pool)
    → ((y : ℕ) → count_free y pools + count y cs ≤ 1)
    → (x : ℕ) → count_free x (add_all cs pools) ≡ count_free x pools + count x cs
count_free-add_all [] pools h x = omega arith
count_free-add_all (c ∷ cs) pools h x =
    let added : (y : ℕ)
        → count_free y (add_to_pools c pools) ≡ one (c.chunk_id == y) + count_free y pools =
      λ y. count_free-add y c pools (omega (arith, h c.chunk_id, one_self c.chunk_id)) in
    count_free-add_all cs (add_to_pools c pools) (λ y. omega (arith, h y, added y)) x
    ∙ omega (arith, added x)

pub count-erase :
    (x id : ℕ) (cs ds : List Chunk)
    → erase id cs ≡ some ds
    → count x cs ≡ one (id == x) + count x ds
count-erase x id [] ds h = ground arith
count-erase x id (c ∷ cs) ds h = elim (Bool-cases (c.chunk_id == id)) [
  | inl e ↦ ground (arith, h, e)
  | inr e ↦ elim (Option-cases (erase id cs)) [
    | inl n ↦ ground (arith, h, e, n)
    | inr (es, n) ↦ ground (arith, h, e, n, count-erase x id cs es n)
  ]
]

pub count_free-erase :
    (x pdev id : ℕ) (ps qs : List Pool)
    → erase_pool pdev id ps ≡ some qs
    → count_free x ps ≡ one (id == x) + count_free x qs
count_free-erase x pdev id [] qs h = ground arith
count_free-erase x pdev id (p ∷ ps) qs h = elim (Bool-cases (p.pdev == pdev)) [
  | inl e ↦ elim (Option-cases (erase id p.chunks)) [
    | inl n ↦ ground (arith, h, e, n)
    | inr (cs, n) ↦ ground (arith, h, e, n, count-erase x id p.chunks cs n)
  ]
  | inr e ↦ elim (Option-cases (erase_pool pdev id ps)) [
    | inl n ↦ ground (arith, h, e, n)
    | inr (rs, n) ↦ ground (arith, h, e, n, count_free-erase x pdev id ps rs n)
  ]
]

pub resize_from-count :
    (x pdev n : ℕ) (ps : List Pool) (cs : List Chunk) (qs : List Pool)
    → resize_from pdev n ps ≡ some (cs, qs)
    → count x cs + count_free x qs ≡ count_free x ps
unfolding resize_from
resize_from-count x pdev n [] cs qs h = ground arith
resize_from-count x pdev n (p ∷ ps) cs qs h = elim (Bool-cases (p.pdev == pdev)) [
  | inl e ↦ ground (arith, h, e, count-take-drop x n p.chunks)
  | inr e ↦ elim (Option-cases (resize_from pdev n ps)) [
    | inl f ↦ ground (arith, h, e, f)
    | inr (r, f) ↦ ground (arith, h, e, f, resize_from-count x pdev n ps r.0 r.1 f)
  ]
]
