-- ===== src/Server/Format.antt =====
-- How new devices are laid out (homeblks_impl.cpp, `get_chunk_size` and `init_homestore`).
use home_blocks.Prelude.{
  ℕ, ◌+◌, ◌*◌, ◌%◌, ◌^◌, ◌≤◌, ◌<◌, ◌≡◌, ◌↔◌, ap, sym, ◌∙◌, Bool, true, false, ◌&&◌, List, [], ◌∷◌,
  Option, none, some, arith, if◌then◌else◌, All, Bool-cases, inl, inr,
}
use home_blocks.Server.Devices.{
  HsDevType, fast, slow, DevInfo, Devices, DeviceInfo, DriveType, get_dev_info, get_dev_info-flags,
  same_type, any_of,
}

-- `Mi` of hb_internal.hpp, and the block size of the data service.
abbrev pub mi : ℕ
mi = 1024 * 1024

abbrev pub data_blk_size : ℕ
data_blk_size = 4096

-- `hs_chunk_size_cfg_t`
pub record ChunkSizes : Type 0 where
  pub index : ℕ
  pub data_size : ℕ

-- A size in MB, from the command line or the configuration: the first product is one of 32-bit
-- numbers, the second one of 64-bit numbers.
unfoldable pub chunk_size : Option ℕ → ℕ → ℕ
chunk_size (some n) configured = n * 1024 * 1024 % 2 ^ 32
chunk_size none configured = configured * mi % 2 ^ 64

unfoldable pub get_chunk_size : Option ℕ → Option ℕ → ℕ → ℕ → ChunkSizes
get_chunk_size index_option data_option index_configured data_configured = record {
  index = chunk_size index_option index_configured;
  data_size = chunk_size data_option data_configured;
}

pub data Service : Type 0 where
  meta log index_service replication : Service

-- `hs_format_params`: the share of the devices of its type in percent, and 0 for what HomeStore works
-- out.
pub record FormatParams : Type 0 where
  pub service : Service
  pub dev_type : HsDevType
  pub size_pct : ℕ
  pub chunk_size : ℕ
  pub block_size : ℕ
  pub custom_selector : Bool

abbrev params : Service → HsDevType → ℕ → ℕ → ℕ → Bool → FormatParams
params s t pct size block custom = record {
  service = s;
  dev_type = t;
  size_pct = pct;
  chunk_size = size;
  block_size = block;
  custom_selector = custom;
}

unfoldable pub mixed_layout : ChunkSizes → List FormatParams
mixed_layout c =
    params meta fast 9 0 0 false
    ∷ params log fast 45 (32 * mi) 0 false
    ∷ params index_service fast 45 c.index 0 true
    ∷ params replication slow 95 c.data_size data_blk_size true
    ∷ []

unfoldable pub single_layout : HsDevType → ChunkSizes → List FormatParams
single_layout t c =
    params meta t 5 0 0 false
    ∷ params log t 10 (32 * mi) 0 false
    ∷ params index_service t 5 c.index 0 true
    ∷ params replication t 75 c.data_size data_blk_size true
    ∷ []

-- What `format_and_start` is given; `none` for no supported devices, where the process stops.
unfoldable pub layout : Devices → ChunkSizes → Option (List FormatParams)
unfolding mixed_layout single_layout
layout d c = elim d.dev_info [
  | [] ↦ none
  | e ∷ es ↦
      if d.has_data_dev && d.has_fast_dev
      then some (mixed_layout c)
      else some (single_layout (if d.has_fast_dev then fast else slow) c)
]

-- The percents that a layout takes of the devices of a type.
abbrev pub taken : HsDevType → List FormatParams → ℕ
taken t [] = 0
taken t (p ∷ ps) = (if same_type t p.dev_type then p.size_pct else 0) + taken t ps

-- A layout that fits the devices.
abbrev pub Fits : List DevInfo → List FormatParams → Type 0
Fits ds ps = All (λ p. any_of p.dev_type ds ≡ true) ps × ((t : HsDevType) → taken t ps ≤ 100)

taken_mixed : (c : ChunkSizes) (t : HsDevType) → taken t (mixed_layout c) ≤ 100
unfolding mixed_layout
taken_mixed c fast = omega arith
taken_mixed c slow = omega arith

taken_single : (u : HsDevType) (c : ChunkSizes) (t : HsDevType) → taken t (single_layout u c) ≤ 100
unfolding single_layout
taken_single fast c fast = omega arith
taken_single fast c slow = omega arith
taken_single slow c fast = omega arith
taken_single slow c slow = omega arith

mixed-Fits :
    (ds : List DevInfo) (c : ChunkSizes)
    → any_of slow ds ≡ true
    → any_of fast ds ≡ true
    → Fits ds (mixed_layout c)
unfolding mixed_layout
mixed-Fits ds c s f = ((f, (f, (f, (s, tt)))), taken_mixed c)

single-Fits :
    (ds : List DevInfo) (t : HsDevType) (c : ChunkSizes)
    → any_of t ds ≡ true
    → Fits ds (single_layout t c)
unfolding single_layout
single-Fits ds t c h = ((h, (h, (h, (h, tt)))), taken_single t c)

slow_or_fast :
    (d : DevInfo) (ds : List DevInfo) → any_of fast (d ∷ ds) ≡ false → any_of slow (d ∷ ds) ≡ true
slow_or_fast d ds h = ground (arith, h)

devices-Fits :
    (d : Devices) (c : ChunkSizes) (e : DevInfo) (es : List DevInfo)
    → d.dev_info ≡ e ∷ es
    → d.has_data_dev ≡ any_of slow d.dev_info
    → d.has_fast_dev ≡ any_of fast d.dev_info
    → (ps : List FormatParams) × (layout d c ≡ some ps) × Fits d.dev_info ps
unfolding layout
devices-Fits d c e es h has_slow has_fast = elim (Bool-cases d.has_fast_dev) [
  | inr f ↦
      let there = slow_or_fast e es (ap (any_of fast) (sym h) ∙ sym has_fast ∙ f) in
      (
        single_layout slow c,
        ground (arith, h, f),
        single-Fits d.dev_info slow c (ap (any_of slow) h ∙ there),
      )
  | inl f ↦ elim (Bool-cases d.has_data_dev) [
    | inl g ↦ (
      mixed_layout c,
      ground (arith, h, f, g),
      mixed-Fits d.dev_info c (sym has_slow ∙ g) (sym has_fast ∙ f),
    )
    | inr g ↦ (
      single_layout fast c,
      ground (arith, h, f, g),
      single-Fits d.dev_info fast c (sym has_fast ∙ f),
    )
  ]
]

-- With any supported device there is a layout; each of its services lies on a type of device that there
-- is, and the services together take at most the whole of the devices of each type.
pub layout-Fits :
    (type_of : ℕ → DriveType) (canonical : ℕ → ℕ) (ds : List DeviceInfo) (c : ChunkSizes)
    (e : DevInfo) (es : List DevInfo)
    → let found = get_dev_info type_of canonical ds in
      found.dev_info ≡ e ∷ es
      → (ps : List FormatParams) × (layout found c ≡ some ps) × Fits found.dev_info ps
layout-Fits type_of canonical ds c e es h =
    let found = get_dev_info type_of canonical ds in
    let (has_slow, has_fast) = get_dev_info-flags type_of canonical ds in
    devices-Fits found c e es h has_slow has_fast

-- The size that the command line gives is the one that the configuration gives for the same number of
-- MB exactly below 4096 MB; from there on it is what is left over 2^32.
pub chunk_size_iff :
    (n configured : ℕ)
    → n < 2 ^ 32
    → (chunk_size (some n) configured ≡ chunk_size none n) ↔ (n < 4096)
unfolding chunk_size
chunk_size_iff n configured h = (λ e. omega arith, λ k. omega arith)
