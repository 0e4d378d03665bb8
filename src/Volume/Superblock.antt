-- ===== src/Volume/Superblock.antt =====
-- The superblock of a volume, `vol_sb_t` (volume/volume.hpp), and what a volume is made from: its
-- `volume_info` (include/homeblks/home_blocks.hpp), or the superblock (volume/volume.cpp).
use home_blocks.Prelude.{
  ℕ, zero, suc, ◌-◌, ◌*◌, ◌/◌, ◌%◌, ◌^◌, ◌<◌, ◌≡◌, refl, ap, List, [], ◌∷◌, ◌++◌, Option, none,
  some, arith, ◌==◌, if◌then◌else◌, length, take, Bool-cases, inl, inr,
}
use home_blocks.Manager.State.{VolumeState}

abbrev pub vol_sb_magic : ℕ
vol_sb_magic = 0xc01fadeb

abbrev pub vol_sb_ver : ℕ
vol_sb_ver = 3

abbrev pub vol_name_size : ℕ
vol_name_size = 100

pub data ReplicationMode : Type 0 where
  disabled craft : ReplicationMode

-- A `std::string` is the list of its bytes.
pub record VolumeInfo : Type 0 where
  pub id : ℕ
  pub size_bytes : ℕ
  pub page_size : ℕ
  pub name : List ℕ
  pub ordinal : ℕ
  pub repl_mode : ReplicationMode

-- `chunk_ids` is what stands behind the structure.
pub record VolSb : Type 0 where
  pub magic : ℕ
  pub version : ℕ
  pub num_streams : ℕ
  pub page_size : ℕ
  pub size : ℕ
  pub id : ℕ
  pub name : List ℕ
  pub state : VolumeState
  pub ordinal : ℕ
  pub pdev_id : ℕ
  pub num_chunks : ℕ
  pub chunk_ids : List ℕ

-- The bytes of a text up to its first zero.
unfoldable pub c_string : List ℕ → List ℕ
c_string [] = []
c_string (c ∷ cs) = let rest = c_string cs in if c == 0 then [] else c ∷ rest

-- `strncpy`: the bytes of the text, and zeros behind it.
unfoldable pub strncpy : ℕ → List ℕ → List ℕ
strncpy zero cs = []
strncpy (suc n) [] = 0 ∷ strncpy n []
strncpy (suc n) (c ∷ cs) = c ∷ strncpy n (if c == 0 then [] else cs)

-- `vol_sb_t::init`. The state and the number of streams stay.
unfoldable pub sb_init : ℕ → ℕ → ℕ → List ℕ → ℕ → ℕ → List ℕ → VolSb → VolSb
sb_init page_sz sz_bytes vid name_str ord pdev chunk_ids sb = record sb {
  magic = vol_sb_magic;
  version = vol_sb_ver;
  page_size = page_sz % 2 ^ 32;
  size = sz_bytes;
  id = vid;
  ordinal = ord;
  name = strncpy (vol_name_size - 1) name_str ++ 0 ∷ [];
  pdev_id = pdev;
  num_chunks = length chunk_ids % 2 ^ 32;
  chunk_ids = chunk_ids;
}

-- As `volume::init` and `volume::update_vol_sb_cb` call it.
unfoldable pub sb_of : VolumeInfo → ℕ → List ℕ → VolSb → VolSb
unfolding sb_init
sb_of i pdev chunk_ids sb = sb_init i.page_size i.size_bytes i.id i.name i.ordinal pdev chunk_ids sb

unfoldable pub get_chunk_ids : VolSb → List ℕ
get_chunk_ids sb = take sb.num_chunks sb.chunk_ids

-- The constructor from the superblock.
unfoldable pub info_of : VolSb → VolumeInfo
unfolding c_string
info_of sb = record {
  id = sb.id;
  size_bytes = sb.size;
  page_size = sb.page_size;
  name = c_string sb.name;
  ordinal = sb.ordinal;
  repl_mode = disabled;
}

-- `get_index_size`: `none` for the division by a page size of 0.
unfoldable pub get_index_size : VolumeInfo → Option ℕ
get_index_size i =
    if i.page_size == 0 then none else some (i.size_bytes / i.page_size * 32 * 3 % 2 ^ 64)

c_string-strncpy : (n : ℕ) (cs : List ℕ) → c_string (strncpy n cs ++ 0 ∷ []) ≡ take n (c_string cs)
unfolding c_string strncpy
c_string-strncpy zero cs = refl
c_string-strncpy (suc n) [] = refl
c_string-strncpy (suc n) (c ∷ cs) = elim (Bool-cases (c == 0)) [
  | inl e ↦ rw e refl
  | inr e ↦ rw e (ap (λ r. c ∷ r) (c_string-strncpy n cs))
]

take-length {ℓ} : {A : Type ℓ} (xs : List A) → take (length xs) xs ≡ xs
take-length [] = refl
take-length (x ∷ xs) = ap (λ r. x ∷ r) (take-length xs)

-- The ids come back, where there are fewer than 2^32.
pub get_chunk_ids-sb_of :
    (i : VolumeInfo) (pdev : ℕ) (ids : List ℕ) (sb : VolSb)
    → length ids < 2 ^ 32
    → get_chunk_ids (sb_of i pdev ids sb) ≡ ids
unfolding get_chunk_ids sb_of
get_chunk_ids-sb_of i pdev ids sb h =
    let e : length ids % 2 ^ 32 ≡ length ids = omega arith in rw e (take-length ids)

-- A superblock gives back what it was made of: the whole information but for the replication mode,
-- the name cut at its first zero byte and to 99 bytes, and, if there are fewer than 2^32 of them, the
-- chunk ids. The state stays as it was.
pub info_of-sb_of :
    (i : VolumeInfo) (pdev : ℕ) (ids : List ℕ) (sb : VolSb)
    → i.page_size < 2 ^ 32
    → length ids < 2 ^ 32
    → (info_of (sb_of i pdev ids sb)
        ≡ record i { name = take (vol_name_size - 1) (c_string i.name); repl_mode = disabled })
      × (get_chunk_ids (sb_of i pdev ids sb) ≡ ids)
      × ((sb_of i pdev ids sb).state ≡ sb.state)
unfolding info_of sb_of
info_of-sb_of i pdev ids sb h k =
    let e : i.page_size % 2 ^ 32 ≡ i.page_size = omega arith in
    (
      λ r. record {
        id = i.id;
        size_bytes = i.size_bytes;
        page_size = e r;
        name = c_string-strncpy (vol_name_size - 1) i.name r;
        ordinal = i.ordinal;
        repl_mode = disabled;
      },
      get_chunk_ids-sb_of i pdev ids sb k,
      refl,
    )
