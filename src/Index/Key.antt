-- ===== src/Index/Key.antt =====
-- `VolumeIndexKey` of volume/index_prefix_kv.hpp: a 64-bit lba as two 32-bit words.
use home_blocks.Prelude.{
  ℕ, ◌+◌, ◌-◌, ◌*◌, ◌/◌, ◌%◌, ◌^◌, ◌≤◌, ◌<◌, ◌≡◌, ◌≢◌, ap, arith, ltb, if◌then◌else◌,
}

pub record IndexKey : Type 0 where
  pub lba_base : ℕ
  pub lba_offset : ℕ

-- `k >> 32` and `k & 0xFFFFFFFF`, each cast to `uint32_t`.
unfoldable pub key_of : ℕ → IndexKey
key_of k = record { lba_base = k / 2 ^ 32 % 2 ^ 32; lba_offset = k % 2 ^ 32 }

-- `key()` and `lba()`: the or of two words that share no bit.
unfoldable pub lba_of : IndexKey → ℕ
lba_of k = k.lba_base * 2 ^ 32 + k.lba_offset

-- The three values of `compare`.
pub data Order : Type 0 where
  less equal greater : Order

unfoldable pub compare_words : ℕ → ℕ → Order → Order
compare_words a b next = if ltb a b then less else if ltb b a then greater else next

unfoldable pub compare_keys : IndexKey → IndexKey → Order
unfolding compare_words
compare_keys a b =
    compare_words a.lba_base b.lba_base (compare_words a.lba_offset b.lba_offset equal)

-- `m_lba_offset += n`, in 32 bits; `n` is not negative here.
unfoldable pub shift_key : IndexKey → ℕ → IndexKey
shift_key k n = record k { lba_offset = (k.lba_offset + n) % 2 ^ 32 }

-- `m_lba_offset - from.m_lba_offset`
unfoldable pub distance : IndexKey → IndexKey → ℕ
distance k from = k.lba_offset - from.lba_offset

-- The comparison of the plain key of volume/index_fixed_kv.hpp, whose one field is the lba.
unfoldable pub compare_lbas : ℕ → ℕ → Order
unfolding compare_words
compare_lbas a b = compare_words a b equal

-- The two words hold the lba without loss.
pub lba_of-key_of : (k : ℕ) → k < 2 ^ 64 → lba_of (key_of k) ≡ k
unfolding lba_of key_of
lba_of-key_of k h = omega arith

-- The order of the two-word keys is the order of the lbas, so the prefix index and the fixed index
-- sort alike; two keys compare as equal exactly when their lbas are equal.
pub compare_keys-lba :
    (a b : ℕ) → a < 2 ^ 64 → b < 2 ^ 64 → compare_keys (key_of a) (key_of b) ≡ compare_lbas a b
unfolding compare_keys compare_lbas key_of
compare_keys-lba a b h k = ground arith

-- Inside one 32-bit prefix, shifting the key of a range's first lba gives the key of each later lba,
-- at its distance from the first.
pub shift_key-lba :
    (start n : ℕ)
    → start < 2 ^ 64
    → start % 2 ^ 32 + n < 2 ^ 32
    → (shift_key (key_of start) n ≡ key_of (start + n))
      × (distance (key_of (start + n)) (key_of start) ≡ n)
unfolding shift_key distance key_of
shift_key-lba start n h k = (ground arith, omega arith)

-- Past the end of the prefix the offset wraps while the prefix stays: the shifted key is never the
-- key of the lba that is meant.
pub shift_key_wraps :
    (start n : ℕ)
    → start + n < 2 ^ 64
    → n < 2 ^ 32
    → 2 ^ 32 ≤ start % 2 ^ 32 + n
    → (shift_key (key_of start) n ≢ key_of (start + n))
      × (lba_of (shift_key (key_of start) n) + 2 ^ 32 ≡ start + n)
unfolding shift_key lba_of key_of
shift_key_wraps start n h m k =
    (λ e. omega (arith, ap (λ (k : IndexKey). k.lba_base) e), omega arith)
