-- ===== src/Prelude/Bytes.antt =====
-- Little-endian fields in a buffer, as `memcpy` of a packed struct lays them out.
use Prim.Native.Nat.{ℕ, zero, suc, ◌+◌, ◌*◌, ◌/◌, ◌%◌, ◌<◌}
use mathlib.Core.Path.{◌≡◌, refl, ap}
use mathlib.Core.List.{List, [], ◌∷◌, ◌++◌}
use native.Mathlib.Omega.{arith}
use home_blocks.Prelude.Lists.{length, take, drop}

abbrev pub pow256 : ℕ → ℕ
pow256 zero = 1
pow256 (suc n) = 256 * pow256 n

unfoldable pub le_bytes : ℕ → ℕ → List ℕ
le_bytes zero x = []
le_bytes (suc n) x = x % 256 ∷ le_bytes n (x / 256)

unfoldable pub of_le : List ℕ → ℕ
of_le [] = 0
of_le (b ∷ bs) = b + 256 * of_le bs

pub length-le_bytes : (n x : ℕ) → length (le_bytes n x) ≡ n
unfolding le_bytes
length-le_bytes zero x = refl
length-le_bytes (suc n) x = ap suc (length-le_bytes n (x / 256))

pub of_le-take :
    (n x : ℕ) (rest : List ℕ) → x < pow256 n → of_le (take n (le_bytes n x ++ rest)) ≡ x
unfolding le_bytes of_le
of_le-take zero x rest h = omega arith
of_le-take (suc n) x rest h = omega (arith, of_le-take n (x / 256) rest (omega arith))

pub drop-le_bytes : (n x : ℕ) (rest : List ℕ) → drop n (le_bytes n x ++ rest) ≡ rest
unfolding le_bytes
drop-le_bytes zero x rest = refl
drop-le_bytes (suc n) x rest = drop-le_bytes n (x / 256) rest

-- One field of `n` bytes, and what stands behind it.
unfoldable pub read : ℕ → List ℕ → ℕ × List ℕ
read n bs = (of_le (take n bs), drop n bs)

pub read-le_bytes :
    (n x : ℕ) (rest : List ℕ) → x < pow256 n → read n (le_bytes n x ++ rest) ≡ (x, rest)
unfolding read
read-le_bytes n x rest h = λ i. (of_le-take n x rest h i, drop-le_bytes n x rest i)
