-- ===== src/Prelude/Errors.antt =====
-- The error surface: `volume_error` and the members of `std::errc` that the code returns
-- (include/homeblks/home_blocks.hpp), and `result<T>` as a sum.
use mathlib.Core.Bool.{Bool, true, false}
use mathlib.Core.Path.{◌≡◌, refl}
use mathlib.Core.Logic.{◌⊎◌, inl, inr}

-- `volume_error` first, then the `std::errc` values.
pub data Error : Type 0 where
  unknown_volume crc_mismatch index_error internal_error offline stale_term empty_slot : Error
  invalid_argument value_too_large not_supported operation_not_supported : Error
  no_space_on_device io_error : Error

-- `result<T>`: `std::expected<T, std::error_condition>`.
pub data Result {ℓ} (A : Type ℓ) : Type ℓ where
  ok : A → Result A
  err : Error → Result A

-- `status` carries no value.
abbrev pub Status : Type 0
Status = Result (Unit {0})

infixl 5 ◌>>=◌ ◌>>◌
abbrev pub ◌>>=◌ {ℓ κ} : {A : Type ℓ} {B : Type κ} → Result A → (A → Result B) → Result B
ok a >>= f = f a
err e >>= f = err e

abbrev pub ◌>>◌ {ℓ} : {B : Type ℓ} → Status → Result B → Result B
m >> k = m >>= λ _. k

-- `if (bad) co_return std::unexpected(e);`
abbrev pub reject_if : Bool → Error → Status
reject_if true e = err e
reject_if false e = ok tt

pub Result-cases {ℓ} :
    {A : Type ℓ} (r : Result A) → ((a : A) × (r ≡ ok a)) ⊎ ((e : Error) × (r ≡ err e))
Result-cases (ok a) = inl (a, refl)
Result-cases (err e) = inr (e, refl)
