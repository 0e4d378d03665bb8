-- ===== src/Server/Flags.antt =====
-- The flag word of `homeblks_sb_t` (homeblks_impl.hpp).
use Prim.Native.Nat.{bit_and, bit_or, digits, bit_and-bitwise, bit_or-bitwise}
use home_blocks.Prelude.{
  ℕ, zero, suc, ◌+◌, ◌-◌, ◌*◌, ◌/◌, ◌%◌, ◌^◌, ◌≤◌, min, ◌≡◌, refl, ap, sym, ◌∙◌, Bool, true, false,
  not, arith, ◌==◌,
}

-- SB_FLAGS_GRACEFUL_SHUTDOWN and SB_FLAGS_RESTRICTED
abbrev pub sb_flags_graceful_shutdown : ℕ
sb_flags_graceful_shutdown = 1

abbrev pub sb_flags_restricted : ℕ
sb_flags_restricted = 2

-- `flag |= bit`
unfoldable pub set_flag : ℕ → ℕ → ℕ
set_flag bit flag = bit_or bit flag

-- `flag &= ~bit`, in 32 bits
unfoldable pub clear_flag : ℕ → ℕ → ℕ
clear_flag bit flag = bit_and (2 ^ 32 - 1 - bit) flag

unfoldable pub test_flag : ℕ → ℕ → Bool
test_flag bit flag = not (bit_and bit flag == 0)

-- The two bits by arithmetic.
and-one : (f : ℕ) → bit_and 1 f ≡ f % 2
and-one f = omega (arith, bit_and-bitwise 1 f)

and-two : (f : ℕ) → bit_and 2 f ≡ f / 2 % 2 * 2
and-two f = omega (arith, bit_and-bitwise 2 f)

or-one : (f : ℕ) → bit_or 1 f ≡ f / 2 * 2 + 1
or-one f = omega (arith, bit_or-bitwise 1 f)

or-two : (f : ℕ) → bit_or 2 f ≡ (f / 2 / 2 * 2 + 1) * 2 + f % 2
or-two f = omega (arith, bit_or-bitwise 2 f)

-- An even mask clears the lowest digit; one whose second digit is set keeps the second.
abbrev masked : ℕ → ℕ → ℕ → ℕ
masked n a f = digits (λ _. 0) min n a f

masked-lowest : (n a f : ℕ) → a % 2 ≡ 0 → masked n a f % 2 ≡ 0
masked-lowest zero a f h = refl
masked-lowest (suc n) zero f h = refl
masked-lowest (suc n) (suc a) f h = omega arith

masked-lowest_kept : (n a f : ℕ) → a % 2 ≡ 1 → a ≤ n → masked n a f % 2 ≡ f % 2
masked-lowest_kept n zero f h k = absurd (omega arith)
masked-lowest_kept zero (suc a) f h k = absurd (omega arith)
masked-lowest_kept (suc n) (suc a) f h k = omega arith

masked-second : (n a f : ℕ) → a / 2 % 2 ≡ 1 → a ≤ n → masked n a f / 2 % 2 ≡ f / 2 % 2
masked-second n zero f h k = absurd (omega arith)
masked-second zero (suc a) f h k = absurd (omega arith)
masked-second (suc n) (suc a) f h k =
    omega (arith, masked-lowest_kept n (suc a / 2) (f / 2) (omega arith) (omega arith))

-- What a test sees: the bit's digit.
graceful_digit : (f : ℕ) → test_flag sb_flags_graceful_shutdown f ≡ not (f % 2 == 0)
unfolding test_flag
graceful_digit f = ap (λ (x : ℕ). not (x == 0)) (and-one f)

restricted_digit : (f : ℕ) → test_flag sb_flags_restricted f ≡ not (f / 2 % 2 * 2 == 0)
unfolding test_flag
restricted_digit f = ap (λ (x : ℕ). not (x == 0)) (and-two f)

-- Each flag is found once it is set or cleared, and no operation on one flag touches the other.
pub graceful_set : (f : ℕ) → test_flag sb_flags_graceful_shutdown (set_flag 1 f) ≡ true
unfolding set_flag
graceful_set f = ground (arith, graceful_digit (bit_or 1 f), or-one f)

pub restricted_set : (f : ℕ) → test_flag sb_flags_restricted (set_flag 2 f) ≡ true
unfolding set_flag
restricted_set f = ground (arith, restricted_digit (bit_or 2 f), or-two f)

pub restricted-set_graceful :
    (f : ℕ) → test_flag sb_flags_restricted (set_flag 1 f) ≡ test_flag sb_flags_restricted f
unfolding set_flag
restricted-set_graceful f =
    let e : bit_or 1 f / 2 % 2 ≡ f / 2 % 2 = omega (arith, or-one f) in
    restricted_digit (bit_or 1 f) ∙ ap (λ (x : ℕ). not (x * 2 == 0)) e ∙ sym (restricted_digit f)

pub graceful-set_restricted :
    (f : ℕ)
    → test_flag sb_flags_graceful_shutdown (set_flag 2 f) ≡ test_flag sb_flags_graceful_shutdown f
unfolding set_flag
graceful-set_restricted f =
    let e : bit_or 2 f % 2 ≡ f % 2 = omega (arith, or-two f) in
    graceful_digit (bit_or 2 f) ∙ ap (λ (x : ℕ). not (x == 0)) e ∙ sym (graceful_digit f)

pub graceful_cleared : (f : ℕ) → test_flag sb_flags_graceful_shutdown (clear_flag 1 f) ≡ false
unfolding clear_flag
graceful_cleared f =
    let e : bit_and (2 ^ 32 - 2) f % 2 ≡ 0 =
      ap (λ (x : ℕ). x % 2) (bit_and-bitwise (2 ^ 32 - 2) f)
      ∙ masked-lowest (2 ^ 32 - 2) (2 ^ 32 - 2) f refl in
    graceful_digit (bit_and (2 ^ 32 - 2) f) ∙ ap (λ (x : ℕ). not (x == 0)) e

pub restricted-cleared_graceful :
    (f : ℕ) → test_flag sb_flags_restricted (clear_flag 1 f) ≡ test_flag sb_flags_restricted f
unfolding clear_flag
restricted-cleared_graceful f =
    let e : bit_and (2 ^ 32 - 2) f / 2 % 2 ≡ f / 2 % 2 =
      ap (λ (x : ℕ). x / 2 % 2) (bit_and-bitwise (2 ^ 32 - 2) f)
      ∙ masked-second (2 ^ 32 - 2) (2 ^ 32 - 2) f refl (omega arith) in
    restricted_digit (bit_and (2 ^ 32 - 2) f)
    ∙ ap (λ (x : ℕ). not (x * 2 == 0)) e
    ∙ sym (restricted_digit f)

pub no_flag :
    (test_flag sb_flags_graceful_shutdown 0 ≡ false) × (test_flag sb_flags_restricted 0 ≡ false)
unfolding test_flag
no_flag = (refl, refl)

pub ruleset flags = (
  graceful_set, restricted_set, restricted-set_graceful, graceful-set_restricted, graceful_cleared,
  restricted-cleared_graceful,
)
