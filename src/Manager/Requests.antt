-- ===== src/Manager/Requests.antt =====
-- The requests on a volume (volume_mgr.cpp): `io_precheck`, and `async_write`, `async_read` and
-- `async_unmap` in front of the volume. `vol` is the volume that the caller holds.
use home_blocks.Prelude.{
  ℕ, ◌*◌, ◌/◌, ◌%◌, ◌^◌, ◌<◌, ◌≡◌, ◌↔◌, ap, sym, ◌∙◌, false, not, ◌||◌, List, [], ◌∷◌, Option, none,
  some, Option-cases, arith, ◌==◌, if◌then◌else◌, inl, inr,
}
use native.Mathlib.Nat.{div-add-mod'}
use home_blocks.Prelude.Errors.{
  Result, ok, err, Status, offline, invalid_argument, operation_not_supported, Result-cases,
}
use home_blocks.Prelude.Buffers.{SgList}
use home_blocks.Manager.State.{Vol, Manager, is_destroying, is_offline}
use home_blocks.Volume.Read.{IoReq}

unfoldable pub io_precheck : ℕ → Vol → ℕ → ℕ → Manager → Result ℕ
io_precheck blk_size v addr len m =
    if m.is_restricted
    then err operation_not_supported
    else (if is_offline v
        then err offline
        else (if is_destroying v || m.shutdown_started
            then err operation_not_supported
            else (if not (addr % blk_size == 0) || not (len % blk_size == 0)
                then err invalid_argument
                else ok blk_size)))

-- The request for the volume: its block count is cut to 32 bits.
abbrev pub io_req_of : ℕ → ℕ → ℕ → IoReq
io_req_of blk_size addr len = record { lba = addr / blk_size; nlbas = len / blk_size % 2 ^ 32 }

abbrev pub run_io : Status → ℕ → Result ℕ
run_io (err e) size = err e
run_io (ok _) size = ok size

-- `sgs.iovs.size() != 1` is refused.
abbrev pub only_buffer : List (List ℕ) → Option (List ℕ)
only_buffer [] = none
only_buffer (buffer ∷ []) = some buffer
only_buffer (buffer ∷ _ ∷ _) = none

-- `io` is `volume::write` with the buffer.
unfoldable pub async_write : (List ℕ → IoReq → Status) → ℕ → Vol → ℕ → SgList → Manager → Result ℕ
async_write io blk_size v addr sgs m = elim (io_precheck blk_size v addr sgs.size m) [
  | err e ↦ err e
  | ok b ↦ elim (only_buffer sgs.iovs) [
    | none ↦ err invalid_argument
    | some buffer ↦ run_io (io buffer (io_req_of b addr sgs.size)) sgs.size
  ]
]

-- `io` is `volume::read` into the buffer.
unfoldable pub async_read : (List ℕ → IoReq → Status) → ℕ → Vol → ℕ → SgList → Manager → Result ℕ
async_read io blk_size v addr sgs m = elim (io_precheck blk_size v addr sgs.size m) [
  | err e ↦ err e
  | ok b ↦ elim (only_buffer sgs.iovs) [
    | none ↦ err invalid_argument
    | some buffer ↦ run_io (io buffer (io_req_of b addr sgs.size)) sgs.size
  ]
]

unfoldable pub async_unmap : ℕ → Vol → ℕ → ℕ → Manager → Status
async_unmap blk_size v addr len m = elim (io_precheck blk_size v addr len m) [
  | err e ↦ err e
  | ok _ ↦ ok tt
]

-- What a request needs: a server and a volume that serve, and whole blocks.
pub record Serves (blk_size : ℕ) (v : Vol) (addr len : ℕ) (m : Manager) : Type 0 where
  pub unrestricted : m.is_restricted ≡ false
  pub running : m.shutdown_started ≡ false
  pub not_offline : is_offline v ≡ false
  pub not_destroying : is_destroying v ≡ false
  pub addr_aligned : addr % blk_size ≡ 0
  pub len_aligned : len % blk_size ≡ 0

-- `io_precheck` lets a request pass, and answers the block size, exactly if the server is neither
-- restricted nor shutting down, the volume is neither offline nor being destroyed, and address and
-- length are whole blocks.
pub io_precheck_iff :
    (blk_size : ℕ) (v : Vol) (addr len : ℕ) (m : Manager)
    → (io_precheck blk_size v addr len m ≡ ok blk_size) ↔ Serves blk_size v addr len m
unfolding io_precheck
io_precheck_iff blk_size v addr len m = (
  λ h. record {
    unrestricted = ground (arith, h);
    running = ground (arith, h);
    not_offline = ground (arith, h);
    not_destroying = ground (arith, h);
    addr_aligned = ground (arith, h);
    len_aligned = ground (arith, h);
  },
  λ r. ground (
    arith, r.unrestricted, r.running, r.not_offline, r.not_destroying, r.addr_aligned,
    r.len_aligned,
  ),
)

only_buffer_lem :
    (iovs : List (List ℕ)) (buffer : List ℕ) → only_buffer iovs ≡ some buffer → iovs ≡ buffer ∷ []
only_buffer_lem [] buffer h = ground (arith, h)
only_buffer_lem (b ∷ []) buffer h = ground (arith, h)
only_buffer_lem (b ∷ c ∷ bs) buffer h = ground (arith, h)

-- Whole blocks.
whole : (n blk_size : ℕ) → n % blk_size ≡ 0 → n / blk_size * blk_size ≡ n
whole n blk_size h = omega (arith, h, div-add-mod' n blk_size)

io_precheck_blk_size :
    (blk_size : ℕ) (v : Vol) (addr len : ℕ) (m : Manager) (b : ℕ)
    → io_precheck blk_size v addr len m ≡ ok b
    → b ≡ blk_size
unfolding io_precheck
io_precheck_blk_size blk_size v addr len m b h = ground (arith, h)

-- A write that is let pass covers the caller's bytes exactly: the request's blocks start at the
-- address and are as long as the buffer, up to 2^32 blocks. What the volume answers is the answer,
-- with the size of the buffer for its success; no other number of buffers than one is accepted.
pub async_write-covers :
    (io : List ℕ → IoReq → Status) (blk_size : ℕ) (v : Vol) (addr : ℕ) (sgs : SgList) (m : Manager)
    (n : ℕ)
    → 0 < blk_size
    → sgs.size / blk_size < 2 ^ 32
    → async_write io blk_size v addr sgs m ≡ ok n
    → (n ≡ sgs.size)
      × Serves blk_size v addr sgs.size m
      × ((buffer : List ℕ) × (sgs.iovs ≡ buffer ∷ [])
          × (io buffer (io_req_of blk_size addr sgs.size) ≡ ok tt)
          × ((io_req_of blk_size addr sgs.size).lba * blk_size ≡ addr)
          × ((io_req_of blk_size addr sgs.size).nlbas * blk_size ≡ sgs.size))
unfolding async_write
async_write-covers io blk_size v addr sgs m n pos small h =
    elim (Result-cases (io_precheck blk_size v addr sgs.size m)) [
      | inr (e, p) ↦ absurd (ground (arith, h, p))
      | inl (b, p) ↦
          let same = io_precheck_blk_size blk_size v addr sgs.size m b p in
          let serves = (io_precheck_iff blk_size v addr sgs.size m).0 (p ∙ ap ok same) in
          elim (Option-cases (only_buffer sgs.iovs)) [
            | inl q ↦ absurd (ground (arith, h, p, q))
            | inr (buffer, q) ↦ elim (Result-cases (io buffer (io_req_of b addr sgs.size))) [
              | inr (e, r) ↦ absurd (ground (arith, h, p, q, r))
              | inl (u, r) ↦ (
                ground (arith, h, p, q, r),
                serves,
                (
                  buffer,
                  only_buffer_lem sgs.iovs buffer q,
                  ap (λ (k : ℕ). io buffer (io_req_of k addr sgs.size)) (sym same) ∙ r,
                  whole addr blk_size serves.addr_aligned,
                  ap (λ (k : ℕ). k * blk_size) {y = sgs.size / blk_size} (omega arith)
                      ∙ whole sgs.size blk_size serves.len_aligned,
                ),
              )
            ]
          ]
    ]
