-- ===== src/Craft/Entry.antt =====
-- The journal entry as it is written (craft/craft_repl_dev.cpp, `CraftJournalEntry`): a packed header
-- of 34 bytes, then the serialised block id.
use mathlib.Core.List.{append_assoc}
use home_blocks.Prelude.{
  ℕ, ◌-◌, ◌%◌, ◌^◌, ◌<◌, ◌≡◌, refl, Bool, true, false, List, ◌++◌, arith, length, if◌then◌else◌,
  ltb,
}
use home_blocks.Prelude.Int.{ℤ, pos, negsuc, ◌≤ℤ◌}
use home_blocks.Prelude.Bytes.{le_bytes, read, read-le_bytes}

abbrev pub k_journal_magic : ℕ
k_journal_magic = 0xC4AF5AFE

abbrev pub k_journal_version : ℕ
k_journal_version = 1

pub record JournalEntry : Type 0 where
  pub magic : ℕ
  pub version : ℕ
  pub term : ℕ
  pub lsn : ℤ
  pub lba : ℕ
  pub len : ℕ
  pub all_zeros : ℕ

-- An `int64_t` as the 64-bit word that holds it, and back.
unfoldable pub to_word64 : ℤ → ℕ
to_word64 (pos n) = n % 2 ^ 64
to_word64 (negsuc n) = 2 ^ 64 - 1 - n % 2 ^ 64

unfoldable pub of_word64 : ℕ → ℤ
of_word64 w = if ltb w (2 ^ 63) then pos w else negsuc (2 ^ 64 - 1 - w)

pub of_word64-to_word64 :
    (l : ℤ) → negsuc (2 ^ 63 - 1) ≤ℤ l → l ≤ℤ pos (2 ^ 63 - 1) → of_word64 (to_word64 l) ≡ l
unfolding of_word64 to_word64
of_word64-to_word64 (pos n) lo hi = ground arith
of_word64-to_word64 (negsuc n) lo hi = ground arith

-- `static_cast< uint8_t >(all_zeros)`
abbrev pub byte_of_bool : Bool → ℕ
byte_of_bool true = 1
byte_of_bool false = 0

unfoldable pub encode : JournalEntry → List ℕ
encode e =
    le_bytes 4 e.magic
    ++ (le_bytes 1 e.version
        ++ (le_bytes 8 e.term
            ++ (le_bytes 8 (to_word64 e.lsn)
                ++ (le_bytes 8 e.lba ++ (le_bytes 4 e.len ++ le_bytes 1 e.all_zeros)))))

-- The fields of a packed header, at the offsets 0, 4, 5, 13, 21, 29 and 33, and what stands behind its
-- 34 bytes. The program has no reader: this says what its layout means.
pub decode : List ℕ → JournalEntry × List ℕ
decode bs =
    let (magic, b₁) = read 4 bs in
    let (version, b₂) = read 1 b₁ in
    let (term, b₃) = read 8 b₂ in
    let (lsn, b₄) = read 8 b₃ in
    let (lba, b₅) = read 8 b₄ in
    let (len, b₆) = read 4 b₅ in
    let (all_zeros, b₇) = read 1 b₆ in
    (
      record {
        magic = magic;
        version = version;
        term = term;
        lsn = of_word64 lsn;
        lba = lba;
        len = len;
        all_zeros = all_zeros;
      },
      b₇,
    )

-- Every field in the range of its C++ type.
pub record InRange (e : JournalEntry) : Type 0 where
  pub magic : e.magic < 2 ^ 32
  pub version : e.version < 2 ^ 8
  pub term : e.term < 2 ^ 64
  pub lsn_from : negsuc (2 ^ 63 - 1) ≤ℤ e.lsn
  pub lsn_to : e.lsn ≤ℤ pos (2 ^ 63 - 1)
  pub lba : e.lba < 2 ^ 64
  pub len : e.len < 2 ^ 32
  pub all_zeros : e.all_zeros < 2 ^ 8

to_word64-lt : (l : ℤ) → to_word64 l < 2 ^ 64
unfolding to_word64
to_word64-lt (pos n) = omega arith
to_word64-lt (negsuc n) = omega arith

pub length-encode : (e : JournalEntry) → length (encode e) ≡ 34
unfolding encode le_bytes
length-encode e = refl

encode-append :
    (e : JournalEntry) (rest : List ℕ)
    → encode e ++ rest
      ≡ le_bytes 4 e.magic
        ++ (le_bytes 1 e.version
            ++ (le_bytes 8 e.term
                ++ (le_bytes 8 (to_word64 e.lsn)
                    ++ (le_bytes 8 e.lba
                        ++ (le_bytes 4 e.len ++ (le_bytes 1 e.all_zeros ++ rest))))))
unfolding encode
encode-append e rest = simp append_assoc

-- A reader of the layout finds every field again, and behind the header the bytes of the block id.
pub decode-encode :
    (e : JournalEntry) (rest : List ℕ) → InRange e → decode (encode e ++ rest) ≡ (e, rest)
unfolding decode
decode-encode e rest r = rw (
  encode-append e rest,
  read-le_bytes 4 e.magic _ (omega (arith, r.magic)),
  read-le_bytes 1 e.version _ (omega (arith, r.version)),
  read-le_bytes 8 e.term _ (omega (arith, r.term)),
  read-le_bytes 8 (to_word64 e.lsn) _ (omega (arith, to_word64-lt e.lsn)),
  read-le_bytes 8 e.lba _ (omega (arith, r.lba)),
  read-le_bytes 4 e.len _ (omega (arith, r.len)),
  read-le_bytes 1 e.all_zeros rest (omega (arith, r.all_zeros)),
  of_word64-to_word64 e.lsn r.lsn_from r.lsn_to,
)
