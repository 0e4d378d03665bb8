-- ===== src/Prelude/Buffers.antt =====
-- `sisl::sg_list`: caller-owned buffers, each a list of bytes, and the total size. The size is a
-- field of its own, which the caller fills in.
use Prim.Native.Nat.{ℕ}
use mathlib.Core.List.{List}

pub record SgList : Type 0 where
  pub size : ℕ
  pub iovs : List (List ℕ)
