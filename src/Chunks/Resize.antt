-- ===== src/Chunks/Resize.antt =====
-- When `resize_volume_num_chunks` (volume/volume_chunk_selector.cpp) starts its task, and when never
-- again.
use home_blocks.Prelude.{ℕ, ◌≡◌, refl, Bool, false, ◌||◌, List, [], ◌∷◌, arith}
use home_blocks.Chunks.State.{Chunk, VolumeChunksInfo, Selector, idle, in_progress}
use home_blocks.Chunks.Ops.{resize_volume_num_chunks}

-- A call: the blocks that the chunks have left, the blocks asked for, and the volume.
pub record Call : Type 0 where
  pub available : Chunk → ℕ
  pub nblks : ℕ
  pub volume : VolumeChunksInfo

abbrev pub resize : Call → Selector → Selector × Bool
resize c s = resize_volume_num_chunks c.available c.nblks c.volume s

-- Whether one of the calls, made one after the other, starts a task.
abbrev pub any_starts : List Call → Selector → Bool
any_starts [] s = false
any_starts (c ∷ cs) s = (resize c s).1 || any_starts cs (resize c s).0

in_progress-stays :
    (cs : List Call) (s : Selector) → s.resize_op ≡ in_progress → any_starts cs s ≡ false
unfolding resize_volume_num_chunks
in_progress-stays [] s h = refl
in_progress-stays (c ∷ cs) s h = ground (arith, h, in_progress-stays cs s h)

marked : (c : Call) (s : Selector) → s.resize_op ≡ idle → (resize c s).0.resize_op ≡ in_progress
unfolding resize_volume_num_chunks
marked c s quiet = ground (arith, quiet)

-- A call on an idle selector that starts no task, enough blocks being left, leaves the selector
-- marked as in progress with no task that would set it back: no later call, whatever the volume and
-- the blocks that are left, starts a task.
pub resize_volume_num_chunks_stuck :
    (c : Call) (cs : List Call) (s : Selector)
    → s.resize_op ≡ idle
    → (resize c s).1 ≡ false
    → any_starts cs (resize c s).0 ≡ false
resize_volume_num_chunks_stuck c cs s quiet h =
    in_progress-stays cs (resize c s).0 (marked c s quiet)
