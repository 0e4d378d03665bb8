-- ===== src/Manager/Tests.antt =====
-- A server with two volumes, one of which has requests running.
use home_blocks.Manager.InFlight.{
  Flight, IsCounted, Reach, here, next, enter, enter_guard, begin_destroy, begin_destroy-bounds,
  io_after_destroy, is_shut,
}
use home_blocks.Prelude.{
  ℕ, suc, ◌*◌, ◌≡◌, refl, true, false, List, [], ◌∷◌, none, some, arith, inl, inr, max, ◌+◌, ◌≤◌,
}
use home_blocks.Prelude.Errors.{Status, ok}
use home_blocks.Prelude.Buffers.{SgList}
use home_blocks.Volume.Read.{IoReq}
use home_blocks.Manager.State.{
  Vol, Manager, find_vol, vol_online, vol_destroying, is_destroying, is_offline, can_remove,
}
use home_blocks.Manager.Ops.{
  create_volume, do_remove_volume, can_shutdown, vol_gc, on_fault_containment, exit,
}
use home_blocks.Manager.Requests.{io_precheck, Serves, async_write, io_req_of, async_write-covers}
use home_blocks.Manager.Invariant.{IsValid, HasNot}
use home_blocks.Manager.Shutdown.{remove, collect, run, create_volume_blocks_shutdown}
use home_blocks.Manager.Collection.{vol_gc-find_vol}
use home_blocks.Manager.Lifecycle.{exit_fc_cancels_remove}

abbrev idle_vol : Vol
idle_vol = record {
  id = 70;
  ordinal = 0;
  state = vol_online;
  outstanding_reqs = 0;
  destroy_started = false;
}

abbrev busy_vol : Vol
busy_vol = record {
  id = 71;
  ordinal = 1;
  state = vol_online;
  outstanding_reqs = 2;
  destroy_started = false;
}

abbrev busy_id : ℕ
busy_id = 71

abbrev server : Manager
server = record {
  is_restricted = false;
  shutdown_started = false;
  outstanding_reqs = 0;
  vols = idle_vol ∷ busy_vol ∷ [];
  reserved = 0 ∷ 1 ∷ [];
}

-- The ordinal behind the largest one.
abbrev next_id : List ℕ → ℕ
next_id [] = 0
next_id (n ∷ ns) = max (suc n) (next_id ns)

server-IsValid : IsValid server
server-IsValid = record {
  apart = (((λ e. omega (arith, e), λ e. omega (arith, e)), tt), (tt, tt));
  reserved = (inl refl, omega arith, (inr (inl refl), omega arith, tt));
}

next_id-HasNot : HasNot (next_id server.reserved) server.reserved
next_id-HasNot = (λ e. omega (arith, e), (λ e. omega (arith, e), tt))

idle-can_remove : can_remove idle_vol ≡ true
unfolding can_remove
idle-can_remove = refl

-- A reserver that has given out all its ordinals.
abbrev used_up : List ℕ → ℕ
used_up ns = 2048

create_volume_blocks_shutdown_example :
    can_shutdown
      (run used_up (remove 70 ∷ remove 71 ∷ collect ∷ []) (create_volume used_up true 72 server).1)
    ≡ false
create_volume_blocks_shutdown_example =
    create_volume_blocks_shutdown used_up true 72 server (remove 70 ∷ remove 71 ∷ collect ∷ []) refl
      (omega arith)

busy-can_remove : can_remove busy_vol ≡ false
unfolding can_remove
busy-can_remove = refl

exit_fc_cancels_remove_example :
    (w : Vol) × (find_vol 71 (on_fault_containment exit (some 71) (do_remove_volume 71 server)).vols
      ≡ some w)
    × (w.state ≡ vol_online)
    × (is_destroying w ≡ false)
    × (w.outstanding_reqs ≡ 2)
exit_fc_cancels_remove_example = exit_fc_cancels_remove 71 server busy_vol refl busy-can_remove

abbrev two_blocks : SgList
two_blocks = record { size = 8192; iovs = (1 ∷ []) ∷ [] }

abbrev accept : List ℕ → IoReq → Status
accept buffer r = ok tt

writes : async_write accept 4096 idle_vol 8192 two_blocks server ≡ ok 8192
unfolding async_write io_precheck is_offline is_destroying
writes = refl

async_write-covers_example :
    (8192 ≡ two_blocks.size)
    × Serves 4096 idle_vol 8192 two_blocks.size server
    × ((buffer : List ℕ) × (two_blocks.iovs ≡ buffer ∷ [])
        × (accept buffer (io_req_of 4096 8192 two_blocks.size) ≡ ok tt)
        × ((io_req_of 4096 8192 two_blocks.size).lba * 4096 ≡ 8192)
        × ((io_req_of 4096 8192 two_blocks.size).nlbas * 4096 ≡ two_blocks.size))
async_write-covers_example =
    async_write-covers accept 4096 idle_vol 8192 two_blocks server 8192 (omega arith) (omega arith)
      writes

-- The idle volume, once it is marked.
abbrev marked_vol : Vol
marked_vol = record idle_vol { state = vol_destroying }

abbrev marked_server : Manager
marked_server = record server { vols = busy_vol ∷ marked_vol ∷ [] }

marked-IsValid : IsValid marked_server
marked-IsValid = record {
  apart = (((λ e. omega (arith, e), λ e. omega (arith, e)), tt), (tt, tt));
  reserved = (inr (inl refl), omega arith, (inl refl, omega arith, tt));
}

marked-is_destroying : is_destroying marked_vol ≡ true
unfolding is_destroying
marked-is_destroying = refl

marked-can_remove : can_remove marked_vol ≡ true
unfolding can_remove
marked-can_remove = refl

vol_gc-find_vol_example : find_vol 70 (vol_gc marked_server).vols ≡ none
vol_gc-find_vol_example =
    vol_gc-find_vol 70 marked_server marked_vol marked-IsValid refl refl marked-is_destroying
      marked-can_remove

-- The idle volume, with a request between its check and its count.
abbrev one_checked : Flight
one_checked = record {
  manager = server;
  vol = record idle_vol { state = vol_destroying };
  checked = 1;
  running = 0;
}

one_checked-IsCounted : IsCounted one_checked
unfolding is_destroying
one_checked-IsCounted = record { counts = refl; marked = λ _. refl }

marked : is_shut one_checked.vol ≡ true
unfolding is_destroying
marked = refl

removable : can_remove one_checked.vol ≡ true
unfolding can_remove
removable = refl

begin_destroy-bounds_example :
    (enter_guard (begin_destroy one_checked)).checked
      + (enter_guard (begin_destroy one_checked)).running
    ≤ one_checked.checked
unfolding begin_destroy
begin_destroy-bounds_example =
    begin_destroy-bounds one_checked (enter_guard (begin_destroy one_checked)) one_checked-IsCounted
      marked removable (next here (enter (omega arith)))

abbrev quiet : Flight
quiet = record { manager = server; vol = idle_vol; checked = 0; running = 0 }

quiet-IsCounted : IsCounted quiet
unfolding is_destroying is_offline
quiet-IsCounted = record { counts = refl; marked = λ e. absurd (ground (arith, e)) }

lets_pass : io_precheck 512 idle_vol 1024 512 server ≡ ok 512
unfolding io_precheck is_offline is_destroying
lets_pass = refl

io_after_destroy_example :
    (g : Flight) × Reach quiet g × (g.vol.destroy_started ≡ true) × (g.running ≡ 1)
io_after_destroy_example =
    io_after_destroy quiet 512 1024 512 512 quiet-IsCounted refl refl lets_pass
