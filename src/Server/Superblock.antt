-- ===== src/Server/Superblock.antt =====
-- The superblock of a server, `homeblks_sb_t` (homeblks_impl.hpp), where it is written and read
-- (homeblks_impl.cpp). `none` is a process that stops at an assertion, or a shutdown that still waits.
use home_blocks.Prelude.{
  ℕ, ◌+◌, ◌%◌, ◌^◌, Bool, true, false, Option, none, some, [], ◌==◌, ◌&&◌, if◌then◌else◌,
}
use home_blocks.Prelude.Errors.{Result, ok, err}
use home_blocks.Manager.State.{Manager}
use home_blocks.Manager.Ops.{can_shutdown, shutdown_start, fault_containment}
use home_blocks.Server.Flags.{
  sb_flags_graceful_shutdown, sb_flags_restricted, set_flag, clear_flag, test_flag,
}

abbrev pub hb_sb_magic : ℕ
hb_sb_magic = 0xceeddeeb

abbrev pub hb_sb_ver : ℕ
hb_sb_ver = 1

-- `homeblks_sb_t`. An id of the service is a number.
pub record HomeblksSb : Type 0 where
  pub magic : ℕ
  pub version : ℕ
  pub flag : ℕ
  pub boot_cnt : ℕ
  pub svc_id : ℕ

-- `HomeBlocksImpl`, with the meta block in which HomeStore keeps the superblock.
pub record Server : Type 0 where
  pub manager : Manager
  pub gracefully_shutdown : Bool
  pub sb : HomeblksSb
  pub meta_blk : Option HomeblksSb
  pub our_uuid : ℕ

-- `sb_.write()`
abbrev pub store_sb : Server → Server
store_sb s = record s { meta_blk = some s.sb }

abbrev new_sb : ℕ → HomeblksSb
new_sb uuid = record {
  magic = hb_sb_magic;
  version = hb_sb_ver;
  flag = 0;
  boot_cnt = 0;
  svc_id = uuid;
}

unfoldable pub superblk_init : Server → Server
superblk_init s = store_sb (record s { sb = new_sb s.our_uuid })

-- The flags that the last process left: a graceful shutdown is looked for first.
unfoldable pub read_flags : Server → Server
read_flags s =
    if test_flag sb_flags_graceful_shutdown s.sb.flag
    then record s {
      sb = record s.sb { flag = clear_flag sb_flags_graceful_shutdown s.sb.flag };
      gracefully_shutdown = true;
    }
    else (if test_flag sb_flags_restricted s.sb.flag
        then record s { manager = record s.manager { is_restricted = true } }
        else s)

-- The superblock is not written here.
unfoldable pub on_hb_meta_blk_found : HomeblksSb → Server → Option Server
on_hb_meta_blk_found b s =
    let t = read_flags (record s { sb = b }) in
    if b.version == hb_sb_ver && b.magic == hb_sb_magic
    then some record t {
      sb = record t.sb { boot_cnt = (t.sb.boot_cnt + 1) % 2 ^ 64 };
      our_uuid = b.svc_id;
    }
    else none

-- `fault_containment` without a volume.
unfoldable pub contain_server : Server → Server
contain_server s = store_sb record s {
  sb = record s.sb { flag = set_flag sb_flags_restricted s.sb.flag };
  manager = fault_containment none s.manager;
}

-- `shutdown`, once the timer looks whether it can go on.
unfoldable pub shutdown : Server → Option Server
shutdown s =
    let m = shutdown_start s.manager in
    if can_shutdown m
    then some (
        store_sb record s {
          sb = record s.sb { flag = set_flag sb_flags_graceful_shutdown s.sb.flag };
          manager = m;
        })
    else none

-- A process at its start. The fields of `sb` have no values yet.
abbrev pub new_server : Server
new_server = record {
  manager = record {
    is_restricted = false;
    shutdown_started = false;
    outstanding_reqs = 0;
    vols = [];
    reserved = [];
  };
  gracefully_shutdown = false;
  sb = record { magic = 0; version = 0; flag = 0; boot_cnt = 0; svc_id = 0 };
  meta_blk = none;
  our_uuid = 0;
}

-- The service id of a first boot: that of the hook, which must not fail, or a generated one.
unfoldable pub choose_svc_id : Option (Result ℕ) → ℕ → Option ℕ
choose_svc_id none generated = some generated
choose_svc_id (some (ok uuid)) generated = some uuid
choose_svc_id (some (err e)) generated = none

-- `init_homestore`, as far as it reads or makes the superblock: HomeStore formats devices that hold no
-- superblock.
unfoldable pub init_homestore : Option (Result ℕ) → ℕ → Option HomeblksSb → Option Server
init_homestore on_svc_id generated none = elim (choose_svc_id on_svc_id generated) [
  | none ↦ none
  | some uuid ↦ some (superblk_init (record new_server { our_uuid = uuid }))
]
init_homestore on_svc_id generated (some b) =
    on_hb_meta_blk_found b (record new_server { meta_blk = some b })
