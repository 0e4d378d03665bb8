-- ===== src/Server/Tests.antt =====
-- A server with one volume-less boot, and a machine with a disk, an NVMe drive and a tape.
use home_blocks.Prelude.{
  ℕ, ◌^◌, ◌≡◌, refl, true, false, List, [], ◌∷◌, Option, none, some, ◌==◌, if◌then◌else◌,
}
use home_blocks.Manager.Ops.{can_shutdown, no_outstanding_vols, fault_containment}
use home_blocks.Server.Flags.{set_flag, clear_flag, test_flag}
use home_blocks.Server.Superblock.{
  Server, superblk_init, read_flags, on_hb_meta_blk_found, contain_server, shutdown, choose_svc_id,
  new_server, init_homestore,
}
use home_blocks.Server.Boots.{is_contained, boot, first_boot-IsRunning}
use home_blocks.Server.Lives.{
  here, next, contain, stop, Lives-boot, contain_server-shutdown_forgets,
}
use home_blocks.Server.Devices.{
  DeviceInfo, auto_detect, DriveType, block_hdd, block_nvme, other_drive, slow, fast,
  get_device_type, final_type, add_device, get_dev_info,
}
use home_blocks.Server.Format.{ChunkSizes, FormatParams, layout, Fits, layout-Fits}

abbrev or_else : Server → Option Server → Server
or_else s none = s
or_else s (some t) = t

abbrev first : Server
first = or_else new_server (init_homestore none 42 none)

starts : init_homestore none 42 none ≡ some first
unfolding init_homestore choose_svc_id superblk_init
starts = refl

abbrev stopped : Server
stopped = or_else new_server (shutdown (contain_server first))

stops : shutdown (contain_server first) ≡ some stopped
unfolding shutdown contain_server can_shutdown no_outstanding_vols fault_containment init_homestore
    choose_svc_id superblk_init set_flag
stops = refl

abbrev after_crash : Server
after_crash = or_else new_server (boot (contain_server first))

crashes : boot (contain_server first) ≡ some after_crash
unfolding boot init_homestore on_hb_meta_blk_found read_flags contain_server fault_containment
    choose_svc_id superblk_init set_flag clear_flag test_flag
crashes = refl

abbrev after_stop : Server
after_stop = or_else new_server (boot stopped)

starts_again : boot stopped ≡ some after_stop
unfolding boot init_homestore on_hb_meta_blk_found read_flags shutdown contain_server can_shutdown
    no_outstanding_vols fault_containment choose_svc_id superblk_init set_flag clear_flag test_flag
starts_again = refl

contain_server-shutdown_forgets_example :
    (after_crash.manager.is_restricted ≡ true)
    × (after_stop.manager.is_restricted ≡ false)
    × (is_contained after_stop.sb ≡ true)
contain_server-shutdown_forgets_example =
    contain_server-shutdown_forgets first.our_uuid first stopped after_crash after_stop
      (first_boot-IsRunning none 42 first starts) crashes stops starts_again

-- The next boot after a containment and a shutdown.
Lives-boot_example :
    (s' : Server) × (boot after_stop ≡ some s')
    × (s'.our_uuid ≡ first.our_uuid)
    × (is_contained after_stop.sb ≡ true → is_contained s'.sb ≡ true)
Lives-boot_example =
    Lives-boot none 42 first after_stop starts
      (next (next here contain) (stop stopped stops starts_again))

abbrev machine : List DeviceInfo
machine =
    record { path = 1; type = auto_detect }
    ∷ record { path = 2; type = auto_detect }
    ∷ record { path = 3; type = auto_detect }
    ∷ []

abbrev kind_of : ℕ → DriveType
kind_of p = if p == 1 then block_hdd else if p == 2 then block_nvme else other_drive

abbrev sizes : ChunkSizes
sizes = record { index = 2 ^ 31; data_size = 2 ^ 31 }

finds_two :
    (get_dev_info kind_of (λ p. p) machine).dev_info
    ≡ record { dev_name = 1; dev_type = slow } ∷ record { dev_name = 2; dev_type = fast } ∷ []
unfolding get_dev_info add_device final_type get_device_type
finds_two = refl

layout-Fits_example :
    let found = get_dev_info kind_of (λ p. p) machine in
    (ps : List FormatParams) × (layout found sizes ≡ some ps) × Fits found.dev_info ps
layout-Fits_example =
    layout-Fits kind_of (λ p. p) machine sizes (record { dev_name = 1; dev_type = slow })
      (record { dev_name = 2; dev_type = fast } ∷ []) finds_two
