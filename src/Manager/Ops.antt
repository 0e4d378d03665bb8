-- ===== src/Manager/Ops.antt =====
-- The control operations of `HomeBlocksImpl` (volume_mgr.cpp and homeblks_impl.cpp). `IDReserver` is not
-- part of the program: `reserve` gives the ordinal that it reserves next.
use home_blocks.Prelude.{
  ℕ, ◌+◌, ◌-◌, Bool, true, false, not, ◌&&◌, List, [], ◌∷◌, map, Option, none, some, leb, ◌==◌,
  if◌then◌else◌,
}
use home_blocks.Prelude.Errors.{
  Result, ok, err, Status, unknown_volume, internal_error, offline, invalid_argument,
  operation_not_supported,
}
use home_blocks.Manager.State.{
  max_num_volumes, VolumeState, vol_online, vol_offline, vol_destroying, Vol, Manager, find_vol,
  update_vol, erase_vol, unreserve, is_destroying, is_offline, state_change, can_remove,
}

abbrev pub inc_ref : Manager → Manager
inc_ref m = record m { outstanding_reqs = m.outstanding_reqs + 1 }

abbrev pub dec_ref : Manager → Manager
dec_ref m = record m { outstanding_reqs = m.outstanding_reqs - 1 }

-- `create_volume` up to the check of the id: the ordinal, or the error.
unfoldable pub create_check : (List ℕ → ℕ) → ℕ → Manager → Result ℕ × Manager
create_check reserve id m =
    let n = reserve m.reserved in
    let m' = inc_ref (record m { reserved = n ∷ m.reserved }) in
    if m.is_restricted
    then (err operation_not_supported, m)
    else (if leb max_num_volumes n then (err internal_error, m') else (elim (find_vol id m.vols) [
      | some v ↦ (err invalid_argument, dec_ref m')
      | none ↦ (ok n, m')
    ]))

-- `vol_map_.emplace`: a volume that is there already stays.
abbrev pub emplace_vol : Vol → List Vol → List Vol
emplace_vol v vs = elim (find_vol v.id vs) [ some w ↦ vs | none ↦ v ∷ vs ]

abbrev pub new_vol : ℕ → ℕ → Vol
new_vol id n = record {
  id = id;
  ordinal = n;
  state = vol_online;
  outstanding_reqs = 0;
  destroy_started = false;
}

-- The rest of `create_volume`, where `made` tells whether `make_volume` gave a volume. This depends on
-- HomeStore and the chunks; Volume/Lifecycle has `make_volume` itself.
unfoldable pub create_finish : Bool → ℕ → ℕ → Manager → Result Vol × Manager
create_finish made id n m =
    if made
    then (ok (new_vol id n), dec_ref (record m { vols = emplace_vol (new_vol id n) m.vols }))
    else (err internal_error, dec_ref m)

abbrev pub continue_create : Bool → ℕ → Result ℕ × Manager → Result Vol × Manager
continue_create made id (err e, m) = (err e, m)
continue_create made id (ok n, m) = create_finish made id n m

-- A call that no other runs beside.
unfoldable pub create_volume : (List ℕ → ℕ) → Bool → ℕ → Manager → Result Vol × Manager
create_volume reserve made id m = continue_create made id (create_check reserve id m)

unfoldable pub get_volume : ℕ → Manager → Result Vol
get_volume id m = elim (find_vol id m.vols) [ some v ↦ ok v | none ↦ err unknown_volume ]

abbrev pub set_state : VolumeState → ℕ → Manager → Manager
set_state s id m = record m { vols = update_vol (state_change s) id m.vols }

-- The answer of `remove_volume`; with `ok` the task `do_remove_volume` is scheduled.
unfoldable pub remove_volume : ℕ → Manager → Status
unfolding get_volume
remove_volume id m =
    if m.is_restricted then err operation_not_supported else (elim (get_volume id m) [
      | err e ↦ err invalid_argument
      | ok v ↦ if is_offline v then err offline else ok tt
    ])

-- The task, run to its end with no other step between: the volume is marked, and goes at once unless it
-- is busy or is being destroyed already. The volume itself is destroyed in Volume/Lifecycle.
unfoldable pub do_remove_volume : ℕ → Manager → Manager
do_remove_volume id m = elim (find_vol id m.vols) [
  | none ↦ m
  | some v ↦
      if can_remove (state_change vol_destroying v)
      then record m { vols = erase_vol id m.vols; reserved = unreserve v.ordinal m.reserved }
      else set_state vol_destroying id m
]

-- The volumes that `vol_gc` removes.
unfoldable pub vols_to_remove : List Vol → List ℕ
vols_to_remove [] = []
vols_to_remove (v ∷ vs) =
    let rest = vols_to_remove vs in if is_destroying v && can_remove v then v.id ∷ rest else rest

-- `remove_volume` for each, with its task.
unfoldable pub remove_all : List ℕ → Manager → Manager
remove_all [] m = m
remove_all (id ∷ ids) m = elim (remove_volume id m) [
  | ok _ ↦ remove_all ids (do_remove_volume id m)
  | err e ↦ remove_all ids m
]

unfoldable pub vol_gc : Manager → Manager
vol_gc m = remove_all (vols_to_remove m.vols) m

unfoldable pub no_outstanding_vols : List Vol → Bool
no_outstanding_vols [] = true
no_outstanding_vols (v ∷ vs) =
    not (is_destroying v) && (v.outstanding_reqs == 0 && no_outstanding_vols vs)

unfoldable pub can_shutdown : Manager → Bool
can_shutdown m = m.shutdown_started && (no_outstanding_vols m.vols && m.outstanding_reqs == 0)

abbrev pub shutdown_start : Manager → Manager
shutdown_start m = record m { shutdown_started = true }

-- `fault_containment`: the whole server for no volume, else the volume.
unfoldable pub fault_containment : Option ℕ → Manager → Manager
fault_containment none m = record m { is_restricted = true }
fault_containment (some id) m = set_state vol_offline id m

unfoldable pub exit_fc : ℕ → Manager → Manager
exit_fc id m = set_state vol_online id m

pub data FcEvent : Type 0 where
  enter_global : FcEvent
  enter : FcEvent
  exit : FcEvent

-- `HBFCSvcCB::on_fault_containment`; the cookie is the volume's id, or null.
unfoldable pub on_fault_containment : FcEvent → Option ℕ → Manager → Manager
on_fault_containment enter_global cookie m = fault_containment none m
on_fault_containment enter none m = m
on_fault_containment exit none m = m
on_fault_containment enter (some id) m = elim (find_vol id m.vols) [
  | none ↦ m
  | some v ↦ fault_containment (some id) m
]
on_fault_containment exit (some id) m = elim (find_vol id m.vols) [
  | none ↦ m
  | some v ↦ exit_fc id m
]

unfoldable pub volume_ids : Manager → List ℕ
volume_ids m = map (λ v. v.id) m.vols
