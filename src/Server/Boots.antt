-- ===== src/Server/Boots.antt =====
-- Restarts of a server (homeblks_impl.cpp): what the superblock carries from one process to the next.
use home_blocks.Prelude.{
  ℕ, ◌+◌, ◌%◌, ◌^◌, ◌≡◌, refl, sym, ◌∙◌, Bool, true, false, not, ◌&&◌, Option, none, some, arith,
  Option-cases, inl, inr,
}
use home_blocks.Prelude.Errors.{Result}
use home_blocks.Server.Flags.{
  sb_flags_graceful_shutdown, sb_flags_restricted, set_flag, test_flag, no_flag, graceful_set,
  restricted_set, restricted-set_graceful, graceful-set_restricted, graceful_cleared,
  restricted-cleared_graceful,
}
use home_blocks.Server.Superblock.{
  hb_sb_magic, hb_sb_ver, HomeblksSb, Server, superblk_init, read_flags, on_hb_meta_blk_found,
  contain_server, shutdown, choose_svc_id, init_homestore,
}

abbrev pub is_graceful : HomeblksSb → Bool
is_graceful b = test_flag sb_flags_graceful_shutdown b.flag

abbrev pub is_contained : HomeblksSb → Bool
is_contained b = test_flag sb_flags_restricted b.flag

-- A superblock of this program and of this service.
pub record IsOurs (uuid : ℕ) (b : HomeblksSb) : Type 0 where
  pub magic : b.magic ≡ hb_sb_magic
  pub version : b.version ≡ hb_sb_ver
  pub svc_id : b.svc_id ≡ uuid

-- The next process: a boot from the superblock that is stored.
unfoldable pub boot : Server → Option Server
unfolding init_homestore
boot s = init_homestore none 0 s.meta_blk

-- A server that was booted from a superblock.
pub record Booted (uuid : ℕ) (b : HomeblksSb) (s : Server) : Type 0 where
  pub graceful : s.gracefully_shutdown ≡ is_graceful b
  pub restricted : s.manager.is_restricted ≡ (not (is_graceful b) && is_contained b)
  pub counted : s.sb.boot_cnt ≡ (b.boot_cnt + 1) % 2 ^ 64
  pub cleared : is_graceful s.sb ≡ false
  pub contained : is_contained s.sb ≡ is_contained b
  pub identity : s.our_uuid ≡ uuid
  pub ours : IsOurs uuid s.sb
  pub unwritten : s.meta_blk ≡ some b

pub boots :
    (uuid : ℕ) (b : HomeblksSb)
    → IsOurs uuid b
    → (s : Server) → init_homestore none 0 (some b) ≡ some s
    → Booted uuid b s
unfolding init_homestore on_hb_meta_blk_found read_flags
boots uuid b h s e = record {
  graceful = ground (arith, e);
  restricted = ground (arith, e);
  counted = ground (arith, e);
  cleared = ground (arith, e, graceful_cleared b.flag);
  contained = ground (arith, e, restricted-cleared_graceful b.flag);
  identity = ground (arith, e, h.svc_id);
  ours = record {
    magic = ground (arith, e, h.magic);
    version = ground (arith, e, h.version);
    svc_id = ground (arith, e, h.svc_id);
  };
  unwritten = ground (arith, e);
}

pub boots_some :
    (uuid : ℕ) (b : HomeblksSb)
    → IsOurs uuid b
    → (s : Server) × (init_homestore none 0 (some b) ≡ some s)
unfolding init_homestore on_hb_meta_blk_found
boots_some uuid b h = elim (Option-cases (init_homestore none 0 (some b))) [
  | inl e ↦ absurd (ground (arith, e, h.magic, h.version))
  | inr r ↦ r
]

-- A running server of a service: its superblock is ours and not marked as shut down, and the stored one
-- is ours too, with the same mark of a containment.
pub record IsRunning (uuid : ℕ) (s : Server) : Type 0 where
  pub ours : IsOurs uuid s.sb
  pub cleared : is_graceful s.sb ≡ false
  pub identity : s.our_uuid ≡ uuid
  pub stored : HomeblksSb
  pub found : s.meta_blk ≡ some stored
  pub stored_ours : IsOurs uuid stored
  pub same_mark : is_contained stored ≡ is_contained s.sb

-- The superblock as a shutdown or a containment stores it.
mark_contained :
    (uuid : ℕ) (b : HomeblksSb)
    → IsOurs uuid b
    → IsOurs uuid (record b { flag = set_flag 2 b.flag })
mark_contained uuid b h = record { magic = h.magic; version = h.version; svc_id = h.svc_id }

pub Booted-IsRunning :
    (uuid : ℕ) (b : HomeblksSb) (s : Server) → IsOurs uuid b → Booted uuid b s → IsRunning uuid s
Booted-IsRunning uuid b s h r = record {
  ours = r.ours;
  cleared = r.cleared;
  identity = r.identity;
  stored = b;
  found = r.unwritten;
  stored_ours = h;
  same_mark = sym r.contained;
}

-- A first boot, with the id from the hook or a generated one.
pub first_boot-IsRunning :
    (on_svc_id : Option (Result ℕ)) (generated : ℕ) (s : Server)
    → init_homestore on_svc_id generated none ≡ some s
    → IsRunning s.our_uuid s
unfolding init_homestore superblk_init
first_boot-IsRunning on_svc_id generated s e =
    elim (Option-cases (choose_svc_id on_svc_id generated)) [
      | inl f ↦ absurd (ground (arith, e, f))
      | inr (uuid, f) ↦
          let own : IsOurs s.our_uuid s.sb = record {
            magic = ground (arith, e, f);
            version = ground (arith, e, f);
            svc_id = ground (arith, e, f);
          } in
          record {
            ours = own;
            cleared = ground (arith, e, f, no_flag.0);
            identity = refl;
            stored = s.sb;
            found = ground (arith, e, f);
            stored_ours = own;
            same_mark = refl;
          }
    ]

pub contain_server-IsRunning :
    (uuid : ℕ) (s : Server)
    → IsRunning uuid s
    → IsRunning uuid (contain_server s) × (is_contained (contain_server s).sb ≡ true)
unfolding contain_server
contain_server-IsRunning uuid s h = (
  record {
    ours = mark_contained uuid s.sb h.ours;
    cleared = graceful-set_restricted s.sb.flag ∙ h.cleared;
    identity = h.identity;
    stored = record s.sb { flag = set_flag sb_flags_restricted s.sb.flag };
    found = refl;
    stored_ours = mark_contained uuid s.sb h.ours;
    same_mark = refl;
  },
  restricted_set s.sb.flag,
)

-- What a shutdown stores.
pub record Stopped (uuid : ℕ) (s t : Server) : Type 0 where
  pub stored : HomeblksSb
  pub found : t.meta_blk ≡ some stored
  pub ours : IsOurs uuid stored
  pub marked : is_graceful stored ≡ true
  pub same_mark : is_contained stored ≡ is_contained s.sb

pub shutdown-Stopped :
    (uuid : ℕ) (s t : Server) → IsRunning uuid s → shutdown s ≡ some t → Stopped uuid s t
unfolding shutdown
shutdown-Stopped uuid s t h e = record {
  stored = record s.sb { flag = set_flag sb_flags_graceful_shutdown s.sb.flag };
  found = ground (arith, e);
  ours = record { magic = h.ours.magic; version = h.ours.version; svc_id = h.ours.svc_id };
  marked = graceful_set s.sb.flag;
  same_mark = restricted-set_graceful s.sb.flag;
}
