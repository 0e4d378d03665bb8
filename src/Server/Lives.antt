-- ===== src/Server/Lives.antt =====
-- The lives of a server (homeblks_impl.cpp): containments, crashes and shutdowns, in any order.
use home_blocks.Prelude.{
  ◌≡◌, refl, ap, ap₂, sym, ◌∙◌, true, false, not, ◌&&◌, ℕ, Option, none, some,
}
use home_blocks.Prelude.Errors.{Result}
use home_blocks.Manager.State.{Manager}
use home_blocks.Server.Superblock.{HomeblksSb, Server, contain_server, shutdown, init_homestore}
use home_blocks.Server.Boots.{
  is_contained, IsOurs, boot, Booted, boots, boots_some, IsRunning, Booted-IsRunning,
  first_boot-IsRunning, contain_server-IsRunning, shutdown-Stopped,
}

-- What happens to a server: an operation on its volumes, a containment, and a new process after a crash
-- or after a shutdown.
pub data Life (s : Server) : Server → Type 0 where
  operate :
      (m : Manager) → m.is_restricted ≡ s.manager.is_restricted → Life s (record s { manager = m })
  contain : Life s (contain_server s)
  crash : {s' : Server} → boot s ≡ some s' → Life s s'
  stop : {s' : Server} (t : Server) → shutdown s ≡ some t → boot t ≡ some s' → Life s s'

pub data Lives (s : Server) : Server → Type 0 where
  here : Lives s s
  next : {t u : Server} → Lives s t → Life t u → Lives s u

boot-Booted :
    (uuid : ℕ) (b : HomeblksSb) (s s' : Server)
    → s.meta_blk ≡ some b
    → IsOurs uuid b
    → boot s ≡ some s'
    → Booted uuid b s'
unfolding boot
boot-Booted uuid b s s' f h e = boots uuid b h s' (ap (init_homestore none 0) (sym f) ∙ e)

Life-IsRunning :
    (uuid : ℕ) {s s' : Server}
    → Life s s'
    → IsRunning uuid s
    → IsRunning uuid s' × (is_contained s.sb ≡ true → is_contained s'.sb ≡ true)
Life-IsRunning uuid (operate m e) h = (
  record {
    ours = h.ours;
    cleared = h.cleared;
    identity = h.identity;
    stored = h.stored;
    found = h.found;
    stored_ours = h.stored_ours;
    same_mark = h.same_mark;
  },
  λ c. c,
)
Life-IsRunning uuid {s} contain h = let (r, c) = contain_server-IsRunning uuid s h in (r, λ _. c)
Life-IsRunning uuid {s} {s'} (crash e) h =
    let b = boot-Booted uuid h.stored s s' h.found h.stored_ours e in
    (Booted-IsRunning uuid h.stored s' h.stored_ours b, λ c. b.contained ∙ h.same_mark ∙ c)
Life-IsRunning uuid {s} {s'} (stop t e f) h =
    let p = shutdown-Stopped uuid s t h e in
    let b = boot-Booted uuid p.stored t s' p.found p.ours f in
    (Booted-IsRunning uuid p.stored s' p.ours b, λ c. b.contained ∙ p.same_mark ∙ c)

Lives-IsRunning :
    (uuid : ℕ) {s s' : Server}
    → IsRunning uuid s
    → Lives s s'
    → IsRunning uuid s' × (is_contained s.sb ≡ true → is_contained s'.sb ≡ true)
Lives-IsRunning uuid h here = (h, λ c. c)
Lives-IsRunning uuid h (next r l) =
    let (run, mark) = Lives-IsRunning uuid h r in
    let (run', mark') = Life-IsRunning uuid l run in (run', λ c. mark' (mark c))

-- Whatever happens to a server after its first boot (operations, containments, crashes, shutdowns), its
-- next boot passes the checks of the superblock, has the service id of the first boot, and keeps the
-- mark of a containment once it is set.
pub Lives-boot :
    (on_svc_id : Option (Result ℕ)) (generated : ℕ) (s₀ s : Server)
    → init_homestore on_svc_id generated none ≡ some s₀
    → Lives s₀ s
    → (s' : Server) × (boot s ≡ some s')
      × (s'.our_uuid ≡ s₀.our_uuid)
      × (is_contained s.sb ≡ true → is_contained s'.sb ≡ true)
unfolding boot
Lives-boot on_svc_id generated s₀ s e r =
    let uuid = s₀.our_uuid in
    let run = (Lives-IsRunning uuid (first_boot-IsRunning on_svc_id generated s₀ e) r).0 in
    let (s', f) = boots_some uuid run.stored run.stored_ours in
    let b = boots uuid run.stored run.stored_ours s' f in
    (s', ap (init_homestore none 0) run.found ∙ f, b.identity, λ c. b.contained ∙ run.same_mark ∙ c)

contain_server_writes : (s : Server) → (contain_server s).meta_blk ≡ some (contain_server s).sb
unfolding contain_server
contain_server_writes s = refl

-- A running server that is put into restricted mode is restricted after a crash; after a graceful
-- shutdown it is not, although the superblock is still marked.
pub contain_server-shutdown_forgets :
    (uuid : ℕ) (s t crashed stopped : Server)
    → IsRunning uuid s
    → boot (contain_server s) ≡ some crashed
    → shutdown (contain_server s) ≡ some t
    → boot t ≡ some stopped
    → (crashed.manager.is_restricted ≡ true)
      × (stopped.manager.is_restricted ≡ false)
      × (is_contained stopped.sb ≡ true)
contain_server-shutdown_forgets uuid s t crashed stopped h e f g =
    let (run, mark) = contain_server-IsRunning uuid s h in
    let p = shutdown-Stopped uuid (contain_server s) t run f in
    let b = boot-Booted uuid p.stored t stopped p.found p.ours g in
    let now = (contain_server s).sb in
    let c = boot-Booted uuid now (contain_server s) crashed (contain_server_writes s) run.ours e in
    (
      c.restricted ∙ ap₂ (λ x y. not x && y) run.cleared mark,
      b.restricted ∙ ap (λ x. not x && is_contained p.stored) p.marked,
      b.contained ∙ p.same_mark ∙ mark,
    )
