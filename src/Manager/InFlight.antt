-- ===== src/Manager/InFlight.antt =====
-- Requests beside the removal of their volume (volume_mgr.cpp; `vol_io_guard`, `inc_ref` and `dec_ref` of
-- volume/volume.hpp). A request checks the volume in `io_precheck` and counts itself afterwards; the
-- removal marks the volume and looks at the count afterwards. Each is a step of its own.
use home_blocks.Prelude.{ℕ, ◌+◌, ◌-◌, ◌≤◌, ◌<◌, ◌≡◌, refl, ◌∙◌, Bool, true, false, ◌||◌, arith}
use home_blocks.Prelude.Errors.{ok}
use home_blocks.Manager.State.{
  Vol, Manager, vol_destroying, vol_offline, is_offline, is_destroying, state_change, can_remove,
}
use home_blocks.Manager.Requests.{io_precheck}

-- `checked` requests are behind their check and not counted yet, and `running` ones are counted.
pub record Flight : Type 0 where
  pub manager : Manager
  pub vol : Vol
  pub checked : ℕ
  pub running : ℕ

-- The constructor of the guard.
unfoldable pub enter_guard : Flight → Flight
enter_guard f = record f {
  vol = record f.vol { outstanding_reqs = f.vol.outstanding_reqs + 1 };
  checked = f.checked - 1;
  running = f.running + 1;
}

-- Its destructor.
unfoldable pub leave_guard : Flight → Flight
leave_guard f = record f {
  vol = record f.vol { outstanding_reqs = f.vol.outstanding_reqs - 1 };
  running = f.running - 1;
}

-- `do_remove_volume` marks the volume.
unfoldable pub mark_removal : Flight → Flight
mark_removal f = record f { vol = state_change vol_destroying f.vol }

-- `destroy` begins, once `can_remove` has held.
unfoldable pub begin_destroy : Flight → Flight
begin_destroy f = record f { vol = record f.vol { destroy_started = true } }

-- `fault_containment` of the volume.
unfoldable pub contain_vol : Flight → Flight
contain_vol f = record f { vol = state_change vol_offline f.vol }

-- Marked, or marked and then put under containment.
abbrev pub is_shut : Vol → Bool
is_shut v = is_destroying v || is_offline v

pub data Step (f : Flight) : Flight → Type 0 where
  check :
      (blk_size addr len b : ℕ)
      → io_precheck blk_size f.vol addr len f.manager ≡ ok b
      → Step f (record f { checked = f.checked + 1 })
  enter : 0 < f.checked → Step f (enter_guard f)
  leave : 0 < f.running → Step f (leave_guard f)
  mark : Step f (mark_removal f)
  -- a fault containment of the volume begins; its end, which sets the volume online, is no step here
  contain : Step f (contain_vol f)
  start_destroy : is_shut f.vol ≡ true → can_remove f.vol ≡ true → Step f (begin_destroy f)

pub data Reach (f : Flight) : Flight → Type 0 where
  here : Reach f f
  next : {g h : Flight} → Reach f g → Step g h → Reach f h

-- The count of the volume is that of the requests that run, and only a volume that lets no request
-- pass is destroyed.
pub record IsCounted (f : Flight) : Type 0 where
  pub counts : f.vol.outstanding_reqs ≡ f.running
  pub marked : f.vol.destroy_started ≡ true → is_shut f.vol ≡ true

Step-IsCounted : {f g : Flight} → Step f g → IsCounted f → IsCounted g
unfolding enter_guard leave_guard mark_removal contain_vol begin_destroy state_change is_destroying
    is_offline
Step-IsCounted (check blk_size addr len b e) h = record { counts = h.counts; marked = h.marked }
Step-IsCounted (enter p) h = record { counts = omega (arith, h.counts); marked = h.marked }
Step-IsCounted (leave p) h = record { counts = omega (arith, h.counts); marked = h.marked }
Step-IsCounted mark h = record { counts = h.counts; marked = λ _. refl }
Step-IsCounted contain h = record { counts = h.counts; marked = λ _. refl }
Step-IsCounted (start_destroy d c) h = record { counts = h.counts; marked = λ _. d }

-- A volume that is being destroyed or is offline passes no check.
no_check :
    (blk_size addr len b : ℕ) (v : Vol) (m : Manager)
    → is_shut v ≡ true
    → io_precheck blk_size v addr len m ≡ ok b
    → ⊥
unfolding io_precheck
no_check blk_size addr len b v m d e = ground (arith, d, e)

-- While the volume is destroyed, no request joins those that are behind their check.
Step-bounded :
    {f g : Flight}
    → Step f g
    → IsCounted f
    → f.vol.destroy_started ≡ true
    → (g.vol.destroy_started ≡ true) × (g.checked + g.running ≤ f.checked + f.running)
unfolding enter_guard leave_guard mark_removal contain_vol begin_destroy state_change
Step-bounded {f} (check blk_size addr len b e) h d =
    absurd (no_check blk_size addr len b f.vol f.manager (h.marked d) e)
Step-bounded (enter p) h d = (d, omega arith)
Step-bounded (leave p) h d = (d, omega arith)
Step-bounded mark h d = (d, omega arith)
Step-bounded contain h d = (d, omega arith)
Step-bounded (start_destroy e c) h d = (refl, omega arith)

Reach-bounded :
    {f g : Flight}
    → IsCounted f
    → f.vol.destroy_started ≡ true
    → Reach f g
    → IsCounted g × (g.vol.destroy_started ≡ true) × (g.checked + g.running ≤ f.checked + f.running)
Reach-bounded h d here = (h, d, omega arith)
Reach-bounded h d (next r s) =
    let (h', d', le) = Reach-bounded h d r in
    let (d'', le') = Step-bounded s h' d' in (Step-IsCounted s h', d'', omega arith)

can_remove-idle : (v : Vol) → can_remove v ≡ true → v.outstanding_reqs ≡ 0
unfolding can_remove
can_remove-idle v h = ground (arith, h)

idle-can_remove :
    (v : Vol) → v.outstanding_reqs ≡ 0 → v.destroy_started ≡ false → can_remove v ≡ true
unfolding can_remove
idle-can_remove v h k = ground (arith, h, k)

-- Once the destruction of a volume has begun, with the volume marked or offline, only the requests that
-- were between their check and their count at that moment can run on it, as long as no fault containment
-- of the volume ends.
pub begin_destroy-bounds :
    (f g : Flight)
    → IsCounted f
    → is_shut f.vol ≡ true
    → can_remove f.vol ≡ true
    → Reach (begin_destroy f) g
    → g.checked + g.running ≤ f.checked
unfolding begin_destroy
begin_destroy-bounds f g h d c r =
    let (_, _, le) = Reach-bounded (Step-IsCounted (start_destroy d c) h) refl r in
    omega (arith, le, h.counts, can_remove-idle f.vol c)

-- Such a request can: whenever an idle volume lets a request pass, there is an order of steps in which
-- the volume's destruction begins and the request runs on it afterwards.
pub io_after_destroy :
    (f : Flight) (blk_size addr len b : ℕ)
    → IsCounted f
    → f.running ≡ 0
    → f.vol.destroy_started ≡ false
    → io_precheck blk_size f.vol addr len f.manager ≡ ok b
    → (g : Flight) × Reach f g × (g.vol.destroy_started ≡ true) × (g.running ≡ 1)
unfolding mark_removal begin_destroy enter_guard state_change is_destroying is_offline
io_after_destroy f blk_size addr len b h idle free e =
    let f₁ = record f { checked = f.checked + 1 } in
    let f₂ = mark_removal f₁ in
    let removable : can_remove f₂.vol ≡ true = idle-can_remove f₂.vol (h.counts ∙ idle) free in
    let f₃ = begin_destroy f₂ in
    let passed : Reach f f₁ = next here (check blk_size addr len b e) in
    let gone : Reach f f₃ = next (next passed mark) (start_destroy refl removable) in
    (enter_guard f₃, next gone (enter (omega arith)), refl, omega arith)
