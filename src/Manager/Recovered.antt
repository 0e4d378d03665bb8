-- ===== src/Manager/Recovered.antt =====
-- The server after the recovery of its volumes (volume_mgr.cpp).
use home_blocks.Prelude.{
  ◌≡◌, refl, ap, ◌∙◌, subst, Bool, true, false, List, ◌∷◌, none, some, arith, ==_iff, if◌then◌else◌,
  Bool-cases, Option-cases, inl, inr,
}
use home_blocks.Prelude.Errors.{ok}
use home_blocks.Chunks.State.{Selector}
use home_blocks.Chunks.Recovery.{recover_chunks}
use home_blocks.Manager.State.{Vol, Manager, find_vol, is_destroying, is_offline}
use home_blocks.Manager.Ops.{emplace_vol, get_volume, remove_volume}
use home_blocks.Volume.Superblock.{VolSb, info_of, get_chunk_ids}
use home_blocks.Volume.Lifecycle.{recover_volume, init_recovered}
use home_blocks.Manager.Recovery.{
  Recovery, contains, erase_id, vol_of, resume_removal, add_recovered, on_vol_meta_blk_found,
}

-- One meta block: its volume is added, its ordinal reserved, and a removal that was under way resumed.
pub record Found (sb : VolSb) (r r' : Recovery) : Type 0 where
  pub vols : r'.manager.vols ≡ vol_of sb ∷ r.manager.vols
  pub reserved : r'.manager.reserved ≡ sb.ordinal ∷ r.manager.reserved
  pub restricted : r'.manager.is_restricted ≡ r.manager.is_restricted
  pub removals :
      r'.removals ≡ (if is_destroying (vol_of sb) then sb.id ∷ r.removals else r.removals)

destroying_online : (v : Vol) → is_destroying v ≡ true → is_offline v ≡ false
unfolding is_destroying is_offline
destroying_online v h = ground (arith, h)

remove_volume_ok :
    (m : Manager) (v : Vol)
    → m.is_restricted ≡ false
    → is_destroying v ≡ true
    → find_vol v.id m.vols ≡ some v
    → remove_volume v.id m ≡ ok tt
unfolding remove_volume get_volume
remove_volume_ok m v free d h = ground (arith, free, h, destroying_online v d)

pub found_first : (v : Vol) (vs : List Vol) → find_vol v.id (v ∷ vs) ≡ some v
found_first v vs = let e = (==_iff v.id v.id).1 refl in rw e refl

-- The state in front of the check for a removal.
abbrev with_vols : List Vol → Vol → Selector → Recovery → Recovery
with_vols vs v s r = record r {
  manager = record r.manager { vols = vs; reserved = v.ordinal ∷ r.manager.reserved };
  volume_chunks = s;
  idx_tbl_map = erase_id v.id r.idx_tbl_map;
}

abbrev joined : Vol → Selector → Recovery → Recovery
joined v s r = with_vols (v ∷ r.manager.vols) v s r

emplaced : (v : Vol) (vs : List Vol) → find_vol v.id vs ≡ none → emplace_vol v vs ≡ v ∷ vs
emplaced v vs h = ground (arith, h)

add_recovered-joined :
    (v : Vol) (s : Selector) (r : Recovery)
    → find_vol v.id r.manager.vols ≡ none
    → add_recovered v s r ≡ resume_removal v (joined v s r)
unfolding add_recovered
add_recovered-joined v s r new =
    ap (λ (vs : List Vol). resume_removal v (with_vols vs v s r)) (emplaced v r.manager.vols new)

resume_removal_lem :
    (v : Vol) (s : Selector) (r : Recovery)
    → r.manager.is_restricted ≡ false
    → resume_removal v (joined v s r) ≡ (
        if is_destroying v
        then record (joined v s r) { removals = v.id ∷ r.removals }
        else joined v s r)
unfolding resume_removal
resume_removal_lem v s r free = elim (Bool-cases (is_destroying v)) [
  | inr e ↦ rw e refl
  | inl e ↦
      let done = remove_volume_ok (joined v s r).manager v free e (found_first v r.manager.vols) in
      ground (arith, e, done)
]

add_recovered-Found :
    (sb : VolSb) (s : Selector) (r : Recovery)
    → find_vol sb.id r.manager.vols ≡ none
    → r.manager.is_restricted ≡ false
    → Found sb r (add_recovered (vol_of sb) s r)
add_recovered-Found sb s r new free =
    let v = vol_of sb in
    let e = add_recovered-joined v s r new ∙ resume_removal_lem v s r free in
    elim (Bool-cases (is_destroying v)) [
      | inl d ↦ record {
        vols = ground (arith, e, d);
        reserved = ground (arith, e, d);
        restricted = ground (arith, e, d);
        removals = ground (arith, e, d);
      }
      | inr d ↦ record {
        vols = ground (arith, e, d);
        reserved = ground (arith, e, d);
        restricted = ground (arith, e, d);
        removals = ground (arith, e, d);
      }
    ]

pub on_vol_meta_blk_found-Found :
    (sb : VolSb) (has_repl_dev : Bool) (r r' : Recovery)
    → find_vol sb.id r.manager.vols ≡ none
    → r.manager.is_restricted ≡ false
    → on_vol_meta_blk_found sb has_repl_dev r ≡ some r'
    → Found sb r r'
unfolding on_vol_meta_blk_found recover_volume init_recovered info_of
on_vol_meta_blk_found-Found sb has_repl_dev r r' new free h =
    elim (Option-cases
      (recover_chunks sb.ordinal sb.pdev_id sb.size (get_chunk_ids sb) r.volume_chunks)) [
        | inl e ↦ absurd (ground (arith, h, e))
        | inr ((false, s), e) ↦ absurd (ground (arith, h, e))
        | inr ((true, s), e) ↦ elim (Bool-cases (contains sb.id r.idx_tbl_map)) [
          | inr c ↦ absurd (ground (arith, h, e, c))
          | inl c ↦
              let same : add_recovered (vol_of sb) s r ≡ r' = ground (arith, h, e, c) in
              subst (Found sb r) same (add_recovered-Found sb s r new free)
        ]
      ]
