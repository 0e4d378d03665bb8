-- ===== src/Craft/Api.antt =====
-- The public CRAFT verbs over a volume handle (craft/craft_api.cpp) and the device verbs whose
-- handlers are stubs. A volume without a CRAFT backend refuses every verb.
use home_blocks.Prelude.{◌≡◌, Option, none, some}
use home_blocks.Prelude.Errors.{Result, err, not_supported}
use home_blocks.Craft.Journal.{JournalBackend}
use home_blocks.Craft.Device.{ReplDev, LsnPair, unsupported}
use home_blocks.Craft.Write.{Request, write}

-- `craft_dev_of`: a null handle, or a volume with no CRAFT device, has none. A device stands beside
-- its journal.
unfoldable pub craft_dev_of {ℓ} : {D : Type ℓ} → Option (Option D) → Option D
craft_dev_of none = none
craft_dev_of (some dev) = dev

-- Every verb: look the device up, and forward to it.
unfoldable pub forward {ℓ κ} :
    {D : Type ℓ} {A : Type κ}
    → (D → Result A × D)
    → Option (Option D)
    → Result A × Option (Option D)
unfolding craft_dev_of
forward verb v = elim (craft_dev_of v) [
  | none ↦ (err not_supported, v)
  | some d ↦ let (res, d') = verb d in (res, some (some d'))
]

module _ {J Blk : Type 0} (backend : JournalBackend J Blk) where
  unfoldable pub async_write :
      (ReplDev × J → ReplDev × J)
      → Request
      → Option (Option (ReplDev × J))
      → Result LsnPair × Option (Option (ReplDev × J))
  unfolding forward
  async_write meanwhile r = forward (λ s. write backend meanwhile r s.0 s.1)

  -- `login`, `logout`, `read`, `keep_alive` and `request_resolution`, forwarded to their stubs.
  unfoldable pub stub_verb {ℓ} :
      {A : Type ℓ} → Option (Option (ReplDev × J)) → Result A × Option (Option (ReplDev × J))
  unfolding forward unsupported
  stub_verb = forward (λ s. let (res, d) = unsupported s.0 in (res, (d, s.1)))

  -- A handle that is null or whose volume has no device refuses a write and stays; any other has
  -- the device's answer and the device's new state.
  pub async_write-forwards :
      (meanwhile : ReplDev × J → ReplDev × J) (r : Request) (v : Option (Option (ReplDev × J)))
      → (craft_dev_of v ≡ none → async_write meanwhile r v ≡ (err not_supported, v))
        × ((s : ReplDev × J)
            → craft_dev_of v ≡ some s
            → let (res, s') = write backend meanwhile r s.0 s.1 in
              async_write meanwhile r v ≡ (res, some (some s')))
  unfolding async_write
  async_write-forwards meanwhile r v = (λ e. rw (e, forward), λ s e. rw (e, forward))
