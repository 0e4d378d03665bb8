-- ===== src/Craft/Fetch.antt =====
-- What `fetch_data` answers.
use mathlib.Core.List.{map-append}
use home_blocks.Prelude.{
  ◌≡◌, ◌⊎◌, ap, refl, ap₂, ◌∙◌, subst, Bool, true, false, not, ◌&&◌, ◌||◌, List, [], ◌∷◌, ◌++◌, map,
  arith, if◌then◌else◌, inl, inr, All,
}
use home_blocks.Prelude.Int.{ℤ, pos, leb_ℤ}
use home_blocks.Prelude.Errors.{Error, Result, ok, err, Result-cases, ◌>>=◌}
use home_blocks.Craft.Lsns.{contains}
use home_blocks.Craft.Journal.{JournalSlot, JournalBackend, JournalLaws, empty_verdict}
use home_blocks.Craft.Device.{
  ReplDev, SlotKind, empty, present, absent, slot_kind, fetch_kind, fetch_data,
}
use home_blocks.Craft.Interleaving.{System}
use home_blocks.Craft.Coverage.{IsCovered}

-- The slots that a replica can answer for: a verdict, or a write behind the frontier that has
-- reached the journal.
abbrev pub answerable : ReplDev → ℤ → Bool
answerable d l =
    contains l d.empty_lsns
    || (leb_ℤ (pos 0) l && leb_ℤ l d.state.last_append_lsn && not (contains l d.missing_lsns))

abbrev pub answerable_among : ReplDev → List ℤ → List ℤ
answerable_among d [] = []
answerable_among d (l ∷ ls) =
    if answerable d l then l ∷ answerable_among d ls else answerable_among d ls

-- A slot of the request.
abbrev pub Among : ℤ → List ℤ → Type 0
Among l [] = ⊥
Among l (k ∷ ks) = (k ≡ l) ⊎ Among l ks

-- A slot with an Empty verdict is shown as such, whatever the journal holds.
abbrev pub ShowsVerdict : ReplDev → JournalSlot → Type 0
ShowsVerdict d slot = contains slot.lsn d.empty_lsns ≡ true → slot ≡ empty_verdict slot.lsn

abbrev Answers : ReplDev → List ℤ → Result (List JournalSlot) → Type 0
Answers d ls (ok slots) =
    (map (λ s. s.lsn) slots ≡ answerable_among d ls) × All (ShowsVerdict d) slots
Answers d ls (err e) = Unit

All-append {ℓ κ} :
    {A : Type ℓ} (P : A → Type κ) (xs ys : List A) → All P xs → All P ys → All P (xs ++ ys)
All-append P [] ys p q = q
All-append P (x ∷ xs) ys p q = (p.0, All-append P xs ys p.1 q)

Answers-cons :
    (d : ReplDev) (l : ℤ) (ls : List ℤ) (here rest : Result (List JournalSlot))
    → Answers d (l ∷ []) here
    → Answers d ls rest
    → Answers d (l ∷ ls) (do a ← here; b ← rest; ok (a ++ b))
Answers-cons d l ls (err e) rest p q = tt
Answers-cons d l ls (ok a) (err e) p q = tt
Answers-cons d l ls (ok a) (ok b) p q = (
  map-append (λ s. s.lsn) a b ∙ ap₂ ◌++◌ p.0 q.0 ∙ among-append (answerable d l),
  All-append (ShowsVerdict d) a b p.1 q.1,
)
  where
    among-append :
        (t : Bool)
        → (if t then l ∷ [] else []) ++ answerable_among d ls
          ≡ (if t then l ∷ answerable_among d ls else answerable_among d ls)
    among-append true = refl
    among-append false = refl

module _ {J Blk : Type 0} (backend : JournalBackend J Blk) where
  kind-Answers :
      (d : ReplDev) (j : J) (l : ℤ) (k : SlotKind)
      → slot_kind d l ≡ k
      → Answers d (l ∷ []) (fetch_kind backend j l k)
  unfolding fetch_kind slot_kind
  kind-Answers d j l empty e = ground arith
  kind-Answers d j l present e = elim (Result-cases (backend.read_slot l j)) [
    | inl (slot, r) ↦ rw r (ground arith)
    | inr (f, r) ↦ rw r tt
  ]
  kind-Answers d j l absent e = ground arith

  fetch_data-Answers :
      (d : ReplDev) (j : J) (ls : List ℤ) → Answers d ls (fetch_data backend d j ls)
  unfolding fetch_data
  fetch_data-Answers d j [] = (refl, tt)
  fetch_data-Answers d j (l ∷ ls) =
      Answers-cons d l ls (fetch_kind backend j l (slot_kind d l)) (fetch_data backend d j ls)
        (kind-Answers d j l (slot_kind d l) refl) (fetch_data-Answers d j ls)

  -- A response names, in the order of the request, exactly the slots with an Empty verdict and the
  -- slots from 0 to the frontier that are not missing; every other slot is left out. A slot with a
  -- verdict is shown as Empty, whatever the journal holds.
  pub fetch_data-lsns :
      (d : ReplDev) (j : J) (ls : List ℤ) (slots : List JournalSlot)
      → fetch_data backend d j ls ≡ ok slots
      → (map (λ s. s.lsn) slots ≡ answerable_among d ls) × All (ShowsVerdict d) slots
  fetch_data-lsns d j ls slots e = subst (Answers d ls) e (fetch_data-Answers d j ls)

module _ {J Blk : Type 0} (backend : JournalBackend J Blk) (laws : JournalLaws backend) where
  -- What an error of `fetch_kind` comes from.
  kind-held :
      (s : System J Blk) (l : ℤ) (k : SlotKind) (e : Error)
      → IsCovered backend laws s
      → slot_kind s.dev l ≡ k
      → fetch_kind backend s.journal l k ≡ err e
      → (laws.holds s.journal l ≡ true) × (backend.read_slot l s.journal ≡ err e)
  unfolding fetch_kind slot_kind
  kind-held s l empty e c k h = absurd (ground (arith, h))
  kind-held s l present e c k h = (
    ground (arith, c.slots l),
    elim (Result-cases (backend.read_slot l s.journal)) [
      | inl (slot, r) ↦ absurd (ground (arith, h, r))
      | inr (f, r) ↦ ground (arith, h, r)
    ],
  )
  kind-held s l absent e c k h = absurd (ground (arith, h))

  -- In a state where every slot from 0 to the frontier is accounted for, `fetch_data` fails only with
  -- the error that the journal gives for a slot of the request that it holds: it never asks the journal
  -- for a slot that is not there.
  pub fetch_data-held :
      (s : System J Blk) (ls : List ℤ) (e : Error)
      → IsCovered backend laws s
      → fetch_data backend s.dev s.journal ls ≡ err e
      → (l : ℤ) × Among l ls
        × (laws.holds s.journal l ≡ true)
        × (backend.read_slot l s.journal ≡ err e)
  unfolding fetch_data
  fetch_data-held s [] e c h = absurd (ground (arith, h))
  fetch_data-held s (l ∷ ls) e c h =
      let k = slot_kind s.dev l in
      elim (Result-cases (fetch_kind backend s.journal l k)) [
        | inr (f, r) ↦
            let same : f ≡ e = ground (arith, h, r) in
            let (held, read) = kind-held s l k f c refl r in (l, inl refl, held, read ∙ ap err same)
        | inl (here, r) ↦ elim (Result-cases (fetch_data backend s.dev s.journal ls)) [
          | inl (rest, q) ↦ absurd (ground (arith, h, r, q))
          | inr (f, q) ↦
              let same : f ≡ e = ground (arith, h, r, q) in
              let (x, there, held, read) = fetch_data-held s ls f c q in
              (x, inr there, held, read ∙ ap err same)
        ]
      ]
