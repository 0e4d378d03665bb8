-- ===== src/Craft/Lsns.antt =====
-- `std::set< int64_t >` as craft/craft_repl_dev.cpp uses it: an ascending list with no repetition.
use home_blocks.Prelude.{
  ℕ, zero, suc, ◌+◌, ◌≤◌, ◌≡◌, List, [], ◌∷◌, Bool, false, not, ◌&&◌, ◌||◌, arith, length,
  if◌then◌else◌, Bool-cases, inl, inr, ap, sym, ◌∙◌,
}
use home_blocks.Prelude.Int.{
  ℤ, pos, ◌+ℤ◌, ltb_ℤ, leb_ℤ, eqb_ℤ, eqb_ℤ_iff, +ℤ_parts, parts_exclusive,
}

abbrev pub Lsns : Type 0
Lsns = List ℤ

unfoldable pub contains : ℤ → Lsns → Bool
contains y [] = false
contains y (x ∷ xs) = eqb_ℤ y x || contains y xs

unfoldable pub insert : ℤ → Lsns → Lsns
insert y [] = y ∷ []
insert y (x ∷ xs) = if eqb_ℤ y x then x ∷ xs else if ltb_ℤ y x then y ∷ x ∷ xs else x ∷ insert y xs

unfoldable pub erase : ℤ → Lsns → Lsns
erase y [] = []
erase y (x ∷ xs) = if eqb_ℤ y x then erase y xs else x ∷ erase y xs

-- `s.erase(s.upper_bound(lsn), s.end())`
unfoldable pub erase_above : ℤ → Lsns → Lsns
erase_above y [] = []
erase_above y (x ∷ xs) = if leb_ℤ x y then x ∷ erase_above y xs else erase_above y xs

-- The gap loop of `write`: of the `n` slots from `gap` on, those with no Empty verdict are inserted.
unfoldable pub insert_gaps : ℕ → ℤ → Lsns → Lsns → Lsns
insert_gaps zero gap empties s = s
insert_gaps (suc n) gap empties s =
    insert_gaps n (gap +ℤ pos 1) empties (if contains gap empties then s else insert gap s)

pub contains-insert : (x y : ℤ) (s : Lsns) → contains x (insert y s) ≡ (eqb_ℤ x y || contains x s)
unfolding contains insert
contains-insert x y [] = ground arith
contains-insert x y (z ∷ s) = ground (arith, contains-insert x y s)

pub contains-erase :
    (x y : ℤ) (s : Lsns) → contains x (erase y s) ≡ (not (eqb_ℤ x y) && contains x s)
unfolding contains erase
contains-erase x y [] = ground arith
contains-erase x y (z ∷ s) = ground (arith, contains-erase x y s)

pub contains-erase_above :
    (x y : ℤ) (s : Lsns) → contains x (erase_above y s) ≡ (leb_ℤ x y && contains x s)
unfolding contains erase_above
contains-erase_above x y [] = ground arith
contains-erase_above x y (z ∷ s) = ground (arith, contains-erase_above x y s)

-- The slots from `gap` on below `gap + n`.
abbrev pub in_window : ℕ → ℤ → ℤ → Bool
in_window n gap x = leb_ℤ gap x && ltb_ℤ x (gap +ℤ pos n)

in_window-zero : (gap x : ℤ) → in_window zero gap x ≡ false
in_window-zero gap x = ground (arith, +ℤ_parts gap (pos 0))

in_window-suc :
    (n : ℕ) (gap x : ℤ) → in_window (suc n) gap x ≡ (eqb_ℤ x gap || in_window n (gap +ℤ pos 1) x)
in_window-suc n gap x = ground (
  arith,
  +ℤ_parts gap (pos 1),
  +ℤ_parts (gap +ℤ pos 1) (pos n),
  +ℤ_parts gap (pos (suc n)),
  parts_exclusive gap,
  parts_exclusive x,
)

contains-insert_unless :
    (x y : ℤ) (empties s : Lsns)
    → contains x (if contains y empties then s else insert y s)
      ≡ (contains x s || (eqb_ℤ x y && not (contains x empties)))
contains-insert_unless x y empties s = elim (Bool-cases (eqb_ℤ x y)) [
  | inl e ↦ rw ((eqb_ℤ_iff x y).0 e) (ground (arith, contains-insert y y s))
  | inr e ↦ ground (arith, contains-insert x y s)
]

gap_or : (b c w e : Bool) → ((b || (c && not e)) || (w && not e)) ≡ (b || ((c || w) && not e))
gap_or b c w e = ground arith

pub contains-insert_gaps :
    (x : ℤ) (n : ℕ) (gap : ℤ) (empties s : Lsns)
    → contains x (insert_gaps n gap empties s)
      ≡ (contains x s || (in_window n gap x && not (contains x empties)))
unfolding insert_gaps
contains-insert_gaps x zero gap empties s = rw (in_window-zero gap x) (ground arith)
contains-insert_gaps x (suc n) gap empties s =
    contains-insert_gaps x n (gap +ℤ pos 1) empties
      (if contains gap empties then s else insert gap s)
    ∙ ap (λ b. b || (in_window n (gap +ℤ pos 1) x && not (contains x empties)))
        (contains-insert_unless x gap empties s)
    ∙ gap_or (contains x s) (eqb_ℤ x gap) (in_window n (gap +ℤ pos 1) x) (contains x empties)
    ∙ ap (λ w. contains x s || (w && not (contains x empties))) (sym (in_window-suc n gap x))

pub length-insert : (y : ℤ) (s : Lsns) → length (insert y s) ≤ length s + 1
unfolding insert
length-insert y [] = omega arith
length-insert y (x ∷ s) = ground (arith, length-insert y s)

pub length-insert_gaps :
    (n : ℕ) (gap : ℤ) (empties s : Lsns) → length (insert_gaps n gap empties s) ≤ length s + n
unfolding insert_gaps
length-insert_gaps zero gap empties s = omega arith
length-insert_gaps (suc n) gap empties s = ground (
  arith,
  length-insert_gaps n (gap +ℤ pos 1) empties (if contains gap empties then s else insert gap s),
  length-insert gap s,
)

pub length-erase : (y : ℤ) (s : Lsns) → length (erase y s) ≤ length s
unfolding erase
length-erase y [] = omega arith
length-erase y (x ∷ s) = ground (arith, length-erase y s)
