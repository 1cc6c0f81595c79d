-- ===== src/SelectServer/Table.antt =====
-- The array of descriptors: which slot is free, and what a write to a slot changes.
use learn_in_linux.Common.{
  ℕ, zero, suc, ◌+◌, ◌≤◌, ◌<◌, ◌≡◌, ◌≢◌, ◌⊎◌, inl, inr, refl, sym, ap, ◌∙◌, Option, none, some,
  List, [], ◌∷◌, length, get_or, set, get_or-set_self, get_or-set_ne, Bool-cases, ◌==◌, ==_true,
  ==_false, arith,
}
use learn_in_linux.SelectServer.{first_free, free_slot}

-- The entry of a slot.
abbrev pub entry : List (Option ℕ) → ℕ → Option ℕ
entry fds i = get_or fds i none

pub some_lt : (fds : List (Option ℕ)) (i : ℕ) {fd : ℕ} → entry fds i ≡ some fd → i < length fds
some_lt [] i h = absurd (cc h)
some_lt (x ∷ xs) zero h = omega arith
some_lt (x ∷ xs) (suc i) h = omega (arith, some_lt xs i h)

-- What stands in slot `j` after a write to slot `i`: the new entry, or what stood there.
pub entry-set :
    (fds : List (Option ℕ)) (i j : ℕ) (v : Option ℕ) {fd : ℕ}
    → i < length fds
    → entry (set fds i v) j ≡ some fd
    → (i ≡ j) × (v ≡ some fd) ⊎ (i ≢ j) × (entry fds j ≡ some fd)
entry-set fds i j v h e = elim (Bool-cases (i == j)) [
  | inl q ↦
      let same = ==_true i j q in
      inl (same, sym (get_or-set_self fds i v none h) ∙ ap (entry (set fds i v)) same ∙ e)
  | inr q ↦ let other = ==_false i j q in inr (other, sym (get_or-set_ne fds v none other) ∙ e)
]

first_free_le : (fds : List (Option ℕ)) → first_free fds ≤ length fds
unfolding first_free
first_free_le [] = omega arith
first_free_le (none ∷ fds) = omega arith
first_free_le (some fd ∷ fds) = omega (arith, first_free_le fds)

entry-first_free : (fds : List (Option ℕ)) → entry fds (first_free fds) ≡ none
unfolding first_free
entry-first_free [] = refl
entry-first_free (none ∷ fds) = refl
entry-first_free (some fd ∷ fds) = entry-first_free fds

first_free_taken :
    (fds : List (Option ℕ)) (i : ℕ) → i < first_free fds → (fd : ℕ) × (entry fds i ≡ some fd)
unfolding first_free
first_free_taken [] i h = absurd (omega arith)
first_free_taken (none ∷ fds) i h = absurd (omega arith)
first_free_taken (some fd ∷ fds) zero h = (fd, refl)
first_free_taken (some fd ∷ fds) (suc i) h = first_free_taken fds i (omega arith)

-- The slot that `Accepter` finds is the first free one behind slot 0, and the array's length if there
-- is none.
pub free_slot_lem :
    (fds : List (Option ℕ))
    → 0 < length fds
    → (0 < free_slot fds)
      × (free_slot fds ≤ length fds)
      × (entry fds (free_slot fds) ≡ none)
      × ((i : ℕ) → 0 < i → i < free_slot fds → (fd : ℕ) × (entry fds i ≡ some fd))
unfolding free_slot
free_slot_lem [] h = absurd (omega arith)
free_slot_lem (x ∷ fds) h =
    let e : first_free fds + 1 ≡ suc (first_free fds) = omega arith in
    (
      omega arith,
      omega (arith, first_free_le fds),
      ap (entry (x ∷ fds)) e ∙ entry-first_free fds,
      taken,
    )
  where
    taken : (i : ℕ) → 0 < i → i < first_free fds + 1 → (fd : ℕ) × (entry (x ∷ fds) i ≡ some fd)
    taken zero p q = absurd (omega arith)
    taken (suc i) p q = first_free_taken fds i (omega arith)
