-- ===== src/Text/Find.antt =====
-- Laws of `find` and `rfind`: where an occurrence lies, and what an appended text changes.
use learn_in_linux.Common.{
  ℕ, zero, suc, ◌+◌, ◌≤◌, ◌≡◌, ◌≢◌, refl, inl, inr, true, none, some, [], ◌∷◌, ◌++◌, Bytes, take,
  drop, length, arith, Option-cases, take-append-drop, length-take, Lacks,
}
use native.Mathlib.Nat.{zero-add, suc-add}
use learn_in_linux.Text.{starts_with, find, rfind}

starts_with-append : (pat s t : Bytes) → starts_with pat s ≡ true → starts_with pat (s ++ t) ≡ true
unfolding starts_with
starts_with-append [] s t h = refl
starts_with-append (p ∷ ps) [] t h = cc
starts_with-append (p ∷ ps) (c ∷ s) t h = ground (arith, starts_with-append ps s t)

starts_with_shorter :
    (pat s t : Bytes)
    → starts_with pat (s ++ t) ≡ true
    → length pat ≤ length s
    → starts_with pat s ≡ true
unfolding starts_with
starts_with_shorter [] s t h l = refl
starts_with_shorter (p ∷ ps) [] t h l = absurd (omega arith)
starts_with_shorter (p ∷ ps) (c ∷ s) t h l = ground (arith, starts_with_shorter ps s t)

starts_with-split :
    (pat s : Bytes)
    → starts_with pat s ≡ true
    → (pat ++ drop (length pat) s ≡ s) × (length pat ≤ length s)
unfolding starts_with
starts_with-split [] s h = (refl, omega arith)
starts_with-split (p ∷ ps) [] h = cc
starts_with-split (p ∷ ps) (c ∷ s) h = ground (arith, starts_with-split ps s)

-- A first occurrence at `i` cuts the text in three.
pub find-split :
    (pat s : Bytes) (i : ℕ)
    → find pat s ≡ some i
    → (take i s ++ (pat ++ drop (i + length pat) s) ≡ s) × (i + length pat ≤ length s)
unfolding find
find-split [] [] i h = ground arith
find-split (p ∷ ps) [] i h = unfold starts_with in cc
find-split pat (c ∷ s) zero h = elim (Option-cases (find pat s)) [
  | inl e ↦ ground (arith, starts_with-split pat (c ∷ s), zero-add (length pat))
  | inr (j, e) ↦ ground (arith, starts_with-split pat (c ∷ s), zero-add (length pat))
]
find-split pat (c ∷ s) (suc i) h = elim (Option-cases (find pat s)) [
  | inl e ↦ ground arith
  | inr (j, e) ↦ ground (arith, find-split pat s i, suc-add i (length pat))
]

-- An occurrence stays the first one when more text follows.
pub find-append : (pat s t : Bytes) (i : ℕ) → find pat s ≡ some i → find pat (s ++ t) ≡ some i
unfolding find
find-append [] [] [] i h = h
find-append [] [] (c ∷ t) i h = unfold starts_with in h
find-append (p ∷ ps) [] t i h = unfold starts_with in cc
find-append pat (c ∷ s) t i h = elim (Option-cases (find pat s)) [
  | inl e ↦ ground (arith, starts_with-append pat (c ∷ s) t)
  | inr (j, e) ↦ ground (
    arith,
    starts_with-append pat (c ∷ s) t,
    starts_with_shorter pat (c ∷ s) t,
    find-split pat s j e,
    find-append pat s t j e,
  )
]

length-ne-zero : (xs : Bytes) → xs ≢ [] → length xs ≢ 0
length-ne-zero [] h = absurd (h refl)
length-ne-zero (x ∷ xs) h = omega arith

-- What stands before the first occurrence holds no occurrence.
pub find-take :
    (pat s : Bytes) (i : ℕ) → pat ≢ [] → find pat s ≡ some i → find pat (take i s) ≡ none
find-take pat s i ne h = elim (Option-cases (find pat (take i s))) [
  | inl e ↦ e
  | inr (j, e) ↦
      let again : find pat s ≡ some j =
        rw (take-append-drop i s) at (find-append pat (take i s) (drop i s) j e) in
      let same : j ≡ i = cc in
      let room = (find-split pat (take i s) j e).1 in
      absurd (length-ne-zero pat ne (omega (arith, room, same, length-take i s)))
]

module _ (b : ℕ) where
  pub find-Lacks : (s : Bytes) → Lacks b s → find (b ∷ []) s ≡ none
  unfolding find starts_with
  find-Lacks [] h = refl
  find-Lacks (c ∷ s) h = ground (arith, find-Lacks s h.1)

  pub find_here : (s t : Bytes) → Lacks b s → find (b ∷ []) (s ++ b ∷ t) ≡ some (length s)
  unfolding find starts_with
  find_here [] t h = ground arith
  find_here (c ∷ s) t h = ground (arith, find_here s t h.1)

  pub Lacks-of_find : (s : Bytes) → find (b ∷ []) s ≡ none → Lacks b s
  unfolding find starts_with
  Lacks-of_find [] h = tt
  Lacks-of_find (c ∷ s) h = elim (Option-cases (find (b ∷ []) s)) [
    | inl e ↦ (λ q. ground arith, Lacks-of_find s e)
    | inr (j, e) ↦ ground arith
  ]

  pub rfind-Lacks : (s : Bytes) → Lacks b s → rfind (b ∷ []) s ≡ none
  unfolding rfind starts_with
  rfind-Lacks [] h = refl
  rfind-Lacks (c ∷ s) h = ground (arith, rfind-Lacks s h.1)

  pub rfind_here : (s t : Bytes) → Lacks b t → rfind (b ∷ []) (s ++ b ∷ t) ≡ some (length s)
  unfolding rfind
  rfind_here [] t h = unfold starts_with in ground (arith, rfind-Lacks t h)
  rfind_here (c ∷ s) t h = rw (rfind_here s t h, rfind)
