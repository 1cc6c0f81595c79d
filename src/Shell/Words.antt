-- ===== src/Shell/Words.antt =====
-- The words of a command line, and how `strtok` takes them.
use learn_in_linux.Common.{
  ℕ, ◌≤◌, ◌<◌, ◌≡◌, refl, sym, ap, ◌∙◌, false, inl, inr, ◌⊎◌, none, some, List, [], ◌∷◌, Bytes,
  length, ◌==◌, Bool-cases, if◌then◌else◌, arith,
}
use mathlib.Core.Path.{subst}
use learn_in_linux.Shell.{skip, token, strtok}

-- The texts between the spaces, the empty ones with them.
unfoldable pub grow : ℕ → List Bytes → List Bytes
grow c [] = (c ∷ []) ∷ []
grow c (p ∷ ps) = (c ∷ p) ∷ ps

unfoldable pub pieces : Bytes → List Bytes
pieces [] = [] ∷ []
pieces (c ∷ s) = let ps = pieces s in if c == b' ' then [] ∷ ps else grow c ps

unfoldable pub non_empty : List Bytes → List Bytes
non_empty [] = []
non_empty ([] ∷ ps) = non_empty ps
non_empty ((c ∷ p) ∷ ps) = (c ∷ p) ∷ non_empty ps

unfoldable pub words : Bytes → List Bytes
words s = non_empty (pieces s)

skip-words : (s : Bytes) → (words (skip s) ≡ words s) × (length (skip s) ≤ length s)
unfolding skip words pieces non_empty
skip-words [] = (refl, omega arith)
skip-words (c ∷ s) = elim (Bool-cases (c == b' ')) [
  | inl e ↦ let (same, le) = skip-words s in (rw (skip, e) same, rw (skip, e) (omega (arith, le)))
  | inr e ↦ (ap words (unchanged e), rw (skip, e) (omega arith))
]
  where
    unchanged : (c == b' ') ≡ false → skip (c ∷ s) ≡ c ∷ s
    unchanged e = rw (skip, e) refl

-- What `skip` leaves does not start with a space.
skip_start : (s : Bytes) (c : ℕ) (t : Bytes) → skip s ≡ c ∷ t → (c == b' ') ≡ false
unfolding skip
skip_start [] c t e = absurd (cc e)
skip_start (d ∷ s) c t e = elim (Bool-cases (d == b' ')) [
  | inl q ↦ skip_start s c t (rw (skip, q) at e)
  | inr q ↦ let same : d ≡ c = cc (rw (skip, q) at e) in subst (λ x. (x == b' ') ≡ false) same q
]

token-pieces :
    (s : Bytes)
    → (ps : List Bytes) × (pieces s ≡ (token s).0 ∷ ps)
      × (non_empty ps ≡ words (token s).1)
      × (length (token s).1 ≤ length s)
unfolding token pieces words non_empty grow
token-pieces [] = ([], refl, refl, omega arith)
token-pieces (c ∷ s) = elim (Bool-cases (c == b' ')) [
  | inl e ↦ (pieces s, rw (pieces, token, e) refl, rw (token, e) refl, rw (token, e) (omega arith))
  | inr e ↦
      let (ps, cut, rest, le) = token-pieces s in
      (ps, rw (pieces, token, e, cut) refl, rw (token, e) rest, rw (token, e) (omega (arith, le)))
]

-- `strtok` takes the first word and leaves the others.
pub strtok-words :
    (s : Bytes)
    → ((strtok s ≡ none) × (words s ≡ []))
      ⊎ ((w : Bytes) × (rest : Bytes) × (strtok s ≡ some (w, rest))
          × (words s ≡ w ∷ words rest)
          × (length rest < length s))
unfolding strtok words non_empty token pieces grow
strtok-words s = by_skip (skip s) refl
  where
    by_skip :
        (k : Bytes)
        → skip s ≡ k
        → ((strtok s ≡ none) × (words s ≡ []))
          ⊎ ((w : Bytes) × (rest : Bytes) × (strtok s ≡ some (w, rest))
              × (words s ≡ w ∷ words rest)
              × (length rest < length s))
    by_skip [] e = let (same, le) = skip-words s in inl (rw (strtok, e) refl, sym same ∙ ap words e)
    by_skip (c ∷ t) e =
        let (same, le) = skip-words s in
        let (ps, cut, rest, shorter) = token-pieces t in
        let q = skip_start s c t e in
        let le' : length (c ∷ t) ≤ length s = subst (λ k. length k ≤ length s) e le in
        inr (
          c ∷ (token t).0,
          (token t).1,
          rw (strtok, e, token, q) refl,
          sym same ∙ ap words e ∙ rw (words, pieces, q, cut) (ap (λ x. (c ∷ (token t).0) ∷ x) rest),
          omega (arith, le', shorter),
        )
