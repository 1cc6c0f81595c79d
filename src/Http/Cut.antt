-- ===== src/Http/Cut.antt =====
-- `Util::cutString`: the texts between the separators.
use learn_in_linux.Common.{
  ℕ, zero, suc, ◌+◌, ◌-◌, ◌≤◌, ◌<◌, ◌≡◌, ◌≢◌, refl, sym, ap, ◌∙◌, inl, inr, true, false, none, some,
  List, [], ◌∷◌, ◌++◌, map, append-nil, append_assoc, Bytes, take, drop, flatten, All, length,
  length-drop, ltb, if◌then◌else◌, Bool-cases, Option-cases, Result, ok, fault, Fault, ◌>>=◌, arith,
}
use learn_in_linux.Text.{find, starts_with, substr}
use learn_in_linux.Text.Find.{find-split, find-take}

-- The loop, with `start` and `out` behind it. The fuel bounds its rounds.
unfoldable pub cut_loop : ℕ → Bytes → Bytes → ℕ → List Bytes → Result (ℕ × List Bytes)
cut_loop zero s sep start out = fault Fault.out_of_fuel
cut_loop (suc fuel) s sep start out =
    let found : Result (ℕ × List Bytes) = elim (find sep (drop start s)) [
      | none ↦ ok (start, out)
      | some p ↦ cut_loop fuel s sep (start + p + length sep) (out ++ substr s start p ∷ [])
    ] in
    if ltb start (length s) then found else ok (start, out)

-- Each round goes on by the separator at least, if that is not empty.
unfoldable pub cut_string : Bytes → Bytes → List Bytes → Result (List Bytes)
cut_string s sep out = do
  (start, out') ← cut_loop (suc (length s)) s sep 0 out
  if ltb start (length s) then ok (out' ++ drop start s ∷ []) else ok out'

-- `pieces`, each closed by the separator, and `rest` spell `s`, and the separator is in none of them.
pub record IsSplit (s sep : Bytes) (pieces : List Bytes) (rest : Bytes) : Type 0 where
  pub spells : flatten (map (λ p. p ++ sep) pieces) ++ rest ≡ s
  pub each : All (λ p. find sep p ≡ none) pieces
  pub last : find sep rest ≡ none

abbrev no_bytes : Bytes
no_bytes = []

drop_nil : (n : ℕ) → drop n no_bytes ≡ []
drop_nil zero = refl
drop_nil (suc n) = refl

drop-drop : (a b : ℕ) (s : Bytes) → drop (a + b) s ≡ drop b (drop a s)
drop-drop zero b s = ap (λ n. drop n s) (omega arith)
drop-drop (suc a) b [] = drop_nil (suc a + b) ∙ sym (drop_nil b)
drop-drop (suc a) b (c ∷ s) =
    let e : suc a + b ≡ suc (a + b) = omega arith in rw e (drop-drop a b s)

find_nothing : (sep : Bytes) → sep ≢ [] → find sep [] ≡ none
unfolding find starts_with
find_nothing [] h = absurd (h refl)
find_nothing (c ∷ sep) h = refl

length_positive : (q : Bytes) → q ≢ [] → 0 < length q
length_positive [] h = absurd (h refl)
length_positive (x ∷ q) h = omega arith

abbrev Cuts : ℕ → Bytes → Bytes → ℕ → List Bytes → Type 0
Cuts fuel s sep start out =
    (pieces : List Bytes) × (last : ℕ) × (cut_loop fuel s sep start out ≡ ok (last, out ++ pieces))
    × IsSplit (drop start s) sep pieces (drop last s)

cut_loop_lem :
    (fuel : ℕ) (s sep : Bytes) (start : ℕ) (out : List Bytes)
    → sep ≢ []
    → start ≤ length s
    → length s - start < fuel
    → Cuts fuel s sep start out
unfolding cut_loop
cut_loop_lem zero s sep start out ne le enough = absurd (omega arith)
cut_loop_lem (suc fuel) s sep start out ne le enough =
    elim (Option-cases (find sep (drop start s))) [
      | inl e ↦ ([], start, stops e, record { spells = refl; each = tt; last = e })
      | inr (p, e) ↦
          let rest = drop start s in
          let (spelled, room) = find-split sep rest p e in
          let on = start + p + length sep in
          let long = length-drop start s in
          let wide = length_positive sep ne in
          let inside : ltb start (length s) ≡ true = ground arith in
          let (pieces, last, q, split) =
            cut_loop_lem fuel s sep on (out ++ take p rest ∷ []) ne (omega arith) (omega arith) in
          let there : drop on s ≡ drop (p + length sep) rest =
            ap (λ n. drop n s) (omega arith) ∙ drop-drop start (p + length sep) s in
          (
            take p rest ∷ pieces,
            last,
            rw (cut_loop, inside, e)
                (q ∙ ap (λ o. ok (last, o)) (append_assoc out (take p rest ∷ []) pieces)),
            record {
              spells =
                  append_assoc (take p rest ++ sep) (flatten (map (λ x. x ++ sep) pieces))
                    (drop last s)
                  ∙ ap (λ t. (take p rest ++ sep) ++ t) (split.spells ∙ there)
                  ∙ append_assoc (take p rest) sep (drop (p + length sep) rest)
                  ∙ spelled;
              each = (find-take sep rest p ne e, split.each);
              last = split.last;
            },
          )
    ]
  where
    stops :
        find sep (drop start s) ≡ none → cut_loop (suc fuel) s sep start out ≡ ok (start, out ++ [])
    stops e = elim (Bool-cases (ltb start (length s))) [
      | inl q ↦ rw (cut_loop, q, e) (ap (λ o. ok (start, o)) (sym (append-nil out)))
      | inr q ↦ rw (cut_loop, q) (ap (λ o. ok (start, o)) (sym (append-nil out)))
    ]

-- For a separator that is not empty `cutString` returns. It appends the pieces that the separator closes,
-- and then what stands behind the last one, if that is not empty.
pub cut_string_lem :
    (s sep : Bytes) (out : List Bytes)
    → sep ≢ []
    → (pieces : List Bytes) × (rest : Bytes) × IsSplit s sep pieces rest
      × (cut_string s sep out
          ≡ ok ((out ++ pieces) ++ (if ltb 0 (length rest) then rest ∷ [] else [])))
unfolding cut_string
cut_string_lem s sep out ne =
    let (pieces, last, q, split) =
      cut_loop_lem (suc (length s)) s sep 0 out ne (omega arith) (omega arith) in
    let long = length-drop last s in
    (
      pieces,
      drop last s,
      split,
      elim (Bool-cases (ltb last (length s))) [
        | inl h ↦
            let some_left : ltb 0 (length (drop last s)) ≡ true = ground arith in
            rw (cut_string, q, h, some_left) refl
        | inr h ↦
            let none_left : ltb 0 (length (drop last s)) ≡ false = ground arith in
            rw (cut_string, q, h, none_left) (ap ok (sym (append-nil (out ++ pieces))))
      ],
    )
