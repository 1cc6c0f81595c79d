-- ===== src/RingQueue/Window.antt =====
-- The slots of a ring that hold values, as a list, and what a store and a load do to it.
use learn_in_linux.Common.{
  ℕ, zero, suc, ◌+◌, ◌-◌, ◌%◌, ◌<◌, ◌≡◌, ◌≢◌, refl, sym, ap, ◌∙◌, ◌⊎◌, inl, inr, ◌≤◌, List, [], ◌∷◌,
  ◌++◌, length, get_or, set, get_or-set_self, get_or-set_ne, arith,
}
use mathlib.Core.Path.{ap₂}
use native.Mathlib.Nat.{mod-add-mod, mod-eq_of_lt, mod-eq-sub-mod}
use native.Mathlib.Decide.{dec_lt}

module _ {A : Type 0} (d : A) (cap : ℕ) where
  -- The `n` values from slot `h` on, round the end of the ring.
  abbrev pub window : List A → ℕ → ℕ → List A
  window ring h zero = []
  window ring h (suc n) = get_or ring h d ∷ window ring ((h + 1) % cap) n

  pub length-window : (ring : List A) (h n : ℕ) → length (window ring h n) ≡ n
  length-window ring h zero = refl
  length-window ring h (suc n) = ap suc (length-window ring ((h + 1) % cap) n)

-- One lap at most: the remainder is the number or what is beyond `cap`.
one_lap : (cap x : ℕ) → x < cap + cap → (x < cap) × (x % cap ≡ x) ⊎ (cap ≤ x) × (x % cap + cap ≡ x)
one_lap cap x short = elim (dec_lt x cap) [
  | yes inside ↦ inl (inside, mod-eq_of_lt inside)
  | no beyond ↦
      let back = mod-eq-sub-mod {n = x} {m = cap} (omega arith) in
      let rest : (x - cap) % cap ≡ x - cap = mod-eq_of_lt (omega arith) in
      inr (omega arith, omega (arith, back, rest))
]

-- Fewer steps than the ring has slots do not come back to the same slot.
pub add-mod-ne : (cap h k : ℕ) → h < cap → 0 < k → k < cap → (h + k) % cap ≢ h
add-mod-ne cap h k inside some_steps few same = elim (one_lap cap (h + k) (omega arith)) [
  | inl (a, b) ↦ omega (arith, a, b, same)
  | inr (a, b) ↦ omega (arith, a, b, same)
]

module _ {A : Type 0} (d : A) (cap : ℕ) where
  -- `m` steps from `h`, the first of them on its own.
  slot_of : (h m : ℕ) → ((h + 1) % cap + m) % cap ≡ (h + suc m) % cap
  slot_of h m = mod-add-mod (h + 1) cap m ∙ ap (λ k. k % cap) (omega arith)

  -- A longer window ends with the slot behind the shorter one.
  window_last :
      (ring : List A) (h n : ℕ)
      → h < cap
      → window d cap ring h (suc n) ≡ window d cap ring h n ++ get_or ring ((h + n) % cap) d ∷ []
  window_last ring h zero inside =
      let small : (h + zero) % cap ≡ h + zero = mod-eq_of_lt (omega arith) in
      let here : h ≡ (h + zero) % cap = omega arith in ap (λ k. get_or ring k d ∷ []) here
  window_last ring h (suc n) inside =
      ap (λ w. get_or ring h d ∷ w)
        (window_last ring ((h + 1) % cap) n (omega arith)
          ∙ ap (λ k. window d cap ring ((h + 1) % cap) n ++ get_or ring k d ∷ []) (slot_of h n))

  -- A store behind the window leaves it as it is.
  window_kept :
      (ring : List A) (x : A) (h n m : ℕ)
      → h < cap
      → n ≤ m
      → m < cap
      → window d cap (set ring ((h + m) % cap) x) h n ≡ window d cap ring h n
  window_kept ring x h zero m inside le lt = refl
  window_kept ring x h (suc n) zero inside le lt = absurd (omega arith)
  window_kept ring x h (suc n) (suc m) inside le lt =
      ap₂ ◌∷◌ (get_or-set_ne ring x d (add-mod-ne cap h (suc m) inside (omega arith) lt)) (
        ap (λ k. window d cap (set ring k x) ((h + 1) % cap) n) (sym (slot_of h m))
        ∙ window_kept ring x ((h + 1) % cap) n m (omega arith) (omega arith) (omega arith))

-- A store into the slot behind the window makes it longer by that value.
pub window-set :
    {A : Type 0} (d : A) (cap n h i : ℕ) (ring : List A) (x : A)
    → length ring ≡ cap
    → h < cap
    → n < cap
    → i ≡ (h + n) % cap
    → window d cap (set ring i x) h (suc n) ≡ window d cap ring h n ++ x ∷ []
window-set d cap n h i ring x size inside room at =
    let slot = (h + n) % cap in
    let within : slot < length ring = omega arith in
    ap (λ k. window d cap (set ring k x) h (suc n)) at
    ∙ window_last d cap (set ring slot x) h n inside
    ∙ ap₂ (λ w y. w ++ y ∷ []) (window_kept d cap ring x h n n inside (omega arith) room)
        (get_or-set_self ring slot x d within)
