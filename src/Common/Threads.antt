-- ===== src/Common/Threads.antt =====
-- Sums over the threads of a program, each a program counter `P`: how many stand where, and how much
-- they hold. The order of the list says nothing.
use Prim.Native.Nat.{ℕ, zero, suc, ◌+◌, ◌≤◌, ◌<◌}
use mathlib.Core.Path.{◌≡◌, refl, ap, ◌∙◌, fun_ext, subst}
use mathlib.Core.Bool.{Bool, true, false}
use mathlib.Core.List.{List, [], ◌∷◌, ◌++◌}
use native.Mathlib.Omega.{arith}
use native.Mathlib.Decide.{dec_lt}
use learn_in_linux.Common.Lists.{replicate}

-- A mutex that is held counts one.
abbrev pub bit : Bool → ℕ
bit true = 1
bit false = 0

pub bit_le : (b : Bool) → bit b ≤ 1
bit_le true = omega arith
bit_le false = omega arith

module _ {P : Type 0} where
  unfoldable pub total : (P → ℕ) → List P → ℕ
  total w [] = 0
  total w (p ∷ ps) = w p + total w ps

  pub total-append :
      (w : P → ℕ) (before after : List P) (p : P)
      → total w (before ++ p ∷ after) ≡ w p + total w (before ++ after)
  unfolding total
  total-append w [] after p = refl
  total-append w (b ∷ bs) after p = omega (arith, total-append w bs after p)

  pub total-le : (v w : P → ℕ) → ((p : P) → v p ≤ w p) → (ps : List P) → total v ps ≤ total w ps
  unfolding total
  total-le v w h [] = omega arith
  total-le v w h (p ∷ ps) = omega (arith, h p, total-le v w h ps)

  pub total-replicate : (w : P → ℕ) (n : ℕ) (p : P) → w p ≡ 0 → total w (replicate n p) ≡ 0
  unfolding total
  total-replicate w zero p h = refl
  total-replicate w (suc n) p h = omega (arith, h, total-replicate w n p h)

  -- A thread of positive weight, where the sum is positive.
  pub find_thread :
      (w : P → ℕ) (ps : List P)
      → 0 < total w ps
      → (before : List P) × (p : P) × (after : List P) × (ps ≡ before ++ p ∷ after) × (0 < w p)
  unfolding total
  find_thread w [] h = absurd (omega arith)
  find_thread w (p ∷ ps) h = elim (dec_lt 0 (w p)) [
    | yes q ↦ ([], p, ps, refl, q)
    | no q ↦
        let (before, x, after, e, g) = find_thread w ps (omega arith) in
        (p ∷ before, x, after, ap (λ l. p ∷ l) e, g)
  ]

  -- The sum of a weight over a thread at `p` and the others.
  abbrev pub sums : P → List P → (P → ℕ) → ℕ
  sums p others w = w p + total w others

  -- A statement about the sums over all threads is one about a thread and the others.
  pub told_apart :
      (Holds : ((P → ℕ) → ℕ) → Type 0) (ps before after : List P) (p : P)
      → ps ≡ before ++ p ∷ after
      → Holds (λ w. total w ps)
      → Holds (sums p (before ++ after))
  told_apart Holds ps before after p e =
      subst Holds (fun_ext λ w. ap (total w) e ∙ total-append w before after p)

  pub told_apart_two :
      (Holds : ((P → ℕ) → ℕ) → Type 0) (others before after : List P) (x y : P)
      → others ≡ before ++ y ∷ after
      → Holds (sums x others)
      → Holds (λ w. w x + (w y + total w (before ++ after)))
  told_apart_two Holds others before after x y e =
      subst Holds (fun_ext λ w. ap (λ n. w x + n) (ap (total w) e ∙ total-append w before after y))

-- What the signal of a condition variable does to the other threads: nothing if none sleeps on it, else
-- it wakes one.
pub data Wakes {P : Type 0} (sleeps : P → ℕ) (IsWoken : P → P → Type 0) (ps : List P)
    : List P → Type 0 where
  nobody : total sleeps ps ≡ 0 → Wakes sleeps IsWoken ps ps
  one :
      (before after : List P) (p p' : P)
      → ps ≡ before ++ p ∷ after
      → IsWoken p p'
      → Wakes sleeps IsWoken ps (p' ∷ (before ++ after))
