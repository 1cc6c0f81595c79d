-- ===== src/Reactor/Calculator/Laws.antt =====
-- What `calculator` answers.
use learn_in_linux.Common.{
  ℕ, suc, ◌<◌, ◌≡◌, ◌≢◌, ◌⊎◌, inl, inr, refl, ◌||◌, ◌↔◌, Bool, true, false, ok, ◌==◌, arith,
  Bool-cases,
}
use learn_in_linux.Common.Int.{
  ℤ, pos, negsuc, is_zero, IsInt, int_min, abs, ◌+ℤ◌, ◌*ℤ◌, tdiv, tmod, add_int, sub_int, mul_int,
  div_int, mod_int,
}
use native.Mathlib.Nat.{div-add-mod}
use learn_in_linux.Reactor.Protocol.Request.{Request}
use learn_in_linux.Reactor.Protocol.Response.{Response}
use learn_in_linux.Reactor.Calculator.{calculator}

-- The divisor and the remainder make up the dividend again, and the remainder is smaller than the divisor.
tdiv-tmod :
    (a b : ℤ) → is_zero b ≡ false → (tdiv a b *ℤ b +ℤ tmod a b ≡ a) × (abs (tmod a b) < abs b)
unfolding tdiv tmod ◌+ℤ◌ ◌*ℤ◌
tdiv-tmod (pos a) (pos b) h = ground (arith, div-add-mod a b)
tdiv-tmod (pos a) (negsuc b) h = ground (arith, div-add-mod a (suc b))
tdiv-tmod (negsuc a) (pos b) h = ground (arith, div-add-mod (suc a) b)
tdiv-tmod (negsuc a) (negsuc b) h = ground (arith, div-add-mod (suc a) (suc b))

-- A quotient fits `int` but for the one of INT_MIN by -1.
tdiv-IsInt :
    (a b : ℤ) → IsInt a → is_zero b ≡ false → (a ≢ int_min) ⊎ (b ≢ negsuc 0) → IsInt (tdiv a b)
unfolding tdiv
tdiv-IsInt (pos a) (pos b) i h o = ground arith
tdiv-IsInt (pos a) (negsuc b) i h o = ground arith
tdiv-IsInt (negsuc a) (pos b) i h o = ground arith
tdiv-IsInt (negsuc a) (negsuc b) i h o = ground arith

abbrev pub is_operator : ℕ → Bool
is_operator c = c == b'+' || c == b'-' || c == b'*' || c == b'/' || c == b'%'

-- The answers to `x / y` and to `x % y` go together: where the first is a number, so is the second,
-- the quotient times `y` and the remainder add up to `x`, and the remainder is smaller than `y` in
-- absolute value.
pub quotient_remainder :
    (r : Request) (q : ℤ)
    → r.op ≡ b'/'
    → is_zero r.y ≡ false
    → calculator r ≡ ok (record { result = q; code = pos 0 })
    → (m : ℤ) × (calculator (record r { op = b'%' }) ≡ ok (record { result = m; code = pos 0 }))
      × (q *ℤ r.y +ℤ m ≡ r.x)
      × (abs m < abs r.y)
unfolding calculator div_int mod_int
quotient_remainder r q o z h =
    (tmod r.x r.y, ground arith, ground (arith, (tdiv-tmod r.x r.y z).0), (tdiv-tmod r.x r.y z).1)

-- Whenever `calculator` answers, `code_` tells how: 1 exactly for a division by zero, 2 exactly for a
-- remainder by zero, 3 exactly for a byte that is no operator; and with a code the result is 0.
pub calculator_code :
    (r : Request) (resp : Response)
    → calculator r ≡ ok resp
    → ((resp.code ≡ pos 1) ↔ ((r.op ≡ b'/') × (is_zero r.y ≡ true)))
      × ((resp.code ≡ pos 2) ↔ ((r.op ≡ b'%') × (is_zero r.y ≡ true)))
      × ((resp.code ≡ pos 3) ↔ (is_operator r.op ≡ false))
      × (resp.code ≢ pos 0 → resp.result ≡ pos 0)
unfolding calculator
calculator_code r resp h = elim (Bool-cases (is_operator r.op)) [
  | inl e ↦ ground arith
  | inr e ↦ ground arith
]

IsInt-of_abs : (a b : ℤ) → IsInt b → abs a < abs b → IsInt a
IsInt-of_abs (pos a) b i h = ground arith
IsInt-of_abs (negsuc a) b i h = ground arith

-- On two `int`s division and remainder always answer, and with an `int`, but for INT_MIN by -1.
pub calculator_divides :
    (r : Request)
    → IsInt r.x
    → IsInt r.y
    → (r.x ≢ int_min) ⊎ (r.y ≢ negsuc 0)
    → (r.op ≡ b'/') ⊎ (r.op ≡ b'%')
    → (resp : Response) × (calculator r ≡ ok resp) × IsInt resp.result
unfolding calculator div_int mod_int
calculator_divides r i j o w = elim (Bool-cases (is_zero r.y)) [
  | inl e ↦ elim w [
    | inl d ↦ (record { result = pos 0; code = pos 1 }, ground arith, refl)
    | inr m ↦ (record { result = pos 0; code = pos 2 }, ground arith, refl)
  ]
  | inr e ↦
      let fits = tdiv-IsInt r.x r.y i e o in
      elim w [
        | inl d ↦ (record { result = tdiv r.x r.y; code = pos 0 }, ground arith, fits)
        | inr m ↦ (
          record { result = tmod r.x r.y; code = pos 0 },
          ground arith,
          IsInt-of_abs (tmod r.x r.y) r.y j (tdiv-tmod r.x r.y e).1,
        )
      ]
]

-- Whenever `calculator` answers, both fields of the response are `int`s, if the operands are.
pub calculator-IsInt :
    (r : Request) (resp : Response)
    → IsInt r.x
    → IsInt r.y
    → calculator r ≡ ok resp
    → IsInt resp.code × IsInt resp.result
unfolding calculator add_int sub_int mul_int div_int mod_int
calculator-IsInt r resp i j h = ground (arith, tdiv-tmod r.x r.y, IsInt-of_abs (tmod r.x r.y) r.y j)
