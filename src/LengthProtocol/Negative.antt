-- ===== src/LengthProtocol/Negative.antt =====
-- What `Decode` makes of a length that no `Encode` writes.
use learn_in_linux.Common.{
  ℕ, zero, suc, ◌+◌, ◌-◌, ◌%◌, ◌^◌, ◌≤◌, ◌<◌, ◌≡◌, refl, ap, ◌∙◌, true, false, [], ◌∷◌, ◌++◌, Bytes,
  take, length, ltb, ok, arith,
}
use native.Mathlib.Decide.{dec_lt}
use learn_in_linux.Common.Int.{negsuc}
use learn_in_linux.Text.{codes, atoi}
use learn_in_linux.LengthProtocol.{sep, sub_size, to_int, to_size, geb, decode}
use learn_in_linux.LengthProtocol.Frames.{find-sep}

take_all : (n : ℕ) (xs : Bytes) → length xs ≤ n → take n xs ≡ xs
take_all zero [] h = refl
take_all zero (x ∷ xs) h = absurd (omega arith)
take_all (suc n) [] h = refl
take_all (suc n) (x ∷ xs) h = ap (λ t. x ∷ t) (take_all n xs (omega arith))

surplus_minus :
    (n : ℕ) → n < 2 ^ 31 → geb (to_int (sub_size (sub_size (n + 4) 2) 4)) (negsuc 1) ≡ true
unfolding sub_size to_int geb
surplus_minus n small = elim (dec_lt n 2) [
  | no q ↦
      let e : ((2 ^ 64 + (2 ^ 64 + (n + 4) - 2) % 2 ^ 64 - 4) % 2 ^ 64) % 2 ^ 32 ≡ n - 2 =
        omega arith in
      let h : ltb (n - 2) (2 ^ 31) ≡ true = ground arith in rw (e, h) refl
  | yes q ↦
      let e : ((2 ^ 64 + (2 ^ 64 + (n + 4) - 2) % 2 ^ 64 - 4) % 2 ^ 64) % 2 ^ 32 ≡ 2 ^ 32 + n - 2 =
        omega arith in
      let h : ltb (2 ^ 32 + n - 2) (2 ^ 31) ≡ false = ground arith in rw (e, h) (ground arith)
]

-- A peer that announces the length -2 gets everything that it sent behind it taken as one message,
-- and the same bytes stay in the buffer.
pub decode_negative :
    (body : Bytes) → length body < 2 ^ 31 → decode (codes "-2" ++ (sep ++ body)) ≡ ok (body, body)
unfolding decode to_size atoi
decode_negative body small =
    let found =
      find-sep (codes "-2") body ((λ e. absurd (omega arith)), ((λ e. absurd (omega arith)), tt)) in
    let four : suc (suc (suc (suc (length body)))) ≡ length body + 4 = omega arith in
    let enough =
      ap (λ n. geb (to_int (sub_size (sub_size n 2) 4)) (negsuc 1)) four
      ∙ surplus_minus (length body) small in
    rw (decode, found, enough, take_all (2 ^ 64 - 2) body (omega arith)) refl
