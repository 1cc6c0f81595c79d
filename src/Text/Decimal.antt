-- ===== src/Text/Decimal.antt =====
-- `atoi` on what `std::to_string` wrote, and which bytes a printed number is made of.
use learn_in_linux.Common.{
  ℕ, zero, suc, ◌+◌, ◌/◌, ◌%◌, ◌≤◌, ◌<◌, ◌≡◌, ◌≢◌, sym, ap, ◌∙◌, false, [], ◌∷◌, Bytes, arith,
  Lacks, ok, fault, Fault, ◌⊎◌, refl, ltb, Bool-cases, inl, inr,
}
use learn_in_linux.Common.Int.{ℤ, pos, negsuc, IsInt, in_int}
use learn_in_linux.Text.{is_digit, scan, signed_value, skip_spaces, atoi, digits, to_string}

-- The text begins with a digit.
abbrev Leads : Bytes → Type 0
Leads [] = ⊥
Leads (c ∷ s) = (b'0' ≤ c) × (c ≤ b'9')

scan-digits : (f n : ℕ) (out : Bytes) → n < f → scan 0 (digits f n out) ≡ scan n out
unfolding digits scan
scan-digits zero n out h = absurd (omega arith)
scan-digits (suc f) n out h = ground (arith, scan-digits f (n / 10) ((b'0' + n % 10) ∷ out))

digits-Leads : (f n : ℕ) (out : Bytes) → n < f → Leads (digits f n out)
unfolding digits
digits-Leads zero n out h = absurd (omega arith)
digits-Leads (suc f) n out h = elim (Bool-cases (ltb n 10)) [
  | inl e ↦ rw (e, digits) (ground arith)
  | inr e ↦ rw (e, digits, Leads) (digits-Leads f (n / 10) ((b'0' + n % 10) ∷ out) (ground arith))
]

digits-Lacks :
    (b f n : ℕ) (out : Bytes) → is_digit b ≡ false → Lacks b out → Lacks b (digits f n out)
unfolding digits is_digit
digits-Lacks b zero n out d h = h
digits-Lacks b (suc f) n out d h = elim (Bool-cases (ltb n 10)) [
  | inl e ↦ rw (e, digits) ((λ q. ground arith), h)
  | inr e ↦
      rw (e, digits) (digits-Lacks b f (n / 10) ((b'0' + n % 10) ∷ out) d ((λ q. ground arith), h))
]

-- A printed number is made of digits and a minus sign.
pub to_string-Lacks : (b : ℕ) (z : ℤ) → is_digit b ≡ false → b ≢ b'-' → Lacks b (to_string z)
unfolding to_string
to_string-Lacks b (pos n) d m = digits-Lacks b (suc n) n [] d tt
to_string-Lacks b (negsuc n) d m = ((λ e. m (sym e)), digits-Lacks b (suc (suc n)) (suc n) [] d tt)

signed_value_lem : (s : Bytes) → Leads s → signed_value (skip_spaces s) ≡ pos (scan 0 s)
unfolding signed_value skip_spaces
signed_value_lem [] h = absurd h
signed_value_lem (c ∷ s) h = ground arith

signed_value-to_string : (z : ℤ) → signed_value (skip_spaces (to_string z)) ≡ z
unfolding to_string scan skip_spaces signed_value
signed_value-to_string (pos n) =
    signed_value_lem _ (digits-Leads (suc n) n [] (omega arith))
    ∙ ap pos (scan-digits (suc n) n [] (omega arith))
signed_value-to_string (negsuc n) = ground (arith, scan-digits (suc (suc n)) (suc n) [])

pub to_string-injective : (a b : ℤ) → to_string a ≡ to_string b → a ≡ b
to_string-injective a b e =
    sym (signed_value-to_string a)
    ∙ ap (λ s. signed_value (skip_spaces s)) e
    ∙ signed_value-to_string b

-- Every `int` is read back from its decimal print.
pub atoi-to_string : (z : ℤ) → IsInt z → atoi (to_string z) ≡ ok z
unfolding atoi
atoi-to_string z h = rw (signed_value-to_string z, h)

-- `atoi` gives a value, or the text's does not fit.
pub atoi-cases : (s : Bytes) → (atoi s ≡ fault Fault.atoi_overflow) ⊎ ((z : ℤ) × (atoi s ≡ ok z))
unfolding atoi
atoi-cases s = elim (Bool-cases (in_int (signed_value (skip_spaces s)))) [
  | inl e ↦ inr (signed_value (skip_spaces s), rw (atoi, e) refl)
  | inr e ↦ inl (rw (atoi, e) refl)
]
