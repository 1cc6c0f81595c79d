-- ===== src/LengthProtocol/Members.antt =====
-- Texts in place of jsoncpp's that keep its laws: each member is the length of its key, the key, and its
-- value as one number.
use learn_in_linux.Common.{
  ℕ, zero, suc, ◌+◌, ◌-◌, ◌*◌, ◌/◌, ◌%◌, ◌≤◌, ◌≡◌, ◌≢◌, refl, List, [], ◌∷◌, ◌++◌, Bytes, All,
  All-append, Lacks, take, drop, length, length-append, get_or, take-length, drop_past, ◌==◌,
  if◌then◌else◌, Result, ok, Bool-cases, inl, inr, arith,
}
use learn_in_linux.Common.Int.{ℤ, pos, negsuc}
use learn_in_linux.Text.{same_bytes, same_bytes_refl, same_bytes_eq}
use learn_in_linux.LengthProtocol.Json.{Json, Laws}

abbrev value : ℤ → ℕ
value (pos n) = 2 * n
value (negsuc n) = 2 * n + 1

abbrev of_value : ℕ → ℤ
of_value n = if n % 2 == 0 then pos (n / 2) else negsuc (n / 2)

of_value-value : (z : ℤ) → of_value (value z) ≡ z
of_value-value (pos n) =
    let e : (2 * n) % 2 ≡ 0 = omega arith in let d : (2 * n) / 2 ≡ n = omega arith in rw (e, d) refl
of_value-value (negsuc n) =
    let e : (2 * n + 1) % 2 ≡ 1 = omega arith in
    let d : (2 * n + 1) / 2 ≡ n = omega arith in rw (e, d) refl

abbrev entries : List (Bytes × ℤ) → Bytes
entries [] = []
entries ((key, z) ∷ ms) = suc (length key) ∷ (key ++ suc (value z) ∷ entries ms)

-- The value behind the key; the fuel bounds the number of members.
abbrev scan : ℕ → Bytes → Bytes → Result ℤ
scan zero t key = ok (pos 0)
scan (suc f) [] key = ok (pos 0)
scan (suc f) (n ∷ t) key =
    let rest = scan f (drop n t) key in
    if same_bytes (take (n - 1) t) key then ok (of_value (get_or t (n - 1) 0 - 1)) else rest

abbrev pub members : Json
members = record {
  Value = Bytes;
  write = λ ms. b'{' ∷ entries ms;
  parse = drop 1;
  as_int = λ v key. scan (length v) v key;
}

get_or_here : (xs ys : Bytes) (y : ℕ) → get_or (xs ++ y ∷ ys) (length xs) 0 ≡ y
get_or_here [] ys y = refl
get_or_here (x ∷ xs) ys y = get_or_here xs ys y

enough : (ms : List (Bytes × ℤ)) → length ms ≤ length (entries ms)
enough [] = omega arith
enough ((key, z) ∷ ms) = omega (arith, enough ms, length-append key (suc (value z) ∷ entries ms))

scan-entries :
    (f : ℕ) (before after : List (Bytes × ℤ)) (key : Bytes) (v : ℤ)
    → length (before ++ (key, v) ∷ after) ≤ f
    → All (λ m. m.0 ≢ key) before
    → scan f (entries (before ++ (key, v) ∷ after)) key ≡ ok v
scan-entries zero before after key v h apart =
    absurd (omega (arith, length-append before ((key, v) ∷ after)))
scan-entries (suc f) [] after key v h apart =
    let a : suc (length key) - 1 ≡ length key = omega arith in
    let b : suc (value v) - 1 ≡ value v = omega arith in
    rw
      (
        a,
        take-length key (suc (value v) ∷ entries after),
        same_bytes_refl key,
        get_or_here key (entries after) (suc (value v)),
        b,
        of_value-value v,
      )
      refl
scan-entries (suc f) ((k, z) ∷ before) after key v h (other, apart) =
    elim (Bool-cases (same_bytes k key)) [
      | inl same ↦ absurd (other (same_bytes_eq k key same))
      | inr differs ↦
          let tail = entries (before ++ (key, v) ∷ after) in
          let a : suc (length k) - 1 ≡ length k = omega arith in
          let d : suc (length k) ≡ length k + 1 = omega arith in
          rw (a, take-length k (suc (value z) ∷ tail), differs, d, drop_past k tail (suc (value z)))
            (scan-entries f before after key v (omega arith) apart)
    ]

entries-Lacks : (ms : List (Bytes × ℤ)) → All (λ m. Lacks 0 m.0) ms → Lacks 0 (entries ms)
entries-Lacks [] h = tt
entries-Lacks ((key, z) ∷ ms) (k, h) = (
  (λ e. absurd (omega arith)),
  All-append _ key (suc (value z) ∷ entries ms) k ((λ e. absurd (omega arith)), entries-Lacks ms h),
)

pub members_Laws : Laws members
members_Laws = record {
  read_back = λ before after key v i apart later.
      scan-entries (length (entries (before ++ (key, v) ∷ after))) before after key v
        (enough (before ++ (key, v) ∷ after)) apart;
  filled = λ ms e. absurd (cc e);
  no_nul = λ ms h. ((λ e. absurd (omega arith)), entries-Lacks ms h);
}
