-- ===== src/LengthProtocol/Frames.antt =====
-- `Decode` on what `Encode` wrote, whole and in part.
use learn_in_linux.Common.{
  ℕ, suc, ◌+◌, ◌-◌, ◌%◌, ◌^◌, ◌≤◌, ◌<◌, ◌≡◌, ◌≢◌, refl, sym, ap, ◌∙◌, true, false, some, [], ◌∷◌,
  ◌++◌, append_assoc, append-nil, Bytes, take, drop, length, ltb, ok, arith, Lacks, length-append,
  take-length, take-append_of_le, Option-cases, inl, inr,
}
use learn_in_linux.Common.Int.{pos}
use learn_in_linux.Text.{find, starts_with, atoi, to_string, is_digit}
use native.Mathlib.Decide.{dec_lt}
use learn_in_linux.Text.Find.{find-append, find-split}
use learn_in_linux.Text.Decimal.{atoi-to_string, to_string-Lacks}
use learn_in_linux.LengthProtocol.{sep, sub_size, to_int, to_size, geb, decode, encode}

-- A text without '\r' before the separator.
pub find-sep : (s t : Bytes) → Lacks b'\r' s → find sep (s ++ (sep ++ t)) ≡ some (length s)
unfolding find starts_with
find-sep [] t h = ground arith
find-sep (c ∷ s) t h = ground (arith, find-sep s t h.1)

-- Below 2 GiB `surplus` is what is left behind the length and both separators.
surplus_enough :
    (len p n : ℕ)
    → len < 2 ^ 31
    → p + 4 + n ≤ len
    → geb (to_int (sub_size (sub_size len p) 4)) (pos n) ≡ true
unfolding sub_size to_int geb
surplus_enough len p n small room =
    let e : ((2 ^ 64 + (2 ^ 64 + len - p) % 2 ^ 64 - 4) % 2 ^ 64) % 2 ^ 32 ≡ len - p - 4 =
      omega arith in
    let h : ltb (len - p - 4) (2 ^ 31) ≡ true = ground arith in rw (e, h) (ground arith)

surplus_short :
    (len p n : ℕ)
    → len < 2 ^ 31
    → p + 2 ≤ len
    → len < p + 4 + n
    → geb (to_int (sub_size (sub_size len p) 4)) (pos n) ≡ false
unfolding sub_size to_int geb
surplus_short len p n small room less = elim (dec_lt len (p + 4)) [
  | no q ↦
      let e : ((2 ^ 64 + (2 ^ 64 + len - p) % 2 ^ 64 - 4) % 2 ^ 64) % 2 ^ 32 ≡ len - p - 4 =
        omega arith in
      let h : ltb (len - p - 4) (2 ^ 31) ≡ true = ground arith in rw (e, h) (ground arith)
  | yes q ↦
      let e : ((2 ^ 64 + (2 ^ 64 + len - p) % 2 ^ 64 - 4) % 2 ^ 64) % 2 ^ 32
          ≡ 2 ^ 32 + len - p - 4 =
        omega arith in
      let h : ltb (2 ^ 32 + len - p - 4) (2 ^ 31) ≡ false = ground arith in rw (e, h) refl
]

pub drop-sep : (s t : Bytes) → drop (length s + 2) (s ++ (sep ++ t)) ≡ t
drop-sep [] t = refl
drop-sep (c ∷ s) t =
    let e : length (c ∷ s) + 2 ≡ suc (length s + 2) = omega arith in rw e (drop-sep s t)

-- The number of bytes before the first separator of a frame.
abbrev head_of : Bytes → Bytes
head_of s = to_string (pos (length s))

head_of-Lacks : (s : Bytes) → Lacks b'\r' (head_of s)
unfolding is_digit
head_of-Lacks s = to_string-Lacks b'\r' (pos (length s)) refl (λ e. absurd (omega arith))

atoi-head_of : (s : Bytes) → length s < 2 ^ 31 → atoi (head_of s) ≡ ok (pos (length s))
atoi-head_of s h = atoi-to_string (pos (length s)) (ground arith)

frame : (s rest : Bytes) → encode s ++ rest ≡ head_of s ++ (sep ++ (s ++ (sep ++ rest)))
unfolding encode
frame s rest =
    append_assoc (head_of s) (sep ++ (s ++ sep)) rest
    ∙ ap (λ t. head_of s ++ (sep ++ t)) (append_assoc s sep rest)

length-encode : (s : Bytes) → length (encode s) ≡ length (head_of s) + 4 + length s
unfolding encode
length-encode s = omega (arith, length-append (head_of s) (sep ++ (s ++ sep)), length-append s sep)

-- A frame at the front of the buffer is taken off it whole, whatever stands behind it, while the
-- buffer is shorter than 2 GiB.
pub decode-encode :
    (s rest : Bytes) → length (encode s ++ rest) < 2 ^ 31 → decode (encode s ++ rest) ≡ ok (s, rest)
unfolding decode to_size
decode-encode s rest small =
    let buffer = encode s ++ rest in
    let tail = s ++ (sep ++ rest) in
    let whole = frame s rest in
    let long = length-encode s in
    let all = length-append (encode s) rest in
    let found : find sep buffer ≡ some (length (head_of s)) =
      ap (find sep) whole ∙ find-sep (head_of s) tail (head_of-Lacks s) in
    let number : take (length (head_of s)) buffer ≡ head_of s =
      ap (take (length (head_of s))) whole ∙ take-length (head_of s) (sep ++ tail) in
    let body : drop (length (head_of s) + 2) buffer ≡ tail =
      ap (drop (length (head_of s) + 2)) whole ∙ drop-sep (head_of s) tail in
    let size : atoi (head_of s) ≡ ok (pos (length s)) = atoi-head_of s (omega arith) in
    let enough =
      surplus_enough (length buffer) (length (head_of s)) (length s) small (omega arith) in
    let after : (length s + 2) % 2 ^ 64 ≡ length s + 2 = omega arith in
    rw
      (
        decode,
        found,
        number,
        size,
        enough,
        body,
        after,
        take-length s (sep ++ rest),
        drop-sep s rest,
      )
      refl

length_positive : (q : Bytes) → q ≢ [] → 0 < length q
length_positive [] h = absurd (h refl)
length_positive (x ∷ q) h = omega arith

-- A proper beginning of a frame shorter than 2 GiB is left in the buffer, and nothing is returned.
pub decode_waits :
    (s p q : Bytes)
    → p ++ q ≡ encode s
    → q ≢ []
    → length (encode s) < 2 ^ 31
    → decode p ≡ ok ([], p)
unfolding decode
decode_waits s p q e more small = elim (Option-cases (find sep p)) [
  | inl none_yet ↦ rw (decode, none_yet) refl
  | inr (i, at) ↦
      let head = head_of s in
      let whole = sym (append-nil (encode s)) ∙ frame s [] in
      let there : find sep (p ++ q) ≡ some (length head) =
        ap (find sep) (e ∙ whole) ∙ find-sep head (s ++ (sep ++ [])) (head_of-Lacks s) in
      let same : i ≡ length head = cc (find-append sep p q i at, there) in
      let room : i + 2 ≤ length p = (find-split sep p i at).1 in
      let number : take i p ≡ head =
        sym (take-append_of_le i p q (omega arith))
        ∙ ap (take i) (e ∙ whole)
        ∙ ap (λ k. take k (head ++ (sep ++ (s ++ (sep ++ []))))) same
        ∙ take-length head (sep ++ (s ++ (sep ++ []))) in
      let long = length-encode s in
      let split : length p + length q ≡ length (encode s) = sym (length-append p q) ∙ ap length e in
      let some_more = length_positive q more in
      let size : atoi head ≡ ok (pos (length s)) = atoi-head_of s (omega arith) in
      let less = surplus_short (length p) i (length s) (omega arith) room (omega arith) in
      rw (decode, at, number, size, less) refl
]
