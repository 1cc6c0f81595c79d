-- ===== src/Shell/Redir.antt =====
-- `CheckRedir`: which sign of redirection it finds, and where it cuts the line.
use learn_in_linux.Common.{
  ℕ, zero, suc, ◌+◌, ◌≤◌, ◌<◌, ◌≡◌, ◌≢◌, refl, sym, ap, ◌∙◌, none, some, [], ◌∷◌, ◌++◌,
  append_assoc, Bytes, All, Lacks, take, drop, take-length, drop_past, length, length-append,
  get_or, ==_ne, ok, fault, Fault, arith,
}
use learn_in_linux.Shell.{input_redir, output_redir, append_redir, redir_loop, check_redir}

-- A text without a sign of redirection.
abbrev pub Plain : Bytes → Type 0
Plain s = Lacks b'>' s × Lacks b'<' s

get_or-append : (xs ys : Bytes) (i : ℕ) → get_or (xs ++ ys) (i + length xs) 0 ≡ get_or ys i 0
get_or-append [] ys i = ap (λ n. get_or ys n 0) (omega arith)
get_or-append (x ∷ xs) ys i =
    let e : i + suc (length xs) ≡ suc (i + length xs) = omega arith in rw e (get_or-append xs ys i)

All-get_or : (P : ℕ → Type 0) (s : Bytes) (i : ℕ) → All P s → i < length s → P (get_or s i 0)
All-get_or P [] i h b = absurd (omega (arith, b))
All-get_or P (c ∷ s) zero (p, ps) b = p
All-get_or P (c ∷ s) (suc i) (p, ps) b = All-get_or P s i ps (omega (arith, b))

-- The loop passes over the plain end of the line.
redir_loop_plain :
    (front file : Bytes) (i : ℕ)
    → Plain file
    → i ≤ length file
    → redir_loop (i + length front) (front ++ file) ≡ redir_loop (length front) (front ++ file)
unfolding redir_loop
redir_loop_plain front file zero p h = ap (λ n. redir_loop n (front ++ file)) (omega arith)
redir_loop_plain front file (suc i) (gt, lt) h =
    let here = get_or-append front file i in
    let not_gt = ==_ne _ b'>' (All-get_or (λ c. c ≢ b'>') file i gt (omega (arith, h))) in
    let not_lt = ==_ne _ b'<' (All-get_or (λ c. c ≢ b'<') file i lt (omega (arith, h))) in
    let e : suc i + length front ≡ suc (i + length front) = omega arith in
    rw (e, redir_loop, here, not_gt, not_lt)
      (redir_loop_plain front file i (gt, lt) (omega (arith, h)))

check_redir_end :
    (front file : Bytes)
    → Plain file
    → check_redir (front ++ file) ≡ redir_loop (length front) (front ++ file)
unfolding check_redir
check_redir_end front file p =
    let e : length (front ++ file) ≡ length file + length front =
      omega (arith, length-append front file) in
    rw (check_redir, e) (redir_loop_plain front file (length file) p (omega arith))

get_or_here : (p t : Bytes) (c : ℕ) → get_or (p ++ c ∷ t) (length p) 0 ≡ c
get_or_here p t c = ap (λ n. get_or (p ++ c ∷ t) n 0) (omega arith) ∙ get_or-append p (c ∷ t) 0

drop_behind : (p t : Bytes) (c : ℕ) → drop (suc (length p)) (p ++ c ∷ t) ≡ t
drop_behind p t c =
    let e : suc (length p) ≡ length p + 1 = omega arith in
    ap (λ n. drop n (p ++ c ∷ t)) e ∙ drop_past p t c

-- With a sign behind `p` and a plain text behind it, the loop comes to the sign.
to_sign :
    (p file : Bytes) (sign : ℕ)
    → Plain file
    → check_redir (p ++ sign ∷ file) ≡ redir_loop (suc (length p)) (p ++ sign ∷ file)
to_sign p file sign h =
    let same = append_assoc p (sign ∷ []) file in
    let long : length (p ++ sign ∷ []) ≡ suc (length p) =
      omega (arith, length-append p (sign ∷ [])) in
    ap check_redir (sym same)
    ∙ check_redir_end (p ++ sign ∷ []) file h
    ∙ ap (λ n. redir_loop n ((p ++ sign ∷ []) ++ file)) long
    ∙ ap (redir_loop (suc (length p))) same

input_at :
    (p file : Bytes)
    → redir_loop (suc (length p)) (p ++ b'<' ∷ file) ≡ ok (some (input_redir, (p, file)))
unfolding redir_loop
input_at p file =
    rw (redir_loop, get_or_here p file b'<')
      (ap ok (
        ap some (
          ap (λ x. (input_redir, x))
            (rw (take-length p (b'<' ∷ file), drop_behind p file b'<') refl))))

-- The byte in front of a `>` decides.
module _ (p file : Bytes) (c : ℕ) where
  abbrev line : Bytes
  line = p ++ c ∷ (b'>' ∷ file)

  sign_at : get_or line (suc (length p)) 0 ≡ b'>'
  sign_at =
      let e : suc (length p) ≡ 1 + length p = omega arith in
      ap (λ n. get_or line n 0) e ∙ get_or-append p (c ∷ (b'>' ∷ file)) 1

  name_at : drop (suc (suc (length p))) line ≡ file
  name_at =
      let long : suc (length p) ≡ length (p ++ c ∷ []) = omega (arith, length-append p (c ∷ [])) in
      ap (λ n. drop (suc n) line) long
      ∙ ap (drop (suc (length (p ++ c ∷ [])))) (sym (append_assoc p (c ∷ []) (b'>' ∷ file)))
      ∙ drop_behind (p ++ c ∷ []) file b'>'

  command_at : take (suc (length p)) line ≡ p ++ c ∷ []
  command_at =
      let long : suc (length p) ≡ length (p ++ c ∷ []) = omega (arith, length-append p (c ∷ [])) in
      ap (λ n. take n line) long
      ∙ ap (take (length (p ++ c ∷ []))) (sym (append_assoc p (c ∷ []) (b'>' ∷ file)))
      ∙ take-length (p ++ c ∷ []) (b'>' ∷ file)

  output_at :
      c ≢ b'>'
      → redir_loop (suc (suc (length p))) line ≡ ok (some (output_redir, (p ++ c ∷ [], file)))
  unfolding redir_loop
  output_at ne =
      rw (redir_loop, sign_at, get_or_here p (b'>' ∷ file) c, ==_ne c b'>' ne)
        (ap (λ x. ok (some (output_redir, x))) (rw (command_at, name_at) refl))

  to_output : Plain file → check_redir line ≡ redir_loop (suc (suc (length p))) line
  to_output h =
      let same = append_assoc p (c ∷ []) (b'>' ∷ file) in
      let long : length (p ++ c ∷ []) ≡ suc (length p) = omega (arith, length-append p (c ∷ [])) in
      ap check_redir (sym same)
      ∙ to_sign (p ++ c ∷ []) file b'>' h
      ∙ ap (λ n. redir_loop (suc n) ((p ++ c ∷ []) ++ b'>' ∷ file)) long
      ∙ ap (redir_loop (suc (suc (length p)))) same

append_at :
    (p file : Bytes)
    → redir_loop (suc (suc (length p))) (line p file b'>') ≡ ok (some (append_redir, (p, file)))
unfolding redir_loop
append_at p file =
    rw (redir_loop, sign_at p file b'>', get_or_here p (b'>' ∷ file) b'>')
      (ap (λ x. ok (some (append_redir, x)))
        (rw (take-length p (b'>' ∷ (b'>' ∷ file)), name_at p file b'>') refl))

-- The last sign of redirection decides, for a `file` without one. No sign: NULL, and the line stays. `<`: input, with the
-- line cut there. `>` behind another byte: output, cut there. `>>`: appending, cut at the first of them. In each
-- case the text behind the sign is returned, its spaces included. A `>` at the start: a read
-- in front of the buffer.
pub check_redir_lem :
    (file : Bytes)
    → Plain file
    → (check_redir file ≡ ok none)
      × ((p : Bytes) → check_redir (p ++ b'<' ∷ file) ≡ ok (some (input_redir, (p, file))))
      × ((p : Bytes) (c : ℕ)
          → c ≢ b'>'
          → check_redir (p ++ c ∷ (b'>' ∷ file)) ≡ ok (some (output_redir, (p ++ c ∷ [], file))))
      × ((p : Bytes)
          → check_redir (p ++ b'>' ∷ (b'>' ∷ file)) ≡ ok (some (append_redir, (p, file))))
      × (check_redir (b'>' ∷ file) ≡ fault Fault.out_of_bounds)
unfolding redir_loop
check_redir_lem file h = (
  check_redir_end [] file h,
  (λ p. to_sign p file b'<' h ∙ input_at p file),
  (λ p c ne. to_output p file c h ∙ output_at p file c ne),
  (λ p. to_output p file b'>' h ∙ append_at p file),
  to_sign [] file b'>' h,
)
