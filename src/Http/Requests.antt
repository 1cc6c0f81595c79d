-- ===== src/Http/Requests.antt =====
-- Which requests the handler answers, and which end the process.
use learn_in_linux.Common.{
  ℕ, ◌≡◌, refl, true, Option, List, [], ◌∷◌, Bytes, Lacks, length, ok, fault, Fault, arith, ltb,
  ◌≢◌, ◌⊎◌, inl, inr, get_elem?, Option-cases, Result, ◌>>=◌,
}
use mathlib.Core.Path.{subst}
use learn_in_linux.Common.Outcomes.{Yields, Yields-bind}
use learn_in_linux.Text.{c_str}
use learn_in_linux.Text.Find.{find-Lacks}
use learn_in_linux.Reactor.Os.{Received}
use learn_in_linux.Http.{element, handler_http_request}
use learn_in_linux.Http.Cut.{cut_string, cut_loop, cut_string_lem}

-- A text without the separator is one piece.
cut_string_whole :
    (b c : ℕ) (s : Bytes) → Lacks b (c ∷ s) → cut_string (c ∷ s) (b ∷ []) [] ≡ ok ((c ∷ s) ∷ [])
unfolding cut_string cut_loop
cut_string_whole b c s h =
    let e = find-Lacks b (c ∷ s) h in
    let some_left : ltb 0 (length (c ∷ s)) ≡ true = ground arith in
    rw (cut_string, cut_loop, e) (rw some_left (rw some_left refl))

-- A text of one word, with no NUL in it, makes the handler read behind the end of a vector.
pub handler_http_request_word :
    (lines : Bytes → Option (List Bytes)) (c : ℕ) (s : Bytes)
    → c_str (c ∷ s) ≡ c ∷ s
    → Lacks b'\n' (c ∷ s)
    → Lacks b' ' (c ∷ s)
    → handler_http_request lines (Received.received (c ∷ s)) ≡ fault Fault.out_of_bounds
unfolding handler_http_request element
handler_http_request_word lines c s whole one_line one_word =
    rw
      (
        handler_http_request,
        whole,
        cut_string_whole b'\n' c s one_line,
        cut_string_whole b' ' c s one_word,
      )
      refl

abbrev MayFault : Fault → Type 0
MayFault Fault.out_of_bounds = Unit
MayFault Fault.uninitialized = Unit
MayFault _ = ⊥

abbrev Ends {ℓ} : {A : Type ℓ} → Result A → Type 0
Ends m = Yields MayFault (λ a. Unit) m

ok-Ends : {A : Type 0} (m : Result A) → (a : A) × (m ≡ ok a) → Ends m
ok-Ends m (a, e) = rw e tt

bind-Ends :
    {A B : Type 0} (m : Result A) (f : A → Result B)
    → Ends m
    → ((a : A) → Ends (f a))
    → Ends (m >>= f)
bind-Ends m f h next = Yields-bind MayFault (λ a. Unit) (λ b. Unit) m f h (λ a u. next a)

element-Ends : {A : Type 0} (v : List A) (i : ℕ) → Ends (element v i)
unfolding element
element-Ends v i = elim (Option-cases (get_elem? v i)) [
  | inl e ↦ rw (element, e) tt
  | inr (a, e) ↦ rw (element, e) tt
]

cut_string-Ends : (s sep : Bytes) → sep ≢ [] → Ends (cut_string s sep [])
cut_string-Ends s sep ne =
    let (pieces, rest, split, e) = cut_string_lem s sep [] ne in ok-Ends _ (_, e)

handler_http_request-Ends :
    (lines : Bytes → Option (List Bytes)) (r : Received) → Ends (handler_http_request lines r)
unfolding handler_http_request
handler_http_request-Ends lines (Received.received (b ∷ bs)) =
    bind-Ends (cut_string (c_str (b ∷ bs)) (b'\n' ∷ []) []) _
      (cut_string-Ends _ _ (λ e. absurd (cc e)))
      (λ vline. bind-Ends (element vline 0) _ (element-Ends vline 0) (λ line.
        bind-Ends (cut_string line (b' ' ∷ []) []) _ (cut_string-Ends _ _ (λ e. absurd (cc e)))
          (λ vblock. bind-Ends (element vblock 1) _ (element-Ends vblock 1) (λ file. tt))))
handler_http_request-Ends lines (Received.received []) = tt
handler_http_request-Ends lines (Received.not_received e) = tt

MayFault-cases : (e : Fault) → MayFault e → (e ≡ Fault.out_of_bounds) ⊎ (e ≡ Fault.uninitialized)
MayFault-cases Fault.out_of_bounds h = inl refl
MayFault-cases Fault.uninitialized h = inr refl
MayFault-cases _ h = absurd h

-- The handler returns for every request, or reads outside of a vector or a buffer that was not written.
pub handler_http_request-faults :
    (lines : Bytes → Option (List Bytes)) (r : Received) (e : Fault)
    → handler_http_request lines r ≡ fault e
    → (e ≡ Fault.out_of_bounds) ⊎ (e ≡ Fault.uninitialized)
handler_http_request-faults lines r e h =
    MayFault-cases e (subst Ends h (handler_http_request-Ends lines r))
