-- ===== src/Http/Pages.antt =====
-- A request line cut into its words, and the page that the handler sends for it.
use learn_in_linux.Common.{
  ℕ, ◌≡◌, ◌≢◌, refl, sym, ap, ◌∙◌, Option, none, some, List, [], ◌∷◌, ◌++◌, map, append_assoc,
  Bytes, Lacks, All-append, flatten, length, ltb, if◌then◌else◌, ok, arith, Bool-cases,
  Option-cases, inl, inr,
}
use mathlib.Core.Path.{subst}
use learn_in_linux.Text.{codes, c_str, find, same_bytes, same_bytes_eq}
use learn_in_linux.Text.Find.{find_here, Lacks-of_find}
use learn_in_linux.Reactor.Os.{Received}
use learn_in_linux.Http.{element, target, http_response, handler_http_request}
use learn_in_linux.Http.Cut.{IsSplit, cut_string, cut_string_lem}

module _ (b : ℕ) where
  -- The first separator is in one place only.
  first_place :
      (p q t u : Bytes) → Lacks b p → Lacks b q → p ++ b ∷ t ≡ q ++ b ∷ u → (p ≡ q) × (t ≡ u)
  first_place [] [] t u hp hq e = (refl, cc e)
  first_place [] (d ∷ q) t u hp (n, hq) e = let same : b ≡ d = cc e in absurd (n (sym same))
  first_place (c ∷ p) [] t u (n, hp) hq e = let same : c ≡ b = cc e in absurd (n same)
  first_place (c ∷ p) (d ∷ q) t u (n, hp) (m, hq) e =
      let head : c ≡ d = cc e in
      let tail : p ++ b ∷ t ≡ q ++ b ∷ u = cc e in
      let (rest, same) = first_place p q t u hp hq tail in (cc (head, rest), same)

  first_piece :
      (p t : Bytes) (pieces : List Bytes) (rest : Bytes)
      → Lacks b p
      → IsSplit (p ++ b ∷ t) (b ∷ []) pieces rest
      → (others : List Bytes) × (pieces ≡ p ∷ others) × IsSplit t (b ∷ []) others rest
  first_piece p t [] rest h split =
      absurd (cc (split.last, ap (find (b ∷ [])) split.spells, find_here b p t h))
  first_piece p t (q ∷ qs) rest h split =
      let (q_none, each) = split.each in
      let spelled =
        sym (append_assoc q (b ∷ []) (flatten (map (λ x. x ++ b ∷ []) qs) ++ rest))
        ∙ sym (append_assoc (q ++ b ∷ []) (flatten (map (λ x. x ++ b ∷ []) qs)) rest)
        ∙ split.spells in
      let (same, tail) = first_place q p _ t (Lacks-of_find b q q_none) h spelled in
      (qs, ap (λ x. x ∷ qs) same, record { spells = tail; each = each; last = split.last })

  -- What `cutString` appends begins with the text in front of the first separator.
  cut_string-first :
      (p t : Bytes)
      → Lacks b p
      → (v : List Bytes) × (others : List Bytes) × (rest : Bytes) × (cut_string
            (p ++ b ∷ t)
            (b ∷ [])
            []
          ≡ ok (p ∷ v))
        × IsSplit t (b ∷ []) others rest
        × (v ≡ others ++ (if ltb 0 (length rest) then rest ∷ [] else []))
  cut_string-first p t h =
      let (pieces, rest, split, e) = cut_string_lem (p ++ b ∷ t) (b ∷ []) [] (λ x. absurd (cc x)) in
      let (others, same, tail) = first_piece p t pieces rest h split in
      (
        others ++ (if ltb 0 (length rest) then rest ∷ [] else []),
        others,
        rest,
        e ∙ ap (λ ps. ok (ps ++ (if ltb 0 (length rest) then rest ∷ [] else []))) same,
        tail,
        refl,
      )

  cut_string-second :
      (p q t : Bytes)
      → Lacks b p
      → Lacks b q
      → (v : List Bytes) × (cut_string (p ++ b ∷ (q ++ b ∷ t)) (b ∷ []) [] ≡ ok (p ∷ (q ∷ v)))
  cut_string-second p q t hp hq =
      let (v, others, rest, e, split, same) = cut_string-first p (q ++ b ∷ t) hp in
      let (more, others_are, tail) = first_piece q t others rest hq split in
      (
        _,
        e
            ∙ ap (λ x. ok (p ∷ x))
                (same ∙ ap (λ o. o ++ (if ltb 0 (length rest) then rest ∷ [] else [])) others_are),
      )

-- The text of a file, as the handler reads it: without the ends of its lines, and nothing if it cannot be opened.
unfoldable pub content : (Bytes → Option (List Bytes)) → Bytes → Bytes
content lines file = elim (lines (target file)) [ none ↦ [] | some ls ↦ flatten ls ]

handler-received :
    (lines : Bytes → Option (List Bytes)) (s meth path : Bytes) (line : Bytes) (ls ws : List Bytes)
    → s ≢ []
    → cut_string (c_str s) (b'\n' ∷ []) [] ≡ ok (line ∷ ls)
    → cut_string line (b' ' ∷ []) [] ≡ ok (meth ∷ (path ∷ ws))
    → handler_http_request lines (Received.received s) ≡ ok (http_response (content lines path))
unfolding handler_http_request element content
handler-received lines [] meth path line ls ws ne first second = absurd (ne refl)
handler-received lines (c ∷ s) meth path line ls ws ne first second =
    rw (handler_http_request, first, second, content) refl

-- The file that a path names: the home page for `/`, and else the path under the web root.
pub data Names : Bytes → Bytes → Type 0 where
  home : Names (codes "/") (codes "./wwwroot/index.html")
  under_root : {path : Bytes} → path ≢ codes "/" → Names path (codes "./wwwroot" ++ path)

-- The reply for a file: status 200 and its text, or status 404 if it has none or cannot be opened.
pub data Replies (lines : Bytes → Option (List Bytes)) (file : Bytes) : Bytes → Type 0 where
  found :
      {ls : List Bytes} {b : ℕ} {bs : Bytes}
      → lines file ≡ some ls
      → flatten ls ≡ b ∷ bs
      → Replies lines file
          (codes "HTTP/1.1 200 OK" ++ (b'\r' ∷ (b'\n' ∷ (b'\r' ∷ (b'\n' ∷ (b ∷ bs))))))
  no_text :
      {ls : List Bytes}
      → lines file ≡ some ls
      → flatten ls ≡ []
      → Replies lines file
          (codes "HTTP/1.1 404 NotFound" ++ (b'\r' ∷ (b'\n' ∷ (b'\r' ∷ (b'\n' ∷ [])))))
  no_file :
      lines file ≡ none
      → Replies lines file
          (codes "HTTP/1.1 404 NotFound" ++ (b'\r' ∷ (b'\n' ∷ (b'\r' ∷ (b'\n' ∷ [])))))

target-Names : (path file : Bytes) → Names path file → target path ≡ file
unfolding target
target-Names path file home = refl
target-Names path file (under_root other) = elim (Bool-cases (same_bytes path (codes "/"))) [
  | inl e ↦ absurd (other (same_bytes_eq path (codes "/") e))
  | inr e ↦ rw (target, e) refl
]

http_response-Replies :
    (lines : Bytes → Option (List Bytes)) (path : Bytes)
    → Replies lines (target path) (http_response (content lines path))
unfolding http_response content
http_response-Replies lines path = elim (Option-cases (lines (target path))) [
  | inl e ↦ rw (content, e) (no_file e)
  | inr (ls, e) ↦ rw (content, e) (by_text ls e (flatten ls) refl)
]
  where
    by_text :
        (ls : List Bytes)
        → lines (target path) ≡ some ls
        → (text : Bytes) → flatten ls ≡ text
        → Replies lines (target path) (http_response (flatten ls))
    by_text ls e [] f = rw f (no_text e f)
    by_text ls e (b ∷ bs) f = rw f (found e f)

-- A request without NUL whose first line is a method, a path and more, with single spaces between them, is
-- answered with the file that the path names: the home page of the web root for `/`, and else the path under the
-- root. The reply is status 200 and the text of the file without the ends of its lines, or status 404 if that text
-- is empty or the file cannot be opened.
pub handler_http_request_page :
    (lines : Bytes → Option (List Bytes)) (meth path version more file : Bytes)
    → Lacks b' ' meth
    → Lacks b' ' path
    → Lacks b'\n' meth
    → Lacks b'\n' path
    → Lacks b'\n' version
    → c_str ((meth ++ b' ' ∷ (path ++ b' ' ∷ version)) ++ b'\n' ∷ more)
      ≡ (meth ++ b' ' ∷ (path ++ b' ' ∷ version)) ++ b'\n' ∷ more
    → Names path file
    → (reply : Bytes) × (handler_http_request lines
          (Received.received ((meth ++ b' ' ∷ (path ++ b' ' ∷ version)) ++ b'\n' ∷ more))
        ≡ ok reply)
      × Replies lines file reply
handler_http_request_page lines meth path version more file m p m' p' v' whole names =
    let line = meth ++ b' ' ∷ (path ++ b' ' ∷ version) in
    let one_line : Lacks b'\n' line =
      All-append (λ c. c ≢ b'\n') meth (b' ' ∷ (path ++ b' ' ∷ version)) m'
        (
          (λ e. absurd (omega (arith, e))),
          All-append (λ c. c ≢ b'\n') path (b' ' ∷ version) p'
              ((λ e. absurd (omega (arith, e))), v'),
        ) in
    let (ls, others, rest, first, split, same) = cut_string-first b'\n' line more one_line in
    let (ws, second) = cut_string-second b' ' meth path version m p in
    (
      http_response (content lines path),
      handler-received lines (line ++ b'\n' ∷ more) meth path line ls ws (not_empty line more)
          (ap (λ s. cut_string s (b'\n' ∷ []) []) whole ∙ first) second,
      subst (λ f. Replies lines f (http_response (content lines path)))
          (target-Names path file names) (http_response-Replies lines path),
    )
  where
    not_empty : (s t : Bytes) → s ++ b'\n' ∷ t ≢ []
    not_empty [] t e = absurd (cc e)
    not_empty (c ∷ s) t e = absurd (cc e)
