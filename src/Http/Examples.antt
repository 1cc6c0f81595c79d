-- ===== src/Http/Examples.antt =====
-- A site with one page, and requests to it.
use learn_in_linux.Common.{
  ◌≡◌, refl, none, some, List, [], ◌∷◌, ◌++◌, Bytes, Option, if◌then◌else◌, ok,
}
use learn_in_linux.Text.{codes, same_bytes, c_str, find, starts_with}
use learn_in_linux.Reactor.Os.{Received}
use learn_in_linux.Text.Find.{Lacks-of_find}
use learn_in_linux.Http.Pages.{home, Replies, handler_http_request_page}
use learn_in_linux.Http.{handler_http_request, http_response, target, element}
use learn_in_linux.Http.Cut.{cut_string, cut_loop}

abbrev pub one_page : Bytes → Option (List Bytes)
one_page path =
    if same_bytes path (codes "./wwwroot/index.html")
    then some (codes "hello" ∷ codes "you" ∷ [])
    else none

-- The ends of the file's lines are gone in the answer.
pub home_page :
    handler_http_request one_page (Received.received (codes "GET / HTTP"))
    ≡ ok (http_response (codes "helloyou"))
unfolding handler_http_request cut_string cut_loop find starts_with c_str element target
home_page = refl

abbrev version : Bytes
version = codes "HTTP/1.1" ++ b'\r' ∷ []

handler_http_request_page_example :
    (reply : Bytes) × (handler_http_request one_page (
        Received.received
          ((codes "GET" ++ b' ' ∷ (codes "/" ++ b' ' ∷ version)) ++ b'\n' ∷ codes "A: b"))
      ≡ ok reply)
    × Replies one_page (codes "./wwwroot/index.html") reply
unfolding find starts_with c_str
handler_http_request_page_example =
    handler_http_request_page one_page (codes "GET") (codes "/") version (codes "A: b")
      (codes "./wwwroot/index.html") (Lacks-of_find b' ' (codes "GET") refl)
      (Lacks-of_find b' ' (codes "/") refl) (Lacks-of_find b'\n' (codes "GET") refl)
      (Lacks-of_find b'\n' (codes "/") refl) (Lacks-of_find b'\n' version refl) refl home
