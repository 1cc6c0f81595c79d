-- ===== src/Http.antt =====
-- 10-25: `Util::cutString` of Util.hpp (Http/Cut), the handler of HttpServer.cc, and HttpServer.hpp
-- (Http/Server).
pub mod Cut
pub mod Requests
pub mod Pages
pub mod Server
pub mod Examples
use learn_in_linux.Common.{
  ◌&&◌, ℕ, Bool, true, false, Option, none, some, List, [], ◌∷◌, ◌++◌, Bytes, flatten, get_elem?,
  ◌==◌, if◌then◌else◌, Result, ok, fault, Fault, ◌>>=◌,
}
use learn_in_linux.Text.{codes, c_str, same_bytes}
use learn_in_linux.Reactor.Os.{Received}
use learn_in_linux.Http.Cut.{cut_string}

-- `v[i]` of a vector: undefined where there is no such element.
unfoldable pub element : {A : Type 0} → List A → ℕ → Result A
element v i = elim (get_elem? v i) [ none ↦ fault Fault.out_of_bounds | some a ↦ ok a ]

abbrev end_of_line : Bytes
end_of_line = b'\r' ∷ b'\n' ∷ []

-- The text that is sent for a file's content.
unfoldable pub http_response : Bytes → Bytes
http_response [] = codes "HTTP/1.1 404 NotFound" ++ (end_of_line ++ end_of_line)
http_response (c ∷ content) =
    codes "HTTP/1.1 200 OK" ++ (end_of_line ++ (end_of_line ++ c ∷ content))

-- `target` for the path of the request.
unfoldable pub target : Bytes → Bytes
target file =
    if same_bytes file (codes "/")
    then codes "./wwwroot" ++ codes "/index.html"
    else codes "./wwwroot" ++ file

-- `HandlerHttpRequest` on what `recv` gives: the text that it sends. `lines` reads a file: its lines
-- without their ends, or `none` if it cannot be opened. Without bytes `buffer` has no value.
unfoldable pub handler_http_request :
    (lines : Bytes → Option (List Bytes)) → Received → Result Bytes
handler_http_request lines (Received.received (b ∷ bs)) = do
  vline ← cut_string (c_str (b ∷ bs)) (b'\n' ∷ []) []
  line ← element vline 0
  vblock ← cut_string line (b' ' ∷ []) []
  file ← element vblock 1
  ok (http_response (elim (lines (target file)) [ none ↦ [] | some content ↦ flatten content ]))
handler_http_request lines (Received.received []) = fault Fault.uninitialized
handler_http_request lines (Received.not_received e) = fault Fault.uninitialized
