-- ===== src/Reactor/NetCal/Answers.antt =====
-- What `NetCal` answers.
use learn_in_linux.Common.{
  ℕ, ◌≡◌, refl, true, false, some, [], ◌∷◌, ◌++◌, append-nil, Bytes, ok, fault, Fault, arith, Lacks,
  All-append,
}
use learn_in_linux.Common.Int.{IsInt, in_int, ◌+ℤ◌, add_int}
use learn_in_linux.Text.{is_digit, to_string}
use learn_in_linux.Text.Find.{find-Lacks}
use learn_in_linux.Text.Decimal.{to_string-Lacks}
use learn_in_linux.Reactor.Os.{Os, Ctl, Events}
use learn_in_linux.Reactor.Protocol.{encode, splite_message}
use learn_in_linux.Reactor.Protocol.Framing.{splite_message-encode}
use learn_in_linux.Reactor.Protocol.Codec.{request_round_trip, response_round_trip}
use learn_in_linux.Reactor.Protocol.Request
use learn_in_linux.Reactor.Protocol.Request.{Request}
use learn_in_linux.Reactor.Protocol.Response
use learn_in_linux.Reactor.Protocol.Response.{Response}
use learn_in_linux.Reactor.Calculator.{calculator}
use learn_in_linux.Reactor.Calculator.Laws.{calculator-IsInt}
use learn_in_linux.Reactor.Server.{Connection, Server, store}
use learn_in_linux.Reactor.Server.Heap.{deref_live, update_self, update_ne}
use learn_in_linux.Reactor.Server.Recv.{Changes}
use learn_in_linux.Reactor.Server.Send.{enable_lem}
use learn_in_linux.Reactor.NetCal.{blank, net_cal}

response_Lacks : (resp : Response) → Lacks b'X' (Response.serialize resp)
unfolding Response.serialize is_digit
response_Lacks resp =
    All-append _ (to_string resp.code) (b' ' ∷ to_string resp.result)
      (to_string-Lacks b'X' resp.code refl (λ e. omega arith))
      ((λ e. omega arith), to_string-Lacks b'X' resp.result refl (λ e. omega arith))

cut_frame : (text : Bytes) → Lacks b'X' text → splite_message (encode text) [] ≡ ok ([], text ∷ [])
cut_frame text h =
    rw (append-nil (encode text), append-nil (encode text)) at
      (splite_message-encode (text ∷ []) [] [] (h, tt) tt)

-- EPOLLIN, EPOLLOUT and EPOLLET.
abbrev pub both : Events
both = record { readable = true; writable = true; error = false; hangup = false; edge = true }

-- The text of a request with `int` operands, on a live connection whose events may be changed: if the
-- calculator answers, `NetCal` appends one frame to the output buffer and asks for EPOLLOUT, and
-- changes nothing else. A peer that cuts the frame gets one text and no rest, and reads the
-- calculator's response from it.
pub net_cal_answers :
    {K : Type 0} (os : Os K) (p : ℕ) (s : Server K) (c : Connection) (r : Request)
    (resp old : Response)
    → s.heap p ≡ some c
    → (os.epoll_ctl s.epfd Ctl.modify c.sock (some both) s.kernel).0 ≡ true
    → IsInt r.x
    → IsInt r.y
    → calculator r ≡ ok resp
    → (t : Server K) × (frame : Bytes) × (text : Bytes) × (net_cal os p (Request.serialize r) s
        ≡ ok t)
      × Changes s t p
          (record c { outbuffer = c.outbuffer ++ frame })
          (os.epoll_ctl s.epfd Ctl.modify c.sock (some both) s.kernel).1
      × (splite_message frame [] ≡ ok ([], text ∷ []))
      × (Response.deserialize old text ≡ ok (true, resp))
unfolding net_cal
net_cal_answers {K} os p s c r resp old live done hx hy answered =
    let text = Response.serialize resp in
    let c' : Connection = record c { outbuffer = c.outbuffer ++ encode text } in
    let stored : Server K = store p c' s in
    (
      record stored { kernel = (os.epoll_ctl s.epfd Ctl.modify c.sock (some both) s.kernel).1 },
      encode text,
      text,
      rw (request_round_trip r blank hx hy, answered, deref_live p s c live)
          (enable_lem os p true true stored c' (update_self s.heap p _) done),
      record {
        here = update_self s.heap p _;
        elsewhere = λ q ne. update_ne s.heap p q _ ne;
        table = refl;
        later = refl;
        epoll = refl;
        listens = refl;
        ports = refl;
        revs = refl;
        kernel = refl;
      },
      cut_frame text (response_Lacks resp),
      response_round_trip resp old (calculator-IsInt r resp hx hy answered).0
          (calculator-IsInt r resp hx hy answered).1,
    )

-- A message with no space gets no answer: `NetCal` leaves the server as it is.
pub net_cal_ignores :
    {K : Type 0} (os : Os K) (p : ℕ) (s : Server K) (message : Bytes)
    → Lacks b' ' message
    → net_cal os p message s ≡ ok s
unfolding net_cal Request.deserialize
net_cal_ignores os p s message h = rw (find-Lacks b' ' message h, Request.deserialize)

overflows :
    (r : Request)
    → r.op ≡ b'+'
    → in_int (r.x +ℤ r.y) ≡ false
    → calculator r ≡ fault Fault.signed_overflow
unfolding calculator add_int
overflows r plus large = ground arith

-- On the text of a request for the sum of two `int`s that does not fit `int`, `NetCal` runs into
-- undefined behaviour.
pub net_cal_overflow :
    {K : Type 0} (os : Os K) (p : ℕ) (s : Server K) (r : Request)
    → IsInt r.x
    → IsInt r.y
    → r.op ≡ b'+'
    → in_int (r.x +ℤ r.y) ≡ false
    → net_cal os p (Request.serialize r) s ≡ fault Fault.signed_overflow
unfolding net_cal
net_cal_overflow os p s r hx hy plus large =
    rw (request_round_trip r blank hx hy, overflows r plus large)
