-- ===== src/Reactor/NetCal.antt =====
-- Reactor/reactor/main.cc: the handler `NetCal`, and `main`.
pub mod Answers
pub mod Handler
pub mod Kept
pub mod Examples
use learn_in_linux.Common.{
  ℕ, Bool, true, false, ◌++◌, Bytes, if◌then◌else◌, Result, ok, fault, Fault, ◌>>=◌,
}
use learn_in_linux.Common.Int.{pos}
use learn_in_linux.Reactor.Os.{Os}
use learn_in_linux.Reactor.Protocol.{encode}
use learn_in_linux.Reactor.Protocol.Request
use learn_in_linux.Reactor.Protocol.Request.{Request}
use learn_in_linux.Reactor.Protocol.Response
use learn_in_linux.Reactor.Calculator.{calculator}
use learn_in_linux.Reactor.Server.{Server, deref, store, enable_read_write, tcp_server, dispather}

-- `Request req;` leaves the fields without a value; they are read only behind a `Deserialized` that
-- has set them all.
abbrev pub blank : Request
blank = record { x = pos 0; y = pos 0; op = 0 }

module _ {K : Type 0} (os : Os K) where
  unfoldable pub net_cal : ℕ → Bytes → Server K → Result (Server K)
  net_cal p request s = do
    (parsed, req) ← Request.deserialize blank request
    if parsed
        then (do
          resp ← calculator req
          conn ← deref p s
          enable_read_write os p true true (
              store p
                (record conn { outbuffer = conn.outbuffer ++ encode (Response.serialize resp) }) s))
        else ok s

  -- `main`, after `n` rounds of the loop that never ends.
  unfoldable pub main : ℕ → ℕ → K → Result (Server K)
  main n fuel k = do s ← tcp_server os 8080 k; dispather os net_cal n fuel s
