-- ===== src/UdpChat/Examples.antt =====
-- One user who says "hi", over a print of addresses in dots.
use learn_in_linux.Common.{
  ℕ, zero, suc, ◌≤◌, ◌≡◌, refl, sym, ap, ◌∙◌, [], ◌∷◌, ◌++◌, map, Bytes, All, Lacks, length,
  replicate, length-replicate, arith,
}
use learn_in_linux.Text.{codes, to_string, digits, c_str}
use learn_in_linux.UdpChat.{
  Peer, add_user, receiving, popping, Chat, init, name, payload, got_message, added, pushed, popped,
  copied, sent_to, sent_all, Reach, start, recv, cast,
}
use learn_in_linux.UdpChat.Users.{Dotted}
use learn_in_linux.UdpChat.Delivery.{
  spread_all, held, payloads, waits, Answered, messages_in_order, all_answered,
}

abbrev dots : ℕ → Bytes
dots a = replicate a b'.'

dots-Dotted : Dotted dots
dots-Dotted = record {
  lacks = no_dash;
  injective = λ a b e. sym (length-replicate a b'.') ∙ ap length e ∙ length-replicate b b'.';
}
  where
    no_dash : (a : ℕ) → Lacks b'-' (dots a)
    no_dash zero = tt
    no_dash (suc a) = ((λ e. absurd (omega arith)), no_dash a)

abbrev user : Peer
user = record { addr = 1; port = 5 }

abbrev answered : Chat
answered = record {
  users = (codes ".-5", user) ∷ [];
  rq = [];
  received = (user, codes "hi") ∷ [];
  begun = (codes ".-5>>hi", user ∷ []) ∷ [];
  sent = (codes ".-5>>hi", user) ∷ [];
}

answered_Reach : Reach dots 50 answered receiving popping
unfolding c_str add_user name payload to_string digits
answered_Reach =
    let r0 : Reach dots 50 init receiving popping = start in
    let r1 = recv r0 (got_message user b'h' (codes "i")) in
    let r2 = recv r1 added in
    let r3 = recv r2 (pushed (omega arith)) in
    let r4 = cast r3 (popped (codes ".-5>>hi") [] refl) in
    let r5 = cast r4 copied in let r6 = cast r5 sent_to in cast r6 sent_all

messages_in_order_example :
    (payloads dots answered.received
      ≡ map (λ x. x.0) answered.begun ++ (held popping ++ ([] ++ waits dots receiving)))
    × (length answered.rq ≤ 50)
messages_in_order_example = messages_in_order dots dots-Dotted answered_Reach

all_answered_example :
    (answered.sent ≡ spread_all answered.begun) × All (Answered dots) answered.begun
all_answered_example = all_answered dots dots-Dotted answered_Reach
