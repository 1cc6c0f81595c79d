-- ===== src/UdpChat/Delivery.antt =====
-- What the chat promises, whichever of its two threads runs next.
use learn_in_linux.Common.{
  ℕ, ◌≤◌, ◌≡◌, refl, sym, ap, ◌∙◌, some, List, [], ◌∷◌, ◌++◌, map, append-nil, append_assoc, Bytes,
  All, All-append, length, length-append, arith,
}
use mathlib.Core.Path.{subst}
use mathlib.Core.List.{Mem}
use learn_in_linux.Text.{c_str}
use learn_in_linux.UdpChat.{
  Peer, Table, add_user, RecvAt, receiving, adding, pushing, CastAt, popping, copying, sending,
  Chat, name, payload, Recv, got_message, got_none, added, pushed, Boardcast, popped, copied,
  sent_to, sent_all, Reach, start, recv, cast,
}
use learn_in_linux.UdpChat.Users.{
  lookup, lookup-add_user, lookup-add_user_keeps, lookup-Mem, Dotted, name-injective,
}

-- What `sendto` is called with for one message.
abbrev pub spread : Bytes → List Peer → List (Bytes × Peer)
spread m [] = []
spread m (p ∷ ps) = (m, p) ∷ spread m ps

abbrev pub spread_all : List (Bytes × List Peer) → List (Bytes × Peer)
spread_all [] = []
spread_all ((m, v) ∷ bs) = spread m v ++ spread_all bs

-- What the broadcast still has to send, and the message that it has taken but not copied users for.
abbrev pub due : CastAt → List (Bytes × Peer)
due (sending m v left) = spread m left
due _ = []

abbrev pub held : CastAt → List Bytes
held (copying m) = m ∷ []
held _ = []

module _ (inet_ntoa : ℕ → Bytes) where
  -- The messages that were received, as they are queued.
  abbrev pub payloads : List (Peer × Bytes) → List Bytes
  payloads [] = []
  payloads ((p, t) ∷ ms) = payload inet_ntoa p t ∷ payloads ms

  -- The message that is received but not queued.
  abbrev pub waits : RecvAt → List Bytes
  waits receiving = []
  waits (adding p t) = payload inet_ntoa p t ∷ []
  waits (pushing p t) = payload inet_ntoa p t ∷ []

  -- The sender is in the table under its name.
  abbrev pub Known : Table → Peer → Type 0
  Known users p = lookup (name inet_ntoa p) users ≡ some p

  -- The message is one of a sender of whom `Holds` holds.
  abbrev pub IsFrom : (Peer → Type 0) → Bytes → Type 0
  IsFrom Holds m = (p : Peer) × (t : Bytes) × (m ≡ payload inet_ntoa p t) × Holds p

  abbrev pub IsKnown : Table → RecvAt → Type 0
  IsKnown users (pushing p t) = Known users p
  IsKnown users _ = Unit

  -- Every message in a copy was copied with its sender among the users.
  abbrev pub Answered : Bytes × List Peer → Type 0
  Answered (m, v) = IsFrom (λ p. Mem p v) m

  pub record Inv (cap : ℕ) (c : Chat) (r : RecvAt) (b : CastAt) : Type 0 where
    pub fifo : payloads c.received ≡ map (λ x. x.0) c.begun ++ (held b ++ (c.rq ++ waits r))
    pub out : c.sent ++ due b ≡ spread_all c.begun
    pub bound : length c.rq ≤ cap
    pub pusher : IsKnown c.users r
    pub known : All (IsFrom (Known c.users)) (held b ++ c.rq)
    pub answered : All Answered c.begun

  payloads-append : (xs ys : List (Peer × Bytes)) → payloads (xs ++ ys) ≡ payloads xs ++ payloads ys
  payloads-append [] ys = refl
  payloads-append ((p, t) ∷ xs) ys = rw (payloads-append xs ys) refl

  spread_all-append :
      (xs ys : List (Bytes × List Peer)) → spread_all (xs ++ ys) ≡ spread_all xs ++ spread_all ys
  spread_all-append [] ys = refl
  spread_all-append ((m, v) ∷ xs) ys =
      rw (spread_all-append xs ys) (sym (append_assoc (spread m v) (spread_all xs) (spread_all ys)))

  map-append : {A B : Type 0} (f : A → B) (xs ys : List A) → map f (xs ++ ys) ≡ map f xs ++ map f ys
  map-append f [] ys = refl
  map-append f (x ∷ xs) ys = rw (map-append f xs ys) refl

  module _ (dotted : Dotted inet_ntoa) where
    -- A new entry takes nobody out of the table.
    Known-add_user :
        (users : Table) (p q : Peer) → Known users p → Known (add_user (name inet_ntoa q) q users) p
    Known-add_user users p q =
        lookup-add_user_keeps (name inet_ntoa p) (name inet_ntoa q) p q users
          (name-injective dotted q p)

    all-Known :
        (users : Table) (q : Peer) (ms : List Bytes)
        → All (IsFrom (Known users)) ms
        → All (IsFrom (Known (add_user (name inet_ntoa q) q users))) ms
    all-Known users q [] h = tt
    all-Known users q (m ∷ ms) ((p, t, e, k), h) =
        ((p, t, e, Known-add_user users p q k), all-Known users q ms h)

    Recv-Inv :
        {cap : ℕ} {c c' : Chat} {r r' : RecvAt} (b : CastAt)
        → Recv inet_ntoa cap c r c' r'
        → Inv cap c r b
        → Inv cap c' r' b
    Recv-Inv {c} b (got_message peer x xs) v = record {
      fifo =
          payloads-append c.received ((peer, c_str (x ∷ xs)) ∷ [])
          ∙ ap (λ l. l ++ payload inet_ntoa peer (c_str (x ∷ xs)) ∷ []) v.fifo
          ∙ simp (append_assoc, append-nil);
      out = v.out;
      bound = v.bound;
      pusher = tt;
      known = v.known;
      answered = v.answered;
    }
    Recv-Inv b got_none v = v
    Recv-Inv {c} b (added {peer} {buffer}) v = record {
      fifo = v.fifo;
      out = v.out;
      bound = v.bound;
      pusher = lookup-add_user (name inet_ntoa peer) peer c.users;
      known = all-Known c.users peer (held b ++ c.rq) v.known;
      answered = v.answered;
    }
    Recv-Inv {c} b (pushed {peer} {buffer} room) v = record {
      fifo = v.fifo ∙ simp (append_assoc, append-nil);
      out = v.out;
      bound = omega (arith, length-append c.rq (payload inet_ntoa peer buffer ∷ []));
      pusher = tt;
      known =
          subst (All (IsFrom (Known c.users)))
            (append_assoc (held b) c.rq (payload inet_ntoa peer buffer ∷ []))
            (All-append _ (held b ++ c.rq) (payload inet_ntoa peer buffer ∷ []) v.known
              ((peer, buffer, refl, v.pusher), tt));
      answered = v.answered;
    }

    Boardcast-Inv :
        {cap : ℕ} {c c' : Chat} (r : RecvAt) {b b' : CastAt}
        → Boardcast inet_ntoa cap c b c' b'
        → Inv cap c r b
        → Inv cap c' r b'
    Boardcast-Inv {c} r (popped m rest e) v = record {
      fifo = v.fifo ∙ ap (λ q. map (λ x. x.0) c.begun ++ (q ++ waits r)) e;
      out = v.out;
      bound = omega (arith, v.bound, ap length e);
      pusher = v.pusher;
      known = subst (All (IsFrom (Known c.users))) e v.known;
      answered = v.answered;
    }
    Boardcast-Inv {c} r (copied {sendstring = m}) v = record {
      fifo =
          v.fifo
          ∙ rw (map-append (λ x. x.0) c.begun ((m, map (λ u. u.1) c.users) ∷ []))
              (sym (append_assoc (map (λ x. x.0) c.begun) (m ∷ []) (c.rq ++ waits r)));
      out =
          ap (λ s. s ++ spread m (map (λ u. u.1) c.users)) (sym (append-nil c.sent) ∙ v.out)
          ∙ rw
              (
                spread_all-append c.begun ((m, map (λ u. u.1) c.users) ∷ []),
                append-nil (spread m (map (λ u. u.1) c.users)),
              )
              refl;
      bound = v.bound;
      pusher = v.pusher;
      known = v.known.1;
      answered =
          (let (p, t, e, k) = v.known.0 in
            All-append Answered c.begun ((m, map (λ u. u.1) c.users) ∷ []) v.answered
              ((p, t, e, lookup-Mem (name inet_ntoa p) p c.users k), tt));
    }
    Boardcast-Inv {c} r (sent_to {sendstring = m} {v = w} {left} {e}) v = record {
      fifo = v.fifo;
      out = append_assoc c.sent ((m, e) ∷ []) (spread m left) ∙ v.out;
      bound = v.bound;
      pusher = v.pusher;
      known = v.known;
      answered = v.answered;
    }
    Boardcast-Inv r sent_all v = record {
      fifo = v.fifo;
      out = v.out;
      bound = v.bound;
      pusher = v.pusher;
      known = v.known;
      answered = v.answered;
    }

    Reach-Inv :
        {cap : ℕ} {c : Chat} {r : RecvAt} {b : CastAt} → Reach inet_ntoa cap c r b → Inv cap c r b
    Reach-Inv start = record {
      fifo = refl;
      out = refl;
      bound = omega arith;
      pusher = tt;
      known = tt;
      answered = tt;
    }
    Reach-Inv (recv {b} before step) = Recv-Inv b step (Reach-Inv before)
    Reach-Inv (cast {r} before step) = Boardcast-Inv r step (Reach-Inv before)

    -- No message is lost, repeated or overtaken: the messages that were received are those of the
    -- broadcasts that began, then the one that waits for its copy of the users, then those in the queue, then the
    -- one that waits for the push; and the queue never holds more than its capacity.
    pub messages_in_order :
        {cap : ℕ} {c : Chat} {r : RecvAt} {b : CastAt}
        → Reach inet_ntoa cap c r b
        → (payloads c.received ≡ map (λ x. x.0) c.begun ++ (held b ++ (c.rq ++ waits r)))
          × (length c.rq ≤ cap)
    messages_in_order reach = let v = Reach-Inv reach in (v.fifo, v.bound)

    -- Where no broadcast is under way, each message that was taken out of the queue has been sent to every
    -- user who was copied for it, in this order, and nothing else has been sent; and among these users is
    -- the one who sent the message.
    pub all_answered :
        {cap : ℕ} {c : Chat} {r : RecvAt}
        → Reach inet_ntoa cap c r popping
        → (c.sent ≡ spread_all c.begun) × All Answered c.begun
    all_answered {c} reach =
        let v = Reach-Inv reach in (sym (append-nil c.sent) ∙ v.out, v.answered)
