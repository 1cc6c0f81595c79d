-- ===== src/Reactor/Protocol/Framing.antt =====
-- `SpliteMessage` and `Encode` of Reactor/reactor/Protocol.hpp against a description of a cut.
use learn_in_linux.Common.{
  ℕ, zero, suc, ◌+◌, ◌≤◌, ◌<◌, ◌≡◌, refl, ap, inl, inr, some, List, [], ◌∷◌, ◌++◌, append_assoc,
  append-nil, Bytes, take, drop, length, length-drop, length-append, arith, ok, Lacks, All,
  All-append, flatten, flatten-append, map, Option-cases, take-length, drop_past, ◌>>=◌,
}
use mathlib.Core.List.{map-append}
use learn_in_linux.Text.{find}
use learn_in_linux.Text.Find.{find-split, find-take, find-Lacks, find_here, Lacks-of_find}
use learn_in_linux.Reactor.Protocol.{sep, splite_loop, splite_message, encode}

-- `buffer` is the encoded `messages`, one behind the other, and a `rest` that ends no message.
pub record IsCut (buffer : Bytes) (messages : List Bytes) (rest : Bytes) : Type 0 where
  pub spelled : flatten (map encode messages) ++ rest ≡ buffer
  pub whole : All (Lacks b'X') messages
  pub unfinished : Lacks b'X' rest

IsCut-cons :
    (m buffer : Bytes) (messages : List Bytes) (rest : Bytes)
    → Lacks b'X' m
    → IsCut buffer messages rest
    → IsCut (m ++ b'X' ∷ buffer) (m ∷ messages) rest
unfolding encode
IsCut-cons m buffer messages rest h c = record {
  spelled = simp append_assoc (ap (λ s. m ++ b'X' ∷ s) c.spelled);
  whole = (h, c.whole);
  unfinished = c.unfinished;
}

splite_step :
    (fuel : ℕ) (m buffer : Bytes) (out : List Bytes)
    → Lacks b'X' m
    → splite_loop (suc fuel) (m ++ b'X' ∷ buffer) out ≡ splite_loop fuel buffer (out ++ m ∷ [])
unfolding splite_loop
splite_step fuel m buffer out h =
    rw (
      find_here b'X' m buffer h,
      splite_loop,
      take-length m (b'X' ∷ buffer),
      drop_past m buffer b'X',
    )

splite_loop-cut :
    (messages : List Bytes) (rest : Bytes) (fuel : ℕ) (out : List Bytes)
    → length messages < fuel
    → All (Lacks b'X') messages
    → Lacks b'X' rest
    → splite_loop fuel (flatten (map encode messages) ++ rest) out ≡ ok (rest, out ++ messages)
splite_loop-cut messages rest zero out l h u = absurd (omega arith)
splite_loop-cut [] rest (suc fuel) out l h u =
    unfold splite_loop in rw (find-Lacks b'X' rest u, splite_loop, append-nil out)
splite_loop-cut (m ∷ ms) rest (suc fuel) out l h u = rw (
  shape,
  splite_step fuel m (flatten (map encode ms) ++ rest) out h.0,
  splite_loop-cut ms rest fuel (out ++ m ∷ []) (omega arith) h.1 u,
  append_assoc out (m ∷ []) ms,
)
  where
    shape : flatten (map encode (m ∷ ms)) ++ rest ≡ m ++ b'X' ∷ (flatten (map encode ms) ++ rest)
    shape = unfold encode in simp append_assoc

length-messages-le :
    (messages : List Bytes) (rest : Bytes)
    → length messages ≤ length (flatten (map encode messages) ++ rest)
unfolding encode
length-messages-le [] rest = omega arith
length-messages-le (m ∷ ms) rest = rw (append_assoc (m ++ sep) (flatten (map encode ms)) rest) (
    omega (
      arith,
      length-messages-le ms rest,
      length-append (m ++ sep) (flatten (map encode ms) ++ rest),
      length-append m sep,
    ))

-- Whatever a buffer can be cut into is what `SpliteMessage` cuts it into, and appends to `out`.
pub splite_message-cut :
    (buffer : Bytes) (messages : List Bytes) (rest : Bytes) (out : List Bytes)
    → IsCut buffer messages rest
    → splite_message buffer out ≡ ok (rest, out ++ messages)
unfolding splite_message
splite_message-cut buffer messages rest out c = rw (← c.spelled) (
    splite_loop-cut messages rest (suc (length (flatten (map encode messages) ++ rest))) out
      (omega (arith, length-messages-le messages rest)) c.whole c.unfinished)

abbrev pub Cut : Bytes → Type 0
Cut buffer = (messages : List Bytes) × (rest : Bytes) × IsCut buffer messages rest

-- Cutting at the first separator, and then what follows it.
cut_at :
    (buffer : Bytes) (p : ℕ)
    → find sep buffer ≡ some p
    → (take p buffer ++ b'X' ∷ drop (p + 1) buffer ≡ buffer)
      × Lacks b'X' (take p buffer)
      × (length (drop (p + 1) buffer) < length buffer)
cut_at buffer p e =
    let (spelled, room) = find-split sep buffer p e in
    (
      spelled,
      Lacks-of_find b'X' (take p buffer) (find-take sep buffer p (λ q. cc) e),
      omega (arith, room, length-drop (p + 1) buffer),
    )

cut : (fuel : ℕ) (buffer : Bytes) → length buffer < fuel → Cut buffer
cut zero buffer h = absurd (omega arith)
cut (suc fuel) buffer h = elim (Option-cases (find sep buffer)) [
  | inl e ↦
      ([], buffer, record { spelled = refl; whole = tt; unfinished = Lacks-of_find b'X' buffer e })
  | inr (p, e) ↦
      let (spelled, lacks, shorter) = cut_at buffer p e in
      let (ms, rest, c) = cut fuel (drop (p + 1) buffer) (omega (arith, shorter)) in
      (
        take p buffer ∷ ms,
        rest,
        rw spelled at (IsCut-cons (take p buffer) (drop (p + 1) buffer) ms rest lacks c),
      )
]

-- `SpliteMessage` always returns, and cuts the buffer: what it appends to `out`, each message with its
-- separator, and then what it leaves in the buffer, spell the old buffer; no message holds the
-- separator, and neither does what is left.
pub splite_message_lem :
    (buffer : Bytes) (out : List Bytes)
    → (messages : List Bytes) × (rest : Bytes) × (splite_message buffer out
        ≡ ok (rest, out ++ messages))
      × IsCut buffer messages rest
splite_message_lem buffer out =
    let (ms, rest, c) = cut (suc (length buffer)) buffer (omega arith) in
    (ms, rest, splite_message-cut buffer ms rest out c, c)

IsCut-append :
    {a : Bytes} (b : Bytes) {ms ns : List Bytes} {r s : Bytes}
    → IsCut a ms r
    → IsCut (r ++ b) ns s
    → IsCut (a ++ b) (ms ++ ns) s
IsCut-append {a} b {ms} {ns} {r} {s} c d = record {
  spelled = rw (
    map-append encode ms ns,
    flatten-append (map encode ms) (map encode ns),
    append_assoc (flatten (map encode ms)),
    d.spelled,
    ← append_assoc,
    c.spelled,
  );
  whole = All-append _ ms ns c.whole d.whole;
  unfinished = d.unfinished;
}

-- The messages do not depend on where the stream was split: cutting what has come, and then what is
-- left with the next bytes behind it, gives what cutting the whole stream gives.
pub splite_message-append :
    (a b : Bytes) (out : List Bytes)
    → (splite_message a out >>= λ (r, got). splite_message (r ++ b) got)
      ≡ splite_message (a ++ b) out
splite_message-append a b out =
    let (ms, r, e, c) = splite_message_lem a out in
    let (ns, s, f, d) = splite_message_lem (r ++ b) (out ++ ms) in
    rw (
      e,
      f,
      splite_message-cut (a ++ b) (ms ++ ns) s out (IsCut-append b c d),
      append_assoc out ms ns,
    )

-- Encoded messages are cut into the messages again, and what follows them stays in the buffer, if
-- neither a message nor the rest holds the separator.
pub splite_message-encode :
    (messages : List Bytes) (rest : Bytes) (out : List Bytes)
    → All (Lacks b'X') messages
    → Lacks b'X' rest
    → splite_message (flatten (map encode messages) ++ rest) out ≡ ok (rest, out ++ messages)
splite_message-encode messages rest out h u =
    splite_message-cut _ messages rest out (record { spelled = refl; whole = h; unfinished = u })
