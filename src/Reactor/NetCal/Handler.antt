-- ===== src/Reactor/NetCal/Handler.antt =====
-- The handler `NetCal` keeps the table and the heap, and which faults it can end with.
use learn_in_linux.Common.{
  ℕ, ◌≡◌, refl, Bool, true, false, some, ◌++◌, Bytes, drop, length, ltb, ◌+◌, ◌==◌, if◌then◌else◌,
  Option-cases, inl, inr, Result, ok, fault, Fault, ◌>>=◌,
}
use learn_in_linux.Common.Int.{
  is_zero, in_int, ◌+ℤ◌, ◌-ℤ◌, ◌*ℤ◌, tdiv, tmod, add_int, sub_int, mul_int, div_int, mod_int,
}
use learn_in_linux.Common.Outcomes.{Yields, Yields-bind}
use learn_in_linux.Text.{find, rfind, atoi, substr}
use learn_in_linux.Text.Decimal.{atoi-cases}
use learn_in_linux.Reactor.Os.{Os}
use learn_in_linux.Reactor.Protocol.{space, space_len, encode}
use learn_in_linux.Reactor.Protocol.Request
use learn_in_linux.Reactor.Protocol.Request.{Request}
use learn_in_linux.Reactor.Protocol.Response
use learn_in_linux.Reactor.Calculator.{calculator}
use learn_in_linux.Reactor.Server.{Server, deref, store, enable_read_write}
use learn_in_linux.Reactor.Server.Table.{Laws, WellFormed, store-WellFormed}
use learn_in_linux.Reactor.Server.Kept.{MayFault, Kept, deref-Yields, enable_read_write-Kept}
use learn_in_linux.Reactor.NetCal.{blank, net_cal}

-- A run that can end with these faults only.
abbrev Runs {ℓ} : {A : Type ℓ} → Result A → Type 0
Runs m = Yields MayFault (λ a. Unit) m

atoi-Runs : (s : Bytes) → Runs (atoi s)
atoi-Runs s = elim (atoi-cases s) [ inl e ↦ rw e tt | inr (z, e) ↦ rw e tt ]

checked-Runs :
    {A : Type 0} (b : Bool) (a : A) → Runs (if b then ok a else fault Fault.signed_overflow)
checked-Runs true a = tt
checked-Runs false a = tt

bind-Runs :
    {A B : Type 0} (m : Result A) (f : A → Result B)
    → Runs m
    → ((a : A) → Runs (f a))
    → Runs (m >>= f)
bind-Runs m f h next = Yields-bind MayFault (λ a. Unit) (λ b. Unit) m f h (λ a u. next a)

if-Runs : {A : Type 0} (b : Bool) (m n : Result A) → Runs m → Runs n → Runs (if b then m else n)
if-Runs true m n h k = h
if-Runs false m n h k = k

calculator-Runs : (r : Request) → Runs (calculator r)
unfolding calculator add_int sub_int mul_int div_int mod_int
calculator-Runs r =
    if-Runs (r.op == b'+') _ _
      (bind-Runs (add_int r.x r.y) _ (checked-Runs (in_int (r.x +ℤ r.y)) (r.x +ℤ r.y)) (λ z. tt))
      (if-Runs (r.op == b'-') _ _
        (bind-Runs (sub_int r.x r.y) _ (checked-Runs (in_int (r.x -ℤ r.y)) (r.x -ℤ r.y)) (λ z. tt))
        (if-Runs (r.op == b'*') _ _
          (bind-Runs (mul_int r.x r.y) _ (checked-Runs (in_int (r.x *ℤ r.y)) (r.x *ℤ r.y))
            (λ z. tt))
          (if-Runs (r.op == b'/') _ _
            (if-Runs (is_zero r.y) _ _ tt (
              bind-Runs (div_int r.x r.y) _ (checked-Runs (in_int (tdiv r.x r.y)) (tdiv r.x r.y))
                (λ z. tt)))
            (if-Runs (r.op == b'%') _ _
              (if-Runs (is_zero r.y) _ _ tt (
                bind-Runs (mod_int r.x r.y) _ (checked-Runs (in_int (tdiv r.x r.y)) (tmod r.x r.y))
                  (λ z. tt)))
              tt))))

deserialize-Runs : (r : Request) (str : Bytes) → Runs (Request.deserialize r str)
unfolding Request.deserialize
deserialize-Runs r str = elim (Option-cases (find space str)) [
  | inl e ↦ rw (Request.deserialize, e) tt
  | inr (left, e) ↦ elim (Option-cases (rfind space str)) [
    | inl d ↦ rw (Request.deserialize, e, d) tt
    | inr (right, d) ↦
        rw (Request.deserialize, e, d)
          (bind-Runs (atoi (substr str 0 left)) _ (atoi-Runs _) (λ x.
            bind-Runs (atoi (drop (right + space_len) str)) _ (atoi-Runs _)
              (λ y. if-Runs (ltb (length str) (left + space_len)) _ _ tt tt)))
  ]
]

module _ {K : Type 0} {os : Os K} {IsOpen : ℕ → K → Type 0} (laws : Laws os IsOpen) where
  pub net_cal-Kept :
      (p : ℕ) (request : Bytes) (s : Server K)
      → WellFormed IsOpen s
      → Kept laws (net_cal os p request s)
  unfolding net_cal
  net_cal-Kept p request s v =
      Yields-bind MayFault (λ a. Unit) (WellFormed IsOpen) (Request.deserialize blank request) _
        (deserialize-Runs blank request) (λ (parsed, req) u. by_parsed parsed req)
    where
      by_parsed :
          (parsed : Bool) (req : Request)
          → Kept laws (
              if parsed
              then (do
                resp ← calculator req
                conn ← deref p s
                enable_read_write os p true true (
                    store p
                      (record conn {
                        outbuffer = conn.outbuffer ++ encode (Response.serialize resp);
                      })
                      s))
              else ok s)
      by_parsed false req = v
      by_parsed true req =
          Yields-bind MayFault (λ a. Unit) (WellFormed IsOpen) (calculator req) _
            (calculator-Runs req)
            (λ resp u.
              Yields-bind MayFault (λ c. s.heap p ≡ some c) (WellFormed IsOpen) (deref p s) _
                (deref-Yields laws p s)
                (λ c live. enable_read_write-Kept laws p true true _ (
                  store-WellFormed s v p c
                    (record c { outbuffer = c.outbuffer ++ encode (Response.serialize resp) }) live
                    refl (v.callbacks p c live))))
