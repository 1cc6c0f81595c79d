-- ===== src/Common/Outcomes.antt =====
-- What a run yields: a value with a property, or a fault of the kinds that are named.
use learn_in_linux.Common.Faults.{Fault, Result, ok, fault, ◌>>=◌}

abbrev pub Yields {ℓ} : {A : Type ℓ} → (Fault → Type 0) → (A → Type 0) → Result A → Type 0
Yields MayFault P (ok a) = P a
Yields MayFault P (fault e) = MayFault e

pub Yields-bind {ℓ κ} :
    {A : Type ℓ} {B : Type κ} (MayFault : Fault → Type 0) (P : A → Type 0) (Q : B → Type 0)
    (m : Result A) (f : A → Result B)
    → Yields MayFault P m
    → ((a : A) → P a → Yields MayFault Q (f a))
    → Yields MayFault Q (m >>= f)
Yields-bind MayFault P Q (ok a) f p next = next a p
Yields-bind MayFault P Q (fault e) f p next = p

pub Yields-mono {ℓ} :
    {A : Type ℓ} (MayFault Wider : Fault → Type 0) (P : A → Type 0) (m : Result A)
    → ((e : Fault) → MayFault e → Wider e)
    → Yields MayFault P m
    → Yields Wider P m
Yields-mono MayFault Wider P (ok a) widen p = p
Yields-mono MayFault Wider P (fault e) widen p = widen e p
