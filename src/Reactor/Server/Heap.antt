-- ===== src/Reactor/Server/Heap.antt =====
-- Laws of the connection table and of the heap of `Reactor.Server`.
use learn_in_linux.Common.{
  ℕ, ◌≡◌, ◌≢◌, refl, Option, none, some, List, [], ◌∷◌, ◌==◌, if◌then◌else◌, ok, fault, Fault,
  arith,
}
use learn_in_linux.Reactor.Server.{Connection, Server, lookup, insert, erase, deref, update}

-- `erase` takes out the key, and no other.
pub lookup-erase :
    (j k : ℕ) (m : List (ℕ × ℕ)) → lookup j (erase k m) ≡ (if k == j then none else lookup j m)
unfolding lookup erase
lookup-erase j k [] = ground arith
lookup-erase j k ((s, p) ∷ m) = ground (arith, lookup-erase j k m)

-- `insert` adds a key that is not there, and changes nothing otherwise.
pub lookup-insert :
    (j k p : ℕ) (m : List (ℕ × ℕ))
    → lookup k m ≡ none
    → lookup j (insert k p m) ≡ (if k == j then some p else lookup j m)
unfolding lookup insert
lookup-insert j k p m h = rw (h, insert) refl

pub insert_present : (k p q : ℕ) (m : List (ℕ × ℕ)) → lookup k m ≡ some q → insert k p m ≡ m
unfolding insert
insert_present k p q m h = rw (h, insert)

module _ {K : Type 0} (p : ℕ) (s : Server K) where
  pub deref_live : (c : Connection) → s.heap p ≡ some c → deref p s ≡ ok c
  unfolding deref
  deref_live c h = rw (h, deref)

  pub deref_dead : s.heap p ≡ none → deref p s ≡ fault Fault.use_after_free
  unfolding deref
  deref_dead h = rw (h, deref)

pub update_ne :
    (heap : ℕ → Option Connection) (p q : ℕ) (c : Option Connection)
    → p ≢ q
    → update heap p c q ≡ heap q
update_ne heap p q c h = ground arith

pub update_self :
    (heap : ℕ → Option Connection) (p : ℕ) (c : Option Connection) → update heap p c p ≡ c
update_self heap p c = ground arith
