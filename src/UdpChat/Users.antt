-- ===== src/UdpChat/Users.antt =====
-- The table of users: what a name stands for, and what a new entry changes.
use learn_in_linux.Common.{
  ℕ, ◌+◌, ◌≡◌, refl, sym, ap, ◌∙◌, Option, none, some, [], ◌∷◌, ◌++◌, map, Bytes, Lacks, length,
  take, take-length, drop_past, drop, if◌then◌else◌, Bool-cases, inl, inr,
}
use mathlib.Core.List.{Mem, mem-cons_self, mem-cons_of_mem}
use learn_in_linux.Common.Int.{pos}
use learn_in_linux.Text.{to_string, same_bytes, same_bytes_refl, same_bytes_eq}
use learn_in_linux.Text.Find.{find_here}
use learn_in_linux.Text.Decimal.{to_string-injective}
use learn_in_linux.UdpChat.{Peer, Table, add_user, name}

-- `_onlineuser.find(name)`.
unfoldable pub lookup : Bytes → Table → Option Peer
lookup name [] = none
lookup name ((key, peer) ∷ users) = if same_bytes key name then some peer else lookup name users

pub lookup-add_user :
    (n : Bytes) (p : Peer) (users : Table) → lookup n (add_user n p users) ≡ some p
unfolding lookup add_user
lookup-add_user n p [] = rw (same_bytes_refl n) refl
lookup-add_user n p ((key, old) ∷ users) = elim (Bool-cases (same_bytes key n)) [
  | inl e ↦ rw (e, lookup, e) refl
  | inr e ↦ rw (e, lookup, e) (lookup-add_user n p users)
]

-- An entry stays, where a new one under its name is the same.
pub lookup-add_user_keeps :
    (n m : Bytes) (p q : Peer) (users : Table)
    → (m ≡ n → q ≡ p)
    → lookup n users ≡ some p
    → lookup n (add_user m q users) ≡ some p
unfolding lookup add_user
lookup-add_user_keeps n m p q [] same e = absurd (cc e)
lookup-add_user_keeps n m p q ((key, old) ∷ users) same e = elim (Bool-cases (same_bytes key m)) [
  | inl k ↦ elim (Bool-cases (same_bytes key n)) [
    | inl h ↦
        let one : m ≡ n = sym (same_bytes_eq key m k) ∙ same_bytes_eq key n h in
        rw (k, lookup, h) (ap some (same one))
    | inr h ↦ rw (k, lookup, h) (rw h at e)
  ]
  | inr k ↦ elim (Bool-cases (same_bytes key n)) [
    | inl h ↦ rw (k, lookup, h) (rw h at e)
    | inr h ↦ rw (k, lookup, h) (lookup-add_user_keeps n m p q users same (rw h at e))
  ]
]

-- An entry is among those that a broadcast copies.
pub lookup-Mem :
    (n : Bytes) (p : Peer) (users : Table) → lookup n users ≡ some p → Mem p (map (λ u. u.1) users)
unfolding lookup
lookup-Mem n p [] e = absurd (cc e)
lookup-Mem n p ((key, old) ∷ users) e = elim (Bool-cases (same_bytes key n)) [
  | inl q ↦ let it : old ≡ p = cc (rw q at e) in rw it mem-cons_self
  | inr q ↦ mem-cons_of_mem old (lookup-Mem n p users (rw q at e))
]

-- What is relied on of `inet_ntoa`: it prints digits and dots, and different addresses differently.
pub record Dotted (inet_ntoa : ℕ → Bytes) : Type 0 where
  pub lacks : (a : ℕ) → Lacks b'-' (inet_ntoa a)
  pub injective : (a b : ℕ) → inet_ntoa a ≡ inet_ntoa b → a ≡ b

module _ {inet_ntoa : ℕ → Bytes} (dotted : Dotted inet_ntoa) where
  -- Two peers with one name are the same.
  pub name-injective : (p q : Peer) → name inet_ntoa p ≡ name inet_ntoa q → p ≡ q
  unfolding name
  name-injective p q e =
      let a = inet_ntoa p.addr in
      let b = inet_ntoa q.addr in
      let s = to_string (pos p.port) in
      let t = to_string (pos q.port) in
      let long : length a ≡ length b =
        cc
          (find_here b'-' a s (dotted.lacks p.addr), find_here b'-' b t (dotted.lacks q.addr), e) in
      let front : a ≡ b =
        sym (take-length a (b'-' ∷ s))
        ∙ ap (take (length a)) e
        ∙ ap (λ n. take n (b ++ b'-' ∷ t)) long
        ∙ take-length b (b'-' ∷ t) in
      let back : s ≡ t =
        sym (drop_past a s b'-')
        ∙ ap (drop (length a + 1)) e
        ∙ ap (λ n. drop (n + 1) (b ++ b'-' ∷ t)) long
        ∙ drop_past b t b'-' in
      same_peer p q (dotted.injective p.addr q.addr front)
        (port_of (to_string-injective (pos p.port) (pos q.port) back))
    where
      port_of : {m n : ℕ} → pos m ≡ pos n → m ≡ n
      port_of e = cc e

      same_peer : (x y : Peer) → x.addr ≡ y.addr → x.port ≡ y.port → x ≡ y
      same_peer x y f g =
          ap (λ a. record { addr = a; port = x.port }) f
          ∙ ap (λ n. record { addr = y.addr; port = n }) g
