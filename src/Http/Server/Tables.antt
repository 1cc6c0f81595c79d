-- ===== src/Http/Server/Tables.antt =====
-- The descriptors of the parent and of its children in every state that they can reach.
use learn_in_linux.Common.{
  ℕ, suc, ◌≡◌, ◌≢◌, refl, sym, ap, ◌∙◌, Option, none, some, List, [], ◌∷◌, ◌++◌, Bytes, All, ◌==◌,
  ==_ne, ==_refl,
}
use mathlib.Core.Path.{subst}
use learn_in_linux.Reactor.Os.{Received}
use learn_in_linux.Http.Server.{
  listener, client, Table, file_of, close_fd, ParentAt, accepting, forking, closing, Child, ChildAt,
  closing_listensock, handling, closing_sockfd, exiting, gone, Http, init, Parent, not_accepted,
  accepted, forked, not_forked, closed, ChildMove, closed_listensock, handled, failed,
  closed_sockfd, exited, Reach, start, parent, child,
}

module _ (s l n : ℕ) where
  abbrev pub both : Table
  both = (s, client n) ∷ (l, listener) ∷ []

  abbrev pub alone : Table
  alone = (s, client n) ∷ []

  pub file_of-both : file_of s both ≡ some (client n)
  unfolding file_of
  file_of-both = rw (==_refl s) refl

  pub file_of-alone : file_of s alone ≡ some (client n)
  unfolding file_of
  file_of-alone = rw (==_refl s) refl

  pub close_fd-alone : close_fd s alone ≡ []
  unfolding close_fd
  close_fd-alone = rw (==_refl s) refl

  module _ (ne : s ≢ l) where
    pub close_listener : close_fd l both ≡ alone
    unfolding close_fd
    close_listener = rw (==_ne s l ne, ==_refl l) refl

    pub close_client : close_fd s both ≡ (l, listener) ∷ []
    unfolding close_fd
    close_client = rw (==_refl s, ==_ne l s (λ e. ne (sym e))) refl

module _ (l : ℕ) where
  abbrev pub ParentTable : ParentAt → Table → ℕ → Type 0
  ParentTable accepting fds count = fds ≡ (l, listener) ∷ []
  ParentTable (forking s) fds count = (n : ℕ) × (suc n ≡ count) × (s ≢ l) × (fds ≡ both s l n)
  ParentTable (closing s) fds count = (n : ℕ) × (suc n ≡ count) × (s ≢ l) × (fds ≡ both s l n)

  abbrev pub TableAt : ChildAt → ℕ → Table → Type 0
  TableAt closing_listensock s fds = (n : ℕ) × (s ≢ l) × (fds ≡ both s l n)
  TableAt handling s fds = (n : ℕ) × (fds ≡ alone s l n)
  TableAt closing_sockfd s fds = (n : ℕ) × (fds ≡ alone s l n)
  TableAt exiting s fds = fds ≡ []
  TableAt gone s fds = fds ≡ []

  abbrev pub ChildTable : Child → Type 0
  ChildTable c = TableAt c.at c.sockfd c.fds

pub All-at :
    {A : Type 0} (P : A → Type 0) (before after : List A) (c : A)
    → All P (before ++ c ∷ after)
    → P c
All-at P [] after c (p, ps) = p
All-at P (b ∷ bs) after c (p, ps) = All-at P bs after c ps

pub All-replace :
    {A : Type 0} (P : A → Type 0) (before after : List A) (c c' : A)
    → All P (before ++ c ∷ after)
    → P c'
    → All P (before ++ c' ∷ after)
All-replace P [] after c c' (p, ps) q = (q, ps)
All-replace P (b ∷ bs) after c c' (p, ps) q = (p, All-replace P bs after c c' ps q)

file_of_other : (s l : ℕ) → file_of s ((l, listener) ∷ []) ≡ none → s ≢ l
unfolding file_of
file_of_other s l e same = absurd (cc (rw (ap (λ x. l == x) same, ==_refl l) at e))

module _ (lines : Bytes → Option (List Bytes)) (request : ℕ → Received) (l : ℕ) where
  parent-Table :
      (h h' : Http) (a a' : ParentAt)
      → Parent lines request l h a h' a'
      → ParentTable l a h.fds h.accepted
      → ParentTable l a' h'.fds h'.accepted
  parent-Table h h' a a' not_accepted t = t
  parent-Table h h' a a' (accepted s free) t =
      (h.accepted, refl, file_of_other s l (rw t at free), ap (λ x. (s, client h.accepted) ∷ x) t)
  parent-Table h h' a a' forked t = t
  parent-Table h h' a a' (not_forked n e) t = t
  parent-Table h h' a a' (closed {sockfd = s}) (n, e, ne, t) =
      ap (close_fd s) t ∙ close_client s l n ne

  parent-Children :
      (h h' : Http) (a a' : ParentAt)
      → Parent lines request l h a h' a'
      → ParentTable l a h.fds h.accepted
      → All (ChildTable l) h.children
      → All (ChildTable l) h'.children
  parent-Children h h' a a' not_accepted t cs = cs
  parent-Children h h' a a' (accepted s free) t cs = cs
  parent-Children h h' a a' forked (n, e, ne, t) cs = ((n, ne, t), cs)
  parent-Children h h' a a' (not_forked n e) t cs = cs
  parent-Children h h' a a' closed t cs = cs

  child-Table :
      (s : ℕ) (fds : Table) (at : ChildAt) (c' : Child) (text : List (ℕ × Bytes)) (loss : _)
      → ChildMove lines request l s fds at c' text loss
      → TableAt l at s fds
      → ChildTable l c'
  child-Table s fds at c' text loss closed_listensock (n, ne, t) =
      (n, ap (close_fd l) t ∙ close_listener s l n ne)
  child-Table s fds at c' text loss (handled n b e r) t = t
  child-Table s fds at c' text loss (failed n x e r) t = refl
  child-Table s fds at c' text loss closed_sockfd (n, t) = ap (close_fd s) t ∙ close_fd-alone s l n
  child-Table s fds at c' text loss exited t = refl

  -- Before each `accept` the parent holds the listening socket and nothing else, so it keeps no client's
  -- descriptor. A child that handles a request or closes its socket holds that socket alone, and
  -- one that has closed it holds nothing.
  pub reach-Tables :
      (h : Http) (a : ParentAt)
      → Reach lines request l h a
      → ParentTable l a h.fds h.accepted × All (ChildTable l) h.children
  unfolding init
  reach-Tables h a start = (refl, tt)
  reach-Tables h a (parent {h = g} {a = b} r m) =
      let (t, cs) = reach-Tables g b r in (parent-Table g h b a m t, parent-Children g h b a m t cs)
  reach-Tables h a (child {h = g} before after c c' text loss r e m) =
      let (t, cs) = reach-Tables g a r in
      let all = subst (All (ChildTable l)) e cs in
      (
        t,
        All-replace (ChildTable l) before after c c' all (
            child-Table c.sockfd c.fds c.at c' text loss m
              (All-at (ChildTable l) before after c all)),
      )
