-- ===== src/BlockQueue/Weights.antt =====
-- The program counters that the invariant counts.
use learn_in_linux.Common.{ℕ}
use learn_in_linux.BlockQueue.{
  Pc, lock_p, check_p, woken_p, signal_p, unlock_p, lock_c, check_c, woken_c, signal_c, unlock_c,
}

module _ {A : Type 0} where
  -- A thread that holds the mutex.
  abbrev pub holds : Pc A → ℕ
  holds (check_p a) = 1
  holds signal_p = 1
  holds unlock_p = 1
  holds check_c = 1
  holds signal_c = 1
  holds unlock_c = 1
  holds _ = 0

  -- A thread that will test the queue before it sleeps.
  abbrev pub tries_p : Pc A → ℕ
  tries_p (lock_p a) = 1
  tries_p (check_p a) = 1
  tries_p (woken_p a) = 1
  tries_p _ = 0

  abbrev pub tries_c : Pc A → ℕ
  tries_c lock_c = 1
  tries_c check_c = 1
  tries_c woken_c = 1
  tries_c _ = 0

  -- A thread that is about to signal.
  abbrev pub signals_p : Pc A → ℕ
  signals_p signal_p = 1
  signals_p _ = 0

  abbrev pub signals_c : Pc A → ℕ
  signals_c signal_c = 1
  signals_c _ = 0
