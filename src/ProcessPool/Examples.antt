-- ===== src/ProcessPool/Examples.antt =====
-- Three children, as `gnum` says.
use learn_in_linux.Common.{ℕ, ◌≡◌, refl, List, [], ◌∷◌, ◌++◌, map, ok, arith}
use learn_in_linux.Common.Int.{ℤ, pos, negsuc}
use learn_in_linux.Text.{codes, to_string, digits}
use learn_in_linux.ProcessPool.{
  EndPoint, end_point, main, full, at_end, wait_command, execute, print_log, net_request,
}
use learn_in_linux.ProcessPool.Shutdown.{succeeds, main_ends}
use learn_in_linux.ProcessPool.{has}

abbrev three : List (ℕ × ℕ)
three = (4, 101) ∷ (5, 102) ∷ (6, 103) ∷ []

abbrev typed_first : List ℤ
typed_first = pos 0 ∷ pos 9 ∷ pos 2 ∷ negsuc 0 ∷ pos 1 ∷ pos 0 ∷ []

abbrev typed : List ℤ
typed = typed_first ++ pos 3 ∷ (pos 1 ∷ [])

abbrev two_ends : List EndPoint
two_ends = end_point 0 101 4 ∷ end_point 1 102 5 ∷ []

main_ends_example :
    (written : List (ℕ × ℤ)) × (main (map succeeds three) (typed_first ++ pos 3 ∷ (pos 1 ∷ []))
      ≡ ok (written, record { writes = []; children = [] }))
unfolding has
main_ends_example =
    main_ends three typed_first (pos 1 ∷ []) (omega arith) (refl, (refl, (refl, tt)))

-- The first child runs what it was sent.
first_child :
    wait_command (full (pos 0) ∷ full (pos 2) ∷ at_end ∷ []) ≡ print_log ∷ net_request ∷ []
unfolding wait_command execute
first_child = refl

named : (end_point 0 101 4).processname ≡ codes "process-0[101:4]"
unfolding end_point to_string digits
named = refl
