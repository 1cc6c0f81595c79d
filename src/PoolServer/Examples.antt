-- ===== src/PoolServer/Examples.antt =====
-- Clients of the three services, and a thread pool with one task.
use learn_in_linux.Common.{ℕ, ◌≡◌, refl, true, some, [], ◌∷◌, ◌++◌, ok, fault, Fault, arith}
use learn_in_linux.Text.{codes, c_str}
use learn_in_linux.ThreadPool.{
  outside, lock_p, push_p, signal_p, System, pick, Reach, start, next, push_task, locked_p, pushed,
}
use learn_in_linux.PoolServer.{Task, PoolServer, tcp_server, init_server, accept_once}
use learn_in_linux.PoolServer
use learn_in_linux.Text.Case.{is_lower}
use learn_in_linux.PoolServer.Services.{
  room, service, change, change_text, dict_online, translate, lookup,
}
use learn_in_linux.Wire.Talk.{Peer, kernel, wire}
use learn_in_linux.PoolServer.Echo.{service_lem}
use learn_in_linux.PoolServer.Accepting.{answers, clients, accepted_once}

-- A client that sends "hard" and "a", and ends.
abbrev asking : Peer
asking = record { chunks = (b'h', codes "ard") ∷ (b'a', []) ∷ []; written = []; closes = 0 }

service_lem_example :
    (k : Peer) × (service kernel 3 4 asking ≡ ok k) × ((k.written ≡ codes "harda") × (k.closes ≡ 1))
unfolding c_str
service_lem_example = service_lem (wire room 4) 3 asking (omega arith)

-- A client that sends a letter in UTF-8.
non_ascii :
    change kernel 4 (record { chunks = (0xe8, 0x8b ∷ 0xb9 ∷ []) ∷ []; written = []; closes = 0 })
    ≡ fault Fault.bad_char
unfolding change change_text is_lower c_str
non_ascii = refl

apple : translate (codes "apple") ≡ 0xe8 ∷ 0x8b ∷ 0xb9 ∷ 0xe6 ∷ 0x9e ∷ 0x9c ∷ []
unfolding translate lookup
apple = refl

abbrev task : Task Peer
task = record { sock = 4; ip = 1; port = 2; func = dict_online kernel }

abbrev listening : PoolServer Peer
listening = record { port = 8080; ip = codes "0.0.0.0"; listensock = some 3; pool = [] }

abbrev one_task : System (Task Peer)
one_task = record {
  pool = record { task_queue = task ∷ []; lock = true; pushed = task ∷ []; taken = []; ran = [] };
  threads = signal_p ∷ [];
}

one_task-Reach : Reach 0 1 one_task
one_task-Reach =
    let r1 = next start (pick [] [] outside (lock_p task) refl (push_task task) refl) in
    let r2 = next r1 (pick [] [] (lock_p task) (push_p task) refl (locked_p refl) refl) in
    next r2 (pick [] [] (push_p task) signal_p refl pushed refl)

accepted_once_example :
    (l : ℕ) × (listening.listensock ≡ some l)
    × (one_task.pool.taken ++ one_task.pool.task_queue ≡ clients kernel (answers kernel 1 l asking))
unfolding init_server tcp_server PoolServer.start accept_once
accepted_once_example =
    accepted_once kernel 8080 (codes "0.0.0.0") 1 asking asking listening refl one_task-Reach refl
