-- ===== src/LengthProtocol/Server.antt =====
-- 10-23/NetCal/TcpServer.hpp and Sock.hpp, Recv and Send of Protocol.hpp, and calculator(sock) of
-- CalServer.cc over the calls of a kernel: a server with a thread for each client.
use learn_in_linux.Common.{
  ℕ, zero, suc, Bool, true, false, none, some, List, [], ◌∷◌, ◌++◌, Bytes, if◌then◌else◌, Result,
  ok, fault, Fault, ◌>>=◌,
}
use learn_in_linux.Text.{c_str}
use learn_in_linux.Reactor.Os.{Os, Accepted, Received}
use learn_in_linux.Reactor.Protocol.Request.{Request}
use learn_in_linux.Reactor.Protocol.Response as Plain
use learn_in_linux.LengthProtocol.Service.{answer_one}

-- `sizeof(buffer) - 1` of `Recv`.
abbrev pub room : ℕ
room = 1023

abbrev gbacklog : ℕ
gbacklog = 20

module _ {K : Type 0} (os : Os K) where
  unfoldable pub sock_socket : K → Result (ℕ × K)
  sock_socket k =
      let (s, k') = os.socket k in
      elim s [ none ↦ fault (Fault.exited 2) | some listensock ↦ ok (listensock, k') ]

  unfoldable pub sock_bind : (sock port : ℕ) → Bytes → K → Result K
  sock_bind sock port ip k =
      let (done, k') = os.bind sock port ip k in if done then ok k' else fault (Fault.exited 3)

  unfoldable pub sock_listen : (sock : ℕ) → K → Result K
  sock_listen sock k =
      let (done, k') = os.listen sock gbacklog k in if done then ok k' else fault (Fault.exited 4)

  -- The value is -1, or the descriptor with `*ip` and `*port`.
  unfoldable pub sock_accept : (listensock : ℕ) → K → Accepted × K
  sock_accept listensock k = os.accept listensock k

  -- `Recv`: what it returns, and `*out` after it.
  unfoldable pub recv_text : (sock : ℕ) → Bytes → K → (Bool × Bytes) × K
  recv_text sock out k =
      let (r, k') = os.recv sock room k in
      elim r [
        | Received.received [] ↦ ((false, out), k')
        | Received.not_received e ↦ ((false, out), k')
        | Received.received (b ∷ bs) ↦ ((true, out ++ c_str (b ∷ bs)), k')
      ]

  -- `Send`.
  unfoldable pub send_text : (sock : ℕ) → Bytes → K → K
  send_text sock str k = (os.send sock str k).1

  unfoldable pub send_all : (sock : ℕ) → List Bytes → K → K
  send_all sock [] k = k
  send_all sock (s ∷ ss) k = send_all sock ss (send_text sock s k)

  -- class TcpServer. `threads` are the sockets for which a thread was started, oldest first.
  pub record NetCalServer : Type 0 where
    pub listensock : ℕ
    pub func : List (ℕ → K → Result K)
    pub threads : List ℕ
    pub kernel : K

  unfoldable pub net_cal_server : (port : ℕ) → (ip : Bytes) → K → Result NetCalServer
  net_cal_server port ip k = do
    (listensock, k1) ← sock_socket k
    k2 ← sock_bind listensock port ip k1
    k3 ← sock_listen listensock k2
    ok (record { listensock = listensock; func = []; threads = []; kernel = k3 })

  unfoldable pub bind_service : (ℕ → K → Result K) → NetCalServer → NetCalServer
  bind_service f s = record s { func = s.func ++ f ∷ [] }

  unfoldable pub excute : List (ℕ → K → Result K) → (sock : ℕ) → K → Result K
  excute [] sock k = ok k
  excute (f ∷ fs) sock k = do k' ← f sock k; excute fs sock k'

  unfoldable pub thread_routine : NetCalServer → (sock : ℕ) → K → Result K
  thread_routine s sock k = do k' ← excute s.func sock k; ok (os.close sock k')

  -- One round of `Start`.
  unfoldable pub accept_once : NetCalServer → NetCalServer
  accept_once s =
      let (r, k) = sock_accept s.listensock s.kernel in
      elim r [
        | Accepted.not_accepted e ↦ record s { kernel = k }
        | Accepted.accepted sock ip port ↦ record s { threads = s.threads ++ sock ∷ []; kernel = k }
      ]

  -- `Start` never returns: this is the server after `n` rounds.
  unfoldable pub start : ℕ → NetCalServer → NetCalServer
  start zero s = s
  start (suc n) s = start n (accept_once s)

  module _ (read : Bytes → Result Request) (write : Request → Plain.Response → Bytes) where
    -- `calculator(sock)`, with `fuel` rounds for its loop.
    unfoldable pub calculator_loop : (fuel sock : ℕ) → Bytes → K → Result K
    calculator_loop zero sock inbuffer k = fault Fault.out_of_fuel
    calculator_loop (suc fuel) sock inbuffer k =
        let ((res, buffer), k') = recv_text sock inbuffer k in
        elim res [
          | false ↦ ok k'
          | true ↦ do
            (sent, rest) ← answer_one read write buffer
            calculator_loop fuel sock rest (send_all sock sent k')
        ]
