-- ===== src/Reactor.antt =====
-- Reactor/reactor: the epoll server with one buffer pair to a connection, and its calculator.
pub mod Protocol
pub mod Calculator
pub mod Os
pub mod Sock
pub mod Epoll
pub mod Server
pub mod NetCal
