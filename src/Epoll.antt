-- ===== src/Epoll.antt =====
-- include/Epoll.h and the sockets of src/log_server/log_server.cpp and src/log_sender: what the calls of
-- the operating system answer.
use log_service.Prelude.{ℕ, Bool, Option, Bytes}

-- The kernel's side of `Epoll_Obj`: the descriptors with their modes, and `epoll_ctl`, which fails
-- with -1. The mode is whether the program waits to write.
pub record Epoll {ℓ} (E : Type ℓ) : Type ℓ where
  pub ctl_add : ℕ → Bool → E → Option E
  pub ctl_del : ℕ → E → Option E
  pub ctl_mod : ℕ → Bool → E → Option E

-- The answers of `recv`, which are no bytes at the end of the connection, and of `send`.
pub data Received : Type 0 where
  received : Bytes → Received
  would_block failed : Received

pub data Sent : Type 0 where
  sent : ℕ → Sent
  later broken : Sent
