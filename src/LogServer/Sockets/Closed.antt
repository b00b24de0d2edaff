-- ===== src/LogServer/Sockets/Closed.antt =====
-- A connection that is closed behind its messages.
use mathlib.Core.Path.{subst}
use log_service.Prelude.{
  ℕ, zero, suc, ◌+◌, ◌-◌, ◌<◌, ◌≡◌, refl, sym, ap, ◌∙◌, true, false, List, [], ◌∷◌, ◌++◌, none,
  some, Bytes, arith, leb, length, take, drop, take_all, ◌==◌, replicate, Option-cases, inl, inr,
}
use log_service.Config.{buffer_size}
use log_service.HttpParser.{parse_req}
use log_service.HttpParser.Append.{NoNul}
use log_service.ReqData.{ReqData, need_send_back, is_positive}
use log_service.LogServer.{Connections, write_msgs}
use log_service.Epoll.{Epoll, Received, received}
use log_service.LogServer.Sockets.{
  Server, del_fd, modify_fd_mode, close_connection, want_ack, handle_messages, read_loop,
  read_fd_work, receive, terminated, messages,
}

terminated-text : (s rest : Bytes) → NoNul s → terminated (s ++ (0 ∷ rest)) ≡ some s
unfolding terminated
terminated-text [] rest h = refl
terminated-text (c ∷ s) rest (pos, h) =
    let nonzero : (c == 0) ≡ false = ground arith in rw (nonzero, terminated-text s rest h) refl

-- Zeros behind `n` of them.
drop-zeros : (n k : ℕ) → n < k → (rest : Bytes) × (drop n (replicate k 0) ≡ 0 ∷ rest)
drop-zeros n zero h = absurd (omega arith)
drop-zeros zero (suc k) h = (replicate k 0, refl)
drop-zeros (suc n) (suc k) h = drop-zeros n k (omega arith)

-- A message that is shorter than the buffer stands in it with a NUL behind it.
terminated-receive :
    (text : Bytes)
    → NoNul text
    → length text < buffer_size
    → terminated (receive 0 text (replicate buffer_size 0)) ≡ some text
unfolding receive
terminated-receive text h short =
    let all = take_all (buffer_size - 0) text (omega arith) in
    let plain : length text ≡ 0 + length text = omega arith in
    let (rest, zeros) = drop-zeros (length text) buffer_size short in
    subst
      (λ (t : Bytes). terminated (t ++ drop (0 + length t) (replicate buffer_size 0)) ≡ some text)
      (sym all)
      (subst (λ (n : ℕ). terminated (text ++ drop n (replicate buffer_size 0)) ≡ some text) plain
        (subst (λ (z : Bytes). terminated (text ++ z) ≡ some text) (sym zeros)
          (terminated-text text rest h)))

room_left : (n : ℕ) → n < buffer_size → leb buffer_size n ≡ false
room_left n h = ground arith

module _ {ℓ} {E : Type ℓ} (e : Epoll E) where
  handle_messages-fails :
      (fd : ℕ) (buffer text : Bytes) (s : Server E)
      → terminated buffer ≡ some text
      → ((c : Connections) → (write_msgs fd (messages text) c).2 ≡ false)
      → e.ctl_mod fd true s.epoll ≡ none
      → handle_messages e fd buffer s ≡ none
  unfolding handle_messages want_ack modify_fd_mode
  handle_messages-fails fd buffer text s a needs gone =
      rw (handle_messages, a, needs s.connections, gone) refl

  needs_none :
      (fd c : ℕ) (str : Bytes) (r : ReqData) (cs : Connections)
      → parse_req (c ∷ str) ≡ some r
      → is_positive (need_send_back r) ≡ false
      → (write_msgs fd (messages (c ∷ str)) cs).2 ≡ false
  unfolding write_msgs
  needs_none fd c str r cs p no_answer = rw (write_msgs, p, no_answer) refl

  read_loop-closed :
      (fd n : ℕ) (buffer text : Bytes) (answers : List Received) (s : Server E)
      → ((p p' : E) → e.ctl_del fd p ≡ some p' → e.ctl_mod fd true p' ≡ none)
      → terminated buffer ≡ some text
      → ((c : Connections) → (write_msgs fd (messages text) c).2 ≡ false)
      → 0 < n
      → read_loop e fd (received [] ∷ answers) n buffer s ≡ none
  unfolding read_loop close_connection del_fd
  read_loop-closed fd n buffer text answers s gone a needs pos =
      elim (Option-cases (e.ctl_del fd s.epoll)) [
        | inl missing ↦ rw (read_loop, missing) refl
        | inr (p', found) ↦
            let some_read : (n == 0) ≡ false = ground arith in
            rw (read_loop, found, some_read)
              (handle_messages-fails fd buffer text _ a needs (gone s.epoll p' found))
      ]

  read_loop-part :
      (fd c n : ℕ) (str : Bytes) (answers : List Received) (buffer : Bytes) (s : Server E)
      → length (take buffer_size (c ∷ str)) ≡ n
      → n < buffer_size
      → read_loop e fd (received (c ∷ str) ∷ answers) 0 buffer s
        ≡ read_loop e fd answers n (receive 0 (c ∷ str) buffer) s
  unfolding read_loop
  read_loop-part fd c n str answers buffer s size short =
      let index : 0 + length (take buffer_size (c ∷ str)) ≡ n = omega (arith, size) in
      let room = subst (λ (k : ℕ). leb buffer_size k ≡ false) (sym index) (room_left n short) in
      rw (read_loop, room)
        (ap (λ (k : ℕ). read_loop e fd answers k (receive 0 (c ∷ str) buffer) s) index)

  -- Where a client closes its connection behind a request that needs no answer, in a message without
  -- a NUL that is shorter than the buffer, and the server reads both in one turn, the process ends: it
  -- has taken the descriptor out of `epoll`, and asks to write to it. `epoll_ctl` fails to change a
  -- descriptor that was taken out.
  pub read_fd_work-closed :
      (fd c : ℕ) (str : Bytes) (r : ReqData) (answers : List Received) (s : Server E)
      → ((p p' : E) → e.ctl_del fd p ≡ some p' → e.ctl_mod fd true p' ≡ none)
      → NoNul (c ∷ str)
      → length (c ∷ str) < buffer_size
      → parse_req (c ∷ str) ≡ some r
      → is_positive (need_send_back r) ≡ false
      → read_fd_work e fd (received (c ∷ str) ∷ received [] ∷ answers) s ≡ none
  unfolding read_fd_work
  read_fd_work-closed fd c str r answers s gone no_nul short p no_answer =
      let text = c ∷ str in
      read_loop-part fd c (length text) str (received [] ∷ answers) (replicate buffer_size 0) s
        (ap length (take_all buffer_size text (omega arith))) short
      ∙ read_loop-closed fd (length text) (receive 0 text (replicate buffer_size 0)) text answers s
          gone (terminated-receive text no_nul short) (λ cs. needs_none fd c str r cs p no_answer)
          (omega arith)
