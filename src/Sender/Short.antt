-- ===== src/Sender/Short.antt =====
-- src/log_sender/short_sender.cpp: the loops over the events and over the connections.
use log_service.Prelude.{
  ℕ, suc, ◌-◌, ◌≤◌, ◌≡◌, refl, ◌∙◌, true, false, List, [], ◌∷◌, Option, none, some, Bytes, arith,
  length, ltb, if◌then◌else◌, Bool-cases, inl, inr,
}
use log_service.Epoll.{Epoll}
use log_service.Sender.{
  Sender, Event, Next, goes_on, breaks, add_fd, set_mode, write_event_once, read_event_once,
}
use log_service.Sender.Order.{Works, add_fd-runs, set_mode-runs}

-- The connections that the program keeps open.
abbrev pub num_connections : ℕ
num_connections = 100

module _ {ℓ} {E : Type ℓ} (e : Epoll E) where
  abbrev pub and_read_once :
      Event → Option (Bytes × Sender E × Option Next) → Option (Bytes × Sender E × Next)
  and_read_once v none = none
  and_read_once v (some (text, s, some next)) = some (text, s, next)
  and_read_once v (some (text, s, none)) =
      if v.readable
      then elim (read_event_once e v s) [ none ↦ none | some (s', next) ↦ some (text, s', next) ]
      else some (text, s, goes_on)

  -- `DoWithEpoll`: what is sent, one text for each event that it gets to.
  pub do_with_epoll_once : List Event → Sender E → Option (List Bytes × Sender E)
  do_with_epoll_once [] s = some ([], s)
  do_with_epoll_once (v ∷ vs) s =
      let start : Option (Bytes × Sender E × Option Next) =
        if v.writable then write_event_once e v s else some ([], s, none) in
      elim (and_read_once v start) [
        | none ↦ none
        | some (text, s', breaks) ↦ some (text ∷ [], s')
        | some (text, s', goes_on) ↦ elim (do_with_epoll_once vs s') [
          | none ↦ none
          | some (texts, s'') ↦ some (text ∷ texts, s'')
        ]
      ]

  -- A descriptor of `Connect_to_Server`, put into epoll to be written to.
  pub open_one : ℕ → Sender E → Option (Sender E)
  open_one fd s = elim (add_fd e fd s) [ none ↦ none | some s' ↦ set_mode e fd true s' ]

  -- `while(epoll_obj.size_ < 100)`: the descriptors are those that the calls of `Connect_to_Server` return;
  -- `none` where they end, or where `epoll_ctl` fails.
  pub connect_all : List ℕ → Sender E → Option (Sender E)
  unfolding open_one
  connect_all [] s = if ltb s.size num_connections then none else some s
  connect_all (fd ∷ fds) s = elim (ltb s.size num_connections) [
    | false ↦ some s
    | true ↦ elim (open_one fd s) [ none ↦ none | some s' ↦ connect_all fds s' ]
  ]

  -- A round of the loop of `main`.
  pub main_round_once : List Event → List ℕ → Sender E → Option (List Bytes × Sender E)
  unfolding do_with_epoll_once connect_all
  main_round_once events fds s = elim (do_with_epoll_once events s) [
    | none ↦ none
    | some (texts, s') ↦ elim (connect_all fds s') [ none ↦ none | some s'' ↦ some (texts, s'') ]
  ]

  open_one-runs :
      (works : Works e) (fd : ℕ) (s : Sender E)
      → (s' : Sender E) × (open_one fd s ≡ some s')
        × (s'.msg_queue ≡ s.msg_queue)
        × (s'.size ≡ suc s.size)
  unfolding open_one
  open_one-runs works fd s =
      let (s1, f1, same1, more) = add_fd-runs e works fd s in
      let (s2, f2, same2, size) = set_mode-runs e works fd true s1 in
      (s2, rw (open_one, f1) f2, same2 ∙ same1, size ∙ more)

  connect_all-step :
      (fd : ℕ) (fds : List ℕ) (s s' : Sender E)
      → ltb s.size num_connections ≡ true
      → open_one fd s ≡ some s'
      → connect_all (fd ∷ fds) s ≡ connect_all fds s'
  unfolding connect_all
  connect_all-step fd fds s s' few f = rw (connect_all, few, f) refl

  connect_all-done :
      (fds : List ℕ) (s : Sender E)
      → ltb s.size num_connections ≡ false
      → connect_all fds s ≡ some s
  unfolding connect_all
  connect_all-done [] s e = simp e refl
  connect_all-done (fd ∷ fds) s e = simp (connect_all, e) refl

  -- Where `epoll_ctl` does not fail and there are as many new descriptors as connections are missing, the
  -- loop returns with a hundred connections, or with those that there were if they were more, and
  -- leaves the messages in the queue.
  pub connect_all-size :
      (works : Works e) (fds : List ℕ) (s : Sender E)
      → num_connections - s.size ≤ length fds
      → (s' : Sender E) × (connect_all fds s ≡ some s')
        × (s'.size ≡ (if ltb s.size num_connections then num_connections else s.size))
        × (s'.msg_queue ≡ s.msg_queue)
  connect_all-size works [] s h =
      let done : ltb s.size num_connections ≡ false = ground arith in
      (s, connect_all-done [] s done, ground arith, refl)
  connect_all-size works (fd ∷ fds) s h = elim (Bool-cases (ltb s.size num_connections)) [
    | inr done ↦ (s, connect_all-done (fd ∷ fds) s done, ground arith, refl)
    | inl few ↦
        let (s1, f, same, more) = open_one-runs works fd s in
        let (s2, g, size, rest) = connect_all-size works fds s1 (omega (arith, more, h)) in
        (s2, connect_all-step fd fds s s1 few f ∙ g, ground (arith, size, more, few), rest ∙ same)
  ]
