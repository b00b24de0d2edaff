-- ===== src/Sender/Order.antt =====
-- The messages of src/log_sender/log_sender.cpp go to the server in the order of the queue.
use mathlib.Core.Path.{subst}
use log_service.Prelude.{
  ℕ, suc, ◌-◌, ◌≤◌, ◌≡◌, refl, sym, ap, ◌∙◌, Bool, true, false, List, [], ◌∷◌, ◌++◌, Option, none,
  some, Bytes, arith, length, leb, le→leb, if◌then◌else◌, Bool-cases, inl, inr, append_assoc,
  append-nil,
}
use log_service.Epoll.{Epoll, Sent, sent}
use log_service.QueryResult.Complete.{joined}
use log_service.Sender.{
  Sender, Event, Next, goes_on, breaks, send_message, drain, add_fd, close_fd, set_mode, then_read,
  write_event, read_event, and_read, do_with_epoll,
}

-- `epoll_ctl` does not fail.
pub record Works {ℓ} {E : Type ℓ} (e : Epoll E) : Type ℓ where
  pub adds : (fd : ℕ) (mode : Bool) (p : E) → (q : E) × (e.ctl_add fd mode p ≡ some q)
  pub deletes : (fd : ℕ) (p : E) → (q : E) × (e.ctl_del fd p ≡ some q)
  pub modifies : (fd : ℕ) (mode : Bool) (p : E) → (q : E) × (e.ctl_mod fd mode p ≡ some q)

-- The first `send` takes a whole message, and the calls of `recv` end.
pub record Answered (limit : ℕ) (v : Event) : Type 0 where
  pub taken : ℕ
  pub others : List Sent
  pub sends : v.sending ≡ sent taken ∷ others
  pub room : limit ≤ taken
  pub any : Bool
  pub drained : drain v.reading ≡ some any

abbrev pub AllAnswered : ℕ → List Event → Type 0
AllAnswered limit [] = Unit
AllAnswered limit (v ∷ vs) = Answered limit v × AllAnswered limit vs

abbrev pub AllShort : ℕ → List Bytes → Type 0
AllShort limit [] = Unit
AllShort limit (m ∷ ms) = (length m ≤ limit) × AllShort limit ms

module _ {ℓ} {E : Type ℓ} (e : Epoll E) (works : Works e) where
  pub add_fd-runs :
      (fd : ℕ) (s : Sender E)
      → (s' : Sender E) × (add_fd e fd s ≡ some s')
        × (s'.msg_queue ≡ s.msg_queue)
        × (s'.size ≡ suc s.size)
  unfolding add_fd
  add_fd-runs fd s =
      let (q, f) = works.adds fd false s.epoll in
      (record s { epoll = q; size = suc s.size }, rw (add_fd, f) refl, refl, refl)

  pub close_fd-runs :
      (fd : ℕ) (s : Sender E)
      → (s' : Sender E) × (close_fd e fd s ≡ some s') × (s'.msg_queue ≡ s.msg_queue)
  unfolding close_fd
  close_fd-runs fd s =
      let (q, f) = works.deletes fd s.epoll in
      (
        record s { epoll = q; size = s.size - 1; closed = fd ∷ s.closed },
        rw (close_fd, f) refl,
        refl,
      )

  pub set_mode-runs :
      (fd : ℕ) (mode : Bool) (s : Sender E)
      → (s' : Sender E) × (set_mode e fd mode s ≡ some s')
        × (s'.msg_queue ≡ s.msg_queue)
        × (s'.size ≡ s.size)
  unfolding set_mode
  set_mode-runs fd mode s =
      let (q, f) = works.modifies fd mode s.epoll in
      (record s { epoll = q }, rw (set_mode, f) refl, refl, refl)

send_message-whole :
    (limit : ℕ) (v : Event) (msg : Bytes)
    → (a : Answered limit v) → length msg ≤ limit
    → send_message v.sending msg ≡ some (msg, a.others)
unfolding send_message
send_message-whole limit v msg a h =
    let fits : leb (length msg) a.taken ≡ true =
      le→leb (length msg) a.taken (omega (arith, h, a.room)) in
    rw (a.sends, send_message, fits) refl

-- What is sent stands in front of what is left in the queue.
record Passes {ℓ} {E : Type ℓ} (limit : ℕ) (s : Sender E) (text : Bytes) (s' : Sender E)
    : Type ℓ where
  in_order : text ++ joined s'.msg_queue ≡ joined s.msg_queue
  short : AllShort limit s'.msg_queue

Passes-same {ℓ} :
    {E : Type ℓ} (limit : ℕ) (s s' : Sender E)
    → AllShort limit s.msg_queue
    → s'.msg_queue ≡ s.msg_queue
    → Passes limit s [] s'
Passes-same limit s s' short e = record {
  in_order = ap joined e;
  short = subst (AllShort limit) (sym e) short;
}

module _ {ℓ} {E : Type ℓ} (e : Epoll E) (works : Works e) (limit : ℕ) where
  then_read-runs :
      (fd : ℕ) (s : Sender E) (text : Bytes) (left : List Sent)
      → (s' : Sender E) × (then_read e fd s (some (text, left)) ≡ some (text, s'))
        × (s'.msg_queue ≡ s.msg_queue)
  unfolding then_read
  then_read-runs fd s text left =
      let (s', f, same, size) = set_mode-runs e works fd false s in
      (s', rw (then_read, f) refl, same)

  write_event-Passes :
      (v : Event) (s : Sender E)
      → Answered limit v
      → AllShort limit s.msg_queue
      → (text : Bytes) × (s' : Sender E) × (next : Option Next) × (write_event e v s
          ≡ some (text, s', next))
        × Passes limit s text s'
  unfolding write_event joined
  write_event-Passes v s a short = elim (Bool-cases v.established) [
    | inr e' ↦
        let (s', f, same) = close_fd-runs e works v.fd s in
        ([], s', some goes_on, rw (write_event, e', f) refl, Passes-same limit s s' short same)
    | inl e' ↦ by_queue s.msg_queue refl e'
  ]
    where
      by_queue :
          (q : List Bytes)
          → s.msg_queue ≡ q
          → v.established ≡ true
          → (text : Bytes) × (s' : Sender E) × (next : Option Next) × (write_event e v s
              ≡ some (text, s', next))
            × Passes limit s text s'
      by_queue [] f e' =
          ([], s, some breaks, simp (write_event, e', f) refl, Passes-same limit s s short refl)
      by_queue (m ∷ ms) f e' =
          let fits : AllShort limit (m ∷ ms) = subst (AllShort limit) f short in
          let sent = send_message-whole limit v m a fits.0 in
          let (s', g, same) = then_read-runs v.fd (record s { msg_queue = ms }) m a.others in
          (
            m,
            s',
            none,
            simp (write_event, e', f, sent, g) refl,
            record {
              in_order = ap (λ (l : List Bytes). m ++ joined l) same ∙ sym (ap joined f);
              short = subst (AllShort limit) (sym same) fits.1;
            },
          )

  read_event-runs :
      (v : Event) (s : Sender E)
      → Answered limit v
      → (s' : Sender E) × (next : Next) × (read_event e v s ≡ some (s', next))
        × (s'.msg_queue ≡ s.msg_queue)
  unfolding read_event
  read_event-runs v s a = elim (Bool-cases v.hung_up) [
    | inl up ↦
        let (s1, f1, same1) = close_fd-runs e works v.fd s in
        let (s2, f2, same2, size2) = add_fd-runs e works v.new_fd s1 in
        let (s3, f3, same3, size3) = set_mode-runs e works v.new_fd false s2 in
        (s3, breaks, rw (read_event, a.drained, up, f1, f2, f3) refl, same3 ∙ same2 ∙ same1)
    | inr down ↦ (s, goes_on, rw (read_event, a.drained, down) refl, refl)
  ]

  -- One event, from the outcome of its first part on.
  abbrev Reads : Event → Sender E → Option (Bytes × Sender E × Option Next) → Type ℓ
  Reads v s start =
      (text : Bytes) × (s' : Sender E) × (next : Next) × (and_read e v start
        ≡ some (text, s', next))
      × Passes limit s text s'

  then_read-Reads :
      (v : Event) (s s' : Sender E) (text : Bytes) (o : Option Next)
      → Answered limit v
      → Passes limit s text s'
      → Reads v s (some (text, s', o))
  unfolding and_read
  then_read-Reads v s s' text (some next) a p = (text, s', next, refl, p)
  then_read-Reads v s s' text none a p = elim (Bool-cases v.readable) [
    | inr w ↦ (text, s', goes_on, simp w refl, p)
    | inl w ↦
        let (s'', next, f, same) = read_event-runs v s' a in
        (
          text,
          s'',
          next,
          simp (w, f) refl,
          record {
            in_order = ap (λ (q : List Bytes). text ++ joined q) same ∙ p.in_order;
            short = subst (AllShort limit) (sym same) p.short;
          },
        )
  ]

  abbrev start_of : Event → Sender E → Option (Bytes × Sender E × Option Next)
  start_of v s = if v.writable then write_event e v s else some ([], s, none)

  event-Reads :
      (v : Event) (s : Sender E)
      → Answered limit v
      → AllShort limit s.msg_queue
      → Reads v s (start_of v s)
  event-Reads v s a short = elim (Bool-cases v.writable) [
    | inl w ↦
        let (text, s', o, f, p) = write_event-Passes v s a short in
        subst (Reads v s)
          (sym (ap (λ (b : Bool). if b then write_event e v s else some ([], s, none)) w ∙ f))
          (then_read-Reads v s s' text o a p)
    | inr w ↦
        subst (Reads v s)
          (sym (ap (λ (b : Bool). if b then write_event e v s else some ([], s, none)) w))
          (then_read-Reads v s s [] none a (Passes-same limit s s short refl))
  ]

  step_breaks :
      (v : Event) (vs : List Event) (s s' : Sender E) (text : Bytes)
      → and_read e v (start_of v s) ≡ some (text, s', breaks)
      → do_with_epoll e (v ∷ vs) s ≡ some (text ∷ [], s')
  unfolding do_with_epoll
  step_breaks v vs s s' text f = rw (do_with_epoll, f) refl

  step_goes_on :
      (v : Event) (vs : List Event) (s s' s'' : Sender E) (text : Bytes) (texts : List Bytes)
      → and_read e v (start_of v s) ≡ some (text, s', goes_on)
      → do_with_epoll e vs s' ≡ some (texts, s'')
      → do_with_epoll e (v ∷ vs) s ≡ some (text ∷ texts, s'')
  unfolding do_with_epoll
  step_goes_on v vs s s' s'' text texts f g = rw (do_with_epoll, f, g) refl

-- Where `epoll_ctl` does not fail and each event finds its connection with room for a whole message
-- and its answers read, the loop over the events returns, and what it has sent, put in front of the
-- messages that are left in the queue, is the queue as it was: messages are sent whole, in their
-- order, and none is lost or sent twice.
pub do_with_epoll-in_order {ℓ} :
    {E : Type ℓ} (e : Epoll E) (limit : ℕ) (vs : List Event) (s : Sender E)
    → Works e
    → AllAnswered limit vs
    → AllShort limit s.msg_queue
    → (texts : List Bytes) × (s' : Sender E) × (do_with_epoll e vs s ≡ some (texts, s'))
      × (joined texts ++ joined s'.msg_queue ≡ joined s.msg_queue)
unfolding do_with_epoll joined
do_with_epoll-in_order e limit [] s works a short = ([], s, refl, refl)
do_with_epoll-in_order {E} e limit (v ∷ vs) s works (a, more) short =
    let (text, s', next, f, p) = event-Reads e works limit v s a short in
    by_next text s' p next f (λ k. do_with_epoll-in_order e limit vs s' works more k)
  where
    by_next :
        (text : Bytes) (s' : Sender E)
        → Passes limit s text s'
        → (next : Next) → and_read e v (start_of e works limit v s) ≡ some (text, s', next)
        → (AllShort limit s'.msg_queue
            → (texts : List Bytes) × (s'' : Sender E) × (do_with_epoll e vs s' ≡ some (texts, s''))
              × (joined texts ++ joined s''.msg_queue ≡ joined s'.msg_queue))
        → (texts : List Bytes) × (s'' : Sender E) × (do_with_epoll e (v ∷ vs) s ≡ some (texts, s''))
          × (joined texts ++ joined s''.msg_queue ≡ joined s.msg_queue)
    by_next text s' p breaks f go = (
      text ∷ [],
      s',
      step_breaks e works limit v vs s s' text f,
      ap (λ (t : Bytes). t ++ joined s'.msg_queue) (append-nil text) ∙ p.in_order,
    )
    by_next text s' p goes_on f go =
        let (texts, s'', g, rest) = go p.short in
        (
          text ∷ texts,
          s'',
          step_goes_on e works limit v vs s s' s'' text texts f g,
          append_assoc text (joined texts) (joined s''.msg_queue)
              ∙ ap (◌++◌ text) rest
              ∙ p.in_order,
        )
