-- ===== src/PersistenceWorker/Saves.antt =====
-- The loop of `Check_bulk_data_queue_full`, unit by unit.
use mathlib.Core.Path.{subst}
use log_service.Prelude.{
  ℕ, zero, suc, ◌+◌, ◌-◌, ◌<◌, ◌≤◌, ◌≡◌, refl, sym, ap, ◌∙◌, true, List, [], ◌∷◌, Option, none,
  some, Bytes, arith, length, take, map, leb, le→leb, ◌==◌, ==_iff, Bool-cases, inl, inr,
}
use log_service.Config.{persistence_threshold}
use log_service.TimerWheel.{TimerWheelSet}
use log_service.Handler.{Handler}
use log_service.Handler.Calls.Saved.{IsLoaded, IsSaved, persistence-IsSaved}
use log_service.DataManager.{DataManager, handler_at, set_handler}
use log_service.DataManager.Stored.{Stores, AllHold}
use log_service.DataManager.Saved.{set_handler-AllHold, length-set_handler}
use log_service.DataManager.Numbers.{handler_at-lt, handler_at-set_self, handler_at-set_ne}
use log_service.PersistenceWorker.{
  Worker, give_up, put_saved, persist, release_front, save_front, check_bulk_data_queue_full,
}

length-map : (f : Option ℕ → Option ℕ) (us : List (Option ℕ)) → length (map f us) ≡ length us
length-map f [] = refl
length-map f (u ∷ us) = ap suc (length-map f us)

-- Handlers in the place of others, with the logs that those held.
record Keeps (hs hs' : List Handler) : Type 0 where
  same_length : length hs' ≡ length hs
  held : (bulks : List (List Bytes)) → AllHold hs bulks → AllHold hs' bulks

abbrev made : List (Option ℕ) → List Handler → TimerWheelSet → TimerWheelSet → Worker
made us hs s t = record {
  handlers = hs;
  bulk_data_queue = us;
  bulk_data_timer_wheel = s;
  bulk_auto_persistence_timer_wheel = t;
}

-- The handlers by their numbers, as they are before the loop, with the text of each bulk.
module _ (olds : ℕ → Handler) (texts : ℕ → Bytes) where
  -- The handler of a number, with its bulk in the files, or in memory.
  pub record SavedAt (hs : List Handler) (id : ℕ) : Type 0 where
    pub handler : Handler
    pub found : handler_at hs id ≡ some handler
    pub is_saved : IsSaved (olds id) handler (texts id)

  pub record LoadedAt (hs : List Handler) (id : ℕ) : Type 0 where
    pub found : handler_at hs id ≡ some (olds id)
    pub loaded : IsLoaded (olds id) (texts id)

  -- The handlers that units of the pool belong to.
  abbrev pub AllSaved : List (Option ℕ) → List Handler → Type 0
  AllSaved [] hs = Unit
  AllSaved (none ∷ us) hs = AllSaved us hs
  AllSaved (some id ∷ us) hs = SavedAt hs id × AllSaved us hs

  abbrev pub AllLoaded : List (Option ℕ) → List Handler → Type 0
  AllLoaded [] hs = Unit
  AllLoaded (none ∷ us) hs = AllLoaded us hs
  AllLoaded (some id ∷ us) hs = LoadedAt hs id × AllLoaded us hs

  -- A list of handlers in which one was saved.
  module _ (hs : List Handler) (id : ℕ) (h' : Handler) (old : LoadedAt hs id)
      (s : IsSaved (olds id) h' (texts id)) where
    inside : id < length hs
    inside = handler_at-lt hs id (olds id) old.found

    now_saved : SavedAt (set_handler hs id h') id
    now_saved = record { handler = h'; found = handler_at-set_self hs id h' inside; is_saved = s }

    still_saved : (j : ℕ) → SavedAt hs j → SavedAt (set_handler hs id h') j
    still_saved j p = elim (Bool-cases (id == j)) [
      | inl e ↦ subst (SavedAt (set_handler hs id h')) ((==_iff id j).0 e) now_saved
      | inr e ↦ record {
        handler = p.handler;
        found = handler_at-set_ne hs id j h' inside (ground arith) ∙ p.found;
        is_saved = p.is_saved;
      }
    ]

    still_loaded :
        (us : List (Option ℕ))
        → AllLoaded us hs
        → AllLoaded (map (give_up id) us) (set_handler hs id h')
    unfolding give_up
    still_loaded [] a = tt
    still_loaded (none ∷ us) a = still_loaded us a
    still_loaded (some j ∷ us) (p, a) = elim (Bool-cases (j == id)) [
      | inl e ↦ rw e (still_loaded us a)
      | inr e ↦ rw e (
        record {
          found = handler_at-set_ne hs id j h' inside (ground arith) ∙ p.found;
          loaded = p.loaded;
        },
        still_loaded us a,
      )
    ]

  AllSaved-give_up :
      (n id : ℕ) (us : List (Option ℕ)) (hs : List Handler)
      → AllSaved (take n (map (give_up id) us)) hs
      → SavedAt hs id
      → AllSaved (take n us) hs
  unfolding give_up
  AllSaved-give_up zero id us hs a s = tt
  AllSaved-give_up (suc n) id [] hs a s = tt
  AllSaved-give_up (suc n) id (none ∷ us) hs a s = AllSaved-give_up n id us hs a s
  AllSaved-give_up (suc n) id (some j ∷ us) hs a s = elim (Bool-cases (j == id)) [
    | inl e ↦
        let given : give_up id (some j) ≡ none = rw e refl in
        let rest =
          subst (λ (u : Option ℕ). AllSaved (u ∷ take n (map (give_up id) us)) hs) given a in
        (subst (SavedAt hs) (sym ((==_iff j id).0 e)) s, AllSaved-give_up n id us hs rest s)
    | inr e ↦
        let kept : give_up id (some j) ≡ some j = rw e refl in
        let (p, rest) =
          subst (λ (u : Option ℕ). AllSaved (u ∷ take n (map (give_up id) us)) hs) kept a in
        (p, AllSaved-give_up n id us hs rest s)
  ]

  persist-LoadedAt :
      (w : Worker) (id : ℕ)
      → (p : LoadedAt w.handlers id)
      → (h' : Handler) × (persist w id
          ≡ some (record w {
            handlers = set_handler w.handlers id h';
            bulk_data_queue = map (give_up id) w.bulk_data_queue;
          }))
        × IsSaved (olds id) h' (texts id)
        × Keeps w.handlers (set_handler w.handlers id h')
  unfolding persist
  persist-LoadedAt w id p =
      let (h', e, s) = persistence-IsSaved (olds id) (texts id) p.loaded in
      (
        h',
        rw (persist, p.found) (ap (put_saved w id) e),
        s,
        record {
          same_length = length-set_handler w.handlers id h';
          held = λ bulks.
              set_handler-AllHold w.handlers id (olds id) h' (texts id) bulks p.found p.loaded s;
        },
      )

  -- What the loop for `n` units leaves.
  record Emptied (n : ℕ) (w w' : Worker) : Type 0 where
    front_saved : AllSaved (take n w.bulk_data_queue) w'.handlers
    rest_loaded : AllLoaded w'.bulk_data_queue w'.handlers
    fewer : length w'.bulk_data_queue + n ≡ length w.bulk_data_queue
    none_reopened : (j : ℕ) → SavedAt w.handlers j → SavedAt w'.handlers j
    keeps : Keeps w.handlers w'.handlers

  module _ (s t : TimerWheelSet) where
    save_front-handler :
        (n id : ℕ) (us : List (Option ℕ)) (hs : List Handler) (w' : Worker)
        → persist (made (some id ∷ us) hs s t) id ≡ some w'
        → save_front (suc n) (made (some id ∷ us) hs s t) ≡ save_front n (release_front w')
    unfolding save_front
    save_front-handler n id us hs w' e = rw (save_front, e) refl

    emptied :
        (n : ℕ) (us : List (Option ℕ)) (hs : List Handler)
        → n ≤ length us
        → AllLoaded us hs
        → (w' : Worker) × (save_front n (made us hs s t) ≡ some w') × Emptied n (made us hs s t) w'
    unfolding save_front give_up release_front
    emptied zero us hs le a = (
      made us hs s t,
      refl,
      record {
        front_saved = tt;
        rest_loaded = a;
        fewer = omega arith;
        none_reopened = λ j p. p;
        keeps = record { same_length = refl; held = λ bulks a. a };
      },
    )
    emptied (suc n) [] hs le a = absurd (omega (arith, le))
    emptied (suc n) (none ∷ us) hs le a =
        let (w', e, d) = emptied n us hs (omega (arith, le)) a in
        (
          w',
          e,
          record {
            front_saved = d.front_saved;
            rest_loaded = d.rest_loaded;
            fewer = omega (arith, d.fewer);
            none_reopened = d.none_reopened;
            keeps = d.keeps;
          },
        )
    emptied (suc n) (some id ∷ us) hs le (p, a) =
        let (h', e, is, keeps) = persist-LoadedAt (made (some id ∷ us) hs s t) id p in
        let hs' = set_handler hs id h' in
        let size = length-map (give_up id) us in
        let (w', f, d) =
          emptied n (map (give_up id) us) hs' (omega (arith, le, size))
            (still_loaded hs id h' p is us a) in
        let done = d.none_reopened id (now_saved hs id h' p is) in
        (
          w',
          save_front-handler n id us hs _ e ∙ f,
          record {
            front_saved = (done, AllSaved-give_up n id us w'.handlers d.front_saved done);
            rest_loaded = d.rest_loaded;
            fewer = omega (arith, d.fewer, size);
            none_reopened = λ j q. d.none_reopened j (still_saved hs id h' p is j q);
            keeps = record {
              same_length = d.keeps.same_length ∙ keeps.same_length;
              held = λ bulks a. d.keeps.held bulks (keeps.held bulks a);
            };
          },
        )

  -- `Check_bulk_data_queue_full` on a pool of at least 48 units, whose bulks are in memory: it returns and
  -- gives back 47 units, and the bulks that they belonged to are saved, their texts, offsets and times in
  -- their files, while the others are in memory as before.
  pub check_bulk_data_queue_full-saves :
      (w : Worker)
      → persistence_threshold ≤ length w.bulk_data_queue
      → AllLoaded w.bulk_data_queue w.handlers
      → (w' : Worker) × (check_bulk_data_queue_full w ≡ some w')
        × AllSaved (take (persistence_threshold - 1) w.bulk_data_queue) w'.handlers
        × AllLoaded w'.bulk_data_queue w'.handlers
        × (length w'.bulk_data_queue + (persistence_threshold - 1) ≡ length w.bulk_data_queue)
  unfolding check_bulk_data_queue_full
  check_bulk_data_queue_full-saves w full a =
      let (w', e, d) =
        emptied w.bulk_data_timer_wheel w.bulk_auto_persistence_timer_wheel
          (persistence_threshold - 1) w.bulk_data_queue w.handlers (omega (arith, full)) a in
      let over : leb persistence_threshold (length w.bulk_data_queue) ≡ true =
        le→leb persistence_threshold (length w.bulk_data_queue) full in
      (w', rw (check_bulk_data_queue_full, over) e, d.front_saved, d.rest_loaded, d.fewer)

  -- A round of saving leaves the lines that the manager stores: on a pool of at least 48 units whose
  -- bulks are in memory `Check_bulk_data_queue_full` returns with the bulks of 47 units saved, and with
  -- its handlers, in memory or in their files, the manager stores the same lines in the same bulks.
  pub check_bulk_data_queue_full-Stores :
      (w : Worker) (m : DataManager) (bulks : List (List Bytes))
      → persistence_threshold ≤ length w.bulk_data_queue
      → AllLoaded w.bulk_data_queue w.handlers
      → w.handlers ≡ m.handlers
      → Stores m bulks
      → (w' : Worker) × (check_bulk_data_queue_full w ≡ some w')
        × AllSaved (take (persistence_threshold - 1) w.bulk_data_queue) w'.handlers
        × Stores (record m { handlers = w'.handlers }) bulks
  unfolding check_bulk_data_queue_full
  check_bulk_data_queue_full-Stores w m bulks full a same st =
      let (w', e, d) =
        emptied w.bulk_data_timer_wheel w.bulk_auto_persistence_timer_wheel
          (persistence_threshold - 1) w.bulk_data_queue w.handlers (omega (arith, full)) a in
      let over : leb persistence_threshold (length w.bulk_data_queue) ≡ true =
        le→leb persistence_threshold (length w.bulk_data_queue) full in
      let held : AllHold w.handlers bulks =
        subst (λ (hs : List Handler). AllHold hs bulks) (sym same) st.held in
      (
        w',
        rw (check_bulk_data_queue_full, over) e,
        d.front_saved,
        record {
          some_bulk = omega (arith, st.some_bulk, ap length same, d.keeps.same_length);
          held = d.keeps.held bulks held;
          serial = st.serial;
        },
      )
