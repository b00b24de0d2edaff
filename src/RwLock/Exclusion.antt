-- ===== src/RwLock/Exclusion.antt =====
-- No thread reads while another one writes, and a lock that nobody holds can be taken.
use log_service.Prelude.{
  ℕ, ◌+◌, ◌-◌, ◌%◌, ◌^◌, ◌<◌, ◌≡◌, refl, ◌⊎◌, inr, true, false, some, ◌==◌, arith, ◌∙◌,
}
use log_service.RwLock.{RwLock, new, get_read_lock, get_write_lock, unlock_reader, unlock_writer}

-- The lock with the numbers of threads that hold it for reading and for writing.
pub record System : Type 0 where
  pub lock : RwLock
  pub readers : ℕ
  pub writers : ℕ

-- A thread takes the lock where its call returns, and releases it only as what it took it for.
-- There are fewer than `2 ^ 31` threads.
pub data Step (s : System) : System → Type 0 where
  start_reading :
      (l : RwLock)
      → get_read_lock s.lock ≡ some l
      → s.readers + 1 < 2 ^ 31
      → Step s (record { lock = l; readers = s.readers + 1; writers = s.writers })
  start_writing :
      (l : RwLock)
      → get_write_lock s.lock ≡ some l
      → Step s (record { lock = l; readers = s.readers; writers = s.writers + 1 })
  stop_reading :
      0 < s.readers
      → Step s
          (record { lock = (unlock_reader s.lock).0; readers = s.readers - 1; writers = s.writers })
  stop_writing :
      0 < s.writers
      → Step s
          (record { lock = (unlock_writer s.lock).0; readers = s.readers; writers = s.writers - 1 })

pub data Reachable : System → Type 0 where
  start : Reachable (record { lock = new; readers = 0; writers = 0 })
  next : (s t : System) → Reachable s → Step s t → Reachable t

-- The lock says who holds it; a writer is alone.
pub record IsExclusive (s : System) : Type 0 where
  pub counted : s.lock.reader_count ≡ s.readers
  pub few : s.readers < 2 ^ 31
  pub used :
      (s.lock.writer_used ≡ true) × (s.writers ≡ 1) × (s.readers ≡ 0)
      ⊎ ((s.lock.writer_used ≡ false) × (s.writers ≡ 0))

read_taken :
    (k l : RwLock)
    → get_read_lock k ≡ some l
    → (k.writer_used ≡ false)
      × (l.writer_used ≡ false)
      × (l.reader_count ≡ (k.reader_count + 1) % 2 ^ 32)
unfolding get_read_lock
read_taken k l e = ground arith

write_taken :
    (k l : RwLock)
    → get_write_lock k ≡ some l
    → (k.reader_count ≡ 0)
      × (k.writer_used ≡ false)
      × (l.writer_used ≡ true)
      × (l.reader_count ≡ k.reader_count)
unfolding get_write_lock
write_taken k l e = ground arith

Step-IsExclusive : (s t : System) → Step s t → IsExclusive s → IsExclusive t
unfolding unlock_reader unlock_writer
Step-IsExclusive s t (start_reading l e small) i =
    let h = read_taken s.lock l e in
    record { counted = ground (arith, h, i.counted); few = small; used = ground (arith, h, i.used) }
Step-IsExclusive s t (start_writing l e) i =
    let h = write_taken s.lock l e in
    record {
      counted = ground (arith, h, i.counted);
      few = i.few;
      used = ground (arith, h, i.used, i.counted);
    }
Step-IsExclusive s t (stop_reading pos) i = record {
  counted = omega (arith, i.counted, i.few);
  few = omega (arith, i.few);
  used = ground (arith, i.used);
}
Step-IsExclusive s t (stop_writing pos) i = record {
  counted = i.counted;
  few = i.few;
  used = ground (arith, i.used);
}

start-IsExclusive : IsExclusive (record { lock = new; readers = 0; writers = 0 })
unfolding new
start-IsExclusive = record { counted = refl; few = omega arith; used = inr (refl, refl) }

-- In every state that threads reach by taking the lock and releasing what they took, the lock counts
-- its readers, at most one thread writes, and none reads while one writes.
pub reachable-IsExclusive : (s : System) → Reachable s → IsExclusive s
reachable-IsExclusive s start = start-IsExclusive
reachable-IsExclusive s (next r s' h step) = Step-IsExclusive r s step (reachable-IsExclusive r h)

-- In every reachable state that nobody holds the lock in, a reader and a writer each get it.
pub reachable-free :
    (s : System)
    → Reachable s
    → s.readers ≡ 0
    → s.writers ≡ 0
    → (get_read_lock s.lock ≡ some (record s.lock { reader_count = 1 }))
      × (get_write_lock s.lock ≡ some (record s.lock { writer_used = true }))
unfolding get_read_lock get_write_lock
reachable-free s h r w =
    let i = reachable-IsExclusive s h in
    let free : s.lock.writer_used ≡ false = ground (arith, i.used) in
    let none_reads : s.lock.reader_count ≡ 0 = i.counted ∙ r in rw (free, none_reads) (refl, refl)

-- In every reachable state with a reader, the release by a reader notifies the threads that wait if
-- it is the last one, and otherwise does not.
pub reachable-notifies :
    (s : System) → Reachable s → 0 < s.readers → (unlock_reader s.lock).1 ≡ (s.readers == 1)
unfolding unlock_reader
reachable-notifies s h pos = let i = reachable-IsExclusive s h in ground (arith, i.counted, i.few)
