-- ===== src/RwLock.antt =====
-- include/RWLock.h: the lock that readers share and a writer holds alone.
-- Each method runs under the mutex `m`, so it is one step. A thread waits on the condition variable
-- until the test of its loop fails, and the step is the one at which it goes on.
pub mod Exclusion
mod Tests
use log_service.Prelude.{
  ℕ, ◌+◌, ◌-◌, ◌%◌, ◌^◌, Bool, true, false, not, ◌||◌, Option, none, some, ◌==◌, if◌then◌else◌,
}

-- `reader_count` is an `int`, modulo `2 ^ 32`.
pub record RwLock : Type 0 where
  pub reader_count : ℕ
  pub writer_used : Bool

pub new : RwLock
new = record { reader_count = 0; writer_used = false }

-- `none` while the loop waits.
pub get_read_lock : RwLock → Option RwLock
get_read_lock l =
    if l.writer_used then none else some (record l { reader_count = (l.reader_count + 1) % 2 ^ 32 })

pub get_write_lock : RwLock → Option RwLock
get_write_lock l =
    if not (l.reader_count == 0) || l.writer_used
    then none
    else some (record l { writer_used = true })

-- The lock, and whether all waiting threads are notified.
pub unlock_reader : RwLock → RwLock × Bool
unlock_reader l =
    let count = (l.reader_count + (2 ^ 32 - 1)) % 2 ^ 32 in
    (record l { reader_count = count }, count == 0)

pub unlock_writer : RwLock → RwLock × Bool
unlock_writer l = (record l { writer_used = false }, true)
