-- ===== src/RwLock/Tests.antt =====
-- Two readers: each theorem at an input.
use log_service.Prelude.{◌≡◌, refl, true, false, some, ◌==◌, arith}
use log_service.RwLock.{new, get_read_lock, get_write_lock, unlock_reader}
use log_service.RwLock.Exclusion.{
  System, start_reading, Reachable, start, next, IsExclusive, reachable-IsExclusive, reachable-free,
  reachable-notifies,
}

abbrev idle : System
idle = record { lock = record { reader_count = 0; writer_used = false }; readers = 0; writers = 0 }

abbrev one_reads : System
one_reads = record {
  lock = record { reader_count = 1; writer_used = false };
  readers = 1;
  writers = 0;
}

idle_Reachable : Reachable idle
unfolding new
idle_Reachable = start

one_reads_Reachable : Reachable one_reads
unfolding get_read_lock
one_reads_Reachable =
    next idle one_reads idle_Reachable (start_reading (one_reads.lock) refl (omega arith))

reachable-IsExclusive_example : IsExclusive one_reads
reachable-IsExclusive_example = reachable-IsExclusive one_reads one_reads_Reachable

reachable-free_example :
    (get_read_lock idle.lock ≡ some (record idle.lock { reader_count = 1 }))
    × (get_write_lock idle.lock ≡ some (record idle.lock { writer_used = true }))
reachable-free_example = reachable-free idle idle_Reachable refl refl

reachable-notifies_example : (unlock_reader one_reads.lock).1 ≡ (1 == 1)
reachable-notifies_example = reachable-notifies one_reads one_reads_Reachable (omega arith)
