-- ===== src/Mutex/Tests.antt =====
-- Two threads lock a mutex.
use au_os.Prelude.{[]}
use au_os.Threads.{Kernel, threads_setup, thread_active}
use au_os.Mutex.{mutex_setup}
use au_os.Mutex.Exclusion.{LockState, after_lock}

abbrev boot : Kernel
boot = threads_setup 0 5 (λ t. 0)

abbrev unlocked : LockState
unlocked = record { kernel = boot; mutex = mutex_setup; holders = [] }

-- Another thread runs once the first has the mutex, and calls `mutex_lock` as well.
abbrev second : Kernel
second = record (after_lock unlocked).kernel { current = 1; state = λ t. thread_active }

abbrev contended : LockState
contended = record (after_lock unlocked) { kernel = second }
