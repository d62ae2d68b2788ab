-- ===== src/Mutex/Exclusion.antt =====
-- Mutual exclusion over all interleavings: one thread at most is between `mutex_lock` and
-- `mutex_unlock`.
use au_os.Prelude.{
  ℕ, ◌≤◌, ◌<◌, ◌≡◌, true, false, Option, List, [], ◌∷◌, if◌then◌else◌, ◌++◌, length, ltb,
}
use au_os.MemCache.{erase}
use au_os.MemCache.Inv.{count_of}
use au_os.Threads.{Kernel, is_active, is_blocked}
use au_os.Mutex.Owned.{list_of, woken, IsOwned}
use au_os.Mutex.{Mutex, mutex_setup, mutex_lock, mutex_unlock}

-- The kernel with one mutex, and the threads that have come through `mutex_lock` and have not
-- called `mutex_unlock` since.
pub record LockState : Type 0 where
  pub kernel : Kernel
  pub mutex : Mutex
  pub holders : List ℕ

-- The thread that calls is through `mutex_lock` unless the call has left it blocked.
abbrev pub entered : Kernel → ℕ → List ℕ → List ℕ
entered k t holders = if is_blocked (k.state t) then holders else t ∷ holders

abbrev pub after_lock : LockState → LockState
after_lock s = record {
  kernel = (mutex_lock s.kernel s.mutex).0;
  mutex = (mutex_lock s.kernel s.mutex).1;
  holders = entered (mutex_lock s.kernel s.mutex).0 s.kernel.current s.holders;
}

-- The thread that calls `mutex_unlock` has left; those of the queue that the call has woken come
-- through their `mutex_lock`.
abbrev pub after_unlock : LockState → LockState
after_unlock s = record {
  kernel = (mutex_unlock s.kernel s.mutex).0;
  mutex = (mutex_unlock s.kernel s.mutex).1;
  holders =
      erase s.kernel.current s.holders ++ woken (mutex_unlock s.kernel s.mutex).0 s.mutex.waitqueue;
}

-- `mutex_lock` by a thread that is active and not a holder; `mutex_unlock` by one that is; and any
-- other step that wakes none of those that wait.
pub data IsLockStep : LockState → LockState → Type 0 where
  locks :
      (s : LockState)
      → is_active (s.kernel.state s.kernel.current) ≡ true
      → count_of s.kernel.current s.holders ≡ 0
      → IsLockStep s (after_lock s)
  unlocks :
      (s : LockState) → 0 < count_of s.kernel.current s.holders → IsLockStep s (after_unlock s)
  other :
      (s : LockState) (k : Kernel)
      → ((t : ℕ)
          → 0 < count_of t s.mutex.waitqueue
          → is_blocked (s.kernel.state t) ≡ true
          → is_blocked (k.state t) ≡ true)
      → IsLockStep s (record s { kernel = k })

pub data IsLockReached : LockState → Type 0 where
  began : (k : Kernel) → IsLockReached (record { kernel = k; mutex = mutex_setup; holders = [] })
  went : (s s' : LockState) → IsLockReached s → IsLockStep s s' → IsLockReached s'

-- One holder at most, and the mutex is locked exactly where there is one; a thread that waits is
-- blocked, waits once, and is no holder; and none waits for a mutex that is free.
pub record IsExclusive (s : LockState) : Type 0 where
  pub one : length s.holders ≤ 1
  pub held : s.mutex.locked ≡ ltb 0 (length s.holders)
  pub waits : (t : ℕ) → 0 < count_of t s.mutex.waitqueue → is_blocked (s.kernel.state t) ≡ true
  pub once : (t : ℕ) → count_of t s.mutex.waitqueue ≤ 1
  pub not_holder : (t : ℕ) → 0 < count_of t s.holders → count_of t s.mutex.waitqueue ≡ 0
  pub none_waits : s.mutex.locked ≡ false → (t : ℕ) → count_of t s.mutex.waitqueue ≡ 0

record HasOwner (s : LockState) : Type 0 where
  owner : Option ℕ
  only : s.holders ≡ list_of owner
  owned : IsOwned s.kernel s.mutex owner
