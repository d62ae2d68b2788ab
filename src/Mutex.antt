-- ===== src/Mutex.antt =====
-- mutex.c and condition.c: queues of threads that wait, over the scheduler. A node of a queue is
-- its thread's number. What a thread does once it runs again is not part of the call that blocked
-- it: a mutex belongs to the thread that was woken, and a condition's waiter locks its mutex again.
pub mod Blocked
pub mod Owned
pub mod Exclusion
pub mod Conditions
mod Tests
use au_os.Prelude.{ℕ, Bool, true, false, List, [], ◌∷◌, ◌++◌}
use au_os.Threads.{
  Kernel, thread_blocked, spin_lock_irqsave, spin_unlock_irqrestore, set_state, schedule,
  thread_activate,
}

pub record Mutex : Type 0 where
  pub waitqueue : List ℕ
  pub locked : Bool

unfoldable pub mutex_setup : Mutex
mutex_setup = record { waitqueue = []; locked = false }

-- The two branches of `mutex_lock`: the thread waits for its turn, or has the mutex at once.
unfoldable pub lock_by : Bool → Bool → Kernel → Mutex → Kernel × Mutex
unfolding set_state spin_unlock_irqrestore schedule
lock_by true enable k m = (
  schedule (spin_unlock_irqrestore enable (set_state k.current thread_blocked k)),
  record m { waitqueue = m.waitqueue ++ k.current ∷ [] },
)
lock_by false enable k m = (spin_unlock_irqrestore enable k, record m { locked = true })

unfoldable pub mutex_lock : Kernel → Mutex → Kernel × Mutex
unfolding lock_by spin_lock_irqsave
mutex_lock k m = let (enable, k') = spin_lock_irqsave k in lock_by m.locked enable k' m

-- `mutex_unlock` by what waits: the mutex becomes free, or stays locked for the first that waits.
unfoldable pub unlock_for : List ℕ → Bool → Kernel → Mutex → Kernel × Mutex
unfolding spin_unlock_irqrestore thread_activate
unlock_for [] enable k m = (spin_unlock_irqrestore enable k, record m { locked = false })
unlock_for (next ∷ rest) enable k m =
    (spin_unlock_irqrestore enable (thread_activate next k), record m { waitqueue = rest })

unfoldable pub mutex_unlock : Kernel → Mutex → Kernel × Mutex
unfolding unlock_for spin_lock_irqsave
mutex_unlock k m = let (enable, k') = spin_lock_irqsave k in unlock_for m.waitqueue enable k' m

-- `condition_wait` up to its `schedule`; the queue is that of the condition.
unfoldable pub condition_wait : Kernel → (waitqueue : List ℕ) → Mutex → Kernel × List ℕ × Mutex
unfolding mutex_unlock set_state spin_lock_irqsave spin_unlock_irqrestore schedule
condition_wait k waitqueue m =
    let (enable, k1) = spin_lock_irqsave k in
    let (k2, m') = mutex_unlock (set_state k.current thread_blocked k1) m in
    (schedule (spin_unlock_irqrestore enable k2), waitqueue ++ k.current ∷ [], m')

unfoldable pub activate_first : List ℕ → Kernel → Kernel × List ℕ
unfolding thread_activate
activate_first [] k = (k, [])
activate_first (t ∷ ts) k = (thread_activate t k, ts)

unfoldable pub condition_signal : Kernel → (waitqueue : List ℕ) → Kernel × List ℕ
unfolding activate_first spin_lock_irqsave spin_unlock_irqrestore
condition_signal k waitqueue =
    let (enable, k1) = spin_lock_irqsave k in
    let (k2, rest) = activate_first waitqueue k1 in (spin_unlock_irqrestore enable k2, rest)

unfoldable pub activate_all : List ℕ → Kernel → Kernel
unfolding thread_activate
activate_all [] k = k
activate_all (t ∷ ts) k = activate_all ts (thread_activate t k)

-- `condition_broadcast`: the queue is taken over, and all on it are woken outside the lock.
unfoldable pub condition_broadcast : Kernel → (waitqueue : List ℕ) → Kernel × List ℕ
unfolding activate_all spin_lock_irqsave spin_unlock_irqrestore
condition_broadcast k waitqueue =
    let (enable, k1) = spin_lock_irqsave k in
    (activate_all waitqueue (spin_unlock_irqrestore enable k1), [])
