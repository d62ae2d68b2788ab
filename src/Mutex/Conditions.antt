-- ===== src/Mutex/Conditions.antt =====
-- What a condition's signal and broadcast wake.
use au_os.Prelude.{
  ℕ, ◌≡◌, refl, inl, inr, true, not, ◌&&◌, List, [], ◌∷◌, arith, ◌==◌, Bool-cases, ◌∙◌,
}
use au_os.MemCache.Inv.{count_of}
use au_os.Threads.{
  Kernel, is_blocked, thread_activate, set_state, enqueue, restore_ints, disable_ints, spin_lock,
  spin_unlock, disable_preempt, enable_preempt, spin_lock_irqsave, spin_unlock_irqrestore,
}
use au_os.Mutex.{activate_first, condition_signal, activate_all, condition_broadcast}

-- A thread is not blocked after its activation, and stays so through those of others.
thread_activate-woken :
    (k : Kernel) (u t : ℕ)
    → is_blocked ((thread_activate u k).state t) ≡ (is_blocked (k.state t) && not (t == u))
unfolding thread_activate spin_lock_irqsave spin_unlock_irqrestore set_state enqueue restore_ints
    disable_ints spin_lock spin_unlock disable_preempt enable_preempt
thread_activate-woken k u t = elim (Bool-cases (t == u)) [
  | inl same ↦
      let e : t ≡ u = ground arith in
      let self : (u == u) ≡ true = ground arith in
      elim (Bool-cases (is_blocked (k.state u))) [
        | inl on ↦ rw (e, on, self) refl
        | inr off ↦ rw (e, off) off
      ]
  | inr other ↦ elim (Bool-cases (is_blocked (k.state u))) [
    | inl on ↦ rw (on, other) (ground arith)
    | inr off ↦ rw (off, other) (ground arith)
  ]
]

activate_all-woken :
    (queue : List ℕ) (k : Kernel) (t : ℕ)
    → is_blocked ((activate_all queue k).state t)
      ≡ (is_blocked (k.state t) && (count_of t queue == 0))
unfolding activate_all
activate_all-woken [] k t = ground arith
activate_all-woken (u ∷ us) k t =
    activate_all-woken us (thread_activate u k) t ∙ ground (arith, thread_activate-woken k u t)

-- `condition_broadcast` wakes each thread that waits and no other, and leaves the queue empty.
pub condition_broadcast-woken :
    (k : Kernel) (waitqueue : List ℕ)
    → let (k', rest) = condition_broadcast k waitqueue in
      ((t : ℕ) → is_blocked (k'.state t) ≡ (is_blocked (k.state t) && (count_of t waitqueue == 0)))
      × (rest ≡ [])
unfolding condition_broadcast spin_lock_irqsave spin_unlock_irqrestore restore_ints disable_ints
    spin_lock spin_unlock disable_preempt enable_preempt
condition_broadcast-woken k waitqueue = (
  λ t. activate_all-woken waitqueue (spin_unlock_irqrestore k.ints (spin_lock (disable_ints k))) t,
  refl,
)

-- `condition_signal` wakes the first thread that waits and no other, and takes it off the queue.
pub condition_signal-woken :
    (k : Kernel) (first : ℕ) (rest : List ℕ)
    → let (k', queue) = condition_signal k (first ∷ rest) in
      ((t : ℕ) → is_blocked (k'.state t) ≡ (is_blocked (k.state t) && not (t == first)))
      × (queue ≡ rest)
unfolding condition_signal activate_first spin_lock_irqsave spin_unlock_irqrestore restore_ints
    disable_ints spin_lock spin_unlock disable_preempt enable_preempt
condition_signal-woken k first rest =
    (λ t. thread_activate-woken (spin_lock (disable_ints k)) first t, refl)
