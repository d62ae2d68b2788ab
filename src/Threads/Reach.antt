-- ===== src/Threads/Reach.antt =====
-- The steps that threads take, and what holds after any number of them.
use mathlib.Core.Option.{some-injective, none-ne-some}
use au_os.Prelude.{
  ℕ, ◌≡◌, ◌≢◌, refl, ap, inl, inr, true, false, Option, none, some, [], ◌∷◌, arith, ◌==◌,
  Bool-cases, ◌∙◌,
}
use au_os.Threads.{
  Kernel, ThreadState, is_active, is_blocked, thread_active, thread_blocked, thread_finishing,
  thread_idle, thread_finished, set_state, enqueue, schedule_now, schedule, force_schedule,
  thread_activate, thread_exit, thread_create, idle, threads_setup, restore_ints, disable_ints,
  resume, save_enable, spin_lock, spin_unlock, disable_preempt, enable_preempt, spin_lock_irqsave,
  spin_unlock_irqrestore,
}
use au_os.Threads.Inv.{IsKernel, IsIdle, count_of-append, schedule_now-IsKernel}

-- A step of the system: the clock, the locks, a call of the scheduler, or a thread that changes
-- the state of itself or wakes another. The idle thread neither blocks nor exits.
pub data IsStep : Kernel → Kernel → Type 0 where
  ticked : (k : Kernel) (now : ℕ) → IsStep k (record k { clock = now })
  locked : (k : Kernel) → IsStep k (spin_lock k)
  unlocked : (k : Kernel) → IsStep k (spin_unlock k)
  scheduled : (k : Kernel) → IsStep k (schedule k)
  forced : (k k' : Kernel) → force_schedule k ≡ some k' → IsStep k k'
  blocked :
      (k : Kernel)
      → k.state k.current ≢ thread_idle
      → IsStep k (set_state k.current thread_blocked k)
  exited : (k k' : Kernel) → k.state k.current ≢ thread_idle → thread_exit k ≡ some k' → IsStep k k'
  idled : (k k' : Kernel) → idle k ≡ some k' → IsStep k k'
  activated : (k : Kernel) (t : ℕ) → t ≢ k.current → IsStep k (thread_activate t k)
  created :
      (k : Kernel) (t : ℕ)
      → t ≢ k.current
      → k.state t ≡ thread_finished
      → IsStep k (thread_create t k)

-- Any number of steps from the state that `threads_setup` leaves.
pub data IsReached : Kernel → Type 0 where
  started : (first clock : ℕ) (time : ℕ → ℕ) → IsReached (threads_setup first clock time)
  stepped : (k k' : Kernel) → IsReached k → IsStep k k' → IsReached k'

pub force_schedule-IsKernel :
    (k k' : Kernel) → IsKernel k → force_schedule k ≡ some k' → IsKernel k'
unfolding force_schedule resume save_enable restore_ints disable_ints
force_schedule-IsKernel k k' ok e = elim (Bool-cases (k.preempt_cnt == 0)) [
  | inl on ↦
      let h =
        schedule_now-IsKernel true (disable_ints (save_enable k))
          (record { queue = ok.queue; idle = ok.idle }) in
      let e' : resume (schedule_now true (disable_ints (save_enable k))) ≡ k' =
        some-injective _ _ (rw on at e) in
      rw (← e') (record { queue = h.queue; idle = h.idle })
  | inr off ↦ absurd (none-ne-some _ (rw off at e))
]

schedule-IsKernel : (k : Kernel) → IsKernel k → IsKernel (schedule k)
unfolding schedule resume save_enable restore_ints disable_ints
schedule-IsKernel k ok = elim (Bool-cases (k.preempt_cnt == 0)) [
  | inl on ↦
      let h =
        schedule_now-IsKernel false (disable_ints (save_enable k))
          (record { queue = ok.queue; idle = ok.idle }) in
      rw on (record { queue = h.queue; idle = h.idle })
  | inr off ↦ rw off ok
]

-- A change of a thread that is not the idle one.
other-IsIdle :
    (k : Kernel) (t : ℕ) (s : ThreadState)
    → k.state t ≢ thread_idle
    → IsIdle k
    → IsIdle (set_state t s k)
unfolding set_state
other-IsIdle k t s ne idle u e = elim (Bool-cases (u == t)) [
  | inl same ↦ let e' : t ≡ u = ground arith in absurd (ne (ap k.state e' ∙ idle u e))
  | inr other ↦ rw other (idle u e)
]

-- The thread that runs is on no queue, whatever its state.
set_current-IsKernel :
    (k : Kernel) (s : ThreadState)
    → k.state k.current ≢ thread_idle
    → IsKernel k
    → IsKernel (set_state k.current s k)
unfolding set_state
set_current-IsKernel k s ne ok = record {
  queue = λ t. elim (Bool-cases (t == k.current)) [
    | inl same ↦ ground (arith, ok.queue t)
    | inr other ↦ rw other (ok.queue t ∙ rw other refl)
  ];
  idle = other-IsIdle k k.current s ne ok.idle;
}

-- The thread that runs becomes the idle one.
become_idle-IsKernel :
    (k k' : Kernel) → IsKernel k → k.idle_thread ≡ none → idle k ≡ some k' → IsKernel k'
unfolding idle set_state
become_idle-IsKernel k k' ok no_idle e =
    let same : (k.current == k.current) ≡ true = ground arith in
    force_schedule-IsKernel
      (set_state k.current thread_idle (record k { idle_thread = some k.current })) k'
      (record {
        queue = λ t. elim (Bool-cases (t == k.current)) [
          | inl here ↦ ground (arith, ok.queue t)
          | inr other ↦ rw other (ok.queue t ∙ rw other refl)
        ];
        idle = λ t e'. let e'' : k.current ≡ t = some-injective _ _ e' in rw (← e'') (rw same refl);
      })
      (rw (no_idle, idle) at e)

idle_twice : (k k' : Kernel) (t : ℕ) → k.idle_thread ≡ some t → idle k ≡ some k' → IsKernel k'
unfolding idle
idle_twice k k' t there e = absurd (none-ne-some k' (rw (there, idle) at e))

idle-IsKernel : (k k' : Kernel) → IsKernel k → idle k ≡ some k' → IsKernel k'
idle-IsKernel k k' ok e = by_idle k.idle_thread refl
  where
    by_idle : (o : Option ℕ) → k.idle_thread ≡ o → IsKernel k'
    by_idle none none_yet = become_idle-IsKernel k k' ok none_yet e
    by_idle (some t) there = idle_twice k k' t there e

blocked-is_active : (s : ThreadState) → is_blocked s ≡ true → is_active s ≡ false
blocked-is_active thread_blocked e = refl
blocked-is_active thread_active e = absurd (ground arith)
blocked-is_active thread_idle e = refl
blocked-is_active thread_finishing e = refl
blocked-is_active thread_finished e = refl

-- Any thread but the one that runs is woken.
thread_activate-IsKernel :
    (k : Kernel) (t : ℕ) → t ≢ k.current → IsKernel k → IsKernel (thread_activate t k)
unfolding thread_activate spin_lock_irqsave spin_unlock_irqrestore set_state enqueue restore_ints
    disable_ints spin_lock spin_unlock disable_preempt enable_preempt
thread_activate-IsKernel k t ne ok = elim (Bool-cases (is_blocked (k.state t))) [
  | inl on ↦ rw on (record {
    queue = λ u. elim (Bool-cases (u == t)) [
      | inl same ↦
          let e : u ≡ t = ground arith in
          let self : (t == t) ≡ true = ground arith in
          rw (e, self)
            (ground (
              arith,
              count_of-append t k.runqueue (t ∷ []),
              ok.queue t,
              blocked-is_active (k.state t),
            ))
      | inr other ↦ rw other (ground (arith, count_of-append u k.runqueue (t ∷ []), ok.queue u))
    ];
    idle = other-IsIdle k t thread_active (λ e. ground (arith, ap is_blocked e)) ok.idle;
  })
  | inr off ↦ rw off (record { queue = ok.queue; idle = ok.idle })
]

thread_create-IsKernel :
    (k : Kernel) (t : ℕ)
    → t ≢ k.current
    → k.state t ≡ thread_finished
    → IsKernel k
    → IsKernel (thread_create t k)
unfolding thread_create set_state
thread_create-IsKernel k t ne dead ok = record {
  queue = λ u. elim (Bool-cases (u == t)) [
    | inl same ↦
        let e : u ≡ t = ground arith in rw (same, e) (ground (arith, ok.queue t, ap is_active dead))
    | inr other ↦ rw other (ok.queue u)
  ];
  idle = other-IsIdle k t thread_blocked (λ e. ground arith) ok.idle;
}

step-IsKernel : (k k' : Kernel) → IsKernel k → IsStep k k' → IsKernel k'
unfolding spin_lock spin_unlock disable_preempt enable_preempt thread_exit
step-IsKernel _ _ ok (ticked k now) = record { queue = ok.queue; idle = ok.idle }
step-IsKernel _ _ ok (locked k) = record { queue = ok.queue; idle = ok.idle }
step-IsKernel _ _ ok (unlocked k) = record { queue = ok.queue; idle = ok.idle }
step-IsKernel _ _ ok (scheduled k) = schedule-IsKernel k ok
step-IsKernel _ _ ok (forced k k' e) = force_schedule-IsKernel k k' ok e
step-IsKernel _ _ ok (blocked k ne) = set_current-IsKernel k thread_blocked ne ok
step-IsKernel _ _ ok (exited k k' ne e) =
    force_schedule-IsKernel (set_state k.current thread_finishing k) k'
      (set_current-IsKernel k thread_finishing ne ok) e
step-IsKernel _ _ ok (idled k k' e) = idle-IsKernel k k' ok e
step-IsKernel _ _ ok (activated k t ne) = thread_activate-IsKernel k t ne ok
step-IsKernel _ _ ok (created k t ne dead) = thread_create-IsKernel k t ne dead ok

-- In every state that the system reaches, the queue holds each thread that is active and not
-- running exactly once, and no other thread; and the idle thread keeps the state of its own.
pub reached-IsKernel : (k : Kernel) → IsReached k → IsKernel k
unfolding threads_setup
reached-IsKernel _ (started first clock time) = record {
  queue = λ t. ground arith;
  idle = λ t e. absurd (none-ne-some t e);
}
reached-IsKernel _ (stepped k k' h step) = step-IsKernel k k' (reached-IsKernel k h) step
