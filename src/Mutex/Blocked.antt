-- ===== src/Mutex/Blocked.antt =====
-- Which threads are blocked, through the scheduler and the calls of a mutex.
use au_os.Prelude.{
  ℕ, ◌≡◌, ◌≢◌, refl, inl, inr, Bool, true, false, not, ◌&&◌, ◌||◌, Option, none, some, List, [],
  ◌∷◌, arith, ltb, ◌==◌, Bool-cases, ◌∙◌,
}
use au_os.Prelude.Words.{sub64}
use au_os.Threads.{
  Kernel, ThreadState, is_active, is_blocked, thread_active, thread_blocked, thread_idle,
  thread_finishing, thread_finished, finish, is_thread, set_state, enqueue, enqueue_if,
  place_thread, switch_to, pick, slice, schedule_now, schedule, thread_activate, resume,
  save_enable, restore_ints, disable_ints, spin_lock, spin_unlock, disable_preempt, enable_preempt,
  spin_lock_irqsave, spin_unlock_irqrestore,
}
use au_os.Mutex.{Mutex, lock_by}

-- The scheduler does not change which threads are blocked.
finish-is_blocked : (s : ThreadState) → is_blocked (finish s) ≡ is_blocked s
finish-is_blocked thread_active = refl
finish-is_blocked thread_finishing = refl
finish-is_blocked thread_blocked = refl
finish-is_blocked thread_idle = refl
finish-is_blocked thread_finished = refl

place_thread-is_blocked :
    (next : ℕ) (k : Kernel) (t : ℕ)
    → is_blocked ((place_thread next k).state t) ≡ is_blocked (k.state t)
unfolding place_thread set_state enqueue_if spin_lock spin_unlock disable_preempt enable_preempt
place_thread-is_blocked next k t = elim (Bool-cases (t == k.current)) [
  | inl same ↦
      let e : t ≡ k.current = ground arith in rw (same, e) (finish-is_blocked (k.state k.current))
  | inr other ↦ rw other refl
]

switch_to-is_blocked :
    (o : Option ℕ) (k : Kernel) (t : ℕ)
    → is_blocked ((switch_to o k).state t) ≡ is_blocked (k.state t)
unfolding switch_to
switch_to-is_blocked none k t = refl
switch_to-is_blocked (some next) k t = elim (Bool-cases (k.current == next)) [
  | inl same ↦ rw same refl
  | inr other ↦
      elim (Bool-cases
        (not (is_thread k.idle_thread next) || not (is_active (k.state k.current)))) [
          | inl go ↦ rw (other, go) (place_thread-is_blocked next k t)
          | inr stay ↦ rw (other, stay) refl
        ]
]

pick-is_blocked :
    (queue : List ℕ) (k : Kernel) (t : ℕ)
    → is_blocked ((pick queue k).state t) ≡ is_blocked (k.state t)
unfolding pick spin_lock spin_unlock disable_preempt enable_preempt
pick-is_blocked [] k t = switch_to-is_blocked k.idle_thread (spin_unlock (spin_lock k)) t
pick-is_blocked (next ∷ rest) k t =
    switch_to-is_blocked (some next) (spin_unlock (record (spin_lock k) { runqueue = rest })) t

pub schedule-is_blocked :
    (k : Kernel) (t : ℕ) → is_blocked ((schedule k).state t) ≡ is_blocked (k.state t)
unfolding schedule schedule_now resume save_enable restore_ints disable_ints
schedule-is_blocked k t = elim (Bool-cases (k.preempt_cnt == 0)) [
  | inl on ↦
      elim (Bool-cases
        (is_active (k.state k.current) && ltb (sub64 k.clock (k.time k.current)) slice)) [
          | inl stay ↦ rw (on, stay) refl
          | inr go ↦ rw (on, go) (pick-is_blocked k.runqueue (disable_ints (save_enable k)) t)
        ]
  | inr off ↦ rw off refl
]

-- A thread that waits for the mutex is blocked, and no other becomes so.
pub lock_wait-is_blocked :
    (enable : Bool) (k : Kernel) (m : Mutex) (t : ℕ)
    → is_blocked ((lock_by true enable k m).0.state t) ≡ (t == k.current || is_blocked (k.state t))
unfolding lock_by set_state spin_unlock_irqrestore spin_unlock enable_preempt restore_ints
lock_wait-is_blocked enable k m t =
    schedule-is_blocked (spin_unlock_irqrestore enable (set_state k.current thread_blocked k)) t
    ∙ elim (Bool-cases (t == k.current)) [ inl same ↦ rw same refl | inr other ↦ rw other refl ]

-- Waking one thread leaves the others as they are.
pub thread_activate-other :
    (k : Kernel) (t u : ℕ) → u ≢ t → (thread_activate t k).state u ≡ k.state u
unfolding thread_activate spin_lock_irqsave spin_unlock_irqrestore set_state enqueue restore_ints
    disable_ints spin_lock spin_unlock disable_preempt enable_preempt
thread_activate-other k t u ne =
    let other : (u == t) ≡ false = ground arith in
    elim (Bool-cases (is_blocked (k.state t))) [
      | inl on ↦ rw (on, other) refl
      | inr off ↦ rw off refl
    ]

-- A thread that was woken is not blocked.
pub thread_activate-is_blocked :
    (k : Kernel) (t : ℕ) → is_blocked ((thread_activate t k).state t) ≡ false
unfolding thread_activate spin_lock_irqsave spin_unlock_irqrestore set_state enqueue restore_ints
    disable_ints spin_lock spin_unlock disable_preempt enable_preempt
thread_activate-is_blocked k t =
    let self : (t == t) ≡ true = ground arith in
    elim (Bool-cases (is_blocked (k.state t))) [
      | inl on ↦ rw (on, self) refl
      | inr off ↦ rw off off
    ]
