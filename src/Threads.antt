-- ===== src/Threads.antt =====
-- threads.c and spinlock.c: threads, the queue of those that are ready, and the scheduler. A
-- switch of stacks resumes the next thread behind its own switch or at its entry, where its first
-- act is `place_thread`: a switch is that call.
pub mod Inv
pub mod Fair
pub mod Reach
mod Tests
use au_os.Prelude.{
  ℕ, zero, suc, ◌+◌, ◌-◌, ◌%◌, ◌^◌, Bool, true, false, not, ◌&&◌, ◌||◌, Option, none, some, List,
  [], ◌∷◌, ◌++◌, ltb, ◌==◌, if◌then◌else◌,
}
use au_os.Prelude.Words.{sub64}

pub data ThreadState : Type 0 where
  thread_idle : ThreadState
  thread_active : ThreadState
  thread_blocked : ThreadState
  thread_finishing : ThreadState
  thread_finished : ThreadState

abbrev pub is_active : ThreadState → Bool
is_active thread_active = true
is_active thread_idle = false
is_active thread_blocked = false
is_active thread_finishing = false
is_active thread_finished = false

abbrev pub is_blocked : ThreadState → Bool
is_blocked thread_blocked = true
is_blocked thread_idle = false
is_blocked thread_active = false
is_blocked thread_finishing = false
is_blocked thread_finished = false

-- The file's static variables, with the flag that enables interrupts and the clock, and for each
-- thread the `enable` of its call of the scheduler, which stands on its stack. Threads are numbers.
pub record Kernel : Type 0 where
  pub current : ℕ
  pub idle_thread : Option ℕ
  pub runqueue : List ℕ
  pub state : ℕ → ThreadState
  pub time : ℕ → ℕ
  pub preempt_cnt : ℕ
  pub ints : Bool
  pub enable : ℕ → Bool
  pub clock : ℕ

-- SLICE
abbrev pub slice : ℕ
slice = 10

-- `atomic_int` arithmetic wraps.
unfoldable pub disable_preempt : Kernel → Kernel
disable_preempt k = record k { preempt_cnt = (k.preempt_cnt + 1) % 2 ^ 32 }

unfoldable pub enable_preempt : Kernel → Kernel
enable_preempt k = record k { preempt_cnt = (k.preempt_cnt + (2 ^ 32 - 1)) % 2 ^ 32 }

unfoldable pub disable_ints : Kernel → Kernel
disable_ints k = record k { ints = false }

unfoldable pub spin_lock : Kernel → Kernel
unfolding disable_preempt
spin_lock k = disable_preempt k

unfoldable pub spin_unlock : Kernel → Kernel
unfolding enable_preempt
spin_unlock k = enable_preempt k

-- `spin_lock_irqsave`: whether interrupts were enabled, and the state.
unfoldable pub spin_lock_irqsave : Kernel → Bool × Kernel
unfolding spin_lock disable_ints
spin_lock_irqsave k = (k.ints, spin_lock (disable_ints k))

unfoldable pub restore_ints : Bool → Kernel → Kernel
restore_ints enable k = record k { ints = enable || k.ints }

unfoldable pub spin_unlock_irqrestore : Bool → Kernel → Kernel
unfolding spin_unlock restore_ints
spin_unlock_irqrestore enable k = restore_ints enable (spin_unlock k)

unfoldable pub set_state : ℕ → ThreadState → Kernel → Kernel
set_state t s k = record k { state = λ u. if u == t then s else k.state u }

unfoldable pub enqueue : ℕ → Kernel → Kernel
enqueue t k = record k { runqueue = k.runqueue ++ t ∷ [] }

unfoldable pub enqueue_if : Bool → ℕ → Kernel → Kernel
enqueue_if on t k = record k { runqueue = if on then k.runqueue ++ t ∷ [] else k.runqueue }

-- A thread that is finishing has finished once another runs.
abbrev pub finish : ThreadState → ThreadState
finish thread_finishing = thread_finished
finish thread_idle = thread_idle
finish thread_active = thread_active
finish thread_blocked = thread_blocked
finish thread_finished = thread_finished

-- `place_thread`: `next` runs in place of the current thread, which is queued if it is active.
unfoldable pub place_thread : ℕ → Kernel → Kernel
unfolding set_state spin_lock spin_unlock enqueue_if
place_thread next k =
    let prev = k.current in
    let finished = set_state prev (finish (k.state prev)) k in
    let locked = spin_lock finished in
    let queued = enqueue_if (is_active (locked.state prev)) prev locked in
    let unlocked = spin_unlock queued in
    record unlocked {
      current = next;
      time = λ t. if t == next then unlocked.clock else unlocked.time t;
    }

abbrev pub is_thread : Option ℕ → ℕ → Bool
is_thread none t = false
is_thread (some u) t = u == t

-- The end of `__schedule`, with the thread that it chose.
unfoldable pub switch_to : Option ℕ → Kernel → Kernel
unfolding place_thread
switch_to none k = k
switch_to (some next) k =
    if k.current == next
    then k
    else if not (is_thread k.idle_thread next) || not (is_active (k.state k.current))
    then place_thread next k
    else k

unfoldable pub pick : List ℕ → Kernel → Kernel
unfolding switch_to spin_lock spin_unlock
pick [] k = switch_to k.idle_thread (spin_unlock (spin_lock k))
pick (next ∷ rest) k =
    switch_to (some next) (spin_unlock (record (spin_lock k) { runqueue = rest }))

-- `__schedule`: a thread that is active keeps running to the end of its time slice, unless forced.
unfoldable pub schedule_now : (force : Bool) → Kernel → Kernel
unfolding pick
schedule_now force k =
    if not force && is_active (k.state k.current) && ltb (sub64 k.clock (k.time k.current)) slice
    then k
    else pick k.runqueue k

-- `const int enable = ints_enabled()`, on the stack of the thread that runs.
unfoldable pub save_enable : Kernel → Kernel
save_enable k = record k { enable = λ t. if t == k.current then k.ints else k.enable t }

-- `if (enable) enable_ints()`, by the thread that runs now: behind its own switch, or at its entry.
unfoldable pub resume : Kernel → Kernel
unfolding restore_ints
resume k = restore_ints (k.enable k.current) k

unfoldable pub schedule : Kernel → Kernel
unfolding schedule_now resume save_enable disable_ints
schedule k =
    if k.preempt_cnt == 0 then resume (schedule_now false (disable_ints (save_enable k))) else k

-- `force_schedule`: `none` is its BUG, a call while preemption is disabled.
unfoldable pub force_schedule : Kernel → Option Kernel
unfolding schedule_now resume save_enable disable_ints
force_schedule k =
    if k.preempt_cnt == 0
    then some (resume (schedule_now true (disable_ints (save_enable k))))
    else none

-- `thread_activate`
unfoldable pub thread_activate : ℕ → Kernel → Kernel
unfolding spin_lock_irqsave spin_unlock_irqrestore set_state enqueue
thread_activate t k =
    let (enable, locked) = spin_lock_irqsave k in
    spin_unlock_irqrestore enable
      (if is_blocked (locked.state t) then enqueue t (set_state t thread_active locked) else locked)

-- `thread_exit`, up to its first `force_schedule`, which it calls for ever.
unfoldable pub thread_exit : Kernel → Option Kernel
unfolding set_state force_schedule
thread_exit k = force_schedule (set_state k.current thread_finishing k)

-- `idle`, likewise; `none` is a BUG, also for a second idle thread.
unfoldable pub idle : Kernel → Option Kernel
unfolding set_state force_schedule
idle k = elim k.idle_thread [
  | some t ↦ none
  | none ↦
      force_schedule (set_state k.current thread_idle (record k { idle_thread = some k.current }))
]

-- What `threads_setup` leaves: the thread that runs, and an empty queue. A number that stands for
-- no thread yet counts as one that has finished. `memset` clears as many bytes as a pointer has, so
-- `time` is what the memory of the threads held before.
unfoldable pub threads_setup : (first clock : ℕ) (time : ℕ → ℕ) → Kernel
threads_setup first clock time = record {
  current = first;
  idle_thread = none;
  runqueue = [];
  state = λ t. if t == first then thread_active else thread_finished;
  time = time;
  preempt_cnt = 0;
  ints = false;
  enable = λ t. false;
  clock = clock;
}

-- `thread_create`, for the thread that is allocated: it is blocked, and `thread_entry` enables
-- interrupts once it runs.
unfoldable pub thread_create : ℕ → Kernel → Kernel
unfolding set_state
thread_create t k = record (set_state t thread_blocked k) { enable = λ u. u == t || k.enable u }
