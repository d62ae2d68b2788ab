-- ===== src/Threads/Tests.antt =====
-- Two threads, from the start of the kernel.
use au_os.Prelude.{◌≡◌, ◌≢◌, refl, arith, some, [], ◌∷◌}
use au_os.Threads.{
  Kernel, threads_setup, thread_create, thread_activate, set_state, enqueue, spin_lock_irqsave,
  spin_lock, spin_unlock_irqrestore, spin_unlock, restore_ints, disable_ints, disable_preempt,
  enable_preempt, thread_finished,
}
use au_os.Threads.Inv.{IsKernel}
use au_os.Threads.Reach.{IsReached, started, stepped, created, activated, reached-IsKernel}
use au_os.Threads.Fair.{IsTurning, turns, turns-current}

abbrev boot : Kernel
boot = threads_setup 0 5 (λ t. 0)

abbrev two_threads : Kernel
two_threads = thread_activate 1 (thread_create 1 boot)

one_dead : boot.state 1 ≡ thread_finished
unfolding threads_setup
one_dead = refl

not_first : 1 ≢ boot.current
unfolding threads_setup
not_first = λ e. omega arith

not_first_later : 1 ≢ (thread_create 1 boot).current
unfolding threads_setup thread_create set_state
not_first_later = λ e. omega arith

two_threads-IsReached : IsReached two_threads
two_threads-IsReached =
    stepped (thread_create 1 boot) two_threads
      (stepped boot (thread_create 1 boot) (started 0 5 (λ t. 0))
        (created boot 1 not_first one_dead))
      (activated (thread_create 1 boot) 1 not_first_later)

reached-IsKernel_example : IsKernel two_threads
reached-IsKernel_example = reached-IsKernel two_threads two_threads-IsReached

two_threads-IsTurning : IsTurning two_threads
unfolding threads_setup thread_create thread_activate set_state enqueue spin_lock_irqsave spin_lock
    spin_unlock_irqrestore spin_unlock restore_ints disable_ints disable_preempt enable_preempt
two_threads-IsTurning = record {
  kernel = reached-IsKernel two_threads two_threads-IsReached;
  enabled = refl;
  active = refl;
}

queue_of_two : two_threads.runqueue ≡ 1 ∷ []
unfolding threads_setup thread_create thread_activate set_state enqueue spin_lock_irqsave spin_lock
    spin_unlock_irqrestore spin_unlock restore_ints disable_ints disable_preempt enable_preempt
queue_of_two = refl

turns-current_example : (k' : Kernel) × (turns 1 two_threads ≡ some k') × (k'.current ≡ 1)
turns-current_example = turns-current [] [] 1 two_threads two_threads-IsTurning queue_of_two
