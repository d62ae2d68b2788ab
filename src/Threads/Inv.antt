-- ===== src/Threads/Inv.antt =====
-- The scheduler neither loses nor doubles a thread: what is ready is on the queue once.
use au_os.Prelude.{
  ℕ, ◌+◌, ◌≡◌, ◌≢◌, refl, ap, inl, inr, Bool, true, false, not, ◌&&◌, ◌||◌, Option, none, some,
  List, [], ◌∷◌, ◌++◌, arith, ltb, ◌==◌, if◌then◌else◌, Bool-cases,
}
use au_os.Prelude.Words.{sub64}
use au_os.MemCache.Inv.{count_of}
use au_os.Threads.{
  Kernel, ThreadState, is_active, thread_active, thread_blocked, thread_finishing, thread_idle,
  thread_finished, finish, is_thread, set_state, enqueue_if, place_thread, switch_to, pick,
  schedule_now, slice, spin_lock, spin_unlock, disable_preempt, enable_preempt,
}

pub count_of-append :
    (t : ℕ) (xs ys : List ℕ) → count_of t (xs ++ ys) ≡ count_of t xs + count_of t ys
count_of-append t [] ys = omega arith
count_of-append t (x ∷ xs) ys = ground (arith, count_of-append t xs ys)

-- Whether a thread waits for its turn: it is active, and another is running.
abbrev pub ready : (ℕ → ThreadState) → (current t : ℕ) → ℕ
ready state current t = if is_active (state t) && not (t == current) then 1 else 0

-- The queue holds each thread that is ready once, and no other.
abbrev pub IsQueue : (ℕ → ThreadState) → (current : ℕ) → List ℕ → Type 0
IsQueue state current queue = (t : ℕ) → count_of t queue ≡ ready state current t

-- Whether the idle thread, where there is one, has the state of its own.
abbrev pub IsIdle : Kernel → Type 0
IsIdle k = (t : ℕ) → k.idle_thread ≡ some t → k.state t ≡ thread_idle

pub record IsKernel (k : Kernel) : Type 0 where
  pub queue : IsQueue k.state k.current k.runqueue
  pub idle : IsIdle k

pub finish-is_active : (s : ThreadState) → is_active (finish s) ≡ is_active s
finish-is_active thread_active = refl
finish-is_active thread_finishing = refl
finish-is_active thread_blocked = refl
finish-is_active thread_idle = refl
finish-is_active thread_finished = refl

-- A switch to a thread that was taken off the queue, or that is not active.
place_thread-IsKernel :
    (next : ℕ) (k : Kernel)
    → next ≢ k.current
    → ((t : ℕ) → count_of t k.runqueue ≡ (if t == next then 0 else ready k.state k.current t))
    → IsIdle k
    → IsKernel (place_thread next k)
unfolding place_thread set_state enqueue_if spin_lock spin_unlock disable_preempt enable_preempt
place_thread-IsKernel next k ne h idle =
    let same : (k.current == k.current) ≡ true = ground arith in
    record {
      queue = λ t. elim (Bool-cases (is_active (k.state k.current))) [
        | inl on ↦
            rw (same, finish-is_active (k.state k.current), on)
              (ground (
                arith,
                h t,
                finish-is_active (k.state k.current),
                count_of-append t k.runqueue (k.current ∷ []),
              ))
        | inr off ↦
            rw (same, finish-is_active (k.state k.current), off)
              (ground (arith, h t, finish-is_active (k.state k.current)))
      ];
      idle = still_idle;
    }
  where
    still_idle :
        (t : ℕ)
        → k.idle_thread ≡ some t
        → (if t == k.current then finish (k.state k.current) else k.state t) ≡ thread_idle
    still_idle t e = elim (Bool-cases (t == k.current)) [
      | inl same ↦ let e' : k.current ≡ t = ground arith in rw (same, e') (ap finish (idle t e))
      | inr other ↦ rw other (idle t e)
    ]

is_thread-some : (o : Option ℕ) (t : ℕ) → is_thread o t ≡ true → o ≡ some t
is_thread-some none t e = ground arith
is_thread-some (some u) t e = let e' : u ≡ t = ground arith in rw e' refl

-- The choice of `__schedule`: a thread off the queue, or the idle one.
switch_to-IsKernel :
    (next : ℕ) (k : Kernel)
    → ((t : ℕ) → count_of t k.runqueue ≡ (if t == next then 0 else ready k.state k.current t))
    → IsIdle k
    → IsKernel (switch_to (some next) k)
unfolding switch_to
switch_to-IsKernel next k h idle = elim (Bool-cases (k.current == next)) [
  | inl same ↦ rw same (record { queue = λ t. ground (arith, h t); idle = idle })
  | inr other ↦
      elim (Bool-cases
        (not (is_thread k.idle_thread next) || not (is_active (k.state k.current)))) [
          | inl go ↦ rw (other, go) (place_thread-IsKernel next k (λ e. ground arith) h idle)
          | inr stay ↦
              let no_turn : is_active (k.state next) ≡ false =
                ap is_active (idle next (is_thread-some k.idle_thread next (ground arith))) in
              rw (other, stay)
                (record {
                  queue = λ t. elim (Bool-cases (t == next)) [
                    | inl same ↦ let e : t ≡ next = ground arith in rw e (ground (arith, h next))
                    | inr not_next ↦ ground (arith, h t)
                  ];
                  idle = idle;
                })
        ]
]

pick-IsKernel :
    (queue : List ℕ) (k : Kernel) → k.runqueue ≡ queue → IsKernel k → IsKernel (pick queue k)
unfolding pick switch_to spin_lock spin_unlock disable_preempt enable_preempt
pick-IsKernel [] k e ok = pick_idle k.idle_thread refl
  where
    same : Kernel
    same = spin_unlock (spin_lock k)

    pick_idle : (o : Option ℕ) → k.idle_thread ≡ o → IsKernel (switch_to o same)
    pick_idle none e' = record { queue = ok.queue; idle = ok.idle }
    pick_idle (some t) e' =
        switch_to-IsKernel t same
          (λ u. elim (Bool-cases (u == t)) [
            | inl eq ↦
                let e'' : u ≡ t = ground arith in
                rw e'' (ground (arith, ok.queue t, ap is_active (ok.idle t e')))
            | inr ne ↦ ground (arith, ok.queue u)
          ])
          ok.idle
pick-IsKernel (next ∷ rest) k e ok =
    switch_to-IsKernel next (spin_unlock (record (spin_lock k) { runqueue = rest }))
      (λ t. ground (arith, ok.queue t, ap (count_of t) e)) ok.idle

-- What `__schedule` is called with and returns.
pub schedule_now-IsKernel :
    (force : Bool) (k : Kernel) → IsKernel k → IsKernel (schedule_now force k)
unfolding schedule_now
schedule_now-IsKernel force k ok =
    elim (Bool-cases (
      not force && is_active (k.state k.current) && ltb (sub64 k.clock (k.time k.current)) slice)) [
        | inl on ↦ rw on ok
        | inr off ↦ rw off (pick-IsKernel k.runqueue k refl ok)
      ]
