-- ===== src/Threads/Fair.antt =====
-- Threads take turns: each thread on the queue runs after those before it.
use au_os.Prelude.{
  ℕ, zero, suc, ◌≡◌, refl, ap, inl, inr, true, false, not, ◌&&◌, Option, none, some, List, [], ◌∷◌,
  ◌++◌, arith, ◌==◌, Bool-cases, ◌∙◌, length,
}
use mathlib.Core.List.{append_assoc}
use au_os.MemCache.Inv.{count_of}
use au_os.Threads.{
  Kernel, is_active, is_thread, set_state, enqueue_if, place_thread, switch_to, pick, schedule_now,
  force_schedule, restore_ints, disable_ints, resume, save_enable, spin_lock, spin_unlock,
  disable_preempt, enable_preempt,
}
use au_os.Threads.Inv.{IsKernel, finish-is_active}
use au_os.Threads.Reach.{force_schedule-IsKernel}

-- A state in which threads take turns: preemption is enabled, and the thread that runs is active.
pub record IsTurning (k : Kernel) : Type 0 where
  pub kernel : IsKernel k
  pub enabled : k.preempt_cnt ≡ 0
  pub active : is_active (k.state k.current) ≡ true

-- What a turn gives: the first thread of the queue runs, and the one before it is queued last.
pub record IsTurn (k : Kernel) (next : ℕ) (rest : List ℕ) (r : Option Kernel) : Type 0 where
  pub after : Kernel
  pub result : r ≡ some after
  pub runs : after.current ≡ next
  pub queued : after.runqueue ≡ rest ++ k.current ∷ []
  pub turning : IsTurning after

module _ (k : Kernel) (next : ℕ) (rest : List ℕ) (ok : IsTurning k)
    (e : k.runqueue ≡ next ∷ rest) where
  first_ready : (is_active (k.state next) && not (next == k.current)) ≡ true
  first_ready = ground (arith, ok.kernel.queue next, ap (count_of next) e)

  not_idle : (o : Option ℕ) → k.idle_thread ≡ o → is_thread o next ≡ false
  not_idle none e' = refl
  not_idle (some t) e' = elim (Bool-cases (t == next)) [
    | inl same ↦
        let e'' : t ≡ next = ground arith in
        absurd (ground (arith, first_ready, ap is_active (ok.kernel.idle next (e' ∙ ap some e''))))
    | inr other ↦ other
  ]

  off_queue : Kernel
  off_queue = spin_unlock (record (spin_lock (disable_ints (save_enable k))) { runqueue = rest })

  picked : schedule_now true (disable_ints (save_enable k)) ≡ place_thread next off_queue
  unfolding schedule_now pick switch_to off_queue spin_lock spin_unlock disable_preempt
      enable_preempt disable_ints save_enable
  picked =
      let other : (k.current == next) ≡ false = ground (arith, first_ready) in
      rw (e, pick) (rw (other, not_idle k.idle_thread refl) refl)

  pub force_schedule-IsTurn : IsTurn k next rest (force_schedule k)
  unfolding force_schedule place_thread set_state enqueue_if resume save_enable restore_ints
      disable_ints spin_lock spin_unlock disable_preempt enable_preempt off_queue
  force_schedule-IsTurn =
      let enabled : (k.preempt_cnt == 0) ≡ true = ground (arith, ok.enabled) in
      let same : (k.current == k.current) ≡ true = ground arith in
      let after = resume (place_thread next off_queue) in
      let result : force_schedule k ≡ some after =
        rw (enabled, force_schedule) (ap (λ q. some (resume q)) picked) in
      record {
        after = after;
        result = result;
        runs = refl;
        queued = rw (same, finish-is_active (k.state k.current), ok.active) refl;
        turning = record {
          kernel = force_schedule-IsKernel k after ok.kernel result;
          enabled = rw ok.enabled refl;
          active = ground (arith, first_ready);
        };
      }

-- `n` turns in a row.
unfoldable pub turns : ℕ → Kernel → Option Kernel
turns zero k = some k
turns (suc n) k = elim (force_schedule k) [ none ↦ none | some k' ↦ turns n k' ]

-- A thread on the queue runs after as many turns as there are threads before it, and its own,
-- where each thread gives up its turn by `force_schedule` and stays active.
pub turns-current :
    (before after : List ℕ) (t : ℕ) (k : Kernel)
    → IsTurning k
    → k.runqueue ≡ before ++ t ∷ after
    → (k' : Kernel) × (turns (suc (length before)) k ≡ some k') × (k'.current ≡ t)
unfolding turns
turns-current [] after t k ok e =
    let turn = force_schedule-IsTurn k t after ok e in
    (turn.after, rw (turn.result, turns) refl, turn.runs)
turns-current (u ∷ before) after t k ok e =
    let turn = force_schedule-IsTurn k u (before ++ t ∷ after) ok e in
    let (k', e', runs) =
      turns-current before (after ++ k.current ∷ []) t turn.after turn.turning
        (turn.queued ∙ append_assoc before (t ∷ after) (k.current ∷ [])) in
    (k', rw (turn.result, turns) e', runs)
