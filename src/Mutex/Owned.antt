-- ===== src/Mutex/Owned.antt =====
-- The branches of `mutex_lock` and `mutex_unlock` for a mutex with at most one owner.
use au_os.Prelude.{
  ℕ, ◌≤◌, ◌<◌, ◌≡◌, ◌≢◌, refl, ap, inl, inr, Bool, true, false, Option, none, some, List, [], ◌∷◌,
  arith, ◌==◌, if◌then◌else◌, Bool-cases, ◌∙◌,
}
use mathlib.Core.Option.{some-injective, none-ne-some}
use au_os.MemCache.{erase}
use au_os.MemCache.Inv.{count_of}
use au_os.Threads.{
  Kernel, ThreadState, is_active, is_blocked, thread_active, thread_blocked, thread_idle,
  thread_finishing, thread_finished, restore_ints, spin_unlock, enable_preempt, thread_activate,
  spin_unlock_irqrestore,
}
use au_os.Threads.Inv.{count_of-append}
use au_os.Mutex.Blocked.{lock_wait-is_blocked, thread_activate-other, thread_activate-is_blocked}
use au_os.Mutex.{Mutex, lock_by, unlock_for}

-- The threads of the list that are not blocked.
abbrev pub woken : Kernel → List ℕ → List ℕ
woken k [] = []
woken k (t ∷ ts) = if is_blocked (k.state t) then woken k ts else t ∷ woken k ts

abbrev pub first_of : List ℕ → Option ℕ
first_of [] = none
first_of (t ∷ ts) = some t

abbrev pub is_some : Option ℕ → Bool
is_some none = false
is_some (some t) = true

abbrev pub list_of : Option ℕ → List ℕ
list_of none = []
list_of (some t) = t ∷ []

-- The same with the one holder by name.
pub record IsOwned (k : Kernel) (m : Mutex) (o : Option ℕ) : Type 0 where
  pub held : m.locked ≡ is_some o
  pub waits : (t : ℕ) → 0 < count_of t m.waitqueue → is_blocked (k.state t) ≡ true
  pub once : (t : ℕ) → count_of t m.waitqueue ≤ 1
  pub not_owner : (t : ℕ) → o ≡ some t → count_of t m.waitqueue ≡ 0
  pub none_waits : m.locked ≡ false → (t : ℕ) → count_of t m.waitqueue ≡ 0

pub active-is_blocked : (s : ThreadState) → is_active s ≡ true → is_blocked s ≡ false
active-is_blocked thread_active e = refl
active-is_blocked thread_idle e = refl
active-is_blocked thread_blocked e = absurd (ground arith)
active-is_blocked thread_finishing e = refl
active-is_blocked thread_finished e = refl

-- The two branches of `mutex_lock`, behind its spinlock.
pub lock_waits :
    (k : Kernel) (m : Mutex) (o : Option ℕ) (enable : Bool)
    → is_active (k.state k.current) ≡ true
    → o ≢ some k.current
    → m.locked ≡ true
    → IsOwned k m o
    → IsOwned (lock_by true enable k m).0 (lock_by true enable k m).1 o
unfolding lock_by
lock_waits k m o enable active ne on ok =
    let new : count_of k.current m.waitqueue ≡ 0 =
      ground (arith, ok.waits k.current, active-is_blocked (k.state k.current) active) in
    record {
      held = ok.held;
      waits = λ t lt. lock_wait-is_blocked enable k m t ∙ elim (Bool-cases (t == k.current)) [
        | inl same ↦ rw same refl
        | inr not_self ↦
            rw not_self
              (ok.waits t (ground (arith, count_of-append t m.waitqueue (k.current ∷ []))))
      ];
      once = λ t. elim (Bool-cases (t == k.current)) [
        | inl same ↦
            let e : t ≡ k.current = ground arith in
            rw e (ground (arith, count_of-append k.current m.waitqueue (k.current ∷ [])))
        | inr not_self ↦ ground (arith, ok.once t, count_of-append t m.waitqueue (k.current ∷ []))
      ];
      not_owner = λ t e.
          let not_self : t ≢ k.current = λ e'. ne (e ∙ ap some e') in
          ground (arith, ok.not_owner t e, count_of-append t m.waitqueue (k.current ∷ []));
      none_waits = λ e t. absurd (ground (arith, on, e));
    }

pub lock_takes :
    (k : Kernel) (m : Mutex) (o : Option ℕ) (enable : Bool)
    → m.locked ≡ false
    → IsOwned k m o
    → IsOwned (lock_by false enable k m).0 (lock_by false enable k m).1 (some k.current)
unfolding lock_by
lock_takes k m o enable off ok = record {
  held = refl;
  waits = λ t lt. absurd (omega (arith, ok.none_waits off t));
  once = ok.once;
  not_owner = λ t e. ok.none_waits off t;
  none_waits = λ e t. ok.none_waits off t;
}

-- The two of `mutex_unlock`.
pub unlock_for-IsOwned :
    (queue : List ℕ) (k : Kernel) (m : Mutex) (o : Option ℕ) (enable : Bool)
    → m.waitqueue ≡ queue
    → m.locked ≡ true
    → IsOwned k m o
    → IsOwned (unlock_for queue enable k m).0 (unlock_for queue enable k m).1 (first_of queue)
unfolding unlock_for spin_unlock_irqrestore spin_unlock enable_preempt restore_ints
unlock_for-IsOwned [] k m o enable e on ok = record {
  held = refl;
  waits = λ t lt. ok.waits t lt;
  once = ok.once;
  not_owner = λ t e'. absurd (none-ne-some t e');
  none_waits = λ _ t. ap (count_of t) e;
}
unlock_for-IsOwned (next ∷ rest) k m o enable e on ok =
    let counts = λ (t : ℕ). ap (count_of t) e in
    let off_rest : count_of next rest ≡ 0 = ground (arith, ok.once next, counts next) in
    record {
      held = on;
      waits = λ t lt.
          let ne : t ≢ next = λ e'. omega (arith, rw e' at lt) in
          rw (thread_activate-other k next t ne) (ok.waits t (ground (arith, counts t)));
      once = λ t. ground (arith, ok.once t, counts t);
      not_owner = λ t e'. rw (← some-injective next t e') off_rest;
      none_waits = λ e' t. absurd (ground (arith, on, e'));
    }

-- Of the queue the call wakes the first alone.
woken-blocked :
    (k : Kernel) (queue : List ℕ)
    → ((t : ℕ) → 0 < count_of t queue → is_blocked (k.state t) ≡ true)
    → woken k queue ≡ []
woken-blocked k [] h = refl
woken-blocked k (t ∷ ts) h =
    rw (h t (ground arith)) (woken-blocked k ts (λ u lt. h u (ground arith)))

pub woken_next :
    (queue : List ℕ) (k : Kernel) (m : Mutex) (o : Option ℕ) (enable : Bool)
    → m.waitqueue ≡ queue
    → IsOwned k m o
    → woken (unlock_for queue enable k m).0 queue ≡ list_of (first_of queue)
unfolding unlock_for spin_unlock_irqrestore spin_unlock enable_preempt restore_ints
woken_next [] k m o enable e ok = refl
woken_next (next ∷ rest) k m o enable e ok =
    let counts = λ (t : ℕ). ap (count_of t) e in
    let off_rest : count_of next rest ≡ 0 = ground (arith, ok.once next, counts next) in
    let asleep : woken (thread_activate next k) rest ≡ [] =
      woken-blocked (thread_activate next k) rest (λ t lt.
        let ne : t ≢ next = λ e'. omega (arith, rw e' at lt) in
        rw (thread_activate-other k next t ne) (ok.waits t (ground (arith, counts t)))) in
    rw (thread_activate-is_blocked k next, asleep) refl

-- The one holder that there is leaves.
pub erase_one : (t : ℕ) (o : Option ℕ) → 0 < count_of t (list_of o) → erase t (list_of o) ≡ []
unfolding erase
erase_one t none lt = absurd (omega arith)
erase_one t (some u) lt = elim (Bool-cases (u == t)) [
  | inl same ↦ rw same refl
  | inr differs ↦ absurd (ground arith)
]

pub some_holder : (t : ℕ) (o : Option ℕ) → 0 < count_of t (list_of o) → is_some o ≡ true
some_holder t none lt = absurd (omega arith)
some_holder t (some u) lt = refl
