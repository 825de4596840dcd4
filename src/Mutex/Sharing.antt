-- ===== src/Mutex/Sharing.antt =====
-- Who holds the mutex and who waits for it: histories of polls, attempts and drops of
-- dot15d4-util/src/sync/mutex.rs.
use dot15d.Base.{
  ℕ, suc, ◌-◌, ◌<◌, ◌≡◌, refl, ap, Bool, true, false, List, [], ◌∷◌, Option, none, some, ◌==◌,
  if◌then◌else◌, Bool-cases, inl, inr, arith,
}
use dot15d.Mutex.{MutexState, new, try_lock, poll, drop_guard}

pub data Event : Type 0 where
  polls : ℕ → Event
  tries drops : Event

-- The mutex, the number of guards, and the tasks that are pending and were not woken since.
pub record Sharing : Type 0 where
  pub mutex : MutexState
  pub guards : ℕ
  pub asleep : ℕ → Bool

abbrev pub woken : (ℕ → Bool) → Option ℕ → ℕ → Bool
woken asleep none t = asleep t
woken asleep (some waker) t = if t == waker then false else asleep t

abbrev pub polled : Sharing → ℕ → MutexState × Bool × Option ℕ → Sharing
polled m task (s, true, waker) = record {
  mutex = s;
  guards = suc m.guards;
  asleep = λ t. if t == task then false else woken m.asleep waker t;
}
polled m task (s, false, waker) = record {
  mutex = s;
  guards = m.guards;
  asleep = λ t. if t == task then true else woken m.asleep waker t;
}

abbrev pub tried : Sharing → MutexState × Bool → Sharing
tried m (s, true) = record m { mutex = s; guards = suc m.guards }
tried m (s, false) = record m { mutex = s }

abbrev pub dropped : Sharing → MutexState × Option ℕ → Sharing
dropped m (s, waker) = record { mutex = s; guards = m.guards - 1; asleep = woken m.asleep waker }

abbrev pub after : Sharing → Event → Sharing
after m (polls task) = polled m task (poll m.mutex task)
after m tries = tried m (try_lock m.mutex)
after m drops = dropped m (drop_guard m.mutex)

abbrev pub start : Sharing
start = record { mutex = new; guards = 0; asleep = λ t. false }

abbrev pub after_all : Sharing → List Event → Sharing
after_all m [] = m
after_all m (event ∷ events) = after_all (after m event) events

-- A guard can be dropped only while there is one.
abbrev pub Possible : Sharing → Event → Type 0
Possible m drops = 0 < m.guards
Possible m _ = Unit

abbrev pub AllPossible : Sharing → List Event → Type 0
AllPossible m [] = Unit
AllPossible m (event ∷ events) = Possible m event × AllPossible (after m event) events

-- Held by one guard when locked and by none when not; whoever sleeps is the one whose waker is
-- kept, and the mutex is locked.
pub record Fair (m : Sharing) : Type 0 where
  pub exclusive : m.guards ≡ (if m.mutex.locked then 1 else 0)
  pub known_waker : (t : ℕ) → m.asleep t ≡ true → m.mutex.waker ≡ some t
  pub still_locked : (t : ℕ) → m.asleep t ≡ true → m.mutex.locked ≡ true

abbrev sharing : Bool → Option ℕ → ℕ → (ℕ → Bool) → Sharing
sharing locked waker guards asleep = record {
  mutex = record { locked = locked; waker = waker };
  guards = guards;
  asleep = asleep;
}

polls-Fair :
    (locked : Bool) (waker : Option ℕ) (guards : ℕ) (asleep : ℕ → Bool) (task : ℕ)
    → Fair (sharing locked waker guards asleep)
    → Fair (after (sharing locked waker guards asleep) (polls task))
unfolding poll
polls-Fair false waker guards asleep task f = record {
  exclusive = ap suc f.exclusive;
  known_waker = λ t h. let slept = f.still_locked t in ground arith;
  still_locked = λ t h. refl;
}
polls-Fair true none guards asleep task f = record {
  exclusive = f.exclusive;
  known_waker = λ t h. let kept = f.known_waker t in grind arith;
  still_locked = λ t h. refl;
}
polls-Fair true (some w) guards asleep task f = elim (Bool-cases (w == task)) [
  | inl e ↦ rw (e) (record {
    exclusive = f.exclusive;
    known_waker = λ t h. let kept = f.known_waker t in grind arith;
    still_locked = λ t h. refl;
  })
  | inr e ↦ rw (e) (record {
    exclusive = f.exclusive;
    known_waker = λ t h. let kept = f.known_waker t in grind arith;
    still_locked = λ t h. refl;
  })
]

tries-Fair :
    (locked : Bool) (waker : Option ℕ) (guards : ℕ) (asleep : ℕ → Bool)
    → Fair (sharing locked waker guards asleep)
    → Fair (after (sharing locked waker guards asleep) tries)
unfolding try_lock
tries-Fair true waker guards asleep f = f
tries-Fair false waker guards asleep f = record {
  exclusive = ap suc f.exclusive;
  known_waker = f.known_waker;
  still_locked = λ t h. refl;
}

drops-Fair :
    (locked : Bool) (waker : Option ℕ) (guards : ℕ) (asleep : ℕ → Bool)
    → Fair (sharing locked waker guards asleep)
    → 0 < guards
    → Fair (after (sharing locked waker guards asleep) drops)
unfolding drop_guard
drops-Fair false waker guards asleep f held = let none_held = f.exclusive in absurd (omega arith)
drops-Fair true none guards asleep f held = record {
  exclusive = ap (λ (n : ℕ). n - 1) f.exclusive;
  known_waker = λ t h. f.known_waker t h;
  still_locked = λ t h. let kept = f.known_waker t in grind arith;
}
drops-Fair true (some w) guards asleep f held = record {
  exclusive = ap (λ (n : ℕ). n - 1) f.exclusive;
  known_waker = λ t h. let kept = f.known_waker t in grind arith;
  still_locked = λ t h. let kept = f.known_waker t in grind arith;
}

after-Fair : (m : Sharing) (event : Event) → Fair m → Possible m event → Fair (after m event)
after-Fair m (polls task) f h = polls-Fair m.mutex.locked m.mutex.waker m.guards m.asleep task f
after-Fair m tries f h = tries-Fair m.mutex.locked m.mutex.waker m.guards m.asleep f
after-Fair m drops f h = drops-Fair m.mutex.locked m.mutex.waker m.guards m.asleep f h

after_all_from-Fair :
    (m : Sharing) (events : List Event) → Fair m → AllPossible m events → Fair (after_all m events)
after_all_from-Fair m [] f h = f
after_all_from-Fair m (event ∷ events) f h =
    after_all_from-Fair (after m event) events (after-Fair m event f h.0) h.1

start-Fair : Fair start
unfolding new
start-Fair = record {
  exclusive = refl;
  known_waker = λ t h. absurd (grind arith);
  still_locked = λ t h. absurd (grind arith);
}

-- In any history of polls, attempts and drops on a new mutex, in which only guards that exist are
-- dropped: there is one guard while the mutex is locked and none otherwise, and a task that waits
-- and was not woken is the one whose waker is kept, while the mutex is locked.
pub after_all-Fair :
    (events : List Event) → AllPossible start events → Fair (after_all start events)
after_all-Fair events h = after_all_from-Fair start events start-Fair h

-- After any history of attempts, polls and drops of guards, whenever the mutex is not locked, every task that has waited for it has been
-- woken since its last poll: no wake-up is lost.
pub asleep-after_all :
    (events : List Event) (t : ℕ)
    → AllPossible start events
    → (after_all start events).mutex.locked ≡ false
    → (after_all start events).asleep t ≡ false
asleep-after_all events t h free =
    let f = after_all-Fair events h in
    elim (Bool-cases ((after_all start events).asleep t)) [
      | inl e ↦ let locked = f.still_locked t e in absurd (grind arith)
      | inr e ↦ e
    ]
