-- ===== src/Radio/Completion.antt =====
-- How a transition completes: `execute_transition` of dot15d4-driver/src/tasks.rs.
use dot15d.Base.{
  ◌≡◌, refl, sym, ap, ◌∙◌, subst, ◌⊎◌, inl, inr, Bool, Option, none, some, arith, Outcome, returns,
  panics, ◌>>=◌, Result, ok, err,
}
use dot15d.Radio.{
  RadioTask, TaskOff, RadioTaskError, RadioDriver, RadioState, RadioTransition,
  CompletedRadioTransition, entered, rollback, fallback, off_task, with_inner, SchedulingError,
  execute_external, execute_self, after_scheduled, after_run, after_complete, after_exit,
  after_entry, after_cleanup, self_after_scheduled, self_after_run, self_after_complete,
  self_after_cleanup, self_after_rollback, after_rollback, drop_failure, scheduling,
}

-- What a task promises: its results, the errors of its run, why its state may not be entered, and
-- which task a state that is asked for one holds. A result is final in the states that are live.
-- `Fault` is what may be said where the radio fails: a call panics, or gives a scheduling error. With
-- ⊥ for it the radio never fails, with the unit type nothing is asked of it there.
pub record Contract (W : Type 0) (k : RadioTask) : Type 1 where
  pub Done : k.Task → k.TaskResult → Type 0
  pub Undone : Bool → k.Task → RadioTaskError k → Type 0
  pub Refused : k.Task → RadioTaskError k → Type 0
  pub Same : k.Task → k.Task → Type 0
  pub Live : W → Type 0
  pub Final : k.TaskResult → Type 0
  pub Fault : Type 0

module _ {W : Type 0} {k : RadioTask} (c : Contract W k) where
  abbrev pub Runs :
      W
      → k.Task
      → Bool
      → Outcome (RadioDriver W k × Result k.TaskResult (RadioTaskError k))
      → Type 0
  Runs w t b panics = c.Fault
  Runs w t b (returns (d', ok r)) = c.Done t r × (c.Live w → c.Final r)
  Runs w t b (returns (d', err e)) = (d'.task ≡ some t) × (c.Undone b t e ⊎ c.Fault)

  -- A task that is refused has been taken from its state.
  abbrev pub Enters :
      k.Task → Outcome (RadioDriver W k × Result (Unit {0}) (RadioTaskError k)) → Type 0
  Enters t panics = c.Fault
  Enters t (returns (d', ok u)) = d'.task ≡ some t
  Enters t (returns (d', err e)) =
      ((d'.task ≡ none) × c.Refused t e) ⊎ ((d'.task ≡ some t) × c.Fault)

  -- A state keeps the promises of its task, or fails.
  pub record LawfulState (s : RadioState W k) : Type 0 where
    pub run_lem :
        (d : RadioDriver W k) (t : k.Task) (b : Bool)
        → d.task ≡ some t
        → Runs d.inner t b (s.run d b)
    pub transition_lem :
        (d : RadioDriver W k) (t : k.Task) → d.task ≡ some t → Enters t (s.transition d)
    pub exit_lem : (d : RadioDriver W k) → ((s.exit d).1 ≡ ok tt) ⊎ c.Fault

  -- What is left of a task that is given up although its state fails, without a panic: nothing of it
  -- is a buffer.
  abbrev pub Disposed : k.Task → Type 0
  Disposed t =
      (k.drop_task t ≡ returns tt)
      ⊎ ((x : RadioTaskError k) × c.Refused t x × (drop_failure x ≡ returns tt))

-- A hook succeeds, or fails.
abbrev pub Hooked : {W E : Type 0} → Type 0 → Outcome (W × Result (Unit {0}) E) → Type 0
Hooked Fault panics = Fault
Hooked Fault (returns (w, ok u)) = Unit {0}
Hooked Fault (returns (w, err e)) = Fault

module _ {W : Type 0} {k n : RadioTask} (c : Contract W k) (e : Contract W n) where
  abbrev pub Scheduled : W → Outcome (W × Result (Unit {0}) SchedulingError) → Type 0
  Scheduled w panics = c.Fault
  Scheduled w (returns (w', ok u)) = c.Live w → c.Live w'
  Scheduled w (returns (w', err x)) = c.Fault

  -- A transition that is prepared for a task: it starts from the given driver; its hooks may fail.
  pub record Prepared (d : RadioDriver W k) (next : n.Task) (alt : Bool) (t : RadioTransition W k n)
      : Type 0 where
    pub from : t.from_radio ≡ d
    pub same : e.Same next t.next_task
    pub alt_lem : t.alt_outcome_is_error ≡ alt
    pub scheduled_lem : (w : W) → Scheduled w (t.on_scheduled w)
    pub completed_lem : (w : W) → Hooked c.Fault (t.on_task_complete w)
    pub cleanup_lem : (w : W) → Hooked c.Fault (t.cleanup w)
    pub fault_lem : e.Fault → c.Fault

  -- The task that ends keeps its promise, and the next task is in the state that is entered, or it is
  -- given back, or its error says why its state was not entered. A panic, a rollback for a scheduling
  -- error or behind a result, and a fallback for any other reason are there only where the radio fails.
  abbrev pub Completes :
      RadioDriver W k → k.Task → n.Task → Bool → Outcome (CompletedRadioTransition W k n) → Type 0
  Completes d t next alt panics = c.Fault
  Completes d t next alt (returns (entered r d')) =
      c.Done t r
      × (c.Live d.inner → c.Final r)
      × ((next' : n.Task) × (d'.task ≡ some next') × e.Same next next')
  Completes d t next alt (returns (rollback d' x none next')) =
      (d'.task ≡ some t) × (c.Undone alt t x ⊎ c.Fault) × e.Same next next'
  Completes d t next alt (returns (rollback d' x (some r) next')) =
      c.Fault × c.Done t r × e.Same next next'
  Completes d t next alt (returns (fallback r d' x)) =
      c.Done t r
      × (c.Live d.inner → c.Final r)
      × ((next' : n.Task) × e.Same next next' × (e.Refused next' x ⊎ (c.Fault × Disposed e next')))
      × ((o : TaskOff) × (d'.task ≡ some o))

-- How a transition completes, read off its steps from the last to the first.
module _ {W : Type 0} {k n : RadioTask} {c : Contract W k} {e : Contract W n}
    (this : RadioState W k) (next : RadioState W n) (switch_off : W → RadioDriver W off_task)
    (off_lem : (w : W) → (o : TaskOff) × ((switch_off w).task ≡ some o))
    (lawful : LawfulState c this) (lawful_next : LawfulState e next) (d : RadioDriver W k)
    (t : k.Task) (task : n.Task) (alt : Bool) (tr : RadioTransition W k n)
    (p : Prepared c e d task alt tr) where
  fallback-Completes :
      (r : k.TaskResult) (w : W) (x : RadioTaskError n) (o : Outcome (Unit {0}))
      → c.Done t r × (c.Live d.inner → c.Final r)
      → c.Fault
      → (o ≡ returns tt → Disposed e tr.next_task)
      → Completes c e d t task alt (o >>= λ u. returns (fallback r (switch_off w) x))
  fallback-Completes r w x panics done fault disposed = fault
  fallback-Completes r w x (returns u) done fault disposed =
      (done.0, done.1, (tr.next_task, p.same, inr (fault, disposed refl)), off_lem w)

  dropped-Completes :
      (r : k.TaskResult) (w : W) (x : RadioTaskError n) (o : Outcome (Unit {0}))
      → c.Done t r × (c.Live d.inner → c.Final r)
      → c.Fault
      → Completes c e d t task alt
          (o >>= λ u. n.drop_task tr.next_task >>= λ v. returns (fallback r (switch_off w) x))
  dropped-Completes r w x panics done fault = fault
  dropped-Completes r w x (returns u) done fault =
      fallback-Completes r w x (n.drop_task tr.next_task) done fault (λ h. inl h)

  refused-Completes :
      (r : k.TaskResult) (ns : RadioDriver W n) (w : W) (x : RadioTaskError n)
      → c.Done t r × (c.Live d.inner → c.Final r)
      → Enters e tr.next_task (returns (ns, err x))
      → Completes c e d t task alt (after_cleanup this next switch_off tr r ns (err x) (w, ok tt))
  refused-Completes r ns w x done (inl (taken, refused)) =
      rw (taken) (done.0, done.1, (tr.next_task, p.same, inl refused), off_lem w)
  refused-Completes r ns w x done (inr (kept, fault)) =
      rw (kept)
        (fallback-Completes r w x (n.drop_task tr.next_task) done (p.fault_lem fault) (λ h. inl h))

  failed-Completes :
      (r : k.TaskResult) (ns : RadioDriver W n) (entry : Result (Unit {0}) (RadioTaskError n))
      (w : W) (x : RadioTaskError n)
      → c.Fault
      → c.Done t r × (c.Live d.inner → c.Final r)
      → Enters e tr.next_task (returns (ns, entry))
      → Completes c e d t task alt (after_cleanup this next switch_off tr r ns entry (w, err x))
  failed-Completes r ns (ok u) w x fault done enters =
      rw (enters) (fallback-Completes r w x (n.drop_task tr.next_task) done fault (λ h. inl h))
  failed-Completes r ns (err y) w x fault done (inl (taken, refused)) =
      rw (taken) (fallback-Completes r w x (drop_failure y) done fault (λ h. inr (y, refused, h)))
  failed-Completes r ns (err y) w x fault done (inr (kept, lost)) =
      rw (kept) (dropped-Completes r w x (drop_failure y) done fault)

  after_cleanup-Completes :
      (r : k.TaskResult) (ns : RadioDriver W n) (entry : Result (Unit {0}) (RadioTaskError n))
      (o : Outcome (W × Result (Unit {0}) (RadioTaskError n)))
      → Hooked c.Fault o
      → c.Done t r × (c.Live d.inner → c.Final r)
      → Enters e tr.next_task (returns (ns, entry))
      → Completes c e d t task alt (o >>= after_cleanup this next switch_off tr r ns entry)
  after_cleanup-Completes r ns entry panics fault done enters = fault
  after_cleanup-Completes r ns entry (returns (w, err x)) fault done enters =
      failed-Completes r ns entry w x fault done enters
  after_cleanup-Completes r ns (ok u) (returns (w, ok v)) h done enters =
      (done.0, done.1, (tr.next_task, enters, p.same))
  after_cleanup-Completes r ns (err x) (returns (w, ok v)) h done enters =
      refused-Completes r ns w x done enters

  after_entry-Completes :
      (r : k.TaskResult) (o : Outcome (RadioDriver W n × Result (Unit {0}) (RadioTaskError n)))
      → c.Done t r × (c.Live d.inner → c.Final r)
      → Enters e tr.next_task o
      → Completes c e d t task alt (o >>= after_entry this next switch_off tr r)
  after_entry-Completes r panics done fault = p.fault_lem fault
  after_entry-Completes r (returns (ns, entry)) done enters =
      after_cleanup-Completes r ns entry (tr.cleanup ns.inner) (p.cleanup_lem ns.inner) done enters

  -- What is rolled back, after the cleanup.
  dropped-rollback :
      (d' : RadioDriver W k) (x : RadioTaskError k) (r : Option k.TaskResult)
      (o : Outcome (Unit {0}))
      → (o ≡ panics → c.Fault)
      → Completes c e d t task alt (returns (rollback d' x r tr.next_task))
      → Completes c e d t task alt (o >>= λ u. returns (rollback d' x r tr.next_task))
  dropped-rollback d' x r panics fault h = fault refl
  dropped-rollback d' x r (returns u) fault h = h

  after_rollback-Completes :
      (d' : RadioDriver W k) (x : RadioTaskError k) (r : Option k.TaskResult)
      (o : Outcome (W × Result (Unit {0}) (RadioTaskError n)))
      → Hooked c.Fault o
      → ((w : W)
          → Completes c e d t task alt (returns (rollback (with_inner d' w) x r tr.next_task)))
      → Completes c e d t task alt (o >>= after_rollback this next switch_off tr d' x r)
  after_rollback-Completes d' x r panics fault h = fault
  after_rollback-Completes d' x r (returns (w, ok u)) fault h = h w
  after_rollback-Completes d' x r (returns (w, err y)) fault h =
      dropped-rollback (with_inner d' w) x r (drop_failure y) (λ q. fault) (h w)

  after_exit-Completes :
      (r : k.TaskResult) (x : RadioDriver W k × Result (Unit {0}) SchedulingError)
      → (x.1 ≡ ok tt) ⊎ c.Fault
      → c.Done t r × (c.Live d.inner → c.Final r)
      → Completes c e d t task alt (after_exit this next switch_off tr r x)
  after_exit-Completes r (d', err x) (inl h) done = absurd (grind arith)
  after_exit-Completes r (d', err x) (inr fault) done =
      after_rollback-Completes d' (scheduling x) (some r) (tr.cleanup d'.inner)
        (p.cleanup_lem d'.inner) (λ w. (fault, done.0, p.same))
  after_exit-Completes r (d', ok u) h done =
      after_entry-Completes r
        (next.transition (record { inner = d'.inner; task = some tr.next_task })) done
        (lawful_next.transition_lem _ tr.next_task refl)

  after_complete-Completes :
      (d' : RadioDriver W k) (r : k.TaskResult)
      (o : Outcome (W × Result (Unit {0}) SchedulingError))
      → Hooked c.Fault o
      → c.Done t r × (c.Live d.inner → c.Final r)
      → Completes c e d t task alt (o >>= after_complete this next switch_off tr d' r)
  after_complete-Completes d' r panics fault done = fault
  after_complete-Completes d' r (returns (w, err x)) fault done = (fault, done.0, p.same)
  after_complete-Completes d' r (returns (w, ok u)) h done =
      after_exit-Completes r (this.exit (with_inner d' w)) (lawful.exit_lem (with_inner d' w)) done

  after_run-Completes :
      (w : W) (o : Outcome (RadioDriver W k × Result k.TaskResult (RadioTaskError k)))
      → (c.Live d.inner → c.Live w)
      → Runs c w t alt o
      → Completes c e d t task alt (o >>= after_run this next switch_off tr)
  after_run-Completes w panics live fault = fault
  after_run-Completes w (returns (d', ok r)) live done =
      after_complete-Completes d' r (tr.on_task_complete d'.inner) (p.completed_lem d'.inner)
        (done.0, λ l. done.1 (live l))
  after_run-Completes w (returns (d', err x)) live undone =
      after_rollback-Completes d' x none (tr.cleanup d'.inner) (p.cleanup_lem d'.inner)
        (λ w'. (undone.0, undone.1, p.same))

  after_scheduled-Completes :
      (o : Outcome (W × Result (Unit {0}) SchedulingError))
      → Scheduled c e tr.from_radio.inner o
      → d.task ≡ some t
      → Completes c e d t task alt (o >>= after_scheduled this next switch_off tr)
  after_scheduled-Completes panics fault held = fault
  after_scheduled-Completes (returns (w, err x)) fault held =
      (ap (λ (r : RadioDriver W k). r.task) p.from ∙ held, inr fault, p.same)
  after_scheduled-Completes (returns (w, ok u)) live held =
      after_run-Completes w (this.run (with_inner tr.from_radio w) tr.alt_outcome_is_error)
        (λ l. live (subst (λ (r : RadioDriver W k). c.Live r.inner) (sym p.from) l))
        (subst
          (λ (b : Bool).
            Runs c w t b (this.run (with_inner tr.from_radio w) tr.alt_outcome_is_error))
          p.alt_lem
          (lawful.run_lem (with_inner tr.from_radio w) t tr.alt_outcome_is_error
            (ap (λ (r : RadioDriver W k). r.task) p.from ∙ held)))

  -- Of states that keep the promises of their tasks or fail, a transition that is prepared for a task
  -- and whose hooks may fail. It enters the state of the next task with the result of the old one; or
  -- it stays in the old state, for an error of the old task, and gives the next task back; or it
  -- switches off, as the next state has refused its task. Where the radio fails it may also panic, be
  -- rolled back with a result, or switch off if nothing that is then dropped is a buffer.
  pub execute_external-Completes :
      d.task ≡ some t → Completes c e d t task alt (execute_external this next switch_off tr)
  unfolding execute_external
  execute_external-Completes held =
      after_scheduled-Completes (tr.on_scheduled tr.from_radio.inner)
        (p.scheduled_lem tr.from_radio.inner) held

-- The same for a transition of a state to itself.
module _ {W : Type 0} {k : RadioTask} {c : Contract W k} (this : RadioState W k)
    (switch_off : W → RadioDriver W off_task)
    (off_lem : (w : W) → (o : TaskOff) × ((switch_off w).task ≡ some o))
    (lawful : LawfulState c this) (d : RadioDriver W k) (t : k.Task) (task : k.Task) (alt : Bool)
    (tr : RadioTransition W k k) (p : Prepared c c d task alt tr) where
  self_fallback-Completes :
      (r : k.TaskResult) (w : W) (x : RadioTaskError k) (o : Outcome (Unit {0}))
      → c.Done t r × (c.Live d.inner → c.Final r)
      → c.Fault
      → (o ≡ returns tt → Disposed c tr.next_task)
      → Completes c c d t task alt (o >>= λ u. returns (fallback r (switch_off w) x))
  self_fallback-Completes r w x panics done fault disposed = fault
  self_fallback-Completes r w x (returns u) done fault disposed =
      (done.0, done.1, (tr.next_task, p.same, inr (fault, disposed refl)), off_lem w)

  self_after_cleanup-Completes :
      (d' : RadioDriver W k) (r : k.TaskResult)
      (o : Outcome (W × Result (Unit {0}) (RadioTaskError k)))
      → Hooked c.Fault o
      → c.Done t r × (c.Live d.inner → c.Final r)
      → Completes c c d t task alt (o >>= self_after_cleanup this switch_off tr d' r)
  self_after_cleanup-Completes d' r panics fault done = fault
  self_after_cleanup-Completes d' r (returns (w, err x)) fault done =
      self_fallback-Completes r w x (k.drop_task tr.next_task) done fault (λ h. inl h)
  self_after_cleanup-Completes d' r (returns (w, ok u)) h done =
      (done.0, done.1, (tr.next_task, refl, p.same))

  self_after_complete-Completes :
      (d' : RadioDriver W k) (r : k.TaskResult)
      (o : Outcome (W × Result (Unit {0}) SchedulingError))
      → Hooked c.Fault o
      → c.Done t r × (c.Live d.inner → c.Final r)
      → Completes c c d t task alt (o >>= self_after_complete this switch_off tr d' r)
  self_after_complete-Completes d' r panics fault done = fault
  self_after_complete-Completes d' r (returns (w, err x)) fault done = (fault, done.0, p.same)
  self_after_complete-Completes d' r (returns (w, ok u)) h done =
      self_after_cleanup-Completes d' r (tr.cleanup w) (p.cleanup_lem w) done

  self_dropped-rollback :
      (d' : RadioDriver W k) (x : RadioTaskError k) (o : Outcome (Unit {0}))
      → c.Fault
      → Completes c c d t task alt (returns (rollback d' x none tr.next_task))
      → Completes c c d t task alt (o >>= λ u. returns (rollback d' x none tr.next_task))
  self_dropped-rollback d' x panics fault h = fault
  self_dropped-rollback d' x (returns u) fault h = h

  self_after_rollback-Completes :
      (d' : RadioDriver W k) (x : RadioTaskError k)
      (o : Outcome (W × Result (Unit {0}) (RadioTaskError k)))
      → Hooked c.Fault o
      → (d'.task ≡ some t) × (c.Undone alt t x ⊎ c.Fault)
      → Completes c c d t task alt (o >>= self_after_rollback this switch_off tr d' x)
  self_after_rollback-Completes d' x panics fault h = fault
  self_after_rollback-Completes d' x (returns (w, ok u)) fault h = (h.0, h.1, p.same)
  self_after_rollback-Completes d' x (returns (w, err y)) fault h =
      self_dropped-rollback (with_inner d' w) x (drop_failure y) fault (h.0, h.1, p.same)

  self_after_run-Completes :
      (w : W) (o : Outcome (RadioDriver W k × Result k.TaskResult (RadioTaskError k)))
      → (c.Live d.inner → c.Live w)
      → Runs c w t alt o
      → Completes c c d t task alt (o >>= self_after_run this switch_off tr)
  self_after_run-Completes w panics live fault = fault
  self_after_run-Completes w (returns (d', ok r)) live done =
      self_after_complete-Completes d' r (tr.on_task_complete d'.inner) (p.completed_lem d'.inner)
        (done.0, λ l. done.1 (live l))
  self_after_run-Completes w (returns (d', err x)) live undone =
      self_after_rollback-Completes d' x (tr.cleanup d'.inner) (p.cleanup_lem d'.inner) undone

  self_after_scheduled-Completes :
      (o : Outcome (W × Result (Unit {0}) SchedulingError))
      → Scheduled c c tr.from_radio.inner o
      → d.task ≡ some t
      → Completes c c d t task alt (o >>= self_after_scheduled this switch_off tr)
  self_after_scheduled-Completes panics fault held = fault
  self_after_scheduled-Completes (returns (w, err x)) fault held =
      (ap (λ (r : RadioDriver W k). r.task) p.from ∙ held, inr fault, p.same)
  self_after_scheduled-Completes (returns (w, ok u)) live held =
      self_after_run-Completes w (this.run (with_inner tr.from_radio w) tr.alt_outcome_is_error)
        (λ l. live (subst (λ (r : RadioDriver W k). c.Live r.inner) (sym p.from) l))
        (subst
          (λ (b : Bool).
            Runs c w t b (this.run (with_inner tr.from_radio w) tr.alt_outcome_is_error))
          p.alt_lem
          (lawful.run_lem (with_inner tr.from_radio w) t tr.alt_outcome_is_error
            (ap (λ (r : RadioDriver W k). r.task) p.from ∙ held)))

  pub execute_self-Completes :
      d.task ≡ some t → Completes c c d t task alt (execute_self this switch_off tr)
  unfolding execute_self
  execute_self-Completes held =
      self_after_scheduled-Completes (tr.on_scheduled tr.from_radio.inner)
        (p.scheduled_lem tr.from_radio.inner) held
