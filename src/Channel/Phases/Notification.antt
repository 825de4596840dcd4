-- ===== src/Channel/Phases/Notification.antt =====
-- Which consumer a request wakes: the loop at the start of `State::send` in
-- dot15d4-util/src/sync/channel/state.rs.
use dot15d.Base.{
  ℕ, zero, suc, ◌+◌, ◌<◌, ◌≤◌, ◌≡◌, true, false, List, [], ◌∷◌, ◌++◌, Option, none, some, ◌==◌,
  Bool-cases, inl, inr, ◌⊎◌, subst, arith, refl, ap,
}
use dot15d.Channel.{Params, State, update}
use dot15d.Channel.Slots.{listens, wake_entry, wake_consumer}

-- The consumers and the wakers after a search from a number on, for `n` places: the first consumer
-- that listens for the request is woken and its entry cleared, and nothing else changes.
abbrev pub Notifies : (p : Params) → p.Request → ℕ → ℕ → State p → State p → Type 0
Notifies p req from n s s' =
    (((i : ℕ) → from ≤ i → i < from + n → listens p req (s.consumers i) ≡ false) × (s' ≡ s))
    ⊎ ((i : ℕ) × (address : p.Address) × (waker : ℕ) × (i < from + n)
        × (s.consumers i ≡ some (address, waker))
        × (p.matches req address ≡ true)
        × ((j : ℕ) → from ≤ j → j < i → listens p req (s.consumers j) ≡ false)
        × (s'
            ≡ record s { consumers = update s.consumers i none; woken = s.woken ++ (waker ∷ []) }))

module _ {p : Params} where
  entry-Notifies :
      (s : State p) (req : p.Request) (from n : ℕ) (entry : Option (p.Address × ℕ))
      → s.consumers from ≡ entry
      → listens p req entry ≡ true
      → Notifies p req from (suc n) s (wake_entry s from entry)
  entry-Notifies s req from n none e h = absurd (grind arith)
  entry-Notifies s req from n (some (address, waker)) e h =
      inr (from, address, waker, omega arith, e, h, λ j lo hi. absurd (omega arith), refl)

  later-Notifies :
      (s s' : State p) (req : p.Request) (from n : ℕ)
      → listens p req (s.consumers from) ≡ false
      → Notifies p req (suc from) n s s'
      → Notifies p req from (suc n) s s'
  later-Notifies s s' req from n e (inl (h, same)) = inl (
    λ i lo hi. elim (Bool-cases (from == i)) [
      | inl q ↦ subst (λ (k : ℕ). listens p req (s.consumers k) ≡ false) (ground arith) e
      | inr q ↦ h i (ground arith) (omega arith)
    ],
    same,
  )
  later-Notifies s s' req from n e (inr (i, address, waker, hi, entry, m, first, same)) = inr (
    i,
    address,
    waker,
    omega arith,
    entry,
    m,
    λ j lo hj. elim (Bool-cases (from == j)) [
      | inl q ↦ subst (λ (k : ℕ). listens p req (s.consumers k) ≡ false) (ground arith) e
      | inr q ↦ first j (ground arith) hj
    ],
    same,
  )

  pub wake_consumer-Notifies :
      (s : State p) (req : p.Request) (from n : ℕ)
      → Notifies p req from n s (wake_consumer s req from n)
  wake_consumer-Notifies s req from zero = inl (λ i lo hi. absurd (omega arith), refl)
  wake_consumer-Notifies s req from (suc n) = elim (Bool-cases (listens p req (s.consumers from))) [
    | inl e ↦ rw (e) (entry-Notifies s req from n (s.consumers from) refl e)
    | inr e ↦ rw (e) (
        later-Notifies s (wake_consumer s req (suc from) n) req from n e
          (wake_consumer-Notifies s req (suc from) n))
  ]

  -- The fields that no notification changes.
  pub record SameSlots (s s' : State p) : Type 0 where
    pub messages : s'.messages ≡ s.messages
    pub slot_state : s'.slot_state ≡ s.slot_state
    pub msg_available : s'.msg_available ≡ s.msg_available
    pub pending_requests : s'.pending_requests ≡ s.pending_requests
    pub pending_responses : s'.pending_responses ≡ s.pending_responses
    pub backlog : s'.backlog ≡ s.backlog

  SameSlots-refl : (s s' : State p) → s' ≡ s → SameSlots s s'
  SameSlots-refl s s' e = record {
    messages = ap (λ (t : State p). t.messages) e;
    slot_state = ap (λ (t : State p). t.slot_state) e;
    msg_available = ap (λ (t : State p). t.msg_available) e;
    pending_requests = ap (λ (t : State p). t.pending_requests) e;
    pending_responses = ap (λ (t : State p). t.pending_responses) e;
    backlog = ap (λ (t : State p). t.backlog) e;
  }

  SameSlots-update :
      (s s' : State p) (consumers : ℕ → Option (p.Address × ℕ)) (woken : List ℕ)
      → s' ≡ record s { consumers = consumers; woken = woken }
      → SameSlots s s'
  SameSlots-update s s' consumers woken e =
      let r = SameSlots-refl (record s { consumers = consumers; woken = woken }) s' e in
      record {
        messages = r.messages;
        slot_state = r.slot_state;
        msg_available = r.msg_available;
        pending_requests = r.pending_requests;
        pending_responses = r.pending_responses;
        backlog = r.backlog;
      }

  pub Notifies-SameSlots :
      (s s' : State p) (req : p.Request) (from n : ℕ) → Notifies p req from n s s' → SameSlots s s'
  Notifies-SameSlots s s' req from n (inl (h, same)) = SameSlots-refl s s' same
  Notifies-SameSlots s s' req from n (inr (i, address, waker, hi, entry, m, first, same)) =
      SameSlots-update s s' (update s.consumers i none) (s.woken ++ (waker ∷ [])) same
