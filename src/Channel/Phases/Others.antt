-- ===== src/Channel/Phases/Others.antt =====
-- The wakers of the other slots when the first slot of a wait is answered:
-- dot15d4-util/src/sync/channel/sender.rs.
use dot15d.Base.{
  ℕ, ◌<◌, ◌≡◌, true, false, List, [], ◌∷◌, ◌++◌, Option, none, some, contains, ◌==◌, ltb, subst,
  arith, sym, ◌∙◌, Outcome, returns, panics, ◌>>=◌, get_elem?, All,
}
use dot15d.Containers.{TokenVec}
use dot15d.Channel.{Params, State, responses_of, at}
use dot15d.Channel.Slots.{try_poll_response}
use dot15d.Channel.Sender.{MatchingResponse, registered, finish_wait, wait_for_response}
use dot15d.Channel.Phases.{available, WellFormed, Moved}
use dot15d.Channel.Phases.Polling.{PollsAny, try_poll_response-PollsAny}
use dot15d.Channel.Phases.Sending.{stage-idle}

module _ {p : Params} where
  module _ (api : TokenVec) where
    -- A wait that answers for the first slot, with the states of all other slots as they were.
    abbrev pub LeavesOthers :
        State p → ℕ → Outcome (State p × api.Vec × Option (MatchingResponse p.Response)) → Type 0
    LeavesOthers s first panics = ⊥
    LeavesOthers s first (returns (s', tokens', none)) = ⊥
    LeavesOthers s first (returns (s', tokens', some found)) =
        (found.msg_slot ≡ first)
        × ((j : ℕ) → j < p.messages → (j == first) ≡ false → s'.slot_state j ≡ s.slot_state j)

    first_found-LeavesOthers :
        (s s₁ : State p) (tokens : api.Vec) (waker first idx : ℕ) (resp : p.Response)
        → first < p.messages
        → get_elem? (api.to_list tokens) idx ≡ some first
        → Moved s s₁ first available
        → LeavesOthers s first (
            at p.messages s₁.slot_state first >>= λ state.
            finish_wait api tokens waker (s₁, some (idx, resp)) (registered state))
    first_found-LeavesOthers s s₁ tokens waker first idx resp h at_idx m =
        let in_range : ltb first p.messages ≡ true = ground arith in
        rw (in_range, stage-idle (s₁.slot_state first) m.moved.2)
          (
            api.swap_remove_unchecked-get_elem? tokens idx first at_idx,
            λ j hj other. (m.others j hj other).2,
          )

    oldest-LeavesOthers :
        (s : State p) (tokens : api.Vec) (waker first : ℕ) (rest after : List ℕ)
        → api.to_list tokens ≡ first ∷ rest
        → responses_of s ≡ first ∷ after
        → (o : Outcome (State p × Option (ℕ × p.Response))) → PollsAny s (api.to_list tokens) o
        → LeavesOthers s first (
            o >>= λ polled. at p.messages polled.0.slot_state first >>= λ state.
            finish_wait api tokens waker polled (registered state))
    oldest-LeavesOthers s tokens waker first rest after e r panics q = q
    oldest-LeavesOthers s tokens waker first rest after e r (returns (s₁, none)) q =
        let all = subst (All (λ k. contains (api.to_list tokens) k ≡ false)) r q.1 in
        let listed : contains (api.to_list tokens) first ≡ true = rw (e) (ground arith) in
        absurd (ground (arith, listed, all.0))
    oldest-LeavesOthers s tokens waker first rest after e r (returns (s₁, some (idx, resp)))
          (k, [], after', eq, e', none_before, at_idx, held, h, ph, m, woken) =
        let lists : k ∷ after' ≡ first ∷ after = sym eq ∙ r in
        let same : k ≡ first = grind arith in
        subst
          (λ (i : ℕ). LeavesOthers s i (
            at p.messages s₁.slot_state i >>= λ state.
            finish_wait api tokens waker (s₁, some (idx, resp)) (registered state)))
          same (first_found-LeavesOthers s s₁ tokens waker k idx resp h at_idx m)
    oldest-LeavesOthers s tokens waker first rest after e r (returns (s₁, some (idx, resp)))
          (k, b ∷ before, after', eq, e', none_before, at_idx, held, h, ph, m, woken) =
        let lists : b ∷ (before ++ (k ∷ after')) ≡ first ∷ after = sym eq ∙ r in
        let same : b ≡ first = grind arith in
        let listed : contains (api.to_list tokens) first ≡ true = rw (e) (ground arith) in
        absurd (
          ground (
            arith,
            subst (λ (i : ℕ). contains (api.to_list tokens) i ≡ false) same none_before.0,
            listed,
          ))

    -- When the oldest response is for the first of the tokens, `wait_for_response` answers it
    -- and leaves the states of all other slots as they were, the wakers in them included.
    pub wait_for_response-LeavesOthers :
        (s : State p) (tokens : api.Vec) (waker first : ℕ) (rest after : List ℕ)
        → WellFormed s
        → api.to_list tokens ≡ first ∷ rest
        → responses_of s ≡ first ∷ after
        → LeavesOthers s first (wait_for_response api s tokens waker)
    unfolding wait_for_response
    wait_for_response-LeavesOthers s tokens waker first rest after w e r = rw (e) (
        subst
          (λ (slots : List ℕ). LeavesOthers s first (
            try_poll_response s slots >>= λ polled.
            at p.messages polled.0.slot_state first >>= λ state.
            finish_wait api tokens waker polled (registered state)))
          e
          (oldest-LeavesOthers s tokens waker first rest after e r
            (try_poll_response s (api.to_list tokens))
            (try_poll_response-PollsAny s (api.to_list tokens) w)))
