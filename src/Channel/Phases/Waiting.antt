-- ===== src/Channel/Phases/Waiting.antt =====
-- Waiting for a response in any of several slots: `wait_for_response` and `try_receive_response` in
-- dot15d4-util/src/sync/channel/sender.rs.
use dot15d.Base.{
  ℕ, suc, ◌<◌, ◌≡◌, true, false, List, [], ◌∷◌, ◌++◌, Option, none, some, length, contains, ltb,
  subst, arith, refl, ap, ◌∙◌, Outcome, returns, panics, ◌>>=◌, All, contains-get_elem?,
  length-get_elem?,
}
use dot15d.Containers.{TokenVec}
use dot15d.Channel.{Params, response, State, responses_of, at}
use dot15d.Channel.Slots.{try_poll_response}
use dot15d.Channel.Sender.{
  MatchingResponse, without_waker, with_waker, registered, deregister_wakers, register_wakers,
  matched_or_none, finish_wait, poll_tokens, wait_for_response, try_receive_response,
}
use dot15d.Channel.Phases.{available, answered_polling, InPhase, WellFormed}
use dot15d.Channel.Phases.Moving.{Moved-WellFormed}
use dot15d.Channel.Phases.Polling.{PollsAny, try_poll_response-PollsAny}
use dot15d.Channel.Phases.Mapping.{
  Mapped, Mapped-InPhase, map_slot_states-Mapped, Mapped-WellFormed, without_waker-idempotent,
  with_waker-idempotent, stage-without_waker, stage-with_waker,
}

nothing-listed :
    (xs : List ℕ) (slots : List ℕ) → slots ≡ [] → All (λ k. contains slots k ≡ false) xs
nothing-listed [] slots e = tt
nothing-listed (x ∷ xs) slots e = (rw (e) refl, nothing-listed xs slots e)

module _ {p : Params} where
  -- What the two calls answer when a response is found: the oldest one that is in a slot of the
  -- tokens, with that slot, whose token is consumed.
  abbrev pub MatchesToken :
      (api : TokenVec)
      → State p
      → api.Vec
      → State p
      → api.Vec
      → MatchingResponse p.Response
      → Type 0
  MatchesToken api s tokens s' tokens' found =
      (before : List ℕ) × (after : List ℕ) × (responses_of s ≡ before ++ (found.msg_slot ∷ after))
      × All (λ j. contains (api.to_list tokens) j ≡ false) before
      × (contains (api.to_list tokens) found.msg_slot ≡ true)
      × (s.messages found.msg_slot ≡ some (response found.response))
      × InPhase s found.msg_slot answered_polling
      × InPhase s' found.msg_slot available
      × (responses_of s' ≡ before ++ after)
      × (suc (length (api.to_list tokens')) ≡ length (api.to_list tokens))
      × WellFormed s'

  -- The poll keeps its waker in every slot of the tokens that is polled for, unless the first has
  -- one already.
  abbrev pub RegistersAt : State p → State p → ℕ → List ℕ → Option ℕ → Type 0
  RegistersAt s s' waker slots none = Mapped (with_waker waker) slots s s'
  RegistersAt s s' waker slots (some _) = s' ≡ s

  abbrev pub Registers : State p → State p → ℕ → List ℕ → Type 0
  Registers s s' waker [] = s' ≡ s
  Registers s s' waker (first ∷ rest) =
      RegistersAt s s' waker (first ∷ rest) (registered (s.slot_state first))

  module _ (api : TokenVec) where
    abbrev pub Collects :
        State p
        → api.Vec
        → Outcome (State p × api.Vec × Option (MatchingResponse p.Response))
        → Type 0
    Collects s tokens panics = ⊥
    Collects s tokens (returns (s', tokens', none)) =
        (s' ≡ s)
        × (tokens' ≡ tokens)
        × All (λ k. contains (api.to_list tokens) k ≡ false) (responses_of s)
    Collects s tokens (returns (s', tokens', some found)) =
        MatchesToken api s tokens s' tokens' found

    matched-MatchesToken :
        (s s₁ s' : State p) (tokens : api.Vec) (idx : ℕ) (resp : p.Response)
        → WellFormed s
        → PollsAny s (api.to_list tokens) (returns (s₁, some (idx, resp)))
        → WellFormed s'
        → responses_of s' ≡ responses_of s₁
        → ((k : ℕ) → InPhase s₁ k available → InPhase s' k available)
        → MatchesToken api s tokens s'
            (api.swap_remove_unchecked tokens idx).0
            (record { msg_slot = (api.swap_remove_unchecked tokens idx).1; response = resp })
    matched-MatchesToken s s₁ s' tokens idx resp w
          (k, before, after, e, e', first, at_idx, held, h, ph, m, woken) w' same kept =
        rw (api.swap_remove_unchecked-get_elem? tokens idx k at_idx) (
          before,
          after,
          e,
          first,
          contains-get_elem? (api.to_list tokens) idx k at_idx,
          held,
          ph,
          kept k m.moved,
          same ∙ e',
          api.length-swap_remove_unchecked tokens idx
              (length-get_elem? (api.to_list tokens) idx k at_idx),
          w',
        )

    found-Collects :
        (s : State p) (tokens : api.Vec) (polled : State p × Option (ℕ × p.Response))
        → WellFormed s
        → PollsAny s (api.to_list tokens) (returns polled)
        → Collects s tokens (returns (matched_or_none api tokens polled))
    found-Collects s tokens (s₁, none) w h = (h.0, refl, h.1)
    found-Collects s tokens (s₁, some (idx, resp)) w
          (k, before, after, e, e', first, at_idx, held, h, ph, m, woken) =
        matched-MatchesToken s s₁ s₁ tokens idx resp w
          (k, before, after, e, e', first, at_idx, held, h, ph, m, woken)
          (Moved-WellFormed s s₁ k available w m) refl (λ j q. q)

    -- In a well-formed state `try_receive_response` does not panic. It answers the oldest
    -- response that is in a slot of one of the tokens, with that slot, which becomes
    -- available, and consumes one token; the other responses stay queued in their order. If
    -- there is none, nothing changes.
    pub try_receive_response-Collects :
        (s : State p) (tokens : api.Vec)
        → WellFormed s
        → Collects s tokens (try_receive_response api s tokens)
    unfolding try_receive_response
    try_receive_response-Collects s tokens w =
        go (try_poll_response s (api.to_list tokens))
          (try_poll_response-PollsAny s (api.to_list tokens) w)
      where
        go :
            (o : Outcome (State p × Option (ℕ × p.Response)))
            → PollsAny s (api.to_list tokens) o
            → Collects s tokens (o >>= λ polled. returns (matched_or_none api tokens polled))
        go panics h = h
        go (returns polled) h = found-Collects s tokens polled w h

    -- What a poll answers while responses are waited for.
    abbrev pub Waits :
        State p
        → api.Vec
        → ℕ
        → Outcome (State p × api.Vec × Option (MatchingResponse p.Response))
        → Type 0
    Waits s tokens waker panics = ⊥
    Waits s tokens waker (returns (s', tokens', some found)) =
        MatchesToken api s tokens s' tokens' found
    Waits s tokens waker (returns (s', tokens', none)) =
        WellFormed s'
        × (tokens' ≡ tokens)
        × All (λ k. contains (api.to_list tokens) k ≡ false) (responses_of s)
        × Registers s s' waker (api.to_list tokens)

    finish_found-Waits :
        (s s₁ : State p) (tokens : api.Vec) (waker idx : ℕ) (resp : p.Response) (o : Option ℕ)
        → WellFormed s
        → All (λ k. k < p.messages) (api.to_list tokens)
        → PollsAny s (api.to_list tokens) (returns (s₁, some (idx, resp)))
        → Waits s tokens waker (finish_wait api tokens waker (s₁, some (idx, resp)) o)
    unfolding deregister_wakers
    finish_found-Waits s s₁ tokens waker idx resp none w r h =
        found-Collects s tokens (s₁, some (idx, resp)) w h
    finish_found-Waits s s₁ tokens waker idx resp (some registered_waker) w r
          (k, before, after, e, e', first, at_idx, held, h, ph, m, woken) =
        let d =
          map_slot_states-Mapped without_waker s₁ (api.to_list tokens) without_waker-idempotent r in
        rw (d.1) (
          matched-MatchesToken s s₁ d.0 tokens idx resp w
            (k, before, after, e, e', first, at_idx, held, h, ph, m, woken)
            (Mapped-WellFormed without_waker (api.to_list tokens) s₁ d.0 stage-without_waker d.2
              (Moved-WellFormed s s₁ k available w m))
            (ap p.slot_deque.to_list d.2.pending_responses)
            (λ j q.
              Mapped-InPhase without_waker (api.to_list tokens) s₁ d.0 j available
                stage-without_waker d.2 q))

    finish_none-Waits :
        (s : State p) (tokens : api.Vec) (waker first : ℕ) (rest : List ℕ) (o : Option ℕ)
        → WellFormed s
        → All (λ k. k < p.messages) (api.to_list tokens)
        → All (λ k. contains (api.to_list tokens) k ≡ false) (responses_of s)
        → api.to_list tokens ≡ first ∷ rest
        → registered (s.slot_state first) ≡ o
        → Waits s tokens waker (finish_wait api tokens waker (s, none) o)
    unfolding register_wakers
    finish_none-Waits s tokens waker first rest (some w₀) w r h e at_first =
        (w, refl, h, rw (e, at_first) refl)
    finish_none-Waits s tokens waker first rest none w r h e at_first =
        let m =
          map_slot_states-Mapped (with_waker waker) s (api.to_list tokens)
            (with_waker-idempotent waker) r in
        rw (m.1) (
          Mapped-WellFormed (with_waker waker) (api.to_list tokens) s m.0 (stage-with_waker waker)
              m.2 w,
          refl,
          h,
          rw (e, at_first)
              (subst (λ (slots : List ℕ). Mapped (with_waker waker) slots s m.0) e m.2),
        )

    polled-Waits :
        (s : State p) (tokens : api.Vec) (waker first : ℕ) (rest : List ℕ)
        → WellFormed s
        → All (λ k. k < p.messages) (api.to_list tokens)
        → api.to_list tokens ≡ first ∷ rest
        → first < p.messages
        → (o : Outcome (State p × Option (ℕ × p.Response))) → PollsAny s (api.to_list tokens) o
        → Waits s tokens waker (
            o >>= λ polled. at p.messages polled.0.slot_state first >>= λ state.
            finish_wait api tokens waker polled (registered state))
    polled-Waits s tokens waker first rest w r e h panics q = q
    polled-Waits s tokens waker first rest w r e h (returns (s₁, none)) q =
        let in_range : ltb first p.messages ≡ true = ground arith in
        rw (in_range, q.0)
          (finish_none-Waits s tokens waker first rest (registered (s.slot_state first)) w r q.1 e
            refl)
    polled-Waits s tokens waker first rest w r e h (returns (s₁, some (idx, resp))) q =
        let in_range : ltb first p.messages ≡ true = ground arith in
        rw (in_range)
          (finish_found-Waits s s₁ tokens waker idx resp (registered (s₁.slot_state first)) w r q)

    -- A poll of `wait_for_response` with tokens for slots of the channel does not panic. It
    -- answers the oldest response in a slot of the tokens; if there is none, and the first
    -- slot has no waker yet, the poll's waker is kept in every slot that is polled for and
    -- has none, so that an answer wakes the task.
    pub wait_for_response-Waits :
        (s : State p) (tokens : api.Vec) (waker : ℕ)
        → WellFormed s
        → All (λ k. k < p.messages) (api.to_list tokens)
        → Waits s tokens waker (wait_for_response api s tokens waker)
    unfolding wait_for_response
    wait_for_response-Waits s tokens waker w r = go (api.to_list tokens) refl
      where
        go :
            (slots : List ℕ)
            → api.to_list tokens ≡ slots
            → Waits s tokens waker (poll_tokens api s tokens waker slots)
        go [] e = (w, refl, nothing-listed (responses_of s) (api.to_list tokens) e, rw (e) refl)
        go (first ∷ rest) e =
            let h : first < p.messages = (subst (All (λ k. k < p.messages)) e r).0 in
            polled-Waits s tokens waker first rest w r e h (try_poll_response s (first ∷ rest)) (
              subst
                (λ (slots : List ℕ). PollsAny s (api.to_list tokens) (try_poll_response s slots)) e
                (try_poll_response-PollsAny s (api.to_list tokens) w))
