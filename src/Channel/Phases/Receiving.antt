-- ===== src/Channel/Phases/Receiving.antt =====
-- Reception of a request: `State::try_receive` in dot15d4-util/src/sync/channel/state.rs.
use dot15d.Base.{
  ℕ, suc, ◌<◌, ◌≡◌, Bool, true, false, List, [], ◌∷◌, ◌++◌, Option, none, some, length, contains,
  append_nil, ltb, Bool-cases, inl, inr, subst, arith, refl, sym, ap, ◌∙◌, Outcome, returns, panics,
  contains-append, append_assoc, length-append, erase_at-append, get_elem?, get_elem?-append,
  contains-erase_at, All, All-append,
}
use dot15d.Channel.{Params, Message, request, response, State, requests_of}
use dot15d.Channel.Removal.Erases.{remove-erase_at}
use dot15d.Channel.Slots.{take_request, receive_loop, try_receive}
use dot15d.Channel.Phases.{
  Mode, pending, receiving, contents, a_request, InPhase, WellFormed, Moved,
}
use dot15d.Channel.Phases.Moving.{update-same, update-other, IsQueue-erase_at, InPhase-pending}

-- Whether the message is a request for the address.
abbrev pub is_for : (p : Params) → p.Address → Option (Message p) → Bool
is_for p address none = false
is_for p address (some (response _)) = false
is_for p address (some (request req)) = p.matches req address

contents-a_request :
    {p : Params} (message : Option (Message p))
    → contents message ≡ a_request
    → (req : p.Request) × (message ≡ some (request req))
contents-a_request none h = absurd (grind arith)
contents-a_request (some (request req)) h = (req, refl)
contents-a_request (some (response resp)) h = absurd (grind arith)

module _ {p : Params} where
  -- What a reception answers: the first of the pending requests that is for the address; the
  -- others stay pending in their order, and the slot is being received.
  abbrev pub Receives : State p → p.Address → Outcome (State p × Option (ℕ × p.Request)) → Type 0
  Receives s address panics = ⊥
  Receives s address (returns (s', none)) =
      (s' ≡ s) × All (λ k. is_for p address (s.messages k) ≡ false) (requests_of s)
  Receives s address (returns (s', some (k, req))) =
      (before : List ℕ) × (after : List ℕ) × (m : Mode) × (requests_of s ≡ before ++ (k ∷ after))
      × (requests_of s' ≡ before ++ after)
      × All (λ j. is_for p address (s.messages j) ≡ false) before
      × (s.messages k ≡ some (request req))
      × (p.matches req address ≡ true)
      × (k < p.messages)
      × InPhase s k (pending m)
      × Moved s s' k (receiving m)

  take_request-Receives :
      (s : State p) (address : p.Address) (k : ℕ) (req : p.Request) (before after : List ℕ)
      (m : Mode)
      → WellFormed s
      → requests_of s ≡ before ++ (k ∷ after)
      → All (λ j. is_for p address (s.messages j) ≡ false) before
      → s.messages k ≡ some (request req)
      → p.matches req address ≡ true
      → k < p.messages
      → InPhase s k (pending m)
      → Receives s address (take_request s (length before) k req)
  take_request-Receives s address k req before after m w e none_before at_k for_it h ph =
      let here : get_elem? (requests_of s) (length before) ≡ some k =
        rw (e) (get_elem?-append before k after) in
      let room : length before < length (requests_of s) =
        rw (e) (omega (arith, length-append before (k ∷ after))) in
      let removed = remove-erase_at p.slot_deque s.pending_requests (length before) room in
      let left = removed.2 in
      rw (removed.1) (
        before,
        after,
        m,
        e,
        left ∙ rw (e) (erase_at-append before k after),
        none_before,
        at_k,
        for_it,
        h,
        ph,
        record {
          moved = (
            ph.0,
            ap contents (update-same s.messages k none),
            ph.2,
            rw (left) (
                contains-erase_at (requests_of s) (length before) k k w.requests.0 here
                ∙ ground arith),
            ph.4,
          );
          others = λ j hj other. (
            refl,
            update-other s.messages k j none other,
            refl,
            rw (left) (
                contains-erase_at (requests_of s) (length before) k j w.requests.0 here
                ∙ rw (other) refl),
            refl,
          );
          requests =
              rw (left)
                (IsQueue-erase_at p.messages (requests_of s) (length before) k w.requests here);
          responses = w.responses;
        },
      )

  receive_loop-Receives :
      (s : State p) (address : p.Address) (i : ℕ) (before rest : List ℕ)
      → WellFormed s
      → length before ≡ i
      → requests_of s ≡ before ++ rest
      → All (λ j. is_for p address (s.messages j) ≡ false) before
      → Receives s address (receive_loop s address i rest)
  receive_loop-Receives s address i before [] w n e none_before = (
    refl,
    subst (All (λ k. is_for p address (s.messages k) ≡ false)) (sym (e ∙ append_nil before))
        none_before,
  )
  receive_loop-Receives s address i before (k ∷ rest) w n e none_before =
      let listed : contains (requests_of s) k ≡ true =
        rw (e) (ground (arith, contains-append before (k ∷ rest) k)) in
      let h = w.requests.1 k listed in
      let phase = w.phase k h in
      let ph = InPhase-pending s k phase.0 phase.1 listed in
      let held = contents-a_request (s.messages k) ph.1.1 in
      let in_range : ltb k p.messages ≡ true = ground arith in
      elim (Bool-cases (p.matches held.0 address)) [
        | inl e' ↦
            rw (in_range, held.1, e')
              (subst (λ (n : ℕ). Receives s address (take_request s n k held.0)) n
                (take_request-Receives s address k held.0 before rest ph.0 w e none_before held.1 e'
                  h ph.1))
        | inr e' ↦
            rw (in_range, held.1, e')
              (receive_loop-Receives s address (suc i) (before ++ (k ∷ [])) rest w
                (omega (arith, length-append before (k ∷ [])))
                (e ∙ sym (append_assoc before (k ∷ []) rest))
                (All-append (λ j. is_for p address (s.messages j) ≡ false) before (k ∷ [])
                  none_before (rw (held.1) e', tt)))
      ]

  -- In a well-formed state `try_receive` does not panic. It answers the first pending request,
  -- in the order of sending, that matches the address: its slot alone moves, to being received,
  -- and the other requests stay queued in their order. If none matches, the state is as it was.
  pub try_receive-Receives :
      (s : State p) (address : p.Address)
      → WellFormed s
      → Receives s address (try_receive s address)
  unfolding try_receive
  try_receive-Receives s address w =
      receive_loop-Receives s address 0 [] (requests_of s) w refl refl tt
