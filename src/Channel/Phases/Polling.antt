-- ===== src/Channel/Phases/Polling.antt =====
-- A sender that polls for responses: `try_poll_response` in
-- dot15d4-util/src/sync/channel/state.rs.
use dot15d.Base.{
  ℕ, suc, ◌+◌, ◌<◌, ◌≡◌, true, false, List, [], ◌∷◌, ◌++◌, Option, none, some, length, contains,
  append_nil, ◌==◌, ltb, Bool-cases, inl, inr, ◌⊎◌, subst, arith, refl, sym, ap, ◌∙◌, Outcome,
  returns, panics, contains-append, append_assoc, length-append, erase_at, erase_at-append,
  get_elem?, get_elem?-append, contains-erase_at, All, All-append,
}
use dot15d.Channel.{Params, response, unused, response_available, State, responses_of, waiting_of}
use dot15d.Channel.Removal.Erases.{remove-erase_at}
use dot15d.Channel.Slots.{find_slot, poll_available, poll_loop, try_poll_response}
use dot15d.Channel.Phases.{available, answered_polling, InPhase, WellFormed, Moved}
use dot15d.Channel.Phases.Moving.{
  update-same, update-other, IsQueue-erase_at, InPhase-answered_polling,
}
use dot15d.Channel.Phases.Allocation.{WakesLast}
use dot15d.Channel.Phases.Collecting.{
  contents-a_response, stage-at_response, Freed, free_slot-Freed,
}

-- The slot that is found, and where.
find_slot_cases :
    (i : ℕ) (slots : List ℕ) (k : ℕ)
    → ((find_slot i slots k ≡ none) × (contains slots k ≡ false))
      ⊎ ((idx : ℕ) × (find_slot i slots k ≡ some (i + idx, k)) × (get_elem? slots idx ≡ some k))
find_slot_cases i [] k = inl (refl, refl)
find_slot_cases i (x ∷ xs) k = elim (Bool-cases (k == x)) [
  | inl e ↦
      let same : x ≡ k = ground arith in
      inr (0, rw (e, same) (ap some (ap (λ (n : ℕ). (n, k)) (omega arith))), ap some same)
  | inr e ↦ elim (find_slot_cases (suc i) xs k) [
    | inl h ↦ inl (rw (e) h.0, ground (arith, h.1))
    | inr h ↦ inr (suc h.0, rw (e) (h.1 ∙ ap some (ap (λ (n : ℕ). (n, k)) (omega arith))), h.2)
  ]
]

module _ {p : Params} where
  -- What a poll for a response in any of the given slots answers: the oldest of the responses that
  -- are in one of them, with its index. The others stay, in their order.
  abbrev pub PollsAny : State p → List ℕ → Outcome (State p × Option (ℕ × p.Response)) → Type 0
  PollsAny s slots panics = ⊥
  PollsAny s slots (returns (s', none)) =
      (s' ≡ s) × All (λ k. contains slots k ≡ false) (responses_of s)
  PollsAny s slots (returns (s', some (idx, resp))) =
      (k : ℕ) × (before : List ℕ) × (after : List ℕ) × (responses_of s ≡ before ++ (k ∷ after))
      × (responses_of s' ≡ before ++ after)
      × All (λ j. contains slots j ≡ false) before
      × (get_elem? slots idx ≡ some k)
      × (s.messages k ≡ some (response resp))
      × (k < p.messages)
      × InPhase s k answered_polling
      × Moved s s' k available
      × WakesLast (waiting_of s) s.woken (waiting_of s') s'.woken

  Freed-removed-Moved :
      (s s' : State p) (k i : ℕ) (responses : p.slot_deque.Deque)
      → WellFormed s
      → k < p.messages
      → InPhase s k answered_polling
      → Freed s s' k
      → get_elem? (responses_of s) i ≡ some k
      → p.slot_deque.to_list responses ≡ erase_at i (responses_of s)
      → Moved s (record s' { pending_responses = responses }) k available
  Freed-removed-Moved s s' k i responses w h ph f here left = record {
    moved = (
      f.bit k h ∙ ground arith,
      rw (f.messages, update-same s.messages k none) refl,
      rw (f.slot_state, update-same s.slot_state k unused) refl,
      rw (f.pending_requests) ph.3,
      rw (left) (contains-erase_at (responses_of s) i k k w.responses.0 here ∙ ground arith),
    );
    others = λ j hj other. (
      f.bit j hj ∙ rw (other) refl,
      rw (f.messages) (update-other s.messages k j none other),
      rw (f.slot_state) (update-other s.slot_state k j unused other),
      rw (f.pending_requests) refl,
      rw (left) (contains-erase_at (responses_of s) i k j w.responses.0 here ∙ rw (other) refl),
    );
    requests = rw (f.pending_requests) w.requests;
    responses = rw (left) (IsQueue-erase_at p.messages (responses_of s) i k w.responses here);
  }

  poll_found :
      (s : State p) (slots : List ℕ) (k idx : ℕ) (before after : List ℕ)
      → WellFormed s
      → responses_of s ≡ before ++ (k ∷ after)
      → All (λ j. contains slots j ≡ false) before
      → get_elem? slots idx ≡ some k
      → k < p.messages
      → InPhase s k answered_polling
      → PollsAny s slots (poll_available s (length before) (idx, k) response_available)
  poll_found s slots k idx before after w e none_before at_idx h ph =
      let held = contents-a_response (s.messages k) ph.1 in
      let freed = free_slot-Freed s k held.0 h held.1 in
      let here : get_elem? (responses_of s) (length before) ≡ some k =
        rw (e) (get_elem?-append before k after) in
      let room : length before < length (responses_of s) =
        rw (e) (omega (arith, length-append before (k ∷ after))) in
      let removed = remove-erase_at p.slot_deque s.pending_responses (length before) room in
      rw (freed.1, freed.2.pending_responses, removed.1)
        (
          k,
          before,
          after,
          e,
          removed.2 ∙ rw (e) (erase_at-append before k after),
          none_before,
          at_idx,
          held.1,
          h,
          ph,
          Freed-removed-Moved s freed.0 k (length before) removed.0 w h ph freed.2 here removed.2,
          freed.2.oldest,
        )

  poll_loop-PollsAny :
      (s : State p) (slots : List ℕ) (i : ℕ) (before rest : List ℕ)
      → WellFormed s
      → length before ≡ i
      → responses_of s ≡ before ++ rest
      → All (λ j. contains slots j ≡ false) before
      → PollsAny s slots (poll_loop s slots i rest)
  poll_loop-PollsAny s slots i before [] w n e none_before =
      (refl, subst (All (λ k. contains slots k ≡ false)) (sym (e ∙ append_nil before)) none_before)
  poll_loop-PollsAny s slots i before (k ∷ rest) w n e none_before =
      let listed : contains (responses_of s) k ≡ true =
        rw (e) (ground (arith, contains-append before (k ∷ rest) k)) in
      let h = w.responses.1 k listed in
      let phase = w.phase k h in
      let ph = InPhase-answered_polling s k phase.0 phase.1 listed in
      let in_range : ltb k p.messages ≡ true = ground arith in
      elim (find_slot_cases 0 slots k) [
        | inl none_found ↦ rw (none_found.0) (
            poll_loop-PollsAny s slots (suc i) (before ++ (k ∷ [])) rest w
              (omega (arith, length-append before (k ∷ [])))
              (e ∙ sym (append_assoc before (k ∷ []) rest))
              (All-append (λ j. contains slots j ≡ false) before (k ∷ []) none_before
                (none_found.1, tt)))
        | inr found ↦
            let idx : 0 + found.0 ≡ found.0 = omega arith in
            rw (found.1, in_range, stage-at_response (s.slot_state k) ph.2, idx)
              (subst
                (λ (n : ℕ). PollsAny s slots (poll_available s n (found.0, k) response_available)) n
                (poll_found s slots k found.0 before rest w e none_before found.2 h ph))
      ]

  pub try_poll_response-PollsAny :
      (s : State p) (slots : List ℕ) → WellFormed s → PollsAny s slots (try_poll_response s slots)
  unfolding try_poll_response
  try_poll_response-PollsAny s slots w =
      poll_loop-PollsAny s slots 0 [] (responses_of s) w refl refl tt
