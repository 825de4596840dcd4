-- ===== src/Channel/Phases/Moving.antt =====
-- Laws of queues of slots and of the phases of slots.
use dot15d.Base.{
  ℕ, ◌<◌, ◌≡◌, true, false, List, [], ◌∷◌, ◌++◌, some, length, contains, ◌==◌, Bool-cases, inl, inr,
  subst, arith, refl, ap, ◌∙◌, length-Distinct, Distinct-append_one, contains-append, erase_at,
  get_elem?, contains-erase_at, Distinct-erase_at,
}
use dot15d.Channel.{update, Params, State, requests_of, responses_of}
use dot15d.Channel.Phases.{
  Mode, Phase, available, allocated, pending, receiving, answered_polling, answered_awaiting,
  contents, stage, is_available, InPhase, IsQueue, WellFormed, Moved,
}

pub update-same : {A : Type 0} (f : ℕ → A) (k : ℕ) (v : A) → update f k v k ≡ v
update-same f k v = let e : (k == k) ≡ true = ground arith in rw (e) refl

pub update-other :
    {A : Type 0} (f : ℕ → A) (k j : ℕ) (v : A) → (j == k) ≡ false → update f k v j ≡ f j
update-other f k j v e = rw (e) refl

pub contains-append_same : (xs : List ℕ) (k : ℕ) → contains (xs ++ (k ∷ [])) k ≡ true
contains-append_same xs k = ground (arith, contains-append xs (k ∷ []) k)

pub contains-append_other :
    (xs : List ℕ) (k j : ℕ) → (j == k) ≡ false → contains (xs ++ (k ∷ [])) j ≡ contains xs j
contains-append_other xs k j e = ground (arith, contains-append xs (k ∷ []) j)

pub IsQueue-append :
    (n : ℕ) (xs : List ℕ) (k : ℕ)
    → IsQueue n xs
    → contains xs k ≡ false
    → k < n
    → IsQueue n (xs ++ (k ∷ []))
IsQueue-append n xs k q e h = (
  Distinct-append_one xs k q.0 e,
  λ j c. elim (Bool-cases (k == j)) [
    | inl same ↦ ground arith
    | inr other ↦ q.1 j (ground (arith, contains-append xs (k ∷ []) j))
  ],
)

pub length-IsQueue :
    (n : ℕ) (xs : List ℕ) (k : ℕ) → IsQueue n xs → contains xs k ≡ false → k < n → length xs < n
length-IsQueue n xs k q e h = omega (
  arith,
  length-Distinct n (k ∷ xs) (e, q.0)
      (λ j c. elim (Bool-cases (k == j)) [
        | inl same ↦ ground arith
        | inr other ↦ q.1 j (ground arith)
      ]),
)

pub IsQueue-erase_at :
    (n : ℕ) (xs : List ℕ) (i k : ℕ)
    → IsQueue n xs
    → get_elem? xs i ≡ some k
    → IsQueue n (erase_at i xs)
IsQueue-erase_at n xs i k q e =
    (Distinct-erase_at xs i q.0, λ j c. q.1 j (ground (arith, contains-erase_at xs i k j q.0 e)))

module _ {p : Params} where
  pub Moved-WellFormed :
      (s s' : State p) (k : ℕ) (ph : Phase) → WellFormed s → Moved s s' k ph → WellFormed s'
  Moved-WellFormed s s' k ph w m = record {
    few = w.few;
    phase = λ j h. elim (Bool-cases (j == k)) [
      | inl same ↦ (ph, subst (λ (i : ℕ). InPhase s' i ph) (ground arith) m.moved)
      | inr other ↦
          let before = w.phase j h in
          let kept = m.others j h other in
          (
            before.0,
            (
              kept.0 ∙ before.1.0,
              ap contents kept.1 ∙ before.1.1,
              ap stage kept.2 ∙ before.1.2,
              kept.3 ∙ before.1.3,
              kept.4 ∙ before.1.4,
            ),
          )
    ];
    requests = m.requests;
    responses = m.responses;
  }

  -- A field that one phase alone has tells the phase.
  pub InPhase-available :
      (s : State p) (k : ℕ) (ph : Phase)
      → InPhase s k ph
      → is_available s k ≡ true
      → InPhase s k available
  InPhase-available s k available h e = h
  InPhase-available s k allocated h e = absurd (grind arith)
  InPhase-available s k (pending m) h e = absurd (grind arith)
  InPhase-available s k (receiving m) h e = absurd (grind arith)
  InPhase-available s k answered_polling h e = absurd (grind arith)
  InPhase-available s k answered_awaiting h e = absurd (grind arith)

  pub InPhase-pending :
      (s : State p) (k : ℕ) (ph : Phase)
      → InPhase s k ph
      → contains (requests_of s) k ≡ true
      → (m : Mode) × InPhase s k (pending m)
  InPhase-pending s k available h e = absurd (grind arith)
  InPhase-pending s k allocated h e = absurd (grind arith)
  InPhase-pending s k (pending m) h e = (m, h)
  InPhase-pending s k (receiving m) h e = absurd (grind arith)
  InPhase-pending s k answered_polling h e = absurd (grind arith)
  InPhase-pending s k answered_awaiting h e = absurd (grind arith)

  pub InPhase-answered_polling :
      (s : State p) (k : ℕ) (ph : Phase)
      → InPhase s k ph
      → contains (responses_of s) k ≡ true
      → InPhase s k answered_polling
  InPhase-answered_polling s k available h e = absurd (grind arith)
  InPhase-answered_polling s k allocated h e = absurd (grind arith)
  InPhase-answered_polling s k (pending m) h e = absurd (grind arith)
  InPhase-answered_polling s k (receiving m) h e = absurd (grind arith)
  InPhase-answered_polling s k answered_polling h e = h
  InPhase-answered_polling s k answered_awaiting h e = absurd (grind arith)

  pub Moved-trans :
      (s s₁ s₂ : State p) (k : ℕ) (ph ph' : Phase)
      → Moved s s₁ k ph
      → Moved s₁ s₂ k ph'
      → Moved s s₂ k ph'
  Moved-trans s s₁ s₂ k ph ph' m n = record {
    moved = n.moved;
    others = λ j h other.
        let a = m.others j h other in
        let b = n.others j h other in (b.0 ∙ a.0, b.1 ∙ a.1, b.2 ∙ a.2, b.3 ∙ a.3, b.4 ∙ a.4);
    requests = n.requests;
    responses = n.responses;
  }
