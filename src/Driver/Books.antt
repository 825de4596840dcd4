-- ===== src/Driver/Books.antt =====
-- The books of the driver service: which requests are open, and where every buffer is.
-- dot15d4/src/driver.rs.
use dot15d.Base.{
  ℕ, ◌+◌, ◌≡◌, refl, sym, ap, subst, List, [], ◌∷◌, ◌++◌, Option, none, some, ◌==◌, if◌then◌else◌,
  returns, arith,
}
use dot15d.Radio.{
  SizedFrame, UnsizedFrame, RxResult, frame, rx_window_ended, crc_failed, filtered_frame, TxResult,
  sent, nack, cca_busy,
}
use dot15d.Driver.{
  DrvSvcRequest, tx, rx, DrvSvcResponse, tx_done, tx_failed, rx_done, task_error, Incoming, Api,
  Service,
}
use dot15d.Driver.Calls.{noted, answer, set_temporary, set_ack}

abbrev pub rx_pointer : RxResult → ℕ
rx_pointer (frame f) = f.pointer
rx_pointer (rx_window_ended f) = f.pointer
rx_pointer (crc_failed f) = f.pointer
rx_pointer (filtered_frame f) = f.pointer

abbrev pub tx_pointer : TxResult → ℕ
tx_pointer (sent f) = f.pointer
tx_pointer (nack f) = f.pointer

abbrev pub request_pointer : DrvSvcRequest → ℕ
request_pointer (tx t) = t.radio_frame.pointer
request_pointer (rx t) = t.radio_frame.pointer

-- How often a buffer is in a place: 0 or 1 times.
abbrev pub at_pointer : ℕ → ℕ → ℕ
at_pointer k p = if p == k then 1 else 0

abbrev pub in_response : ℕ → DrvSvcResponse → ℕ
in_response k (tx_done r) = at_pointer k (tx_pointer r)
in_response k (tx_failed (task_error (cca_busy f))) = at_pointer k f.pointer
in_response k (rx_done r) = at_pointer k (rx_pointer r)
in_response k _ = 0

abbrev pub tally : ℕ → List ℕ → ℕ
tally k [] = 0
tally k (p ∷ ps) = at_pointer k p + tally k ps

abbrev pub in_requests : ℕ → List Incoming → ℕ
in_requests k [] = 0
in_requests k ((token, request) ∷ xs) = at_pointer k (request_pointer request) + in_requests k xs

abbrev pub in_responses : ℕ → List (ℕ × DrvSvcResponse) → ℕ
in_responses k [] = 0
in_responses k ((token, response) ∷ xs) = in_response k response + in_responses k xs

abbrev pub in_ack : ℕ → Option SizedFrame → ℕ
in_ack k none = 0
in_ack k (some f) = at_pointer k f.pointer

abbrev pub in_temporary : ℕ → Option UnsizedFrame → ℕ
in_temporary k none = 0
in_temporary k (some f) = at_pointer k f.pointer

-- A response is of the kind of its request; that to a transmission returns the same buffer.
abbrev pub Answers : DrvSvcRequest → DrvSvcResponse → Type 0
Answers (tx t) (tx_done r) = tx_pointer r ≡ t.radio_frame.pointer
Answers (tx t) (tx_failed (task_error (cca_busy f))) = f.pointer ≡ t.radio_frame.pointer
Answers (rx t) (rx_done r) = Unit {0}
Answers _ _ = ⊥

-- The responses answer the requests, each with its token, in the order of the requests; those that
-- are left are open.
abbrev pub Replies : List Incoming → List (ℕ × DrvSvcResponse) → List Incoming → Type 0
Replies received [] left = received ≡ left
Replies [] (r ∷ answered) left = ⊥
Replies ((token, request) ∷ received) ((token', response) ∷ answered) left =
    (token ≡ token') × Answers request response × Replies received answered left

-- `held` are the buffers that are neither in the cells nor with the clients; `start k` is 1 for the
-- buffers that the service began with. No buffer is lost, and none is in two places.
pub record Books {api : Api} (start : ℕ → ℕ) (s : Service api) (left : List Incoming)
    (held : List ℕ) : Type 0 where
  pub replies : Replies s.received s.answered left
  pub balance :
      (k : ℕ)
      → in_ack k s.tx_ack_frame
          + in_temporary k s.temporary_rx_frame
          + tally k held
          + in_responses k s.answered
        ≡ start k + in_requests k s.received

tally-append :
    (k : ℕ) (ps : List ℕ) (p : ℕ) → tally k (ps ++ (p ∷ [])) ≡ tally k ps + at_pointer k p
tally-append k [] p = omega arith
tally-append k (q ∷ ps) p = omega (arith, tally-append k ps p)

in_requests-append :
    (k : ℕ) (xs : List Incoming) (x : Incoming)
    → in_requests k (xs ++ (x ∷ [])) ≡ in_requests k xs + at_pointer k (request_pointer x.1)
in_requests-append k [] x = omega arith
in_requests-append k (y ∷ xs) x = omega (arith, in_requests-append k xs x)

in_responses-append :
    (k : ℕ) (xs : List (ℕ × DrvSvcResponse)) (x : ℕ × DrvSvcResponse)
    → in_responses k (xs ++ (x ∷ [])) ≡ in_responses k xs + in_response k x.1
in_responses-append k [] x = omega arith
in_responses-append k (y ∷ xs) x = omega (arith, in_responses-append k xs x)

Replies-receive :
    (received : List Incoming) (answered : List (ℕ × DrvSvcResponse)) (left : List Incoming)
    (x : Incoming)
    → Replies received answered left
    → Replies (received ++ (x ∷ [])) answered (left ++ (x ∷ []))
Replies-receive received [] left x h = ap (λ (xs : List Incoming). xs ++ (x ∷ [])) h
Replies-receive [] (r ∷ answered) left x h = elim h [ ]
Replies-receive (y ∷ received) (r ∷ answered) left x (same, fits, h) =
    (same, fits, Replies-receive received answered left x h)

Replies-answer :
    (received : List Incoming) (answered : List (ℕ × DrvSvcResponse)) (left : List Incoming)
    (token : ℕ) (request : DrvSvcRequest) (response : DrvSvcResponse)
    → Replies received answered ((token, request) ∷ left)
    → Answers request response
    → Replies received (answered ++ ((token, response) ∷ [])) left
Replies-answer [] [] left token request response h fits = absurd (grind arith)
Replies-answer (y ∷ received) [] left token request response h fits =
    subst (λ (xs : List Incoming). Replies xs ((token, response) ∷ []) left) (sym h)
      (refl, fits, refl)
Replies-answer [] (r ∷ answered) left token request response h fits = elim h [ ]
Replies-answer (y ∷ received) (r ∷ answered) left token request response (same, old, h) fits =
    (same, old, Replies-answer received answered left token request response h fits)

module _ {api : Api} {start : ℕ → ℕ} where
  -- A request is received: it is open, and its buffer is held.
  pub Books-noted :
      (s : Service api) (clients : api.Clients) (x : Incoming) (left : List Incoming)
      (held : List ℕ)
      → Books start s left held
      → Books start
          (noted s (clients, some x)).0
          (left ++ (x ∷ []))
          (held ++ (request_pointer x.1 ∷ []))
  Books-noted s clients x left held b = record {
    replies = Replies-receive s.received s.answered left x b.replies;
    balance = λ k. omega (
      arith,
      b.balance k,
      tally-append k held (request_pointer x.1),
      in_requests-append k s.received x,
    );
  }

  pub Books-idle :
      (s : Service api) (clients : api.Clients) (left : List Incoming) (held : List ℕ)
      → Books start s left held
      → Books start (noted s (clients, none)).0 left held
  Books-idle s clients left held b = record { replies = b.replies; balance = b.balance }

  -- An answer returns a buffer.
  pub Books-answer :
      (s : Service api) (token : ℕ) (request : DrvSvcRequest) (response : DrvSvcResponse)
      (left : List Incoming) (p : ℕ) (held : List ℕ)
      → Books start s ((token, request) ∷ left) (p ∷ held)
      → Answers request response
      → ((k : ℕ) → in_response k response ≡ at_pointer k p)
      → Books start (answer s token response) left held
  Books-answer s token request response left p held b fits returned = record {
    replies = Replies-answer s.received s.answered left token request response b.replies fits;
    balance = λ k.
        omega (arith, b.balance k, returned k, in_responses-append k s.answered (token, response));
  }

  pub Books-swap :
      (s : Service api) (left : List Incoming) (p q : ℕ) (held : List ℕ)
      → Books start s left (p ∷ q ∷ held)
      → Books start s left (q ∷ p ∷ held)
  Books-swap s left p q held b = record {
    replies = b.replies;
    balance = λ k. omega (arith, b.balance k);
  }

  pub Books-rotate :
      (s : Service api) (left : List Incoming) (p q r : ℕ)
      → Books start s left (p ∷ q ∷ r ∷ [])
      → Books start s left (r ∷ q ∷ p ∷ [])
  Books-rotate s left p q r b = record {
    replies = b.replies;
    balance = λ k. omega (arith, b.balance k);
  }

  pub Books-set_temporary :
      (s : Service api) (f : UnsizedFrame) (left : List Incoming) (held : List ℕ)
      → s.temporary_rx_frame ≡ none
      → Books start s left (f.pointer ∷ held)
      → (t : Service api) × (set_temporary s f ≡ returns t)
        × Books start t left held
        × (t.temporary_rx_frame ≡ some f)
        × (t.tx_ack_frame ≡ s.tx_ack_frame)
  Books-set_temporary s f left held e b = (
    record s { temporary_rx_frame = some f },
    rw (e) refl,
    record {
      replies = b.replies;
      balance = λ k. omega (arith, b.balance k, ap (in_temporary k) e);
    },
    refl,
    refl,
  )

  pub Books-set_ack :
      (s : Service api) (f : SizedFrame) (left : List Incoming) (held : List ℕ)
      → s.tx_ack_frame ≡ none
      → Books start s left (f.pointer ∷ held)
      → (t : Service api) × (set_ack s f ≡ returns t)
        × Books start t left held
        × (t.tx_ack_frame ≡ some f)
        × (t.temporary_rx_frame ≡ s.temporary_rx_frame)
  Books-set_ack s f left held e b = (
    record s { tx_ack_frame = some f },
    rw (e) refl,
    record { replies = b.replies; balance = λ k. omega (arith, b.balance k, ap (in_ack k) e) },
    refl,
    refl,
  )

  pub Books-without_temporary :
      (s : Service api) (f : UnsizedFrame) (left : List Incoming) (held : List ℕ)
      → s.temporary_rx_frame ≡ some f
      → Books start s left held
      → Books start (record s { temporary_rx_frame = none }) left (f.pointer ∷ held)
  Books-without_temporary s f left held e b = record {
    replies = b.replies;
    balance = λ k. omega (arith, b.balance k, ap (in_temporary k) e);
  }

  pub Books-without_ack :
      (s : Service api) (f : SizedFrame) (left : List Incoming) (held : List ℕ)
      → s.tx_ack_frame ≡ some f
      → Books start s left held
      → Books start (record s { tx_ack_frame = none }) left (f.pointer ∷ held)
  Books-without_ack s f left held e b = record {
    replies = b.replies;
    balance = λ k. omega (arith, b.balance k, ap (in_ack k) e);
  }
