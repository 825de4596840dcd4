-- ===== src/Mac/Data/Indications.antt =====
-- The data indication task with the allocator: dot15d4/src/mac/mcps/data.rs.
use dot15d.Base.{
  ℕ, ◌+◌, ◌≤◌, ◌<◌, ◌≡◌, refl, sym, ap, ◌∙◌, subst, inl, inr, List, [], ◌∷◌, ◌++◌, length, Option,
  none, some, returns, panics, Result, ok, err, arith, append_assoc, length-append,
}
use dot15d.Allocator.{
  PoolParams, BufferToken, AsyncBufferAllocator, free_of, allocate_token, allocated_or_queued,
  try_allocate_buffer,
}
use dot15d.Allocator.Ownership.{Owned}
use dot15d.Allocator.Allotment.{Allots, try_allocate_buffer-Allots}
use dot15d.Frame.Radio.{Config, max_buffer_length}
use dot15d.Frame.Radio.Buffered
use dot15d.Mpdu.Frame.{from_radio_frame}
use dot15d.Radio.{
  SizedFrame, UnsizedFrame, RxResult, frame, rx_window_ended, crc_failed, filtered_frame,
}
use dot15d.Driver.{rx, rx_done}
use dot15d.Driver.Calls.{forget_frame_size}
use dot15d.Mac.{drv_svc_response, drv_svc_request}
use dot15d.Mac.Data.{
  DataIndication, waiting_for_frame, rx_task, handle_rx_driver_response, allocate_rx_radio_frame,
  framed, received_into, produce_indication_and_restart_rx, step_indication,
}

-- The frames that were received, in their order.
abbrev pub indicated : List RxResult → List DataIndication
indicated [] = []
indicated (frame f ∷ rs) = record { mpdu = from_radio_frame f; timestamp = none } ∷ indicated rs
indicated (_ ∷ rs) = indicated rs

abbrev pub option_list : Option DataIndication → List DataIndication
option_list none = []
option_list (some i) = i ∷ []

module _ {p : PoolParams} where
  allocated-Owned :
      (s : AsyncBufferAllocator p) (held : List ℕ) (size : ℕ)
      (q : AsyncBufferAllocator p × Result BufferToken (Unit {0}))
      → length held < p.capacity
      → size ≤ p.buffer_size
      → Allots s held size none (allocated_or_queued none q)
      → (s' : AsyncBufferAllocator p) × (token : BufferToken) × (q ≡ (s', ok token))
        × Owned p.capacity (free_of s') (token.pointer ∷ held)
  allocated-Owned s held size (s', ok token) free fits h = (s', token, refl, h.3)
  allocated-Owned s held size (s', err e) free fits (inl large, _, _) = absurd (omega arith)
  allocated-Owned s held size (s', err e) free fits (inr full, _, _) = absurd (omega arith)

  allocate_token-Owned :
      (s : AsyncBufferAllocator p) (held : List ℕ) (size : ℕ)
      → Owned p.capacity (free_of s) held
      → length held < p.capacity
      → size ≤ p.buffer_size
      → (s' : AsyncBufferAllocator p) × (token : BufferToken) × (allocate_token s size
          ≡ (s', ok token))
        × Owned p.capacity (free_of s') (token.pointer ∷ held)
  unfolding try_allocate_buffer
  allocate_token-Owned s held size owned free fits =
      allocated-Owned s held size (allocate_token s size) free fits
        (try_allocate_buffer-Allots s held size none owned)

  allocated_full :
      (s : AsyncBufferAllocator p) (held : List ℕ) (size : ℕ)
      (q : AsyncBufferAllocator p × Result BufferToken (Unit {0}))
      → length held ≡ p.capacity
      → Allots s held size none (allocated_or_queued none q)
      → q.1 ≡ err tt
  allocated_full s held size (s', ok token) full h = absurd (let o = h.3.all in omega arith)
  allocated_full s held size (s', err e) full h = refl

module _ (c : Config) {p : PoolParams} (bytes : BufferToken → List ℕ) where
  -- The steps for the results of receptions, from one state of the allocator to another: no step
  -- panics, each asks for the next reception, and the indications are those given.
  abbrev pub Receives :
      List RxResult → AsyncBufferAllocator p → List DataIndication → AsyncBufferAllocator p → Type 0
  Receives [] s is s' = (is ≡ []) × (s ≡ s')
  Receives (r ∷ rs) s is s' =
      (t : AsyncBufferAllocator p) × (next : UnsizedFrame) × (i : Option DataIndication)
      × (js : List DataIndication) × (step_indication c bytes s waiting_for_frame
            (drv_svc_response (rx_done r))
          ≡ returns (t, drv_svc_request waiting_for_frame (rx (rx_task c next)) i))
      × (is ≡ option_list i ++ js)
      × Receives rs t js s'

  -- The allocator after the steps, and the buffers that are held then.
  abbrev pub ReceivesAll : List RxResult → AsyncBufferAllocator p → List ℕ → Type 0
  ReceivesAll rs s held =
      (s' : AsyncBufferAllocator p) × (taken : List ℕ) × Receives rs s (indicated rs) s'
      × (length taken ≡ length (indicated rs))
      × Owned p.capacity (free_of s') (taken ++ held)

  frame_step :
      (s : AsyncBufferAllocator p) (held : List ℕ) (f : SizedFrame)
      → Owned p.capacity (free_of s) held
      → length held < p.capacity
      → max_buffer_length c ≤ p.buffer_size
      → (t : AsyncBufferAllocator p) × (next : UnsizedFrame) × (step_indication c bytes s
            waiting_for_frame
            (drv_svc_response (rx_done (frame f)))
          ≡ returns (
            t,
            drv_svc_request waiting_for_frame
                (rx (rx_task c next))
                (some (record { mpdu = from_radio_frame f; timestamp = none })),
          ))
        × Owned p.capacity (free_of t) (next.pointer ∷ held)
  unfolding step_indication handle_rx_driver_response produce_indication_and_restart_rx
      allocate_rx_radio_frame
  frame_step s held f owned free fits =
      let (t, token, e, o) = allocate_token-Owned s held (max_buffer_length c) owned free fits in
      (t, record { pointer = token.pointer; frame = Buffered.new c (bytes token) }, rw (e) refl, o)

  ReceivesAll-frame :
      (f : SizedFrame) (rs : List RxResult) (s t : AsyncBufferAllocator p) (next : UnsizedFrame)
      (held : List ℕ)
      → step_indication c bytes s waiting_for_frame (drv_svc_response (rx_done (frame f)))
        ≡ returns (
          t,
          drv_svc_request waiting_for_frame
              (rx (rx_task c next))
              (some (record { mpdu = from_radio_frame f; timestamp = none })),
        )
      → ReceivesAll rs t (next.pointer ∷ held)
      → ReceivesAll (frame f ∷ rs) s held
  ReceivesAll-frame f rs s t next held e (s', taken, run, len, owned) = (
    s',
    taken ++ (next.pointer ∷ []),
    (
      t,
      next,
      some (record { mpdu = from_radio_frame f; timestamp = none }),
      indicated rs,
      e,
      refl,
      run,
    ),
    omega (arith, length-append taken (next.pointer ∷ []), len),
    subst (λ (xs : List ℕ). Owned p.capacity (free_of s') xs)
        (sym (append_assoc taken (next.pointer ∷ []) held)) owned,
  )

  ReceivesAll-reused :
      (r : RxResult) (rs : List RxResult) (s : AsyncBufferAllocator p) (next : UnsizedFrame)
      (held : List ℕ)
      → step_indication c bytes s waiting_for_frame (drv_svc_response (rx_done r))
        ≡ returns (s, drv_svc_request waiting_for_frame (rx (rx_task c next)) none)
      → indicated (r ∷ rs) ≡ indicated rs
      → ReceivesAll rs s held
      → ReceivesAll (r ∷ rs) s held
  ReceivesAll-reused r rs s next held e same (s', taken, run, len, owned) =
      (s', taken, (s, next, none, indicated rs, e, same, run), len ∙ sym (ap length same), owned)

  -- However many receptions end with or without a frame, while there is a free buffer for each frame:
  -- no step panics, each asks for the next reception, the frames are indicated one by one in the
  -- order of their reception, and the task takes one buffer from the allocator for each of them.
  pub step_indication-ReceivesAll :
      (rs : List RxResult) (s : AsyncBufferAllocator p) (held : List ℕ)
      → Owned p.capacity (free_of s) held
      → length held + length (indicated rs) ≤ p.capacity
      → max_buffer_length c ≤ p.buffer_size
      → ReceivesAll rs s held
  unfolding step_indication handle_rx_driver_response
  step_indication-ReceivesAll [] s held owned free fits = (s, [], (refl, refl), refl, owned)
  step_indication-ReceivesAll (frame f ∷ rs) s held owned free fits =
      let (t, next, e, o) = frame_step s held f owned (omega arith) fits in
      ReceivesAll-frame f rs s t next held e
        (step_indication-ReceivesAll rs t (next.pointer ∷ held) o (omega arith) fits)
  step_indication-ReceivesAll (rx_window_ended f ∷ rs) s held owned free fits =
      ReceivesAll-reused (rx_window_ended f) rs s f held refl refl
        (step_indication-ReceivesAll rs s held owned free fits)
  step_indication-ReceivesAll (crc_failed f ∷ rs) s held owned free fits =
      ReceivesAll-reused (crc_failed f) rs s f held refl refl
        (step_indication-ReceivesAll rs s held owned free fits)
  step_indication-ReceivesAll (filtered_frame f ∷ rs) s held owned free fits =
      ReceivesAll-reused (filtered_frame f) rs s (forget_frame_size c f) held refl refl
        (step_indication-ReceivesAll rs s held owned free fits)

  framed_full :
      (q : AsyncBufferAllocator p × Result BufferToken (Unit {0})) (i : Option DataIndication)
      → q.1 ≡ err tt
      → received_into c bytes i (framed c bytes q) ≡ panics
  framed_full (s, ok token) i h = absurd (grind arith)
  framed_full (s, err e) i h = refl

  -- When every buffer of the pool is held, a frame that is received makes the task panic.
  pub step_indication_panics :
      (s : AsyncBufferAllocator p) (held : List ℕ) (f : SizedFrame)
      → Owned p.capacity (free_of s) held
      → length held ≡ p.capacity
      → step_indication c bytes s waiting_for_frame (drv_svc_response (rx_done (frame f))) ≡ panics
  unfolding step_indication handle_rx_driver_response produce_indication_and_restart_rx
      allocate_rx_radio_frame try_allocate_buffer
  step_indication_panics s held f owned full =
      let size = max_buffer_length c in
      framed_full (allocate_token s size)
        (some (record { mpdu = from_radio_frame f; timestamp = none }))
        (allocated_full s held size (allocate_token s size) full
          (try_allocate_buffer-Allots s held size none owned))
