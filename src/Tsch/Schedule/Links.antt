-- ===== src/Tsch/Schedule/Links.antt =====
-- Adding links to a slotframe and slotframes to a schedule.
use dot15d.Base.{
  ℕ, ◌≤◌, ◌<◌, ◌≡◌, ◌≢◌, ◌⊎◌, inl, inr, refl, sym, List, [], ◌∷◌, ◌++◌, true, false, ◌==◌, any, All,
  All-append, length, arith, Bool-cases, leb,
}
use dot15d.Base.{ok, err}
use dot15d.Containers.{BoundedVec, push_cases}
use dot15d.Tsch.Schedule.{
  TschLink, TschSlotframe, TschSchedule, ScheduleError, invalid_timeslot, invalid_channel_offset,
  capacity_exceeded, handle_duplicate, hopping_sequence_length, add_link, links_of, new_slotframe,
  TschHoppingSequence, add_slotframe, frames_of,
}

-- No two entries have the same handle.
abbrev pub Distinct : {A : Type 0} → (A → ℕ) → List A → Type 0
Distinct handle [] = Unit {0}
Distinct handle (x ∷ xs) = All (λ y. handle y ≢ handle x) xs × Distinct handle xs

module _ {A : Type 0} (handle : A → ℕ) where
  All-of_any :
      (x : A) (xs : List A)
      → any (λ y. handle y == handle x) xs ≡ false
      → All (λ y. handle y ≢ handle x) xs
  All-of_any x [] h = tt
  All-of_any x (y ∷ ys) h = ground (arith, All-of_any x ys)

  not_All-of_any :
      (x : A) (xs : List A)
      → any (λ y. handle y == handle x) xs ≡ true
      → ¬ (All (λ y. handle y ≢ handle x) xs)
  not_All-of_any x [] h a = cc
  not_All-of_any x (y ∷ ys) h (a, as') = not_All-of_any x ys (ground arith) as'

  Distinct-snoc :
      (x : A) (xs : List A)
      → Distinct handle xs
      → All (λ y. handle y ≢ handle x) xs
      → Distinct handle (xs ++ (x ∷ []))
  Distinct-snoc x [] d h = (tt, tt)
  Distinct-snoc x (y ∷ ys) (d, ds) (h, hs) = (
    All-append (λ z. handle z ≢ handle y) ys (x ∷ []) d (λ e. h (sym e), tt),
    Distinct-snoc x ys ds hs,
  )

module _ {T : Type 0} {links_api : BoundedVec (TschLink T)} where
  -- What `add_link` keeps: each link has a timeslot of the slotframe and a channel offset of the
  -- hopping sequence, and its handle is its own.
  pub record IsValid (sf : TschSlotframe links_api) : Type 0 where
    pub in_range :
        All
          (λ l. (l.timeslot < sf.size) × (l.channel_offset < hopping_sequence_length))
          (links_of sf)
    pub distinct : Distinct (λ l. l.handle) (links_of sf)

  pub new_slotframe-IsValid :
      (handle size : ℕ) (hopping : TschHoppingSequence)
      → IsValid (new_slotframe {links_api = links_api} handle size hopping)
  unfolding new_slotframe
  new_slotframe-IsValid handle size hopping = record {
    in_range = rw links_api.to_list-new tt;
    distinct = rw links_api.to_list-new tt;
  }

  -- Why `add_link` refuses a link.
  abbrev pub Refuses : TschSlotframe links_api → TschLink T → ScheduleError → Type 0
  Refuses sf link invalid_timeslot = sf.size ≤ link.timeslot
  Refuses sf link invalid_channel_offset = hopping_sequence_length ≤ link.channel_offset
  Refuses sf link handle_duplicate = ¬ (All (λ l. l.handle ≢ link.handle) (links_of sf))
  Refuses sf link capacity_exceeded = links_api.capacity ≤ length (links_of sf)

  -- What an accepted link was found to be, and the slotframe with it.
  pub record Accepts (sf : TschSlotframe links_api) (link : TschLink T)
      (new : TschSlotframe links_api) : Type 0 where
    pub timeslot_fits : link.timeslot < sf.size
    pub offset_fits : link.channel_offset < hopping_sequence_length
    pub handle_free : All (λ l. l.handle ≢ link.handle) (links_of sf)
    pub has_room : length (links_of sf) < links_api.capacity
    pub links_grow : links_of new ≡ links_of sf ++ (link ∷ [])
    pub size_stays : new.size ≡ sf.size
    pub handle_stays : new.handle ≡ sf.handle
    pub hopping_stays : new.hopping_sequence ≡ sf.hopping_sequence

  -- `add_link` either accepts a link that fits the slotframe, has a new handle and finds room, and
  -- then appends it to the links and leaves the rest alone; or it leaves the slotframe as it is,
  -- with an error that names what is wrong.
  pub add_link_cases :
      (sf : TschSlotframe links_api) (link : TschLink T)
      → (((add_link sf link).1 ≡ ok tt) × Accepts sf link (add_link sf link).0)
        ⊎ ((e : ScheduleError) × (add_link sf link ≡ (sf, err e)) × Refuses sf link e)
  unfolding add_link
  add_link_cases sf link = elim (Bool-cases (leb sf.size link.timeslot)) [
    | inl late ↦ inr (invalid_timeslot, rw late, ground arith)
    | inr fits ↦ elim (Bool-cases (leb hopping_sequence_length link.channel_offset)) [
      | inl high ↦ inr (invalid_channel_offset, rw (fits, high), ground arith)
      | inr low ↦ elim (Bool-cases (any (λ l. l.handle == link.handle) (links_of sf))) [
        | inl taken ↦
            inr (handle_duplicate, rw (fits, low, taken), not_All-of_any _ link (links_of sf) taken)
        | inr free ↦ elim (push_cases links_api sf.links link) [
          | inl (e, full) ↦ inr (capacity_exceeded, rw (fits, low, free, e), full)
          | inr (w, e, room, grown) ↦ inl (
            rw (fits, low, free, e),
            rw (fits, low, free, e)
                (record {
                  timeslot_fits = ground arith;
                  offset_fits = ground arith;
                  handle_free = All-of_any _ link (links_of sf) free;
                  has_room = room;
                  links_grow = grown;
                  size_stays = refl;
                  handle_stays = refl;
                  hopping_stays = refl;
                }),
          )
        ]
      ]
    ]
  ]

  -- Adding a link keeps a slotframe valid, whether the link is accepted or refused: the links stay
  -- within the slotframe's timeslots and the hopping sequence, with handles of their own.
  pub add_link-IsValid :
      (sf : TschSlotframe links_api) (link : TschLink T) → IsValid sf → IsValid (add_link sf link).0
  add_link-IsValid sf link v = elim (add_link_cases sf link) [
    | inl (_, a) ↦ record {
      in_range = rw a.links_grow (
          rw a.size_stays (
            All-append _ (links_of sf) (link ∷ []) v.in_range
              ((a.timeslot_fits, a.offset_fits), tt)));
      distinct = rw a.links_grow (Distinct-snoc _ link (links_of sf) v.distinct a.handle_free);
    }
    | inr (e, same, _) ↦ rw same v
  ]

module _ {T : Type 0} {links_api : BoundedVec (TschLink T)} {Timings : Type 0}
    {frames_api : BoundedVec (TschSlotframe links_api)} where
  -- What `add_slotframe` keeps: each slotframe is valid and has a handle of its own.
  pub record IsValidSchedule (s : TschSchedule Timings frames_api) : Type 0 where
    pub frames_valid : All IsValid (frames_of s)
    pub frames_distinct : Distinct (λ f. f.handle) (frames_of s)

  -- Adding a valid slotframe keeps a schedule valid. The addition succeeds exactly when the handle is new and the schedule has room; it then appends
  -- the slotframe, and otherwise leaves the schedule as it is with the error that applies.
  pub add_slotframe_cases :
      (s : TschSchedule Timings frames_api) (sf : TschSlotframe links_api)
      → IsValidSchedule s
      → IsValid sf
      → IsValidSchedule (add_slotframe s sf).0
        × ((((add_slotframe s sf).1 ≡ ok tt)
              × All (λ f. f.handle ≢ sf.handle) (frames_of s)
              × (length (frames_of s) < frames_api.capacity)
              × (frames_of (add_slotframe s sf).0 ≡ frames_of s ++ (sf ∷ [])))
            ⊎ ((add_slotframe s sf ≡ (s, err handle_duplicate))
                × (¬ (All (λ f. f.handle ≢ sf.handle) (frames_of s))))
            ⊎ ((add_slotframe s sf ≡ (s, err capacity_exceeded))
                × (frames_api.capacity ≤ length (frames_of s))))
  unfolding add_slotframe
  add_slotframe_cases s sf v w =
      elim (Bool-cases (any (λ f. f.handle == sf.handle) (frames_of s))) [
        | inl taken ↦ rw taken (v, inr (inl (refl, not_All-of_any _ sf (frames_of s) taken)))
        | inr free ↦ elim (push_cases frames_api s.slotframes sf) [
          | inl (e, full) ↦ rw (free, e) (v, inr (inr (refl, full)))
          | inr (u, e, room, grown) ↦
              rw (free, e)
                (
                  record {
                    frames_valid =
                        rw grown
                          (All-append IsValid (frames_of s) (sf ∷ []) v.frames_valid (w, tt));
                    frames_distinct = rw grown (
                        Distinct-snoc _ sf (frames_of s) v.frames_distinct
                          (All-of_any _ sf (frames_of s) free));
                  },
                  inl (refl, All-of_any _ sf (frames_of s) free, room, grown),
                )
        ]
      ]
