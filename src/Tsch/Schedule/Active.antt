-- ===== src/Tsch/Schedule/Active.antt =====
-- Running through the slots: `next_slot`, and the search of `next_active_slot` for a slot with a
-- link.
use dot15d.Base.{
  ℕ, zero, suc, ◌≤◌, ◌<◌, ◌≡◌, ◌≢◌, ◌⊎◌, ◌%◌, ◌^◌, ◌+◌, ◌-◌, inl, inr, refl, ap, ◌∙◌, List, [], ◌∷◌,
  true, false, ◌==◌, all, All, length, arith, Option, none, some, Option-cases, Bool-cases,
}
use dot15d.Base.{returns, Outcome}
use dot15d.Containers.{BoundedVec}
use dot15d.Tsch.Asn.{AbsoluteSlotNumber, IsWord, value, increment}
use dot15d.Tsch.Asn.Laws.{value-increment}
use dot15d.Tsch.Schedule.{
  TschLink, TschSlotframe, TschSchedule, get_link, links_of, frames_of, first_link, step_asn,
  active_loop, next_active_slot,
}
use dot15d.Tsch.Schedule.Links.{IsValid}
use dot15d.Tsch.Schedule.Slots.{first_link_total, get_link_low}
use native.Mathlib.Nat.{mod-eq_of_lt}

-- `n` slots later.
pub later : ℕ → AbsoluteSlotNumber → AbsoluteSlotNumber
later zero asn = asn
later (suc n) asn = later n (increment asn)

module _ {T : Type 0} {links_api : BoundedVec (TschLink T)} where
  -- No link is due in the next `n` slots.
  abbrev pub IsIdle : ℕ → AbsoluteSlotNumber → List (TschSlotframe links_api) → Type 0
  IsIdle zero asn fs = Unit {0}
  IsIdle (suc n) asn fs = (first_link asn fs ≡ returns none) × IsIdle n (increment asn) fs

  -- Every slotframe has a size that a u16 holds, and it is not 0.
  abbrev pub HasSizes : List (TschSlotframe links_api) → Type 0
  HasSizes = All (λ f. (0 < f.size) × (f.size < 2 ^ 16))

  HasSizes-positive : (fs : List (TschSlotframe links_api)) → HasSizes fs → All (λ f. 0 < f.size) fs
  HasSizes-positive [] h = tt
  HasSizes-positive (f ∷ fs) (h, hs) = (h.0, HasSizes-positive fs hs)

module _ {T : Type 0} {links_api : BoundedVec (TschLink T)} where
  -- A slotframe whose first link has timeslot `t` has a link due in slot number `t`.
  get_link_hit :
      (f : TschSlotframe links_api) (l : TschLink T) (ls : List (TschLink T))
      → 0 < f.size
      → f.size < 2 ^ 16
      → l.timeslot < f.size
      → links_of f ≡ l ∷ ls
      → get_link f (record { ls4b = l.timeslot; ms1b = 0 }) ≡ returns (some l)
  get_link_hit f l ls h k v e =
      get_link_low f (record { ls4b = l.timeslot; ms1b = 0 }) refl h k
      ∙ rw (e, mod-eq_of_lt v) (ground arith)

  get_link_idle :
      (f : TschSlotframe links_api) (t : ℕ)
      → 0 < f.size
      → f.size < 2 ^ 16
      → links_of f ≡ []
      → get_link f (record { ls4b = t; ms1b = 0 }) ≡ returns none
  get_link_idle f t h k e = get_link_low f (record { ls4b = t; ms1b = 0 }) refl h k ∙ rw e refl

  -- Some slot, whose number a u32 holds, has a link due.
  abbrev HasHit : List (TschSlotframe links_api) → Type 0
  HasHit fs =
      (t : ℕ) × (l : TschLink T) × (t < 2 ^ 32)
      × (first_link (record { ls4b = t; ms1b = 0 }) fs ≡ returns (some l))

  HasHit-cons :
      (f : TschSlotframe links_api) (fs : List (TschSlotframe links_api)) (ls : List (TschLink T))
      → links_of f ≡ ls
      → 0 < f.size
      → f.size < 2 ^ 16
      → IsValid f
      → ((length ls ≡ 0) → HasHit fs)
      → HasHit (f ∷ fs)
  unfolding first_link
  HasHit-cons f fs [] e h k v rest =
      let (t, l, b, due) = rest refl in (t, l, b, rw (get_link_idle f t h k e, first_link) due)
  HasHit-cons f fs (l ∷ ls) e h k v rest =
      let fits : l.timeslot < f.size = (rw e at v.in_range).0.0 in
      (l.timeslot, l, omega arith, rw (get_link_hit f l ls h k fits e, first_link) refl)

  -- Valid slotframes that have a link have a slot in which one is due.
  first_link_hit :
      (fs : List (TschSlotframe links_api))
      → HasSizes fs
      → All IsValid fs
      → all (λ f. length (links_of f) == 0) fs ≡ false
      → HasHit fs
  first_link_hit [] h v busy = absurd (cc)
  first_link_hit (f ∷ fs) (h, hs) (v, vs) busy =
      HasHit-cons f fs (links_of f) refl h.0 h.1 v (λ e. first_link_hit fs hs vs (ground arith))

-- Slots to go until slot number `t`.
abbrev distance : ℕ → AbsoluteSlotNumber → ℕ
distance t asn = (t + 2 ^ 40 - value asn) % 2 ^ 40

distance-increment :
    (t n : ℕ) (asn : AbsoluteSlotNumber)
    → IsWord asn
    → t < 2 ^ 32
    → distance t asn < suc n
    → value asn ≢ t
    → distance t (increment asn) < n
distance-increment t n asn w h d e = omega (arith, (value-increment asn w).1)

target :
    (t : ℕ) (asn : AbsoluteSlotNumber)
    → IsWord asn
    → t < 2 ^ 32
    → value asn ≡ t
    → asn ≡ record { ls4b = t; ms1b = 0 }
target t asn w h e = ground arith

module _ {T : Type 0} {links_api : BoundedVec (TschLink T)} {Timings : Type 0}
    {frames_api : BoundedVec (TschSlotframe links_api)} where
  -- What a search that starts in `s` finds: after `k` slots with no link due, the link that is
  -- due, and the schedule one slot later.
  pub record Finds (s : TschSchedule Timings frames_api) (bound : ℕ)
      (r : Option (Outcome (TschSchedule Timings frames_api × Option (TschLink T)))) : Type 0 where
    pub skipped : ℕ
    pub link : TschLink T
    pub within : skipped < bound
    pub idle : IsIdle skipped s.asn (frames_of s)
    pub due : first_link (later skipped s.asn) (frames_of s) ≡ returns (some link)
    pub result : r ≡ some (returns (record s { asn = increment (later skipped s.asn) }, some link))

  Finds-stop :
      (n : ℕ) (s : TschSchedule Timings frames_api) (l : TschLink T)
      → first_link s.asn (frames_of s) ≡ returns (some l)
      → Finds s (suc n) (active_loop (suc n) s)
  unfolding active_loop later
  Finds-stop n s l e = record {
    skipped = 0;
    link = l;
    within = omega arith;
    idle = tt;
    due = e;
    result = rw (e, active_loop);
  }

  Finds-skip :
      (n : ℕ) (s : TschSchedule Timings frames_api)
      → first_link s.asn (frames_of s) ≡ returns none
      → Finds (step_asn s) n (active_loop n (step_asn s))
      → Finds s (suc n) (active_loop (suc n) s)
  unfolding active_loop later
  Finds-skip n s e rest = record {
    skipped = suc rest.skipped;
    link = rest.link;
    within = omega (arith, rest.within);
    idle = (e, rest.idle);
    due = rest.due;
    result = rw (e, active_loop) rest.result;
  }

  active_loop-Finds :
      (n t : ℕ) (s : TschSchedule Timings frames_api) (l : TschLink T)
      → HasSizes (frames_of s)
      → t < 2 ^ 32
      → first_link (record { ls4b = t; ms1b = 0 }) (frames_of s) ≡ returns (some l)
      → IsWord s.asn
      → distance t s.asn < n
      → Finds s n (active_loop n s)
  active_loop-Finds zero t s l v h e w d = absurd (omega arith)
  active_loop-Finds (suc n) t s l v h e w d =
      let (r, q) = first_link_total s.asn (frames_of s) (HasSizes-positive (frames_of s) v) in
      elim (Option-cases r) [
        | inl idle ↦ Finds-skip n s (q ∙ ap returns idle) (
            active_loop-Finds n t (step_asn s) l v h e (value-increment s.asn w).0
              (distance-increment t n s.asn w h d (λ p. cc (target t s.asn w h p, q, idle, e))))
        | inr (k, due) ↦ Finds-stop n s k (q ∙ ap returns due)
      ]

  -- With fuel for 2 ^ 40 slots `next_active_slot` ends, in every schedule of valid slotframes of 1
  -- to 65535 timeslots. Without any link it answers at once that there is none and changes
  -- nothing; otherwise it finds the next slot in which a link is due and goes one slot further.
  pub next_active_slot_ends :
      (fuel : ℕ) (s : TschSchedule Timings frames_api)
      → 2 ^ 40 ≤ fuel
      → IsWord s.asn
      → HasSizes (frames_of s)
      → All IsValid (frames_of s)
      → ((all (λ f. length (links_of f) == 0) (frames_of s) ≡ true)
          × (next_active_slot fuel s ≡ some (returns (s, none))))
        ⊎ ((all (λ f. length (links_of f) == 0) (frames_of s) ≡ false)
            × Finds s fuel (next_active_slot fuel s))
  unfolding next_active_slot
  next_active_slot_ends fuel s h w z v =
      elim (Bool-cases (all (λ f. length (links_of f) == 0) (frames_of s))) [
        | inl empty ↦ inl (empty, rw empty)
        | inr busy ↦
            let (t, l, b, e) = first_link_hit (frames_of s) z v busy in
            inr (busy, rw busy (active_loop-Finds fuel t s l z b e w (omega arith)))
      ]
