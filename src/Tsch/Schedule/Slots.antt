-- ===== src/Tsch/Schedule/Slots.antt =====
-- Which link is due in a slot.
use dot15d.Base.{
  ℕ, ◌≤◌, ◌<◌, ◌≡◌, ◌⊎◌, ◌%◌, ◌^◌, inl, inr, refl, ap, ◌∙◌, List, [], ◌∷◌, ◌==◌, All, find, arith,
  Option, none, some, Option-cases,
}
use dot15d.Base.{returns}
use dot15d.Containers.{BoundedVec}
use dot15d.Tsch.Asn.{AbsoluteSlotNumber, value, increment}
use dot15d.Tsch.Asn.Remainder.{rem-value, rem-low, sum_of_remainders, rem-sum}
use dot15d.Tsch.Schedule.{
  TschLink, TschSlotframe, TschSchedule, get_link, links_of, timeslot, frames_of, first_link,
  next_slot, set_asn,
}
use dot15d.Tsch.Schedule.Links.{IsValid}

-- No link of a valid slotframe stands in a timeslot past its size.
find_late :
    {T : Type 0} (size slot : ℕ) (links : List (TschLink T))
    → All (λ l. (l.timeslot < size) × (l.channel_offset < 4)) links
    → size ≤ slot
    → find (λ l. l.timeslot == slot) links ≡ none
find_late size slot [] v h = refl
find_late size slot (l ∷ ls) (v, vs) h = ground (arith, find_late size slot ls vs h)

module _ {T : Type 0} {links_api : BoundedVec (TschLink T)} where
  -- For a slotframe of 1 to 2 ^ 15 timeslots the link that is due is the first one whose timeslot
  -- is the remainder of the 40-bit slot number by the size, if the remainders of the two fields
  -- of the slot number add up to less than the size. If they do not, a valid slotframe answers
  -- that no link is due, whatever stands in that timeslot.
  pub get_link_cases :
      (sf : TschSlotframe links_api) (asn : AbsoluteSlotNumber)
      → IsValid sf
      → 0 < sf.size
      → sf.size ≤ 2 ^ 15
      → ((sum_of_remainders asn sf.size < sf.size)
          × (get_link sf asn
              ≡ returns (find (λ l. l.timeslot == value asn % sf.size) (links_of sf))))
        ⊎ ((sf.size ≤ sum_of_remainders asn sf.size) × (get_link sf asn ≡ returns none))
  unfolding get_link timeslot
  get_link_cases sf asn v h k = elim (rem-value asn sf.size h k) [
    | inl (lo, e) ↦ inl (lo, rw e refl)
    | inr (hi, e) ↦
        inr (hi, rw e (ap returns (find_late sf.size _ (links_of sf) v.in_range (omega arith))))
  ]

  -- During the first 2 ^ 32 slots the link that is due is the first one whose timeslot is the
  -- remainder of the slot number by the size, for any size but 0.
  pub get_link_low :
      (sf : TschSlotframe links_api) (asn : AbsoluteSlotNumber)
      → asn.ms1b ≡ 0
      → 0 < sf.size
      → sf.size < 2 ^ 16
      → get_link sf asn ≡ returns (find (λ l. l.timeslot == asn.ls4b % sf.size) (links_of sf))
  unfolding get_link timeslot
  get_link_low sf asn e h k = rw (rem-low asn sf.size e h k) refl

  pub get_link_total :
      (sf : TschSlotframe links_api) (asn : AbsoluteSlotNumber)
      → 0 < sf.size
      → (r : Option (TschLink T)) × (get_link sf asn ≡ returns r)
  unfolding get_link timeslot
  get_link_total sf asn h = rw (rem-sum asn sf.size h) (_, refl)

  pub first_link_total :
      (asn : AbsoluteSlotNumber) (fs : List (TschSlotframe links_api))
      → All (λ f. 0 < f.size) fs
      → (r : Option (TschLink T)) × (first_link asn fs ≡ returns r)
  unfolding first_link
  first_link_total asn [] v = (none, refl)
  first_link_total asn (f ∷ fs) (v, vs) =
      let (r, e) = get_link_total f asn v in
      elim (Option-cases r) [
        | inl idle ↦ rw (e ∙ ap returns idle, first_link) (first_link_total asn fs vs)
        | inr (l, due) ↦ rw (e ∙ ap returns due, first_link) (some l, refl)
      ]

  -- The link that is due in a slot by plain arithmetic: of the first slotframe that has a link
  -- whose timeslot is the slot number modulo the size.
  abbrev pub due_link : ℕ → List (TschSlotframe links_api) → Option (TschLink T)
  due_link n [] = none
  due_link n (f ∷ fs) = elim (find (λ l. l.timeslot == n % f.size) (links_of f)) [
    | some l ↦ some l
    | none ↦ due_link n fs
  ]

  first_link-due_link :
      (asn : AbsoluteSlotNumber) (fs : List (TschSlotframe links_api))
      → asn.ms1b ≡ 0
      → All (λ f. (0 < f.size) × (f.size < 2 ^ 16)) fs
      → first_link asn fs ≡ returns (due_link asn.ls4b fs)
  unfolding first_link
  first_link-due_link asn [] e h = refl
  first_link-due_link asn (f ∷ fs) e (h, hs) =
      ground (arith, get_link_low f asn e h.0 h.1, first_link-due_link asn fs e hs)

-- During the first 2 ^ 32 slots `next_slot` does not panic if each slotframe has 1 to 65535
-- timeslots: it answers with the link that is due by plain arithmetic, of the slotframe that was
-- added first, and goes one slot further; set_asn puts the schedule at any slot number.
pub next_slot-due_link :
    {T : Type 0} {links_api : BoundedVec (TschLink T)} {Timings : Type 0}
    {frames_api : BoundedVec (TschSlotframe links_api)} (s : TschSchedule Timings frames_api)
    (asn : AbsoluteSlotNumber)
    → asn.ms1b ≡ 0
    → All (λ f. (0 < f.size) × (f.size < 2 ^ 16)) (frames_of s)
    → next_slot (set_asn s asn)
      ≡ returns (record s { asn = increment asn }, due_link asn.ls4b (frames_of s))
unfolding next_slot set_asn
next_slot-due_link s asn e h = rw (first_link-due_link asn (frames_of s) e h) refl
