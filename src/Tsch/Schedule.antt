-- ===== src/Tsch/Schedule.antt =====
-- Links, slotframes and the schedule: dot15d4/src/mac/tsch/schedule.rs. The type of neighbors and
-- the bounded vectors (heapless) are parameters. Link options are the bits of the flags type.
pub mod Links
pub mod Slots
pub mod Active
mod Examples
use dot15d.Base.{
  ℕ, zero, suc, ◌+◌, Bool, ◌≡◌, List, [], ◌∷◌, Option, none, some, leb, ◌==◌, if◌then◌else◌, any,
  all, find, length,
}
use dot15d.Base.{Outcome, returns, panics, ◌>>=◌, Result, ok, err}
use dot15d.Containers.{BoundedVec}
use dot15d.Tsch.Asn.{AbsoluteSlotNumber, increment, add_u16, rem}

pub data ScheduleError : Type 0 where
  invalid_timeslot invalid_channel_offset capacity_exceeded handle_duplicate : ScheduleError

pub data TschLinkType : Type 0 where
  advertising normal : TschLinkType

pub record TschLink (T : Type 0) : Type 0 where
  pub handle : ℕ
  pub timeslot : ℕ
  pub channel_offset : ℕ
  pub link_options : ℕ
  pub link_type : TschLinkType
  pub neighbor : Option T

-- `[u8; 4]`
pub record TschHoppingSequence : Type 0 where
  pub channel_0 : ℕ
  pub channel_1 : ℕ
  pub channel_2 : ℕ
  pub channel_3 : ℕ

abbrev pub hopping_sequence_length : ℕ
hopping_sequence_length = 4

pub record TschSlotframe {T : Type 0} (links_api : BoundedVec (TschLink T)) : Type 0 where
  pub handle : ℕ
  pub size : ℕ
  pub hopping_sequence : TschHoppingSequence
  pub links : links_api.Vec

module _ {T : Type 0} {links_api : BoundedVec (TschLink T)} where
  abbrev pub links_of : TschSlotframe links_api → List (TschLink T)
  links_of sf = links_api.to_list sf.links

  pub new_slotframe : ℕ → ℕ → TschHoppingSequence → TschSlotframe links_api
  new_slotframe handle size hopping_sequence = record {
    handle = handle;
    size = size;
    hopping_sequence = hopping_sequence;
    links = links_api.new;
  }

  pub add_link :
      TschSlotframe links_api
      → TschLink T
      → TschSlotframe links_api × Result (Unit {0}) ScheduleError
  add_link sf link =
      if leb sf.size link.timeslot
      then (sf, err invalid_timeslot)
      else if leb hopping_sequence_length link.channel_offset
      then (sf, err invalid_channel_offset)
      else if any (λ l. l.handle == link.handle) (links_of sf)
      then (sf, err handle_duplicate)
      else elim (links_api.push sf.links link) [
        | none ↦ (sf, err capacity_exceeded)
        | some links ↦ (record sf { links = links }, ok tt)
      ]

  pub timeslot : TschSlotframe links_api → AbsoluteSlotNumber → Outcome ℕ
  timeslot sf asn = rem asn sf.size

  pub get_link : TschSlotframe links_api → AbsoluteSlotNumber → Outcome (Option (TschLink T))
  unfolding timeslot
  get_link sf asn = do
    slot ← timeslot sf asn
    returns (find (λ l. l.timeslot == slot) (links_of sf))

  pub channel_offset : TschSlotframe links_api → AbsoluteSlotNumber → TschLink T → Outcome ℕ
  channel_offset sf asn link = rem (add_u16 asn link.channel_offset) sf.size

-- `timeslot_timings` is kept and never read by the schedule: its type is a parameter too.
pub record TschSchedule {T : Type 0} {links_api : BoundedVec (TschLink T)} (Timings : Type 0)
    (frames_api : BoundedVec (TschSlotframe links_api)) : Type 0 where
  pub slotframes : frames_api.Vec
  pub asn : AbsoluteSlotNumber
  pub join_metric : ℕ
  pub timeslot_timings : Timings

module _ {T : Type 0} {links_api : BoundedVec (TschLink T)} where
  -- The loop over the slotframes that `next_slot` and `next_active_slot` share: the link of the
  -- first slotframe that has one for the given slot.
  pub first_link :
      AbsoluteSlotNumber → List (TschSlotframe links_api) → Outcome (Option (TschLink T))
  first_link asn [] = returns none
  first_link asn (sf ∷ rest) = elim (get_link sf asn) [
    | panics ↦ panics
    | returns none ↦ first_link asn rest
    | returns (some link) ↦ returns (some link)
  ]

module _ {T : Type 0} {links_api : BoundedVec (TschLink T)} {Timings : Type 0}
    {frames_api : BoundedVec (TschSlotframe links_api)} where
  abbrev pub frames_of : TschSchedule Timings frames_api → List (TschSlotframe links_api)
  frames_of s = frames_api.to_list s.slotframes

  pub default_schedule : Timings → TschSchedule Timings frames_api
  default_schedule default_timings = record {
    slotframes = frames_api.new;
    join_metric = 1;
    asn = record { ls4b = 0; ms1b = 0 };
    timeslot_timings = default_timings;
  }

  pub add_slotframe :
      TschSchedule Timings frames_api
      → TschSlotframe links_api
      → TschSchedule Timings frames_api × Result (Unit {0}) ScheduleError
  add_slotframe s slotframe =
      if any (λ f. f.handle == slotframe.handle) (frames_of s)
      then (s, err handle_duplicate)
      else elim (frames_api.push s.slotframes slotframe) [
        | none ↦ (s, err capacity_exceeded)
        | some slotframes ↦ (record s { slotframes = slotframes }, ok tt)
      ]

  -- `self.asn.increment()`
  abbrev pub step_asn : TschSchedule Timings frames_api → TschSchedule Timings frames_api
  step_asn s = record s { asn = increment s.asn }

  pub next_slot :
      TschSchedule Timings frames_api
      → Outcome (TschSchedule Timings frames_api × Option (TschLink T))
  next_slot s = do slot ← first_link s.asn (frames_of s); returns (step_asn s, slot)

  -- The `loop` of `next_active_slot`. Without fuel the answer is `none`.
  pub active_loop :
      ℕ
      → TschSchedule Timings frames_api
      → Option (Outcome (TschSchedule Timings frames_api × Option (TschLink T)))
  active_loop zero s = none
  active_loop (suc fuel) s =
      let rest = active_loop fuel (step_asn s) in
      elim (first_link s.asn (frames_of s)) [
        | panics ↦ some panics
        | returns none ↦ rest
        | returns (some link) ↦ some (returns (step_asn s, some link))
      ]

  pub next_active_slot :
      ℕ
      → TschSchedule Timings frames_api
      → Option (Outcome (TschSchedule Timings frames_api × Option (TschLink T)))
  next_active_slot fuel s =
      if all (λ f. length (links_of f) == 0) (frames_of s)
      then some (returns (s, none))
      else active_loop fuel s

  pub set_asn :
      TschSchedule Timings frames_api → AbsoluteSlotNumber → TschSchedule Timings frames_api
  set_asn s asn = record s { asn = asn }
