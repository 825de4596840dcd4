-- ===== src/Tsch/Schedule/Examples.antt =====
-- A schedule of one slotframe with two links, as in the source's own test, over plain lists.
use dot15d.Base.{
  ℕ, ◌≤◌, ◌<◌, ◌≡◌, ◌⊎◌, ◌^◌, refl, arith, some, none, true, false, returns, [], ◌∷◌, all, length,
  ◌==◌,
}
use dot15d.Containers.Listed.{listed_vec}
use dot15d.Tsch.Asn.{AbsoluteSlotNumber, increment, rem}
use dot15d.Tsch.Asn.Remainder.{sum_of_remainders}
use dot15d.Tsch.Schedule.{
  TschLink, TschSlotframe, TschSchedule, normal, add_link, get_link, next_slot, next_active_slot,
  active_loop, links_of, frames_of, set_asn, first_link, timeslot,
}
use dot15d.Tsch.Schedule.Links.{IsValid, IsValidSchedule, add_link-IsValid}
use dot15d.Tsch.Schedule.Slots.{get_link_cases, next_slot-due_link}
use dot15d.Tsch.Schedule.Active.{Finds, next_active_slot_ends}

abbrev Neighbor : Type 0
Neighbor = ℕ

abbrev link_at : ℕ → ℕ → TschLink Neighbor
link_at handle timeslot = record {
  handle = handle;
  timeslot = timeslot;
  channel_offset = 0;
  link_options = 1;
  link_type = normal;
  neighbor = none;
}

abbrev Frame : Type 0
Frame = TschSlotframe (listed_vec (TschLink Neighbor) 2)

abbrev frame : Frame
frame = record {
  handle = 1;
  size = 3;
  hopping_sequence = record { channel_0 = 15; channel_1 = 25; channel_2 = 26; channel_3 = 20 };
  links = link_at 0 0 ∷ link_at 1 2 ∷ [];
}

abbrev Sched : Type 0
Sched = TschSchedule ℕ (listed_vec Frame 1)

abbrev schedule : Sched
schedule = record {
  slotframes = frame ∷ [];
  asn = record { ls4b = 1; ms1b = 0 };
  join_metric = 1;
  timeslot_timings = 0;
}

frame-IsValid : IsValid frame
frame-IsValid = record { in_range = omega arith; distinct = ((λ e. omega arith, tt), (tt, tt)) }

schedule-IsValid : IsValidSchedule {Timings = ℕ} schedule
schedule-IsValid = record { frames_valid = (frame-IsValid, tt); frames_distinct = (tt, tt) }

next_active_slot_runs :
    next_active_slot 4 schedule
    ≡ some (returns (record schedule { asn = record { ls4b = 3; ms1b = 0 } }, some (link_at 1 2)))
unfolding next_active_slot active_loop first_link get_link timeslot rem increment
next_active_slot_runs = refl

add_link-IsValid_example : IsValid (add_link frame (link_at 2 1)).0
add_link-IsValid_example = add_link-IsValid frame (link_at 2 1) frame-IsValid

-- In slot 2 ^ 32 + 2, a multiple of 3, the link of timeslot 0 is due and is not found.
abbrev late_asn : AbsoluteSlotNumber
late_asn = record { ls4b = 2; ms1b = 1 }

get_link_cases_example :
    ((sum_of_remainders late_asn 3 < 3) × (get_link frame late_asn ≡ returns (some (link_at 0 0))))
    ⊎ ((3 ≤ sum_of_remainders late_asn 3) × (get_link frame late_asn ≡ returns none))
get_link_cases_example = get_link_cases frame late_asn frame-IsValid (omega arith) (omega arith)

next_slot-due_link_example :
    next_slot (set_asn schedule (record { ls4b = 5; ms1b = 0 }))
    ≡ returns
        (record schedule { asn = increment (record { ls4b = 5; ms1b = 0 }) }, some (link_at 1 2))
next_slot-due_link_example =
    next_slot-due_link schedule (record { ls4b = 5; ms1b = 0 }) refl (omega arith)

next_active_slot_ends_example :
    ((all (λ f. length (links_of f) == 0) (frames_of schedule) ≡ true)
      × (next_active_slot (2 ^ 40) schedule ≡ some (returns (schedule, none))))
    ⊎ ((all (λ f. length (links_of f) == 0) (frames_of schedule) ≡ false)
        × Finds schedule (2 ^ 40) (next_active_slot (2 ^ 40) schedule))
next_active_slot_ends_example =
    next_active_slot_ends (2 ^ 40) schedule (omega arith) (omega arith) (omega arith)
      (frame-IsValid, tt)
