-- ===== src/Tsch/Asn/Examples.antt =====
-- The theorems on slot numbers at concrete inputs, and runs of the operations.
use dot15d.Base.{◌+◌, ◌-◌, ◌^◌, ◌≤◌, ◌<◌, ◌≡◌, ◌⊎◌, refl, arith, returns}
use dot15d.Base.Int.{pos, negsuc}
use dot15d.Tsch.Asn.{AbsoluteSlotNumber, value, increment, add_i32, rem}
use dot15d.Tsch.Asn.Laws.{value-add_i32}
use dot15d.Tsch.Asn.Remainder.{sum_of_remainders, rem-value}

-- The last slot of the first 2 ^ 32.
abbrev last_low : AbsoluteSlotNumber
last_low = record { ls4b = 0xffff_ffff; ms1b = 0 }

abbrev second_high : AbsoluteSlotNumber
second_high = record { ls4b = 2; ms1b = 1 }

increment_carries : increment last_low ≡ record { ls4b = 0; ms1b = 1 }
unfolding increment
increment_carries = refl

-- The remainder of 2 ^ 32 + 2 by 3 is 0.
rem_too_large : rem second_high 3 ≡ returns 3
unfolding rem
rem_too_large = refl

value-add_i32_example :
    (value (add_i32 second_high (pos 5)) ≡ 2 ^ 32 + 7)
    × (value (add_i32 second_high (negsuc 5)) ≡ 2 ^ 33 - 4)
value-add_i32_example = value-add_i32 second_high 5 (omega arith) (omega arith)

rem-value_example :
    ((sum_of_remainders second_high 3 < 3) × (rem second_high 3 ≡ returns 0))
    ⊎ ((3 ≤ sum_of_remainders second_high 3) × (rem second_high 3 ≡ returns 3))
rem-value_example = rem-value second_high 3 (omega arith) (omega arith)
