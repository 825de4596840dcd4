-- ===== src/Time/Examples.antt =====
-- The theorems on time at concrete inputs: symbols of 16 µs, microseconds and milliseconds.
use dot15d.Base.{◌+◌, ◌*◌, ◌<◌, ◌≤◌, arith}
use dot15d.Base.Int.{negsuc}
use dot15d.Time.{Instant, Duration, convert_rounding_down, convert_rounding_up}
use dot15d.Time.Rounding.{convert_rounding-bounds}

abbrev early : Instant 62500
early = record { tick = 100 }

abbrev late : Instant 62500
late = record { tick = 700 }

abbrev back : Duration 62500
back = record { ticks = negsuc 39 }

convert_rounding-bounds_example :
    (convert_rounding_down 13 62500 1000 * 62500 ≤ 13 * 1000)
    × (13 * 1000 < (convert_rounding_down 13 62500 1000 + 1) * 62500)
    × (13 * 1000 ≤ convert_rounding_up 13 62500 1000 * 62500)
    × (convert_rounding_up 13 62500 1000 * 62500 < 13 * 1000 + 62500)
    × (convert_rounding_up 13 62500 1000 ≤ convert_rounding_down 13 62500 1000 + 1)
convert_rounding-bounds_example = convert_rounding-bounds 13 62500 1000 (omega arith) (omega arith)
