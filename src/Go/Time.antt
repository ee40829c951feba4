-- ===== src/Go/Time.antt =====
-- The parts of Go's package time that the program calls. An instant is the number of nanoseconds
-- since Go's zero time (January 1 of the year 1, UTC), a duration an int64 number of nanoseconds.
-- One number stands for the wall clock and the monotonic clock of a reading.
use rateshield.Prelude.{
  ℕ, suc, Bool, ℤ, pos, ◌+ℤ◌, ◌-ℤ◌, ◌*ℤ◌, quot, floor_div, ltb_ℤ, eq_ℤ, if◌then◌else◌, int64,
  max_int64, min_int64,
}

abbrev pub Time : Type 0
Time = ℤ

abbrev pub Duration : Type 0
Duration = ℤ

-- time.Time{}
abbrev pub zero_time : Time
zero_time = pos 0

-- time.Unix(0, 0): January 1, 1970, in nanoseconds since the zero time.
abbrev pub unix_epoch : Time
unix_epoch = pos 62135596800000000000

abbrev pub millisecond : Duration
millisecond = pos 1_000_000

abbrev pub second : Duration
second = pos 1_000_000_000

abbrev pub minute : Duration
minute = pos 60_000_000_000

abbrev pub hour : Duration
hour = pos 3_600_000_000_000

-- t.Add(d)
abbrev pub add : Time → Duration → Time
add t d = t +ℤ d

-- t.Sub(u), which stops at the ends of the int64 range
unfoldable pub sub : Time → Time → Duration
sub t u =
    let d = t -ℤ u in
    if ltb_ℤ max_int64 d then max_int64 else if ltb_ℤ d min_int64 then min_int64 else d

-- t.After(u), t.Before(u), t.IsZero()
abbrev pub after : Time → Time → Bool
after t u = ltb_ℤ u t

abbrev pub before : Time → Time → Bool
before t u = ltb_ℤ t u

abbrev pub is_zero : Time → Bool
is_zero t = eq_ℤ t zero_time

-- t.UnixMilli(), t.UnixNano(), time.UnixMilli(ms)
unfoldable pub unix_milli : Time → ℤ
unix_milli t = int64 (floor_div (t -ℤ unix_epoch) 1_000_000)

unfoldable pub unix_nano : Time → ℤ
unix_nano t = int64 (t -ℤ unix_epoch)

unfoldable pub of_unix_milli : ℤ → Time
of_unix_milli ms = unix_epoch +ℤ ms *ℤ millisecond

-- t.Unix(), in seconds
unfoldable pub unix : Time → ℤ
unix t = int64 (floor_div (t -ℤ unix_epoch) 1_000_000_000)

-- d.Milliseconds()
unfoldable pub milliseconds : Duration → ℤ
milliseconds d = quot d millisecond

-- The readings of the clock that a call makes, in order; `time.Now()` takes the first of them.
abbrev pub Clock : Type 0
Clock = ℕ → Time

abbrev pub now : Clock → Time
now clock = clock 0

abbrev pub later : Clock → Clock
later clock = λ i. clock (suc i)
