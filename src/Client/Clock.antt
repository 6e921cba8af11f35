-- ===== src/Client/Clock.antt =====
-- The clocks (src/tase2_client.cpp, src/tase2_client_connection.cpp): what gettimeofday and
-- clock_gettime answer, in milliseconds. Seconds are converted to a uint64_t, and the sum wraps.
use fledge_south_tase.Common.{
  ℕ, suc, ◌+◌, ◌*◌, ◌/◌, ◌%◌, ◌^◌, ◌≤◌, ◌<◌, Option, none, some, ◌≡◌, arith,
}

abbrev pub Time : Type 0
Time = ℕ × ℕ

-- GetCurrentTimeInMs, of the seconds and microseconds of gettimeofday.
unfoldable pub get_current_time_in_ms : Time → ℕ
get_current_time_in_ms (sec, usec) = ((sec * 1000) % 2 ^ 64 + usec / 1000) % 2 ^ 64

-- getMonotonicTimeInMs, of the seconds and nanoseconds of clock_gettime, or 0 if that fails.
unfoldable pub get_monotonic_time_in_ms : Option Time → ℕ
get_monotonic_time_in_ms none = 0
get_monotonic_time_in_ms (some (sec, nsec)) = ((sec * 1000) % 2 ^ 64 + nsec / 1000000) % 2 ^ 64

-- Both give the whole milliseconds of the time that has passed.
pub get_monotonic_time_in_ms_floor :
    (sec nsec : ℕ)
    → sec < 2 ^ 54
    → nsec < 1000000000
    → let ms = get_monotonic_time_in_ms (some (sec, nsec)) in
      (ms * 1000000 ≤ sec * 1000000000 + nsec) × (sec * 1000000000 + nsec < suc ms * 1000000)
unfolding get_monotonic_time_in_ms
get_monotonic_time_in_ms_floor sec nsec a b =
    let no_wrap : ((sec * 1000) % 2 ^ 64 + nsec / 1000000) % 2 ^ 64 ≡ sec * 1000 + nsec / 1000000 =
      omega arith in
    rw no_wrap (omega arith, omega arith)

pub get_current_time_in_ms_floor :
    (sec usec : ℕ)
    → sec < 2 ^ 54
    → usec < 1000000
    → let ms = get_current_time_in_ms (sec, usec) in
      (ms * 1000 ≤ sec * 1000000 + usec) × (sec * 1000000 + usec < suc ms * 1000)
unfolding get_current_time_in_ms
get_current_time_in_ms_floor sec usec a b =
    let no_wrap : ((sec * 1000) % 2 ^ 64 + usec / 1000) % 2 ^ 64 ≡ sec * 1000 + usec / 1000 =
      omega arith in
    rw no_wrap (omega arith, omega arith)

-- A later time gives no smaller number of milliseconds.
pub get_monotonic_time_in_ms_le :
    (sec nsec sec' nsec' : ℕ)
    → sec' < 2 ^ 54
    → nsec < 1000000000
    → nsec' < 1000000000
    → sec * 1000000000 + nsec ≤ sec' * 1000000000 + nsec'
    → get_monotonic_time_in_ms (some (sec, nsec)) ≤ get_monotonic_time_in_ms (some (sec', nsec'))
get_monotonic_time_in_ms_le sec nsec sec' nsec' a b b' later =
    let (low, _) = get_monotonic_time_in_ms_floor sec nsec (omega arith) b in
    let (_, high) = get_monotonic_time_in_ms_floor sec' nsec' a b' in omega (arith, low, high)
