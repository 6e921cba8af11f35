-- ===== src/Client/Monitor/Waiting.antt =====
-- The loop in which the monitoring thread waits for a connection (src/tase2_client.cpp).
pub mod Pass
use fledge_south_tase.Common.{
  ℕ, zero, suc, ◌+◌, ◌*◌, ◌/◌, ◌≤◌, ◌<◌, Bool, true, false, ◌&&◌, not, Option, none, some, ltb,
  ltb→lt, ◌≡◌, refl, arith, if◌then◌else◌, ◌⊎◌, inl, inr, Bool-cases,
}
use fledge_south_tase.Common.Int.{ℤ, pos}
use fledge_south_tase.System.{is_over}

-- What the loop's k-th test meets: the clock, and Connected ().
abbrev pub Sights : Type 0
Sights = ℕ → ℕ × Bool

-- The loop from its k-th test on: whether the connection came up before the timeout; `none` means
-- that the fuel ran out.
unfoldable pub wait_connected : ℕ → ℤ → ℕ → Sights → ℕ → Option Bool
wait_connected zero timeout start seen k = none
wait_connected (suc fuel) timeout start seen k =
    let rest = wait_connected fuel timeout start seen (suc k) in
    if (seen k).1 then some true else if is_over timeout start (seen k).0 then some false else rest

-- Connected () was false at the first k tests.
abbrev pub is_quiet : Sights → ℕ → Bool
is_quiet seen zero = true
is_quiet seen (suc k) = not (seen k).1 && is_quiet seen k

-- The test at which the loop ends.
abbrev pub EndsAt : ℕ → ℕ → Sights → Option Bool → ℕ → Type 0
EndsAt n start seen r k =
    (r ≡ some (seen k).1) × (is_quiet seen k ≡ true) × ((seen k).1 ≡ true ⊎ start + n < (seen k).0)

module _ (n start : ℕ) (seen : Sights) (clock : (k : ℕ) → start + 10 * k ≤ (seen k).0) where
  wait_from :
      (fuel k : ℕ)
      → n + 10 < 10 * (k + fuel)
      → 10 * k ≤ n + 10
      → is_quiet seen k ≡ true
      → (m : ℕ) × (m < k + fuel) × EndsAt n start seen (wait_connected fuel (pos n) start seen k) m
  unfolding wait_connected
  wait_from zero k enough early quiet = absurd (omega arith)
  wait_from (suc fuel) k enough early quiet = elim (Bool-cases (seen k).1) [
    | inl up ↦ (k, omega arith, (rw up refl, quiet, inl up))
    | inr down ↦ elim (Bool-cases (ltb (start + n) (seen k).0)) [
      | inl late ↦
          (k, omega arith, (rw (down, late) refl, quiet, inr (ltb→lt (start + n) (seen k).0 late)))
      | inr soon ↦
          let still : 10 * k ≤ n = ground (arith, clock k) in
          let (m, before, ends) =
            wait_from fuel (suc k) (omega arith) (omega arith) (rw down quiet) in
          rw (down, soon) (m, omega (arith, before), ends)
    ]
  ]

  -- If the clock has advanced by ten milliseconds at least from each test to the next, since the
  -- loop sleeps that long, the loop ends after at most n / 10 + 2 tests for a timeout of n
  -- milliseconds: at a test that finds the connection up, and answers so, or that comes later than
  -- the timeout; at all tests before it the connection was not up.
  pub wait_connected-EndsAt :
      (k : ℕ) × (k < n / 10 + 2)
      × EndsAt n start seen (wait_connected (n / 10 + 2) (pos n) start seen 0) k
  wait_connected-EndsAt =
      let (k, few, ends) = wait_from (n / 10 + 2) 0 (omega arith) (omega arith) refl in
      (k, omega (arith, few), ends)
