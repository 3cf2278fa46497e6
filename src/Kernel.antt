-- ===== src/Kernel.antt =====
-- The parts of SystemC that the timer and the clock rely on: an `sc_event` with timed notifications,
-- by the behaviour that IEEE 1666 documents, and `double` with `sc_time`. A time is a number of units of the time resolution.
use sc_platform.Prelude.{ℕ, ◌+◌, ◌*◌, ◌/◌, ◌^◌, ◌<◌, min, ◌≡◌, Option, none, some, Bool}

pub record EventKernel : Type 1 where
  pub Event : Type 0
  -- The absolute time of the pending notification.
  pub due : Event → Option ℕ
  -- `notify( delay )` at the time `now`.
  pub notify : ℕ → ℕ → Event → Event
  pub cancel : Event → Event
  -- The event after the kernel has triggered it.
  pub fired : Event → Event
  pub due-cancel : (e : Event) → due (cancel e) ≡ none
  pub due-fired : (e : Event) → due (fired e) ≡ none
  pub due-notify_idle :
      (now delay : ℕ) (e : Event) → due e ≡ none → due (notify now delay e) ≡ some (now + delay)
  -- An earlier notification that is pending stands.
  pub due-notify_pending :
      (now delay t : ℕ) (e : Event)
      → due e ≡ some t
      → due (notify now delay e) ≡ some (min t (now + delay))

-- The arithmetic on `double` that a clock does with `sc_time`: IEEE 754 and the conversions that
-- IEEE 1666 documents. Products and quotients of times below 2^52 units are exact.
pub record TimeArithmetic : Type 1 where
  pub Real : Type 0
  -- `0.0 < x`, and `0.0 < x and x < 1.0`.
  pub is_positive : Real → Bool
  pub is_fraction : Real → Bool
  -- `x * t`, and `( 1 - x ) * t`.
  pub part : Real → ℕ → ℕ
  pub rest : Real → ℕ → ℕ
  -- `sc_time( 1.0 / x, SC_SEC )`.
  pub period_of : Real → ℕ
  -- `n * t`, and `( uint64_t )( s / t )`.
  pub times : ℕ → ℕ → ℕ
  pub quotient : ℕ → ℕ → ℕ
  pub times-exact : (n t : ℕ) → n * t < 2 ^ 52 → times n t ≡ n * t
  pub quotient-exact : (s t : ℕ) → s < 2 ^ 52 → 0 < t → quotient s t ≡ s / t
