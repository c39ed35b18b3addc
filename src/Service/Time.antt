-- ===== src/Service/Time.antt =====
-- The times of src/service.rs: `SystemTime` and `Duration` of the standard library on a 64-bit Unix,
-- where a time has 64-bit signed seconds.
use rskrb.Prelude.{
  ℕ, zero, suc, ◌+◌, ◌-◌, ◌*◌, ◌/◌, ◌%◌, ◌≤◌, ◌<◌, ◌≡◌, ◌⊎◌, inl, inr, Bool, false, Option, none,
  some, arith, ltb, leb, ◌==◌, if◌then◌else◌,
}
use rskrb.Prelude.Int.{ℤ, pos, negsuc}
use rskrb.Result.{Result, ok, err, stuck}
use rskrb.Service.{Error, time_overflow, KerberosTime}

-- A duration is a number of nanoseconds; a time is the number of nanoseconds since the earliest time
-- of the type, which is 2^63 seconds before the epoch.
abbrev pub Duration : Type 0
Duration = ℕ

abbrev pub SystemTime : Type 0
SystemTime = ℕ

abbrev pub second : ℕ
second = 1000000000

abbrev pub unix_epoch : SystemTime
unix_epoch = 9223372036854775808000000000

-- The first number that is no time, 2^64 seconds on.
abbrev pub time_end : ℕ
time_end = 18446744073709551616000000000

abbrev pub checked_add : SystemTime → Duration → Option SystemTime
checked_add t d = if ltb (t + d) time_end then some (t + d) else none

abbrev pub checked_sub : SystemTime → Duration → Option SystemTime
checked_sub t d = if leb d t then some (t - d) else none

-- `t.duration_since(u)`, where the error holds the duration the other way.
abbrev pub duration_since : SystemTime → SystemTime → Result Duration Duration
duration_since t u = if leb u t then ok (t - u) else err (u - t)

-- `Result::is_ok_and`
abbrev pub is_ok_and : Result Duration Duration → (Duration → Bool) → Bool
is_ok_and (ok d) p = p d
is_ok_and _ p = false

unfoldable pub starts_after_skew : SystemTime → SystemTime → Duration → Bool
starts_after_skew start now max_clock_skew =
    is_ok_and (duration_since start now) λ delta. ltb max_clock_skew delta

unfoldable pub expired_after_skew : SystemTime → SystemTime → Duration → Bool
expired_after_skew now end_time max_clock_skew =
    is_ok_and (duration_since now end_time) λ delta. ltb max_clock_skew delta

-- One of the two orders is a duration, so `expect` does not fail.
unfoldable pub abs_duration : SystemTime → SystemTime → Duration
abs_duration left right = elim (duration_since left right) [
  | ok d ↦ d
  | err _ ↦ elim (duration_since right left) [ ok d ↦ d | err _ ↦ 0 | stuck ↦ 0 ]
  | stuck ↦ 0
]

abbrev pub or_overflow {ℓ} : {F : Type 0} {A : Type ℓ} → Option A → Result (Error F) A
or_overflow (some a) = ok a
or_overflow none = err time_overflow

unfoldable pub system_time_from_kerberos_time :
    {F : Type 0} → KerberosTime → Result (Error F) SystemTime
system_time_from_kerberos_time time = elim time.timestamp [
  | pos seconds ↦ or_overflow (checked_add unix_epoch (seconds * second + time.subsec_nanos))
  | negsuc n ↦ or_overflow (checked_sub unix_epoch (suc n * second + time.subsec_nanos))
]

-- `-seconds` as a signed number.
abbrev negate : ℕ → ℤ
negate zero = pos 0
negate (suc n) = negsuc n

abbrev pub i64_end : ℕ
i64_end = 9223372036854775808

unfoldable pub unix_timestamp_parts : {F : Type 0} → SystemTime → Result (Error F) (ℤ × ℕ)
unix_timestamp_parts time = elim (duration_since time unix_epoch) [
  | ok d ↦ if ltb (d / second) i64_end then ok (pos (d / second), d % second) else err time_overflow
  | err d ↦
      if ltb (d / second) i64_end
      then if d % second == 0
        then ok (negate (d / second), 0)
        else if ltb (d / second + 1) i64_end
        then ok (negate (d / second + 1), second - d % second)
        else err time_overflow
      else err time_overflow
  | stuck ↦ stuck
]

pub starts_after_skew-false :
    (start now skew : ℕ) → starts_after_skew start now skew ≡ false → start ≤ now + skew
unfolding starts_after_skew
starts_after_skew-false start now skew h = ground arith

pub expired_after_skew-false :
    (now end_time skew : ℕ) → expired_after_skew now end_time skew ≡ false → now ≤ end_time + skew
unfolding expired_after_skew
expired_after_skew-false now end_time skew h = ground arith

pub abs_duration_within : (a b skew : ℕ) → abs_duration a b ≤ skew → (a ≤ b + skew) × (b ≤ a + skew)
unfolding abs_duration
abs_duration_within a b skew h = ground arith

abbrev pub kerberos_time : ℤ → ℕ → KerberosTime
kerberos_time seconds nanos = record { timestamp = seconds; subsec_nanos = nanos }

module _ {F : Type 0} where
  pub system_time_after :
      (s ns : ℕ) {t : SystemTime}
      → system_time_from_kerberos_time {F = F} (kerberos_time (pos s) ns) ≡ ok t
      → (t ≡ unix_epoch + (s * second + ns)) × (t < time_end)
  unfolding system_time_from_kerberos_time
  system_time_after s ns q = ground arith

  pub system_time_before :
      (n ns : ℕ) {t : SystemTime}
      → system_time_from_kerberos_time {F = F} (kerberos_time (negsuc n) ns) ≡ ok t
      → t + (suc n * second + ns) ≡ unix_epoch
  unfolding system_time_from_kerberos_time
  system_time_before n ns q = ground arith

  parts_after :
      (s ns : ℕ) (t : SystemTime)
      → ns < second
      → t ≡ unix_epoch + (s * second + ns)
      → t < time_end
      → unix_timestamp_parts {F = F} t ≡ ok (pos s, ns)
  unfolding unix_timestamp_parts
  parts_after s ns t h e b = ground arith

  parts_before :
      (n : ℕ) (t : SystemTime)
      → suc n < i64_end
      → t + suc n * second ≡ unix_epoch
      → unix_timestamp_parts {F = F} t ≡ ok (negsuc n, 0)
  unfolding unix_timestamp_parts
  parts_before n t b e = ground arith

  parts_before_fraction :
      (n ns : ℕ) (t : SystemTime)
      → suc n + 1 < i64_end
      → 0 < ns
      → ns < second
      → t + (suc n * second + ns) ≡ unix_epoch
      → unix_timestamp_parts {F = F} t ≡ ok (negsuc (suc n), second - ns)
  unfolding unix_timestamp_parts
  parts_before_fraction n ns t b p h e = ground arith

-- A Kerberos time from the epoch on is read as a system time that is written as the same seconds and
-- nanoseconds; so is one before the epoch in whole seconds.
pub unix_timestamp_parts-system_time_from_kerberos_time :
    {F : Type 0} (seconds : ℤ) (nanos : ℕ) {t : SystemTime}
    → nanos < second
    → ((s : ℕ) × (seconds ≡ pos s))
      ⊎ ((n : ℕ) × (seconds ≡ negsuc n) × (suc n < i64_end) × (nanos ≡ 0))
    → system_time_from_kerberos_time {F = F} (kerberos_time seconds nanos) ≡ ok t
    → unix_timestamp_parts {F = F} t ≡ ok (seconds, nanos)
unix_timestamp_parts-system_time_from_kerberos_time seconds nanos {t} h (inl (s, e)) q =
    let (place, below) = system_time_after s nanos (rw e at q) in
    rw e (parts_after s nanos t h place below)
unix_timestamp_parts-system_time_from_kerberos_time seconds nanos {t} h (inr (n, e, b, z)) q =
    rw (e, z) (parts_before n t b (omega (arith, system_time_before n nanos (rw e at q), z)))

-- A time before the epoch with a fraction of a second is read too early by twice the fraction: the
-- nanoseconds of a `DateTime` count up from its seconds and are counted down here. What is written for
-- it has one second less and the complement of the fraction.
pub unix_timestamp_parts-before_epoch :
    {F : Type 0} (n nanos : ℕ) {t : SystemTime}
    → suc n + 1 < i64_end
    → 0 < nanos
    → nanos < second
    → system_time_from_kerberos_time {F = F} (kerberos_time (negsuc n) nanos) ≡ ok t
    → (t + 2 * nanos + suc n * second ≡ unix_epoch + nanos)
      × (unix_timestamp_parts {F = F} t ≡ ok (negsuc (suc n), second - nanos))
unix_timestamp_parts-before_epoch n nanos {t} b p h q =
    let place = system_time_before n nanos q in
    (omega (arith, place), parts_before_fraction n nanos t b p h place)
