-- ===== src/TimeStamp/DateTime.antt =====
-- src/object/impl/DateTimeImplBoost.cpp: the clock of the time stamps. What
-- boost::posix_time::microsec_clock gives for the time in UTC is a parameter, by what is asked of it.
pub mod Window
use virtual_flight_radar_bac.Common.{ℕ, ◌-◌, ◌%◌, ◌^◌}
use virtual_flight_radar_bac.Common.Int.{ℤ, pos, negsuc}
use virtual_flight_radar_bac.TimeStamp.{Clock}

-- `time_of_day().total_milliseconds()` and `date().modjulian_day()`.
pub record UniversalTime : Type 0 where
  pub total_milliseconds : ℤ
  pub modjulian_day : ℤ

-- `static_cast<std::int64_t>` of a number of that type.
unfoldable pub now : UniversalTime → ℤ
now t = t.total_milliseconds

-- `static_cast<std::uint32_t>`.
unfoldable pub day : UniversalTime → ℕ
day t = elim t.modjulian_day [ pos n ↦ n % 2 ^ 32 | negsuc n ↦ 2 ^ 32 - 1 - n % 2 ^ 32 ]

-- What the constructor of a time stamp reads: first the day, and then the time.
unfoldable pub read_clock : UniversalTime → UniversalTime → Clock
unfolding now day
read_clock first second = record { day = day first; now = now second }
