-- ===== src/TimeStamp/Parse.antt =====
-- What the constructor of `TimeStamp` accepts.
use virtual_flight_radar_bac.Common.{
  ℕ, ◌+◌, ◌-◌, ◌*◌, ◌/◌, ◌%◌, ◌^◌, ◌<◌, ◌≡◌, refl, Bool, true, false, ◌&&◌, Option, none, some, [],
  ◌∷◌, ◌++◌, arith, ltb, if◌then◌else◌,
}
use virtual_flight_radar_bac.Common.Int.{ℤ, pos, leb_ℤ, eq_ℤ, eq_ℤ_iff_true}
use virtual_flight_radar_bac.Common.Text.{Str, substr, stoi}
use virtual_flight_radar_bac.Common.Table.{checked, test_at}
use virtual_flight_radar_bac.TimeStamp.{Clock, TimeStamp, Format, hhmmss, parts, make, newer}

-- A number below 100, as two digits.
abbrev pub two_digits : ℕ → Str
two_digits n = (b'0' + n / 10) ∷ (b'0' + n % 10) ∷ []

abbrev reads_as : Option ℤ → ℕ → Bool
reads_as none n = false
reads_as (some z) n = eq_ℤ z (pos n)

reads_as-some : (o : Option ℤ) (n : ℕ) → reads_as o n ≡ true → o ≡ some (pos n)
reads_as-some none n h = cc
reads_as-some (some z) n h = ground (arith, eq_ℤ_iff_true z (pos n))

two_digits_table : checked (λ n. reads_as (stoi 10 (two_digits n)) n) 100 ≡ true
unfolding checked stoi
two_digits_table = refl

stoi-two_digits : (n : ℕ) → n < 100 → stoi 10 (two_digits n) ≡ some (pos n)
stoi-two_digits n h =
    reads_as-some _ n (test_at (λ k. reads_as (stoi 10 (two_digits k)) k) 100 two_digits_table n h)

abbrev pub time_text : ℕ → ℕ → ℕ → Str
time_text h m s = two_digits h ++ (two_digits m ++ two_digits s)

abbrev pub millis_of : ℕ → ℕ → ℕ → ℕ
millis_of h m s = h * 3600000 + m * 60000 + s * 1000

parts-time_text :
    (h m s : ℕ)
    → h < 100
    → m < 100
    → s < 100
    → parts hhmmss (time_text h m s) ≡ some (record { h = pos h; m = pos m; s = pos s; f = pos 0 })
unfolding parts substr
parts-time_text h m s ph pm ps =
    rw (stoi-two_digits h ph, stoi-two_digits m pm, stoi-two_digits s ps)

-- On six digits, as the APRS and GPS parsers find them, the constructor accepts exactly the times of
-- a day. The stamp has the time in milliseconds, and the clock's day, or the day before if the clock
-- has not passed that time.
pub make-time_text :
    (c : Clock) (h m s : ℕ)
    → h < 100
    → m < 100
    → s < 100
    → make c (time_text h m s) hhmmss ≡ (
        if ltb h 24 && (ltb m 60 && ltb s 60)
        then some (record {
          value = pos (millis_of h m s);
          day =
              if leb_ℤ c.now (pos (millis_of h m s)) then (c.day + 2 ^ 32 - 1) % 2 ^ 32 else c.day;
        })
        else none)
unfolding make
make-time_text c h m s ph pm ps = rw (parts-time_text h m s ph pm ps, make) (ground arith)

-- Of a clock that shows a `uint32_t` day other than 0, a stamp is always older than the clock.
pub make-older :
    (c : Clock) (v : Str) (format : Format) (t : TimeStamp)
    → 0 < c.day
    → c.day < 2 ^ 32
    → make c v format ≡ some t
    → newer (record { value = c.now; day = c.day }) t ≡ true
unfolding make newer
make-older c v format t p q e = ground arith
