-- ===== src/TimeStamp.antt =====
-- include/object/TimeStamp.hpp: the time of a report, by day and by millisecond of the day.
-- `DateTimeT::day()` and `DateTimeT::now()` are what the clock shows when the constructor reads it.
pub mod Order
pub mod Parse
pub mod DateTime
use virtual_flight_radar_bac.Common.{
  ℕ, ◌+◌, ◌-◌, ◌*◌, ◌%◌, ◌^◌, ◌≡◌, refl, Bool, true, false, ◌&&◌, ◌||◌, Option, none, some, ltb,
  ◌==◌, if◌then◌else◌,
}
use virtual_flight_radar_bac.Common.Int.{
  ℤ, pos, negsuc, ltb_ℤ, leb_ℤ, eq_ℤ, pos_part, neg_part, sub_ℕ,
}
use virtual_flight_radar_bac.Common.Text.{Str, codes, substr, stoi}

pub record Clock : Type 0 where
  pub day : ℕ
  pub now : ℤ

-- `value` is an `int64_t`, `day` a `uint32_t`.
pub record TimeStamp : Type 0 where
  pub value : ℤ
  pub day : ℕ

pub data Format : Type 0 where
  hhmmss hh_mm_ss_fff : Format

unfoldable pub initial : TimeStamp
initial = record { value = pos 0; day = 0 }

infixl 5 ◌>>=◌
abbrev pub ◌>>=◌ {ℓ κ} : {A : Type ℓ} {B : Type κ} → Option A → (A → Option B) → Option B
none >>= f = none
some a >>= f = f a

-- `std::stoi(value.substr(p, n))`.
unfoldable pub number_at : Str → ℕ → ℕ → Option ℤ
number_at s p n = substr s p n >>= stoi 10

pub record Parts : Type 0 where
  pub h : ℤ
  pub m : ℤ
  pub s : ℤ
  pub f : ℤ

-- The `switch` of the constructor.
unfoldable pub parts : Format → Str → Option Parts
unfolding number_at
parts hhmmss v = do
  h ← number_at v 0 2
  m ← number_at v 2 2
  s ← number_at v 4 2
  some (record { h = h; m = m; s = s; f = pos 0 })
parts hh_mm_ss_fff v = do
  h ← number_at v 0 2
  m ← number_at v 3 2
  s ← number_at v 6 2
  f ← number_at v 9 3
  some (record { h = h; m = m; s = s; f = f })

-- h * 3600000 + m * 60000 + s * 1000 + f; no `int` overflows on parts of at most three characters.
unfoldable pub millis : Parts → ℤ
millis p =
    sub_ℕ (pos_part p.h * 3600000 + pos_part p.m * 60000 + pos_part p.s * 1000 + pos_part p.f)
      (neg_part p.h * 3600000 + neg_part p.m * 60000 + neg_part p.s * 1000 + neg_part p.f)

-- The check of the parts: only from above.
unfoldable pub out_of_range : Parts → Bool
out_of_range p =
    ltb_ℤ (pos 23) p.h || ltb_ℤ (pos 59) p.m || ltb_ℤ (pos 59) p.s || ltb_ℤ (pos 999) p.f

-- A time that is not yet reached today is one of yesterday. `--m_day` wraps.
unfoldable pub stamp : Clock → Parts → TimeStamp
unfolding millis
stamp c p = record {
  value = millis p;
  day = if leb_ℤ c.now (millis p) then (c.day + 2 ^ 32 - 1) % 2 ^ 32 else c.day;
}

-- The constructor; `none` is `std::invalid_argument`.
unfoldable pub make : Clock → Str → Format → Option TimeStamp
unfolding out_of_range stamp
make c v format = do p ← parts format v; if out_of_range p then none else some (stamp c p)

-- `operator>`.
unfoldable pub newer : TimeStamp → TimeStamp → Bool
newer a b = ltb b.day a.day || ((a.day == b.day) && ltb_ℤ b.value a.value)

noon : Clock
noon = record { day = 58000; now = pos 43200000 }

make_tests :
    (make noon (codes "112233") hhmmss ≡ some (record { value = pos 40953000; day = 58000 }))
    × (make noon (codes "120000") hhmmss ≡ some (record { value = pos 43200000; day = 57999 }))
    × (make noon (codes "246060") hhmmss ≡ none)
    × (make noon (codes "1234") hhmmss ≡ none)
    × (make noon (codes "11:22:33.456") hh_mm_ss_fff
        ≡ some (record { value = pos 40953456; day = 58000 }))
    × (make noon (codes "-1:00:00.000") hh_mm_ss_fff
        ≡ some (record { value = negsuc 3599999; day = 58000 }))
unfolding make parts substr stoi noon
make_tests = (refl, refl, refl, refl, refl, refl)
