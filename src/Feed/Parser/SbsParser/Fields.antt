-- ===== src/Feed/Parser/SbsParser/Fields.antt =====
-- What the fields of an accepted message determine.
use mathlib.Core.Path.{subst}
use virtual_flight_radar_bac.Common.{
  ℕ, zero, suc, ◌+◌, ◌-◌, ◌≤◌, ◌<◌, ◌≡◌, refl, Option, none, some, arith, take, drop, Option-cases,
  inl, inr,
}
use virtual_flight_radar_bac.Common.Int.{ℤ}
use virtual_flight_radar_bac.Common.Text.{Str, find_char}
use virtual_flight_radar_bac.Double.{Double}
use virtual_flight_radar_bac.TimeStamp
use virtual_flight_radar_bac.TimeStamp.{Clock, hh_mm_ss_fff, ◌>>=◌}
use virtual_flight_radar_bac.Object.Position.{Position}
use virtual_flight_radar_bac.Object.Aircraft.{Aircraft}
use virtual_flight_radar_bac.Feed.Parser.GpsParser.{stod}
use virtual_flight_radar_bac.Feed.Parser.SbsParser.{State, parse_field, fields, finish, unpack}

module _ {W : Type 0} ⦃d : Double W⦄ where
  -- Two states that agree on what the fields before the last `left` ones set.
  record IsAlike (left : ℕ) (s t : State W) : Type 0 where
    same : s.1 ≡ t.1
    height : left ≤ 4 → s.0.altitude ≡ t.0.altitude
    north : left ≤ 1 → s.0.latitude ≡ t.0.latitude
    east : left ≤ 0 → s.0.longitude ≡ t.0.longitude

  abbrev AreAlike : ℕ → Option (State W) → Option (State W) → Type 0
  AreAlike left none none = Unit {0}
  AreAlike left none (some t) = ⊥
  AreAlike left (some s) none = ⊥
  AreAlike left (some s) (some t) = IsAlike left s t

  parse_field-AreAlike :
      (clock : Clock) (left nr : ℕ) (field : Str) (p q : Position W) (a : Aircraft W)
      → nr + left ≡ 15
      → IsAlike (suc left) (p, a) (q, a)
      → AreAlike left (parse_field clock nr field (p, a)) (parse_field clock nr field (q, a))
  unfolding parse_field
  parse_field-AreAlike clock left nr field p q a h e = elim (Option-cases (stod {W = W} field)) [
    | inl absent ↦ elim (Option-cases (TimeStamp.make clock field hh_mm_ss_fff)) [
      | inl bad ↦ ground arith
      | inr (t, good) ↦ ground arith
    ]
    | inr (w, present) ↦ elim (Option-cases (TimeStamp.make clock field hh_mm_ss_fff)) [
      | inl bad ↦ ground arith
      | inr (t, good) ↦ ground arith
    ]
  ]

  abbrev GiveAlike : Option (State W × ℕ) → Option (State W × ℕ) → Type 0
  GiveAlike none none = Unit {0}
  GiveAlike none (some y) = ⊥
  GiveAlike (some x) none = ⊥
  GiveAlike (some x) (some y) = (x.1 ≡ y.1) × IsAlike x.1 x.0 y.0

  parsed-AreAlike :
      (clock : Clock) (left : ℕ) (field : Str) (s t : State W)
      → left < 14
      → IsAlike (suc left) s t
      → AreAlike left
          (parse_field clock (15 - left) field s)
          (parse_field clock (15 - left) field t)
  parsed-AreAlike clock left field s t h e =
      subst
        (λ b.
          AreAlike left (parse_field clock (15 - left) field s)
            (parse_field clock (15 - left) field (t.0, b)))
        e.same
        (parse_field-AreAlike clock left (15 - left) field s.0 t.0 s.1 (omega arith)
          (record { same = refl; height = e.height; north = e.north; east = e.east }))

  -- One turn of the loop, where the rest of the loop keeps states alike.
  turn :
      (left : ℕ) (go_on : State W → Option (State W × ℕ)) (o u : Option (State W))
      → AreAlike left o u
      → ((s t : State W) → IsAlike left s t → GiveAlike (go_on s) (go_on t))
      → GiveAlike
          (elim o [ none ↦ none | some s ↦ go_on s ])
          (elim u [ none ↦ none | some s ↦ go_on s ])
  turn left go_on none none r keep = tt
  turn left go_on none (some u) r keep = absurd r
  turn left go_on (some o) none r keep = absurd r
  turn left go_on (some o) (some u) r keep = keep o u r

  fields-GiveAlike :
      (clock : Clock) (left : ℕ) (rest : Str) (s t : State W)
      → left ≤ 14
      → IsAlike left s t
      → GiveAlike (fields clock left rest s) (fields clock left rest t)
  unfolding fields
  fields-GiveAlike clock zero rest s t h e = (refl, e)
  fields-GiveAlike clock (suc left) rest s t h e = elim (Option-cases (find_char b',' rest)) [
    | inl last ↦ rw (last, fields) (refl, e)
    | inr (k, found) ↦
        rw (found, fields)
          (turn left (fields clock left (drop (suc k) rest))
            (parse_field clock (15 - left) (take k rest) s)
            (parse_field clock (15 - left) (take k rest) t)
            (parsed-AreAlike clock left (take k rest) s t h e)
            (λ s' t' same.
              fields-GiveAlike clock left (drop (suc k) rest) s' t' (omega arith) same))
  ]

  finish-alike :
      (max_height : ℤ) (o u : Option (State W × ℕ))
      → GiveAlike o u
      → ◌≡◌ {A = Option (Aircraft W)}
          (elim o [ none ↦ none | some r ↦ finish max_height r ])
          (elim u [ none ↦ none | some r ↦ finish max_height r ])
  unfolding finish
  finish-alike max_height none none g = refl
  finish-alike max_height none (some u) g = absurd g
  finish-alike max_height (some o) none g = absurd g
  finish-alike max_height (some o) (some u) g = ground arith

  -- The position that `unpack` starts from is not initialised. It makes no difference to the result:
  -- a message is accepted only if its fields set all of the position.
  pub unpack-garbage :
      (max_height : ℤ) (clock : Clock) (p q : Position W) (sentence : Str) (a : Aircraft W)
      → unpack max_height clock p sentence a ≡ unpack max_height clock q sentence a
  unfolding unpack
  unpack-garbage max_height clock p q sentence a =
      let start : IsAlike 14 (p, a) (q, a) = record {
        same = refl;
        height = λ h. absurd (omega arith);
        north = λ h. absurd (omega arith);
        east = λ h. absurd (omega arith);
      } in
      rw (
        finish-alike max_height (fields clock 14 (drop 6 sentence) (p, a))
          (fields clock 14 (drop 6 sentence) (q, a))
          (fields-GiveAlike clock 14 (drop 6 sentence) (p, a) (q, a) (omega arith) start))
