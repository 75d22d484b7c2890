-- ===== src/Feed/Parser/Nmea/Guarded.antt =====
-- Texts that are made of sentences which the guard lets through.
use mathlib.Core.List.{append-nil, flatten, append_assoc}
use virtual_flight_radar_bac.Common.{
  ◌≡◌, refl, sym, ap, ◌∙◌, true, some, List, [], ◌∷◌, ◌++◌, All, All-append,
}
use virtual_flight_radar_bac.Common.Text.{Str}
use virtual_flight_radar_bac.Feed.Parser.Nmea.{checksum_matches}

abbrev pub IsGuarded : Str → Type 0
IsGuarded s = checksum_matches s ≡ some true

flatten-append : (ss ts : List Str) → flatten (ss ++ ts) ≡ flatten ss ++ flatten ts
unfolding flatten
flatten-append [] ts = refl
flatten-append (s ∷ ss) ts = ap (λ t. s ++ t) (flatten-append ss ts) ∙ sym (append_assoc s _ _)

-- A text is a sequence of such sentences.
pub record AreGuarded (text : Str) : Type 0 where
  pub pieces : List Str
  pub whole : text ≡ flatten pieces
  pub guarded : All IsGuarded pieces

pub empty-AreGuarded : AreGuarded []
unfolding flatten
empty-AreGuarded = record { pieces = []; whole = refl; guarded = tt }

pub append-AreGuarded : (s t : Str) → AreGuarded s → AreGuarded t → AreGuarded (s ++ t)
append-AreGuarded s t a b = record {
  pieces = a.pieces ++ b.pieces;
  whole = rw (a.whole, b.whole) (sym (flatten-append a.pieces b.pieces));
  guarded = All-append IsGuarded a.pieces b.pieces a.guarded b.guarded;
}

pub single-AreGuarded : (s : Str) → IsGuarded s → AreGuarded s
unfolding flatten
single-AreGuarded s g = record { pieces = s ∷ []; whole = sym (append-nil s); guarded = (g, tt) }
