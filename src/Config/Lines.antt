-- ===== src/Config/Lines.antt =====
-- The list of the feeds' names.
use mathlib.Core.List.{map}
use virtual_flight_radar_bac.Common.{
  ℕ, zero, suc, ◌≡◌, refl, ap, Bool, false, ◌==◌, some, none, List, [], ◌∷◌, ◌++◌, arith, All,
}
use virtual_flight_radar_bac.Common.Text.{Str}
use virtual_flight_radar_bac.Math.Checksum.{Lacks}
use virtual_flight_radar_bac.Config.{
  from_text, to_text, trim_string, get_lines, trim_all, split_comma_separated, is_empty,
}

-- The items with a comma between each two.
abbrev pub join : List Str → Str
join [] = []
join (item ∷ []) = item
join (item ∷ next ∷ rest) = item ++ b',' ∷ join (next ∷ rest)

abbrev pub blanks : ℕ → Str
blanks zero = []
blanks (suc n) = b' ' ∷ blanks n

abbrev pub starts_blank : Str → Bool
starts_blank [] = false
starts_blank (c ∷ s) = c == b' '

abbrev pub ends_blank : Str → Bool
ends_blank [] = false
ends_blank (c ∷ []) = c == b' '
ends_blank (c ∷ b ∷ s) = ends_blank (b ∷ s)

-- A text without commas, not empty, whose first and last byte are no blanks.
pub record IsItem (s : Str) : Type 0 where
  pub one : Lacks b',' s
  pub full : is_empty s ≡ false
  pub starts : starts_blank s ≡ false
  pub ends : ends_blank s ≡ false

-- A name as it is written: the number of blanks before it, the name, and that of blanks behind it.
abbrev pub Written : Type 0
Written = ℕ × Str × ℕ

abbrev pub name_of : Written → Str
name_of (before, name, behind) = name

abbrev pub text_of : Written → Str
text_of (before, name, behind) = blanks before ++ (name ++ blanks behind)

from_text-blanks : (n : ℕ) (s : Str) → from_text (blanks n ++ s) ≡ from_text s
unfolding from_text
from_text-blanks zero s = refl
from_text-blanks (suc n) s = from_text-blanks n s

from_text-item :
    (s t : Str) → is_empty s ≡ false → starts_blank s ≡ false → from_text (s ++ t) ≡ some (s ++ t)
unfolding from_text
from_text-item [] t full starts = absurd (ground (arith, full))
from_text-item (c ∷ s) t full starts = rw starts refl

to_text-blanks : (n : ℕ) → to_text (blanks n) ≡ none
unfolding to_text
to_text-blanks zero = refl
to_text-blanks (suc n) = rw (to_text-blanks n) refl

to_text-item :
    (s : Str) (n : ℕ) → is_empty s ≡ false → ends_blank s ≡ false → to_text (s ++ blanks n) ≡ some s
unfolding to_text
to_text-item [] n full ends = absurd (ground (arith, full))
to_text-item (c ∷ []) n full ends = rw (to_text-blanks n, ends, to_text) refl
to_text-item (c ∷ b ∷ s) n full ends = rw (to_text-item (b ∷ s) n refl ends, to_text) refl

trim_string-text_of : (w : Written) → IsItem (name_of w) → trim_string (text_of w) ≡ name_of w
unfolding trim_string
trim_string-text_of (before, name, behind) i =
    rw
      (
        from_text-blanks before (name ++ blanks behind),
        from_text-item name (blanks behind) i.full i.starts,
        to_text-item name behind i.full i.ends,
      )
      refl

-- What `get_lines` takes for one item.
record IsPiece (s : Str) : Type 0 where
  one : Lacks b',' s
  full : is_empty s ≡ false

Lacks-append : (s t : Str) → Lacks b',' s → Lacks b',' t → Lacks b',' (s ++ t)
Lacks-append [] t l k = k
Lacks-append (c ∷ s) t l k = (l.0, Lacks-append s t l.1 k)

Lacks-blanks : (n : ℕ) → Lacks b',' (blanks n)
Lacks-blanks zero = tt
Lacks-blanks (suc n) = ((λ e. omega arith), Lacks-blanks n)

is_empty-around : (n : ℕ) (s t : Str) → is_empty s ≡ false → is_empty (blanks n ++ (s ++ t)) ≡ false
is_empty-around zero [] t full = absurd (ground (arith, full))
is_empty-around zero (c ∷ s) t full = refl
is_empty-around (suc n) s t full = refl

text_of-IsPiece : (w : Written) → IsItem (name_of w) → IsPiece (text_of w)
text_of-IsPiece (before, name, behind) i = record {
  one =
      Lacks-append (blanks before) _ (Lacks-blanks before)
        (Lacks-append name _ i.one (Lacks-blanks behind));
  full = is_empty-around before name (blanks behind) i.full;
}

get_lines-comma : (s rest : Str) → Lacks b',' s → get_lines (s ++ b',' ∷ rest) ≡ s ∷ get_lines rest
unfolding get_lines
get_lines-comma [] rest l = refl
get_lines-comma (c ∷ s) rest l = ground (arith, get_lines-comma s rest l.1)

get_lines-one : (c : ℕ) (s : Str) → Lacks b',' (c ∷ s) → get_lines (c ∷ s) ≡ (c ∷ s) ∷ []
unfolding get_lines
get_lines-one c [] l = ground arith
get_lines-one c (b ∷ s) l = ground (arith, get_lines-one b s l.1)

get_lines-join : (items : List Str) → All IsPiece items → get_lines (join items) ≡ items
unfolding get_lines
get_lines-join [] a = refl
get_lines-join ([] ∷ []) a = absurd (ground (arith, a.0.full))
get_lines-join ((c ∷ s) ∷ []) a = get_lines-one c s a.0.one
get_lines-join (item ∷ next ∷ rest) a =
    rw (get_lines-comma item (join (next ∷ rest)) a.0.one)
      (ap (◌∷◌ item) (get_lines-join (next ∷ rest) a.1))

All-IsPiece : (ws : List Written) → All (λ w. IsItem (name_of w)) ws → All IsPiece (map text_of ws)
All-IsPiece [] a = tt
All-IsPiece (w ∷ ws) a = (text_of-IsPiece w a.0, All-IsPiece ws a.1)

trim_all-text_of :
    (ws : List Written)
    → All (λ w. IsItem (name_of w)) ws
    → trim_all (map text_of ws) ≡ map name_of ws
unfolding trim_all
trim_all-text_of [] a = refl
trim_all-text_of (w ∷ ws) a = rw (trim_string-text_of w a.0, trim_all-text_of ws a.1) refl

-- A list of names that are not empty, have no comma, and do not start or end with a blank, is read
-- back from the text that holds them in this order with a comma between each two, however many
-- blanks stand before and behind each of them.
pub split_comma_separated-join :
    (ws : List Written)
    → All (λ w. IsItem (name_of w)) ws
    → split_comma_separated (join (map text_of ws)) ≡ map name_of ws
unfolding split_comma_separated
split_comma_separated-join ws a =
    rw (get_lines-join (map text_of ws) (All-IsPiece ws a)) (trim_all-text_of ws a)
