-- ===== src/Data/Processor/Body.antt =====
-- Texts of sentences, piece by piece: ASCII, not too long, and ended by a star.
use mathlib.Core.List.{append_assoc}
use virtual_flight_radar_bac.Common.{
  ℕ, zero, suc, ◌+◌, ◌%◌, ◌≤◌, ◌<◌, ◌≡◌, refl, sym, Bool, true, false, ◌&&◌, some, [], ◌∷◌, ◌++◌,
  ltb, leb, ◌==◌, length, All, arith, ◌-◌,
}
use virtual_flight_radar_bac.Common.Table.{checked, test_at}
use virtual_flight_radar_bac.Common.Int.{ℤ, pos, negsuc, to_int32, wrap32}
use virtual_flight_radar_bac.Common.Text.{Str, codes}
use virtual_flight_radar_bac.Common.Print.{c_str, show_int, show_upper_hex}
use virtual_flight_radar_bac.Common.Print.Digits.{
  IsPlain, IsInt32, append-IsPlain, weaken-IsPlain, show_int-IsPlain,
}
use virtual_flight_radar_bac.Data.Processor.Sentence.{sentence}
use virtual_flight_radar_bac.Feed.Parser.Nmea.{checksum_matches}
use virtual_flight_radar_bac.Feed.Parser.Nmea.RoundTrip.{checksum_matches-sentence}

abbrev are_ascii : Str → Bool
are_ascii [] = true
are_ascii (c ∷ s) = ltb c 128 && are_ascii s

pub are_ascii-All : (s : Str) → are_ascii s ≡ true → All (λ c. c < 128) s
are_ascii-All [] h = tt
are_ascii-All (c ∷ s) h = (ground arith, are_ascii-All s (ground arith))

pub literal : (s : Str) → are_ascii s ≡ true → IsPlain (length s) s
literal s h = record { ascii = are_ascii-All s h; short = omega arith }

pub c_str-IsPlain : (n : ℕ) (s : Str) → IsPlain n s → IsPlain n (c_str s)
unfolding c_str
c_str-IsPlain n [] p = p
c_str-IsPlain zero (c ∷ s) p = absurd (omega (arith, p.short))
c_str-IsPlain (suc n) (c ∷ s) p =
    let rest = c_str-IsPlain n s (record { ascii = p.ascii.1; short = omega (arith, p.short) }) in
    ground (arith, rest.ascii, rest.short, p.ascii.0)

pub hex_table :
    checked (λ n. are_ascii (show_upper_hex n) && leb (length (show_upper_hex n)) 2) 256 ≡ true
unfolding checked show_upper_hex
hex_table = refl

pub show_upper_hex-IsPlain : (n : ℕ) → n < 256 → IsPlain 2 (show_upper_hex n)
show_upper_hex-IsPlain n h =
    let fine =
      test_at (λ n. are_ascii (show_upper_hex n) && leb (length (show_upper_hex n)) 2) 256 hex_table
        n h in
    record { ascii = are_ascii-All _ (ground (arith, fine)); short = ground (arith, fine) }

-- A text that ends in a star, with at most so many bytes before that.
pub record IsBody (n : ℕ) (s : Str) : Type 0 where
  pub front : Str
  pub whole : s ≡ front ++ b'*' ∷ []
  pub plain : IsPlain n front

pub star-IsBody : IsBody 0 (codes "*")
star-IsBody = record {
  front = [];
  whole = refl;
  plain = record { ascii = tt; short = omega arith };
}

pub prefix-IsBody : (m n : ℕ) (p s : Str) → IsPlain m p → IsBody n s → IsBody (m + n) (p ++ s)
prefix-IsBody m n p s q b = record {
  front = p ++ b.front;
  whole = rw b.whole (sym (append_assoc p b.front (b'*' ∷ [])));
  plain = append-IsPlain m n p b.front q b.plain;
}

pub widen-IsBody : (n m : ℕ) (s : Str) → n ≤ m → IsBody n s → IsBody m s
widen-IsBody n m s h b = record {
  front = b.front;
  whole = b.whole;
  plain = weaken-IsPlain n m b.front h b.plain;
}

-- Such a text, begun by something else than the star, makes a sentence that passes.
pub guarded :
    (c : ℕ) (s : Str)
    → (c == b'*') ≡ false
    → IsBody 3000 (c ∷ s)
    → checksum_matches (sentence (c ∷ s)) ≡ some true
guarded c s other b = at_front b.front b.whole b.plain
  where
    at_front :
        (t : Str)
        → c ∷ s ≡ t ++ b'*' ∷ []
        → IsPlain 3000 t
        → checksum_matches (sentence (c ∷ s)) ≡ some true
    at_front [] e p = absurd (ground (arith, e, other))
    at_front (k ∷ t) e p = rw e (checksum_matches-sentence k t p.ascii.1 (omega (arith, p.short)))

-- A literal, and a printed number, before the rest of a body.
pub says-IsBody :
    (n : ℕ) (p s : Str) → are_ascii p ≡ true → IsBody n s → IsBody (length p + n) (p ++ s)
says-IsBody n p s h b = prefix-IsBody (length p) n p s (literal p h) b

pub prints-IsBody :
    (n w : ℕ) (z : ℤ) (s : Str)
    → w ≤ 3
    → IsInt32 z
    → IsBody n s
    → IsBody (14 + n) (show_int w z ++ s)
prints-IsBody n w z s h i b = prefix-IsBody 14 n (show_int w z) s (show_int-IsPlain w z h i) b

pub to_int32-IsInt32 : (n : ℕ) → n < 0x100000000 → IsInt32 (to_int32 n)
to_int32-IsInt32 n h = ground arith

pub wrap32-IsInt32 : (z : ℤ) → IsInt32 (wrap32 z)
wrap32-IsInt32 (pos n) = to_int32-IsInt32 (n % 0x100000000) (omega arith)
wrap32-IsInt32 (negsuc n) = to_int32-IsInt32 (0xffffffff - n % 0x100000000) (omega arith)
