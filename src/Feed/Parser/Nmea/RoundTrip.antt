-- ===== src/Feed/Parser/Nmea/RoundTrip.antt =====
-- A sentence that a processor finishes passes the parsers' guard.
use mathlib.Core.Path.{subst}
use mathlib.Core.List.{append_assoc}
use virtual_flight_radar_bac.Common.{
  ℕ, zero, suc, ◌+◌, ◌≤◌, ◌<◌, ◌≡◌, refl, ap, ◌≢◌, Bool, true, false, not, ◌&&◌, Option, none, some,
  [], ◌∷◌, ◌++◌, arith, ◌==◌, length, take, drop, All-append, length-append,
}
use virtual_flight_radar_bac.Common.Table.{checked, test_at}
use virtual_flight_radar_bac.Common.Int.{ℤ, pos, eq_ℤ}
use virtual_flight_radar_bac.Common.Text.{Str, codes, rfind_char, substr, stoi}
use virtual_flight_radar_bac.Common.Print.{show_hex}
use virtual_flight_radar_bac.Math.{checksum, checksum_bits, checksum_from}
use virtual_flight_radar_bac.Math.Checksum.{IsAscii, Lacks, checksum_from-lt, checksum_from-append}
use virtual_flight_radar_bac.Data.Processor.Sentence.{
  sentence, finish_sentence, buffered, buffer_room,
}
use virtual_flight_radar_bac.Feed.Parser.Nmea.{checksum_matches, after_star}

-- The two digits of a byte below 128 read back as that byte, and neither is a star.
abbrev reads_as : Option ℤ → ℕ → Bool
reads_as none n = false
reads_as (some z) n = eq_ℤ z (pos n)

abbrev is_two_digits : ℕ → Str → Bool
is_two_digits n (a ∷ b ∷ []) =
    not (a == b'*') && not (b == b'*') && reads_as (stoi 16 (a ∷ b ∷ [])) n
is_two_digits n _ = false

digits_table : checked (λ n. is_two_digits n (show_hex 2 n)) 128 ≡ true
unfolding checked show_hex stoi
digits_table = refl

record TwoDigits (n : ℕ) (s : Str) : Type 0 where
  high : ℕ
  low : ℕ
  shape : s ≡ high ∷ low ∷ []
  high_ne : high ≢ b'*'
  low_ne : low ≢ b'*'
  reads : stoi 16 (high ∷ low ∷ []) ≡ some (pos n)

reads_as-some : (o : Option ℤ) (n : ℕ) → reads_as o n ≡ true → o ≡ some (pos n)
reads_as-some none n h = cc
reads_as-some (some z) n h = ground arith

is_two_digits→TwoDigits : (n : ℕ) (s : Str) → is_two_digits n s ≡ true → TwoDigits n s
is_two_digits→TwoDigits n [] h = cc
is_two_digits→TwoDigits n (a ∷ []) h = cc
is_two_digits→TwoDigits n (a ∷ b ∷ c ∷ s) h = cc
is_two_digits→TwoDigits n (a ∷ b ∷ []) h = record {
  high = a;
  low = b;
  shape = refl;
  high_ne = ground arith;
  low_ne = ground arith;
  reads = reads_as-some (stoi 16 (a ∷ b ∷ [])) n (ground arith);
}

show_hex-TwoDigits : (n : ℕ) → n < 128 → TwoDigits n (show_hex 2 n)
show_hex-TwoDigits n h =
    is_two_digits→TwoDigits n _ (test_at (λ k. is_two_digits k (show_hex 2 k)) 128 digits_table n h)

rfind_char-Lacks : (c : ℕ) (s : Str) → Lacks c s → rfind_char c s ≡ none
unfolding rfind_char
rfind_char-Lacks c [] h = refl
rfind_char-Lacks c (x ∷ s) h = rw (rfind_char-Lacks c s h.1) (ground (arith, h.0))

rfind_char-append : (c : ℕ) (s t : Str) → Lacks c t → rfind_char c (s ++ c ∷ t) ≡ some (length s)
unfolding rfind_char
rfind_char-append c [] t h = rw (rfind_char-Lacks c t h) (ground arith)
rfind_char-append c (x ∷ s) t h = rw (rfind_char-append c s t h)

drop-append : (s t : Str) → drop (length s) (s ++ t) ≡ t
drop-append [] t = refl
drop-append (x ∷ s) t = drop-append s t

take_all : (n : ℕ) (s : Str) → length s ≤ n → take n s ≡ s
take_all zero [] h = refl
take_all zero (x ∷ s) h = absurd (omega arith)
take_all (suc n) [] h = refl
take_all (suc n) (x ∷ s) h = ap (◌∷◌ x) (take_all n s (omega arith))

substr-append : (s t : Str) (n : ℕ) → substr (s ++ t) (length s) n ≡ some (take n t)
unfolding substr
substr-append s t n = rw drop-append (ground (arith, length-append s t))

after_star-append :
    (s t : Str) → Lacks b'*' t → after_star (s ++ b'*' ∷ t) ≡ length (s ++ b'*' ∷ [])
unfolding after_star
after_star-append s t h =
    rw (rfind_char-append b'*' s t h, after_star) (omega (arith, length-append s (b'*' ∷ [])))

guard_passes :
    (m ds : Str) (k n : ℕ)
    → after_star m ≡ k
    → substr m k 2 ≡ some ds
    → stoi 16 ds ≡ some (pos n)
    → checksum m ≡ pos n
    → checksum_matches m ≡ some true
unfolding checksum_matches
guard_passes m ds k n a b c e = ground arith

checksum-star :
    (c : ℕ) (s t : Str) (n : ℕ)
    → n < 128
    → checksum_from 0 (s ++ b'*' ∷ []) ≡ n
    → checksum ((c ∷ s) ++ b'*' ∷ t) ≡ pos n
unfolding checksum
checksum-star c s t n h e = rw (checksum_from-append s t 0, e) (ground arith)

finish_sentence-star :
    (c : ℕ) (s : Str)
    → finish_sentence ((c ∷ s) ++ b'*' ∷ [])
      ≡ show_hex 2 (checksum_from 0 (s ++ b'*' ∷ [])) ++ codes "\r\n"
unfolding finish_sentence checksum_bits
finish_sentence-star c s = rw (append_assoc s, checksum_from-append s (0 ∷ []) 0)

buffered_fits : (b : Str) → length b ≤ buffer_room → buffered b ≡ b
unfolding buffered
buffered_fits b h = take_all buffer_room b h

-- The guard on a sentence that ends in a star, two digits and a line end.
guard_on :
    (c : ℕ) (s : Str) (n : ℕ) (d : TwoDigits n (show_hex 2 n))
    → n < 128
    → checksum_from 0 (s ++ b'*' ∷ []) ≡ n
    → checksum_matches ((c ∷ s) ++ b'*' ∷ d.high ∷ d.low ∷ codes "\r\n") ≡ some true
guard_on c s n d h e =
    guard_passes _ (d.high ∷ d.low ∷ []) (length ((c ∷ s) ++ b'*' ∷ [])) n
      (after_star-append (c ∷ s) rest (d.high_ne, (d.low_ne, omega arith)))
      (subst (λ m. substr m (length ((c ∷ s) ++ b'*' ∷ [])) 2 ≡ some (d.high ∷ d.low ∷ []))
        (append_assoc (c ∷ s) (b'*' ∷ []) rest) (substr-append ((c ∷ s) ++ b'*' ∷ []) rest 2))
      d.reads (summed e h)
  where
    rest : Str
    rest = d.high ∷ d.low ∷ codes "\r\n"

    summed :
        checksum_from 0 (s ++ b'*' ∷ []) ≡ n → n < 128 → checksum ((c ∷ s) ++ b'*' ∷ rest) ≡ pos n
    summed e h = checksum-star c s rest n h e

sentence-star :
    (c : ℕ) (s : Str)
    → length ((c ∷ s) ++ b'*' ∷ []) ≤ buffer_room
    → sentence ((c ∷ s) ++ b'*' ∷ [])
      ≡ (c ∷ s) ++ b'*' ∷ (show_hex 2 (checksum_from 0 (s ++ b'*' ∷ [])) ++ codes "\r\n")
unfolding sentence
sentence-star c s fits = rw (buffered_fits _ fits, finish_sentence-star c s, append_assoc s)

IsAscii-star : (s : Str) → IsAscii s → IsAscii (s ++ b'*' ∷ [])
IsAscii-star s a = All-append _ s (b'*' ∷ []) a (omega arith, tt)

-- A finished sentence of ASCII characters that fits the buffer and ends in a star passes the guard.
pub checksum_matches-sentence :
    (c : ℕ) (s : Str)
    → IsAscii s
    → length s + 2 ≤ buffer_room
    → checksum_matches (sentence ((c ∷ s) ++ b'*' ∷ [])) ≡ some true
checksum_matches-sentence c s ascii fits =
    let n = checksum_from 0 (s ++ b'*' ∷ []) in
    let small : n < 128 = checksum_from-lt _ 0 (omega arith) (IsAscii-star s ascii) in
    let d = show_hex-TwoDigits n small in
    rw (sentence-star c s (omega (arith, length-append s (b'*' ∷ []))), d.shape)
      (guard_on c s n d small refl)
