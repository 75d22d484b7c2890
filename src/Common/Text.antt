-- ===== src/Common/Text.antt =====
-- Byte strings, and what the program uses of `std::string`, `std::stoi` and `std::stoul`.
-- `none` is the `std::logic_error` that the call throws (invalid_argument or out_of_range: every
-- caller treats the two alike), and for a search `npos`.
use Prim.Native.Char.{code}
use Prim.Native.String.{String}
use virtual_flight_radar_bac.Common.{
  ℕ, zero, suc, ◌+◌, ◌-◌, ◌*◌, ◌%◌, ◌^◌, ◌≡◌, ◌↔◌, refl, Bool, true, false, ◌&&◌, ◌||◌, Option,
  none, some, List, [], ◌∷◌, arith, ltb, leb, ◌==◌, if◌then◌else◌, take, drop, length,
}
use virtual_flight_radar_bac.Common.Int.{ℤ, pos, negsuc}

abbrev pub Str : Type 0
Str = List ℕ

-- The bytes of an ASCII literal.
abbrev pub codes : String → Str
codes String.[] = []
codes (String.◌∷◌ c s) = code c ∷ codes s

abbrev pub str_eq : Str → Str → Bool
str_eq [] [] = true
str_eq [] (d ∷ t) = false
str_eq (c ∷ s) [] = false
str_eq (c ∷ s) (d ∷ t) = (c == d) && str_eq s t

pub str_eq→eq : (s t : Str) → str_eq s t ≡ true → s ≡ t
str_eq→eq [] [] h = refl
str_eq→eq [] (d ∷ t) h = ground arith
str_eq→eq (c ∷ s) [] h = ground arith
str_eq→eq (c ∷ s) (d ∷ t) h = ground (arith, str_eq→eq s t)

pub str_eq_refl : (s : Str) → str_eq s s ≡ true
str_eq_refl [] = refl
str_eq_refl (c ∷ s) = ground (arith, str_eq_refl s)

pub str_eq_iff : (s t : Str) → (str_eq s t ≡ true) ↔ (s ≡ t)
str_eq_iff s t = (str_eq→eq s t, λ e. ground (arith, str_eq_refl s))

-- `s.find(c)`: the first position of `c`.
unfoldable pub find_char : ℕ → Str → Option ℕ
find_char c [] = none
find_char c (d ∷ s) =
    let rest = find_char c s in
    if c == d then some 0 else elim rest [ none ↦ none | some i ↦ some (suc i) ]

-- `s.rfind(c)`: the last position of `c`.
unfoldable pub rfind_char : ℕ → Str → Option ℕ
rfind_char c [] = none
rfind_char c (d ∷ s) = elim (rfind_char c s) [
  | none ↦ if c == d then some 0 else none
  | some i ↦ some (suc i)
]

abbrev pub is_prefix : Str → Str → Bool
is_prefix [] s = true
is_prefix (c ∷ p) [] = false
is_prefix (c ∷ p) (d ∷ s) = (c == d) && is_prefix p s

-- `s.find(p) != npos`.
unfoldable pub contains : Str → Str → Bool
contains p [] = is_prefix p []
contains p (c ∷ s) = is_prefix p (c ∷ s) || contains p s

-- `s.substr(p, n)` throws when `p` is beyond the end.
unfoldable pub substr : Str → ℕ → ℕ → Option Str
substr s p n = if leb p (length s) then some (take n (drop p s)) else none

is_space : ℕ → Bool
is_space c = (c == 32) || (leb 9 c && leb c 13)

skip_space : Str → Str
unfolding is_space
skip_space [] = []
skip_space (c ∷ s) = let rest = skip_space s in if is_space c then rest else c ∷ s

-- The value of a digit in a base of at most 36.
pub digit : ℕ → ℕ → Option ℕ
digit b c = if ltb v b then some v else none
  where
    v : ℕ
    v =
        if leb b'0' c && leb c b'9'
        then c - b'0'
        else if leb b'A' c && leb c b'Z'
        then c - b'A' + 10
        else if leb b'a' c && leb c b'z'
        then c - b'a' + 10
        else 36

-- The number that the longest run of digits at the front spells, after `acc`.
pub digits_from : ℕ → ℕ → Str → ℕ
unfolding digit
digits_from b acc [] = acc
digits_from b acc (c ∷ s) = elim (digit b c) [ none ↦ acc | some d ↦ digits_from b (acc * b + d) s ]

unsigned_of : ℕ → Str → Option ℕ
unfolding digits_from
unsigned_of b [] = none
unsigned_of b (c ∷ s) = elim (digit b c) [ none ↦ none | some d ↦ some (digits_from b d s) ]

-- `strtol` skips "0x" in base 16 where a digit follows.
strip_prefix : ℕ → Str → Str
unfolding digit
strip_prefix b (c ∷ x ∷ d ∷ s) =
    if (b == 16) && (c == b'0') && ((x == b'x') || (x == b'X'))
    then elim (digit b d) [ none ↦ c ∷ x ∷ d ∷ s | some v ↦ d ∷ s ]
    else c ∷ x ∷ d ∷ s
strip_prefix b s = s

negate : Bool → ℕ → ℤ
negate true zero = pos 0
negate true (suc n) = negsuc n
negate false n = pos n

-- The sign, and what follows it.
sign_of : Str → Bool × Str
sign_of [] = (false, [])
sign_of (c ∷ s) = if c == b'-' then (true, s) else if c == b'+' then (false, s) else (false, c ∷ s)

in_int32 : ℤ → Bool
in_int32 (pos n) = ltb n 0x80000000
in_int32 (negsuc n) = ltb n 0x80000000

checked : ℤ → Option ℤ
unfolding in_int32
checked z = if in_int32 z then some z else none

-- `std::stoi(s, nullptr, b)`.
unfoldable pub stoi : ℕ → Str → Option ℤ
unfolding skip_space unsigned_of strip_prefix negate sign_of checked
stoi b s =
    let (minus, body) = sign_of (skip_space s) in
    elim (unsigned_of b (strip_prefix b body)) [ none ↦ none | some n ↦ checked (negate minus n) ]

-- `std::stoul(s)`: an `unsigned long` of 64 bits, which a minus sign negates.
unfoldable pub stoul : Str → Option ℕ
unfolding skip_space unsigned_of sign_of
stoul s =
    let (minus, body) = sign_of (skip_space s) in
    elim (unsigned_of 10 body) [
      | none ↦ none
      | some n ↦ if ltb n (2 ^ 64) then some (if minus then (2 ^ 64 - n) % 2 ^ 64 else n) else none
    ]

stoi_tests :
    (stoi 10 (codes "23") ≡ some (pos 23))
    × (stoi 10 (codes "-1:") ≡ some (negsuc 0))
    × (stoi 16 (codes "4e") ≡ some (pos 78))
    × (stoi 16 (codes "0x1f") ≡ some (pos 31))
    × (stoi 10 (codes "x1") ≡ none)
    × (stoi 10 (codes "2147483648") ≡ none)
    × (stoul (codes "-1") ≡ some 18446744073709551615)
unfolding stoi stoul
stoi_tests = (refl, refl, refl, refl, refl, refl, refl)
