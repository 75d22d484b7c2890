-- ===== src/Common/Print.antt =====
-- What the program uses of `std::snprintf` besides `double`s.
pub mod Digits
use virtual_flight_radar_bac.Common.{
  ℕ, zero, suc, ◌+◌, ◌-◌, ◌/◌, ◌%◌, ◌≡◌, refl, [], ◌∷◌, ◌++◌, ltb, ◌==◌, if◌then◌else◌, length,
}
use virtual_flight_radar_bac.Common.Int.{ℤ, pos, negsuc}
use virtual_flight_radar_bac.Common.Text.{Str, codes}

-- The digit of a value below 16, with `ten` for the letter of 10.
abbrev pub digit_char : ℕ → ℕ → ℕ
digit_char ten v = if ltb v 10 then b'0' + v else ten + v - 10

-- With fuel for the digits; a number below `suc n` has at most `suc n` of them.
digits_of : ℕ → ℕ → ℕ → ℕ → Str → Str
digits_of ten b zero n acc = acc
digits_of ten b (suc fuel) n acc =
    let rest = digits_of ten b fuel (n / b) (digit_char ten (n % b) ∷ acc) in
    if n == 0 then acc else rest

unsigned : ℕ → ℕ → ℕ → Str
unsigned ten b n = if n == 0 then b'0' ∷ [] else digits_of ten b n n []

zeros : ℕ → Str
zeros zero = []
zeros (suc n) = b'0' ∷ zeros n

pad : ℕ → Str → Str
unfolding zeros
pad w s = zeros (w - length s) ++ s

-- `%d`, `%0wd`, `%0wu` and `%u`, `%0wx` (of a 32-bit pattern) and `%X`.
unfoldable pub show_int : ℕ → ℤ → Str
unfolding pad unsigned digits_of
show_int w (pos n) = pad w (unsigned b'a' 10 n)
show_int w (negsuc n) = b'-' ∷ pad (w - 1) (unsigned b'a' 10 (suc n))

unfoldable pub show_nat : ℕ → ℕ → Str
unfolding pad unsigned digits_of
show_nat w n = pad w (unsigned b'a' 10 n)

unfoldable pub show_hex : ℕ → ℕ → Str
unfolding pad unsigned digits_of
show_hex w n = pad w (unsigned b'a' 16 n)

unfoldable pub show_upper_hex : ℕ → Str
unfolding unsigned digits_of
show_upper_hex n = unsigned b'A' 16 n

-- `%s` of `s.c_str()` ends at the first NUL.
unfoldable pub c_str : Str → Str
c_str [] = []
c_str (c ∷ s) = let rest = c_str s in if c == 0 then [] else c ∷ rest

print_tests :
    (show_int 3 (pos 7) ≡ codes "007")
    × (show_int 3 (negsuc 0) ≡ codes "-01")
    × (show_int 0 (negsuc 1023) ≡ codes "-1024")
    × (show_hex 2 5 ≡ codes "05")
    × (show_hex 2 0xffffff80 ≡ codes "ffffff80")
    × (show_upper_hex 14 ≡ codes "E")
    × (show_nat 2 0 ≡ codes "00")
unfolding show_int show_hex show_upper_hex show_nat
print_tests = (refl, refl, refl, refl, refl, refl, refl)
