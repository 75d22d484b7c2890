-- ===== src/Common/Print/Digits.antt =====
-- The bytes and the length of printed numbers.
use virtual_flight_radar_bac.Common.{
  ℕ, zero, suc, ◌+◌, ◌-◌, ◌/◌, ◌%◌, ◌≤◌, ◌<◌, ◌≡◌, [], ◌∷◌, ◌++◌, ◌==◌, length, length-append, All,
  All-append, arith, Bool-cases, inl, inr,
}
use virtual_flight_radar_bac.Common.Int.{ℤ, pos, negsuc}
use virtual_flight_radar_bac.Common.Text.{Str}
use virtual_flight_radar_bac.Common.Print.{
  digit_char, digits_of, unsigned, zeros, pad, show_int, show_nat,
}

-- ASCII characters, at most so many.
pub record IsPlain (n : ℕ) (s : Str) : Type 0 where
  pub ascii : All (λ c. c < 128) s
  pub short : length s ≤ n

pub append-IsPlain : (n m : ℕ) (s t : Str) → IsPlain n s → IsPlain m t → IsPlain (n + m) (s ++ t)
append-IsPlain n m s t p q = record {
  ascii = All-append _ s t p.ascii q.ascii;
  short = omega (arith, length-append s t, p.short, q.short);
}

pub weaken-IsPlain : (n m : ℕ) (s : Str) → n ≤ m → IsPlain n s → IsPlain m s
weaken-IsPlain n m s h p = record { ascii = p.ascii; short = omega (arith, p.short) }

-- So many decimal digits are enough.
abbrev IsWithin : ℕ → ℕ → Type 0
IsWithin zero n = n ≡ 0
IsWithin (suc k) n = IsWithin k (n / 10)

digits_of-IsPlain :
    (fuel k m n : ℕ) (acc : Str)
    → IsWithin k n
    → IsPlain m acc
    → IsPlain (k + m) (digits_of b'a' 10 fuel n acc)
unfolding digits_of
digits_of-IsPlain zero k m n acc w p = weaken-IsPlain m (k + m) acc (omega arith) p
digits_of-IsPlain (suc fuel) zero m n acc w p = ground (arith, w, p)
digits_of-IsPlain (suc fuel) (suc k) m n acc w p = elim (Bool-cases (n == 0)) [
  | inl none_left ↦ rw none_left (weaken-IsPlain m (suc k + m) acc (omega arith) p)
  | inr more ↦ rw more (
      weaken-IsPlain (k + suc m) (suc k + m) _ (omega arith) (
        digits_of-IsPlain fuel k (suc m) (n / 10) (digit_char b'a' (n % 10) ∷ acc) w
          (record { ascii = (ground arith, p.ascii); short = omega (arith, p.short) })))
]

unsigned-IsPlain : (n : ℕ) → n < 0x100000000 → IsPlain 10 (unsigned b'a' 10 n)
unfolding unsigned
unsigned-IsPlain n h = elim (Bool-cases (n == 0)) [
  | inl nothing ↦ rw nothing (record { ascii = (omega arith, tt); short = omega arith })
  | inr some_digits ↦
      rw some_digits
        (digits_of-IsPlain n 10 0 n [] (omega arith) (record { ascii = tt; short = omega arith }))
]

zeros-IsPlain : (n : ℕ) → IsPlain n (zeros n)
unfolding zeros
zeros-IsPlain zero = record { ascii = tt; short = omega arith }
zeros-IsPlain (suc n) = record {
  ascii = (omega arith, (zeros-IsPlain n).ascii);
  short = omega (arith, (zeros-IsPlain n).short);
}

pad-IsPlain : (w n : ℕ) (s : Str) → IsPlain n s → IsPlain (w + n) (pad w s)
unfolding pad
pad-IsPlain w n s p =
    append-IsPlain w n (zeros (w - length s)) s
      (weaken-IsPlain (w - length s) w _ (omega arith) (zeros-IsPlain (w - length s))) p

abbrev pub IsInt32 : ℤ → Type 0
IsInt32 (pos n) = n < 0x80000000
IsInt32 (negsuc n) = n < 0x80000000

-- A number of 32 bits, where at most three places are asked for.
pub show_int-IsPlain : (w : ℕ) (z : ℤ) → w ≤ 3 → IsInt32 z → IsPlain 14 (show_int w z)
unfolding show_int
show_int-IsPlain w (pos n) h b =
    weaken-IsPlain (w + 10) 14 _ (omega arith)
      (pad-IsPlain w 10 _ (unsigned-IsPlain n (omega arith)))
show_int-IsPlain w (negsuc n) h b =
    let p = pad-IsPlain (w - 1) 10 _ (unsigned-IsPlain (suc n) (omega arith)) in
    record { ascii = (omega arith, p.ascii); short = omega (arith, p.short) }

pub show_nat-IsPlain : (w n : ℕ) → n < 0x100000000 → IsPlain (w + 10) (show_nat w n)
unfolding show_nat
show_nat-IsPlain w n h = pad-IsPlain w 10 _ (unsigned-IsPlain n h)
