-- ===== src/Client/Connector/Split.antt =====
-- A text and its lines, as `getline` takes them off while there is CR LF.
use mathlib.Core.List.{append_assoc, flatten}
use virtual_flight_radar_bac.Common.{
  ℕ, zero, suc, ◌≤◌, ◌<◌, ◌≡◌, refl, sym, ap, ◌∙◌, Bool, true, false, ◌||◌, List, [], ◌∷◌, ◌++◌,
  arith, ◌==◌, length, length-append, Bool-cases, inl, inr,
}
use virtual_flight_radar_bac.Common.Text.{Str, contains}
use virtual_flight_radar_bac.Client.Connector.{getline, has_line}

has_lf : Str → Bool
has_lf [] = false
has_lf (c ∷ s) = (c == b'\n') || has_lf s

has_line→has_lf : (s : Str) → has_line s ≡ true → has_lf s ≡ true
unfolding has_line contains has_lf
has_line→has_lf [] h = cc
has_line→has_lf (c ∷ []) h = ground arith
has_line→has_lf (c ∷ d ∷ s) h = ground (arith, has_line→has_lf (d ∷ s))

pub has_line-append : (s t : Str) → has_line s ≡ true → has_line (s ++ t) ≡ true
unfolding has_line contains
has_line-append [] t h = cc
has_line-append (c ∷ []) t h = ground arith
has_line-append (c ∷ d ∷ s) t h = ground (arith, has_line-append (d ∷ s) t)

getline-append :
    (s t : Str) → has_lf s ≡ true → getline (s ++ t) ≡ ((getline s).0, (getline s).1 ++ t)
unfolding getline has_lf
getline-append [] t h = cc
getline-append (c ∷ s) t h = ground (arith, getline-append s t)

getline-join : (s : Str) → has_lf s ≡ true → (getline s).0 ++ b'\n' ∷ (getline s).1 ≡ s
unfolding getline has_lf
getline-join [] h = cc
getline-join (c ∷ s) h = ground (arith, getline-join s)

getline-shorter : (s : Str) → has_lf s ≡ true → length (getline s).1 < length s
unfolding getline has_lf
getline-shorter [] h = cc
getline-shorter (c ∷ s) h = ground (arith, getline-shorter s)

-- The lines with their LF, and what is left, with fuel for their number.
unfoldable pub split : ℕ → Str → List Str × Str
split zero s = ([], s)
split (suc n) s = elim (has_line s) [
  | false ↦ ([], s)
  | true ↦
      let (line, rest) = getline s in
      let (lines, left) = split n rest in ((line ++ b'\n' ∷ []) ∷ lines, left)
]

has_line-nil : has_line [] ≡ false
unfolding has_line contains
has_line-nil = refl

pub split-none : (n : ℕ) (s : Str) → has_line s ≡ false → split n s ≡ ([], s)
unfolding split
split-none zero s h = refl
split-none (suc n) s h = rw (h, split) refl

pub split-line :
    (n : ℕ) (s : Str)
    → has_line s ≡ true
    → split (suc n) s
      ≡ (((getline s).0 ++ b'\n' ∷ []) ∷ (split n (getline s).1).0, (split n (getline s).1).1)
unfolding split
split-line n s h = rw (h, split) refl

rest-shorter : (n : ℕ) (s : Str) → length s ≤ suc n → has_line s ≡ true → length (getline s).1 ≤ n
rest-shorter n s p h = omega (arith, getline-shorter s (has_line→has_lf s h))

has_line-empty : (s : Str) → length s ≤ 0 → has_line s ≡ false
has_line-empty [] p = has_line-nil
has_line-empty (c ∷ s) p = absurd (omega arith)

-- More fuel than bytes changes nothing.
pub split-fuel : (n m : ℕ) (s : Str) → length s ≤ n → length s ≤ m → split n s ≡ split m s
split-fuel zero m s p q =
    split-none zero s (has_line-empty s p) ∙ sym (split-none m s (has_line-empty s p))
split-fuel (suc n) zero s p q =
    split-none (suc n) s (has_line-empty s q) ∙ sym (split-none zero s (has_line-empty s q))
split-fuel (suc n) (suc m) s p q = elim (Bool-cases (has_line s)) [
  | inr without ↦ split-none (suc n) s without ∙ sym (split-none (suc m) s without)
  | inl line ↦
      rw
        (
          split-line n s line,
          split-line m s line,
          split-fuel n m (getline s).1 (rest-shorter n s p line) (rest-shorter m s q line),
        )
        refl
]

pub split-left : (n : ℕ) (s : Str) → length s ≤ n → has_line (split n s).1 ≡ false
split-left zero s p = rw (split-none zero s (has_line-empty s p)) (has_line-empty s p)
split-left (suc n) s p = elim (Bool-cases (has_line s)) [
  | inr without ↦ rw (split-none (suc n) s without) without
  | inl line ↦ rw (split-line n s line) (split-left n (getline s).1 (rest-shorter n s p line))
]

pub split-flatten : (n : ℕ) (s : Str) → flatten (split n s).0 ++ (split n s).1 ≡ s
unfolding flatten split
split-flatten zero s = refl
split-flatten (suc n) s = elim (Bool-cases (has_line s)) [
  | inr without ↦ rw (split-none (suc n) s without) refl
  | inl line ↦
      rw
        (
          split-line n s line,
          append_assoc ((getline s).0 ++ b'\n' ∷ []) (flatten (split n (getline s).1).0)
              (split n (getline s).1).1,
          split-flatten n (getline s).1,
          append_assoc (getline s).0 (b'\n' ∷ []) (getline s).1,
        )
        (getline-join s (has_line→has_lf s line))
]

pub split-length : (n : ℕ) (s : Str) → length (split n s).1 ≤ length s
split-length n s =
    omega
      (arith, ap length (split-flatten n s), length-append (flatten (split n s).0) (split n s).1)

-- What follows later is read as if it stood there at once.
pub split-append :
    (n m : ℕ) (s t : Str)
    → length s ≤ n
    → length (s ++ t) ≤ m
    → let (lines, left) = split n s in
      let (more, left') = split m (left ++ t) in split m (s ++ t) ≡ (lines ++ more, left')
split-append zero m s t p q = rw (split-none zero s (has_line-empty s p)) refl
split-append (suc n) zero s t p q =
    rw (split-none (suc n) s (has_line-empty s (omega (arith, length-append s t)))) refl
split-append (suc n) (suc m) s t p q = elim (Bool-cases (has_line s)) [
  | inr without ↦ rw (split-none (suc n) s without) refl
  | inl line ↦
      let rest = (getline s).1 in
      let left = (split n rest).1 in
      let lf = has_line→has_lf s line in
      let below : length (rest ++ t) ≤ m =
        omega (arith, getline-shorter s lf, length-append rest t, length-append s t) in
      let below_left : length (left ++ t) ≤ m =
        omega (arith, split-length n rest, length-append left t, length-append rest t) in
      rw
        (
          split-line n s line,
          split-line m (s ++ t) (has_line-append s t line),
          getline-append s t lf,
          split-append n m rest t (rest-shorter n s p line) below,
          split-fuel (suc m) m (left ++ t) (omega arith) below_left,
        )
        refl
]
