-- ===== src/Data/AircraftData/Known.antt =====
-- Containers that know the same aircraft differ in the order of their vectors only.
use mathlib.Core.List.{Perm}
use mathlib.Core.List.Perm
use mathlib.Core.Option.{some_inj}
use mathlib.Core.Path.{subst}
use virtual_flight_radar_bac.Common.{
  ◌≡◌, refl, sym, ◌∙◌, false, none, some, List, [], ◌∷◌, arith, if◌then◌else◌, Bool-cases, inl, inr,
}
use virtual_flight_radar_bac.Common.Text.{Str, str_eq, str_eq_refl, str_eq_iff}
use virtual_flight_radar_bac.Object.Aircraft.{Aircraft}
use virtual_flight_radar_bac.Data.AircraftData.Places.{has, IsUnique, known}

module _ {W : Type 0} where
  -- The list without its first aircraft with an id.
  without : Str → List (Aircraft W) → List (Aircraft W)
  without k [] = []
  without k (b ∷ rest) = if str_eq b.id k then rest else b ∷ without k rest

  has-without : (j k : Str) (l : List (Aircraft W)) → has j l ≡ false → has j (without k l) ≡ false
  unfolding without
  has-without j k [] h = refl
  has-without j k (b ∷ rest) h = ground (arith, has-without j k rest)

  without-IsUnique : (k : Str) (l : List (Aircraft W)) → IsUnique l → IsUnique (without k l)
  unfolding without
  without-IsUnique k [] u = tt
  without-IsUnique k (b ∷ rest) u = elim (Bool-cases (str_eq b.id k)) [
    | inl here ↦ rw here u.1
    | inr other ↦ rw other (has-without b.id k rest u.0, without-IsUnique k rest u.1)
  ]

  known-lacks : (k : Str) (l : List (Aircraft W)) → has k l ≡ false → known k l ≡ none
  known-lacks k [] h = refl
  known-lacks k (b ∷ rest) h = ground (arith, known-lacks k rest)

  known-without :
      (j k : Str) (l : List (Aircraft W))
      → IsUnique l
      → known j (without k l) ≡ (if str_eq k j then none else known j l)
  unfolding without
  known-without j k [] u = ground arith
  known-without j k (b ∷ rest) u = ground (
    arith,
    known-without j k rest u.1,
    known-lacks b.id rest u.0,
    str_eq_iff b.id k,
    str_eq_iff k j,
    str_eq_iff b.id j,
  )

  without-perm :
      (a : Aircraft W) (l : List (Aircraft W)) → known a.id l ≡ some a → Perm l (a ∷ without a.id l)
  unfolding without
  without-perm a [] h = absurd (ground arith)
  without-perm a (b ∷ rest) h = elim (Bool-cases (str_eq b.id a.id)) [
    | inl here ↦
        rw here (
          subst (λ x. Perm (b ∷ rest) (x ∷ rest)) (some_inj.0 (rw here at h))
            (Perm.refl (b ∷ rest)))
    | inr other ↦ rw other (
        Perm.trans (Perm.cons b (without-perm a rest (rw other at h)))
          (Perm.swap a b (without a.id rest)))
  ]

  -- Without two aircraft of one id, what is known under each id determines the list up to its order.
  pub known-perm :
      (l m : List (Aircraft W))
      → IsUnique l
      → IsUnique m
      → ((k : Str) → known k l ≡ known k m)
      → Perm l m
  known-perm [] [] u v h = Perm.refl []
  known-perm [] (b ∷ m) u v h = absurd (ground (arith, h b.id, str_eq_refl b.id))
  known-perm (a ∷ l) m u v h =
      Perm.trans
        (Perm.cons a (
          known-perm l (without a.id m) u.1 (without-IsUnique a.id m v) (λ k.
            ground
              (arith, known-without k a.id m v, h k, known-lacks a.id l u.0, str_eq_iff a.id k))))
        (Perm.symm (without-perm a m (sym (h a.id) ∙ ground (arith, str_eq_refl a.id))))
