-- ===== src/Main/Exit.antt =====
-- What the exit code says.
use mathlib.Core.Path.{subst}
use virtual_flight_radar_bac.Common.{
  ℕ, ◌≤◌, ◌≡◌, ◌⊎◌, refl, inl, inr, Bool, true, false, ◌&&◌, not, Option, none, some, Option-cases,
  Bool-cases, arith,
}
use virtual_flight_radar_bac.Common.Int.{ℤ, ◌≤ℤ◌}
use virtual_flight_radar_bac.Common.Text.{Str}
use virtual_flight_radar_bac.Double.{Double}
use virtual_flight_radar_bac.Config.{Reader, Configuration, int32_max}
use virtual_flight_radar_bac.Config.Bounds.{IsBounded, make_configuration-IsBounded}
use virtual_flight_radar_bac.Config.Tree.{PropertyTree, read, read_configuration}
use virtual_flight_radar_bac.Log.{Logger}
use virtual_flight_radar_bac.Main.{
  Variables, Files, eval_args, set_up, load, get_config, exit_of, main, override,
}

module _ {W T : Type 0} ⦃d : Double W⦄ (b : PropertyTree T) (r : Reader W) where
  read_configuration-IsBounded :
      (text : Str) (c : Configuration W T)
      → ((s : Str) (z : ℤ) → r.read_int32 s ≡ some z → z ≤ℤ int32_max)
      → read_configuration b r text ≡ some c
      → IsBounded c
  unfolding read_configuration
  read_configuration-IsBounded text c h e = elim (Option-cases (read b text)) [
    | inl bad ↦ absurd (ground (arith, bad))
    | inr (p, good) ↦ elim (make_configuration-IsBounded r p h) [
      | inl (broken, why) ↦ absurd (ground (arith, good, broken))
      | inr (c', made, bounded) ↦ subst IsBounded (ground (arith, good, made)) bounded
    ]
  ]

abbrev pub IsNumeric : {W : Type 0} → Reader W → Type 0
IsNumeric r = (s : Str) (z : ℤ) → r.read_int32 s ≡ some z → z ≤ℤ int32_max

module _ {W T : Type 0} ⦃d : Double W⦄ (b : PropertyTree T) (r : Reader W) (files : Files) where
  override-IsBounded :
      (flag : Bool) (c : Configuration W T)
      → IsBounded c
      → IsBounded (override b r files flag c)
        × (flag && not (override b r files flag c).ground_mode ≡ false)
  override-IsBounded true c h =
      (record { port = h.port; distance = h.distance; height = h.height }, refl)
  override-IsBounded false c h = (h, refl)

  load-IsBounded :
      (v : Variables) (c : Configuration W T)
      → IsNumeric r
      → load b r files v ≡ some c
      → IsBounded c × (v.ground_mode && not c.ground_mode ≡ false)
  unfolding load
  load-IsBounded v c h e = elim (Option-cases v.config) [
    | inl bad ↦ absurd (ground (arith, bad))
    | inr (name, named) ↦ elim (Option-cases (files.text_of name)) [
      | inl bad ↦ absurd (ground (arith, named, bad))
      | inr (text, found) ↦ elim (Option-cases (read_configuration b r text)) [
        | inl bad ↦ absurd (ground (arith, named, found, bad))
        | inr (c', accepted) ↦
            subst
              (λ (c : Configuration W T).
                IsBounded c × (v.ground_mode && not c.ground_mode ≡ false))
              (ground (arith, named, found, accepted))
              (override-IsBounded v.ground_mode c'
                (read_configuration-IsBounded b r text c' h accepted))
      ]
    ]
  ]

  eval_args-some :
      (argc : ℕ) (argv : Option Variables) (v : Variables)
      → eval_args argc argv ≡ some v
      → (argv ≡ some v) × (3 ≤ argc) × (v.help ≡ false)
  unfolding eval_args
  eval_args-some argc none v e = absurd cc
  eval_args-some argc (some v') v e = ground arith

  -- Why the program does not run: the arguments are none that it takes, or its log file cannot be
  -- opened, or there is no configuration, or its server cannot start.
  abbrev pub IsRefused : (Configuration W T → Bool) → ℕ → Option Variables → Logger → Type 0
  IsRefused starts argc argv l =
      (eval_args argc argv ≡ none)
      ⊎ (v : Variables) × (eval_args argc argv ≡ some v)
        × (((set_up files v l).1 ≡ false)
            ⊎ (load b r files v ≡ none)
            ⊎ (c : Configuration W T) × (load b r files v ≡ some c) × (starts c ≡ false))

  -- Why it runs with a configuration.
  abbrev pub IsStarted : ℕ → Option Variables → Configuration W T → Type 0
  IsStarted argc argv c =
      (3 ≤ argc)
      × IsBounded c
      × (v : Variables) × (argv ≡ some v)
      × (v.help ≡ false)
      × (v.ground_mode && not c.ground_mode ≡ false)

  abbrev pub IsExit :
      (Configuration W T → Bool)
      → ℕ
      → Option Variables
      → Logger
      → ℕ × Option (Configuration W T)
      → Type 0
  IsExit starts argc argv l (code, none) = (code ≡ 1) × IsRefused starts argc argv l
  IsExit starts argc argv l (code, some c) = (code ≡ 0) × IsStarted argc argv c

  loaded-IsExit :
      (starts : Configuration W T → Bool) (argc : ℕ) (argv : Option Variables) (v : Variables)
      (l : Logger)
      → IsNumeric r
      → eval_args argc argv ≡ some v
      → IsExit starts argc argv l (exit_of b r files starts (load b r files v))
  unfolding exit_of
  loaded-IsExit starts argc argv v l h e = elim (Option-cases (load b r files v)) [
    | inl missing ↦ rw (missing, exit_of) (refl, inr (v, e, inr (inl missing)))
    | inr (c, loaded) ↦
        let (given, enough, no_help) = eval_args-some argc argv v e in
        let (bounded, ground_on) = load-IsBounded v c h loaded in
        elim (Bool-cases (starts c)) [
          | inl runs ↦
              rw (loaded, runs, exit_of) (refl, (enough, bounded, v, given, no_help, ground_on))
          | inr ends ↦ rw (loaded, ends, exit_of) (refl, inr (v, e, inr (inr (c, loaded, ends))))
        ]
  ]

  -- Where the reading of an `int32_t` gives no more than its maximum: the exit code is 0 where the
  -- program has run, and 1 otherwise. It runs unless its arguments are refused, its log file cannot
  -- be opened, there is no configuration, or its server cannot start. It only runs with arguments
  -- that do not ask for help, at least two of them, and with a configuration whose numbers are in
  -- their ranges, and which has ground mode on if an argument forces that.
  pub main-IsExit :
      (starts : Configuration W T → Bool) (argc : ℕ) (argv : Option Variables) (l : Logger)
      → IsNumeric r
      → IsExit starts argc argv l (main b r files starts argc argv l).1
  unfolding main get_config
  main-IsExit starts argc argv l h = elim (Option-cases (eval_args argc argv)) [
    | inl bad ↦ rw (bad, main, exit_of) (refl, inl bad)
    | inr (v, good) ↦ elim (Bool-cases (set_up files v l).1) [
      | inl done ↦ rw (good, done, main, get_config) (loaded-IsExit starts argc argv v l h good)
      | inr failed ↦ rw (good, failed, main, get_config, exit_of) (refl, inr (v, good, inl failed))
    ]
  ]
