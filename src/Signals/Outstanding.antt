-- ===== src/Signals/Outstanding.antt =====
-- What is still to be called, what is added, and what an event of the listener keeps.
use mathlib.Core.List.{append-nil, map}
use virtual_flight_radar_bac.Common.{◌≡◌, ◌⊎◌, refl, sym, ap, ◌∙◌, true, List, [], ◌∷◌, ◌++◌, All}
use virtual_flight_radar_bac.Signals.{Signal, SignalListener, Event, adds, is_watched}

module _ {H : Type 0} where
  abbrev pub handlers : List (H × Signal) → List H
  handlers cs = map (λ (c : H × Signal). c.0) cs

  -- The handlers that are to be called: those of the waits that are done, and then the others.
  abbrev pub outstanding : SignalListener H → List H
  outstanding l = handlers l.due ++ l.waiting

  -- What an event adds.
  abbrev pub added : Event H → List H
  added (adds h) = h ∷ []
  added _ = []

  abbrev pub all_added : List (Event H) → List H
  all_added [] = []
  all_added (e ∷ es) = added e ++ all_added es

  abbrev pub IsWatched : H × Signal → Type 0
  IsWatched c = is_watched c.1 ≡ true

  -- The signals are of the set, and no wait is left while one is kept.
  pub record IsValid (l : SignalListener H) : Type 0 where
    pub due : All IsWatched l.due
    pub kept : All (λ s. is_watched s ≡ true) l.kept
    pub taken : (l.kept ≡ []) ⊎ (l.waiting ≡ [])

  pub map-paired : (s : Signal) (hs : List H) → handlers (map (λ k. (k, s)) hs) ≡ hs
  map-paired s [] = refl
  map-paired s (h ∷ hs) = ap (λ t. h ∷ t) (map-paired s hs)

  pub All-paired :
      (s : Signal) (hs : List H) → is_watched s ≡ true → All IsWatched (map (λ k. (k, s)) hs)
  All-paired s [] w = tt
  All-paired s (h ∷ hs) w = (w, All-paired s hs w)

  pub handlers-append :
      (cs ds : List (H × Signal)) → handlers (cs ++ ds) ≡ handlers cs ++ handlers ds
  handlers-append [] ds = refl
  handlers-append (c ∷ cs) ds = ap (λ t. c.0 ∷ t) (handlers-append cs ds)

  -- What an event leaves, with the calls that it makes: nobody is forgotten, and what is called is
  -- called for a signal of the set.
  pub record Keeps (e : Event H) (l l' : SignalListener H) (made : List (H × Signal)) : Type 0 where
    pub same : handlers made ++ outstanding l' ≡ outstanding l ++ added e
    pub valid : IsValid l'
    pub watched : All IsWatched made

  pub still-Keeps :
      (e : Event H) (l l' : SignalListener H)
      → added e ≡ []
      → outstanding l' ≡ outstanding l
      → IsValid l'
      → Keeps e l l' []
  still-Keeps e l l' nothing same v = record {
    same = same ∙ rw nothing (sym (append-nil _));
    valid = v;
    watched = tt;
  }
