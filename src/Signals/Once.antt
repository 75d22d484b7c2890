-- ===== src/Signals/Once.antt =====
-- Each handler is called once at most, in the order in which they were added.
use mathlib.Core.List.{append_assoc, append-nil}
use virtual_flight_radar_bac.Common.{
  ◌≡◌, refl, sym, ap, ◌∙◌, Bool, true, not, ◌&&◌, List, [], ◌∷◌, ◌++◌, All, All-append, Bool-cases,
  inl, inr, arith,
}
use virtual_flight_radar_bac.Signals.{
  Phase, Signal, SignalListener, Event, adds, runs, stops, calls, runs_out, raises, is_watched,
  is_started, initial, add_handler, run, stop, raise, next_call, run_out, called_of, step, run_all,
}
use virtual_flight_radar_bac.Signals.Outstanding.{
  handlers, outstanding, added, all_added, IsWatched, IsValid, map-paired, All-paired,
  handlers-append, Keeps, still-Keeps,
}

module _ {H : Type 0} where
  add_handler-Keeps :
      (h : H) (waiting : List H) (due : List (H × Signal)) (kept : List Signal) (b : Bool)
      (t : Phase)
      → let l : SignalListener H = record {
        waiting = waiting;
        due = due;
        kept = kept;
        is_stopped = b;
        thread = t;
      } in
        IsValid l → Keeps (adds h) l (add_handler h l) []
  unfolding add_handler
  add_handler-Keeps h waiting due [] b t v = record {
    same = sym (append_assoc (handlers due) waiting (h ∷ []));
    valid = record { due = v.due; kept = tt; taken = inl refl };
    watched = tt;
  }
  add_handler-Keeps h [] due (s ∷ rest) b t v = record {
    same =
        append-nil _
        ∙ handlers-append due ((h, s) ∷ [])
        ∙ ap (λ x. x ++ h ∷ []) (sym (append-nil (handlers due)));
    valid = record {
      due = All-append _ due _ v.due (v.kept.0, tt);
      kept = v.kept.1;
      taken = inr refl;
    };
    watched = tt;
  }
  add_handler-Keeps h (k ∷ hs) due (s ∷ rest) b t v = absurd (ground (arith, v.taken))

  raise-Keeps :
      (s : Signal) (waiting : List H) (due : List (H × Signal)) (kept : List Signal) (b : Bool)
      (t : Phase)
      → let l : SignalListener H = record {
        waiting = waiting;
        due = due;
        kept = kept;
        is_stopped = b;
        thread = t;
      } in
        is_watched s ≡ true → IsValid l → Keeps (raises s) l (raise s l) []
  unfolding raise
  raise-Keeps s [] due kept b t w v = rw w (
      still-Keeps _ _ _ refl refl
        (record { due = v.due; kept = All-append _ kept _ v.kept (w, tt); taken = inr refl }))
  raise-Keeps s (h ∷ rest) due kept b t w v = rw w (
      still-Keeps _ _ _ refl
        (append-nil _
          ∙ handlers-append due _
          ∙ ap (λ x. handlers due ++ x) (map-paired s (h ∷ rest)))
        (record {
          due = All-append _ due _ v.due (All-paired s (h ∷ rest) w);
          kept = v.kept;
          taken = inr refl;
        }))

  next_call-Keeps :
      (waiting : List H) (due : List (H × Signal)) (kept : List Signal) (b : Bool) (t : Phase)
      → let l : SignalListener H = record {
        waiting = waiting;
        due = due;
        kept = kept;
        is_stopped = b;
        thread = t;
      } in
        IsValid l → Keeps calls l (next_call l).0 (called_of (next_call l).1)
  unfolding next_call
  next_call-Keeps waiting [] kept b t v = elim (Bool-cases (is_started t && not b)) [
    | inl free ↦ rw free (still-Keeps calls _ _ refl refl v)
    | inr held ↦ rw held (still-Keeps calls _ _ refl refl v)
  ]
  next_call-Keeps waiting (c ∷ rest) kept b t v = elim (Bool-cases (is_started t && not b)) [
    | inl free ↦ rw free (record {
      same = sym (append-nil _);
      valid = record { due = v.due.1; kept = v.kept; taken = v.taken };
      watched = (v.due.0, tt);
    })
    | inr held ↦ rw held (still-Keeps calls _ _ refl refl v)
  ]

  run_out-Keeps :
      (waiting : List H) (due : List (H × Signal)) (kept : List Signal) (b : Bool) (t : Phase)
      → let l : SignalListener H = record {
        waiting = waiting;
        due = due;
        kept = kept;
        is_stopped = b;
        thread = t;
      } in
        IsValid l → Keeps runs_out l (run_out l) []
  unfolding run_out
  run_out-Keeps [] [] kept b t v = elim (Bool-cases (is_started t)) [
    | inl there ↦ rw there (
        still-Keeps runs_out _ _ refl refl (record { due = v.due; kept = v.kept; taken = v.taken }))
    | inr gone ↦ rw gone (still-Keeps runs_out _ _ refl refl v)
  ]
  run_out-Keeps [] (c ∷ rest) kept b t v = elim (Bool-cases (is_started t)) [
    | inl there ↦ rw there (still-Keeps runs_out _ _ refl refl v)
    | inr gone ↦ rw gone (still-Keeps runs_out _ _ refl refl v)
  ]
  run_out-Keeps (h ∷ hs) due kept b t v = elim (Bool-cases (is_started t)) [
    | inl there ↦ rw there (still-Keeps runs_out _ _ refl refl v)
    | inr gone ↦ rw gone (still-Keeps runs_out _ _ refl refl v)
  ]

  step-Keeps :
      (e : Event H) (l : SignalListener H) → IsValid l → Keeps e l (step e l).0 (step e l).1
  unfolding step run stop raise
  step-Keeps (adds h) l v = add_handler-Keeps h l.waiting l.due l.kept l.is_stopped l.thread v
  step-Keeps runs l v =
      still-Keeps runs _ _ refl refl (record { due = v.due; kept = v.kept; taken = v.taken })
  step-Keeps stops l v =
      still-Keeps stops _ _ refl refl (record { due = v.due; kept = v.kept; taken = v.taken })
  step-Keeps calls l v = next_call-Keeps l.waiting l.due l.kept l.is_stopped l.thread v
  step-Keeps runs_out l v = run_out-Keeps l.waiting l.due l.kept l.is_stopped l.thread v
  step-Keeps (raises s) l v = elim (Bool-cases (is_watched s)) [
    | inl watched ↦ raise-Keeps s l.waiting l.due l.kept l.is_stopped l.thread watched v
    | inr ignored ↦ rw ignored (still-Keeps (raises s) _ _ refl refl v)
  ]

  run_all-Keeps :
      (es : List (Event H)) (l : SignalListener H)
      → IsValid l
      → let (l', made) = run_all es l in
        (handlers made ++ outstanding l' ≡ outstanding l ++ all_added es) × All IsWatched made
  unfolding run_all
  run_all-Keeps [] l v = (sym (append-nil _), tt)
  run_all-Keeps (e ∷ es) l v =
      let now = step e l in
      let last = run_all es now.0 in
      let k = step-Keeps e l v in
      let (same, watched) = run_all-Keeps es (step e l).0 k.valid in
      (
        ap (λ x. x ++ outstanding last.0) (handlers-append now.1 last.1)
            ∙ append_assoc (handlers now.1) (handlers last.1) (outstanding last.0)
            ∙ ap (λ x. handlers now.1 ++ x) same
            ∙ sym (append_assoc (handlers now.1) (outstanding now.0) (all_added es))
            ∙ ap (λ x. x ++ all_added es) k.same
            ∙ append_assoc (outstanding l) (added e) (all_added es),
        All-append _ (step e l).1 _ k.watched watched,
      )

  -- Whatever is called and whoever raises signals, in any order, of a new listener: the handlers that
  -- have been called, and then those that still wait, are the ones that were added, in this order, so
  -- that none is called twice or forgotten; and each call is for a signal of the set.
  pub run_all-initial :
      (es : List (Event H))
      → let (l, made) = run_all es initial in
        (handlers made ++ outstanding l ≡ all_added es) × All IsWatched made
  unfolding initial
  run_all-initial es = run_all-Keeps es initial (record { due = tt; kept = tt; taken = inl refl })
