-- ===== src/Telegram/Running.antt =====
-- The supervisor of server/internal/worker/telegram/supervisor.go.
use ouro_pass.Base.{
  if◌then◌else◌, Bool-cases, is_unset, Text, text_eq, text_eq_iff, ◌≡◌, refl, ap, ◌∙◌, inl, inr,
  Bool, false, ◌&&◌, ◌||◌, Option, none, some, List, [], ◌∷◌, ◌++◌, arith,
}
use ouro_pass.Go.Maps.{get}
use ouro_pass.Telegram.{keep_running, start_missing, supervise}

-- No two entries have one key.
abbrev pub UniqueKeys : List (Text × Text) → Type 0
UniqueKeys [] = Unit
UniqueKeys ((k, _) ∷ m) = (get k m ≡ none) × UniqueKeys m

abbrev same_print : Option Text → Text → Bool
same_print none print = false
same_print (some p) print = text_eq p print

abbrev kept : Option Text → Option Text → Option Text
kept none wanted = none
kept (some print) wanted = if same_print wanted print then some print else none

keep-none :
    (id : Text) (want running : List (Text × Text))
    → get id running ≡ none
    → get id (keep_running want running) ≡ none
unfolding get keep_running
keep-none id want [] h = refl
keep-none id want ((k, print) ∷ running) h = ground (arith, keep-none id want running)

get-keep_running :
    (id : Text) (want running : List (Text × Text))
    → UniqueKeys running
    → get id (keep_running want running) ≡ kept (get id running) (get id want)
unfolding get keep_running
get-keep_running id want [] u = refl
get-keep_running id want ((k, print) ∷ running) u =
    ground
      (arith, text_eq_iff k id, get-keep_running id want running u.1, keep-none k want running u.0)

-- What runs after the starts: what ran before, else what is wanted and can be built.
abbrev started : Option Text → Option Text → Bool → Option Text
started (some print) wanted builds = some print
started none none builds = none
started none (some print) builds = if builds then some print else none

get-append :
    (id k print : Text) (running : List (Text × Text))
    → get id (running ++ ((k, print) ∷ [])) ≡ (elim (get id running) [
      | some p ↦ some p
      | none ↦ if text_eq k id then some print else none
    ])
unfolding get
get-append id k print [] = ground arith
get-append id k print ((j, p) ∷ running) = ground (arith, get-append id k print running)

get-start_missing :
    (builds : Text → Bool) (id : Text) (want running : List (Text × Text))
    → get id (start_missing builds want running)
      ≡ started (get id running) (get id want) (builds id)
unfolding get start_missing
get-start_missing builds id [] running = ground arith
get-start_missing builds id ((k, print) ∷ want) running =
    elim (Bool-cases (is_unset (get k running) && builds k)) [
      | inl a ↦ rw a (
          ground (
            arith,
            text_eq_iff k id,
            get-append id k print running,
            get-start_missing builds id want (running ++ ((k, print) ∷ [])),
          ))
      | inr a ↦ rw a (ground (arith, text_eq_iff k id, get-start_missing builds id want running))
    ]

-- What should run for one instance: nothing that is not wanted, what runs with the wanted
-- fingerprint, and otherwise what can be built anew.
pub should_run : Option Text → Option Text → Bool → Option Text
should_run none running builds = none
should_run (some print) running builds =
    if same_print running print || builds then some print else none

-- If no instance has two entries before: after a round of the supervisor that reads the wanted
-- instances, each instance runs exactly as it should, with the wanted fingerprint, and not at all
-- if it is wanted no more.
pub supervise-should_run :
    (builds : Text → Bool) (want running : List (Text × Text)) (id : Text)
    → UniqueKeys running
    → get id (supervise builds (some want) running)
      ≡ should_run (get id want) (get id running) (builds id)
unfolding supervise should_run
supervise-should_run builds want running id u =
    get-start_missing builds id want (keep_running want running)
    ∙ ap (λ o. started o (get id want) (builds id)) (get-keep_running id want running u)
    ∙ merged (get id running) (get id want) (builds id)
  where
    merged : (r w : Option Text) (b : Bool) → started (kept r w) w b ≡ should_run w r b
    merged none none b = refl
    merged none (some p) b = ground arith
    merged (some q) none b = ground arith
    merged (some q) (some p) b = ground (arith, text_eq_iff p q, text_eq_iff q p)
