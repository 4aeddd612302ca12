-- ===== src/Core/App/Life.antt =====
-- The order of the calls of `Start`, `Stop` and `Run` in internal/core/app.go.
use cyandie_backend.Common.{
  Bool, true, false, none, some, List, [], ◌∷◌, ◌++◌, map, append_assoc, ◌≡◌, refl, sym, ap, ◌∙◌,
  All,
}
use cyandie_backend.Core.App.{
  App, Module, registered, started, stopped, start_failed, returned, start_modules, start,
  stop_modules, stop, run,
}

abbrev pub reverse {ℓ} : {A : Type ℓ} → List A → List A
reverse [] = []
reverse (x ∷ xs) = reverse xs ++ x ∷ []

start_modules-All :
    (ms : List Module)
    → All (λ m. m.starts ≡ true) ms
    → start_modules ms ≡ (none, map (λ m. started m.name) ms)
unfolding start_modules
start_modules-All [] h = refl
start_modules-All (m ∷ ms) h = rw (start_modules-All ms h.1, h.0) refl

start_modules-first :
    (before : List Module) (m : Module) (after : List Module)
    → All (λ x. x.starts ≡ true) before
    → m.starts ≡ false
    → start_modules (before ++ m ∷ after)
      ≡ (some m.name, map (λ x. started x.name) before ++ started m.name ∷ [])
unfolding start_modules
start_modules-first [] m after h fails = rw fails refl
start_modules-first (x ∷ xs) m after h fails =
    rw (start_modules-first xs m after h.1 fails, h.0) refl

stop_modules-reverse : (ms : List Module) → stop_modules ms ≡ map (λ m. stopped m.name) (reverse ms)
unfolding stop_modules
stop_modules-reverse [] = refl
stop_modules-reverse (m ∷ ms) =
    rw (stop_modules-reverse ms) (sym (map-snoc (λ x. stopped x.name) (reverse ms) m))
  where
    map-snoc :
        {A B : Type 0} (f : A → B) (xs : List A) (x : A)
        → map f (xs ++ x ∷ []) ≡ (map f xs ++ f x ∷ [])
    map-snoc f [] x = refl
    map-snoc f (y ∷ ys) x = ap (◌∷◌ (f y)) (map-snoc f ys x)

-- When every module starts and a signal arrives, `Run` returns, and by then every module has registered its
-- services, then every module was started in the order of registration, then every one was stopped in the
-- opposite order, also where stopping one fails.
pub run-returned :
    (a : App)
    → All (λ m. m.starts ≡ true) a.modules
    → ((run true a).0 ≡ returned)
      × ((run true a).1.events ≡ (
          a.events
          ++ (map (λ m. registered m.name) a.modules
              ++ (map (λ m. started m.name) a.modules
                  ++ map (λ m. stopped m.name) (reverse a.modules)))))
unfolding run start stop
run-returned a h =
    let all = start_modules-All a.modules h in
    (
      rw all refl,
      rw (all, stop_modules-reverse a.modules)
          (append_assoc a.events
              (map (λ m. registered m.name) a.modules ++ map (λ m. started m.name) a.modules)
              (map (λ m. stopped m.name) (reverse a.modules))
            ∙ ap (◌++◌ a.events) (
                append_assoc (map (λ m. registered m.name) a.modules)
                  (map (λ m. started m.name) a.modules)
                  (map (λ m. stopped m.name) (reverse a.modules)))),
    )

-- When a module does not start, `Run` returns its error; the modules in front of it have been started, those
-- behind it have not, and none has been stopped.
pub run-start_failed :
    (signal : Bool) (a : App) (before : List Module) (m : Module) (after : List Module)
    → a.modules ≡ (before ++ m ∷ after)
    → All (λ x. x.starts ≡ true) before
    → m.starts ≡ false
    → ((run signal a).0 ≡ start_failed m.name)
      × ((run signal a).1.events ≡ (
          a.events
          ++ (map (λ x. registered x.name) a.modules
              ++ (map (λ x. started x.name) before ++ started m.name ∷ []))))
unfolding run start
run-start_failed signal a before m after parts h fails =
    let some_start : start_modules a.modules
        ≡ (some m.name, map (λ x. started x.name) before ++ started m.name ∷ []) =
      ap start_modules parts ∙ start_modules-first before m after h fails in
    (rw some_start refl, rw some_start refl)
