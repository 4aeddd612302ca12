-- ===== src/Core/App.antt =====
-- internal/core/app.go and registry.go: the life of the modules.
pub mod Life
use cyandie_backend.Common.{
  ℕ, String, Bool, true, false, Option, none, some, List, [], ◌∷◌, ◌++◌, map, append-nil,
  append_assoc, ◌≡◌, refl, sym, ap, ◌∙◌, ◌⊎◌, inl, inr, arith, if◌then◌else◌, str_eq, str_eq_iff,
  str_eq_refl, Bool-cases,
}

-- The map `services`, whose first entry of a name is in force; a service is known by a number.
abbrev pub ServiceRegistry : Type 0
ServiceRegistry = List (String × ℕ)

-- `Register`: an assignment to a key replaces its value.
pub register_service : String → ℕ → ServiceRegistry → ServiceRegistry
register_service name service [] = (name, service) ∷ []
register_service name service ((k, v) ∷ r) =
    let rest = register_service name service r in
    if str_eq k name then (k, service) ∷ r else (k, v) ∷ rest

-- `Resolve`
pub resolve : String → ServiceRegistry → Option ℕ
resolve name [] = none
resolve name ((k, v) ∷ r) = let rest = resolve name r in if str_eq k name then some v else rest

-- `MustResolve`: none is a panic.
abbrev pub must_resolve : String → ServiceRegistry → Option ℕ
must_resolve = resolve

-- A module by its name, the services that it registers, and whether its two hooks return nil.
pub record Module : Type 0 where
  pub name : String
  pub services : List (String × ℕ)
  pub starts : Bool
  pub stops : Bool

-- The calls of the hooks, in order.
pub data Event : Type 0 where
  registered : String → Event
  started : String → Event
  stopped : String → Event

pub record App : Type 0 where
  pub modules : List Module
  pub registry : ServiceRegistry
  pub events : List Event

abbrev pub new_app : App
new_app = record { modules = []; registry = []; events = [] }

abbrev pub register : Module → App → App
register m a = record a { modules = a.modules ++ m ∷ [] }

abbrev pub module_names : App → List String
module_names a = map (λ m. m.name) a.modules

abbrev pub register_all : List (String × ℕ) → ServiceRegistry → ServiceRegistry
register_all [] r = r
register_all ((name, service) ∷ ss) r = register_all ss (register_service name service r)

abbrev pub register_services : List Module → ServiceRegistry → ServiceRegistry
register_services [] r = r
register_services (m ∷ ms) r = register_services ms (register_all m.services r)

-- The loop that starts the modules in order: the first one that fails, by its name.
pub start_modules : List Module → Option String × List Event
start_modules [] = (none, [])
start_modules (m ∷ ms) =
    let (failed, events) = start_modules ms in
    if m.starts then (failed, started m.name ∷ events) else (some m.name, started m.name ∷ [])

-- `Start`
unfoldable pub start : App → Option String × App
start a =
    let (failed, events) = start_modules a.modules in
    (
      failed,
      record a {
        registry = register_services a.modules a.registry;
        events = a.events ++ (map (λ m. registered m.name) a.modules ++ events);
      },
    )

-- The loop from the last index down, which passes over errors.
pub stop_modules : List Module → List Event
stop_modules [] = []
stop_modules (m ∷ ms) = stop_modules ms ++ stopped m.name ∷ []

-- `Stop`, which returns nil.
unfoldable pub stop : App → App
stop a = record a { events = a.events ++ stop_modules a.modules }

-- What `Run` has done when it returns, or while it waits for a signal that does not come.
pub data Run : Type 0 where
  start_failed : String → Run
  waits : Run
  returned : Run

abbrev pub after_start : Bool → Option String → App → Run × App
after_start signal (some name) a = (start_failed name, a)
after_start true none a = (returned, stop a)
after_start false none a = (waits, a)

-- `Run`, given whether a signal arrives.
unfoldable pub run : Bool → App → Run × App
run signal a = let (failed, a') = start a in after_start signal failed a'
