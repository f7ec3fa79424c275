-- ===== src/Repository/Events.antt =====
-- `class EventRepository`, common/src/Repositories/EventRepository.cpp, and `class Event`,
-- common/src/Event/Event.cpp.
use ticket_ist.Prelude.{Option, none, some, List, [], ◌∷◌, map, Bytes, codes, if◌then◌else◌}
use ticket_ist.Prelude.Int.{ℤ}
use ticket_ist.Platform.{Platform}
use ticket_ist.Database.{run_select}
use ticket_ist.Database.Schema
use ticket_ist.Database.Schema.{EventRow}

pub record Event : Type 0 where
  pub id : ℤ
  pub name : Bytes

abbrev of_row : EventRow → Event
of_row r = record { id = r.id; name = r.name }

abbrev first_event : Option (List EventRow) → Option Event
first_event none = none
first_event (some []) = none
first_event (some (r ∷ rs)) = some (of_row r)

module _ (p : Platform) where
  unfoldable pub get_all_events : p.Conn → List Event × p.Conn
  get_all_events c =
      let (r, c') = run_select p.sql EventRow (λ t. t.events) c in
      (elim r [ none ↦ [] | some rows ↦ map of_row rows ], c')

  unfoldable pub get_event_by_name : Bytes → p.Conn → Option Event × p.Conn
  get_event_by_name n c =
      let (r, c') = run_select p.sql EventRow (Schema.select_event p.collate n) c in
      (first_event r, c')

  -- Each name is inserted, up to the first exception.
  insert_names : List Bytes → p.Conn → p.Conn
  insert_names [] c = c
  insert_names (name ∷ names) c =
      let (done, c') = p.execute (Schema.insert_event p.collate name) c in
      let rest = insert_names names c' in if done then rest else c'

  unfoldable pub add_dummy_events : p.Conn → p.Conn
  unfolding insert_names
  add_dummy_events c =
      if p.is_valid c
      then insert_names
          (codes "websummit" ∷ codes "taylorswift" ∷ codes "calculo" ∷ codes "fisica2" ∷ []) c
      else c
