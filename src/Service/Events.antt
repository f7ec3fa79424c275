-- ===== src/Service/Events.antt =====
-- `class EventService`, common/src/Services/EventService.cpp.
pub mod Cache
use ticket_ist.Prelude.{
  none, some, List, [], ◌∷◌, Bytes, codes, Exception, invalid_argument, ok, throw,
}
use ticket_ist.Prelude.Map.{Map, lookup, emplace}
use ticket_ist.Prelude.Action.{Action}
use ticket_ist.Platform.{Platform}
use ticket_ist.Repository.Events
use ticket_ist.Repository.Events.{Event}

abbrev pub event_not_found : Exception
event_not_found = invalid_argument (codes "Event not found")

-- `for (event : eventList) eventCache.emplace(event.getName(), event)`
emplace_all : List Event → Map Event → Map Event
unfolding emplace
emplace_all [] cache = cache
emplace_all (e ∷ es) cache = emplace_all es (emplace e.name e cache)

module _ (p : Platform) where
  pub record EventService : Type 0 where
    pub conn : p.Conn
    pub event_cache : Map Event

  unfoldable pub get_all_events : EventService → Map Event × EventService
  unfolding emplace_all
  get_all_events s =
      let (events, c) = Events.get_all_events p s.conn in
      let cache = emplace_all events s.event_cache in
      (cache, record { conn = c; event_cache = cache })

  -- An event that the cache lacks is looked up and kept, under the name that was asked for.
  unfoldable pub get_event_by_name : Bytes → Action EventService Event
  unfolding lookup emplace
  get_event_by_name name s = elim (lookup name s.event_cache) [
    | some event ↦ (ok event, s)
    | none ↦
        let (found, c) = Events.get_event_by_name p name s.conn in
        elim found [
          | some event ↦
              (ok event, record { conn = c; event_cache = emplace name event s.event_cache })
          | none ↦ (throw event_not_found, record s { conn = c })
        ]
  ]
