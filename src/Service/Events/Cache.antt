-- ===== src/Service/Events/Cache.antt =====
-- The cache of events: an event that was looked up once is served from then on.
use ticket_ist.Prelude.{◌≡◌, some, Bytes, arith, str_eq_refl, Option-cases, inl, inr, ok}
use ticket_ist.Prelude.Map.{lookup, lookup-emplace}
use ticket_ist.Platform.{Platform}
use ticket_ist.Repository.Events
use ticket_ist.Repository.Events.{Event}
use ticket_ist.Service.Events.{EventService, get_event_by_name}

module _ (p : Platform) (name : Bytes) where
  -- A successful look-up leaves the event in the cache, under the name that was asked for.
  lookup-get_event_by_name :
      (s : EventService p) (event : Event)
      → (get_event_by_name p name s).0 ≡ ok event
      → lookup name (get_event_by_name p name s).1.event_cache ≡ some event
  unfolding get_event_by_name
  lookup-get_event_by_name s event h = elim (Option-cases (lookup name s.event_cache)) [
    | inr (old, found) ↦ ground (arith, h, found)
    | inl missing ↦ elim (Option-cases (Events.get_event_by_name p name s.conn).0) [
      | inl absent ↦ ground (arith, h, missing, absent)
      | inr (new, there) ↦
          ground
            (arith, h, missing, there, lookup-emplace name name new s.event_cache, str_eq_refl name)
    ]
  ]

  cached :
      (s : EventService p) (event : Event)
      → lookup name s.event_cache ≡ some event
      → get_event_by_name p name s ≡ (ok event, s)
  unfolding get_event_by_name
  cached s event h = ground (arith, h)

  -- After a successful look-up the same name gives the same event, on whatever connection and
  -- whatever the tables hold by then, and neither the connection nor the cache is touched.
  pub get_event_by_name_again :
      (s : EventService p) (event : Event) (conn : p.Conn)
      → (get_event_by_name p name s).0 ≡ ok event
      → let after = record (get_event_by_name p name s).1 { conn = conn } in
        get_event_by_name p name after ≡ (ok event, after)
  get_event_by_name_again s event conn h =
      cached (record (get_event_by_name p name s).1 { conn = conn }) event
        (lookup-get_event_by_name s event h)
