-- ===== src/Inbox/Events.antt =====
-- The life of an inbox as a sequence of events: pushes of the router, requests of the client,
-- rounds of maintenance and starts of the daemon.
use scatter_web_project.Common.{
  ℕ, refl, Bytes, String, true, false, not, Option, some, List, [], ◌∷◌, Result, Exec, string_eq,
  ◌==◌,
}
use scatter_web_project.Cbor.{Item, Libcbor, dict}
use scatter_web_project.Ipc.Value.{Value, Fields, find_field, from_string, from_bytes}
use scatter_web_project.Inbox.Store.{StoredMessage, get_pending, delete_expired, has_expired}
use scatter_web_project.Inbox.Node.{Inbox, Call, Config, attempt, announce}
use scatter_web_project.Inbox.Delivery.{
  Clock, process_item, process_delivery_frame, received_frame, on_ar_push,
}
use scatter_web_project.Inbox.Rounds.{
  announce_each, start, poll_known_outboxes, retry_each, maintenance_round,
}
use scatter_web_project.Inbox.Requests.{handle}
use scatter_web_project.Inbox.Quiet.{poll_known_outboxes-IsQuiet, retry_each-IsQuiet}
use scatter_web_project.Inbox.Told.{IsSound, announce-IsSound, select-IsSound}
use scatter_web_project.Inbox.Serving.{handle-IsSafe}
use scatter_web_project.Inbox.Invariant.{
  IsSafe, quiet-IsSafe, bind-IsSafe, if-IsSafe, pure-IsSafe, route_frame-IsSafe,
}

pub data Event : Type 0 where
  router_push : Clock → String → Fields → Event
  client_request : ℕ → String → Fields → Event
  maintenance : Clock → Event
  started : Clock → Event

module _ (lib : Libcbor) (reply : List Call → Result Fields) (cfg : Config) where
  -- An exception ends the handling of its event and no other.
  unfoldable pub on_event : Event → Inbox → Inbox
  on_event (router_push clock event payload) s = (on_ar_push lib reply cfg clock event payload s).1
  on_event (client_request now_s method params) s = (handle reply now_s method params s).1
  on_event (maintenance clock) s = (maintenance_round lib reply clock s).1
  on_event (started clock) s = (start lib reply clock s).1

  unfoldable pub run : List Event → Inbox → Inbox
  run [] s = s
  run (e ∷ es) s = run es (on_event e s)

  process_item-IsSafe :
      (clock : Clock) (channel_id : String) (body : Bytes) (item : Option Item)
      → IsSafe (process_item lib reply cfg clock channel_id body item)
  unfolding process_item
  process_item-IsSafe clock channel_id body (some (dict ps)) =
      route_frame-IsSafe lib reply cfg clock channel_id body ps
  process_item-IsSafe clock channel_id body _ = pure-IsSafe tt

  received_frame-IsSafe :
      (clock : Clock) (channel_id payload : Option Value)
      → IsSafe (received_frame lib reply cfg clock channel_id payload)
  unfolding received_frame process_delivery_frame
  received_frame-IsSafe clock (some (from_string channel_id)) (some (from_bytes body)) =
      process_item-IsSafe clock channel_id body (lib.load body)
  received_frame-IsSafe clock _ _ = pure-IsSafe tt

  on_ar_push-IsSafe :
      (clock : Clock) (event : String) (payload : Fields)
      → IsSafe (on_ar_push lib reply cfg clock event payload)
  unfolding on_ar_push
  on_ar_push-IsSafe clock event payload =
      if-IsSafe (event == "frame.recv") _ _
        (received_frame-IsSafe clock (find_field "channel_id" payload)
          (find_field "payload" payload))
        (pure-IsSafe tt)

  announce_each-IsSound :
      (ms : List StoredMessage) (s : Inbox) → IsSound s → IsSound (announce_each lib reply ms s)
  unfolding announce_each
  announce_each-IsSound [] s sound = sound
  announce_each-IsSound (m ∷ ms) s sound =
      announce_each-IsSound ms (announce m.message_id m.sender_id s)
        (announce-IsSound m.message_id m.sender_id s sound)

  attempt-IsSafe : {A : Type 0} (f : Exec Inbox A) → IsSafe f → IsSafe (attempt f)
  unfolding attempt
  attempt-IsSafe f safe s sound = safe s sound

  start-IsSafe : (clock : Clock) → IsSafe (start lib reply clock)
  unfolding start
  start-IsSafe clock =
      bind-IsSafe (attempt (poll_known_outboxes lib reply clock)) _
        (attempt-IsSafe (poll_known_outboxes lib reply clock) (
          quiet-IsSafe (poll_known_outboxes lib reply clock)
            (poll_known_outboxes-IsQuiet lib reply clock)))
        (λ polled s sound. announce_each-IsSound (get_pending s.store true) s sound)

  maintenance_round-IsSafe : (clock : Clock) → IsSafe (maintenance_round lib reply clock)
  unfolding maintenance_round delete_expired attempt
  maintenance_round-IsSafe clock s sound =
      let t = record s { store = delete_expired clock.now_s s.store } in
      quiet-IsSafe (retry_each lib reply (get_pending t.store false))
        (retry_each-IsQuiet lib reply (get_pending t.store false)) t
        (select-IsSound (λ m. not (has_expired clock.now_s m)) s t refl refl sound)

  on_event-IsSound : (e : Event) (s : Inbox) → IsSound s → IsSound (on_event e s)
  unfolding on_event
  on_event-IsSound (router_push clock event payload) s sound =
      on_ar_push-IsSafe clock event payload s sound
  on_event-IsSound (client_request now_s method params) s sound =
      handle-IsSafe reply now_s method params s sound
  on_event-IsSound (maintenance clock) s sound = maintenance_round-IsSafe clock s sound
  on_event-IsSound (started clock) s sound = start-IsSafe clock s sound

  -- Whatever events arrive, and however the router answers: when no message id was stored twice and
  -- the client had been told of every stored message, the same holds afterwards.
  pub run-IsSound : (es : List Event) (s : Inbox) → IsSound s → IsSound (run es s)
  unfolding run
  run-IsSound [] s sound = sound
  run-IsSound (e ∷ es) s sound = run-IsSound es (on_event e s) (on_event-IsSound e s sound)
