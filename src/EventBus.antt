-- ===== src/EventBus.antt =====
-- The in-memory event bus: backend/src/observability/application/in-memory-event-bus.ts, the class
-- `InMemoryEventBus` behind the port of backend/src/observability/domain/ports/event-bus.ts.
-- The private maps are the fields of `EventBus`. A `Set` of subscribers is shared between the map
-- and the `unsubscribe` closures, so sets stand on a heap, `sets`, and the map holds references.
-- A subscriber is a number; what it does to the bus when it is called is the parameter `react`.
pub mod Keys
mod Tests
pub mod Memory
pub mod Replay
pub mod Refinement
pub mod Notification
pub mod Subscriptions
pub mod Unsubscribe
use mathlib.Core.Option
use autoforge.Common.{
  ℕ, suc, ◌+◌, ◌-◌, String, Bool, true, false, ◌&&◌, not, Option, none, some, List, [], ◌∷◌, ◌++◌,
  ltb, leb, nat_eqb, if◌then◌else◌, length, take, drop, filter, any, ◌==◌, nat_eq,
}
use autoforge.Common.Result.{Result, ok, err, ◌>>=◌}
use autoforge.Common.Texts.{Text, text_eq, trim}
use autoforge.Common.JsMap.{JsMap, get, set, has, remove, size}
use autoforge.Events.{Node, AmassEventInput, AmassEvent, is_amass_event_type}
use autoforge.Events.Sanitize.{max_scan_id_chars, sanitize_message, sanitize_metadata}

pub record Options : Type 0 where
  pub ring_per_scan : ℕ
  pub max_scans : ℕ
  pub message_max_chars : ℕ
  pub metadata_max_bytes : ℕ

abbrev pub default_options : Options
default_options = record {
  ring_per_scan = 200;
  max_scans = 100;
  message_max_chars = 300;
  metadata_max_bytes = 2_048;
}

pub record EventBus : Type 0 where
  pub sequences : JsMap Text ℕ
  pub rings : JsMap Text (List AmassEvent)
  pub subscribers : JsMap Text ℕ
  pub touched : JsMap Text ℕ
  pub counts : JsMap Text ℕ
  pub sets : JsMap ℕ (List ℕ)
  pub next_ref : ℕ

abbrev pub new_bus : EventBus
new_bus = record {
  sequences = [];
  rings = [];
  subscribers = [];
  touched = [];
  counts = [];
  sets = [];
  next_ref = 0;
}

pub data BusError : Type 0 where
  unknown_event_type scan_id_required : BusError

-- What the environment supplies to one `publish`: `randomUUID`, `now` and `Date.now`.
pub record Draw : Type 0 where
  pub event_id : String
  pub timestamp : String
  pub epoch : ℕ

-- What an `unsubscribe` closure holds.
pub record Handle : Type 0 where
  pub key : Text
  pub ref : ℕ
  pub subscriber : ℕ

-- What a subscriber does when it is called: the bus after all the calls of its methods and closures
-- that it makes, and whether it throws in the end.
abbrev pub Reaction : Type 0
Reaction = EventBus → EventBus × Bool

unfoldable pub bound_scan_id : Text → Result BusError Text
bound_scan_id scan_id =
    let trimmed = trim scan_id in
    if nat_eqb (length trimmed) 0
    then err scan_id_required
    else ok
        (if ltb max_scan_id_chars (length trimmed) then take max_scan_id_chars trimmed else trimmed)

abbrev pub sequence_of : EventBus → Text → ℕ
sequence_of bus key = Option.get_or (get bus.sequences key) 0

abbrev pub ring_of : EventBus → Text → List AmassEvent
ring_of bus key = Option.get_or (get bus.rings key) []

abbrev pub set_of : EventBus → ℕ → List ℕ
set_of bus ref = Option.get_or (get bus.sets ref) []

abbrev pub member_list : JsMap ℕ (List ℕ) → Option ℕ → List ℕ
member_list sets none = []
member_list sets (some ref) = Option.get_or (get sets ref) []

-- The live subscribers of a scan.
abbrev pub members : EventBus → Text → List ℕ
members bus key = member_list bus.sets (get bus.subscribers key)

-- `release`, on a key that `boundScanId` has bounded.
unfoldable pub release_key : EventBus → Text → EventBus
release_key bus key = record bus {
  sequences = remove bus.sequences key;
  rings = remove bus.rings key;
  subscribers = remove bus.subscribers key;
  touched = remove bus.touched key;
  counts = remove bus.counts key;
}

unfoldable pub release : EventBus → Text → Result BusError EventBus
unfolding release_key
release bus scan_id = do key ← bound_scan_id scan_id; ok (release_key bus key)

-- The loop of `evictLeastRecentlyPublished`; `none` is the initial pair of null and infinity.
oldest_from : Option (Text × ℕ) → JsMap Text ℕ → Option (Text × ℕ)
oldest_from best [] = best
oldest_from none ((key, at) ∷ rest) = oldest_from (some (key, at)) rest
oldest_from (some (oldest, oldest_at)) ((key, at) ∷ rest) =
    oldest_from (if ltb at oldest_at then some (key, at) else some (oldest, oldest_at)) rest

-- The eviction calls `release`, which bounds the stored key once more: a key that was cut after a
-- space is trimmed, so that what is released is another scan or none.
unfoldable pub evict : EventBus → Result BusError EventBus
unfolding oldest_from release
evict bus = elim (oldest_from none bus.touched) [
  | none ↦ ok bus
  | some (oldest, _) ↦ if nat_eqb (length oldest) 0 then ok bus else release bus oldest
]

-- `while (ring.length > ringPerScan) ring.shift()`: the length falls by one a round.
unfoldable pub shift_to : ℕ → List AmassEvent → List AmassEvent
shift_to ring_per_scan [] = []
shift_to ring_per_scan (event ∷ ring) =
    let rest = shift_to ring_per_scan ring in
    if ltb ring_per_scan (suc (length ring)) then rest else event ∷ ring

unfoldable pub ring_push : ℕ → EventBus → Text → AmassEvent → EventBus
unfolding shift_to
ring_push ring_per_scan bus key event = record bus {
  rings = set bus.rings key (shift_to ring_per_scan (ring_of bus key ++ event ∷ []));
}

abbrev pub delete : ℕ → List ℕ → List ℕ
delete subscriber items = filter (λ s. not (s == subscriber)) items

unfoldable pub unsubscribe : EventBus → Handle → EventBus
unsubscribe bus handle =
    let left = delete handle.subscriber (set_of bus handle.ref) in
    record bus {
      sets = set bus.sets handle.ref left;
      subscribers =
          if nat_eqb (length left) 0 then remove bus.subscribers handle.key else bus.subscribers;
    }

-- Adding a member of a `Set` again changes nothing.
abbrev pub add : ℕ → List ℕ → List ℕ
add subscriber items = if any (λ s. s == subscriber) items then items else items ++ subscriber ∷ []

-- `subscribe`, on a bounded key.
unfoldable pub subscribe_key : EventBus → Text → ℕ → EventBus × Handle
subscribe_key bus key subscriber = elim (get bus.subscribers key) [
  | some ref ↦ (
    record bus { sets = set bus.sets ref (add subscriber (set_of bus ref)) },
    record { key = key; ref = ref; subscriber = subscriber },
  )
  | none ↦ (
    record bus {
      subscribers = set bus.subscribers key bus.next_ref;
      sets = set bus.sets bus.next_ref (add subscriber []);
      next_ref = suc bus.next_ref;
    },
    record { key = key; ref = bus.next_ref; subscriber = subscriber },
  )
]

unfoldable pub subscribe : EventBus → Text → ℕ → Result BusError (EventBus × Handle)
unfolding subscribe_key
subscribe bus scan_id subscriber = do
  key ← bound_scan_id scan_id
  ok (subscribe_key bus key subscriber)

unfoldable pub subscriber_count : EventBus → Text → Result BusError ℕ
subscriber_count bus scan_id = do key ← bound_scan_id scan_id; ok (length (members bus key))

unfoldable pub replay_key : EventBus → Text → ℕ → List AmassEvent
replay_key bus key after = filter (λ event. ltb after event.sequence) (ring_of bus key)

unfoldable pub replay : EventBus → Text → ℕ → Result BusError (List AmassEvent)
unfolding replay_key
replay bus scan_id after = do key ← bound_scan_id scan_id; ok (replay_key bus key after)

unfoldable pub get_sequence : EventBus → Text → Result BusError ℕ
get_sequence bus scan_id = do key ← bound_scan_id scan_id; ok (sequence_of bus key)

unfoldable pub published_count : EventBus → Text → Result BusError ℕ
published_count bus scan_id = do
  key ← bound_scan_id scan_id
  ok (Option.get_or (get bus.counts key) 0)

-- What a publication did to the outside: who was called with the event, and who threw.
pub record Delivery : Type 0 where
  pub called : List ℕ
  pub warned : List ℕ

module _ (react : ℕ → AmassEvent → Reaction) where
  -- The loop of `notify` over a copy of the set; what a subscriber throws is caught and logged.
  unfoldable pub notify_all : EventBus → AmassEvent → List ℕ → EventBus × Delivery
  notify_all bus event [] = (bus, record { called = []; warned = [] })
  notify_all bus event (subscriber ∷ others) =
      let (after, throws) = react subscriber event bus in
      let (bus', later) = notify_all after event others in
      (
        bus',
        record {
          called = subscriber ∷ later.called;
          warned = if throws then subscriber ∷ later.warned else later.warned;
        },
      )

  unfoldable pub notify : EventBus → Text → AmassEvent → EventBus × Delivery
  unfolding notify_all
  notify bus key event =
      notify_all
        (record bus { counts = set bus.counts key (Option.get_or (get bus.counts key) 0 + 1) })
        event (members bus key)

unfoldable pub make_room : Options → EventBus → Text → Result BusError EventBus
make_room options bus key =
    if leb options.max_scans (size bus.sequences) && not (has bus.sequences key)
    then evict bus
    else ok bus

module _ (redact : Text → Text) (options : Options) where
  abbrev pub event_of : Draw → AmassEventInput → Text → ℕ → AmassEvent
  event_of draw input key sequence = record {
    event_id = draw.event_id;
    scan_id = key;
    sequence = sequence;
    timestamp = draw.timestamp;
    event_type = input.event_type;
    agent_type = input.agent_type;
    phase = input.phase;
    level = Option.get_or input.level "INFO";
    status = input.status;
    message = sanitize_message redact options.message_max_chars input.message;
    metadata = sanitize_metadata redact options.metadata_max_bytes input.metadata;
  }

  -- `publish` once there is room for the scan: number the event, keep it and stamp the scan.
  unfoldable pub store : EventBus → Text → Draw → AmassEventInput → EventBus × AmassEvent
  unfolding ring_push
  store roomy key draw input =
      let sequence = sequence_of roomy key + 1 in
      let event = event_of draw input key sequence in
      let pushed =
        ring_push options.ring_per_scan
          (record roomy { sequences = set roomy.sequences key sequence }) key event in
      (record pushed { touched = set pushed.touched key draw.epoch }, event)

  -- `publish` from the point where the scan id is bounded, up to the call of `notify`.
  unfoldable pub record_event :
      EventBus → Text → Draw → AmassEventInput → Result BusError (EventBus × AmassEvent)
  record_event bus key draw input = do
    roomy ← make_room options bus key
    ok (store roomy key draw input)

  unfoldable pub publish :
      (ℕ → AmassEvent → Reaction)
      → EventBus
      → Draw
      → AmassEventInput
      → Result BusError (EventBus × Delivery)
  publish react bus draw input =
      if is_amass_event_type input.event_type
      then (do
        key ← bound_scan_id input.scan_id
        recorded ← record_event bus key draw input
        ok (notify react recorded.0 key recorded.1))
      else err unknown_event_type
