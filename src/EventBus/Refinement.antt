-- ===== src/EventBus/Refinement.antt =====
-- The bus against its specification: a log of every scan, from which the ring of the scan and each
-- replay are slices.
use mathlib.Core.Option
use autoforge.Common.Result.{ok}
use autoforge.Common.Texts.{Text, text_eq}
use autoforge.Common.JsMap.{get, has, get-set, get-remove, get-set_self, size}
use autoforge.Events.{AmassEvent, AmassEventInput}
use autoforge.EventBus.{
  EventBus, Options, Draw, ring_of, sequence_of, release_key, store, new_bus, make_room, replay_key,
  evict,
}
use autoforge.EventBus.Replay.{
  last_n, IsNumbered, drop-nil, shift_to-last_n, filter-drop, last_n-last_n, IsNumbered-drop,
  IsNumbered-append, drop-drop,
}
use autoforge.Common.{
  ◌-◌, ◌≡◌, ◌∷◌, ◌++◌, ◌==◌, if◌then◌else◌, refl, sym, inl, inr, List, [], Bool-cases, length, ◌+◌,
  ◌≤◌, ◌∙◌, ◌&&◌, ℕ, max, ap, subst, true, false, not, arith, ltb, leb, drop, filter, length-append,
  ==_iff,
}
use autoforge.EventBus.Memory.{Evicts, IsBounded, evict-Evicts, evict_empty}
use native.Mathlib.Decide.{dec_lt}

-- Every event of a scan since the scan was first published to, or last released.
abbrev pub Log : Type 0
Log = Text → List AmassEvent

abbrev pub forget : Text → Log → Log
forget key log k = if key == k then [] else log k

abbrev pub append : Text → AmassEvent → Log → Log
append key event log k = if key == k then log k ++ event ∷ [] else log k

-- The bus shows of each scan the last `ring_per_scan` events of its log, which are numbered from 1.
pub record RefinesAt (options : Options) (bus : EventBus) (k : Text) (log : List AmassEvent)
    : Type 0 where
  pub ring : ring_of bus k ≡ last_n options.ring_per_scan log
  pub counter : sequence_of bus k ≡ length log
  pub numbered : IsNumbered 0 log

abbrev pub Refines : Options → EventBus → Log → Type 0
Refines options bus log = (k : Text) → RefinesAt options bus k (log k)

pub new_bus-Refines : (options : Options) → Refines options new_bus (λ k. [])
unfolding get
new_bus-Refines options k = record {
  ring = sym (drop-nil (0 - options.ring_per_scan));
  counter = refl;
  numbered = tt;
}

release_key-Refines :
    (options : Options) (bus : EventBus) (key : Text) (log : Log)
    → Refines options bus log
    → Refines options (release_key bus key) (forget key log)
unfolding release_key
release_key-Refines options bus key log r k = elim (Bool-cases (key == k)) [
  | inl same ↦ rw same (record {
    ring = rw (get-remove bus.rings key k, same) (sym (drop-nil (0 - options.ring_per_scan)));
    counter = rw (get-remove bus.sequences key k, same);
    numbered = tt;
  })
  | inr other ↦ rw other (record {
    ring = rw (get-remove bus.rings key k, other) (r k).ring;
    counter = rw (get-remove bus.sequences key k, other) (r k).counter;
    numbered = (r k).numbered;
  })
]

module _ (redact : Text → Text) (options : Options) where
  store-RefinesAt_self :
      (bus : EventBus) (key : Text) (draw : Draw) (input : AmassEventInput) (log : List AmassEvent)
      → RefinesAt options bus key log
      → let stored = store redact options bus key draw input in
        RefinesAt options stored.0 key (log ++ stored.1 ∷ [])
  unfolding store
  store-RefinesAt_self bus key draw input log r =
      let n = options.ring_per_scan in
      let event = (store redact options bus key draw input).1 in
      record {
        ring =
            ap (λ o. Option.get_or o []) (get-set_self bus.rings key _)
            ∙ shift_to-last_n n (ring_of bus key ++ event ∷ [])
            ∙ ap (λ l. last_n n (l ++ event ∷ [])) r.ring
            ∙ last_n-last_n n log event;
        counter =
            ap (λ o. Option.get_or o 0) (get-set_self bus.sequences key _)
            ∙ omega (arith, r.counter, length-append log (event ∷ []));
        numbered = IsNumbered-append 0 log event r.numbered (omega (arith, r.counter));
      }

  store-RefinesAt_other :
      (bus : EventBus) (key k : Text) (draw : Draw) (input : AmassEventInput)
      (log : List AmassEvent)
      → (key == k) ≡ false
      → RefinesAt options bus k log
      → RefinesAt options (store redact options bus key draw input).0 k log
  unfolding store
  store-RefinesAt_other bus key k draw input log other r = record {
    ring = rw (get-set bus.rings key k, other) r.ring;
    counter = rw (get-set bus.sequences key k, other) r.counter;
    numbered = r.numbered;
  }

  pub store-Refines :
      (bus : EventBus) (key : Text) (draw : Draw) (input : AmassEventInput) (log : Log)
      → Refines options bus log
      → let stored = store redact options bus key draw input in
        Refines options stored.0 (append key stored.1 log)
  store-Refines bus key draw input log r k = elim (Bool-cases (key == k)) [
    | inl same ↦
        let stored = store redact options bus key draw input in
        rw same (
          subst (λ j. RefinesAt options stored.0 j (log j ++ stored.1 ∷ [])) ((==_iff key k).0 same)
            (store-RefinesAt_self bus key draw input (log key) (r key)))
    | inr other ↦ rw other (store-RefinesAt_other bus key k draw input (log k) other (r k))
  ]

-- What a publication may forget before it stores its event: nothing, or, for a scan that is not
-- tracked when the cap is reached, all of one tracked scan that was published to no later than any.
pub data MadeRoom (options : Options) (bus : EventBus) (key : Text) (log : Log) : Log → Type 0 where
  kept : MadeRoom options bus key log log
  forgot :
      (victim : Text)
      → Evicts bus victim
      → has bus.sequences key ≡ false
      → options.max_scans ≤ size bus.sequences
      → MadeRoom options bus key log (forget victim log)

make_room_full :
    (options : Options) (bus : EventBus) (key : Text) (log : Log)
    → IsBounded options bus
    → Refines options bus log
    → (leb options.max_scans (size bus.sequences) && not (has bus.sequences key)) ≡ true
    → (log' : Log) × (roomy : EventBus) × (evict bus ≡ ok roomy)
      × MadeRoom options bus key log log'
      × Refines options roomy log'
make_room_full options bus key log b r full = elim (dec_lt 0 (size bus.sequences)) [
  | yes p ↦
      let (victim, e) = evict-Evicts options bus b p in
      (
        forget victim log,
        release_key bus victim,
        e.released,
        forgot victim e (ground arith) (ground arith),
        release_key-Refines options bus victim log r,
      )
  | no p ↦ (log, bus, evict_empty options bus b p, kept, r)
]

pub make_room-MadeRoom :
    (options : Options) (bus : EventBus) (key : Text) (log : Log)
    → IsBounded options bus
    → Refines options bus log
    → (log' : Log) × (roomy : EventBus) × (make_room options bus key ≡ ok roomy)
      × MadeRoom options bus key log log'
      × Refines options roomy log'
unfolding make_room
make_room-MadeRoom options bus key log b r =
    elim (Bool-cases (leb options.max_scans (size bus.sequences) && not (has bus.sequences key))) [
      | inl full ↦ rw full (make_room_full options bus key log b r full)
      | inr free ↦ rw free (log, bus, refl, kept, r)
    ]

-- A replay is the part of the scan's log after the given number, less what the ring has lost.
pub replay_key-Refines :
    (options : Options) (bus : EventBus) (log : Log) (key : Text) (after : ℕ)
    → Refines options bus log
    → replay_key bus key after
      ≡ drop (max after (length (log key) - options.ring_per_scan)) (log key)
unfolding replay_key
replay_key-Refines options bus log key after r =
    let lost = length (log key) - options.ring_per_scan in
    let step : lost + (after - (0 + lost)) ≡ max after lost = omega arith in
    ap (λ ring. filter (λ event. ltb after event.sequence) ring) (r key).ring
    ∙ filter-drop (0 + lost) after (drop lost (log key))
        (IsNumbered-drop 0 lost (log key) (omega arith) (r key).numbered)
    ∙ drop-drop (after - (0 + lost)) lost (log key)
    ∙ ap (λ k. drop k (log key)) step
