-- ===== src/EventBus/Memory.antt =====
-- Bounded memory: the caps on tracked scans and on the ring of each, and which scan is evicted.
use mathlib.Core.Option
use native.Mathlib.Decide.{dec_lt}
use mathlib.Core.List.{Memᴰ}
use autoforge.Common.Result.{ok, bind-ok, ok-injective}
use autoforge.Common.Texts.{Text, text_eq}
use autoforge.Common.{==_iff, inr, ltb, Bool-cases, All, ◌∙◌, sym, none, false, ap, nat_eqb}
use autoforge.Common.JsMap.{JsMap, get, has, size}
use autoforge.Events.{AmassEvent}
use autoforge.EventBus.{
  EventBus, Options, oldest_from, ring_of, evict, release_key, make_room, store, Draw,
  AmassEventInput, Reaction, publish, record_event, notify, Delivery, bound_scan_id,
  is_amass_event_type, release,
}
use autoforge.Common.{◌≤◌, ◌<◌, ◌≡◌, ◌∷◌, ℕ, max, refl, inl, true, some, List, [], arith, length}
use autoforge.EventBus.Keys.{bound_scan_id_bounds}

-- The caps, and what an eviction needs to keep them: the scans with a stamp are those that are
-- tracked, and their names are bounded to themselves.
pub record IsBounded (options : Options) (bus : EventBus) : Type 0 where
  pub tracked : (k : Text) → has bus.touched k ≡ has bus.sequences k
  pub named : (k : Text) → has bus.touched k ≡ true → bound_scan_id k ≡ ok k
  pub scans : size bus.sequences ≤ max 1 options.max_scans
  pub rings : (k : Text) → length (ring_of bus k) ≤ options.ring_per_scan

-- The scan that the loop settles on, given a first candidate: one that it saw, and none older.
pub record IsOldest (m : JsMap Text ℕ) (k : Text) (v : ℕ) : Type 0 where
  pub listed : Memᴰ (k, v) m
  pub least : All (λ entry. v ≤ entry.1) m

skip-Memᴰ {ℓ} : {A : Type ℓ} {a x y : A} {l : List A} → Memᴰ a (x ∷ l) → Memᴰ a (x ∷ y ∷ l)
skip-Memᴰ (Memᴰ.head e) = Memᴰ.head e
skip-Memᴰ (Memᴰ.tail t) = Memᴰ.tail (Memᴰ.tail t)

has_of_mem : (k : Text) (v : ℕ) (m : JsMap Text ℕ) → Memᴰ (k, v) m → has m k ≡ true
unfolding has get
has_of_mem k v [] t = elim t [ ]
has_of_mem k v ((j, w) ∷ m) (Memᴰ.head e) = ground (arith, ==_iff j k)
has_of_mem k v ((j, w) ∷ m) (Memᴰ.tail t) = ground (arith, has_of_mem k v m t)

oldest_from-IsOldest :
    (key : Text) (at : ℕ) (m : JsMap Text ℕ)
    → (k : Text) × (v : ℕ) × (oldest_from (some (key, at)) m ≡ some (k, v))
      × IsOldest ((key, at) ∷ m) k v
unfolding oldest_from
oldest_from-IsOldest key at [] =
    (key, at, refl, record { listed = Memᴰ.head refl; least = omega arith })
oldest_from-IsOldest key at ((j, w) ∷ m) = elim (Bool-cases (ltb w at)) [
  | inl older ↦
      let (k, v, found, o) = oldest_from-IsOldest j w m in
      (
        k,
        v,
        rw (older, oldest_from) found,
        record { listed = Memᴰ.tail o.listed; least = (ground (arith, o.least.0), o.least) },
      )
  | inr newer ↦
      let (k, v, found, o) = oldest_from-IsOldest key at m in
      (
        k,
        v,
        rw (newer, oldest_from) found,
        record {
          listed = skip-Memᴰ o.listed;
          least = (o.least.0, (ground (arith, o.least.0), o.least.1));
        },
      )
]

-- A map with an entry is not empty, and the other way round.
nonempty_of_has {ℓ} : {V : Type ℓ} (m : JsMap Text V) (k : Text) → has m k ≡ true → 0 < size m
unfolding has get
nonempty_of_has [] k h = absurd (cc h)
nonempty_of_has (x ∷ m) k h = omega arith

has_first {ℓ} : {V : Type ℓ} (m : JsMap Text V) → 0 < size m → (k : Text) × (has m k ≡ true)
unfolding has get
has_first [] h = elim h [ ]
has_first ((k, v) ∷ m) h = (k, ground (arith, ==_iff k k))

-- What an eviction does: it releases one tracked scan, published to no later than any other.
pub record Evicts (bus : EventBus) (k : Text) : Type 0 where
  pub stamp : ℕ
  pub oldest : IsOldest bus.touched k stamp
  pub released : evict bus ≡ ok (release_key bus k)
  pub known : has bus.sequences k ≡ true

release_stable :
    (bus : EventBus) (k : Text) → bound_scan_id k ≡ ok k → release bus k ≡ ok (release_key bus k)
unfolding release
release_stable bus k named = rw named refl

evict-from :
    (bus : EventBus) (k : Text) (v : ℕ)
    → oldest_from none bus.touched ≡ some (k, v)
    → bound_scan_id k ≡ ok k
    → evict bus ≡ ok (release_key bus k)
unfolding evict
evict-from bus k v found named =
    let some_text : nat_eqb (length k) 0 ≡ false =
      ground (arith, (bound_scan_id_bounds k k named).0) in
    rw (found, evict, some_text) (release_stable bus k named)

evict-Evicts-touched :
    (bus : EventBus) (touched : JsMap Text ℕ)
    → bus.touched ≡ touched
    → ((k : Text) → has bus.touched k ≡ has bus.sequences k)
    → ((k : Text) → has bus.touched k ≡ true → bound_scan_id k ≡ ok k)
    → 0 < size touched
    → (k : Text) × Evicts bus k
unfolding oldest_from
evict-Evicts-touched bus [] same tracked named p = elim p [ ]
evict-Evicts-touched bus ((j, w) ∷ m) same tracked named p =
    let (k, v, found, o) = oldest_from-IsOldest j w m in
    let listed : IsOldest bus.touched k v = rw same o in
    let seen = has_of_mem k v bus.touched listed.listed in
    (
      k,
      record {
        stamp = v;
        oldest = listed;
        released = evict-from bus k v (rw same found) (named k seen);
        known = sym (tracked k) ∙ seen;
      },
    )

-- With a scan tracked, an eviction finds one.
pub evict-Evicts :
    (options : Options) (bus : EventBus)
    → IsBounded options bus
    → 0 < size bus.sequences
    → (k : Text) × Evicts bus k
evict-Evicts options bus b p =
    let (j, known) = has_first bus.sequences p in
    evict-Evicts-touched bus bus.touched refl b.tracked b.named
      (nonempty_of_has bus.touched j (b.tracked j ∙ known))

-- What is asked of a room: a bounded bus in which the scan is tracked already or has a place.
pub record HasRoom (options : Options) (bus : EventBus) (key : Text) : Type 0 where
  pub bounded : IsBounded options bus
  pub place : has bus.sequences key ≡ false → size bus.sequences < max 1 options.max_scans

evict-of_untracked :
    (bus : EventBus) (touched : JsMap Text ℕ)
    → bus.touched ≡ touched
    → size touched ≡ 0
    → evict bus ≡ ok bus
unfolding evict oldest_from
evict-of_untracked bus [] same h = rw (same, oldest_from)
evict-of_untracked bus (x ∷ m) same h = absurd (omega arith)

-- With no scan tracked, an eviction does nothing.
pub evict_empty :
    (options : Options) (bus : EventBus)
    → IsBounded options bus
    → ¬ (0 < size bus.sequences)
    → evict bus ≡ ok bus
evict_empty options bus b p = elim (dec_lt 0 (size bus.touched)) [
  | yes q ↦
      let (k, seen) = has_first bus.touched q in
      absurd (p (nonempty_of_has bus.sequences k (sym (b.tracked k) ∙ seen)))
  | no q ↦ evict-of_untracked bus bus.touched refl (omega arith)
]

-- What a publication that succeeds has done.
pub publish-eq-ok :
    (redact : Text → Text) (options : Options) (react : ℕ → AmassEvent → Reaction) (bus : EventBus)
    (draw : Draw) (input : AmassEventInput) {r : EventBus × Delivery}
    → publish redact options react bus draw input ≡ ok r
    → (key : Text) × (roomy : EventBus) × (bound_scan_id input.scan_id ≡ ok key)
      × (make_room options bus key ≡ ok roomy)
      × (r
          ≡ notify react
              (store redact options roomy key draw input).0
              key
              (store redact options roomy key draw input).1)
unfolding publish record_event
publish-eq-ok redact options react bus draw input h =
    elim (Bool-cases (is_amass_event_type input.event_type)) [
      | inl known ↦
          let (key, bounded, recording) = bind-ok (bound_scan_id input.scan_id) _ (rw known at h) in
          let (recorded, recorded_ok, same) =
            bind-ok (record_event redact options bus key draw input) _ recording in
          let (roomy, made, stored) = bind-ok (make_room options bus key) _ recorded_ok in
          (
            key,
            roomy,
            bounded,
            made,
            sym (ok-injective same)
                ∙ ap (λ s. notify react s.0 key s.1) (sym (ok-injective stored)),
          )
      | inr unknown ↦ absurd (cc (rw unknown at h))
    ]
