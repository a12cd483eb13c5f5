-- ===== src/EventBus/Unsubscribe.antt =====
-- An `unsubscribe` closure that outlives its set: the set was released, or it was emptied.
use mathlib.Core.Option
use autoforge.Common.Texts.{Text, text_eq}
use autoforge.Common.JsMap.{get, set, get-set_self, get-remove_self, get-set_ne}
use autoforge.EventBus.{
  EventBus, Handle, members, set_of, delete, release_key, subscribe_key, unsubscribe, member_list,
}
use autoforge.Common.{◌<◌, ◌≡◌, ◌∷◌, ℕ, none, [], arith, ==_self, ◌∙◌, suc, refl, ap, nat_eq}

-- `subscribe` for a scan that has no set yet.
abbrev subscribed_new : EventBus → Text → ℕ → EventBus × Handle
subscribed_new bus key subscriber = (
  record bus {
    subscribers = set bus.subscribers key bus.next_ref;
    sets = set bus.sets bus.next_ref (subscriber ∷ []);
    next_ref = suc bus.next_ref;
  },
  record { key = key; ref = bus.next_ref; subscriber = subscriber },
)

subscribe_key_new :
    (bus : EventBus) (key : Text) (subscriber : ℕ)
    → get bus.subscribers key ≡ none
    → subscribe_key bus key subscriber ≡ subscribed_new bus key subscriber
unfolding subscribe_key
subscribe_key_new bus key subscriber absent = rw (absent, subscribe_key)

members-subscribed_new :
    (bus : EventBus) (key : Text) (subscriber : ℕ)
    → members (subscribed_new bus key subscriber).0 key ≡ subscriber ∷ []
members-subscribed_new bus key subscriber =
    ap (member_list _) (get-set_self bus.subscribers key bus.next_ref)
    ∙ ap (λ o. Option.get_or o []) (get-set_self bus.sets bus.next_ref (subscriber ∷ []))

get-release_key : (bus : EventBus) (key : Text) → get (release_key bus key).subscribers key ≡ none
unfolding release_key
get-release_key bus key = get-remove_self bus.subscribers key

-- A closure that finds itself alone in its set takes the scan's entry out of the map.
unsubscribe-members_alone :
    (bus : EventBus) (h : Handle)
    → set_of bus h.ref ≡ h.subscriber ∷ []
    → members (unsubscribe bus h) h.key ≡ []
unfolding unsubscribe
unsubscribe-members_alone bus h alone =
    let gone : delete h.subscriber (set_of bus h.ref) ≡ [] =
      ap (delete h.subscriber) alone ∙ rw (==_self h.subscriber) refl in
    let absent : get (unsubscribe bus h).subscribers h.key ≡ none =
      rw gone (get-remove_self bus.subscribers h.key) in
    ap (member_list _) absent

set_of-subscribed_new_ne :
    (bus : EventBus) (key : Text) (subscriber : ℕ) (ref : ℕ)
    → ref < bus.next_ref
    → set_of (subscribed_new bus key subscriber).0 ref ≡ set_of bus ref
set_of-subscribed_new_ne bus key subscriber ref old =
    ap (λ o. Option.get_or o [])
      (get-set_ne bus.sets bus.next_ref ref (subscriber ∷ []) (ground arith))

next_of_released :
    (bus : EventBus) (key : Text) (first : ℕ)
    → bus.next_ref < (release_key (subscribed_new bus key first).0 key).next_ref
unfolding release_key
next_of_released bus key first = omega arith

set_of-released :
    (bus : EventBus) (key : Text) (first : ℕ)
    → set_of (release_key (subscribed_new bus key first).0 key) bus.next_ref ≡ first ∷ []
unfolding release_key
set_of-released bus key first =
    ap (λ o. Option.get_or o []) (get-set_self bus.sets bus.next_ref (first ∷ []))

-- A closure of a set that the map no longer holds still takes the scan's present entry out of the
-- map: whoever subscribed after a release is not called any more, though it never unsubscribed.
pub unsubscribe_stale :
    (bus : EventBus) (key : Text) (first second : ℕ)
    → get bus.subscribers key ≡ none
    → let subscribed = subscribe_key bus key first in
      let again = subscribe_key (release_key subscribed.0 key) key second in
      (members again.0 key ≡ second ∷ []) × (members (unsubscribe again.0 subscribed.1) key ≡ [])
unsubscribe_stale bus key first second absent =
    let released = release_key (subscribed_new bus key first).0 key in
    let new = get-release_key (subscribed_new bus key first).0 key in
    rw (subscribe_key_new bus key first absent, subscribe_key_new released key second new)
      (
        members-subscribed_new released key second,
        unsubscribe-members_alone (subscribed_new released key second).0
            (subscribed_new bus key first).1
            (set_of-subscribed_new_ne released key second bus.next_ref
                (next_of_released bus key first)
              ∙ set_of-released bus key first),
      )
