-- ===== src/EventBus/Subscriptions.antt =====
-- Subscriptions: what `subscribe` and a live `unsubscribe` closure change.
use mathlib.Core.Option
use autoforge.Common.Texts.{Text, text_eq}
use autoforge.Common.JsMap.{
  get, set, get-set, get-remove, get-set_self, get-set_ne, get-remove_ne, get-remove_self, JsMap,
  remove,
}
use autoforge.EventBus.{
  EventBus, Handle, members, set_of, delete, add, release_key, subscribe_key, unsubscribe,
  member_list, new_bus,
}
use autoforge.Common.{
  ◌<◌, ◌≡◌, ◌∙◌, ◌==◌, if◌then◌else◌, ℕ, refl, ap, inl, inr, false, none, some, List, [], arith,
  Option-cases, ==_iff, nat_eq, sym, subst, Bool-cases, ◌∷◌, nat_eqb, length, suc, true,
}

-- The references in the map are in use, and no two scans share a set.
pub record IsLinked (bus : EventBus) : Type 0 where
  pub fresh : (k : Text) (ref : ℕ) → get bus.subscribers k ≡ some ref → ref < bus.next_ref
  pub unshared :
      (j k : Text) (ref : ℕ)
      → get bus.subscribers j ≡ some ref
      → get bus.subscribers k ≡ some ref
      → j ≡ k

-- A closure is live while the map still holds its set for its scan.
abbrev pub IsLive : EventBus → Handle → Type 0
IsLive bus handle = get bus.subscribers handle.key ≡ some handle.ref

nil_of_empty : (items : List ℕ) → nat_eqb (length items) 0 ≡ true → items ≡ []
nil_of_empty [] h = refl
nil_of_empty (x ∷ items) h = ground arith

-- A function of the scan that changes at one key.
by_key :
    (f g m : Text → List ℕ) (key k : Text)
    → f key ≡ g key
    → ((key == k) ≡ false → f k ≡ m k)
    → f k ≡ (if key == k then g k else m k)
by_key f g m key k here there = elim (Bool-cases (key == k)) [
  | inl same ↦ rw same (subst (λ j. f j ≡ g j) ((==_iff key k).0 same) here)
  | inr other ↦ rw other (there other)
]

module _ (bus : EventBus) (linked : IsLinked bus) where
  -- Writing one scan's set leaves the members of every other scan.
  write_other :
      (key k : Text) (ref : ℕ) (items : List ℕ)
      → get bus.subscribers key ≡ some ref
      → (key == k) ≡ false
      → member_list (set bus.sets ref items) (get bus.subscribers k) ≡ members bus k
  write_other key k ref items here other = elim (Option-cases (get bus.subscribers k)) [
    | inl absent ↦ rw absent refl
    | inr (r, found) ↦
        let apart : (ref == r) ≡ false =
          ground (arith, linked.unshared key k ref here, ==_iff key k, found) in
        rw found (ap (λ o. Option.get_or o []) (get-set_ne bus.sets ref r items apart))
  ]

  write_here :
      (key : Text) (ref : ℕ) (items : List ℕ)
      → get bus.subscribers key ≡ some ref
      → member_list (set bus.sets ref items) (get bus.subscribers key) ≡ items
  write_here key ref items here =
      rw here (ap (λ o. Option.get_or o []) (get-set_self bus.sets ref items))

  members-of_get :
      (key : Text) (ref : ℕ) → get bus.subscribers key ≡ some ref → members bus key ≡ set_of bus ref
  members-of_get key ref here = ap (member_list bus.sets) here

  -- A fresh set is no scan's yet.
  write_fresh :
      (k : Text) (items : List ℕ)
      → member_list (set bus.sets bus.next_ref items) (get bus.subscribers k) ≡ members bus k
  write_fresh k items = elim (Option-cases (get bus.subscribers k)) [
    | inl absent ↦ rw absent refl
    | inr (r, found) ↦
        let apart : (bus.next_ref == r) ≡ false = ground (arith, linked.fresh k r found) in
        rw found (ap (λ o. Option.get_or o []) (get-set_ne bus.sets bus.next_ref r items apart))
  ]

  subscribe_known :
      (key k : Text) (subscriber ref : ℕ)
      → get bus.subscribers key ≡ some ref
      → member_list (set bus.sets ref (add subscriber (set_of bus ref))) (get bus.subscribers k)
        ≡ (if key == k then add subscriber (members bus k) else members bus k)
  subscribe_known key k subscriber ref here =
      let after = λ (j : Text).
        member_list (set bus.sets ref (add subscriber (set_of bus ref))) (get bus.subscribers j) in
      by_key after (λ j. add subscriber (members bus j)) (members bus) key k
        (write_here key ref _ here ∙ ap (add subscriber) (sym (members-of_get key ref here)))
        (write_other key k ref _ here)

  subscribe_new :
      (key k : Text) (subscriber : ℕ)
      → get bus.subscribers key ≡ none
      → member_list
          (set bus.sets bus.next_ref (subscriber ∷ []))
          (get (set bus.subscribers key bus.next_ref) k)
        ≡ (if key == k then add subscriber (members bus k) else members bus k)
  subscribe_new key k subscriber absent =
      let sets = set bus.sets bus.next_ref (subscriber ∷ []) in
      let after = λ (j : Text). member_list sets (get (set bus.subscribers key bus.next_ref) j) in
      by_key after (λ j. add subscriber (members bus j)) (members bus) key k
        (ap (member_list sets) (get-set_self bus.subscribers key bus.next_ref)
          ∙ ap (λ o. Option.get_or o []) (get-set_self bus.sets bus.next_ref (subscriber ∷ []))
          ∙ ap (add subscriber) (sym (ap (member_list bus.sets) absent)))
        (λ other.
          ap (member_list sets) (get-set_ne bus.subscribers key k bus.next_ref other)
          ∙ write_fresh k _)

  -- Who is a member after `subscribe`, for the scan itself and for every other scan.
  subscribe_key-members :
      (key k : Text) (subscriber : ℕ)
      → members (subscribe_key bus key subscriber).0 k
        ≡ (if key == k then add subscriber (members bus k) else members bus k)
  unfolding subscribe_key
  subscribe_key-members key k subscriber = elim (Option-cases (get bus.subscribers key)) [
    | inr (ref, here) ↦ rw (here, subscribe_key) (subscribe_known key k subscriber ref here)
    | inl absent ↦ rw (absent, subscribe_key) (subscribe_new key k subscriber absent)
  ]

  unsubscribe_here :
      (h : Handle)
      → IsLive bus h
      → members (unsubscribe bus h) h.key ≡ delete h.subscriber (members bus h.key)
  unfolding unsubscribe
  unsubscribe_here h live =
      let left = delete h.subscriber (set_of bus h.ref) in
      let before : delete h.subscriber (members bus h.key) ≡ left =
        ap (delete h.subscriber) (members-of_get h.key h.ref live) in
      elim (Bool-cases (nat_eqb (length left) 0)) [
        | inl empty ↦
            rw (empty, unsubscribe)
              (ap (member_list _) (get-remove_self bus.subscribers h.key)
                ∙ sym (before ∙ nil_of_empty left empty))
        | inr more ↦ rw (more, unsubscribe) (write_here h.key h.ref left live ∙ sym before)
      ]

  unsubscribe_other :
      (h : Handle) (k : Text)
      → IsLive bus h
      → (h.key == k) ≡ false
      → members (unsubscribe bus h) k ≡ members bus k
  unfolding unsubscribe
  unsubscribe_other h k live other =
      let left = delete h.subscriber (set_of bus h.ref) in
      elim (Bool-cases (nat_eqb (length left) 0)) [
        | inl empty ↦
            rw (empty, unsubscribe)
              (ap (member_list (set bus.sets h.ref left))
                  (get-remove_ne bus.subscribers h.key k other)
                ∙ write_other h.key k h.ref left live other)
        | inr more ↦ rw (more, unsubscribe) (write_other h.key k h.ref left live other)
      ]

  -- A live closure takes its subscriber out of its scan's members, and changes no other scan's.
  unsubscribe-members :
      (h : Handle) (k : Text)
      → IsLive bus h
      → members (unsubscribe bus h) k
        ≡ (if h.key == k then delete h.subscriber (members bus k) else members bus k)
  unsubscribe-members h k live =
      by_key (members (unsubscribe bus h)) (λ j. delete h.subscriber (members bus j)) (members bus)
        h.key k (unsubscribe_here h live) (unsubscribe_other h k live)

-- The links hold of a new bus, and every operation on subscriptions keeps them.
pub new_bus-IsLinked : IsLinked new_bus
unfolding get
new_bus-IsLinked = record {
  fresh = λ k ref h. absurd (cc h);
  unshared = λ j k ref h h'. absurd (cc h);
}

subscribe_new-IsLinked :
    (bus : EventBus) (key : Text) (sets : JsMap ℕ (List ℕ))
    → IsLinked bus
    → IsLinked (record bus {
      subscribers = set bus.subscribers key bus.next_ref;
      sets = sets;
      next_ref = suc bus.next_ref;
    })
subscribe_new-IsLinked bus key sets linked = record {
  fresh = λ k ref h. ground (arith, get-set bus.subscribers key k bus.next_ref, linked.fresh k ref);
  unshared = λ j k ref h h'. ground (
    arith,
    get-set bus.subscribers key j bus.next_ref,
    get-set bus.subscribers key k bus.next_ref,
    ==_iff key j,
    ==_iff key k,
    linked.fresh j ref,
    linked.fresh k ref,
    linked.unshared j k ref,
  );
}

pub subscribe_key-IsLinked :
    (bus : EventBus) (key : Text) (subscriber : ℕ)
    → IsLinked bus
    → IsLinked (subscribe_key bus key subscriber).0
unfolding subscribe_key
subscribe_key-IsLinked bus key subscriber linked = elim (Option-cases (get bus.subscribers key)) [
  | inr (ref, here) ↦
      rw (here, subscribe_key) (record { fresh = linked.fresh; unshared = linked.unshared })
  | inl absent ↦ rw (absent, subscribe_key) (subscribe_new-IsLinked bus key _ linked)
]

remove-IsLinked :
    (bus : EventBus) (key : Text) (rest : EventBus)
    → rest.subscribers ≡ remove bus.subscribers key
    → rest.next_ref ≡ bus.next_ref
    → IsLinked bus
    → IsLinked rest
remove-IsLinked bus key rest removed same linked = record {
  fresh = λ k ref h. ground (arith, get-remove bus.subscribers key k, linked.fresh k ref);
  unshared = λ j k ref h h'. ground (
    arith,
    get-remove bus.subscribers key j,
    get-remove bus.subscribers key k,
    linked.unshared j k ref,
  );
}

pub release_key-IsLinked :
    (bus : EventBus) (key : Text) → IsLinked bus → IsLinked (release_key bus key)
unfolding release_key
release_key-IsLinked bus key linked = remove-IsLinked bus key (release_key bus key) refl refl linked

pub unsubscribe-IsLinked :
    (bus : EventBus) (h : Handle) → IsLinked bus → IsLinked (unsubscribe bus h)
unfolding unsubscribe
unsubscribe-IsLinked bus h linked =
    elim (Bool-cases (nat_eqb (length (delete h.subscriber (set_of bus h.ref))) 0)) [
      | inl empty ↦ remove-IsLinked bus h.key (unsubscribe bus h) (rw empty refl) refl linked
      | inr more ↦
          rw (more, unsubscribe) (record { fresh = linked.fresh; unshared = linked.unshared })
    ]
