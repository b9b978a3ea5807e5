-- ===== src/Webhook/Delivery.antt =====
-- Deliveries of webhook events: an event is held once, however often it is delivered.
use backend_new.Basics.{
  ◌≡◌, ◌≤◌, refl, Bool, true, none, some, List, [], ◌∷◌, ◌++◌, ◌+◌, find_sound, any, count, Text,
  text_eq, text_eq_iff, ok, Bool-cases, inl, inr, arith, count_pos, find_of_any, any-eq_false,
  subst, if◌then◌else◌,
}
use backend_new.Webhook.Inbox.{
  Event, Fetched, event, unreachable, is_event_id, has_event, fresh_event, record_event, answered,
  receive,
}

-- No two rows hold one event.
abbrev pub Deduplicated : List Event → Type 0
Deduplicated events = (id : Text) → count (has_event id) events ≤ 1

-- The delivery is held, once, and `duplicate` tells whether it was there.
pub record IsHeld (id : Text) (before : List Event) (duplicate : Bool) (after : List Event)
    : Type 0 where
  pub once : count (has_event id) after ≡ 1
  pub told : any (has_event id) before ≡ duplicate
  pub deduplicated : Deduplicated after

count_append :
    (p : Event → Bool) (xs : List Event) (y : Event)
    → count p (xs ++ y ∷ []) ≡ (if p y then count p xs + 1 else count p xs)
count_append p [] y = ground arith
count_append p (x ∷ xs) y = ground (arith, count_append p xs y)

held_once :
    (id : Text) (events : List Event)
    → Deduplicated events
    → any (has_event id) events ≡ true
    → count (has_event id) events ≡ 1
held_once id events few h =
    let (e, found) = find_of_any (has_event id) events h in
    let some_held =
      count_pos (has_event id) (has_event id) events e found
        (find_sound (has_event id) events e found) in
    let most = few id in omega arith

one_more :
    (e : Event) (id : Text) (events : List Event)
    → count (has_event id) events ≤ 1
    → count (has_event e.fp_event_id) events ≡ 0
    → count (has_event id) (events ++ e ∷ []) ≤ 1
one_more e id events most absent = elim (Bool-cases (text_eq e.fp_event_id id)) [
  | inl own ↦
      let here : count (has_event id) events ≡ 0 =
        subst (λ i. count (has_event i) events ≡ 0) ((text_eq_iff e.fp_event_id id).0 own) absent in
      rw (count_append (has_event id) events e, own) (omega arith)
  | inr apart ↦ rw (count_append (has_event id) events e, apart) most
]

record_event-IsHeld :
    (e : Event) (events : List Event)
    → Deduplicated events
    → IsHeld e.fp_event_id events (record_event e events).1 (record_event e events).0
unfolding record_event
record_event-IsHeld e events few = elim (Bool-cases (any (has_event e.fp_event_id) events)) [
  | inl held ↦
      rw (held, record_event)
        (record { once = held_once e.fp_event_id events few held; told = held; deduplicated = few })
  | inr new ↦
      let own : text_eq e.fp_event_id e.fp_event_id ≡ true =
        (text_eq_iff e.fp_event_id e.fp_event_id).1 refl in
      let none_yet = any-eq_false (has_event e.fp_event_id) events new in
      rw (new, record_event)
        (record {
          once = rw (count_append (has_event e.fp_event_id) events e, own) (omega arith);
          told = new;
          deduplicated = λ id. let most = few id in one_more e id events most none_yet;
        })
]

-- What a delivery that is answered without an error leaves.
pub record IsReceived (id : Text) (after : List Event) : Type 0 where
  pub valid : is_event_id id ≡ true
  pub once : count (has_event id) after ≡ 1
  pub deduplicated : Deduplicated after

answered-IsReceived :
    (id : Text) (reply : Fetched) (events : List Event) (duplicate : Bool)
    → is_event_id id ≡ true
    → Deduplicated events
    → (answered id reply events).1 ≡ ok duplicate
    → IsReceived id (answered id reply events).0
answered-IsReceived id unreachable events duplicate valid few e = absurd (cc)
answered-IsReceived id (event fetched none object) events duplicate valid few e = absurd (cc)
answered-IsReceived id (event fetched (some kind) object) events duplicate valid few e =
    elim (Bool-cases (text_eq fetched id)) [
      | inl same ↦
          let held = record_event-IsHeld (fresh_event id kind object) events few in
          let once = held.once in
          let few' = held.deduplicated in
          rw same (record { valid = valid; once = once; deduplicated = few' })
      | inr other_id ↦ absurd (let bad = rw other_id at e in cc)
    ]

-- A delivery that `receive` answers without an error bears a well-formed identifier, and leaves its
-- event in the inbox exactly once: also when it was delivered before, and when another delivery of it
-- comes in while FP is asked. The inbox had no event twice, and what others do to it meanwhile
-- (`between`) puts none in twice.
pub receive-IsReceived :
    (fp : Text → Fetched) (between : List Event → List Event) (id : Text) (events : List Event)
    (duplicate : Bool)
    → Deduplicated events
    → ((es : List Event) → Deduplicated es → Deduplicated (between es))
    → (receive fp between (some id) events).1 ≡ ok duplicate
    → IsReceived id (receive fp between (some id) events).0
unfolding receive
receive-IsReceived fp between id events duplicate few keeps e = elim (Bool-cases (is_event_id id)) [
  | inr malformed ↦ absurd (let bad = rw (malformed, receive) at e in cc)
  | inl valid ↦ elim (Bool-cases (any (has_event id) events)) [
    | inl held ↦
        rw (valid, held, receive)
          (record { valid = valid; once = held_once id events few held; deduplicated = few })
    | inr new ↦
        rw (valid, new, receive)
          (answered-IsReceived id (fp id) (between events) duplicate valid (keeps events few)
            (rw (valid, new, receive) at e))
  ]
]
