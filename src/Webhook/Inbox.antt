-- ===== src/Webhook/Inbox.antt =====
-- The inbox of events: `receive`, `applyEvent` and `processPending` of
-- src/services/fp-webhook.service.ts. Rows stand in the order in which they were received.
use backend_new.Basics.{
  ℕ, zero, suc, ◌+◌, Bool, true, false, not, ◌&&◌, ◌||◌, Option, none, some, List, [], ◌∷◌, ◌++◌,
  ltb, leb, ◌==◌, Text, text_eq, length, every, any, count, if◌then◌else◌, Result, ok, err,
}

-- `splitEventType`: what the event is about.
pub data ObjectType : Type 0 where
  mf_purchase mf_redemption mf_switch mf_purchase_plan mf_redemption_plan mf_switch_plan mandate
        payment kyc_request other :
      ObjectType

pub data Status : Type 0 where
  pending processed ignored failed : Status

pub record Event : Type 0 where
  pub fp_event_id : Text
  pub object_type : ObjectType
  pub object_id : Option Text
  pub status : Status
  pub attempts : ℕ

pub data Refusal : Type 0 where
  bad_identifier fp_failed invalid_response : Refusal

-- FP's answer for an event: its own id, its type unless that is no text, and its object.
pub data Fetched : Type 0 where
  event : (id : Text) (object_type : Option ObjectType) (object_id : Option Text) → Fetched
  unreachable : Fetched

abbrev is_id_char : ℕ → Bool
is_id_char c =
    (leb 65 c && leb c 90)
    || (leb 97 c && leb c 122)
    || (leb 48 c && leb c 57)
    || (c == 95)
    || (c == 45)

-- `/^evt_[A-Za-z0-9_-]{16,64}$/`
unfoldable pub is_event_id : Text → Bool
is_event_id (c1 ∷ c2 ∷ c3 ∷ c4 ∷ rest) =
    ((c1 == 101) && (c2 == 118) && (c3 == 116) && (c4 == 95))
    && (leb 16 (length rest) && leb (length rest) 64 && every is_id_char rest)
is_event_id _ = false

abbrev pub has_event : Text → Event → Bool
has_event id e = text_eq e.fp_event_id id

abbrev pub fresh_event : Text → ObjectType → Option Text → Event
fresh_event id object_type object_id = record {
  fp_event_id = id;
  object_type = object_type;
  object_id = object_id;
  status = pending;
  attempts = 0;
}

-- `createMany` with `skipDuplicates`; true when the row was there.
unfoldable pub record_event : Event → List Event → List Event × Bool
record_event e events =
    if any (has_event e.fp_event_id) events then (events, true) else (events ++ e ∷ [], false)

abbrev pub answered : Text → Fetched → List Event → List Event × Result Refusal Bool
answered id unreachable events = (events, err fp_failed)
answered id (event fetched_id none object_id) events = (events, err invalid_response)
answered id (event fetched_id (some object_type) object_id) events =
    if not (text_eq fetched_id id)
    then (events, err invalid_response)
    else let (events', duplicate) = record_event (fresh_event id object_type object_id) events in
      (events', ok duplicate)

-- `between` is what other deliveries and runs do to the inbox while FP is asked.
unfoldable pub receive :
    (Text → Fetched)
    → (List Event → List Event)
    → Option Text
    → List Event
    → List Event × Result Refusal Bool
receive fp between none events = (events, err bad_identifier)
receive fp between (some id) events =
    if not (is_event_id id)
    then (events, err bad_identifier)
    else if any (has_event id) events
    then (events, ok true)
    else answered id (fp id) (between events)

-- What a handler's calls come to: they throw, the account is unknown here, or the mirror was synced.
pub data Handled : Type 0 where
  throws unknown synced : Handled

-- The gateway's ids of mandates and payments are integers.
abbrev pub is_numbered : ObjectType → Bool
is_numbered mandate = true
is_numbered payment = true
is_numbered _ = false

abbrev pub is_other : ObjectType → Bool
is_other other = true
is_other _ = false

-- `applyEvent`: none when it throws, else whether the event was acted on.
unfoldable pub apply_event :
    (Text → Bool) → (ObjectType → Text → Handled) → ObjectType → Option Text → Option Bool
apply_event is_integer handle object_type none = some false
apply_event is_integer handle object_type (some []) = some false
apply_event is_integer handle object_type (some (c ∷ cs)) =
    if is_other object_type || (is_numbered object_type && not (is_integer (c ∷ cs)))
    then some false
    else elim (handle object_type (c ∷ cs)) [
      | throws ↦ none
      | unknown ↦ some false
      | synced ↦ some true
    ]

abbrev pub max_processing_attempts : ℕ
max_processing_attempts = 5

abbrev pub is_pending : Status → Bool
is_pending pending = true
is_pending _ = false

abbrev pub is_due : Event → Bool
is_due e = is_pending e.status && ltb e.attempts max_processing_attempts

-- One event of a run.
unfoldable pub attempt : Option Bool → Event → Event
attempt (some true) e = record e { status = processed; attempts = e.attempts + 1 }
attempt (some false) e = record e { status = ignored; attempts = e.attempts + 1 }
attempt none e = record e {
  attempts = e.attempts + 1;
  status = if leb max_processing_attempts (e.attempts + 1) then failed else e.status;
}

-- The oldest events that are due, at most `budget` of them.
unfoldable pub run : (Event → Option Bool) → ℕ → List Event → List Event
run outcome budget [] = []
run outcome zero (e ∷ es) = e ∷ es
run outcome (suc budget) (e ∷ es) =
    let now = run outcome budget es in
    let later = run outcome (suc budget) es in
    if is_due e then attempt (outcome e) e ∷ now else e ∷ later

abbrev pub clamp : ℕ → ℕ
clamp limit = if ltb limit 1 then 1 else if ltb 200 limit then 200 else limit

unfoldable pub process_pending : (Event → Option Bool) → ℕ → List Event → List Event
process_pending outcome limit events = run outcome (clamp limit) events

-- The backlog for operators.
unfoldable pub webhook_backlog : List Event → ℕ × ℕ
webhook_backlog events =
    (count (λ e. is_pending e.status) events, count (λ e. is_failed e.status) events)
  where
    is_failed : Status → Bool
    is_failed failed = true
    is_failed _ = false
