-- ===== src/Webhook/Tests.antt =====
-- The inbox at concrete inputs.
use backend_new.Basics.{
  ℕ, ◌≡◌, refl, Bool, true, false, Option, none, some, List, [], ◌∷◌, All, Text, ok, arith, text_eq,
}
use backend_new.Webhook.Inbox.{
  Event, mandate, kyc_request, Fetched, event, fresh_event, is_event_id, record_event, receive, run,
  attempt, process_pending, apply_event, throws, webhook_backlog,
}
use backend_new.Webhook.Retries.{IsTried, runs, runs-drain}
use backend_new.Webhook.Delivery.{IsReceived, receive-IsReceived}

-- "evt_" and sixteen letters.
abbrev evt : Text
evt =
    101 ∷ 118 ∷ 116 ∷ 95 ∷ 97 ∷ 97 ∷ 97 ∷ 97 ∷ 97 ∷ 97 ∷ 97 ∷ 97 ∷ 97 ∷ 97 ∷ 97 ∷ 97 ∷ 97 ∷ 97 ∷ 97
    ∷ 97 ∷ []

abbrev fp : Text → Fetched
fp id = event id (some mandate) (some (49 ∷ []))

received : (receive fp (λ es. es) (some evt) []).1 ≡ ok false
unfolding receive is_event_id record_event text_eq
received = refl

receive-IsReceived_example : IsReceived evt (receive fp (λ es. es) (some evt) []).0
receive-IsReceived_example =
    receive-IsReceived fp (λ es. es) evt [] false (λ id. omega arith) (λ es few. few) received

abbrev waiting : List Event
waiting = fresh_event evt mandate (some (49 ∷ [])) ∷ fresh_event evt kyc_request none ∷ []

-- The first handler fails for ever; the second event has no object.
abbrev outcomes : ℕ → Event → Option Bool
outcomes n e = apply_event (λ _. true) (λ _ _. throws) e.object_type e.object_id

waiting-IsTried : All IsTried waiting
waiting-IsTried = (
  record { at_most = omega arith; waits = λ _. omega arith; gave_up = λ h. absurd (cc) },
  (record { at_most = omega arith; waits = λ _. omega arith; gave_up = λ h. absurd (cc) }, tt),
)

runs-drain_example :
    ((webhook_backlog (runs outcomes 50 10 waiting)).0 ≡ 0)
    × All IsTried (runs outcomes 50 10 waiting)
runs-drain_example = runs-drain outcomes 50 10 waiting waiting-IsTried (omega arith)

given_up : webhook_backlog (runs outcomes 50 5 waiting) ≡ (0, 1)
unfolding webhook_backlog runs process_pending run attempt apply_event
given_up = refl
