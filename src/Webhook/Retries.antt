-- ===== src/Webhook/Retries.antt =====
-- Retries of the webhook inbox: five attempts at most, and every event leaves the queue.
use backend_new.Basics.{
  ℕ, zero, suc, ◌+◌, ◌-◌, ◌≡◌, ◌≤◌, ◌<◌, refl, Bool, true, false, Option, none, some, List, [], ◌∷◌,
  All, count, Bool-cases, inl, inr, arith, if◌then◌else◌, subst, sym, length, ltb, ◌*◌,
}
use backend_new.Webhook.Inbox.{
  Event, pending, failed, is_due, attempt, run, clamp, process_pending, max_processing_attempts,
  webhook_backlog,
}

-- How often the event may still be tried.
unfoldable pub left : Event → ℕ
left e = if is_due e then max_processing_attempts - e.attempts else 0

unfoldable pub total_left : List Event → ℕ
total_left [] = 0
total_left (e ∷ es) = left e + total_left es

attempt-left : (o : Option Bool) (e : Event) → is_due e ≡ true → left (attempt o e) < left e
unfolding attempt left
attempt-left (some true) e due = ground arith
attempt-left (some false) e due = ground arith
attempt-left none e due = ground arith

run-due :
    (outcome : Event → Option Bool) (budget : ℕ) (e : Event) (es : List Event)
    → is_due e ≡ true
    → run outcome (suc budget) (e ∷ es) ≡ attempt (outcome e) e ∷ run outcome budget es
unfolding run
run-due outcome budget e es due = rw due

run-idle :
    (outcome : Event → Option Bool) (budget : ℕ) (e : Event) (es : List Event)
    → is_due e ≡ false
    → run outcome (suc budget) (e ∷ es) ≡ e ∷ run outcome (suc budget) es
unfolding run
run-idle outcome budget e es idle = rw idle

run-total_left :
    (outcome : Event → Option Bool) (budget : ℕ) (es : List Event)
    → total_left (run outcome budget es) ≤ total_left es
unfolding run total_left
run-total_left outcome budget [] = omega arith
run-total_left outcome zero (e ∷ es) = omega arith
run-total_left outcome (suc budget) (e ∷ es) = elim (Bool-cases (is_due e)) [
  | inl due ↦
      let one = attempt-left (outcome e) e due in
      let rest = run-total_left outcome budget es in
      subst (λ l. total_left l ≤ total_left (e ∷ es)) (sym (run-due outcome budget e es due))
        (omega arith)
  | inr idle ↦
      let rest = run-total_left outcome (suc budget) es in
      subst (λ l. total_left l ≤ total_left (e ∷ es)) (sym (run-idle outcome budget e es idle))
        (omega arith)
]

-- A run with room for one event uses up an attempt, while an event is due.
run-progress :
    (outcome : Event → Option Bool) (budget : ℕ) (es : List Event)
    → 1 ≤ count is_due es
    → total_left (run outcome (suc budget) es) < total_left es
unfolding run total_left
run-progress outcome budget [] some_due = absurd (omega arith)
run-progress outcome budget (e ∷ es) some_due = elim (Bool-cases (is_due e)) [
  | inl due ↦
      let one = attempt-left (outcome e) e due in
      let rest = run-total_left outcome budget es in
      subst (λ l. total_left l < total_left (e ∷ es)) (sym (run-due outcome budget e es due))
        (omega arith)
  | inr idle ↦
      let rest = run-progress outcome budget es (rw (idle) at some_due) in
      subst (λ l. total_left l < total_left (e ∷ es)) (sym (run-idle outcome budget e es idle))
        (omega arith)
]

idle_of_total_left : (es : List Event) → total_left es ≡ 0 → count is_due es ≡ 0
unfolding total_left left
idle_of_total_left [] h = refl
idle_of_total_left (e ∷ es) h = grind (arith, idle_of_total_left es)

idle-total_left : (es : List Event) → count is_due es ≡ 0 → total_left es ≡ 0
unfolding total_left left
idle-total_left [] h = refl
idle-total_left (e ∷ es) h = grind (arith, idle-total_left es)

total_left-bound : (es : List Event) → total_left es ≤ 5 * length es
unfolding total_left left
total_left-bound [] = omega arith
total_left-bound (e ∷ es) = grind (arith, total_left-bound es)

-- `n` runs; what the handlers answer may differ from run to run.
unfoldable pub runs : (ℕ → Event → Option Bool) → ℕ → ℕ → List Event → List Event
runs outcome limit zero es = es
runs outcome limit (suc n) es = runs outcome limit n (process_pending (outcome n) limit es)

stays_idle :
    (outcome : Event → Option Bool) (limit : ℕ) (es : List Event)
    → total_left es ≡ 0
    → total_left (process_pending outcome limit es) ≡ 0
unfolding process_pending
stays_idle outcome limit es h = let rest = run-total_left outcome (clamp limit) es in omega arith

clamp_pos : (limit : ℕ) → (b : ℕ) × (clamp limit ≡ suc b)
clamp_pos limit = (clamp limit - 1, ground arith)

one_less :
    (outcome : Event → Option Bool) (limit n : ℕ) (es : List Event)
    → total_left es ≤ suc n
    → total_left (process_pending outcome limit es) ≤ n
unfolding process_pending
one_less outcome limit n es h = elim (Bool-cases (ltb 0 (count is_due es))) [
  | inl busy ↦
      let (b, is) = clamp_pos limit in
      let less = run-progress outcome b es (ground arith) in
      subst (λ m. total_left (run outcome m es) ≤ n) (sym is) (omega arith)
  | inr idle ↦
      let none_left = idle-total_left es (ground arith) in
      let rest = run-total_left outcome (clamp limit) es in omega arith
]

runs-total_left :
    (outcome : ℕ → Event → Option Bool) (limit n : ℕ) (es : List Event)
    → total_left es ≤ n
    → total_left (runs outcome limit n es) ≡ 0
unfolding runs
runs-total_left outcome limit zero es h = omega arith
runs-total_left outcome limit (suc n) es h =
    runs-total_left outcome limit n (process_pending (outcome n) limit es)
      (one_less (outcome n) limit n es h)

-- An event was tried at most five times; while it waits, fewer, and when it was given up, five.
pub record IsTried (e : Event) : Type 0 where
  pub at_most : e.attempts ≤ 5
  pub waits : e.status ≡ pending → e.attempts < 5
  pub gave_up : e.status ≡ failed → e.attempts ≡ 5

attempt-IsTried :
    (o : Option Bool) (e : Event) → is_due e ≡ true → IsTried e → IsTried (attempt o e)
unfolding attempt
attempt-IsTried (some true) e due t =
    let at_most = t.at_most in
    record { at_most = ground arith; waits = λ h. absurd (cc); gave_up = λ h. absurd (cc) }
attempt-IsTried (some false) e due t =
    let at_most = t.at_most in
    record { at_most = ground arith; waits = λ h. absurd (cc); gave_up = λ h. absurd (cc) }
attempt-IsTried none e due t =
    let at_most = t.at_most in
    record { at_most = ground arith; waits = λ h. ground arith; gave_up = λ h. ground arith }

pub run-IsTried :
    (outcome : Event → Option Bool) (budget : ℕ) (es : List Event)
    → All IsTried es
    → All IsTried (run outcome budget es)
unfolding run
run-IsTried outcome budget [] h = tt
run-IsTried outcome zero (e ∷ es) h = h
run-IsTried outcome (suc budget) (e ∷ es) h = elim (Bool-cases (is_due e)) [
  | inl due ↦
      subst (All IsTried) (sym (run-due outcome budget e es due))
        (attempt-IsTried (outcome e) e due h.0, run-IsTried outcome budget es h.1)
  | inr idle ↦
      subst (All IsTried) (sym (run-idle outcome budget e es idle))
        (h.0, run-IsTried outcome (suc budget) es h.1)
]

runs-IsTried :
    (outcome : ℕ → Event → Option Bool) (limit n : ℕ) (es : List Event)
    → All IsTried es
    → All IsTried (runs outcome limit n es)
unfolding runs process_pending
runs-IsTried outcome limit zero es h = h
runs-IsTried outcome limit (suc n) es h =
    runs-IsTried outcome limit n (process_pending (outcome n) limit es)
      (run-IsTried (outcome n) (clamp limit) es h)

none_waiting : (es : List Event) → All IsTried es → count is_due es ≡ 0 → (webhook_backlog es).0 ≡ 0
unfolding webhook_backlog
none_waiting [] h d = refl
none_waiting (e ∷ es) (t, h) d = let waits = t.waits in grind (arith, none_waiting es h)

-- However the handlers answer, run by run, after five runs for each event of the inbox (no others
-- arriving), of any limit, no event is pending: each was processed, ignored, or given up after
-- exactly five attempts. The inbox is one in which no event was tried more than five times, none
-- that waits was tried five times, and each that was given up was.
pub runs-drain :
    (outcome : ℕ → Event → Option Bool) (limit n : ℕ) (es : List Event)
    → All IsTried es
    → 5 * length es ≤ n
    → ((webhook_backlog (runs outcome limit n es)).0 ≡ 0) × All IsTried (runs outcome limit n es)
runs-drain outcome limit n es h enough =
    let tried = runs-IsTried outcome limit n es h in
    let most = total_left-bound es in
    let drained = runs-total_left outcome limit n es (omega arith) in
    (
      none_waiting (runs outcome limit n es) tried
          (idle_of_total_left (runs outcome limit n es) drained),
      tried,
    )
