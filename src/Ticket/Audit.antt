-- ===== src/Ticket/Audit.antt =====
-- The history of a ticket: each event names the value that it replaces.
use backend_new.Basics.{
  ℕ, ◌≡◌, refl, sym, ap, ◌∙◌, Bool, true, false, Option, none, some, List, [], ◌∷◌, ◌++◌, arith,
  Bool-cases, inl, inr, Option-cases, ==_refl, same_option, is_none, if◌then◌else◌,
}
use mathlib.Core.List.{append_assoc, append-nil}
use mathlib.Core.Option.{some-injective, none-ne-some}
use backend_new.Ticket.Row.{
  Status, Priority, Category, Change, created, assigned, Event, Ticket, Message, same_status,
  same_priority, same_category, add_event, add_message, status_stamps, status_code,
}
use backend_new.Ticket.Desk.{
  Directory, move_status, move_priority, move_category, move_owner, claim, mark_public,
}
use backend_new.Ticket.Investor.{reopens, reopen, mark_waiting, mark_read}
use backend_new.Ticket.Steps.{Rewritten}

pub record Facts : Type 0 where
  pub status : Status
  pub priority : Priority
  pub category : Category

abbrev pub facts : Ticket → Facts
facts t = record { status = t.status; priority = t.priority; category = t.category }

-- One event read forwards; it is refused where it does not start from the value at hand.
abbrev pub replay_event : Facts → Change → Option Facts
replay_event f (Change.status a b) =
    if same_status a f.status then some (record f { status = b }) else none
replay_event f (Change.priority a b) =
    if same_priority a f.priority then some (record f { priority = b }) else none
replay_event f (Change.category a b) =
    if same_category a f.category then some (record f { category = b }) else none
replay_event f (created channel) = some f
replay_event f (assigned a b) = some f

abbrev pub replay : Facts → List Event → Option Facts
replay f [] = some f
replay f (e ∷ es) = elim (replay_event f e.change) [ none ↦ none | some g ↦ replay g es ]

replay-append :
    (f g h : Facts) (es : List Event) (e : Event)
    → replay f es ≡ some g
    → replay_event g e.change ≡ some h
    → replay f (es ++ e ∷ []) ≡ some h
replay-append f g h [] e p q = rw (some-injective f g p) (rw (q, replay))
replay-append f g h (x ∷ es) e p q = elim (Option-cases (replay_event f x.change)) [
  | inl stuck ↦ absurd (none-ne-some g (rw (stuck, replay) at p))
  | inr (k, next) ↦ rw (next, replay) (replay-append k g h es e (rw (next, replay) at p) q)
]

-- A ticket that went on from `t`: its events are those of `t` and some more, which lead from the
-- status, priority and category of `t` to its own.
pub record Grew (t u : Ticket) : Type 0 where
  pub same : u.id ≡ t.id
  pub more : List Event
  pub added : u.events ≡ t.events ++ more
  pub led : replay (facts t) more ≡ some (facts u)

pub Grew-refl : (t : Ticket) → Grew t t
Grew-refl t = record { same = refl; more = []; added = sym (append-nil t.events); led = refl }

module _ (o t u : Ticket) (a : Grew o t) (id : u.id ≡ t.id) (same : u.events ≡ t.events) where
  -- A write that touches neither the history nor the three values.
  keep-Grew : facts u ≡ facts t → Grew o u
  keep-Grew e = record {
    same = id ∙ a.same;
    more = a.more;
    added = same ∙ a.added;
    led = rw e a.led;
  }

  -- A write with its event.
  add_event-Grew :
      (who : Option ℕ) (c : Change)
      → replay_event (facts t) c ≡ some (facts u)
      → Grew o (add_event who c u)
  unfolding add_event
  add_event-Grew who c e =
      let what : Event = record { actor_staff = who; change = c } in
      record {
        same = id ∙ a.same;
        more = a.more ++ what ∷ [];
        added =
            ap (λ es. es ++ what ∷ []) (same ∙ a.added) ∙ append_assoc o.events a.more (what ∷ []);
        led = replay-append (facts o) (facts t) (facts u) a.more what a.led e;
      }

status_stamps-facts :
    (s : Status) (now : ℕ) (t : Ticket)
    → ((status_stamps s now t).id ≡ t.id)
      × (facts (status_stamps s now t)
          ≡ record { status = s; priority = t.priority; category = t.category })
      × ((status_stamps s now t).events ≡ t.events)
unfolding status_stamps
status_stamps-facts s now t = ground arith

module _ (who : Option ℕ) (o t : Ticket) (a : Grew o t) where
  move_status-Grew : (s : Option Status) (now : ℕ) → Grew o (move_status s now who t)
  unfolding move_status
  move_status-Grew none now = a
  move_status-Grew (some s) now = elim (Bool-cases (same_status s t.status)) [
    | inl same ↦ rw same a
    | inr differs ↦
        let (key, values, events) = status_stamps-facts s now t in
        rw differs (
          add_event-Grew o t (status_stamps s now t) a key events who _
            (rw (values, ==_refl (status_code t.status))))
  ]

  move_priority-Grew : (p : Option Priority) → Grew o (move_priority p who t)
  unfolding move_priority
  move_priority-Grew none = a
  move_priority-Grew (some p) = elim (Bool-cases (same_priority p t.priority)) [
    | inl same ↦ rw same a
    | inr differs ↦ rw differs (add_event-Grew o t _ a refl refl who _ (rw (==_refl _)))
  ]

  move_category-Grew : (k : Option Category) → Grew o (move_category k who t)
  unfolding move_category
  move_category-Grew none = a
  move_category-Grew (some k) = elim (Bool-cases (same_category k t.category)) [
    | inl same ↦ rw same a
    | inr differs ↦ rw differs (add_event-Grew o t _ a refl refl who _ (rw (==_refl _)))
  ]

  move_owner-Grew :
      (dir : Directory) (next : Option (Option ℕ)) → Grew o (move_owner dir next who t)
  unfolding move_owner
  move_owner-Grew dir none = a
  move_owner-Grew dir (some next) = elim (Bool-cases (same_option next t.assigned_staff)) [
    | inl same ↦ rw same a
    | inr differs ↦ rw differs (add_event-Grew o t _ a refl refl who _ refl)
  ]

module _ (o t : Ticket) (a : Grew o t) where
  claim-Grew : (dir : Directory) (viewer : ℕ) → Grew o (claim dir viewer t)
  unfolding claim
  claim-Grew dir viewer = elim (Bool-cases (is_none t.assigned_staff)) [
    | inl free ↦ rw free (add_event-Grew o t _ a refl refl (some viewer) _ refl)
    | inr owned ↦ rw owned a
  ]

  mark_public-Grew : (internal : Bool) (now : ℕ) → Grew o (mark_public internal now t)
  unfolding mark_public
  mark_public-Grew true now = a
  mark_public-Grew false now = keep-Grew o t _ a refl refl refl

  add_message-Grew : (m : Message) → Grew o (add_message m t)
  unfolding add_message
  add_message-Grew m = keep-Grew o t _ a refl refl refl

  mark_waiting-Grew : (now : ℕ) → Grew o (mark_waiting now t)
  unfolding mark_waiting
  mark_waiting-Grew now = keep-Grew o t _ a refl refl refl

  reopen-Grew : (now : ℕ) → Grew o (reopen now t)
  unfolding reopen status_stamps
  reopen-Grew now = elim (Bool-cases (reopens t.status)) [
    | inl again ↦ rw again (add_event-Grew o t _ a refl refl none _ (rw (==_refl _)))
    | inr on ↦ rw on a
  ]

pub Grew-Rewritten : (dir : Directory) (o : Ticket) → Rewritten dir (Grew o)
unfolding mark_read
Grew-Rewritten dir o = record {
  status = λ s now who t a. move_status-Grew who o t a s now;
  priority = λ p who t a. move_priority-Grew who o t a p;
  category = λ k who t a. move_category-Grew who o t a k;
  owner = λ next who t a. move_owner-Grew who o t a dir next;
  claimed = λ viewer t a. claim-Grew o t a dir viewer;
  public = λ internal now t a. mark_public-Grew o t a internal now;
  message = λ m t a. add_message-Grew o t a m;
  waiting = λ now t a. mark_waiting-Grew o t a now;
  reopened = λ now t a. reopen-Grew o t a now;
  read = λ t a. keep-Grew o t _ a refl refl refl;
}
