-- ===== src/Announcement/Approved.antt =====
-- Nothing goes out that a second person has not approved.
use backend_new.Basics.{
  ℕ, ◌≡◌, ◌≢◌, refl, sym, subst, inl, inr, Bool, true, false, not, ◌&&◌, Option, none, some, Text,
  if◌then◌else◌, Result, ok, err, throw_if, throw_if-eq_ok, step-ok, Bool-cases, arith, ==_iff,
  ◌==◌, leb,
}
use backend_new.Announcement.Row.{
  Status, draft, pending_approval, rejected, scheduled, live, completed, cancelled, Content,
  Announcement, Refusal, Transition, submit, approve, reject, cancel, end, is_editable, is_awaiting,
  is_scheduled, is_live, assert_complete, create_announcement, update_announcement, transition,
  then_write, may_check, submitted, approved, turned_down, ended, dispatch, sent, retire,
  banner_runs, in_quiet_hours, not_awaiting, is_promotional, ends_by,
}

-- Approved, whether it is out or not.
abbrev pub passed : Status → Bool
passed scheduled = true
passed live = true
passed completed = true
passed _ = false

-- Waiting for a checker, or for its time.
abbrev pub in_hand : Status → Bool
in_hand pending_approval = true
in_hand scheduled = true
in_hand _ = false

-- What goes out was approved by someone else than its composer, and was complete.
pub record IsChecked (a : Announcement) : Type 0 where
  pub second :
      passed a.status ≡ true
      → (checker : ℕ) × (a.approved_by ≡ some checker) × (checker ≢ a.created_by)
  pub complete : in_hand a.status ≡ true → assert_complete a.content ≡ ok tt

-- One thing that is done to a row; a call that is refused does nothing to it.
pub data Step (a : Announcement) : Announcement → Type 0 where
  edit :
      (content : Content) (viewer : ℕ) {b : Announcement}
      → update_announcement content viewer a ≡ ok b
      → Step a b
  move :
      (action : Transition) (now viewer : ℕ) (reason : Option Text) {b : Announcement}
      → transition action now viewer reason a ≡ ok b
      → Step a b
  run : (now : ℕ) → Step a (dispatch now a)

pub data Reach (content : Content) (composer : ℕ) : Announcement → Type 0 where
  composed : Reach content composer (create_announcement content composer)
  then_step : {a b : Announcement} → Reach content composer a → Step a b → Reach content composer b

written :
    (m : Result Refusal (Unit {0})) (a b : Announcement)
    → then_write m a ≡ ok b
    → (m ≡ ok tt) × (b ≡ a)
written (ok u) a b e = (refl, let same : a ≡ b = cc in sym same)
written (err x) a b e = absurd (cc)

live_passed : (s : Status) → is_live s ≡ true → passed s ≡ true
live_passed live e = refl
live_passed draft e = absurd (cc)
live_passed pending_approval e = absurd (cc)
live_passed rejected e = absurd (cc)
live_passed scheduled e = absurd (cc)
live_passed completed e = absurd (cc)
live_passed cancelled e = absurd (cc)

scheduled_passed : (s : Status) → is_scheduled s ≡ true → passed s ≡ true
scheduled_passed scheduled e = refl
scheduled_passed draft e = absurd (cc)
scheduled_passed pending_approval e = absurd (cc)
scheduled_passed rejected e = absurd (cc)
scheduled_passed live e = absurd (cc)
scheduled_passed completed e = absurd (cc)
scheduled_passed cancelled e = absurd (cc)

edited :
    (content : Content) (viewer : ℕ) (a b : Announcement)
    → update_announcement content viewer a ≡ ok b
    → IsChecked b
unfolding update_announcement
edited content viewer a b e = elim (Bool-cases (a.created_by == viewer)) [
  | inr other ↦ absurd (let bad = rw (other, update_announcement) at e in cc)
  | inl mine ↦ elim (Bool-cases (is_editable a.status)) [
    | inr fixed ↦ absurd (let bad = rw (mine, update_announcement, fixed) at e in cc)
    | inl open_still ↦
        let made = rw (mine, update_announcement, open_still) at e in
        let same : record a { content = content; status = draft; rejection_reason = none } ≡ b =
          cc in
        subst IsChecked same (record { second = λ h. absurd (cc); complete = λ h. absurd (cc) })
  ]
]

moved :
    (action : Transition) (now viewer : ℕ) (reason : Option Text) (a b : Announcement)
    → transition action now viewer reason a ≡ ok b
    → IsChecked a
    → IsChecked b
unfolding transition
moved submit now viewer reason a b e h =
    let (guards, is) = written _ (submitted now a) b e in
    let (rest, complete) = step-ok _ (assert_complete a.content) guards in
    subst IsChecked (sym is) (record { second = λ p. absurd (cc); complete = λ p. complete })
moved approve now viewer reason a b e h =
    let (guards, is) = written (may_check viewer a) (approved now viewer a) b e in
    let (other, waiting) = step-ok _ (throw_if (not (is_awaiting a.status)) not_awaiting) guards in
    let apart = throw_if-eq_ok _ _ other in
    let awaiting = throw_if-eq_ok _ not_awaiting waiting in
    subst IsChecked (sym is) (record {
      second = λ p. (viewer, refl, λ same. differ a.created_by viewer apart (sym same));
      complete = λ p. h.complete (held a.status awaiting);
    })
  where
    differ : (x y : ℕ) → (x == y) ≡ false → x ≢ y
    differ x y e same = let hit = (==_iff x y).1 same in absurd (cc)

    held : (s : Status) → not (is_awaiting s) ≡ false → in_hand s ≡ true
    held pending_approval e = refl
    held draft e = absurd (cc)
    held rejected e = absurd (cc)
    held scheduled e = absurd (cc)
    held live e = absurd (cc)
    held completed e = absurd (cc)
    held cancelled e = absurd (cc)
moved reject now viewer reason a b e h =
    let (guards, is) = written (may_check viewer a) (turned_down reason a) b e in
    subst IsChecked (sym is) (record { second = λ p. absurd (cc); complete = λ p. absurd (cc) })
moved cancel now viewer reason a b e h =
    let (guards, is) = written _ (record a { status = cancelled; cancelled_at = some now }) b e in
    subst IsChecked (sym is) (record { second = λ p. absurd (cc); complete = λ p. absurd (cc) })
moved end now viewer reason a b e h =
    let (guards, is) = written _ (ended now a) b e in
    let out = throw_if-eq_ok _ _ guards in
    subst IsChecked (sym is) (record {
      second = λ p. h.second (live_passed a.status (twice (is_live a.status) out));
      complete = λ p. absurd (cc);
    })
  where
    twice : (b : Bool) → not b ≡ false → b ≡ true
    twice b e = ground arith

sent-IsChecked :
    (now : ℕ) (a : Announcement)
    → is_scheduled a.status ≡ true
    → IsChecked a
    → IsChecked (sent now a)
sent-IsChecked now a due h =
    elim (Bool-cases
      (is_promotional a.content.category && (a.content.send_notification && in_quiet_hours now))) [
        | inl held_back ↦ rw held_back h
        | inr clear ↦ elim (Bool-cases (banner_runs now a.content)) [
          | inl runs ↦
              rw (clear, runs)
                (record {
                  second = λ p. h.second (scheduled_passed a.status due);
                  complete = λ p. absurd (cc);
                })
          | inr over ↦
              rw (clear, over)
                (record {
                  second = λ p. h.second (scheduled_passed a.status due);
                  complete = λ p. absurd (cc);
                })
        ]
      ]

retire-IsChecked : (now : ℕ) (a : Announcement) → IsChecked a → IsChecked (retire now a)
retire-IsChecked now a h = elim (Bool-cases (is_live a.status && ends_by a.content.ends_at now)) [
  | inr stays ↦ rw stays h
  | inl over ↦ rw over (record {
    second = λ p. h.second (live_passed a.status (first (is_live a.status) _ over));
    complete = λ p. absurd (cc);
  })
]
  where
    first : (x y : Bool) → (x && y) ≡ true → x ≡ true
    first x y e = ground arith

dispatch-IsChecked : (now : ℕ) (a : Announcement) → IsChecked a → IsChecked (dispatch now a)
unfolding dispatch
dispatch-IsChecked now a h =
    retire-IsChecked now
      (if is_scheduled a.status && leb a.content.starts_at now then sent now a else a)
      (due (is_scheduled a.status) (leb a.content.starts_at now) refl)
  where
    due : (x y : Bool) → is_scheduled a.status ≡ x → IsChecked (if x && y then sent now a else a)
    due true true e = sent-IsChecked now a e h
    due true false e = h
    due false y e = h

-- However it is edited, moved and sent, from the moment that it is composed: an announcement that is
-- scheduled, live or completed was approved by someone other than its composer, and one that waits for
-- a checker or for its time is complete.
pub Reach-IsChecked :
    (content : Content) (composer : ℕ) {a : Announcement} → Reach content composer a → IsChecked a
unfolding create_announcement
Reach-IsChecked content composer composed = record {
  second = λ p. absurd (cc);
  complete = λ p. absurd (cc);
}
Reach-IsChecked content composer (then_step {a} {b} before (edit changed viewer e)) =
    edited changed viewer a b e
Reach-IsChecked content composer (then_step {a} {b} before (move action now viewer reason e)) =
    moved action now viewer reason a b e (Reach-IsChecked content composer before)
Reach-IsChecked content composer (then_step {a} before (run now)) =
    dispatch-IsChecked now a (Reach-IsChecked content composer before)
