-- ===== src/Announcement/Row.antt =====
-- An announcement and what is done to it: `createAnnouncement`, `updateAnnouncement`, `transition`,
-- and what `runAnnouncementDispatch` makes of each row.
use backend_new.Basics.{
  ℕ, ◌+◌, ◌/◌, ◌%◌, Bool, true, false, not, ◌&&◌, ◌||◌, Option, none, some, ltb, leb, ◌==◌, Text,
  is_none, is_after, is_truthy, if◌then◌else◌, Result, ok, err, ◌>>◌, throw_if,
}

pub data Status : Type 0 where
  draft pending_approval rejected scheduled live completed cancelled : Status

pub data Category : Type 0 where
  informational promotional : Category

-- What the composer writes.
pub record Content : Type 0 where
  pub name : Text
  pub category : Category
  pub title : Text
  pub body : Text
  pub send_notification : Bool
  pub show_banner : Bool
  pub tag : Option Text
  pub banner_title : Option Text
  pub banner_body : Option Text
  pub starts_at : ℕ
  pub ends_at : Option ℕ

pub record Announcement : Type 0 where
  pub content : Content
  pub status : Status
  pub created_by : ℕ
  pub submitted_at : Option ℕ
  pub approved_by : Option ℕ
  pub approved_at : Option ℕ
  pub rejection_reason : Option Text
  pub cancelled_at : Option ℕ
  pub sent_at : Option ℕ

pub data Refusal : Type 0 where
  not_composer composed_it not_editable not_awaiting gone_out not_live : Refusal
  no_channel banner_incomplete no_end end_before_start : Refusal

pub data Transition : Type 0 where
  submit approve reject cancel end : Transition

abbrev pub is_promotional : Category → Bool
is_promotional promotional = true
is_promotional informational = false

abbrev pub is_editable : Status → Bool
is_editable draft = true
is_editable rejected = true
is_editable _ = false

abbrev pub is_awaiting : Status → Bool
is_awaiting pending_approval = true
is_awaiting _ = false

abbrev pub is_scheduled : Status → Bool
is_scheduled scheduled = true
is_scheduled _ = false

abbrev pub is_live : Status → Bool
is_live live = true
is_live _ = false

-- Not gone out yet.
abbrev pub may_cancel : Status → Bool
may_cancel draft = true
may_cancel pending_approval = true
may_cancel rejected = true
may_cancel scheduled = true
may_cancel _ = false

-- `input.endsAt <= input.startsAt`
abbrev pub ends_by : Option ℕ → ℕ → Bool
ends_by none at = false
ends_by (some t) at = leb t at

-- `assertComplete`
unfoldable pub assert_complete : Content → Result Refusal (Unit {0})
assert_complete c =
    throw_if (not c.send_notification && not c.show_banner) no_channel
    >> throw_if
        (c.show_banner
          && not (is_truthy c.tag && (is_truthy c.banner_title && is_truthy c.banner_body)))
        banner_incomplete
    >> throw_if (c.show_banner && is_none c.ends_at) no_end
    >> throw_if (ends_by c.ends_at c.starts_at) end_before_start

unfoldable pub create_announcement : Content → (viewer : ℕ) → Announcement
create_announcement content viewer = record {
  content = content;
  status = draft;
  created_by = viewer;
  submitted_at = none;
  approved_by = none;
  approved_at = none;
  rejection_reason = none;
  cancelled_at = none;
  sent_at = none;
}

unfoldable pub update_announcement :
    Content → (viewer : ℕ) → Announcement → Result Refusal Announcement
update_announcement content viewer a =
    if not (a.created_by == viewer)
    then err not_composer
    else if not (is_editable a.status)
    then err not_editable
    else ok (record a { content = content; status = draft; rejection_reason = none })

abbrev pub submitted : ℕ → Announcement → Announcement
submitted now a = record a {
  status = pending_approval;
  submitted_at = some now;
  rejection_reason = none;
}

abbrev pub approved : ℕ → ℕ → Announcement → Announcement
approved now viewer a = record a {
  status = scheduled;
  approved_by = some viewer;
  approved_at = some now;
}

abbrev pub turned_down : Option Text → Announcement → Announcement
turned_down reason a = record a { status = rejected; rejection_reason = reason }

abbrev pub ended : ℕ → Announcement → Announcement
ended now a = record a { status = completed; content = record a.content { ends_at = some now } }

-- Both answers of a checker have these guards.
abbrev pub may_check : ℕ → Announcement → Result Refusal (Unit {0})
may_check viewer a =
    throw_if (a.created_by == viewer) composed_it
    >> throw_if (not (is_awaiting a.status)) not_awaiting

abbrev pub then_write : Result Refusal (Unit {0}) → Announcement → Result Refusal Announcement
then_write (ok done) a = ok a
then_write (err e) a = err e

unfoldable pub transition :
    Transition
    → (now viewer : ℕ) (reason : Option Text) → Announcement
    → Result Refusal Announcement
transition submit now viewer reason a =
    then_write
      (throw_if (not (a.created_by == viewer)) not_composer
        >> throw_if (not (is_editable a.status)) not_editable
        >> assert_complete a.content)
      (submitted now a)
transition approve now viewer reason a = then_write (may_check viewer a) (approved now viewer a)
transition reject now viewer reason a = then_write (may_check viewer a) (turned_down reason a)
transition cancel now viewer reason a =
    then_write (throw_if (not (may_cancel a.status)) gone_out)
      (record a { status = cancelled; cancelled_at = some now })
transition end now viewer reason a =
    then_write (throw_if (not (is_live a.status)) not_live) (ended now a)

-- `inQuietHours`, five and a half hours ahead of the clock.
unfoldable pub in_quiet_hours : ℕ → Bool
in_quiet_hours at = let hour = (at + 19800000) / 3600000 % 24 in leb 21 hour || ltb hour 8

abbrev pub banner_runs : ℕ → Content → Bool
banner_runs now c = c.show_banner && is_after c.ends_at now

-- A row that is due, unless it is held back for quiet hours.
abbrev pub sent : ℕ → Announcement → Announcement
sent now a =
    if is_promotional a.content.category && (a.content.send_notification && in_quiet_hours now)
    then a
    else record a {
      sent_at = some now;
      status = if banner_runs now a.content then live else completed;
    }

abbrev pub retire : ℕ → Announcement → Announcement
retire now a =
    if is_live a.status && ends_by a.content.ends_at now then record a { status = completed } else a

-- What one run does to a row: the loop over what is due, then the end of banners.
unfoldable pub dispatch : ℕ → Announcement → Announcement
dispatch now a =
    retire now (if is_scheduled a.status && leb a.content.starts_at now then sent now a else a)
