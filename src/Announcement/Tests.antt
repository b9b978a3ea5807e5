-- ===== src/Announcement/Tests.antt =====
-- An announcement from draft to its end.
use backend_new.Basics.{◌≡◌, refl, true, none, some, [], ◌∷◌, ok, err}
use backend_new.Announcement.Row.{
  promotional, scheduled, live, completed, Content, Announcement, submit, approve, composed_it,
  create_announcement, transition, submitted, approved, assert_complete, dispatch, in_quiet_hours,
}
use backend_new.Announcement.Approved.{composed, then_step, move, run, IsChecked, Reach-IsChecked}

abbrev text : Content
text = record {
  name = 65 ∷ [];
  category = promotional;
  title = 65 ∷ [];
  body = 65 ∷ [];
  send_notification = true;
  show_banner = true;
  tag = some (65 ∷ []);
  banner_title = some (65 ∷ []);
  banner_body = some (65 ∷ []);
  starts_at = 10;
  ends_at = some 90000000;
}

abbrev draft_row : Announcement
draft_row = create_announcement text 1

abbrev waiting_row : Announcement
waiting_row = submitted 5 draft_row

abbrev approved_row : Announcement
approved_row = approved 6 2 waiting_row

sent_for_approval : transition submit 5 1 none draft_row ≡ ok waiting_row
unfolding transition create_announcement assert_complete
sent_for_approval = refl

not_by_oneself : transition approve 6 1 none waiting_row ≡ err composed_it
unfolding transition create_announcement
not_by_oneself = refl

approved_by_two : transition approve 6 2 none waiting_row ≡ ok approved_row
unfolding transition create_announcement
approved_by_two = refl

-- At noon in India it goes out, at half past eleven at night it is held back.
out_at_noon : (dispatch 23400000 approved_row).status ≡ live
unfolding dispatch in_quiet_hours create_announcement
out_at_noon = refl

held_at_night : (dispatch 64800000 approved_row).status ≡ scheduled
unfolding dispatch in_quiet_hours create_announcement
held_at_night = refl

over : (dispatch 90000000 (dispatch 23400000 approved_row)).status ≡ completed
unfolding dispatch in_quiet_hours create_announcement
over = refl

Reach-IsChecked_example : IsChecked (dispatch 23400000 approved_row)
Reach-IsChecked_example = Reach-IsChecked text 1 (
    then_step
      (then_step (then_step composed (move submit 5 1 none sent_for_approval))
        (move approve 6 2 none approved_by_two))
      (run 23400000))
