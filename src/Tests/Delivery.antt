-- ===== src/Tests/Delivery.antt =====
-- Messages from user to user (server/router.cpp).
use asynchronous_messenger.Base.{true, false, ◌≡◌, refl, arith, List, [], ◌∷◌, ◌++◌, c_str}
use asynchronous_messenger.Env.{Env}
use asynchronous_messenger.Server.Boxes.{MailRun}
use asynchronous_messenger.Server.Mailbox.{
  RouterCall, delivering, sending_stored, boxes, seen_all, route_all, route_all-MailRun,
}
use asynchronous_messenger.Json.Sample.{Sample, member}
use asynchronous_messenger.Base.Map.{find}
use asynchronous_messenger.UserManager.{get_session}
use asynchronous_messenger.Database.{get_user, user_of_row, new_message}
use asynchronous_messenger.Database.Messages.{waiting}
use asynchronous_messenger.Router.{deliver_message, delivery}
use asynchronous_messenger.Router.Delivery.{stored_delivered, deliver_online}
use asynchronous_messenger.Tests.Data.{
  calm, calm-IsHealthy, calm-Orders, lib, bob_to_ann, bob_online, both_online, ann_row, two_users,
}

deliver_online_example :
    let w' = deliver_message lib calm bob_to_ann 2 "ann" both_online in
    ((w'.sessions 1).sent
      ≡ delivery lib calm bob_to_ann 2 (stored_delivered lib calm 2 1 "hello" two_users) ∷ [])
    × (w'.sessions 0 ≡ both_online.sessions 0)
    × (waiting 1 w'.db ≡ waiting 1 two_users)
    × (w'.db.messages
        ≡ two_users.messages ++ new_message calm 2 1 "hello" true false "" two_users ∷ [])
unfolding get_user c_str member get_session find
deliver_online_example =
    deliver_online lib calm bob_to_ann 2 "ann" both_online (user_of_row ann_row) "hello" 1 0 1
      (91 ∷ 93 ∷ []) calm-IsHealthy refl refl refl refl (λ e. omega (arith, e))

-- bob writes to ann, who is not logged in, and then ann logs in from connection 1.
abbrev calls : List (Env × RouterCall Sample)
calls = (calm, delivering bob_to_ann 2 "ann") ∷ (calm, sending_stored 1 1) ∷ []

route_all-MailRun_example :
    MailRun
      (boxes two_users)
      (seen_all lib calls bob_online)
      (boxes (route_all lib calls bob_online).db)
route_all-MailRun_example =
    route_all-MailRun lib calls bob_online
      (calm-IsHealthy, calm-Orders, (calm-IsHealthy, calm-Orders, tt))
