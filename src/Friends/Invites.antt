-- ===== src/Friends/Invites.antt =====
-- The methods of src/services/friends.service.js on invitations to events. The mail that
-- sendEventInvite sends is outside: its outcome is only logged.
use hernan_pedraza_pi_back.Prelude.{
  ℕ, String, Bool, true, false, Option, none, some, List, [], map, ◌==◌, ltb, find?, or_else, take,
  if◌then◌else◌,
}
use hernan_pedraza_pi_back.Errors.{Result, ok, err, validation, forbidden, guard, or_missing}
use hernan_pedraza_pi_back.Exec.{Exec, pure, lift, gets, update, ◌>>=◌, ◌>>◌}
use hernan_pedraza_pi_back.Mongo.{Mongo}
use hernan_pedraza_pi_back.Models.{Event, User, Participant, InviteStatus, EventInvite, Db}
use hernan_pedraza_pi_back.Participants.Joining.{truthy}
use hernan_pedraza_pi_back.Friends.Requests.{
  OtherUser, format_other, one_of, active_user, find_user, is_friend,
}

pub record InviteView : Type 0 where
  pub id : ℕ
  pub incoming : Bool
  pub status : InviteStatus
  pub event_id : Option ℕ
  pub event_name : Option String
  pub event_code : String
  pub message : Option String
  pub sent_at : ℕ
  pub responded_at : Option ℕ
  pub from_id : ℕ
  pub to_id : ℕ
  pub other : Option OtherUser

unfoldable pub format_invite : EventInvite → ℕ → List User → InviteView
unfolding format_other
format_invite i viewer users =
    let incoming = i.to_id == viewer in
    let other_id = if incoming then i.from_id else i.to_id in
    record {
      id = i.id;
      incoming = incoming;
      status = i.status;
      event_id = i.event_id;
      event_name = truthy i.event_name;
      event_code = i.event_code;
      message = truthy i.message;
      sent_at = i.sent_at;
      responded_at = i.responded_at;
      from_id = i.from_id;
      to_id = i.to_id;
      other = format_other (find? (λ u. u.id == other_id) users);
    }

-- The body of the request. A missing event identifier is `none`.
pub record InviteInput : Type 0 where
  pub friend_id : ℕ
  pub event_code : String
  pub event_id : Option ℕ
  pub event_name : Option String
  pub message : Option String

abbrev pub name_of : Option Event → Option String
name_of none = none
name_of (some e) = truthy (some e.name)

abbrev pub text_from : Option String → String → String
text_from none d = d
text_from (some s) d = s

abbrev pub code_of : Option Event → Option String
code_of none = none
code_of (some e) = truthy (some e.access_code)

abbrev pub id_of : Option Event → Option ℕ
id_of none = none
id_of (some e) = some e.id

abbrev pub can_change : InviteStatus → Bool
can_change InviteStatus.expired = false
can_change _ = true

abbrev pub other_of_invite : ℕ → EventInvite → ℕ
other_of_invite viewer i = if i.from_id == viewer then i.to_id else i.from_id

abbrev pub newer_invite : EventInvite → EventInvite → Bool
newer_invite a b = ltb b.sent_at a.sent_at

module _ (m : Mongo) (updated_later : Participant → Participant → Bool) where
  unfoldable pub resolve_event : Option ℕ → Db m → Result (Option Event)
  resolve_event none db = ok none
  resolve_event (some e) db =
      elim (or_missing (m.find_one Event (λ x. x.id == e) db.events) "Event not found") [
        | Result.err x ↦ Result.err x
        | Result.ok event ↦ ok (some event)
      ]

  -- `if (!toUser.email) throw`
  abbrev pub email_of : User → Result String
  email_of u = elim (truthy u.email) [
    | none ↦ err (validation "Friend has no email address on file")
    | some e ↦ ok e
  ]

  unfoldable pub send_event_invite : ℕ → ℕ → ℕ → InviteInput → Exec (Db m) InviteView
  send_event_invite now i from input = do
    sender ←
        gets (λ db. or_missing (active_user (find_user m updated_later db from)) "User not found")
    _ ← lift sender
    friend ← gets (λ db. is_friend m updated_later db from input.friend_id)
    lift (guard friend (forbidden "You can only invite people you are friends with"))
    target ← gets (λ db.
        or_missing (active_user (find_user m updated_later db input.friend_id)) "Friend not found")
    to ← lift target
    email ← lift (email_of to)
    resolved ← gets (resolve_event input.event_id)
    event ← lift resolved
    let invite : EventInvite = record {
      id = i;
      from_id = from;
      to_id = input.friend_id;
      to_email = email;
      event_id = id_of event;
      event_name = or_else (name_of event) (truthy input.event_name);
      event_code = text_from (code_of event) input.event_code;
      message = input.message;
      status = InviteStatus.sent;
      sent_at = now;
      responded_at = none;
    }
    update (λ db. record db { invites = m.create EventInvite invite db.invites })
    pure (format_invite invite from [])

  unfoldable pub find_invite : Db m → ℕ → Option EventInvite
  find_invite db i = m.find_one EventInvite (λ x. x.id == i) db.invites

  unfoldable pub respond_event_invite : ℕ → ℕ → ℕ → Bool → Exec (Db m) InviteView
  respond_event_invite now i user accept = do
    found ← gets (λ db. or_missing (find_invite db i) "Event invite not found")
    invite ← lift found
    lift (guard (invite.to_id == user) (forbidden "Only the recipient can respond"))
    lift (guard (can_change invite.status) (validation "This invite can no longer be changed"))
    let s = record invite {
      status = if accept then InviteStatus.accepted else InviteStatus.dismissed;
      responded_at = some now;
    }
    update (λ db. record db { invites = m.save EventInvite (λ x. x.id == s.id) s db.invites })
    pure (format_invite s user [])

  unfoldable pub enrich_invites : Db m → List EventInvite → ℕ → List InviteView
  enrich_invites db rows viewer =
      let users = m.find User (λ u. one_of (map (other_of_invite viewer) rows) u.id) db.users in
      map (λ i. format_invite i viewer users) rows

  -- .limit(50)
  unfoldable pub list_incoming_invites : Db m → ℕ → List InviteView
  list_incoming_invites db u =
      enrich_invites db
        (take 50 (m.find_sorted EventInvite newer_invite (λ i. i.to_id == u) db.invites)) u

  unfoldable pub list_outgoing_invites : Db m → ℕ → List InviteView
  list_outgoing_invites db u =
      enrich_invites db
        (take 50 (m.find_sorted EventInvite newer_invite (λ i. i.from_id == u) db.invites)) u
