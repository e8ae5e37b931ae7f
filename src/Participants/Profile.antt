-- ===== src/Participants/Profile.antt =====
-- `updateProfile` of src/services/participants.service.js, with its way out for a DJ.
use hernan_pedraza_pi_back.Prelude.{
  ℕ, String, Bool, not, ◌&&◌, Option, none, some, ◌==◌, is_id, is_some, str_eq, if◌then◌else◌,
}
use hernan_pedraza_pi_back.Errors.{validation, not_found, refuse, or_missing}
use hernan_pedraza_pi_back.Exec.{Exec, pure, raise, lift, gets, update, ◌>>=◌, ◌>>◌}
use hernan_pedraza_pi_back.Mongo.{Mongo}
use hernan_pedraza_pi_back.Platform.{Platform}
use hernan_pedraza_pi_back.Models.{User, Participant, Actor, plain, signed, anonymous, Db}
use hernan_pedraza_pi_back.Participants.Access.{
  ParticipantView, format_participant, find_participant, save_participant, assert_session,
}
use hernan_pedraza_pi_back.Participants.Text.{format_anonymous_name}
use hernan_pedraza_pi_back.Participants.Joining.{
  SocialInput, merge_with, set_nickname, set_name_of, ensure_nickname_is_not_access_code,
  apply_social_prefs, next_anonymous_number,
}

-- A picture that is not mentioned is `none`; `some none` takes the picture away.
pub record ProfileUpdate : Type 0 where
  pub nickname : Option String
  pub profile_picture : Option (Option String)
  pub social_prefs : Option SocialInput

-- What a DJ gets in place of a participant (`_formatDjAsParticipant`).
pub record DjView : Type 0 where
  pub user_id : ℕ
  pub nickname : String
  pub profile_picture : Option String

pub data ProfileView : Type 0 where
  attendee_profile : ParticipantView → ProfileView
  dj_profile : DjView → ProfileView

-- `actorUser?.userId` alone.
abbrev pub own_user_id : Actor → Option ℕ
own_user_id (plain u) = none
own_user_id (signed a) = a.user_id
own_user_id anonymous = none

module _ (m : Mongo) (env : Platform) where
  unfoldable pub update_dj_profile_picture : ℕ → Option String → Exec (Db m) ProfileView
  update_dj_profile_picture u picture = do
    found ← gets (λ db. or_missing (m.find_one User (λ x. x.id == u) db.users) "User not found")
    user ← lift found
    let changed = record user { profile_picture = picture }
    update (λ db. record db { users = m.save User (λ x. x.id == user.id) changed db.users })
    pure (
        dj_profile
          (record { user_id = user.id; nickname = user.display_name; profile_picture = picture }))

  unfoldable pub no_participant : ℕ → ProfileUpdate → Actor → Exec (Db m) ProfileView
  unfolding update_dj_profile_picture
  no_participant i updates actor = elim updates.profile_picture [
    | none ↦ raise (not_found "Participant not found")
    | some picture ↦
        if not (is_some updates.nickname)
          && not (is_some updates.social_prefs)
          && is_id (own_user_id actor) i
        then update_dj_profile_picture i picture
        else raise (not_found "Participant not found")
  ]

  unfoldable pub is_taken : Db m → Participant → String → Bool
  is_taken db p nickname = is_some (
      m.find_one Participant
        (λ x.
          x.event_id == p.event_id
          && str_eq x.nickname_lower (env.to_lower nickname)
          && not (x.id == p.id))
        db.participants)

  -- The new name, or the mask while the name is hidden.
  unfoldable pub renamed : String → Participant → Participant
  renamed nickname p =
      let q = set_nickname m env nickname (record p { real_nickname = some nickname }) in
      if p.social_prefs.show_display_name
      then q
      else set_name_of m env (format_anonymous_name p.anonymous_number) q

  unfoldable pub rename : Option String → Participant → Exec (Db m) Participant
  unfolding renamed is_taken
  rename none p = pure p
  rename (some nickname) p = if str_eq nickname p.nickname then pure p else do
    checked ← gets (ensure_nickname_is_not_access_code m env nickname)
    lift checked
    taken ← gets (λ db. is_taken db p nickname)
    lift (refuse taken (validation "Nickname already taken in this event"))
    pure (renamed nickname p)

  unfoldable pub repictured : Option (Option String) → Participant → Participant
  repictured none p = p
  repictured (some picture) p = record p {
    real_profile_picture = picture;
    profile_picture = if p.social_prefs.show_profile_picture then picture else none;
  }

  unfoldable pub reprefer : ℕ → Option SocialInput → Participant → Participant
  reprefer next none p = p
  reprefer next (some input) p =
      apply_social_prefs m env next (merge_with input p.social_prefs) p.real_profile_picture
        p.real_nickname p

  unfoldable pub change_profile : ℕ → ProfileUpdate → Actor → Participant → Exec (Db m) ProfileView
  unfolding rename repictured reprefer
  change_profile now updates actor p = do
    lift (assert_session p actor)
    q ← rename updates.nickname p
    next ← gets (λ db. next_anonymous_number m env db p.event_id)
    let r = reprefer next updates.social_prefs (repictured updates.profile_picture q)
    save_participant m env r
    pure (attendee_profile (format_participant now r))

  abbrev pub profile_of :
      ℕ → ℕ → ProfileUpdate → Actor → Option Participant → Exec (Db m) ProfileView
  profile_of now i updates actor none = no_participant i updates actor
  profile_of now i updates actor (some p) = change_profile now updates actor p

  unfoldable pub update_profile : ℕ → ℕ → ProfileUpdate → Actor → Exec (Db m) ProfileView
  unfolding no_participant change_profile
  update_profile now i updates actor = do
    found ← gets (λ db. find_participant m env db i)
    profile_of now i updates actor found
