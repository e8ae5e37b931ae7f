-- ===== src/Participants/Moderation.antt =====
-- The methods of src/services/participants.service.js with which the people who run an event act
-- on an attendee, and those with which attendees act on themselves.
pub mod Sanctions
use hernan_pedraza_pi_back.Prelude.{
  ℕ, ◌+◌, String, Bool, true, Option, none, some, ◌==◌, if◌then◌else◌,
}
use hernan_pedraza_pi_back.Exec.{Exec, pure, lift, ◌>>=◌, ◌>>◌}
use hernan_pedraza_pi_back.Mongo.{Mongo}
use hernan_pedraza_pi_back.Platform.{Platform}
use hernan_pedraza_pi_back.Models.{Participant, Actor, Db}
use hernan_pedraza_pi_back.Participants.Access.{
  ParticipantView, format_participant, load_participant, save_participant, as_moderator,
  assert_session,
}

module _ (m : Mongo) (env : Platform) where
  unfoldable pub kick_participant : ℕ → ℕ → String → Actor → Exec (Db m) ParticipantView
  kick_participant now i reason actor = do
    p ← load_participant m env i
    u ← as_moderator m env p actor
    let q = record p {
      kicked_at = some now;
      kicked_by = some u;
      kick_reason = some reason;
      left_at = some now;
    }
    save_participant m env q
    pure (format_participant now q)

  unfoldable pub ban_participant : ℕ → ℕ → String → Actor → Exec (Db m) ParticipantView
  ban_participant now i reason actor = do
    p ← load_participant m env i
    u ← as_moderator m env p actor
    let q = record p {
      banned_at = some now;
      banned_by = some u;
      ban_reason = some reason;
      is_banned = true;
      left_at = some now;
    }
    save_participant m env q
    pure (format_participant now q)

  unfoldable pub set_participant_cooldown : ℕ → ℕ → ℕ → String → Actor → Exec (Db m) ParticipantView
  set_participant_cooldown now i duration reason actor = do
    p ← load_participant m env i
    u ← as_moderator m env p actor
    let q = record p { cooldown_until = some (now + duration); cooldown_reason = some reason }
    save_participant m env q
    pure (format_participant now q)

  unfoldable pub clear_participant_cooldown : ℕ → ℕ → Actor → Exec (Db m) ParticipantView
  clear_participant_cooldown now i actor = do
    p ← load_participant m env i
    u ← as_moderator m env p actor
    let q = record p { cooldown_until = none; cooldown_reason = none }
    save_participant m env q
    pure (format_participant now q)

  unfoldable pub set_premium : ℕ → ℕ → Bool → Actor → Exec (Db m) ParticipantView
  set_premium now i premium actor = do
    p ← load_participant m env i
    u ← as_moderator m env p actor
    let q = record p { is_premium = premium }
    save_participant m env q
    pure (format_participant now q)

  unfoldable pub leave_event : ℕ → ℕ → Actor → Exec (Db m) ParticipantView
  leave_event now i actor = do
    p ← load_participant m env i
    lift (assert_session p actor)
    let q = record p { left_at = some now }
    save_participant m env q
    pure (format_participant now q)

  unfoldable pub set_participant_password : ℕ → ℕ → String → Actor → Exec (Db m) ParticipantView
  set_participant_password now i password actor = do
    p ← load_participant m env i
    lift (assert_session p actor)
    let q = record p { password_hash = some (env.bcrypt_hash password); password_set_at = some now }
    save_participant m env q
    pure (format_participant now q)

  unfoldable pub update_last_seen : ℕ → ℕ → Db m → Db m
  update_last_seen now i db = record db {
    participants =
        m.update_one Participant (λ p. p.id == i) (λ p. record p { last_seen_at = now })
          db.participants;
  }
