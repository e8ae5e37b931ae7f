-- ===== src/Participants/Joining/Masks.antt =====
-- src/services/participants.service.js: what _applySocialPrefs does to the public name and picture.
use hernan_pedraza_pi_back.Prelude.{ℕ, ◌≡◌, ◌≢◌, String, true, false, none, some, arith, eq_iff}
use hernan_pedraza_pi_back.Mongo.{Mongo}
use hernan_pedraza_pi_back.Platform.{Platform}
use hernan_pedraza_pi_back.Models.{Participant, SocialPrefs}
use hernan_pedraza_pi_back.Participants.Text.{format_anonymous_name}
use hernan_pedraza_pi_back.Participants.Joining.{apply_social_prefs}

-- Hiding the name and the picture and showing them again gives back the real name, trimmed, and
-- the real picture, if the real name is stored and not empty and a real picture is stored.
pub unmask :
    (m : Mongo) (env : Platform) (next later : ℕ) (hide show : SocialPrefs) (name picture : String)
    (p : Participant)
    → hide.show_display_name ≡ false
    → hide.show_profile_picture ≡ false
    → show.show_display_name ≡ true
    → show.show_profile_picture ≡ true
    → p.real_nickname ≡ some name
    → name ≢ ""
    → p.real_profile_picture ≡ some picture
    → let q = apply_social_prefs m env next hide p.real_profile_picture p.real_nickname p in
      let r = apply_social_prefs m env later show q.real_profile_picture q.real_nickname q in
      (q.profile_picture ≡ none) × (r.nickname ≡ env.trim name) × (r.profile_picture ≡ some picture)
unfolding apply_social_prefs format_anonymous_name
unmask m env next later hide show name picture p hidden dark named seen real full photo =
    ground (arith, eq_iff name "")
