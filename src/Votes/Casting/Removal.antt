-- ===== src/Votes/Casting/Removal.antt =====
-- What removeVote in src/services/votes.service.js leaves of an attendee's vote.
use hernan_pedraza_pi_back.Prelude.{
  ℕ, ◌≤◌, ◌≡◌, refl, sym, ap, ◌∙◌, Bool, true, Option, none, some, List, [], ◌∷◌, ◌==◌, ==_refl,
  arith, inl, inr, Bool-cases, Option-cases, find?, filter, count,
}
use hernan_pedraza_pi_back.Errors.{Result-cases, Returns}
use hernan_pedraza_pi_back.Mongo.{Mongo, not_test, find_one_lem, docs-delete_many}
use hernan_pedraza_pi_back.Platform.{Platform}
use hernan_pedraza_pi_back.Models.{Vote, Actor, Db}
use hernan_pedraza_pi_back.Participants.Access.{ensure_participant_can_interact}
use hernan_pedraza_pi_back.Votes.Recount.{get_event_settings}
use hernan_pedraza_pi_back.Votes.Casting.{
  find_song, is_vote_of, find_vote, save_song, delete_vote, recalculate_and_save, remove_vote,
}
use hernan_pedraza_pi_back.Votes.Casting.Ballots.{
  OneVoteEach, votes_of_ensure, votes_of_recalculate, find_vote-votes,
}

absent_after_filter :
    (k q : Vote → Bool) (xs : List Vote) → count k xs ≤ 0 → find? k (filter q xs) ≡ none
absent_after_filter k q [] h = refl
absent_after_filter k q (x ∷ xs) h = elim (Bool-cases (k x)) [
  | inl hit ↦ let full : count k (x ∷ xs) ≤ 0 = h in absurd (ground (arith, hit, full))
  | inr miss ↦
      let rest = absent_after_filter k q xs (rw miss at h) in
      elim (Bool-cases (q x)) [ inl kept ↦ rw (kept, miss) rest | inr gone ↦ rw gone rest ]
]

-- The sole element that passes a test is gone when all with its identifier are.
sole_removed :
    (k : Vote → Bool) (xs : List Vote) {v : Vote}
    → count k xs ≤ 1
    → find? k xs ≡ some v
    → find? k (filter (not_test (λ x. x.id == v.id)) xs) ≡ none
sole_removed k [] few found = refl
sole_removed k (x ∷ xs) {v} few found = elim (Bool-cases (k x)) [
  | inl hit ↦
      let same : x ≡ v = (cc (rw hit at found)) in
      let none_left : count k xs ≤ 0 = (ground (arith, hit, few)) in
      let gone : x.id == v.id ≡ true = ap (λ (z : Vote). z.id == v.id) same ∙ ==_refl v.id in
      rw gone (absent_after_filter k (not_test (λ y. y.id == v.id)) xs none_left)
  | inr miss ↦
      let rest = sole_removed k xs (rw miss at few) (rw miss at found) in
      elim (Bool-cases (x.id == v.id)) [ inl gone ↦ rw gone rest | inr kept ↦ rw (kept, miss) rest ]
]

module _ (m : Mongo) (env : Platform) where
  votes_of_remove :
      (now s p : ℕ) (actor : Option Actor) (db : Db m)
      → Returns (remove_vote m env now s p actor db).0
      → (v : Vote) × (find_vote m env db s p ≡ some v)
        × ((remove_vote m env now s p actor db).1.votes
            ≡ m.delete_many Vote (λ x. x.id == v.id) db.votes)
  unfolding remove_vote recalculate_and_save save_song delete_vote
  votes_of_remove now s p actor db h = elim (Option-cases (find_song m env db s)) [
    | inl missing ↦ absurd (rw (missing, Returns) at h)
    | inr (song, found) ↦
        let outcome =
          ensure_participant_can_interact m env now p (some song.event_id) true actor db in
        let kept = votes_of_ensure m env now p (some song.event_id) true actor db in
        elim (Result-cases outcome.0) [
          | inr (_, refused) ↦ absurd (rw (found, refused, Returns) at h)
          | inl (q, admitted) ↦ elim (Option-cases (find_vote m env outcome.1 s p)) [
            | inl uncast ↦ absurd (rw (found, admitted, uncast, Returns) at h)
            | inr (v, cast) ↦
                elim (Result-cases
                  (get_event_settings m env (delete_vote m env v outcome.1) song.event_id)) [
                    | inr (_, gone) ↦ absurd (rw (found, admitted, cast, gone, Returns) at h)
                    | inl (settings, read) ↦ (
                      v,
                      sym (find_vote-votes m env outcome.1 db s p kept) ∙ cast,
                      rw (found, admitted, cast, read)
                          (votes_of_recalculate m env now settings song
                              (delete_vote m env v outcome.1)
                            ∙ ap (m.delete_many Vote (λ x. x.id == v.id)) kept),
                    )
                  ]
          ]
        ]
  ]

  none_after_delete :
      (db : Db m) (s p : ℕ) (v : Vote)
      → count (is_vote_of m env s p) (m.docs Vote db.votes) ≤ 1
      → find_vote m env db s p ≡ some v
      → find_vote m env (delete_vote m env v db) s p ≡ none
  unfolding find_vote delete_vote
  none_after_delete db s p v few found =
      rw (find_one_lem, docs-delete_many)
        (sole_removed (is_vote_of m env s p) (m.docs Vote db.votes) few (rw find_one_lem at found))

-- Once an attendee's vote on a song has been removed, no vote of that attendee on that song is
-- found, if every attendee had at most one vote on every song before.
pub remove_vote-find_vote :
    (m : Mongo) (env : Platform) (now s p : ℕ) (actor : Option Actor) (db : Db m)
    → OneVoteEach m env db
    → Returns (remove_vote m env now s p actor db).0
    → find_vote m env (remove_vote m env now s p actor db).1 s p ≡ none
unfolding delete_vote
remove_vote-find_vote m env now s p actor db one h =
    let (v, found, left) = votes_of_remove m env now s p actor db h in
    find_vote-votes m env (remove_vote m env now s p actor db).1 (delete_vote m env v db) s p left
    ∙ none_after_delete m env db s p v (one s p) found
