-- ===== src/Votes/Casting/Ballots.antt =====
-- One vote for each attendee and song: casting keeps it, and the vote cast is the one found later.
use hernan_pedraza_pi_back.Prelude.{
  ℕ, ◌≤◌, ◌≡◌, refl, sym, ap, ◌∙◌, Bool, true, Option, none, some, ◌==◌, ==_iff, ==_refl, arith,
  inl, inr, Bool-cases, Option-cases, Memᴰ, find?-mem, find?-append, find?-modify, count,
  count-append, count-modify, count_of_find?-none, if_elim,
}
use hernan_pedraza_pi_back.Errors.{ApiError, Result, ok, err, Result-cases}
use hernan_pedraza_pi_back.Exec.{lift-keeps}
use hernan_pedraza_pi_back.Mongo.{Mongo, find_one_lem, docs-save, docs-create}
use hernan_pedraza_pi_back.Platform.{Platform}
use hernan_pedraza_pi_back.Models.{Settings, Song, Participant, Ballot, Vote, Actor, Db}
use hernan_pedraza_pi_back.Participants.Access.{
  find_participant, assert_active, ensure_participant_can_interact, check_event, check_owner,
  check_cooldown, clear_expired_cooldown, cooldown_over,
}
use hernan_pedraza_pi_back.Votes.Recount.{get_event_settings, recalculate_db, clear_current_song}
use hernan_pedraza_pi_back.Votes.Casting.{
  CastResult, find_song, is_vote_of, find_vote, save_song, ballot, store_vote, premium_of,
  check_voting, recalculate_and_save, record_vote, cast_ballot,
}

module _ (m : Mongo) (env : Platform) where
  votes_of_clear :
      (now : ℕ) (p : Participant) (db : Db m)
      → (clear_expired_cooldown m env now p db).1.votes ≡ db.votes
  unfolding clear_expired_cooldown
  votes_of_clear now p db = elim (Bool-cases (cooldown_over now p)) [
    | inl over ↦ rw over
    | inr not' ↦ rw not'
  ]

  pub votes_of_ensure :
      (now i : ℕ) (e : Option ℕ) (check : Bool) (actor : Option Actor) (db : Db m)
      → (ensure_participant_can_interact m env now i e check actor db).1.votes ≡ db.votes
  unfolding ensure_participant_can_interact
  votes_of_ensure now i e check actor db = elim (Option-cases (find_participant m env db i)) [
    | inl missing ↦ rw missing
    | inr (p, found) ↦ rw found (
        lift-keeps (λ d. d.votes) (check_event m env e p) _ db
          (lift-keeps (λ d. d.votes) (assert_active p) _ db
            (lift-keeps (λ d. d.votes) (check_owner m env actor p) _ db
              (lift-keeps (λ d. d.votes) (check_cooldown m env check now p) _ db
                (votes_of_clear now p db)))))
  ]

  pub votes_of_recalculate :
      (now : ℕ) (settings : Settings) (song : Song) (db : Db m)
      → (recalculate_db m env now settings song db).votes ≡ db.votes
  unfolding recalculate_db clear_current_song
  votes_of_recalculate now settings song db = if_elim (λ d. d.votes ≡ db.votes) _ _ db refl refl

  -- What a call of `castVote` did: it threw and left the votes alone, or it stored the ballot that
  -- it returned, with the voter's standing.
  data Cast (now i s p : ℕ) (value : Ballot) (db : Db m) (out : Result CastResult × Db m)
      : Type 0 where
    threw : (e : ApiError) → out.0 ≡ err e → out.1.votes ≡ db.votes → Cast now i s p value db out
    cast :
        (premium : Bool) (r : CastResult)
        → out.0 ≡ ok r
        → r.vote ≡ ballot m env now i s p value premium (find_vote m env db s p)
        → out.1.votes
          ≡ (store_vote m env
              (find_vote m env db s p)
              (ballot m env now i s p value premium (find_vote m env db s p))
              db).votes
        → Cast now i s p value db out

  votes_of_store :
      (old : Option Vote) (v : Vote) (d e : Db m)
      → d.votes ≡ e.votes
      → (store_vote m env old v d).votes ≡ (store_vote m env old v e).votes
  unfolding store_vote
  votes_of_store none v d e same = ap (m.create Vote v) same
  votes_of_store (some old) v d e same = ap (m.save Vote (λ x. x.id == v.id) v) same

  pub find_vote-votes :
      (d e : Db m) (s p : ℕ) → d.votes ≡ e.votes → find_vote m env d s p ≡ find_vote m env e s p
  unfolding find_vote
  find_vote-votes d e s p same = ap (m.find_one Vote (is_vote_of m env s p)) same

  record_vote-Cast :
      (now i s p : ℕ) (value : Ballot) (settings : Settings) (song : Song) (db : Db m)
      → Cast now i s p value db (record_vote m env now i s p value settings song db)
  unfolding record_vote recalculate_and_save save_song
  record_vote-Cast now i s p value settings song db =
      cast (premium_of m env (find_participant m env db p)) _ refl refl
        (votes_of_recalculate now settings song _)

  Cast-votes :
      (now i s p : ℕ) (value : Ballot) (d e : Db m) (out : Result CastResult × Db m)
      → d.votes ≡ e.votes
      → Cast now i s p value d out
      → Cast now i s p value e out
  Cast-votes now i s p value d e out same (threw x failed kept) = threw x failed (kept ∙ same)
  Cast-votes now i s p value d e out same (cast premium r done made stored) =
      cast premium r done (rw (find_vote-votes d e s p same) at made)
        (stored ∙ rw (find_vote-votes d e s p same) (votes_of_store _ _ d e same))

  cast_ballot-Cast :
      (now i s p : ℕ) (value : Ballot) (actor : Option Actor) (db : Db m)
      → Cast now i s p value db (cast_ballot m env now i s p value actor db)
  unfolding cast_ballot
  cast_ballot-Cast now i s p value actor db = elim (Option-cases (find_song m env db s)) [
    | inl missing ↦ rw missing (threw _ refl refl)
    | inr (song, found) ↦ elim (Result-cases (get_event_settings m env db song.event_id)) [
      | inr (e, gone) ↦ rw (found, gone) (threw e refl refl)
      | inl (settings, read) ↦ elim (Result-cases (check_voting m env settings value)) [
        | inr (e, closed) ↦ rw (found, read, closed) (threw e refl refl)
        | inl (_, is_open) ↦
            elim (Result-cases
              (ensure_participant_can_interact m env now p (some song.event_id) true actor db).0) [
                | inr (e, refused) ↦
                    rw (found, read, is_open, refused)
                      (threw e refl (votes_of_ensure now p (some song.event_id) true actor db))
                | inl (q, admitted) ↦
                    rw (found, read, is_open, admitted)
                      (Cast-votes now i s p value _ db _
                        (votes_of_ensure now p (some song.event_id) true actor db)
                        (record_vote-Cast now i s p value settings song _))
              ]
      ]
    ]
  ]

  -- The identifier tells the stored votes apart.
  abbrev pub IdsUnique : Db m → Type 0
  IdsUnique db =
      (x y : Vote)
      → Memᴰ x (m.docs Vote db.votes)
      → Memᴰ y (m.docs Vote db.votes)
      → x.id ≡ y.id
      → x ≡ y

  -- No attendee has two votes on a song.
  abbrev pub OneVoteEach : Db m → Type 0
  OneVoteEach db = (s p : ℕ) → count (is_vote_of m env s p) (m.docs Vote db.votes) ≤ 1

  found_vote :
      (db : Db m) (s p : ℕ) (old : Vote)
      → find_vote m env db s p ≡ some old
      → Memᴰ old (m.docs Vote db.votes) × (is_vote_of m env s p old ≡ true)
  unfolding find_vote
  found_vote db s p old found =
      find?-mem (is_vote_of m env s p) (m.docs Vote db.votes) old (rw find_one_lem at found)

  -- Saving the new ballot over the old vote changes no vote's attendee and song.
  same_place :
      (now i s p : ℕ) (value : Ballot) (premium : Bool) (db : Db m) (old : Vote) (s' p' : ℕ)
      → IdsUnique db
      → Memᴰ old (m.docs Vote db.votes)
      → (x : Vote) → Memᴰ x (m.docs Vote db.votes)
      → (x.id == old.id) ≡ true
      → is_vote_of m env s' p' (ballot m env now i s p value premium (some old))
        ≡ is_vote_of m env s' p' x
  unfolding ballot
  same_place now i s p value premium db old s' p' unique there x here same =
      rw (unique x old here there ((==_iff x.id old.id).0 same))

  store-OneVoteEach :
      (now i s p : ℕ) (value : Ballot) (premium : Bool) (db : Db m) (old : Option Vote)
      → find_vote m env db s p ≡ old
      → IdsUnique db
      → OneVoteEach db
      → OneVoteEach (store_vote m env old (ballot m env now i s p value premium old) db)
  unfolding store_vote ballot
  store-OneVoteEach now i s p value premium db none missing unique one s' p' =
      rw (docs-create, count-append)
        (unfold find_vote in
          ground (
            arith,
            one s' p',
            count_of_find?-none (is_vote_of m env s p) (m.docs Vote db.votes)
                (rw find_one_lem at missing),
          ))
  store-OneVoteEach now i s p value premium db (some old) found unique one s' p' = rw docs-save (
      rw
        (count-modify (is_vote_of m env s' p') (λ x. x.id == old.id)
          (λ _. ballot m env now i s p value premium (some old)) (m.docs Vote db.votes)
          (same_place now i s p value premium db old s' p' unique (found_vote db s p old found).0))
        (one s' p'))

  value_of_ballot :
      (now i s p : ℕ) (value : Ballot) (premium : Bool) (old : Option Vote)
      → (ballot m env now i s p value premium old).value ≡ value
  unfolding ballot
  value_of_ballot now i s p value premium none = refl
  value_of_ballot now i s p value premium (some v) = refl

  -- The vote on its place after the ballot was stored.
  find_vote-store :
      (now i s p : ℕ) (value : Ballot) (premium : Bool) (db : Db m) (old : Option Vote)
      → find_vote m env db s p ≡ old
      → IdsUnique db
      → find_vote m env (store_vote m env old (ballot m env now i s p value premium old) db) s p
        ≡ some (ballot m env now i s p value premium old)
  unfolding store_vote ballot find_vote
  find_vote-store now i s p value premium db none missing unique =
      rw (find_one_lem, docs-create)
        (find?-append (is_vote_of m env s p) (m.docs Vote db.votes) _ (rw find_one_lem at missing)
          (ground arith))
  find_vote-store now i s p value premium db (some old) found unique =
      let at_docs = rw find_one_lem at found in
      let there = (find?-mem (is_vote_of m env s p) (m.docs Vote db.votes) old at_docs).0 in
      rw (find_one_lem, docs-save)
        (find?-modify (is_vote_of m env s p) (λ x. x.id == old.id)
            (λ _. ballot m env now i s p value premium (some old)) (m.docs Vote db.votes)
            (same_place now i s p value premium db old s p unique there) at_docs
          ∙ (rw (==_refl old.id)))

-- Casting a vote, whether it succeeds or throws, leaves every attendee with at most one vote on
-- every song, if that was so before and identifiers tell the stored votes apart.
pub cast_ballot-OneVoteEach :
    (m : Mongo) (env : Platform) (now i s p : ℕ) (value : Ballot) (actor : Option Actor) (db : Db m)
    → IdsUnique m env db
    → OneVoteEach m env db
    → OneVoteEach m env (cast_ballot m env now i s p value actor db).1
cast_ballot-OneVoteEach m env now i s p value actor db unique one =
    keep (cast_ballot-Cast m env now i s p value actor db)
  where
    keep :
        {out : Result CastResult × Db m}
        → Cast m env now i s p value db out
        → OneVoteEach m env out.1
    keep (threw e failed kept) = rw kept one
    keep (cast premium r done made stored) =
        rw stored (store-OneVoteEach m env now i s p value premium db _ refl unique one)

-- After a successful vote, the vote found for that song and attendee is the one returned: it has
-- the value of this call, whether the attendee had voted on the song before or not. Identifiers
-- tell the stored votes apart.
pub cast_ballot-find_vote :
    (m : Mongo) (env : Platform) (now i s p : ℕ) (value : Ballot) (actor : Option Actor) (db : Db m)
    (r : CastResult)
    → IdsUnique m env db
    → (cast_ballot m env now i s p value actor db).0 ≡ ok r
    → (find_vote m env (cast_ballot m env now i s p value actor db).1 s p ≡ some r.vote)
      × (r.vote.value ≡ value)
cast_ballot-find_vote m env now i s p value actor db r unique done =
    look (cast_ballot-Cast m env now i s p value actor db) done
  where
    look :
        {out : Result CastResult × Db m}
        → Cast m env now i s p value db out
        → out.0 ≡ ok r
        → (find_vote m env out.1 s p ≡ some r.vote) × (r.vote.value ≡ value)
    look (threw e failed kept) won = cc
    look {out} (cast premium r' done' made stored) won =
        let same : r' ≡ r = (cc) in
        let kept : r.vote ≡ ballot m env now i s p value premium (find_vote m env db s p) =
          ap (λ x. x.vote) (sym same) ∙ made in
        (
          rw kept (
              find_vote-votes m env out.1 _ s p stored
              ∙ find_vote-store m env now i s p value premium db _ refl unique),
          rw kept (value_of_ballot m env now i s p value premium (find_vote m env db s p)),
        )
