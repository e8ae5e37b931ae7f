-- ===== src/Lib.antt =====
-- The event back end: attendees join a DJ's event, suggest songs and vote on them, and the DJ
-- moves songs to Now Playing. This library models the services below src/services and
-- src/utils that hold this logic; the controllers, routes and sockets above them only call one
-- service method each, and the Mongoose models below them become the documents of `Models`.
--
-- Parts, files and sources:
--   SongStates           src/utils/song-state-machine.js: the table, validateTransition,
--                        getValidNextStates, isTerminalState. `status_name` and `song_state` go
--                        between the states and the strings of the source.
--   Permissions          src/services/event-permissions.service.js: getContext and the asserts.
--   Participants         src/services/participants.service.js. Access: lookups, session checks,
--                        ensureParticipantCanInteract. Moderation: kick, ban, cooldown, premium,
--                        leave, password. Joining: joinEvent and the social preferences.
--                        Profile: updateProfile. Text: anonymous names and code shapes.
--   AttendeeSession      src/services/attendee-session.service.js: joining without an account, with
--                        what withTransaction takes back after a throw.
--   Votes                src/services/votes.service.js. Recount: the weighted counts and the
--                        ladder. Casting: castVote, removeVote, recomputeActiveSongsForEvent.
--   Songs                src/services/songs.service.js. Metadata: loading and saving with
--                        encrypted texts. Playback: approveSong, rejectSong, sendNow, skipSong,
--                        playNextSong, markSongAsPlayed. Queue: getQueueForEvent with the
--                        positions of its entries, getSongPosition. Similarity: normalizeText,
--                        similarity and levenshtein. Suggestion: suggestSong with the match that it
--                        looks up, Storing for the song that it saves.
--   CooldownCache        src/utils/cooldown-cache.js: cooldowns in memory, by event and attendee.
--   Friends              src/services/friends.service.js. Requests: friend requests, friendships and
--                        their lists. Invites: invitations to events. Changes says what a call did
--                        to the two collections.
--   Events               src/services/events.service.js, src/utils/code-generator.js and
--                        src/models/shared.js. Lifecycle: creating, changing, starting, ending and
--                        cancelling events, lists and members. Codes: generateEventCode.
--                        Microphone: the token that links a phone to an event.
--   Recognition          src/services/audio-recognition. Thresholds: match-thresholds.js. Linker:
--                        queue-linker.js. Session: match-session.js, with State for the session
--                        and its transitions and Inputs for chunks and queue events. Registry:
--                        match-session-registry.js. Matcher: ram-matcher.js, with Cache for the
--                        events in memory. Codec: fingerprint-codec.js. Numbers: the finite numbers
--                        of JavaScript that hashes and times are, with fractions and signs.
--                        Wav: the header and the frames of wav.js, with Frames for the samples and
--                        the loop that reads a file.
--   Auth                 src/services/auth.service.js. Credentials: auth.validator.js and the rule
--                        for passwords of src/schemas/validation-rules.js. Tokens: jwt.utils.js,
--                        buildAuthToken, validateDefaultToken. Mail: sendWelcomeEmail of
--                        src/services/email.service.js. Accounts: register, login, logout. Profile:
--                        what users change of their account. Verifying: verifyEmail and
--                        verifyEmailToken.
--   Models               src/models/*.js: the fields that these services use.
--   Errors, Exec         src/errors/*.js, and methods that may throw: a method maps a database to
--                        a result and a database, and what was written before a throw stays.
--   Mongo, Platform      Parameters, not code of the repository. `Mongo` is the interface of a
--                        collection (find, findOne, updateMany, save, create, ...) with laws that
--                        say what each call does to the list of documents; `Mongo.Sample` fills
--                        it with plain lists. `Platform` has text case, trimming, collation and
--                        bcrypt. `Songs.Metadata.Cipher` has the two directions of the encryption,
--                        `Events.Microphone.Tokens` has jsonwebtoken's sign and verify, and the
--                        sessions of Recognition take the matcher as a function, since the
--                        constructor is given one. `Auth.Tokens.Jwt` has jsonwebtoken for the
--                        sessions of users, `Auth.Mail.Mailer` the delivery of mail, and
--                        `Recognition.Wav.Frames.Numbers` the floating-point numbers of the engine.
--   Prelude              Lists and tests shared by all parts.
--   Witnesses            A small event on which every theorem is run.
--
-- How the parts interact: the votes and songs services ask the participants and permissions
-- services for a check first, and so does the events service; then they read and write the same
-- database value `Db`, whose collections are those of the `Mongo` parameter. The attendee session
-- joins through the participants service. A session of Recognition reads the songs of that database
-- to follow the queue, and binds a recognised track to a pending song. A module below a part holds
-- proofs about it.
--
-- Conventions: identifiers and times are numbers, and a method receives the time of its
-- Date.now() calls as an argument `now`, one value for a call. A missing or null field is `none`.
-- Loops over documents are recursion on lists, so they end. Four loops are recursion on fuel: the
-- digits of an anonymous number, where the number itself is given and each step divides it by ten;
-- the rounding of a difference of two floating-point numbers, where each step doubles the distance
-- of neighbouring numbers and 2100 steps reach beyond the largest; the walk over the chunks of a
-- WAV header; and the loop that reads a WAV file, whose runs out of fuel are told apart as
-- `unfinished`. How much fuel the last two need is stated below.
-- A finite number in a hash or its time is a multiple of 2 ^ -1074, and so is the offset that the
-- matcher reports, rounded as the source's subtraction is.
-- The windows of a session keep the source's caps of 5000 and 4000 hashes. Ratios of numbers of
-- hashes and of texts are compared exactly, where the source has floating-point numbers. An
-- elapsed time is compared by adding: `now - start >= w` is
-- `start + w <= now`. A comparison with `undefined` is false.
--
-- Not modelled: making fingerprints, signal processing, audio tracks, the templates of mail, sockets
-- and HTTP; of the modelled services logging, the formatter of songs, the alternates of a
-- recognition match and assigning one by hand, the lookups at MusicBrainz, vote averages, and
-- generateUniqueId and generateNonce, which print random bytes. Two calls that run at the same time
-- are not interleaved.
pub mod Prelude
pub mod Errors
pub mod Exec
pub mod Mongo
pub mod SongStates
pub mod Platform
pub mod Models
pub mod Permissions
pub mod Participants
pub mod Votes
pub mod Songs
pub mod CooldownCache
pub mod AttendeeSession
pub mod Auth
pub mod Friends
pub mod Events
pub mod Recognition
mod Witnesses
