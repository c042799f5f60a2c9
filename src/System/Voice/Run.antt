-- ===== src/System/Voice/Run.antt =====
-- What a running ship deck (src/server/Shipdeck.cpp) tells the cabins in the name of a user, whatever
-- its threads do in whatever order.
use mathlib.Core.List.{append-nil}
use pirate_servers.Base.{
  String, ◌≡◌, ◌≢◌, refl, sym, ap, ap₂, subst, ◌∙◌, inl, inr, true, ◌&&◌, List, [], ◌∷◌, ◌++◌,
  arith,
}
use pirate_servers.Base.Map.{Map, lookup}
use pirate_servers.Base.Outcome.{ok}
use pirate_servers.Wire.{Message}
use pirate_servers.Deck.Workers.{dispatch_server}
use pirate_servers.Defines.{ClientId, ServerId, CabinInfo}
use pirate_servers.Deck.{Deck, new_deck, Sent}
use pirate_servers.Deck.Threads.{
  Process, Step, Steps, started, users_wait, users_end, types_line, server_waits, server_ends,
  server_message, services_wait, services_end, services_message, destroys, joins_users,
  joins_server, joins_services, here, next,
}
use pirate_servers.Deck.Threads.Placed.{user_input_step_lem}
use pirate_servers.System.Texts.{behind, texts_of, behind-append, texts_of-append}
use pirate_servers.System.Voice.{spoken, spoken-append, IsMute}
use pirate_servers.System.Voice.Services.{services-IsMute}
use pirate_servers.Deck.Known.{IsSteady}
use pirate_servers.Deck.Known.Services.{services-IsSteady}
use pirate_servers.System.Voice.Exact.{begins_with_login, Standing, IdsKnown}
use pirate_servers.System.Voice.Settles.{message-Settles}
use pirate_servers.System.Voice.Theirs.{
  is_apart, all_apart, from_client, heard, Others, message_speaks,
}

pub begins_with_login-first :
    (u : String) (first more : List Message)
    → begins_with_login u (first ++ more) ≡ true
    → begins_with_login u first ≡ true
begins_with_login-first u [] more h = refl
begins_with_login-first u (m ∷ first) more h = h

module _ (s_id : ServerId) (c_id : ClientId) (u : String) where
  all_apart-snoc :
      (served : List Message) (m : Message)
      → all_apart s_id c_id u (served ++ m ∷ [])
        ≡ (all_apart s_id c_id u served && is_apart s_id c_id u m)
  all_apart-snoc [] m = ground arith
  all_apart-snoc (first ∷ served) m = ground (arith, all_apart-snoc served m)

  from_client-append :
      (first more : List Message)
      → from_client s_id c_id u (first ++ more)
        ≡ from_client s_id c_id u first ++ from_client s_id c_id u more
  from_client-append first more =
      ap (behind c_id) (behind-append s_id first more)
      ∙ behind-append c_id (behind s_id first) (behind s_id more)

  heard-append :
      (first more : List Message)
      → heard s_id c_id u (first ++ more) ≡ heard s_id c_id u first ++ heard s_id c_id u more
  heard-append first more =
      ap (texts_of "CREW") (from_client-append first more)
      ∙ texts_of-append "CREW" (from_client s_id c_id u first) (from_client s_id c_id u more)

  -- What the servers sent: each message is apart, and the client's first is a login.
  abbrev IsWell : List Message → Type 0
  IsWell served =
      (all_apart s_id c_id u served ≡ true)
      × (begins_with_login u (from_client s_id c_id u served) ≡ true)

  IsWell-first :
      (served : List Message) (m : Message)
      → IsWell (served ++ m ∷ [])
      → IsWell served × (is_apart s_id c_id u m ≡ true)
  IsWell-first served m (apart, begins) = (
    (
      ground (arith, all_apart-snoc served m),
      begins_with_login-first u (from_client s_id c_id u served) (from_client s_id c_id u (m ∷ []))
          (ap (begins_with_login u) (sym (from_client-append served (m ∷ []))) ∙ begins),
    ),
    ground (arith, all_apart-snoc served m),
  )

  record IsVoiced (d : Deck) (served : List Message) (sent : List Sent) : Type 0 where
    others : Others s_id c_id u d
    ids : IdsKnown s_id c_id u d
    standing : Standing s_id c_id u d (from_client s_id c_id u served)
    voice : spoken u sent ≡ heard s_id c_id u served

  -- A step that sends no text and leaves the client as it is.
  mute-IsVoiced :
      {d : Deck} (d' : Deck) (served : List Message) (sent out : List Sent)
      → IsVoiced d served sent
      → IsMute d d' out
      → IsSteady c_id d d'
      → IsVoiced d' served (sent ++ out)
  mute-IsVoiced d' served sent out i quiet steady = record {
    others = λ k other same. i.others k other (sym (quiet.names k) ∙ same);
    ids = λ name same. steady.keys ∙ i.ids name (steady.ids name same);
    standing = elim i.standing [
      | inl (nothing, unknown) ↦ inl (nothing, steady.keys ∙ unknown)
      | inr (known, named) ↦ inr (steady.keys ∙ known, quiet.names c_id ∙ named)
    ];
    voice = spoken-append u sent out ∙ rw (quiet.mute u) (append-nil (spoken u sent) ∙ i.voice);
  }

  module _ (visit : Map CabinInfo → Map CabinInfo) where
    Step-IsWell : {p q : Process} → Step visit p q → IsWell q.served → IsWell p.served
    Step-IsWell (users_wait at living) h = h
    Step-IsWell (users_end at dead) h = h
    Step-IsWell (types_line input_str at) h = h
    Step-IsWell (server_waits at living) h = h
    Step-IsWell (server_ends at dead) h = h
    Step-IsWell {p} (server_message reqs d out at returns) h = (IsWell-first p.served reqs h).0
    Step-IsWell (services_wait at living) h = h
    Step-IsWell (services_end at dead) h = h
    Step-IsWell (services_message cabins info_reply ships d out at some_ready returns) h = h
    Step-IsWell (destroys at) h = h
    Step-IsWell (joins_users at joined) h = h
    Step-IsWell (joins_server at joined) h = h
    Step-IsWell (joins_services at joined) h = h

    served-IsVoiced :
        (d d' : Deck) (served : List Message) (sent out : List Sent) (reqs : Message)
        → IsWell (served ++ reqs ∷ [])
        → dispatch_server visit reqs d ≡ ok (d', out)
        → IsVoiced d served sent
        → IsVoiced d' (served ++ reqs ∷ []) (sent ++ out)
    served-IsVoiced d d' served sent out reqs h returns i =
        let apart = (IsWell-first served reqs h).1 in
        let (standing, ids, voice) =
          message-Settles s_id c_id u visit d i.others (from_client s_id c_id u served) reqs d' out
            i.ids i.standing apart
            (ap (begins_with_login u) (sym (from_client-append served (reqs ∷ []))) ∙ h.1)
            returns in
        record {
          others = (message_speaks s_id c_id u visit d i.others reqs d' out apart returns).0;
          ids = ids;
          standing =
              subst (Standing s_id c_id u d') (sym (from_client-append served (reqs ∷ [])))
                standing;
          voice =
              spoken-append u sent out
              ∙ ap₂ (λ (a b : List String). a ++ b) i.voice voice
              ∙ sym (heard-append served (reqs ∷ []));
        }

    Step-IsVoiced :
        {p q : Process}
        → Step visit p q
        → IsWell q.served
        → IsVoiced p.deck p.served p.sent
        → IsVoiced q.deck q.served q.sent
    Step-IsVoiced (users_wait at living) h i = i
    Step-IsVoiced (users_end at dead) h i = i
    Step-IsVoiced {p} (types_line input_str at) h i = rw (user_input_step_lem input_str p.deck) i
    Step-IsVoiced (server_waits at living) h i = i
    Step-IsVoiced (server_ends at dead) h i = i
    Step-IsVoiced {p} (server_message reqs d out at returns) h i =
        served-IsVoiced p.deck d p.served p.sent out reqs h returns i
    Step-IsVoiced (services_wait at living) h i = i
    Step-IsVoiced (services_end at dead) h i = i
    Step-IsVoiced {p} (services_message cabins info_reply ships d out at some_ready returns) h i =
        mute-IsVoiced d p.served p.sent out i
          (services-IsMute cabins info_reply ships p.deck d out returns)
          (services-IsSteady c_id p.deck i.ids cabins info_reply ships d out returns)
    Step-IsVoiced {p} (destroys at) h i =
        mute-IsVoiced _ p.served p.sent _ i (record { names = λ k. refl; mute = λ v. refl })
          (record { keys = refl; ids = λ name e. e })
    Step-IsVoiced (joins_users at joined) h i = i
    Step-IsVoiced (joins_server at joined) h i = i
    Step-IsVoiced (joins_services at joined) h i = i

    start-IsVoiced : u ≢ "" → c_id ≢ "" → IsVoiced new_deck [] []
    unfolding lookup
    start-IsVoiced named identified = record {
      others = λ k other same. named (sym same);
      ids = λ name same. absurd (identified (sym same));
      standing = inl (refl, refl);
      voice = refl;
    }

    Steps-IsVoiced :
        {p : Process}
        → u ≢ ""
        → c_id ≢ ""
        → Steps visit (started new_deck) p
        → IsWell p.served
        → IsVoiced p.deck p.served p.sent
    Steps-IsVoiced named identified here h = start-IsVoiced named identified
    Steps-IsVoiced named identified (next before s) h =
        Step-IsVoiced s h (Steps-IsVoiced named identified before (Step-IsWell s h))

    -- From the start of the ship deck, whatever its threads do in whatever order: if the messages of a
    -- client come through its server and its first is a login by its user's name, no other client logs
    -- in by this name, and neither the name nor the client's identity is empty, the texts that the
    -- cabins are sent in this name are just the texts that the client has sent, in their order.
    pub voice_is_theirs :
        (p : Process)
        → u ≢ ""
        → c_id ≢ ""
        → Steps visit (started new_deck) p
        → all_apart s_id c_id u p.served ≡ true
        → begins_with_login u (from_client s_id c_id u p.served) ≡ true
        → spoken u p.sent ≡ heard s_id c_id u p.served
    voice_is_theirs p named identified steps apart begins =
        (Steps-IsVoiced named identified steps (apart, begins)).voice
