-- ===== src/System/Chain.antt =====
-- The way of a text from the keyboard of a client (src/client/Client.cpp) through a server
-- (src/server/Server.cpp) and the ship deck (src/server/Shipdeck.cpp) to the cabins. What a program
-- sends arrives in its order, and some of it may still be on its way.
pub mod Passing
pub mod Tests
use mathlib.Core.List.{append_assoc}
use pirate_servers.Base.{
  ℕ, String, ◌≡◌, ◌≢◌, refl, sym, ap, ◌∙◌, ◌==◌, eq_refl, Bool, true, false, Option, none, some,
  List, [], ◌∷◌, ◌++◌, arith,
}
use pirate_servers.Base.Map.{Map}
use pirate_servers.Base.Outcome.{ok}
use pirate_servers.Wire.{Message}
use pirate_servers.Defines.{CabinInfo, ServerId, ClientId}
use pirate_servers.Deck.{new_deck}
use pirate_servers.Deck.Threads as DeckThreads
use pirate_servers.Client.{Client, Effect, sent, printed}
use pirate_servers.Client.Tasks.{connect}
use pirate_servers.Client.Threads as ClientThreads
use pirate_servers.Client.Threads.Order.{unsent}
use pirate_servers.Server.{Server}
use pirate_servers.Server.Threads as ServerThreads
use pirate_servers.Server.Threads.Traffic.{to_deck, from_crew}
use pirate_servers.System.Chain.Passing.{client_passes}
use pirate_servers.System.Lines.{connect-sent}
use pirate_servers.System.Session.{all_from_server}
use pirate_servers.System.Texts.{behind, texts_in, texts_of, behind-append, texts_of-append}
use pirate_servers.System.Typing.{sent_texts, typed_texts}
use pirate_servers.System.Typing.Balance.{texts_go_out}
use pirate_servers.System.Voice.{spoken}
use pirate_servers.System.Voice.Exact.{begins_with_login}
use pirate_servers.System.Voice.Theirs.{all_apart, from_client, heard}
use pirate_servers.System.Voice.Run.{voice_is_theirs, begins_with_login-first}

-- The messages that a client sends.
abbrev pub sent_messages : List Effect → List Message
sent_messages [] = []
sent_messages (printed s ∷ effects) = sent_messages effects
sent_messages (sent m ∷ effects) = m ∷ sent_messages effects

sent_messages-texts :
    (effects : List Effect) → texts_of "CREW" (sent_messages effects) ≡ sent_texts effects
sent_messages-texts [] = refl
sent_messages-texts (printed s ∷ effects) = sent_messages-texts effects
sent_messages-texts (sent m ∷ effects) =
    ap (λ (l : List String). texts_in "CREW" m ++ l) (sent_messages-texts effects)

-- What comes from an identity is texts, then what is still on its way is.
arrived-texts :
    (id : String) (arrived later whole : List Message)
    → arrived ++ later ≡ whole
    → texts_of "CREW" (behind id arrived) ++ texts_of "CREW" (behind id later)
      ≡ texts_of "CREW" (behind id whole)
arrived-texts id arrived later whole e =
    sym (texts_of-append "CREW" (behind id arrived) (behind id later))
    ∙ ap (texts_of "CREW") (sym (behind-append id arrived later))
    ∙ ap (λ l. texts_of "CREW" (behind id l)) e

-- A first part of a first part.
first_part :
    (arrived later passed waiting whole rest all : List String)
    → arrived ++ later ≡ passed
    → passed ++ waiting ≡ whole
    → all ≡ whole ++ rest
    → (more : List String) × (arrived ++ more ≡ all)
first_part arrived later passed waiting whole rest all e1 e2 e3 = (
  later ++ (waiting ++ rest),
  sym (append_assoc arrived later (waiting ++ rest))
      ∙ ap (λ (l : List String). l ++ (waiting ++ rest)) e1
      ∙ sym (append_assoc passed waiting rest)
      ∙ ap (λ (l : List String). l ++ rest) e2
      ∙ sym e3,
)

-- The texts that come to the server are a first part of those that the client has sent.
sent-texts :
    (arrived later : List Message) (first effects : List Effect)
    → sent_texts first ≡ []
    → arrived ++ later ≡ sent_messages first ++ sent_messages effects
    → texts_of "CREW" arrived ++ texts_of "CREW" later ≡ sent_texts effects
sent-texts arrived later first effects silent e =
    sym (texts_of-append "CREW" arrived later)
    ∙ ap (texts_of "CREW") e
    ∙ texts_of-append "CREW" (sent_messages first) (sent_messages effects)
    ∙ rw (sent_messages-texts first, silent) (sent_messages-texts effects)

module _ (left : Message → Message) (visit : Map CabinInfo → Map CabinInfo) (s_id : ServerId)
    (c_id : ClientId) (username password server_addr : String) where
  -- The client has logged in, and what comes from it begins with that.
  first_is_login :
      (first effects : List Effect) (passed served : List Message)
      (to_server_later to_deck_later : List Message)
      → first ≡ sent ("CREW" ∷ "LOGIN" ∷ username ∷ password ∷ []) ∷ []
      → behind c_id passed ++ to_server_later ≡ sent_messages first ++ sent_messages effects
      → behind s_id served ++ to_deck_later ≡ passed
      → begins_with_login username (from_client s_id c_id username served) ≡ true
  first_is_login first effects passed served to_server_later to_deck_later is_first at_server
        at_deck =
      let all_sent : from_client s_id c_id username served
            ++ (behind c_id to_deck_later ++ to_server_later)
          ≡ sent_messages first ++ sent_messages effects =
        sym (append_assoc (behind c_id (behind s_id served)) (behind c_id to_deck_later) _)
        ∙ ap (λ (l : List Message). l ++ to_server_later)
            (sym (behind-append c_id (behind s_id served) to_deck_later) ∙ ap (behind c_id) at_deck)
        ∙ at_server in
      begins_with_login-first username (from_client s_id c_id username served) _
        (ap (begins_with_login username) all_sent ∙ rw (is_first, eq_refl username) refl)

  -- A client, its server and the ship deck run beside each other, and each does what it does in
  -- whatever order; what one sends to the next arrives in its order, and some of it may still be on
  -- its way. Then what the deck has told the cabins in the name of the client's user is a first part of
  -- the texts that the user has typed, none left out and none twice, if the messages of the client
  -- come through its server, no other client logs in by the user's name, which is not empty, the
  -- client's identity is neither empty nor the word SHIP, and no message that came to the client from
  -- the ship begins as one of its user's.
  pub keyboard_to_cabins :
      (connects : String → Bool) (res : Option ℕ) (reqs : Message) (c : Client)
      (first : List Effect) (p : ClientThreads.Process) (s : Server) (q : ServerThreads.Process)
      (d : DeckThreads.Process) (to_server_later to_deck_later : List Message)
      → connect connects username password server_addr res reqs ≡ ok (c, first)
      → ClientThreads.Steps (ClientThreads.started c) p
      → ServerThreads.Steps left (ServerThreads.started s) q
      → DeckThreads.Steps visit (DeckThreads.started new_deck) d
      → behind c_id (from_crew q.crew_rounds) ++ to_server_later
        ≡ sent_messages first ++ sent_messages p.effects
      → behind s_id d.served ++ to_deck_later ≡ to_deck q.passed
      → all_apart s_id c_id username d.served ≡ true
      → username ≢ ""
      → c_id ≢ ""
      → (c_id == "SHIP") ≡ false
      → all_from_server p.passed ≡ true
      → (rest : List String) × (spoken username d.sent ++ rest ≡ typed_texts p.typed)
  keyboard_to_cabins connects res reqs c first p s q d to_server_later to_deck_later connected steps
        passing handling at_server at_deck apart named identified no_ship known =
      let (lost, typed, _, _) = texts_go_out c p steps known in
      let is_first =
        connect-sent connects username password server_addr res reqs c first connected in
      let passes = client_passes left c_id no_ship s q passing in
      let begins =
        first_is_login first p.effects (to_deck q.passed) d.served to_server_later to_deck_later
          is_first (ap (λ (l : List Message). l ++ to_server_later) passes ∙ at_server) at_deck in
      let (rest, arrived) =
        first_part (heard s_id c_id username d.served) _
          (texts_of "CREW" (behind c_id (to_deck q.passed))) _ (sent_texts p.effects) _ _
          (arrived-texts c_id (behind s_id d.served) to_deck_later (to_deck q.passed) at_deck)
          (ap (λ l. texts_of "CREW" l ++ texts_of "CREW" to_server_later) passes
            ∙ sent-texts (behind c_id (from_crew q.crew_rounds)) to_server_later first p.effects
                (rw is_first refl) at_server)
          typed in
      (
        rest,
        ap (λ (l : List String). l ++ rest)
              (voice_is_theirs s_id c_id username visit d named identified handling apart begins)
            ∙ arrived,
      )
