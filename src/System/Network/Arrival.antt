-- ===== src/System/Network/Arrival.antt =====
-- What reaches whom between the ship deck (src/server/Shipdeck.cpp) and a lobby
-- (src/server/LobbyCabin.cpp), at any moment of a run.
use mathlib.Core.List.{Mem, Sublist, nil-sublist, append-nil, mem-append_right, mem-cons_self}
use mathlib.Core.List.Sublist as Sublists
use pirate_servers.Base.{
  String, ◌≡◌, ◌≢◌, sym, ap, ◌∙◌, subst, Bool, true, false, none, List, [], ◌∷◌, ◌++◌, ◌==◌,
  eq_refl, if◌then◌else◌, arith,
}
use pirate_servers.Base.Map.{Map, index}
use pirate_servers.Base.Outcome.{ok}
use pirate_servers.Wire.{Message}
use pirate_servers.Defines.{ClientId, CabinId, CabinInfo}
use pirate_servers.Deck.{Deck, to_server, client_at}
use pirate_servers.Deck.Services.{handle_services_cabins_input}
use pirate_servers.Deck.Delivery.{forward_confined}
use pirate_servers.Cabin.Poll.{handle_all}
use pirate_servers.Cabin.Loop.{handle_all_rest}
use pirate_servers.Lobby.{Lobby, new_lobby, has, send_text, handle_shipdeck_input}
use pirate_servers.Lobby.Refinement.{occurrences, present_after}
use pirate_servers.Lobby.Order.{
  Said, text_of, brought, sent_to, sent_to-append, attended, history_delivered,
}
use pirate_servers.System.Follow.{received, name_of, is_in}
use pirate_servers.System.Membership.{handled, lobby_follows_deck}
use pirate_servers.System.Speech.{texts, texts-append}
use pirate_servers.System.Network.{Network, Reach}
use pirate_servers.System.Network.Synced.{AreTexts, Reach-IsSynced}

attended-Sublist :
    (u : String) (there : Bool) (history : List Message)
    → Sublist (attended u there history) (texts history)
unfolding attended texts
attended-Sublist u there [] = Sublists.refl []
attended-Sublist u there (m ∷ history) =
    Sublists.append (now there) (attended-Sublist u (present_after u m there) history)
  where
    now : (b : Bool) → Sublist (if b then text_of m else []) (text_of m)
    now true = Sublists.refl (text_of m)
    now false = nil-sublist (text_of m)

brought-Mem :
    (username text user : String) (taken rest : List Message)
    → Mem (username, text) (sent_to user (taken ++ send_text username text user ∷ rest))
unfolding sent_to brought
brought-Mem username text user taken rest =
    rw (sent_to-append user taken (send_text username text user ∷ rest), eq_refl user)
      (mem-append_right (sent_to user taken) mem-cons_self)

module _ (visit : Map CabinInfo → Map CabinInfo) (visit_users : List String → List String)
    (c : CabinId) (n : Network) (r : Reach visit visit_users c n) where
  -- What is handled from the start on is handled by the lobby where it stands.
  inbox_handled :
      (l : Lobby) (sent : List Message)
      → handle_all (handle_shipdeck_input visit_users) (received c n.total) new_lobby ≡ ok (l, sent)
      → (more : List Message) × (handle_all (handle_shipdeck_input visit_users) n.inbox n.lobby
          ≡ ok (l, more))
  inbox_handled l sent e =
      let h = Reach-IsSynced visit visit_users c n r in
      let handler = handle_shipdeck_input visit_users in
      let whole = ap (λ (m : List Message). handle_all handler m new_lobby) (sym h.arrived) ∙ e in
      handle_all_rest handler n.heard n.inbox new_lobby n.lobby l (n.taken ++ n.outbox) sent
        h.handled whole

  pub lobby_goes_on :
      c ≢ ""
      → (l : Lobby) × (more : List Message) × (handle_all
            (handle_shipdeck_input visit_users)
            n.inbox
            n.lobby
          ≡ ok (l, more))
  lobby_goes_on cabin =
      let (l, sent, e) =
        handled visit_users (Reach-IsSynced visit visit_users c n r).trace c cabin in
      let (more, rest) = inbox_handled l sent e in (l, more, rest)

  -- At any moment of a run in which the ship deck and a lobby handle what has arrived in any
  -- interleaving and no client logs in for the first time by the name of another, if the lobby's
  -- id is not empty, the lobby handles what is on its way to it without a fault, and then a
  -- client with a name is among its users just if the deck has it online in the lobby's cabin.
  pub lobby_catches_up :
      (k : ClientId)
      → c ≢ ""
      → name_of k n.deck ≢ ""
      → (l : Lobby) × (sent : List Message) × (handle_all
            (handle_shipdeck_input visit_users)
            n.inbox
            n.lobby
          ≡ ok (l, sent))
        × (has (name_of k n.deck) l.users ≡ is_in c k n.deck)
  lobby_catches_up k cabin named =
      let h = Reach-IsSynced visit visit_users c n r in
      let (l, sent, e, at) = lobby_follows_deck visit_users h.trace c cabin k named in
      let (more, rest) = inbox_handled l sent e in (l, more, rest, at)

  module _
      (each_once : (u : String) (users : List String)
        → occurrences u (visit_users users) ≡ occurrences u users) where
    -- At any moment of a run in which the ship deck and a lobby handle what has arrived in any
    -- interleaving and no client logs in for the first time by the name of another, what the
    -- lobby has sent to a user is a part of what the crew has said in its cabin, in the same
    -- order, with nothing else and nothing twice that was said once, in whatever order the set of
    -- users is traversed.
    pub texts_in_order : (u : String) → Sublist (sent_to u (n.taken ++ n.outbox)) n.said
    texts_in_order u =
        let h = Reach-IsSynced visit visit_users c n r in
        let sent =
          history_delivered visit_users each_once n.heard n.lobby (n.taken ++ n.outbox) h.handled
            u in
        let all : texts n.heard ++ texts n.inbox ≡ n.said =
          sym (texts-append n.heard n.inbox) ∙ ap texts (sym h.arrived) ∙ h.spoken in
        let part =
          Sublists.append (attended-Sublist u false n.heard) (nil-sublist (texts n.inbox)) in
        subst (λ (l : List Said). Sublist l n.said)
          (append-nil (attended u false n.heard) ∙ sym sent)
          (subst (Sublist (attended u false n.heard ++ [])) all part)

    -- At any moment of a run in which the ship deck and a lobby handle what has arrived in any
    -- interleaving and no client logs in for the first time by the name of another, the deck
    -- handles the next message of the lobby without a fault: it is a text for a user that a
    -- client said in the lobby's cabin, and goes with the sender's name to the client of the
    -- user's name if that client is in the cabin, and nowhere otherwise, in whatever order the set
    -- of users is traversed.
    pub next_text_delivered :
        (m : Message) (rest : List Message)
        → n.outbox ≡ m ∷ rest
        → (username text user : String) × (d : Deck) × Mem (username, text) n.said
          × (m ≡ send_text username text user)
          × (let crew_id = index user "" n.deck.crew_name_to_id in
              let client = client_at crew_id n.deck in
              handle_services_cabins_input (c ∷ m) none n.deck
              ≡ ok (
                d,
                if c == client.curr_cabin
                    then to_server
                        (client.c_server_id ∷ crew_id ∷ "CABIN" ∷ "TEXT" ∷ username ∷ text ∷ [])
                      ∷ []
                    else [],
              ))
    next_text_delivered m rest e =
        let h = Reach-IsSynced visit visit_users c n r in
        let (username, text, user, shape) = (subst AreTexts e h.shaped).0 in
        let (d, forwarded, _, _) =
          forward_confined c "TEXT" user username (text ∷ []) none n.deck (omega arith) in
        let sent =
          subst (λ (out : List Message). Mem (username, text) (sent_to user (n.taken ++ out)))
            (ap (λ (m' : Message). m' ∷ rest) (sym shape) ∙ sym e)
            (brought-Mem username text user n.taken rest) in
        (
          username,
          text,
          user,
          d,
          Sublists.subset (texts_in_order user) (username, text) sent,
          shape,
          ap (λ (m' : Message). handle_services_cabins_input (c ∷ m') none n.deck) shape
              ∙ forwarded,
        )
