-- ===== src/System/Network/Draining.antt =====
-- From wherever the ship deck (src/server/Shipdeck.cpp) and a lobby (src/server/LobbyCabin.cpp) stand,
-- they can handle all that is on its way between them.
use mathlib.Core.List.{append-nil}
use pirate_servers.Base.{
  String, ◌≡◌, ◌≢◌, refl, sym, ap, ◌∙◌, subst, false, List, [], ◌++◌, ◌==◌, ◌&&◌,
}
use pirate_servers.Base.Map.{Map}
use pirate_servers.Base.Outcome.{ok, ok_injective}
use pirate_servers.Wire.{Message}
use pirate_servers.Defines.{ClientId, ClientInfo, CabinId, CabinInfo}
use pirate_servers.Deck.{client_at}
use pirate_servers.Cabin.Poll.{handle_all}
use pirate_servers.Lobby.{Lobby, has, handle_shipdeck_input}
use pirate_servers.Lobby.Refinement.{occurrences}
use pirate_servers.Lobby.Order.{sent_to, attended, history_delivered}
use pirate_servers.System.Follow.{received, name_of, is_in}
use pirate_servers.System.Network.{Network, Reach}
use pirate_servers.System.Network.Synced.{Reach-IsSynced}
use pirate_servers.System.Network.Arrival.{lobby_goes_on, lobby_catches_up}
use pirate_servers.System.Network.Settling.{
  Exchanges, Exchanges-Reach, Settles, Settles-append, lobby-Settles, deck-Settles,
}

module _ (visit : Map CabinInfo → Map CabinInfo) (visit_users : List String → List String)
    (c : CabinId) where
  nothing_handled :
      (l l' : Lobby) (sent : List Message)
      → handle_all (handle_shipdeck_input visit_users) [] l ≡ ok (l', sent)
      → l ≡ l'
  unfolding handle_all
  nothing_handled l l' sent e = ap (λ (p : Lobby × List Message). p.0) (ok_injective e)

  module _ (n : Network) (r : Reach visit visit_users c n) (cabin : c ≢ "")
      (each_once : (u : String) (users : List String)
        → occurrences u (visit_users users) ≡ occurrences u users) where
    -- Where nothing waits for the lobby, its users are those whom the deck has there.
    users_settled :
        (n' : Network)
        → Settles visit visit_users c n n'
        → Reach visit visit_users c n'
        → (k : ClientId) → name_of k n.deck ≢ ""
        → has (name_of k n.deck) n'.lobby.users ≡ is_in c k n.deck
    users_settled n' s r' k named =
        let now : client_at k n.deck ≡ client_at k n'.deck = sym (s.clients k) in
        let (l, sent, e, at) =
          lobby_catches_up visit visit_users c n' r' k cabin
            (subst (λ (client : ClientInfo). client.c_username ≢ "") now named) in
        let same : n'.lobby ≡ l = nothing_handled n'.lobby l sent (
          ap (λ (m : List Message). handle_all (handle_shipdeck_input visit_users) m n'.lobby)
            (sym s.settled)
          ∙ e) in
        subst
          (λ (client : ClientInfo).
            has client.c_username n'.lobby.users ≡ (client.c_online && (client.curr_cabin == c)))
          (s.clients k) (ap (λ (x : Lobby). has (name_of k n'.deck) x.users) same ∙ at)

    all_handled : (n' : Network) × Settles visit visit_users c n n' × (n'.outbox ≡ [])
    all_handled =
        let (l, sent, e) = lobby_goes_on visit visit_users c n r cabin in
        let (mid, first) = lobby-Settles visit visit_users c n.inbox n l sent refl e in
        let h =
          Reach-IsSynced visit visit_users c mid
            (Exchanges-Reach visit visit_users c r first.steps) in
        let (n', later, done) =
          deck-Settles visit visit_users c mid.outbox mid h.shaped first.settled refl in
        (n', Settles-append visit visit_users c first later, done)

    -- From any moment of a run in which the ship deck and a lobby handle what has arrived in any
    -- interleaving and no client logs in for the first time by the name of another, if the
    -- lobby's id is not empty, the lobby and the deck can handle all that is on its way between
    -- them without a fault. Then the deck has taken from the lobby, for each user, what the texts
    -- that the deck had sent to the lobby say that came while the user's last JOIN or DISCONNECT
    -- was a JOIN, each once and in their order; and a client with a name is among the lobby's
    -- users just if the deck has it online in the cabin, in whatever order the set of users is
    -- traversed.
    pub network_settles :
        (n' : Network) × Exchanges visit visit_users c n n'
        × (n'.inbox ≡ [])
        × (n'.outbox ≡ [])
        × (n'.said ≡ n.said)
        × ((u : String) → sent_to u n'.taken ≡ attended u false (received c n.total))
        × ((k : ClientId)
            → name_of k n.deck ≢ ""
            → has (name_of k n.deck) n'.lobby.users ≡ is_in c k n.deck)
    network_settles =
        let (n', s, done) = all_handled in
        let r' = Exchanges-Reach visit visit_users c r s.steps in
        let h = Reach-IsSynced visit visit_users c n' r' in
        let heard : n'.heard ≡ received c n.total =
          sym (append-nil n'.heard)
          ∙ ap (◌++◌ n'.heard) (sym s.settled)
          ∙ sym h.arrived
          ∙ s.received in
        let taken : n'.taken ++ n'.outbox ≡ n'.taken =
          ap (◌++◌ n'.taken) done ∙ append-nil n'.taken in
        (
          n',
          s.steps,
          s.settled,
          done,
          s.said,
          λ u.
              ap (sent_to u) (sym taken)
              ∙ history_delivered visit_users each_once n'.heard n'.lobby (n'.taken ++ n'.outbox)
                  h.handled u
              ∙ ap (attended u false) heard,
          λ k named. users_settled n' s r' k named,
        )
