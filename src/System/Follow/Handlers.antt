-- ===== src/System/Follow/Handlers.antt =====
-- The handlers of src/server/Shipdeck.cpp keep the cabins' histories in step with the clients.
use pirate_servers.Base.{
  String, ◌≡◌, ◌≢◌, refl, sym, ap, subst, ◌∙◌, Bool, true, false, eq_iff, eq_refl, ◌==◌, ◌&&◌,
  false≢true, List, [], ◌∷◌, ◌++◌, arith, if◌then◌else◌,
}
use pirate_servers.Base.Map.{Map, index, index-touch}
use pirate_servers.Wire.{Message}
use pirate_servers.Defines.{ClientId, CabinId, ServerId, ClientInfo, no_client, set_offline}
use pirate_servers.Deck.{Deck, Sent, to_server, client_at, touch_client, touch_name, cabin_named}
use pirate_servers.Deck.Move.{change_player_cabins, modify_client}
use pirate_servers.Deck.Crew.{leave, join, show, quit}
use pirate_servers.Deck.Placed.{index-insert}
use pirate_servers.Deck.Change.{change_player_cabins-Change}
use pirate_servers.Lobby.Refinement.{present}
use pirate_servers.Lobby.Thread.{all_whole}
use pirate_servers.System.Follow.{received, name_of, is_in, IsFollowed, Follows}
use pirate_servers.Deck.Change.{same_names}
use pirate_servers.System.Follow.Moves.{
  others_stay, same_name, follows_client, others_unmentioned, whole_pieces,
}
use pirate_servers.System.Follow.Names.{same_name-IsFollowed}

-- No cabin is told that a client comes or goes.
pub record IsQuiet (out : List Sent) : Type 0 where
  pub unchanged :
      (u : String) (c : CabinId) (there : Bool) → present u (received c out) there ≡ there
  pub pieces : (c : CabinId) → all_whole (received c out) ≡ true

module _ (crew_id : ClientId) (cab_id : CabinId) (d d1 : Deck)
    (others : (k : ClientId) → crew_id ≢ k → client_at k d1 ≡ client_at k d)
    (place : (client_at crew_id d1).curr_cabin ≡ (client_at crew_id d).curr_cabin)
    (online : (client_at crew_id d1).c_online ≡ true → (client_at crew_id d).c_online ≡ true) where
  pub change_player_cabins-Follows :
      let r = change_player_cabins crew_id cab_id d1 in Follows crew_id d r.0 r.1
  change_player_cabins-Follows =
      let r = change_player_cabins crew_id cab_id d1 in
      let change = change_player_cabins-Change crew_id cab_id d1 in
      let name = same_name crew_id cab_id d1 r change in
      record {
        others = λ k other. others_stay crew_id cab_id d1 r change k other ∙ others k other;
        at_client = λ c cabin.
            subst (λ u. present u (received c r.1) (is_in c crew_id d) ≡ is_in c crew_id r.0)
              (sym name)
              (subst
                (λ (p : CabinId).
                  present (name_of crew_id d1) (received c r.1)
                    ((client_at crew_id d).c_online && (p == c))
                  ≡ is_in c crew_id r.0)
                place
                (follows_client crew_id cab_id d1 r change (client_at crew_id d).c_online online
                  c));
        at_others = λ u c there other.
            others_unmentioned crew_id cab_id d1 r change u c there (λ e. other (e ∙ sym name));
        pieces = whole_pieces crew_id cab_id d1 r change;
      }

  change-IsFollowed :
      (total : List Sent)
      → IsFollowed d total
      → name_of crew_id d1 ≡ name_of crew_id d
      → d1.crew_name_to_id ≡ d.crew_name_to_id
      → let r = change_player_cabins crew_id cab_id d1 in IsFollowed r.0 (total ++ r.1)
  change-IsFollowed total h name names =
      let r = change_player_cabins crew_id cab_id d1 in
      let change = change_player_cabins-Change crew_id cab_id d1 in
      same_name-IsFollowed crew_id d r.0 total r.1 h change_player_cabins-Follows
        (same_name crew_id cab_id d1 r change ∙ name)
        (λ u _.
          ap (λ (m : Map ClientId). index u "" m) (same_names crew_id cab_id d1 r change ∙ names))

pub still-IsFollowed :
    (d d' : Deck) (total out : List Sent)
    → IsFollowed d total
    → ((k : ClientId) → client_at k d' ≡ client_at k d)
    → ((u : String) → u ≢ "" → index u "" d'.crew_name_to_id ≡ index u "" d.crew_name_to_id)
    → IsQuiet out
    → IsFollowed d' (total ++ out)
still-IsFollowed d d' total out h same names quiet =
    same_name-IsFollowed "" d d' total out h
      (record {
        others = λ k other. same k;
        at_client = λ c cabin.
            quiet.unchanged (name_of "" d') c (is_in c "" d)
            ∙ ap (λ (client : ClientInfo). client.c_online && (client.curr_cabin == c))
                (sym (same ""));
        at_others = λ u c there other. quiet.unchanged u c there;
        pieces = quiet.pieces;
      })
      (ap (λ (client : ClientInfo). client.c_username) (same "")) names

pub silent-IsQuiet : IsQuiet []
unfolding present received
silent-IsQuiet = record { unchanged = λ u c there. refl; pieces = λ c. refl }

pub to_server-IsQuiet : (m : Message) → IsQuiet (to_server m ∷ [])
unfolding present received
to_server-IsQuiet m = record { unchanged = λ u c there. refl; pieces = λ c. refl }

module _ (crew_id : ClientId) (d : Deck) (total : List Sent) (h : IsFollowed d total) where
  pub touch_client-IsFollowed :
      (out : List Sent) → IsQuiet out → IsFollowed (touch_client crew_id d) (total ++ out)
  touch_client-IsFollowed out quiet =
      still-IsFollowed d (touch_client crew_id d) total out h
        (λ k. index-touch crew_id k no_client d.client_map) (λ u _. refl) quiet

  touched_change-IsFollowed :
      (cab_id : CabinId) (name : String)
      → let r = change_player_cabins crew_id cab_id (touch_client crew_id (touch_name name d)) in
        IsFollowed r.0 (total ++ r.1)
  touched_change-IsFollowed cab_id name =
      let same = index-touch crew_id crew_id no_client d.client_map in
      change-IsFollowed crew_id cab_id d (touch_client crew_id (touch_name name d))
        (λ k other. index-touch crew_id k no_client d.client_map)
        (ap (λ (client : ClientInfo). client.curr_cabin) same)
        (λ online. sym (ap (λ (client : ClientInfo). client.c_online) same) ∙ online) total h
        (ap (λ (client : ClientInfo). client.c_username) same) refl

  either-IsFollowed :
      (b : Bool) (r s : Deck × List Sent)
      → IsFollowed r.0 (total ++ r.1)
      → IsFollowed s.0 (total ++ s.1)
      → let t = if b then r else s in IsFollowed t.0 (total ++ t.1)
  either-IsFollowed true r s hr hs = hr
  either-IsFollowed false r s hr hs = hs

  touched-IsFollowed :
      (name : String) → IsFollowed (touch_client crew_id (touch_name name d)) (total ++ [])
  touched-IsFollowed name =
      still-IsFollowed d (touch_client crew_id (touch_name name d)) total [] h
        (λ k. index-touch crew_id k no_client d.client_map) (λ u _. refl) silent-IsQuiet

  pub leave-IsFollowed : IsFollowed (leave crew_id d).0 (total ++ (leave crew_id d).1)
  unfolding leave
  leave-IsFollowed =
      either-IsFollowed _ (touch_client crew_id (touch_name d.default_cabin d), []) _
        (touched-IsFollowed d.default_cabin)
        (touched_change-IsFollowed (cabin_named d.default_cabin d) d.default_cabin)

  pub join-IsFollowed :
      (cabin_name : String)
      → IsFollowed (join crew_id cabin_name d).0 (total ++ (join crew_id cabin_name d).1)
  unfolding join
  join-IsFollowed cabin_name =
      either-IsFollowed _ (touch_client crew_id (touch_name cabin_name d), []) _
        (touched-IsFollowed cabin_name)
        (touched_change-IsFollowed (cabin_named cabin_name d) cabin_name)

  pub show-IsFollowed :
      (s_id : ServerId) → IsFollowed (show s_id crew_id d).0 (total ++ (show s_id crew_id d).1)
  unfolding show
  show-IsFollowed s_id =
      either-IsFollowed _ (touch_client crew_id d, _ ∷ []) (touch_client crew_id d, [])
        (touch_client-IsFollowed _ (to_server-IsQuiet _))
        (touch_client-IsFollowed [] silent-IsQuiet)

  pub quit-IsFollowed : IsFollowed (quit crew_id d).0 (total ++ (quit crew_id d).1)
  unfolding quit
  quit-IsFollowed =
      let gone = set_offline (client_at crew_id d) in
      let self : client_at crew_id (modify_client crew_id set_offline d) ≡ gone =
        index-insert crew_id crew_id gone d.client_map ∙ ground (arith, eq_refl crew_id) in
      change-IsFollowed crew_id "" d (modify_client crew_id set_offline d)
        (λ k other. index-insert crew_id k gone d.client_map ∙ ground (arith, eq_iff crew_id k))
        (ap (λ (client : ClientInfo). client.curr_cabin) self)
        (λ online.
          absurd (false≢true (sym (ap (λ (client : ClientInfo). client.c_online) self) ∙ online)))
        total h (ap (λ (client : ClientInfo). client.c_username) self) refl
