-- ===== src/System/Voice/Handlers.antt =====
-- The handlers of src/server/Shipdeck.cpp that send no text to a cabin and change no client's name.
use pirate_servers.Base.{
  String, ◌≡◌, refl, ap, subst, ◌∙◌, String-cases, inl, inr, eq_iff, ◌==◌, Bool, true, false, List,
  [], ◌∷◌, arith, if◌then◌else◌,
}
use pirate_servers.Base.Map.{Map, index, index-touch, insert}
use pirate_servers.Wire.{Message}
use pirate_servers.Defines.{
  ClientId, CabinId, ServerId, CabinInfo, ClientInfo, no_client, set_offline, client_info,
  set_crew_id, set_server_id,
}
use pirate_servers.Deck.{Deck, Sent, to_server, client_at, touch_client, touch_name}
use pirate_servers.Deck.Change.{Change, refused, moved, sent_away, change_player_cabins-Change}
use pirate_servers.Deck.Crew.{
  leave, join, show, ping, showall, quit, login, handle_crewmate_input_command,
}
use pirate_servers.Deck.Keeps.{Gives, keeps_rules}
use pirate_servers.Deck.Move.{change_player_cabins, modify_client}
use pirate_servers.Deck.Placed.{index-insert}
use pirate_servers.System.Follow.{name_of}
use pirate_servers.System.Follow.Moves.{same_name, others_stay}
use pirate_servers.System.Voice.{spoken, IsMute}

-- The names of the clients when one's entry is set.
entry_names :
    (crew_id : ClientId) (client : ClientInfo) (d : Deck) (k : ClientId)
    → (index k no_client (insert crew_id client d.client_map)).c_username
      ≡ (if crew_id == k then client.c_username else name_of k d)
entry_names crew_id client d k =
    ap (λ (c : ClientInfo). c.c_username) (index-insert crew_id k client d.client_map)
    ∙ ground arith

change_names :
    (crew_id : ClientId) (cab_id : CabinId) (d : Deck) (k : ClientId)
    → name_of k (change_player_cabins crew_id cab_id d).0 ≡ name_of k d
change_names crew_id cab_id d k =
    let r = change_player_cabins crew_id cab_id d in
    let change = change_player_cabins-Change crew_id cab_id d in
    elim (String-cases crew_id k) [
      | inl same ↦
          subst (λ (i : ClientId). name_of i r.0 ≡ name_of i d) same
            (same_name crew_id cab_id d r change)
      | inr other ↦
          ap (λ (client : ClientInfo). client.c_username)
            (others_stay crew_id cab_id d r change k other)
    ]

module _ (crew_id : ClientId) (cab_id : CabinId) (d : Deck) (u : String) where
  moves_mute : (r : Deck × List Sent) → Change crew_id cab_id d r → spoken u r.1 ≡ []
  moves_mute r (refused online e) = rw e refl
  moves_mute r (moved online e) = rw e refl
  moves_mute r (sent_away offline e) = rw e refl

  pub change_mute : spoken u (change_player_cabins crew_id cab_id d).1 ≡ []
  change_mute = moves_mute _ (change_player_cabins-Change crew_id cab_id d)

-- A change of cabins of a deck whose clients have the names of another.
change-IsMute :
    (crew_id : ClientId) (cab_id : CabinId) (d d1 : Deck)
    → ((k : ClientId) → name_of k d1 ≡ name_of k d)
    → let r = change_player_cabins crew_id cab_id d1 in IsMute d r.0 r.1
change-IsMute crew_id cab_id d d1 same = record {
  names = λ k. change_names crew_id cab_id d1 k ∙ same k;
  mute = λ u. change_mute crew_id cab_id d1 u;
}

-- A first login: the client has its name, and the others keep theirs.
pub login_names :
    (visit : Map CabinInfo → Map CabinInfo) (s_id : ServerId) (crew_id : ClientId)
    (username password : String) (d : Deck) (k : ClientId)
    → name_of k (login visit s_id crew_id username password d).0
      ≡ (if crew_id == k then username else name_of k d)
unfolding login
login_names visit s_id crew_id username password d k =
    change_names crew_id _ _ k
    ∙ entry_names crew_id (set_crew_id crew_id (set_server_id s_id (client_info username password)))
        d k

pub login_mute :
    (visit : Map CabinInfo → Map CabinInfo) (s_id : ServerId) (crew_id : ClientId)
    (username password : String) (d : Deck) (u : String)
    → spoken u (login visit s_id crew_id username password d).1 ≡ []
unfolding login
login_mute visit s_id crew_id username password d u = change_mute crew_id _ _ u

module _ (d : Deck) where
  pub silent-IsMute : IsMute d d []
  silent-IsMute = record { names = λ k. refl; mute = λ u. refl }

  pub touch_names :
      (crew_id : ClientId) (d1 : Deck)
      → d1.client_map ≡ d.client_map
      → (k : ClientId) → name_of k (touch_client crew_id d1) ≡ name_of k d
  touch_names crew_id d1 e k =
      ap (λ (client : ClientInfo). client.c_username)
        (index-touch crew_id k no_client d1.client_map
          ∙ ap (λ (m : Map ClientInfo). index k no_client m) e)

  either-IsMute :
      (b : Bool) (r s : Deck × List Sent)
      → IsMute d r.0 r.1
      → IsMute d s.0 s.1
      → let t = if b then r else s in IsMute d t.0 t.1
  either-IsMute true r s hr hs = hr
  either-IsMute false r s hr hs = hs

  pub touched-IsMute :
      (crew_id : ClientId) (d1 : Deck) (out : List Sent)
      → d1.client_map ≡ d.client_map
      → ((u : String) → spoken u out ≡ [])
      → IsMute d (touch_client crew_id d1) out
  touched-IsMute crew_id d1 out e mute = record { names = touch_names crew_id d1 e; mute = mute }

  leave-IsMute : (crew_id : ClientId) → IsMute d (leave crew_id d).0 (leave crew_id d).1
  unfolding leave
  leave-IsMute crew_id =
      let touched = touch_name d.default_cabin d in
      either-IsMute _ (touch_client crew_id touched, []) _
        (touched-IsMute crew_id touched [] refl (λ u. refl))
        (change-IsMute crew_id _ d (touch_client crew_id touched)
          (touch_names crew_id touched refl))

  join-IsMute :
      (crew_id : ClientId) (cabin_name : String)
      → IsMute d (join crew_id cabin_name d).0 (join crew_id cabin_name d).1
  unfolding join
  join-IsMute crew_id cabin_name =
      let touched = touch_name cabin_name d in
      either-IsMute _ (touch_client crew_id touched, []) _
        (touched-IsMute crew_id touched [] refl (λ u. refl))
        (change-IsMute crew_id _ d (touch_client crew_id touched)
          (touch_names crew_id touched refl))

  show-IsMute :
      (s_id : ServerId) (crew_id : ClientId)
      → IsMute d (show s_id crew_id d).0 (show s_id crew_id d).1
  unfolding show
  show-IsMute s_id crew_id =
      either-IsMute _ (touch_client crew_id d, _ ∷ []) (touch_client crew_id d, [])
        (touched-IsMute crew_id d _ refl (λ u. refl)) (touched-IsMute crew_id d [] refl (λ u. refl))

  quit-IsMute : (crew_id : ClientId) → IsMute d (quit crew_id d).0 (quit crew_id d).1
  unfolding quit
  quit-IsMute crew_id = change-IsMute crew_id "" d (modify_client crew_id set_offline d) (λ k.
      entry_names crew_id (set_offline (client_at crew_id d)) d k ∙ elim (String-cases crew_id k) [
        | inl same ↦ rw ((eq_iff crew_id k).1 same) (ap (λ (i : ClientId). name_of i d) same)
        | inr other ↦ ground (arith, eq_iff crew_id k)
      ])

  pub to_server-IsMute : (m : Message) → IsMute d d (to_server m ∷ [])
  to_server-IsMute m = record { names = λ k. refl; mute = λ u. refl }

  pub command-IsMute :
      (visit : Map CabinInfo → Map CabinInfo) (input : Message)
      → Gives (IsMute d) (handle_crewmate_input_command visit input d)
  unfolding handle_crewmate_input_command ping showall
  command-IsMute visit input =
      search
        (
          keeps_rules, leave-IsMute, join-IsMute, show-IsMute, quit-IsMute, silent-IsMute,
          to_server-IsMute,
        )
        depth 25
