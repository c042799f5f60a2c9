-- ===== src/Deck/Known.antt =====
-- Which messages leave the ship deck (src/server/Shipdeck.cpp) knowing a client as before, by the same
-- name.
pub mod Crew
pub mod Services
use pirate_servers.Base.{
  String, ◌≡◌, ◌≢◌, refl, sym, ap, subst, ◌∙◌, String-cases, inl, inr, eq_iff, ◌==◌, ◌&&◌, not,
  Bool, true, false, false≢true, List, [], ◌∷◌, ◌++◌, arith, if◌then◌else◌,
}
use pirate_servers.Base.Map.{
  Map, contains, index, index-touch, touch, insert, lookup-touch, lookup-insert,
}
use pirate_servers.Base.Outcome.{ok}
use pirate_servers.Wire.{Message, frame}
use pirate_servers.Defines.{
  ClientId, CabinId, ServerId, CabinInfo, ClientInfo, no_client, set_offline, set_cabin_id,
  client_info, set_crew_id, set_server_id,
}
use pirate_servers.Deck.{Deck, Sent, client_at, touch_client, touch_name, cabin_named}
use pirate_servers.Deck.Change.{
  Change, left, refused, moved, sent_away, change_player_cabins-Change, same_names,
}
use pirate_servers.Deck.Count.Moves.{client_map-leave_cabin}
use pirate_servers.Deck.Crew.{
  leave, join, show, ping, showall, quit, login, handle_crewmate_input,
  handle_crewmate_input_command, handle_crewmate_input_text,
}
use pirate_servers.Deck.Delivery.{arrive}
use pirate_servers.Deck.Keeps.{Gives, Gives-ok, keeps_rules}
use pirate_servers.Deck.Move.{change_player_cabins, modify_client, leave_cabin, enter_cabin}

-- No other name leads to the client than before, and it is known if it was.
pub record IsSteady (c_id : ClientId) (d d' : Deck) : Type 0 where
  pub keys : contains c_id d'.client_map ≡ contains c_id d.client_map
  pub ids :
      (name : String)
      → index name "" d'.crew_name_to_id ≡ c_id
      → index name "" d.crew_name_to_id ≡ c_id

module _ (c_id : ClientId) where
  pub still-IsSteady : (d : Deck) → IsSteady c_id d d
  still-IsSteady d = record { keys = refl; ids = λ name e. e }

  pub then-IsSteady :
      {d d' d'' : Deck} → IsSteady c_id d d' → IsSteady c_id d' d'' → IsSteady c_id d d''
  then-IsSteady first second = record {
    keys = second.keys ∙ first.keys;
    ids = λ name e. first.ids name (second.ids name e);
  }

  -- The client is not the one at hand, or is known.
  abbrev pub KnownIf : ClientId → Deck → Type 0
  KnownIf crew_id d = crew_id ≡ c_id → contains c_id d.client_map ≡ true

  touched_keys :
      (crew_id : ClientId) (m : Map ClientInfo)
      → (crew_id ≡ c_id → contains c_id m ≡ true)
      → contains c_id (touch crew_id no_client m) ≡ contains c_id m
  touched_keys crew_id m known = elim (String-cases crew_id c_id) [
    | inl same ↦
        ground (arith, known same, eq_iff crew_id c_id, lookup-touch crew_id c_id no_client m)
    | inr other ↦ ground (arith, eq_iff crew_id c_id, lookup-touch crew_id c_id no_client m)
  ]

  pub set_keys :
      (crew_id : ClientId) (client : ClientInfo) (m : Map ClientInfo)
      → (crew_id ≡ c_id → contains c_id m ≡ true)
      → contains c_id (insert crew_id client m) ≡ contains c_id m
  set_keys crew_id client m known = elim (String-cases crew_id c_id) [
    | inl same ↦
        ground (arith, known same, eq_iff crew_id c_id, lookup-insert crew_id c_id client m)
    | inr other ↦ ground (arith, eq_iff crew_id c_id, lookup-insert crew_id c_id client m)
  ]

  pub touch-IsSteady :
      (crew_id : ClientId) (d : Deck) → KnownIf crew_id d → IsSteady c_id d (touch_client crew_id d)
  touch-IsSteady crew_id d known = record {
    keys = touched_keys crew_id d.client_map known;
    ids = λ name e. e;
  }

  left_keys :
      (crew_id : ClientId) (d : Deck)
      → KnownIf crew_id d
      → contains c_id (left crew_id d).client_map ≡ contains c_id d.client_map
  left_keys crew_id d known =
      ap (λ (m : Map ClientInfo). contains c_id m)
        (client_map-leave_cabin (client_at crew_id d).curr_cabin (touch_client crew_id d))
      ∙ touched_keys crew_id d.client_map known

  arrived_keys :
      (crew_id : ClientId) (cab_id : CabinId) (d : Deck)
      → KnownIf crew_id d
      → contains c_id (arrive crew_id cab_id d).client_map ≡ contains c_id d.client_map
  unfolding enter_cabin
  arrived_keys crew_id cab_id d known =
      set_keys crew_id _ (left crew_id d).client_map
        (λ same. left_keys crew_id d known ∙ known same)
      ∙ left_keys crew_id d known

  changed_keys :
      (crew_id : ClientId) (cab_id : CabinId) (d : Deck)
      → KnownIf crew_id d
      → (r : Deck × List Sent) → Change crew_id cab_id d r
      → contains c_id r.0.client_map ≡ contains c_id d.client_map
  changed_keys crew_id cab_id d known r (refused online e) =
      rw e (touched_keys crew_id d.client_map known)
  changed_keys crew_id cab_id d known r (moved online e) =
      rw e (arrived_keys crew_id cab_id d known)
  changed_keys crew_id cab_id d known r (sent_away offline e) = rw e (left_keys crew_id d known)

  pub change-IsSteady :
      (crew_id : ClientId) (cab_id : CabinId) (d : Deck)
      → KnownIf crew_id d
      → IsSteady c_id d (change_player_cabins crew_id cab_id d).0
  change-IsSteady crew_id cab_id d known =
      let r = change_player_cabins crew_id cab_id d in
      let change = change_player_cabins-Change crew_id cab_id d in
      record {
        keys = changed_keys crew_id cab_id d known r change;
        ids = λ name e.
            sym (ap (λ (m : Map ClientId). index name "" m) (same_names crew_id cab_id d r change))
            ∙ e;
      }

  -- The client's entry and a cabin's name are looked up before the rest is done.
  pub looked_up-IsSteady :
      (crew_id : ClientId) (cabin_name : String) (d : Deck)
      → KnownIf crew_id d
      → IsSteady c_id d (touch_client crew_id (touch_name cabin_name d))
  looked_up-IsSteady crew_id cabin_name d known = record {
    keys = touched_keys crew_id d.client_map known;
    ids = λ name e. e;
  }

  pub looked_up_change-IsSteady :
      (crew_id : ClientId) (cab_id : CabinId) (cabin_name : String) (d : Deck)
      → KnownIf crew_id d
      → let touched = touch_client crew_id (touch_name cabin_name d) in
        IsSteady c_id d (change_player_cabins crew_id cab_id touched).0
  looked_up_change-IsSteady crew_id cab_id cabin_name d known =
      let touched = looked_up-IsSteady crew_id cabin_name d known in
      then-IsSteady touched (
        change-IsSteady crew_id cab_id (touch_client crew_id (touch_name cabin_name d))
          (λ same. touched.keys ∙ known same))

  pub either-IsSteady :
      {d : Deck} (b : Bool) (r s : Deck × List Sent)
      → IsSteady c_id d r.0
      → IsSteady c_id d s.0
      → IsSteady c_id d (if b then r else s).0
  either-IsSteady true r s hr hs = hr
  either-IsSteady false r s hr hs = hs
