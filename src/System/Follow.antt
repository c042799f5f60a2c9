-- ===== src/System/Follow.antt =====
-- What the ship deck (src/server/Shipdeck.cpp) tells the cabins, against where its clients are: the
-- histories that the lobbies of src/server/LobbyCabin.cpp are given.
pub mod Moves
pub mod Names
pub mod Handlers
pub mod Login
pub mod Crew
pub mod Services
use pirate_servers.Base.{
  String, ◌≡◌, ◌≢◌, refl, sym, ap, subst, ◌∙◌, String-cases, inl, inr, Bool, true, false,
  Bool-cases, eq_iff, ◌==◌, ◌&&◌, List, [], ◌∷◌, ◌++◌, if◌then◌else◌, arith,
}
use pirate_servers.Base.Map.{index}
use pirate_servers.Wire.{Message}
use pirate_servers.Defines.{ClientId, CabinId, ClientInfo}
use pirate_servers.Deck.{Deck, Sent, to_cabins, client_at}
use pirate_servers.Lobby.Refinement.{present, present-append}
use pirate_servers.Lobby.Thread.{all_whole, all_whole-append}

-- What the cabin with an id receives of the messages that the ship deck sends.
unfoldable pub received : CabinId → List Sent → List Message
received c [] = []
received c (to_cabins (id ∷ m) ∷ sent) = if id == c then m ∷ received c sent else received c sent
received c (_ ∷ sent) = received c sent

abbrev pub name_of : ClientId → Deck → String
name_of k d = (client_at k d).c_username

abbrev pub is_in : CabinId → ClientId → Deck → Bool
is_in c k d = (client_at k d).c_online && ((client_at k d).curr_cabin == c)

pub received-append :
    (c : CabinId) (earlier later : List Sent)
    → received c (earlier ++ later) ≡ received c earlier ++ received c later
unfolding received
received-append c [] later = refl
received-append c (Sent.to_server m ∷ earlier) later = received-append c earlier later
received-append c (Sent.to_control m ∷ earlier) later = received-append c earlier later
received-append c (to_cabins [] ∷ earlier) later = received-append c earlier later
received-append c (to_cabins (id ∷ m) ∷ earlier) later =
    ground (arith, received-append c earlier later)

-- Each cabin's history agrees with where the clients that have a name are.
pub record IsFollowed (d : Deck) (total : List Sent) : Type 0 where
  pub at_clients :
      (k : ClientId) (c : CabinId)
      → name_of k d ≢ ""
      → c ≢ ""
      → present (name_of k d) (received c total) false ≡ is_in c k d
  pub at_names :
      (u : String) (c : CabinId)
      → u ≢ ""
      → c ≢ ""
      → present u (received c total) false ≡ true
      → (k : ClientId) × (name_of k d ≡ u)
  pub led : (k : ClientId) → name_of k d ≢ "" → index (name_of k d) "" d.crew_name_to_id ≡ k
  pub whole : (c : CabinId) → c ≢ "" → all_whole (received c total) ≡ true

-- One client's step from one deck to the next, with what is sent on the way.
pub record Follows (crew_id : ClientId) (d d' : Deck) (out : List Sent) : Type 0 where
  pub others : (k : ClientId) → crew_id ≢ k → client_at k d' ≡ client_at k d
  pub at_client :
      (c : CabinId)
      → c ≢ ""
      → present (name_of crew_id d') (received c out) (is_in c crew_id d) ≡ is_in c crew_id d'
  pub at_others :
      (u : String) (c : CabinId) (there : Bool)
      → u ≢ name_of crew_id d'
      → present u (received c out) there ≡ there
  pub pieces : (c : CabinId) → all_whole (received c out) ≡ true

module _ (crew_id : ClientId) (d d' : Deck) (total out : List Sent) (h : IsFollowed d total)
    (f : Follows crew_id d d' out) where
  present_later :
      (u : String) (c : CabinId)
      → present u (received c (total ++ out)) false
        ≡ present u (received c out) (present u (received c total) false)
  present_later u c =
      rw (received-append c total out) (present-append u (received c total) (received c out) false)

  at_self :
      (c : CabinId)
      → c ≢ ""
      → present (name_of crew_id d') (received c total) false ≡ is_in c crew_id d
      → present (name_of crew_id d') (received c (total ++ out)) false ≡ is_in c crew_id d'
  at_self c cabin before =
      present_later (name_of crew_id d') c
      ∙ ap (present (name_of crew_id d') (received c out)) before
      ∙ f.at_client c cabin

  at_other :
      (k : ClientId) (c : CabinId)
      → crew_id ≢ k
      → name_of k d ≢ name_of crew_id d'
      → name_of k d ≢ ""
      → c ≢ ""
      → present (name_of k d') (received c (total ++ out)) false ≡ is_in c k d'
  at_other k c other apart named cabin =
      subst
        (λ (client : ClientInfo).
          present client.c_username (received c (total ++ out)) false
          ≡ (client.c_online && (client.curr_cabin == c)))
        (sym (f.others k other))
        (present_later (name_of k d) c
          ∙ f.at_others (name_of k d) c _ apart
          ∙ h.at_clients k c named cabin)

  known :
      (u : String) (c : CabinId)
      → (name_of crew_id d ≢ "" → name_of crew_id d ≡ name_of crew_id d')
      → u ≢ ""
      → c ≢ ""
      → u ≢ name_of crew_id d'
      → present u (received c (total ++ out)) false ≡ true
      → (k : ClientId) × (name_of k d' ≡ u)
  known u c kept named cabin apart there =
      let (k, e) =
        h.at_names u c named cabin
          (sym (f.at_others u c _ apart) ∙ sym (present_later u c) ∙ there) in
      elim (String-cases crew_id k) [
        | inl same ↦
            let at_crew : name_of crew_id d ≡ u = subst (λ j. name_of j d ≡ u) (sym same) e in
            absurd (apart (sym at_crew ∙ kept (λ empty. named (sym at_crew ∙ empty))))
        | inr other ↦ (k, ap (λ (client : ClientInfo). client.c_username) (f.others k other) ∙ e)
      ]

  -- The client's new name is its own, and its history before agrees with where it was.
  pub follow :
      ((c : CabinId)
        → c ≢ ""
        → name_of crew_id d' ≢ ""
        → present (name_of crew_id d') (received c total) false ≡ is_in c crew_id d)
      → ((k : ClientId) → crew_id ≢ k → name_of k d ≢ "" → name_of k d ≢ name_of crew_id d')
      → (name_of crew_id d ≢ "" → name_of crew_id d ≡ name_of crew_id d')
      → ((k : ClientId) → name_of k d' ≢ "" → index (name_of k d') "" d'.crew_name_to_id ≡ k)
      → IsFollowed d' (total ++ out)
  follow before apart kept led = record {
    at_clients = λ k c named cabin. elim (String-cases crew_id k) [
      | inl same ↦
          subst
            (λ j.
              name_of j d' ≢ ""
              → present (name_of j d') (received c (total ++ out)) false ≡ is_in c j d')
            same (λ named_crew. at_self c cabin (before c cabin named_crew)) named
      | inr other ↦
          let named_before =
            subst (λ (client : ClientInfo). client.c_username ≢ "") (f.others k other) named in
          at_other k c other (apart k other named_before) named_before cabin
    ];
    at_names = λ u c named cabin there. elim (String-cases u (name_of crew_id d')) [
      | inl same ↦ (crew_id, sym same)
      | inr other ↦ known u c kept named cabin other there
    ];
    led = led;
    whole = λ c cabin.
        rw (received-append c total out)
          (all_whole-append (received c total) (received c out) (h.whole c cabin) (f.pieces c));
  }
