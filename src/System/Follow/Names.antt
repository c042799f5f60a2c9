-- ===== src/System/Follow/Names.antt =====
-- One client's step, with its name kept or with a new one that no client has: the histories stay in
-- step with the clients of src/server/Shipdeck.cpp.
use pirate_servers.Base.{
  String, ◌≡◌, ◌≢◌, sym, ap, subst, ◌∙◌, String-cases, Bool-cases, inl, inr, false, eq_iff, eq_refl,
  ◌==◌, List, ◌++◌, arith, if◌then◌else◌,
}
use pirate_servers.Base.Map.{index}
use pirate_servers.Defines.{ClientId, CabinId, ClientInfo}
use pirate_servers.Deck.{Deck, Sent}
use pirate_servers.Lobby.Refinement.{present}
use pirate_servers.System.Follow.{received, name_of, is_in, IsFollowed, Follows, follow}

module _ (crew_id : ClientId) (d d' : Deck) (total out : List Sent) (h : IsFollowed d total)
    (f : Follows crew_id d d' out) where
  pub same_name-IsFollowed :
      name_of crew_id d' ≡ name_of crew_id d
      → ((u : String) → u ≢ "" → index u "" d'.crew_name_to_id ≡ index u "" d.crew_name_to_id)
      → IsFollowed d' (total ++ out)
  same_name-IsFollowed same names =
      follow crew_id d d' total out h f
        (λ c cabin named.
          subst (λ u. present u (received c total) false ≡ is_in c crew_id d) (sym same)
            (h.at_clients crew_id c (λ e. named (same ∙ e)) cabin))
        (λ k other named clash. other (
          sym (h.led crew_id (λ e. named (clash ∙ same ∙ e)))
          ∙ ap (λ (u : String). index u "" d.crew_name_to_id) (sym same ∙ sym clash)
          ∙ h.led k named))
        (λ named. sym same)
        (λ k named. elim (String-cases crew_id k) [
          | inl at_crew ↦
              subst (λ j. name_of j d' ≢ "" → index (name_of j d') "" d'.crew_name_to_id ≡ j)
                at_crew
                (λ named_crew.
                  ap (λ (u : String). index u "" d'.crew_name_to_id) same
                  ∙ names (name_of crew_id d) (λ e. named_crew (same ∙ e))
                  ∙ h.led crew_id (λ e. named_crew (same ∙ e)))
                named
          | inr other ↦
              subst
                (λ (client : ClientInfo).
                  client.c_username ≢ "" → index client.c_username "" d'.crew_name_to_id ≡ k)
                (sym (f.others k other)) (λ named_k. names (name_of k d) named_k ∙ h.led k named_k)
                named
        ])

  pub fresh_name-IsFollowed :
      name_of crew_id d ≡ ""
      → ((c : CabinId) → c ≢ "" → is_in c crew_id d ≡ false)
      → ((k : ClientId) → name_of k d ≢ name_of crew_id d')
      → ((u : String)
          → index u "" d'.crew_name_to_id
            ≡ (if name_of crew_id d' == u then crew_id else index u "" d.crew_name_to_id))
      → IsFollowed d' (total ++ out)
  fresh_name-IsFollowed unnamed nowhere fresh names =
      follow crew_id d d' total out h f
        (λ c cabin named.
          elim (Bool-cases (present (name_of crew_id d') (received c total) false)) [
            | inl there ↦
                let (k, clash) = h.at_names (name_of crew_id d') c named cabin there in
                absurd (fresh k clash)
            | inr gone ↦ gone ∙ sym (nowhere c cabin)
          ])
        (λ k other named. fresh k) (λ named. absurd (named unnamed))
        (λ k named. elim (String-cases crew_id k) [
          | inl at_crew ↦
              names (name_of k d') ∙ rw (← at_crew) (ground (arith, eq_refl (name_of crew_id d')))
          | inr other ↦
              subst
                (λ (client : ClientInfo).
                  client.c_username ≢ "" → index client.c_username "" d'.crew_name_to_id ≡ k)
                (sym (f.others k other))
                (λ named_k.
                  names (name_of k d)
                  ∙ ground
                      (arith, eq_iff (name_of crew_id d') (name_of k d), fresh k, h.led k named_k))
                named
        ])
