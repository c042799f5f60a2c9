-- ===== src/Lobby/Thread.antt =====
-- The thread of a lobby: the constructor of src/server/LobbyCabin.cpp, which registers the cabin and
-- then handles messages until the control socket speaks.
use pirate_servers.Base.{
  String, ◌≡◌, refl, Bool, true, false, not, List, [], ◌∷◌, ◌++◌, ◌==◌, ◌&&◌, arith,
}
use pirate_servers.Base.Outcome.{Outcome, ok, ◌>>=◌, is_ok, value_of_is_ok}
use pirate_servers.Wire.{Message}
use pirate_servers.Defines.{cabin_info}
use pirate_servers.Cabin.{Cabin, new_cabin, auth_msg, cabin_info_msg}
use pirate_servers.Cabin.Poll.{Round, poll_with_control, handle_all, before_control}
use pirate_servers.Cabin.Loop.{poll_with_control-handle_all}
use pirate_servers.Lobby.{Lobby, new_lobby, has, handle_shipdeck_input}
use pirate_servers.Lobby.Refinement.{present, users_of_history}

unfoldable pub lobby_cabin :
    (List String → List String)
    → String
    → String
    → Message
    → List Round
    → Outcome (Cabin × Lobby × List Message)
lobby_cabin visit title description reply rounds = do
  (c, first) ← new_cabin title description reply
  (l, out) ← poll_with_control c.alive (handle_shipdeck_input visit ∷ []) rounds new_lobby
  ok (c, l, first ++ out)

-- A message that has every frame that its kind is read for.
abbrev pub is_whole : Message → Bool
is_whole [] = false
is_whole (kind ∷ []) = not (kind == "TEXT") && (not (kind == "JOIN") && not (kind == "DISCONNECT"))
is_whole (kind ∷ a ∷ []) = not (kind == "TEXT")
is_whole (kind ∷ a ∷ b ∷ rest) = true

abbrev pub all_whole : List Message → Bool
all_whole [] = true
all_whole (m ∷ history) = is_whole m && all_whole history

pub all_whole-append :
    (earlier later : List Message)
    → all_whole earlier ≡ true
    → all_whole later ≡ true
    → all_whole (earlier ++ later) ≡ true
all_whole-append [] later h g = g
all_whole-append (m ∷ earlier) later h g = ground (arith, all_whole-append earlier later)

module _ (visit : List String → List String) where
  whole_handled :
      (m : Message) (l : Lobby) → is_whole m ≡ true → is_ok (handle_shipdeck_input visit m l) ≡ true
  unfolding handle_shipdeck_input
  whole_handled [] l h = ground arith
  whole_handled (kind ∷ []) l h = ground arith
  whole_handled (kind ∷ a ∷ []) l h = ground arith
  whole_handled (kind ∷ a ∷ b ∷ rest) l h = ground arith

  pub history_handled :
      (history : List Message) (l : Lobby)
      → all_whole history ≡ true
      → is_ok (handle_all (handle_shipdeck_input visit) history l) ≡ true
  unfolding handle_all
  history_handled [] l h = refl
  history_handled (m ∷ history) l h =
      let (p, handled) =
        value_of_is_ok (handle_shipdeck_input visit m l) (whole_handled m l (ground arith)) in
      let (q, later) =
        value_of_is_ok (handle_all (handle_shipdeck_input visit) history p.0)
          (history_handled history p.0 (ground arith)) in
      rw (handled, later)

  -- A lobby that the ship deck registers, where every message that arrives before the control message
  -- has the frames that its kind needs, does not fault: it has the identity that it was given, sends
  -- its registration and its info first, and its users are those whose last JOIN or DISCONNECT
  -- before the control message is a JOIN.
  pub lobby_cabin_serves :
      (title description g_id : String) (more : Message) (rounds : List Round)
      → all_whole (before_control rounds) ≡ true
      → (c : Cabin) × (l : Lobby) × (out : List Message) × (lobby_cabin visit title description
            ("SHIP" ∷ "SUCCESS" ∷ g_id ∷ more)
            rounds
          ≡ ok (c, l, auth_msg ∷ cabin_info_msg c ∷ out))
        × (c.info.g_id ≡ g_id)
        × ((u : String) → has u l.users ≡ present u (before_control rounds) false)
  unfolding lobby_cabin new_cabin
  lobby_cabin_serves title description g_id more rounds h =
      let ((l, out), served) =
        value_of_is_ok (handle_all (handle_shipdeck_input visit) (before_control rounds) new_lobby)
          (history_handled (before_control rounds) new_lobby h) in
      (
        record { info = record (cabin_info title description) { g_id = g_id }; alive = true },
        l,
        out,
        rw (poll_with_control-handle_all (handle_shipdeck_input visit) rounds new_lobby, served),
        refl,
        λ u. (users_of_history visit (before_control rounds) l out served u).0,
      )
