-- ===== src/Lobby/Refinement.antt =====
-- The lobby of src/server/LobbyCabin.cpp against its history: who is in it, and whom a text reaches.
use pirate_servers.Base.{
  ℕ, ◌+◌, String, ◌≡◌, refl, ap, ◌∙◌, Bool, false, List, [], ◌∷◌, ◌++◌, map, not, ◌&&◌, ◌||◌, ◌==◌,
  eq_iff, eq_through, bit, arith, if◌then◌else◌, Bool-cases, inl, inr,
}
use pirate_servers.Base.Outcome.{ok}
use pirate_servers.Wire.{Message}
use pirate_servers.Cabin.Poll.{handle_all}
use pirate_servers.Cabin.Loop.{handle_all_split}
use pirate_servers.Lobby.{Lobby, new_lobby, has, insert, erase, send_text, handle_shipdeck_input}

-- The history of one user: whether the user is there after one more message.
unfoldable pub present_after : String → Message → Bool → Bool
present_after u (kind ∷ v ∷ _) there =
    if kind == "JOIN"
    then (v == u) || there
    else if kind == "DISCONNECT"
    then not (v == u) && there
    else there
present_after u _ there = there

unfoldable pub present : String → List Message → Bool → Bool
present u [] there = there
present u (m ∷ history) there = present u history (present_after u m there)

pub present-append :
    (u : String) (earlier later : List Message) (there : Bool)
    → present u (earlier ++ later) there ≡ present u later (present u earlier there)
unfolding present
present-append u [] later there = refl
present-append u (m ∷ earlier) later there =
    present-append u earlier later (present_after u m there)

-- No element twice.
abbrev pub IsSetList : List String → Type 0
IsSetList [] = Unit {0}
IsSetList (u ∷ users) = (has u users ≡ false) × IsSetList users

unfoldable pub occurrences : String → List String → ℕ
occurrences u [] = 0
occurrences u (v ∷ users) = bit (v == u) + occurrences u users

pub has-empty : (u : String) → has u [] ≡ false
unfolding has
has-empty u = refl

has-insert :
    (u v : String) (users : List String) → has u (insert v users) ≡ ((v == u) || has u users)
unfolding has insert
has-insert u v users = ground (arith, eq_iff v u)

has-erase :
    (u v : String) (users : List String)
    → IsSetList users
    → has u (erase v users) ≡ (not (v == u) && has u users)
unfolding has erase
has-erase u v [] s = ground arith
has-erase u v (w ∷ users) s =
    ground (arith, has-erase u v users s.1, eq_iff w v, eq_iff w u, eq_iff v u)

insert-IsSetList : (v : String) (users : List String) → IsSetList users → IsSetList (insert v users)
unfolding insert
insert-IsSetList v users s = ground arith

erase-IsSetList : (v : String) (users : List String) → IsSetList users → IsSetList (erase v users)
unfolding erase
erase-IsSetList v [] s = tt
erase-IsSetList v (w ∷ users) s =
    ground (arith, erase-IsSetList v users s.1, has-erase w v users s.1)

pub occurrences-has :
    (u : String) (users : List String) → IsSetList users → occurrences u users ≡ bit (has u users)
unfolding occurrences has
occurrences-has u [] s = refl
occurrences-has u (v ∷ users) s = ground (arith, occurrences-has u users s.1, eq_iff v u)

users_after : Message → List String → List String
users_after (kind ∷ v ∷ _) users =
    if kind == "JOIN" then insert v users else if kind == "DISCONNECT" then erase v users else users
users_after _ users = users

users_after-IsSetList :
    (m : Message) (users : List String) → IsSetList users → IsSetList (users_after m users)
unfolding users_after
users_after-IsSetList [] users s = s
users_after-IsSetList (kind ∷ []) users s = s
users_after-IsSetList (kind ∷ v ∷ rest) users s =
    ground (arith, insert-IsSetList v users s, erase-IsSetList v users s)

has-users_after :
    (u : String) (m : Message) (users : List String)
    → IsSetList users
    → has u (users_after m users) ≡ present_after u m (has u users)
unfolding users_after present_after
has-users_after u [] users s = refl
has-users_after u (kind ∷ []) users s = refl
has-users_after u (kind ∷ v ∷ rest) users s = elim (Bool-cases (kind == "JOIN")) [
  | inl join ↦ rw join (has-insert u v users)
  | inr no_join ↦ elim (Bool-cases (kind == "DISCONNECT")) [
    | inl gone ↦ rw (no_join, gone) (has-erase u v users s)
    | inr other ↦ rw (no_join, other)
  ]
]

module _ (visit : List String → List String) where
  users-handle :
      (m : Message) (l l' : Lobby) (sent : List Message)
      → handle_shipdeck_input visit m l ≡ ok (l', sent)
      → l'.users ≡ users_after m l.users
  unfolding handle_shipdeck_input users_after
  users-handle [] l l' sent e = cc
  users-handle (kind ∷ []) l l' sent e = ground arith
  users-handle (kind ∷ v ∷ rest) l l' sent e = ground (
    arith,
    eq_through kind "TEXT" "JOIN",
    eq_through kind "COMMAND" "JOIN",
    eq_through kind "SHIPDECK" "JOIN",
    eq_through kind "TEXT" "DISCONNECT",
    eq_through kind "COMMAND" "DISCONNECT",
    eq_through kind "SHIPDECK" "DISCONNECT",
  )

  pub handle_one :
      (m : Message) (l l' : Lobby) (sent : List Message)
      → handle_shipdeck_input visit m l ≡ ok (l', sent)
      → IsSetList l.users
      → IsSetList l'.users × ((u : String) → has u l'.users ≡ present_after u m (has u l.users))
  handle_one m l l' sent e s =
      let same = users-handle m l l' sent e in
      (rw same (users_after-IsSetList m l.users s), λ u. rw same (has-users_after u m l.users s))

  handle_many :
      (history : List Message) (l l' : Lobby) (sent : List Message)
      → handle_all (handle_shipdeck_input visit) history l ≡ ok (l', sent)
      → IsSetList l.users
      → IsSetList l'.users × ((u : String) → has u l'.users ≡ present u history (has u l.users))
  unfolding present
  handle_many [] l l' sent e s = unfold handle_all in (ground arith, λ u. ground arith)
  handle_many (m ∷ history) l l' sent e s =
      let (mid, first, more, e1, e2, _) =
        handle_all_split (handle_shipdeck_input visit) m history l l' sent e in
      let (s1, at_mid) = handle_one m l mid first e1 s in
      let (s2, at_end) = handle_many history mid l' more e2 s1 in (s2, λ u. rw (at_end u, at_mid u))

  -- A lobby that starts empty holds, after any messages that it handles, just the users whose last
  -- JOIN or DISCONNECT among them is a JOIN, each of them once.
  pub users_of_history :
      (history : List Message) (l : Lobby) (sent : List Message)
      → handle_all (handle_shipdeck_input visit) history new_lobby ≡ ok (l, sent)
      → (u : String)
      → (has u l.users ≡ present u history false)
        × (occurrences u l.users ≡ bit (present u history false))
  users_of_history history l sent e u =
      let (s, at) = handle_many history new_lobby l sent e tt in
      let there = at u ∙ ap (present u history) (has-empty u) in
      (there, occurrences-has u l.users s ∙ ap bit there)

  -- A text is sent once to each user who is in the lobby by its history, and to no one else, and the
  -- lobby stays as it is; the set may yield its elements in any order.
  pub text_reaches_present :
      (each_once : (u : String) (users : List String)
        → occurrences u (visit users) ≡ occurrences u users)
      (history : List Message) (l : Lobby) (sent : List Message) (username text : String)
      (rest : Message)
      → handle_all (handle_shipdeck_input visit) history new_lobby ≡ ok (l, sent)
      → (recipients : List String) × (handle_shipdeck_input visit
            ("TEXT" ∷ username ∷ text ∷ rest)
            l
          ≡ ok (l, map (send_text username text) recipients))
        × ((u : String) → occurrences u recipients ≡ bit (present u history false))
  unfolding handle_shipdeck_input
  text_reaches_present each_once history l sent username text rest e =
      (visit l.users, refl, λ u. each_once u l.users ∙ (users_of_history history l sent e u).1)
