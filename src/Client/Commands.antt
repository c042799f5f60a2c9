-- ===== src/Client/Commands.antt =====
-- What the client of src/client/Client.cpp sends for a command or a text of its user.
use pirate_servers.Base.{
  ℕ, zero, suc, ◌+◌, ◌≤◌, ◌<◌, String, ◌≡◌, ◌≢◌, ◌↔◌, refl, ap, sym, ◌∙◌, [], ◌∷◌, Bool, true,
  false, ◌||◌, if◌then◌else◌, false≢true, subst, arith, ◌==◌, eq_iff, Bool-cases, inl, inr,
}
use pirate_servers.Base.Text.{size, has_prefix, keep, skip, substr, substr_from}
use pirate_servers.Base.Prefix.{keep-has_prefix, keep_whole}
use pirate_servers.Base.Outcome.{ok, err, bad_substr}
use pirate_servers.Wire.{Message}
use pirate_servers.Client.{Client, sent}
use pirate_servers.Client.User.{attempt, send_once, handle_user_input}

join-ne-quit : (command : String) → has_prefix "/join" command ≡ true → (command == "/quit") ≡ false
unfolding has_prefix
join-ne-quit command joins = elim (Bool-cases (command == "/quit")) [
  | inl quits ↦ absurd (
      false≢true
        (subst (λ s. has_prefix "/join" s ≡ true) ((eq_iff command "/quit").0 quits) joins))
  | inr other ↦ other
]

join_keep : (command : String) → has_prefix "/join" command ≡ true → keep 5 command ≡ "/join"
unfolding size
join_keep command joins = keep-has_prefix "/join" command joins

join_name : (command : String) → has_prefix "/join" command ≡ true → substr command 0 5 ≡ ok "/join"
unfolding substr
join_name command joins = ground (arith, join_keep command joins)

short_join :
    (command : String) → has_prefix "/join" command ≡ true → size command < 6 → command ≡ "/join"
short_join command joins short = sym (keep_whole 5 command (omega arith)) ∙ join_keep command joins

attempt_succeeds :
    (sends : ℕ → Bool) (left i j : ℕ) (msg : Message)
    → i ≤ j
    → j < i + left
    → sends j ≡ true
    → attempt sends left i msg ≡ (true, sent msg ∷ [])
unfolding attempt
attempt_succeeds sends zero i j msg h k e = absurd (omega arith)
attempt_succeeds sends (suc left) i j msg h k e = elim (Bool-cases (sends i)) [
  | inl now ↦ rw now
  | inr later ↦
      rw later
        (attempt_succeeds sends left (i + 1) j msg (after i j h (differ later)) (omega arith) e)
]
  where
    differ : sends i ≡ false → i ≢ j
    differ f same = false≢true (sym f ∙ ap sends same ∙ e)

    after : (a b : ℕ) → a ≤ b → a ≢ b → a + 1 ≤ b
    after a b p q = omega arith

attempt_fails :
    (sends : ℕ → Bool) (left i : ℕ) (msg : Message)
    → ((j : ℕ) → i ≤ j → j < i + left → sends j ≡ false)
    → attempt sends left i msg ≡ (false, [])
unfolding attempt
attempt_fails sends zero i msg h = refl
attempt_fails sends (suc left) i msg h =
    rw (h i (omega arith) (omega arith))
      (attempt_fails sends left (i + 1) msg (λ j p q. h j (omega arith) (omega arith)))

module _ (sends : ℕ → Bool) (c : Client) where
  -- A line that begins with /join and goes on becomes a command with one argument: what stands
  -- behind the character after /join.
  pub join_sends :
      (command : String)
      → sends 0 ≡ true
      → has_prefix "/join" command ≡ true
      → 6 ≤ size command
      → handle_user_input sends ("CLIENT" ∷ "COMMAND" ∷ command ∷ []) c
        ≡ ok (c, sent ("CREW" ∷ "COMMAND" ∷ "/join" ∷ skip 6 command ∷ []) ∷ [])
  unfolding handle_user_input send_once substr_from
  join_sends command reached joins more =
      rw (join-ne-quit command joins, joins) (ground (arith, join_name command joins))

  -- Typing a command ends the client's core thread by the exception of `substr` just if the command
  -- is /join with nothing behind it.
  pub bare_join_faults :
      (command : String)
      → sends 0 ≡ true
      → (handle_user_input sends ("CLIENT" ∷ "COMMAND" ∷ command ∷ []) c ≡ err bad_substr)
        ↔ (command ≡ "/join")
  unfolding handle_user_input send_once substr_from
  bare_join_faults command reached = (
    λ e. ground (arith, join_name command, short_join command),
    λ e. rw e (unfold has_prefix substr in refl),
  )

  -- A text goes to the ship exactly once, and the client stays alive, if one of the first ten calls
  -- that send it returns a value.
  pub text_sent_once :
      (text : String) (j : ℕ)
      → j < 10
      → sends j ≡ true
      → handle_user_input sends ("CLIENT" ∷ "TEXT" ∷ text ∷ []) c
        ≡ ok (c, sent ("CREW" ∷ "TEXT" ∷ text ∷ []) ∷ [])
  unfolding handle_user_input
  text_sent_once text j h e =
      rw (attempt_succeeds sends 10 0 j ("CREW" ∷ "TEXT" ∷ text ∷ []) (omega arith) (omega arith) e)

  -- If none of the ten does, the client sends nothing and dies.
  pub text_gives_up :
      (text : String)
      → ((j : ℕ) → j < 10 → sends j ≡ false)
      → handle_user_input sends ("CLIENT" ∷ "TEXT" ∷ text ∷ []) c
        ≡ ok (record c { alive = false }, [])
  unfolding handle_user_input
  text_gives_up text h =
      rw (attempt_fails sends 10 0 ("CREW" ∷ "TEXT" ∷ text ∷ []) (λ j _ q. h j (omega arith)))

-- Whether one of the first calls succeeds.
unfoldable pub any_below : ℕ → (ℕ → Bool) → Bool
any_below zero sends = false
any_below (suc n) sends = any_below n sends || sends n

some_below :
    (n : ℕ) (sends : ℕ → Bool) → any_below n sends ≡ true → (j : ℕ) × (j < n) × (sends j ≡ true)
unfolding any_below
some_below zero sends h = cc
some_below (suc n) sends h = elim (Bool-cases (sends n)) [
  | inl last ↦ (n, omega arith, last)
  | inr fails ↦
      let (j, below, reached) = some_below n sends (ground arith) in (j, omega arith, reached)
]

none_below :
    (n : ℕ) (sends : ℕ → Bool) → any_below n sends ≡ false → (j : ℕ) → j < n → sends j ≡ false
unfolding any_below
none_below zero sends h j below = absurd (omega arith)
none_below (suc n) sends h j below = ground (arith, none_below n sends _ j)

-- What the client does with a text depends only on whether one of the first ten calls that send it
-- succeeds: if so, it is sent exactly once and the client stays as it is; if not, nothing is sent and
-- the client dies.
pub text_outcome :
    (sends : ℕ → Bool) (c : Client) (text : String)
    → handle_user_input sends ("CLIENT" ∷ "TEXT" ∷ text ∷ []) c
      ≡ ok (
          if any_below 10 sends
          then (c, sent ("CREW" ∷ "TEXT" ∷ text ∷ []) ∷ [])
          else (record c { alive = false }, []))
text_outcome sends c text = elim (Bool-cases (any_below 10 sends)) [
  | inl reached ↦
      let (j, below, reaches) = some_below 10 sends reached in
      rw reached (text_sent_once sends c text j below reaches)
  | inr lost ↦ rw lost (text_gives_up sends c text (none_below 10 sends lost))
]
