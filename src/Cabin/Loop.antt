-- ===== src/Cabin/Loop.antt =====
-- The loop of src/server/Cabin.cpp against the list of the messages that it takes in.
use pirate_servers.Base.{
  ◌≡◌, refl, Bool, true, false, Option, none, some, List, [], ◌∷◌, ◌++◌, arith, ◌∙◌, ap, sym,
}
use mathlib.Core.List.{append-nil, append_assoc}
use pirate_servers.Base.Outcome.{Outcome, ok, err, ok_injective, ◌>>=◌, bind-eq-ok}
use pirate_servers.Wire.{Message}
use pirate_servers.Cabin.Poll.{
  Round, Handler, poll_round, poll_with_control, handle_all, before_control,
}

module _ {S : Type 0} where
  -- What a step sent, and then what the next one does.
  abbrev and_then : (S → Outcome (S × List Message)) → S × List Message → Outcome (S × List Message)
  and_then k x = k x.0 >>= λ y. ok (y.0, x.1 ++ y.1)

  no_output : (m : Outcome (S × List Message)) → (m >>= λ x. ok (x.0, [] ++ x.1)) ≡ m
  no_output (ok p) = refl
  no_output (err e) = refl

  one_socket :
      (m : Outcome (S × List Message)) (k k' : S → Outcome (S × List Message))
      → ((s : S) → k s ≡ k' s)
      → ((m >>= and_then (λ s. ok (s, []))) >>= and_then k) ≡ (m >>= and_then k')
  one_socket (ok p) k k' same = rw (append-nil p.1, same p.0)
  one_socket (err e) k k' same = refl

  abbrev behind : List Message → S × List Message → Outcome (S × List Message)
  behind sent y = ok (y.0, sent ++ y.1)

  behind-append :
      (m : Outcome (S × List Message)) (sent more : List Message)
      → ((m >>= behind more) >>= behind sent) ≡ (m >>= behind (sent ++ more))
  behind-append (ok p) sent more =
      let moved : sent ++ (more ++ p.1) ≡ (sent ++ more) ++ p.1 =
        sym (append_assoc sent more p.1) in
      ap (λ (out : List Message). ok (p.0, out)) moved
  behind-append (err e) sent more = refl

module _ {S : Type 0} (h : Handler S) where
  -- The first message of a list that is handled to its end.
  pub handle_all_split :
      (reqs : Message) (rest : List Message) (s t : S) (out : List Message)
      → handle_all h (reqs ∷ rest) s ≡ ok (t, out)
      → (s' : S) × (sent more : List Message) × (h reqs s ≡ ok (s', sent))
        × (handle_all h rest s' ≡ ok (t, more))
        × (out ≡ sent ++ more)
  unfolding handle_all
  handle_all_split reqs rest s t out e =
      let (p, first, then_rest) = bind-eq-ok (h reqs s) _ e in
      let (q, second, last) = bind-eq-ok (handle_all h rest p.0) _ then_rest in
      (p.0, p.1, q.1, ground arith, ground arith, ground arith)

  -- What comes behind a list that is handled to its end is handled from where that leads.
  handle_all_later :
      (first later : List Message) (s t : S) (out : List Message)
      → handle_all h first s ≡ ok (t, out)
      → handle_all h (first ++ later) s ≡ and_then (handle_all h later) (t, out)
  unfolding handle_all
  handle_all_later [] later s t out e =
      sym (no_output (handle_all h later s)) ∙ ap (and_then (handle_all h later)) (ok_injective e)
  handle_all_later (reqs ∷ first) later s t out e =
      let (s', sent, more, e1, e2, whole) = handle_all_split reqs first s t out e in
      rw (e1, handle_all_later first later s' t more e2, whole)
        (behind-append (handle_all h later t) sent more)

  -- If a whole list is handled to its end, so is its last part.
  pub handle_all_rest :
      (first later : List Message) (s t last : S) (out all : List Message)
      → handle_all h first s ≡ ok (t, out)
      → handle_all h (first ++ later) s ≡ ok (last, all)
      → (more : List Message) × (handle_all h later t ≡ ok (last, more))
  handle_all_rest first later s t last out all e whole =
      let (q, rest, same) =
        bind-eq-ok (handle_all h later t) (behind out)
          (sym (handle_all_later first later s t out e) ∙ whole) in
      let ends : q.0 ≡ last = ap (λ (p : S × List Message). p.0) (ok_injective same) in
      (q.1, rest ∙ ap (λ (x : S). ok (x, q.1)) ends)

  handle_all_single :
      (reqs : Message) (s t : S) (sent : List Message)
      → h reqs s ≡ ok (t, sent)
      → handle_all h (reqs ∷ []) s ≡ ok (t, sent)
  unfolding handle_all
  handle_all_single reqs s t sent e = rw (e, append-nil sent) refl

  pub handle_all_last :
      (first : List Message) (reqs : Message) (s t t' : S) (out sent : List Message)
      → handle_all h first s ≡ ok (t, out)
      → h reqs t ≡ ok (t', sent)
      → handle_all h (first ++ reqs ∷ []) s ≡ ok (t', out ++ sent)
  handle_all_last first reqs s t t' out sent e1 e2 =
      handle_all_later first (reqs ∷ []) s t out e1
      ∙ ap (λ m. m >>= behind out) (handle_all_single reqs t t' sent e2)

  -- A cabin with one socket handles each message that comes before the control message exactly once,
  -- in order, and none that comes later; a handler that faults ends both in the same way.
  pub poll_with_control-handle_all :
      (rounds : List Round) (s : S)
      → poll_with_control true (h ∷ []) rounds s ≡ handle_all h (before_control rounds) s
  unfolding poll_with_control poll_round handle_all before_control
  poll_with_control-handle_all [] s = refl
  poll_with_control-handle_all (r ∷ rs) s = go r.control r.ready (poll_with_control-handle_all rs)
    where
      go :
          (c : Bool) (ready : List (Option Message))
          → ((t : S) → poll_with_control true (h ∷ []) rs t ≡ handle_all h (before_control rs) t)
          → let rounds = record { control = c; ready = ready } ∷ rs in
            poll_with_control true (h ∷ []) rounds s ≡ handle_all h (before_control rounds) s
      go true ready ih = refl
      go false [] ih = no_output _ ∙ ih s
      go false (none ∷ ready) ih = no_output _ ∙ ih s
      go false (some reqs ∷ ready) ih = one_socket (h reqs s) _ _ ih
