-- ===== src/Dispatcher/Calls/Events.antt =====
-- What is done with one event of src/lib/dispatcher.cc, and the calls about its socket.
use queryperfpp.Base.{
  Gives, ℕ, ◌+◌, ◌≤◌, ◌≡◌, refl, sym, ap, ◌∙◌, Bool, true, false, Bool-cases, inl, inr, some, ◌∷◌,
  ◌++◌, ◌==◌, arith, Result, ok, err,
}
use queryperfpp.Dispatcher.Types.{QueryEvent, Dispatcher, Focus}
use queryperfpp.Dispatcher.Query.{stop_manager, record_call}
use queryperfpp.Dispatcher.Loop.{
  Split, is_event, clear_socket_of, put_back, drop_event, delete_event, splice_end, count_completed,
  set_outstanding,
}
use queryperfpp.Dispatcher.Invariant.Callbacks.{
  socket_cleared, clear_socket_of-ok, clear_socket_of-err,
}
use queryperfpp.Dispatcher.Calls.{
  replay, count, held, count-append, held-append, held-count, phase_by, one_if, Conforms,
}
use queryperfpp.Dispatcher.Calls.Sending.{Follows}

eq_of_same : (a b : ℕ) → (a == b) ≡ true → a ≡ b
eq_of_same a b e = ground arith

module _ {C R : Type 0} where
  -- One event is replaced, or put elsewhere, and the calls are about its sockets.
  pub changed-Conforms :
      (d d' : Dispatcher C R) (s : Split (QueryEvent C)) (e : QueryEvent C)
      → Conforms d
      → d.outstanding ≡ s.before ++ s.found ∷ s.after
      → e.ident ≡ s.found.ident
      → ((i : ℕ) → count i d'.outstanding ≤ count i (e ∷ (s.before ++ s.after)))
      → ((i : ℕ) → held i d'.outstanding ≡ held i (e ∷ (s.before ++ s.after)))
      → ((i : ℕ)
          → (s.found.ident == i) ≡ false
          → replay i d'.manager.calls ≡ replay i d.manager.calls)
      → (replay s.found.ident d.manager.calls ≡ some (phase_by (one_if s.found.tcp_sock))
          → replay s.found.ident d'.manager.calls ≡ some (phase_by (one_if e.tcp_sock)))
      → Conforms d'
  changed-Conforms d d' s e conforms split same counts helds others own = record {
    distinct = λ i.
        omega
          (arith, counts i, one_of i, was i, count-append i s.before s.after, conforms.distinct i);
    sockets = λ i. elim (Bool-cases (s.found.ident == i)) [
      | inl mine ↦
          let here = eq_of_same s.found.ident i mine in
          rw (← here) (
            own (
              conforms.sockets s.found.ident
              ∙ ap (λ (n : ℕ). some (phase_by n)) (alone s.found.ident refl))
            ∙ ap (λ (n : ℕ). some (phase_by n)) (sym (now s.found.ident refl)))
      | inr other ↦
          others i other
          ∙ conforms.sockets i
          ∙ ap (λ (n : ℕ). some (phase_by n)) (sym (kept i other))
    ];
  }
    where
      was : (i : ℕ) → count i d.outstanding ≡ count i s.before + count i (s.found ∷ s.after)
      was i = ap (count i) split ∙ count-append i s.before (s.found ∷ s.after)

      was_held : (i : ℕ) → held i d.outstanding ≡ held i s.before + held i (s.found ∷ s.after)
      was_held i = ap (held i) split ∙ held-append i s.before (s.found ∷ s.after)

      -- No other event of the list has its number.
      alone : (i : ℕ) → s.found.ident ≡ i → held i d.outstanding ≡ one_if s.found.tcp_sock
      alone i here = ground (
        arith,
        was i,
        was_held i,
        conforms.distinct i,
        held-count i s.before,
        held-count i s.after,
      )

      now : (i : ℕ) → s.found.ident ≡ i → held i d'.outstanding ≡ one_if e.tcp_sock
      now i here = ground (
        arith,
        was i,
        helds i,
        conforms.distinct i,
        held-count i s.before,
        held-count i s.after,
        held-append i s.before s.after,
      )

      kept : (i : ℕ) → (s.found.ident == i) ≡ false → held i d'.outstanding ≡ held i d.outstanding
      kept i other = ground (arith, was_held i, helds i, held-append i s.before s.after)

      one_of : (i : ℕ) → one_if (is_event i e) ≡ one_if (is_event i s.found)
      one_of i = rw same refl

  -- What changes no socket and no event.
  pub same-Conforms :
      (d d' : Dispatcher C R)
      → d'.outstanding ≡ d.outstanding
      → ((i : ℕ) → replay i d'.manager.calls ≡ replay i d.manager.calls)
      → Conforms d
      → Conforms d'
  same-Conforms d d' events calls conforms = record {
    distinct = λ i. rw events (conforms.distinct i);
    sockets = λ i. rw events (calls i ∙ conforms.sockets i);
  }

  abbrev pub Conforming : Unit {0} → Dispatcher C R → Type 0
  Conforming _ d = Conforms d

  pub count_completed-Conforms :
      (answered : Bool) (d : Dispatcher C R) → Conforms d → Conforms (count_completed answered d)
  unfolding count_completed
  count_completed-Conforms true d conforms = same-Conforms d _ refl (λ _. refl) conforms
  count_completed-Conforms false d conforms = conforms

  module _ (s : Split (QueryEvent C)) (d : Dispatcher C R) (conforms : Conforms d)
      (split : d.outstanding ≡ s.before ++ s.found ∷ s.after) where
    pub put_back-Conforms :
        (x : Result (Unit {0}) × Focus C R)
        → Gives (Follows (record { event = s.found; disp = d })) x
        → Gives Conforming (put_back s x)
    unfolding put_back splice_end
    put_back-Conforms (err e, g) f = tt
    put_back-Conforms (ok u, g) f =
        changed-Conforms d (set_outstanding (g.event ∷ (s.after ++ s.before)) g.disp) s g.event
          conforms split f.ident
          (λ i. omega (arith, count-append i s.after s.before, count-append i s.before s.after))
          (λ i. omega (arith, held-append i s.after s.before, held-append i s.before s.after))
          f.others f.own

    -- An event that is deleted deletes its socket.
    pub drop_event-Conforms : Conforms (drop_event s d)
    unfolding drop_event delete_event stop_manager record_call
    drop_event-Conforms =
        changed-Conforms d (drop_event s d) s (record (s.found) { tcp_sock = false }) conforms split
          refl (λ i. ground (arith, dropped, count-append i s.before s.after))
          (λ i. ground (arith, dropped)) (λ i other. ground (arith, other))
          (λ own. ground (arith, own))
      where
        dropped : (drop_event s d).outstanding ≡ s.before ++ s.after
        dropped = ground arith

    socket_cleared-Conforms : s.found.tcp_sock ≡ true → Conforms (socket_cleared s d)
    unfolding socket_cleared record_call
    socket_cleared-Conforms holding =
        changed-Conforms d (socket_cleared s d) s (record (s.found) { tcp_sock = false }) conforms
          split refl
          (λ i. omega (
            arith,
            count-append i s.before (record (s.found) { tcp_sock = false } ∷ s.after),
            count-append i s.before s.after,
          ))
          (λ i. omega (
            arith,
            held-append i s.before (record (s.found) { tcp_sock = false } ∷ s.after),
            held-append i s.before s.after,
          ))
          (λ i other. ground (arith, other)) (λ own. ground (arith, own, holding))

    pub clear_socket_of-Conforms : Gives Conforming (clear_socket_of s d)
    clear_socket_of-Conforms = elim (Bool-cases s.found.tcp_sock) [
      | inl e ↦ rw (clear_socket_of-ok s d e) (socket_cleared-Conforms e)
      | inr e ↦ rw (clear_socket_of-err s d e) tt
    ]
