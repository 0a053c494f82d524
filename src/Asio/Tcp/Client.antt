-- ===== src/Asio/Tcp/Client.antt =====
-- A `TCPMessageSocket` of src/lib/asio_message_manager.cc in the hands of a client that keeps to the
-- interface of src/lib/message_manager.h.
use queryperfpp.Base.{
  Bool, true, is_nil, ◌≡◌, refl, ◌∙◌, false, List, [], ◌∷◌, ◌++◌, Text, arith, Result, ok, err,
  ◌>>◌,
}
use queryperfpp.Asio.Tcp.{
  TcpSocket, TcpStep, client_send, client_delete, connected, written, length_read, data_read,
  new_tcp, perform, perform_all, send_query_over, cancel, cancel_check, send_callback,
  handle_connect, handle_write, handle_read_length, handle_read_data, start_message, keep_first,
}
use queryperfpp.Asio.Tcp.Lifetime.{Allowed, IsSafe, Leaves, perform-Leaves, new_tcp-IsSafe}
use queryperfpp.Asio.Tcp.Released.{AllAllowed}

-- What a client does with one socket: it sends a query or not, and deletes it or not yet.
pub data IsLife : List TcpStep → Type 0 where
  untouched : IsLife []
  sent : (bytes : Text) → IsLife (client_send bytes ∷ [])
  sent_deleted : (bytes : Text) → IsLife (client_send bytes ∷ client_delete ∷ [])
  unsent_deleted : IsLife (client_delete ∷ [])

-- The steps of the client among others, and the steps of asio.
abbrev pub client_part : List TcpStep → List TcpStep
client_part [] = []
client_part (client_send bytes ∷ es) = client_send bytes ∷ client_part es
client_part (client_delete ∷ es) = client_delete ∷ client_part es
client_part (connected ec ∷ es) = client_part es
client_part (written ec shut ∷ es) = client_part es
client_part (length_read ec bytes ∷ es) = client_part es
client_part (data_read ec bytes ∷ es) = client_part es

-- A life that has come to its end.
abbrev pub gives_up : List TcpStep → Bool
gives_up [] = false
gives_up (client_delete ∷ es) = true
gives_up (e ∷ es) = gives_up es

abbrev pub CompletionAllowed : TcpStep → TcpSocket → Type 0
CompletionAllowed (client_send bytes) s = Unit
CompletionAllowed client_delete s = Unit
CompletionAllowed (connected ec) s = Allowed (connected ec) s
CompletionAllowed (written ec shut) s = Allowed (written ec shut) s
CompletionAllowed (length_read ec bytes) s = Allowed (length_read ec bytes) s
CompletionAllowed (data_read ec bytes) s = Allowed (data_read ec bytes) s

-- asio completes only what is pending, whatever the client does in between.
abbrev pub CompletionsAllowed : List TcpStep → TcpSocket → Type 0
CompletionsAllowed [] s = Unit
CompletionsAllowed (e ∷ es) s = CompletionAllowed e s × CompletionsAllowed es (perform e s).1

-- The client may still send.
abbrev sends : List TcpStep → Bool
sends (client_send bytes ∷ es) = true
sends _ = false

-- What is left to the client can still be done.
record Awaits (r : List TcpStep) (s : TcpSocket) : Type 0 where
  life : IsLife r
  kept : is_nil r ≡ false → s.released ≡ false
  unopened : sends r ≡ true → s.is_open ≡ false

-- asio neither releases a socket nor opens or closes it.
Awaits-same :
    (r : List TcpStep) (s t : TcpSocket)
    → t.released ≡ s.released
    → t.is_open ≡ s.is_open
    → Awaits r s
    → Awaits r t
Awaits-same r s t released is_open a = record {
  life = a.life;
  kept = λ e. released ∙ a.kept e;
  unopened = λ e. is_open ∙ a.unopened e;
}

after_send :
    (bytes : Text) (r : List TcpStep)
    → IsLife (client_send bytes ∷ r)
    → IsLife r × (sends r ≡ false)
after_send bytes [] life = (untouched, refl)
after_send bytes (client_delete ∷ []) life = (unsent_deleted, refl)
after_send bytes (client_delete ∷ e ∷ r) life = elim life [ ]
after_send bytes (client_send bytes' ∷ r) life = elim life [ ]
after_send bytes (connected ec ∷ r) life = elim life [ ]
after_send bytes (written ec shut ∷ r) life = elim life [ ]
after_send bytes (length_read ec text ∷ r) life = elim life [ ]
after_send bytes (data_read ec text ∷ r) life = elim life [ ]

after_delete : (r : List TcpStep) → IsLife (client_delete ∷ r) → r ≡ []
after_delete [] life = refl
after_delete (e ∷ r) life = elim life [ ]

-- The next step can happen, and what is left then can still be done.
next_step :
    (e : TcpStep) (es rest : List TcpStep) (s : TcpSocket)
    → Awaits (client_part (e ∷ es) ++ rest) s
    → CompletionAllowed e s
    → Allowed e s × Awaits (client_part es ++ rest) (perform e s).1
unfolding perform send_query_over cancel cancel_check send_callback handle_connect handle_write
    handle_read_length handle_read_data start_message keep_first
next_step (client_send bytes) es rest s a c =
    let (life, over) = after_send bytes (client_part es ++ rest) a.life in
    (
      (a.kept refl, a.unopened refl),
      record { life = life; kept = λ _. a.kept refl; unopened = λ e. absurd (cc) },
    )
next_step client_delete es rest s a c =
    let over = after_delete (client_part es ++ rest) a.life in
    (
      a.kept refl,
      rw over (record { life = untouched; kept = λ e. absurd (cc); unopened = λ e. absurd (cc) }),
    )
next_step (connected ec) es rest s a c =
    (c, Awaits-same (client_part es ++ rest) s _ (ground arith) (ground arith) a)
next_step (written ec shut) es rest s a c =
    (c, Awaits-same (client_part es ++ rest) s _ (ground arith) (ground arith) a)
next_step (length_read ec bytes) es rest s a c =
    (c, Awaits-same (client_part es ++ rest) s _ (ground arith) (ground arith) a)
next_step (data_read ec bytes) es rest s a c =
    (c, Awaits-same (client_part es ++ rest) s _ (ground arith) (ground arith) a)

all_steps :
    (es rest : List TcpStep) (s : TcpSocket)
    → Awaits (client_part es ++ rest) s
    → CompletionsAllowed es s
    → AllAllowed es s
all_steps [] rest s a c = tt
all_steps (e ∷ es) rest s a (c, later) =
    let (allowed, a') = next_step e es rest s a c in
    (allowed, all_steps es rest (perform e s).1 a' later)

-- Steps that can happen keep a socket safe, up to the first that throws.
pub perform_all-Leaves :
    (es : List TcpStep) (s : TcpSocket) → IsSafe s → AllAllowed es s → Leaves (perform_all es s)
unfolding perform_all
perform_all-Leaves [] s v a = v
perform_all-Leaves (e ∷ es) s v (a, later) =
    go (perform e s).0 (perform e s).1 (perform-Leaves e s v a) later λ t. perform_all-Leaves es t
  where
    go :
        (x : Result (Unit {0})) (t : TcpSocket)
        → Leaves (x, t)
        → AllAllowed es t
        → ((t : TcpSocket) → IsSafe t → AllAllowed es t → Leaves (perform_all es t))
        → Leaves (◌>>◌ (λ (_ : TcpSocket). (x, t)) (perform_all es) s)
    go (ok _) t v later rest = rest t v later
    go (err y) t v later rest = v

-- Whatever asio completes in between, a client that sends at most one query and then at most deletes
-- the socket does what can happen, and the socket stays safe.
pub client-Leaves :
    (es rest : List TcpStep)
    → IsLife (client_part es ++ rest)
    → CompletionsAllowed es new_tcp
    → AllAllowed es new_tcp × Leaves (perform_all es new_tcp)
unfolding new_tcp
client-Leaves es rest life c =
    let allowed =
      all_steps es rest new_tcp (record { life = life; kept = λ _. refl; unopened = λ _. refl })
        c in
    (allowed, perform_all-Leaves es new_tcp new_tcp-IsSafe allowed)
