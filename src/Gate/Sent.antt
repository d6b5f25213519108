-- ===== src/Gate/Sent.antt =====
-- What `_forward` has to send for a body.
use rillserver.Prelude.{
  ℕ, ◌^◌, ◌<◌, ◌≤◌, ◌≡◌, ◌⊎◌, inl, inr, refl, ap, sym, subst, ◌∙◌, arith, false, ==_iff, Option,
  some, List, [], ◌∷◌, ◌++◌, ◌==◌, if◌then◌else◌, Bool-cases, append_assoc,
}
use rillserver.Prelude.Int.{pos, negsuc}
use rillserver.DataBuffer.{DataBuffer, databuffer_read}
use rillserver.Gate.Digits.{IsDecimal, digits-append, decimal}
use rillserver.Gate.{
  Route, Send, digits, data_prefix, forward, forward_from, broker_message, agent_message,
  watchdog_message,
}

-- " data "
abbrev pub data_word : List ℕ
data_word = 32 ∷ 100 ∷ 97 ∷ 116 ∷ 97 ∷ 32 ∷ []

-- The message for a body that came from the socket `fd`: the body itself to the broker or, if there
-- is none, to the agent; else the socket in decimal, " data " and the body to the watchdog.
pub data IsSent (to : Route) (fd : ℕ) (body : List ℕ) : Send → Type 0 where
  by_broker :
      1 ≤ to.broker
      → IsSent to fd body (record {
        source = 0;
        destination = to.broker;
        kind = to.client_tag;
        session = fd;
        msg = body;
      })
  by_agent :
      to.broker ≡ 0
      → 1 ≤ to.agent
      → IsSent to fd body (record {
        source = to.client;
        destination = to.agent;
        kind = to.client_tag;
        session = fd;
        msg = body;
      })
  by_watchdog :
      (ds : List ℕ)
      → to.broker ≡ 0
      → to.agent ≡ 0
      → 1 ≤ to.watchdog
      → IsDecimal fd ds
      → IsSent to fd body (record {
        source = 0;
        destination = to.watchdog;
        kind = 0;
        session = fd;
        msg = ds ++ (data_word ++ body);
      })

-- One message for each body, in order.
pub data AllSent (to : Route) (fd : ℕ) : List Send → List (List ℕ) → Type 0 where
  none_sent : AllSent to fd [] []
  and_sent :
      (m : Send) (messages : List Send) (body : List ℕ) (bodies : List (List ℕ))
      → IsSent to fd body m
      → AllSent to fd messages bodies
      → AllSent to fd (m ∷ messages) (body ∷ bodies)

-- The socket is valid, and there is a broker, an agent or a watchdog.
pub record IsServed (to : Route) (fd : ℕ) : Type 0 where
  pub socket : to.id ≡ pos fd
  pub positive : 1 ≤ fd
  pub fits : fd < 2 ^ 31
  pub someone : (1 ≤ to.broker) ⊎ ((1 ≤ to.agent) ⊎ (1 ≤ to.watchdog))

-- What comes of a body that is there.
pub record Forwards (to : Route) (fd : ℕ) (body : List ℕ) (left : DataBuffer)
    (result : Option (List Send × DataBuffer)) : Type 0 where
  pub message : Send
  pub done : result ≡ some (message ∷ [], left)
  pub as_due : IsSent to fd body message

forward-valid :
    (to : Route) (fd : ℕ) (db : DataBuffer) (size : ℕ)
    → to.id ≡ pos fd
    → (fd == 0) ≡ false
    → forward to db size ≡ forward_from fd to db size
unfolding forward
forward-valid to fd db size id valid =
    ap
      (λ z. elim z as (λ y. Option (List Send × DataBuffer)) [
        | negsuc n ↦ some ([], db)
        | pos n ↦ if n == 0 then some ([], db) else forward_from n to db size
      ])
      id
    ∙ rw valid

data_prefix-append :
    (fd : ℕ) (body : List ℕ) → digits 10 fd [] ++ (data_word ++ body) ≡ data_prefix fd ++ body
unfolding data_prefix
data_prefix-append fd body =
    sym (append_assoc (digits 10 fd []) data_word body)
    ∙ ap (λ l. l ++ body) (sym (digits-append 10 fd [] data_word))

-- To somebody, the body is read and sent.
pub forward-Forwards :
    (to : Route) (fd : ℕ) (db left : DataBuffer) (size : ℕ) (body : List ℕ)
    → IsServed to fd
    → databuffer_read db size ≡ some (body, left)
    → Forwards to fd body left (forward to db size)
unfolding forward_from
forward-Forwards to fd db left size body v e =
    subst (Forwards to fd body left)
      (sym (forward-valid to fd db size v.socket (ground (arith, v.positive))))
      (elim (Bool-cases (to.broker == 0)) [
        | inr b ↦
            rw (forward_from, b, e)
              (record {
                message = broker_message to fd body;
                done = refl;
                as_due = by_broker (ground arith);
              })
        | inl b ↦ elim (Bool-cases (to.agent == 0)) [
          | inr a ↦
              rw (forward_from, b, a, e)
                (record {
                  message = agent_message to fd body;
                  done = refl;
                  as_due = by_agent ((==_iff to.broker 0).0 b) (ground arith);
                })
          | inl a ↦ elim (Bool-cases (to.watchdog == 0)) [
            | inr w ↦
                rw (forward_from, b, a, w, e)
                  (record {
                    message = watchdog_message to fd body;
                    done = refl;
                    as_due =
                        subst
                          (λ l. IsSent to fd body (record {
                            source = 0;
                            destination = to.watchdog;
                            kind = 0;
                            session = fd;
                            msg = l;
                          }))
                          (data_prefix-append fd body)
                          (by_watchdog (digits 10 fd []) ((==_iff to.broker 0).0 b)
                            ((==_iff to.agent 0).0 a) (ground arith)
                            (decimal fd v.positive v.fits));
                  })
            | inl w ↦ absurd (elim v.someone [
              | inl up ↦ omega (arith, up, (==_iff to.broker 0).0 b)
              | inr others ↦ elim others [
                | inl up ↦ omega (arith, up, (==_iff to.agent 0).0 a)
                | inr up ↦ omega (arith, up, (==_iff to.watchdog 0).0 w)
              ]
            ])
          ]
        ]
      ])
