-- ===== src/Gateway/Broker/Laws.antt =====
-- The broker stays live, and delivers an event once to each subscriber with room.
use go_folio.Prelude.{
  ◌≡◌, ◌∷◌, [], some, ℕ, List, true, false, Bool, refl, arith, length, if◌then◌else◌, ◌<◌, ◌≤◌, eqb,
  ltb, ◌++◌, length-append, Bool-cases, inl, subst, eqb_iff, inr, sym, ◌∙◌, ap,
}
use go_folio.Gateway.Broker.{
  Broker, try_send, StockEvent, send_all, Channel, with_channel, capacity, delete, subscribe,
  receive, new_broker, publish, take_oldest,
}

unfoldable pub is_client : ℕ → List ℕ → Bool
is_client k [] = false
is_client k (ch ∷ chs) = if eqb ch k then true else is_client k chs

abbrev pub IsUnique : List ℕ → Type 0
IsUnique [] = Unit
IsUnique (ch ∷ chs) = (is_client ch chs ≡ false) × IsUnique chs

-- The clients are open channels that were made, each listed once, and no buffer is over its capacity.
pub record IsLive (b : Broker) : Type 0 where
  pub unique : IsUnique b.clients
  pub is_open : (ch : ℕ) → is_client ch b.clients ≡ true → (b.store ch).closed ≡ false
  pub known : (ch : ℕ) → is_client ch b.clients ≡ true → ch < b.made
  pub bounded : (ch : ℕ) → length (b.store ch).buffer ≤ capacity

-- What a send makes of an open channel.
abbrev pub delivered : StockEvent → Channel → Channel
delivered event c =
    if ltb (length c.buffer) capacity then record c { buffer = c.buffer ++ event ∷ [] } else c

pub try_send-open :
    (event : StockEvent) (c : Channel)
    → c.closed ≡ false
    → try_send event c ≡ some (delivered event c)
unfolding try_send
try_send-open event c e = rw e refl

pub delivered-closed : (event : StockEvent) (c : Channel) → (delivered event c).closed ≡ c.closed
delivered-closed event c = ground arith

pub delivered-bounded :
    (event : StockEvent) (c : Channel)
    → length c.buffer ≤ capacity
    → length (delivered event c).buffer ≤ capacity
delivered-bounded event c h = ground (arith, length-append c.buffer (event ∷ []))

send_all-delivers :
    (event : StockEvent) (chs : List ℕ) (store : ℕ → Channel)
    → IsUnique chs
    → ((ch : ℕ) → is_client ch chs ≡ true → (store ch).closed ≡ false)
    → (after : ℕ → Channel) × (send_all event chs store ≡ some after)
      × ((k : ℕ) → after k ≡ (if is_client k chs then delivered event (store k) else store k))
unfolding send_all is_client
send_all-delivers event [] store u o = (store, refl, λ k. refl)
send_all-delivers event (ch ∷ chs) store u o =
    let first = delivered event (store ch) in
    let next = with_channel ch first store in
    let sent = try_send-open event (store ch) (o ch (ground arith)) in
    let still = λ (k : ℕ) (e : is_client k chs ≡ true).
      let was : (store k).closed ≡ false = o k (ground arith) in
      let now : (next k).closed ≡ false = ground (arith, delivered-closed event (store ch)) in
      now in
    let (after, ran, spec) = send_all-delivers event chs next u.1 still in
    (
      after,
      rw (sent, send_all) ran,
      λ k. elim (Bool-cases (eqb ch k)) [
        | inl same ↦
            let key : ch ≡ k = (eqb_iff ch k).0 same in
            let out : is_client k chs ≡ false = subst (λ j. is_client j chs ≡ false) key u.0 in
            rw same (
              spec k
              ∙ ap (λ b. if b then delivered event (next k) else next k) out
              ∙ ap (λ b. if b then first else store k) same
              ∙ ap (λ (j : ℕ). delivered event (store j)) key)
        | inr differs ↦ rw differs (
            spec k
            ∙ ap (λ (c : Channel). if is_client k chs then delivered event c else c)
                (ap (λ b. if b then first else store k) differs))
      ],
    )

module _ (event : StockEvent) (b : Broker) (live : IsLive b) where
  -- Publishing to live subscribers never panics; each subscriber with room gets the event once, behind
  -- what it holds; one whose buffer is full, and every other channel, stays as it was; and the
  -- subscribers stay the same.
  pub publish-delivers :
      (b' : Broker) × (publish event b ≡ some b')
      × (b'.clients ≡ b.clients)
      × (b'.made ≡ b.made)
      × ((k : ℕ)
          → b'.store k ≡ (if is_client k b.clients then delivered event (b.store k) else b.store k))
  unfolding publish
  publish-delivers =
      let (after, ran, spec) = send_all-delivers event b.clients b.store live.unique live.is_open in
      (record b { store = after }, rw (ran, publish), refl, refl, spec)

  publish-IsLive : (b' : Broker) → publish event b ≡ some b' → IsLive b'
  publish-IsLive b' e =
      let (after, ran, clients, made, spec) = publish-delivers in
      let same : after ≡ b' = cc in
      subst IsLive same (record {
        unique = subst IsUnique (sym clients) live.unique;
        is_open = λ ch m.
            let was = live.is_open ch (subst (λ cs. is_client ch cs ≡ true) clients m) in
            ground (arith, spec ch, delivered-closed event (b.store ch));
        known = λ ch m.
            subst (λ n. ch < n) (sym made)
              (live.known ch (subst (λ cs. is_client ch cs ≡ true) clients m));
        bounded =
            λ ch. ground (arith, spec ch, live.bounded ch, delivered-bounded event (b.store ch));
      })

pub new_broker-IsLive : IsLive new_broker
unfolding new_broker is_client
new_broker-IsLive = record {
  unique = tt;
  is_open = λ ch m. cc;
  known = λ ch m. absurd (cc);
  bounded = λ ch. omega arith;
}

pub is_client-lt :
    (n : ℕ) (chs : List ℕ) → ((ch : ℕ) → is_client ch chs ≡ true → ch < n) → is_client n chs ≡ false
is_client-lt n chs known = elim (Bool-cases (is_client n chs)) [
  | inl member ↦ absurd (omega (arith, known n member))
  | inr out ↦ out
]

pub subscribe-IsLive : (b : Broker) → IsLive b → IsLive (subscribe b).0
unfolding subscribe is_client
subscribe-IsLive b live = record {
  unique = (is_client-lt b.made b.clients live.known, live.unique);
  is_open = λ ch m. ground (arith, live.is_open ch);
  known = λ ch m. ground (arith, live.known ch);
  bounded = λ ch. ground (arith, live.bounded ch);
}

pub is_client-delete :
    (k ch : ℕ) (chs : List ℕ)
    → is_client k (delete ch chs) ≡ (if eqb ch k then false else is_client k chs)
unfolding is_client delete
is_client-delete k ch [] = ground arith
is_client-delete k ch (c ∷ cs) = ground (arith, is_client-delete k ch cs)

pub delete-IsUnique : (ch : ℕ) (chs : List ℕ) → IsUnique chs → IsUnique (delete ch chs)
unfolding delete
delete-IsUnique ch [] u = tt
delete-IsUnique ch (c ∷ cs) u = ground (arith, delete-IsUnique ch cs u.1, is_client-delete c ch cs)

pub delete-IsLive :
    (ch : ℕ) (b : Broker) → IsLive b → IsLive (record b { clients = delete ch b.clients })
delete-IsLive ch b live = record {
  unique = delete-IsUnique ch b.clients live.unique;
  is_open = λ k m. ground (arith, live.is_open k, is_client-delete k ch b.clients);
  known = λ k m. ground (arith, live.known k, is_client-delete k ch b.clients);
  bounded = live.bounded;
}

-- A channel gets a new state that is open, or is no client's.
pub with_channel-IsLive :
    (ch : ℕ) (c : Channel) (b : Broker)
    → length c.buffer ≤ capacity
    → (is_client ch b.clients ≡ true → c.closed ≡ false)
    → IsLive b
    → IsLive (record b { store = with_channel ch c b.store })
with_channel-IsLive ch c b small open_client live = record {
  unique = live.unique;
  is_open = λ k m. elim (Bool-cases (eqb ch k)) [
    | inl same ↦
        let key : ch ≡ k = (eqb_iff ch k).0 same in
        rw same (open_client (subst (λ j. is_client j b.clients ≡ true) (sym key) m))
    | inr differs ↦ rw differs (live.is_open k m)
  ];
  known = live.known;
  bounded = λ k. ground (arith, live.bounded k);
}

take_oldest-IsLive :
    (ch : ℕ) (b : Broker) (buffer : List StockEvent)
    → length buffer ≤ capacity
    → IsLive b
    → IsLive (take_oldest ch b buffer).1
unfolding take_oldest
take_oldest-IsLive ch b [] h live = live
take_oldest-IsLive ch b (event ∷ rest) h live = record {
  unique = live.unique;
  is_open = λ k m. ground (arith, live.is_open k m);
  known = live.known;
  bounded = λ k. ground (arith, live.bounded k);
}

pub receive-IsLive : (ch : ℕ) (b : Broker) → IsLive b → IsLive (receive ch b).1
unfolding receive
receive-IsLive ch b live = take_oldest-IsLive ch b (b.store ch).buffer (live.bounded ch) live
