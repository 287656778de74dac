-- ===== src/Gateway/Broker/Threads/Laws.antt =====
-- No goroutine on the broker panics, in any interleaving of their steps.
use go_folio.Gateway.Broker.Threads.{
  Threads, with_turn, IsUnlocked, Step, join, leave, shut, enter, send, exit, take, init, Reach,
  start, next, Panic, send_on_closed, close_of_closed,
}
use go_folio.Gateway.Broker.{
  Broker, StockEvent, Channel, with_channel, subscribe, unsubscribe, locked, unlocked, try_send,
  receive, take_oldest, delete, capacity,
}
use go_folio.Gateway.Broker.Laws.{
  is_client, IsUnique, IsLive, is_client-delete, delete-IsUnique, delete-IsLive,
  with_channel-IsLive, subscribe-IsLive, receive-IsLive, new_broker-IsLive, try_send-open,
  delivered, delivered-closed, delivered-bounded,
}
use go_folio.Prelude.{
  ◌≡◌, ◌∙◌, ◌≤◌, ◌<◌, length, refl, sym, subst, ℕ, eqb, Option, none, some, true, false, List, [],
  ◌∷◌, arith, Bool-cases, inl, inr,
}

-- A channel that is to be closed is open, was made, and is no client's.
abbrev pub IsLeaving : Broker → ℕ → Type 0
IsLeaving b ch = (is_client ch b.clients ≡ false) × ((b.store ch).closed ≡ false) × (ch < b.made)

-- The broker is live; each channel that is to be closed is so once; publishers have clients before them.
pub record IsSafe (t : Threads) : Type 0 where
  pub live : IsLive t.broker
  pub once : IsUnique t.leaving
  pub apart : (ch : ℕ) → is_client ch t.leaving ≡ true → IsLeaving t.broker ch
  pub ahead :
      (k : ℕ) (event : StockEvent) (rest : List ℕ)
      → t.turns k ≡ some (event, rest)
      → (ch : ℕ) → is_client ch rest ≡ true
      → is_client ch t.broker.clients ≡ true

init-IsSafe : IsSafe init
unfolding is_client
init-IsSafe = record {
  live = new_broker-IsLive;
  once = tt;
  apart = λ ch m. absurd (cc);
  ahead = λ k event rest e ch m. absurd (cc);
}

module _ (t : Threads) (s : IsSafe t) where
  join-IsSafe : IsUnlocked t → IsSafe (record t { broker = (subscribe t.broker).0 })
  unfolding subscribe is_client
  join-IsSafe free = record {
    live = subscribe-IsLive t.broker s.live;
    once = s.once;
    apart = λ ch m. ground (arith, s.apart ch m);
    ahead = λ k event rest e ch m. absurd (let none_yet = free k in cc);
  }

  leave-IsSafe :
      (b : Broker) (ch : ℕ)
      → IsUnlocked t
      → is_client ch t.broker.clients ≡ true
      → unsubscribe locked ch t.broker ≡ some b
      → IsSafe (record t { broker = b; leaving = ch ∷ t.leaving })
  unfolding unsubscribe is_client
  leave-IsSafe b ch free client e =
      let left : record t.broker { clients = delete ch t.broker.clients } ≡ b = cc in
      subst (λ b. IsSafe (record t { broker = b; leaving = ch ∷ t.leaving })) left
        (record {
          live = delete-IsLive ch t.broker s.live;
          once = (
            elim (Bool-cases (is_client ch t.leaving)) [
              | inl twice ↦ absurd (let apart = (s.apart ch twice).0 in cc)
              | inr first ↦ first
            ],
            s.once,
          );
          apart = λ k m. ground (
            arith,
            s.apart k,
            s.live.is_open k,
            s.live.known k,
            is_client-delete k ch t.broker.clients,
            client,
          );
          ahead = λ k event rest turn j m. absurd (let none_yet = free k in cc);
        })

  shut-IsSafe :
      (b : Broker) (ch : ℕ)
      → is_client ch t.leaving ≡ true
      → unsubscribe unlocked ch t.broker ≡ some b
      → IsSafe (record t { broker = b; leaving = delete ch t.leaving })
  unfolding unsubscribe
  shut-IsSafe b ch leaver e =
      let (apart, still_open, made) = s.apart ch leaver in
      let c : Channel = record (t.broker.store ch) { closed = true } in
      let left : record t.broker { store = with_channel ch c t.broker.store } ≡ b = ground arith in
      subst (λ b. IsSafe (record t { broker = b; leaving = delete ch t.leaving })) left
        (record {
          live =
              with_channel-IsLive ch c t.broker (s.live.bounded ch) (λ client. absurd (cc)) s.live;
          once = delete-IsUnique ch t.leaving s.once;
          apart = λ k m. ground (arith, s.apart k, is_client-delete k ch t.leaving);
          ahead = s.ahead;
        })

  enter-IsSafe :
      (k : ℕ) (event : StockEvent)
      → IsSafe (record t { turns = with_turn k (some (event, t.broker.clients)) t.turns })
  enter-IsSafe k event = record {
    live = s.live;
    once = s.once;
    apart = s.apart;
    ahead = λ j event' rest e ch m. elim (Bool-cases (eqb k j)) [
      | inl same ↦
          let here : Path (Option (StockEvent × List ℕ)) (some (event, t.broker.clients))
              (some (event', rest)) =
            (rw same at e) in
          let all : t.broker.clients ≡ rest = cc in subst (λ cs. is_client ch cs ≡ true) (sym all) m
      | inr differs ↦ s.ahead j event' rest (rw differs at e) ch m
    ];
  }

  send-IsSafe :
      (c : Channel) (k : ℕ) (event : StockEvent) (ch : ℕ) (rest : List ℕ)
      → t.turns k ≡ some (event, ch ∷ rest)
      → try_send event (t.broker.store ch) ≡ some c
      → IsSafe (record t {
        broker = record t.broker { store = with_channel ch c t.broker.store };
        turns = with_turn k (some (event, rest)) t.turns;
      })
  unfolding is_client
  send-IsSafe c k event ch rest turn sent =
      let client = s.ahead k event (ch ∷ rest) turn ch (ground arith) in
      let was = s.live.is_open ch client in
      let same : delivered event (t.broker.store ch) ≡ c =
        (let ran = try_send-open event (t.broker.store ch) was in cc) in
      let still : c.closed ≡ false =
        subst (λ c. c.closed ≡ false) same (delivered-closed event (t.broker.store ch) ∙ was) in
      record {
        live =
            with_channel-IsLive ch c t.broker
              (subst (λ c. length c.buffer ≤ capacity) same
                (delivered-bounded event (t.broker.store ch) (s.live.bounded ch)))
              (λ m. still) s.live;
        once = s.once;
        apart = λ j m. ground (arith, s.apart j m, still);
        ahead = λ j event' rest' e i m. elim (Bool-cases (eqb k j)) [
          | inl here ↦
              let now : Path (Option (StockEvent × List ℕ)) (some (event, rest))
                  (some (event', rest')) =
                (rw here at e) in
              let all : rest ≡ rest' = cc in
              let later : is_client i rest ≡ true =
                subst (λ cs. is_client i cs ≡ true) (sym all) m in
              s.ahead k event (ch ∷ rest) turn i (ground arith)
          | inr differs ↦ s.ahead j event' rest' (rw differs at e) i m
        ];
      }

  exit-IsSafe : (k : ℕ) → IsSafe (record t { turns = with_turn k none t.turns })
  exit-IsSafe k = record {
    live = s.live;
    once = s.once;
    apart = s.apart;
    ahead = λ j event rest e ch m. elim (Bool-cases (eqb k j)) [
      | inl same ↦ absurd (let gone : none ≡ some (event, rest) = (rw same at e) in cc)
      | inr differs ↦ s.ahead j event rest (rw differs at e) ch m
    ];
  }

  -- A receive changes no more than a buffer.
  take_oldest-IsLeaving :
      (ch k : ℕ) (buffer : List StockEvent)
      → IsLeaving t.broker k
      → IsLeaving (take_oldest ch t.broker buffer).1 k
  unfolding take_oldest
  take_oldest-IsLeaving ch k [] h = h
  take_oldest-IsLeaving ch k (event ∷ rest) h = ground (arith, h)

  take_oldest-clients :
      (ch : ℕ) (buffer : List StockEvent)
      → (take_oldest ch t.broker buffer).1.clients ≡ t.broker.clients
  unfolding take_oldest
  take_oldest-clients ch [] = refl
  take_oldest-clients ch (event ∷ rest) = refl

  take-IsSafe : (ch : ℕ) → IsSafe (record t { broker = (receive ch t.broker).1 })
  unfolding receive
  take-IsSafe ch = record {
    live = receive-IsLive ch t.broker s.live;
    once = s.once;
    apart = λ k m. take_oldest-IsLeaving ch k (t.broker.store ch).buffer (s.apart k m);
    ahead = λ k event rest e j m.
        subst (λ cs. is_client j cs ≡ true)
          (sym (take_oldest-clients ch (t.broker.store ch).buffer)) (s.ahead k event rest e j m);
  }

Step-IsSafe : (t u : Threads) → Step t u → IsSafe t → IsSafe u
Step-IsSafe t u (join free) s = join-IsSafe t s free
Step-IsSafe t u (leave {b} ch free client e) s = leave-IsSafe t s b ch free client e
Step-IsSafe t u (shut {b} ch leaver e) s = shut-IsSafe t s b ch leaver e
Step-IsSafe t u (enter k event e) s = enter-IsSafe t s k event
Step-IsSafe t u (send {c} k event ch rest turn sent) s = send-IsSafe t s c k event ch rest turn sent
Step-IsSafe t u (exit k event e) s = exit-IsSafe t s k
Step-IsSafe t u (take ch) s = take-IsSafe t s ch

pub Reach-IsSafe : (t : Threads) → Reach t → IsSafe t
Reach-IsSafe t start = init-IsSafe
Reach-IsSafe t (next {t = before} r step) = Step-IsSafe before t step (Reach-IsSafe before r)

-- From an empty broker, in whatever order the steps of the handlers come (subscribing, the two halves
-- of Unsubscribe, the single sends of any number of publishers, receiving), no publisher is about to
-- send on a closed channel, and no handler is about to close one.
pub Reach-never_panics : (t : Threads) → Reach t → Panic t → ⊥
unfolding unsubscribe is_client
Reach-never_panics t r (send_on_closed k event ch rest turn e) =
    let s = Reach-IsSafe t r in
    let client = s.ahead k event (ch ∷ rest) turn ch (ground arith) in
    let ran = try_send-open event (t.broker.store ch) (s.live.is_open ch client) in absurd (cc)
Reach-never_panics t r (close_of_closed ch leaver e) =
    let s = Reach-IsSafe t r in let still = (s.apart ch leaver).1 in ground arith
