-- ===== src/Gateway/Broker/Threads.antt =====
-- The goroutines on one broker of server/gateway-service/internal/sse/broker.go, step by step. Publishers
-- are inside their loops together, under the read lock, one send a step; subscribing, and the first
-- half of Unsubscribe, wait until no publisher is; the close of Unsubscribe and the receives hold no
-- lock and happen at any time. A handler unsubscribes the channel it subscribed, once
-- (internal/server/sse_handler.go).
pub mod Laws
use go_folio.Gateway.Broker.{
  Broker, StockEvent, Channel, with_channel, subscribe, unsubscribe, locked, unlocked, try_send,
  receive, take_oldest, new_broker, delete, capacity,
}
use go_folio.Gateway.Broker.Laws.{
  is_client, IsUnique, IsLive, is_client-delete, delete-IsUnique, delete-IsLive,
  with_channel-IsLive, subscribe-IsLive, receive-IsLive, new_broker-IsLive, try_send-open,
  delivered, delivered-closed, delivered-bounded,
}
use go_folio.Prelude.{
  ◌≡◌, ◌∙◌, ◌≤◌, ◌<◌, length, refl, sym, subst, ℕ, eqb, Option, none, some, true, false, List, [],
  ◌∷◌, arith, if◌then◌else◌, Bool-cases, inl, inr,
}

pub record Threads : Type 0 where
  pub broker : Broker
  -- per publisher inside its loop: its event, and the subscribers it has not reached
  pub turns : ℕ → Option (StockEvent × List ℕ)
  -- the channels whose Unsubscribe is between Unlock and close
  pub leaving : List ℕ

abbrev pub with_turn :
    ℕ
    → Option (StockEvent × List ℕ)
    → (ℕ → Option (StockEvent × List ℕ))
    → ℕ
    → Option (StockEvent × List ℕ)
with_turn k turn turns j = if eqb k j then turn else turns j

-- Nobody holds the read lock.
abbrev pub IsUnlocked : Threads → Type 0
IsUnlocked t = (k : ℕ) → t.turns k ≡ none

pub data Step (t : Threads) : Threads → Type 0 where
  join : IsUnlocked t → Step t (record t { broker = (subscribe t.broker).0 })
  leave :
      {b : Broker} (ch : ℕ)
      → IsUnlocked t
      → is_client ch t.broker.clients ≡ true
      → unsubscribe locked ch t.broker ≡ some b
      → Step t (record t { broker = b; leaving = ch ∷ t.leaving })
  shut :
      {b : Broker} (ch : ℕ)
      → is_client ch t.leaving ≡ true
      → unsubscribe unlocked ch t.broker ≡ some b
      → Step t (record t { broker = b; leaving = delete ch t.leaving })
  enter :
      (k : ℕ) (event : StockEvent)
      → t.turns k ≡ none
      → Step t (record t { turns = with_turn k (some (event, t.broker.clients)) t.turns })
  send :
      {c : Channel} (k : ℕ) (event : StockEvent) (ch : ℕ) (rest : List ℕ)
      → t.turns k ≡ some (event, ch ∷ rest)
      → try_send event (t.broker.store ch) ≡ some c
      → Step t (record t {
        broker = record t.broker { store = with_channel ch c t.broker.store };
        turns = with_turn k (some (event, rest)) t.turns;
      })
  exit :
      (k : ℕ) (event : StockEvent)
      → t.turns k ≡ some (event, [])
      → Step t (record t { turns = with_turn k none t.turns })
  take : (ch : ℕ) → Step t (record t { broker = (receive ch t.broker).1 })

abbrev pub init : Threads
init = record { broker = new_broker; turns = λ k. none; leaving = [] }

pub data Reach : Threads → Type 0 where
  start : Reach init
  next : {t u : Threads} → Reach t → Step t u → Reach u

-- A goroutine is about to send on a closed channel, or to close one.
pub data Panic (t : Threads) : Type 0 where
  send_on_closed :
      (k : ℕ) (event : StockEvent) (ch : ℕ) (rest : List ℕ)
      → t.turns k ≡ some (event, ch ∷ rest)
      → try_send event (t.broker.store ch) ≡ none
      → Panic t
  close_of_closed :
      (ch : ℕ) → is_client ch t.leaving ≡ true → unsubscribe unlocked ch t.broker ≡ none → Panic t
