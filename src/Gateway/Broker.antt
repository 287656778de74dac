-- ===== src/Gateway/Broker.antt =====
-- server/gateway-service/internal/sse/broker.go. A channel is a number; the store gives each channel
-- its buffer and whether it is closed. `none` is a panic: a send on a closed channel, or the close of
-- a closed one. `publish` is the whole loop; Threads takes it send by send.
pub mod Laws
pub mod Threads
use go_folio.Prelude.{
  ℕ, ◌+◌, ℤ, Bool, true, false, Option, none, some, List, [], ◌∷◌, ◌++◌, String, eqb, ltb, length,
  if◌then◌else◌,
}

pub record StockEvent : Type 0 where
  pub event_type : String
  pub sku : String
  pub available : ℤ
  pub reserved : ℤ
  pub status : String
  pub occurred_at : ℕ

pub record Channel : Type 0 where
  pub buffer : List StockEvent
  pub closed : Bool

pub record Broker : Type 0 where
  -- the keys of the map, in the order of its iteration
  pub clients : List ℕ
  pub store : ℕ → Channel
  -- the channels made so far
  pub made : ℕ

abbrev pub capacity : ℕ
capacity = 10

abbrev pub with_channel : ℕ → Channel → (ℕ → Channel) → ℕ → Channel
with_channel ch c store k = if eqb ch k then c else store k

unfoldable pub new_broker : Broker
new_broker = record { clients = []; store = λ _. record { buffer = []; closed = false }; made = 0 }

unfoldable pub subscribe : Broker → Broker × ℕ
subscribe b =
    let ch = b.made in
    let fresh : Channel = record { buffer = []; closed = false } in
    (record { clients = ch ∷ b.clients; store = with_channel ch fresh b.store; made = ch + 1 }, ch)

unfoldable pub delete : ℕ → List ℕ → List ℕ
delete ch [] = []
delete ch (c ∷ cs) = if eqb c ch then delete ch cs else c ∷ delete ch cs

-- What Unsubscribe does first, under the write lock, and what it does behind the Unlock.
pub data Phase : Type 0 where
  locked unlocked : Phase

unfoldable pub unsubscribe : Phase → ℕ → Broker → Option Broker
unfolding delete
unsubscribe locked ch b = some (record b { clients = delete ch b.clients })
unsubscribe unlocked ch b =
    let c = b.store ch in
    if c.closed
    then none
    else some (record b { store = with_channel ch (record c { closed = true }) b.store })

-- `select { case ch <- event: default: }`
unfoldable pub try_send : StockEvent → Channel → Option Channel
try_send event c =
    if c.closed
    then none
    else some
        (if ltb (length c.buffer) capacity then record c { buffer = c.buffer ++ event ∷ [] } else c)

unfoldable pub send_all : StockEvent → List ℕ → (ℕ → Channel) → Option (ℕ → Channel)
unfolding try_send
send_all event [] store = some store
send_all event (ch ∷ chs) store = elim (try_send event (store ch)) [
  | none ↦ none
  | some c ↦ send_all event chs (with_channel ch c store)
]

unfoldable pub publish : StockEvent → Broker → Option Broker
unfolding send_all
publish event b = elim (send_all event b.clients b.store) [
  | none ↦ none
  | some store ↦ some (record b { store = store })
]

-- The receive of the SSE handler's loop (internal/server/sse_handler.go): the oldest event, if there
-- is one; the handler waits otherwise.
unfoldable pub take_oldest : ℕ → Broker → List StockEvent → Option StockEvent × Broker
take_oldest ch b [] = (none, b)
take_oldest ch b (event ∷ rest) =
    let c = record (b.store ch) { buffer = rest } in
    (some event, record b { store = with_channel ch c b.store })

unfoldable pub receive : ℕ → Broker → Option StockEvent × Broker
unfolding take_oldest
receive ch b = take_oldest ch b (b.store ch).buffer
