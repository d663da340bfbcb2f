-- ===== src/Websocket/Offline.antt =====
-- backend/websocket/offline_queue.py: `OfflineCommandQueue`. A stream is a dict from message ids, in
-- the order in which Redis gave them. How far XADD trims is an argument: redis-py asks for
-- MAXLEN ~ 100, which keeps at least that many. Redis answers, and the expiry of the whole key after
-- a day is left out.
pub mod Delivery
pub mod Rounds
mod Tests
use sphere_platform.Base.{
  ℕ, suc, ◌+◌, ◌≤◌, String, Bool, true, false, Option, none, some, List, [], ◌∷◌, ◌++◌, ◌==◌, ltb,
  if◌then◌else◌, length, drop, ◌≡◌, ◌⊎◌,
}
use sphere_platform.Base.Dict.{Dict, get, put, remove, get_or}

-- `cmd` and `ts` of a message.
pub record Message : Type 0 where
  pub cmd : String
  pub ts : ℕ

abbrev pub Stream : Type 0
Stream = Dict Message

-- What XADD with MAXLEN does to a stream: nothing, or the oldest go and `n` or more stay.
pub IsTrim : (ℕ → Stream → Stream) → Type 0
IsTrim trim =
    (n : ℕ) (s : Stream) → (trim n s ≡ s) ⊎ ((k : ℕ) × (trim n s ≡ drop k s) × (k + n ≤ length s))

-- `send_fn` of one command.
pub data Sent : Type 0 where
  accepted refused raises : Sent

unfoldable pub enqueue :
    (ℕ → Stream → Stream) → ℕ → String → Dict Stream → String → String → Dict Stream
enqueue trim now id d device cmd =
    put d device (trim 100 (get_or d device [] ++ (id, record { cmd = cmd; ts = now }) ∷ []))

-- `now - ts > MAX_QUEUE_AGE_S`
abbrev pub is_expired : ℕ → Message → Bool
is_expired now m = ltb (m.ts + 86400) now

-- What the loop of a flush has done when it ends.
pub record Flushed : Type 0 where
  pub ids_to_ack : List String
  pub delivered : List String

abbrev pub after_send : Sent → String → Message → Flushed → Flushed
after_send accepted id m rest = record {
  ids_to_ack = id ∷ rest.ids_to_ack;
  delivered = m.cmd ∷ rest.delivered;
}
after_send _ id m rest = record { ids_to_ack = []; delivered = [] }

unfoldable pub flush_loop : ℕ → (String → Sent) → Stream → Flushed
flush_loop now send [] = record { ids_to_ack = []; delivered = [] }
flush_loop now send ((id, m) ∷ ms) =
    let rest = flush_loop now send ms in
    if is_expired now m
    then record { ids_to_ack = id ∷ rest.ids_to_ack; delivered = rest.delivered }
    else after_send (send m.cmd) id m rest

-- XDEL
unfoldable pub xdel : Stream → List String → Stream
xdel s [] = s
xdel s (id ∷ ids) = xdel (remove s id) ids

-- A stream without messages is deleted.
abbrev pub put_back : Dict Stream → String → Stream → Dict Stream
put_back d device [] = remove d device
put_back d device (m ∷ ms) = put d device (m ∷ ms)

abbrev pub flush_stream :
    ℕ → (String → Sent) → Dict Stream → String → Stream → List String × Dict Stream
flush_stream now send d device [] = ([], d)
flush_stream now send d device (m ∷ ms) =
    let f = flush_loop now send (m ∷ ms) in
    (f.delivered, put_back d device (xdel (m ∷ ms) f.ids_to_ack))

-- The commands that were delivered, of which the code returns the number, and the streams.
unfoldable pub flush : ℕ → (String → Sent) → Dict Stream → String → List String × Dict Stream
unfolding flush_loop xdel
flush now send d device = flush_stream now send d device (get_or d device [])

unfoldable pub queue_size : Dict Stream → String → ℕ
queue_size d device = length (get_or d device [])

unfoldable pub clear : Dict Stream → String → Dict Stream
clear d device = remove d device
