-- ===== src/Websocket/Offline/Delivery.antt =====
-- backend/websocket/offline_queue.py: which commands a flush delivers, and which it keeps.
use sphere_platform.Base.{
  ℕ, String, true, false, not, Option, none, some, List, [], ◌∷◌, ◌++◌, map, All, keep_if, arith,
  ◌≡◌, refl, sym, ap, ◌⊎◌, inl, inr, Bool-cases, eq_refl, subst,
}
use sphere_platform.Base.Dict.{Dict, get, put, remove, get_or, get-put_same, get-remove}
use sphere_platform.Base.Dict.Size.{IsDict, remove_absent}
use sphere_platform.Websocket.Offline.{
  Message, Stream, Sent, accepted, refused, raises, is_expired, after_send, flush_loop, xdel,
  put_back, flush_stream, flush,
}

-- A message that a flush is done with: it is too old, or its command was accepted.
abbrev pub IsDone : ℕ → (String → Sent) → String × Message → Type 0
IsDone now send row = (is_expired now row.1 ≡ true) ⊎ (send row.1.cmd ≡ accepted)

-- The first message that is kept is not too old, and was not accepted.
abbrev pub Stops : ℕ → (String → Sent) → Stream → Type 0
Stops now send [] = Unit
Stops now send (row ∷ ms) = (is_expired now row.1 ≡ false) × ¬ (send row.1.cmd ≡ accepted)

abbrev pub fresh_commands : ℕ → Stream → List String
fresh_commands now s = map (λ row. row.1.cmd) (keep_if (λ row. not (is_expired now row.1)) s)

-- A flush of a stream: the part that is done with, the part that is kept, and the commands that were
-- delivered.
pub record Splits (now : ℕ) (send : String → Sent) (s kept : Stream) (sent : List String)
    : Type 0 where
  pub done_with : Stream
  pub whole : done_with ++ kept ≡ s
  pub done : All (IsDone now send) done_with
  pub stops : Stops now send kept
  pub in_order : sent ≡ fresh_commands now done_with

pub remove-head :
    (id : String) (m : Message) (ms : Stream)
    → IsDict ((id, m) ∷ ms)
    → remove ((id, m) ∷ ms) id ≡ ms
unfolding remove
remove-head id m ms h = ground (arith, eq_refl id, remove_absent ms id h.0)

flush_loop-Splits :
    (now : ℕ) (send : String → Sent) (s : Stream)
    → IsDict s
    → Splits now send s
        (xdel s (flush_loop now send s).ids_to_ack)
        (flush_loop now send s).delivered
unfolding flush_loop xdel
flush_loop-Splits now send [] h = record {
  done_with = [];
  whole = refl;
  done = tt;
  stops = tt;
  in_order = refl;
}
flush_loop-Splits now send ((id, m) ∷ ms) h = elim (Bool-cases (is_expired now m)) [
  | inl e ↦
      let r = flush_loop-Splits now send ms h.1 in
      rw (e, xdel, remove-head id m ms h)
        (record {
          done_with = (id, m) ∷ r.done_with;
          whole = ap (λ (l : Stream). (id, m) ∷ l) r.whole;
          done = (inl e, r.done);
          stops = r.stops;
          in_order = rw e r.in_order;
        })
  | inr e ↦ rw e (turn (flush_loop-Splits now send ms h.1) (send m.cmd) refl e)
]
  where
    turn :
        Splits now send ms
          (xdel ms (flush_loop now send ms).ids_to_ack)
          (flush_loop now send ms).delivered
        → (o : Sent) → send m.cmd ≡ o
        → is_expired now m ≡ false
        → let f = after_send o id m (flush_loop now send ms) in
          Splits now send ((id, m) ∷ ms) (xdel ((id, m) ∷ ms) f.ids_to_ack) f.delivered
    turn r accepted k e =
        rw (xdel, remove-head id m ms h)
          (record {
            done_with = (id, m) ∷ r.done_with;
            whole = ap (λ (l : Stream). (id, m) ∷ l) r.whole;
            done = (inr k, r.done);
            stops = r.stops;
            in_order = rw e (ap (λ (l : List String). m.cmd ∷ l) r.in_order);
          })
    turn r refused k e = record {
      done_with = [];
      whole = refl;
      done = tt;
      stops = (e, λ q. ground (arith, q, k));
      in_order = refl;
    }
    turn r raises k e = record {
      done_with = [];
      whole = refl;
      done = tt;
      stops = (e, λ q. ground (arith, q, k));
      in_order = refl;
    }

abbrev pub stream_of : Option Stream → Stream
stream_of o = elim o [ none ↦ [] | some s ↦ s ]

pub get_or-of :
    (d : Dict Stream) (k : String) (o : Option Stream) → get d k ≡ o → get_or d k [] ≡ stream_of o
get_or-of d k o h = ap stream_of h

pub get-remove_same : (d : Dict Stream) (k : String) → get (remove d k) k ≡ none
get-remove_same d k = ground (arith, get-remove d k k, eq_refl k)

-- A flush delivers the commands of the stream in their order, but for those that are older than a
-- day, up to the first that is not accepted; that one and what follows it stays, and nothing else.
pub flush-Splits :
    (now : ℕ) (send : String → Sent) (d : Dict Stream) (device : String)
    → IsDict (get_or d device [])
    → let (sent, after) = flush now send d device in
      Splits now send (get_or d device []) (get_or after device []) sent
unfolding flush
flush-Splits now send d device h = turn (get_or d device []) h refl
  where
    kept : (s : Stream) → get_or (put_back d device s) device [] ≡ s
    kept [] = get_or-of (remove d device) device none (get-remove_same d device)
    kept (m ∷ ms) =
        get_or-of (put d device (m ∷ ms)) device (some (m ∷ ms)) (get-put_same d device (m ∷ ms))

    turn :
        (s : Stream)
        → IsDict s
        → get_or d device [] ≡ s
        → let (sent, after) = flush_stream now send d device s in
          Splits now send s (get_or after device []) sent
    turn [] k e =
        rw e (record { done_with = []; whole = refl; done = tt; stops = tt; in_order = refl })
    turn (m ∷ ms) k e =
        subst (λ t. Splits now send (m ∷ ms) t (flush_loop now send (m ∷ ms)).delivered)
          (sym (kept (xdel (m ∷ ms) (flush_loop now send (m ∷ ms)).ids_to_ack)))
          (flush_loop-Splits now send (m ∷ ms) k)
