-- ===== src/Websocket/Offline/Rounds.antt =====
-- backend/websocket/offline_queue.py: commands that were queued come out of the next flush.
use sphere_platform.Base.{
  ℕ, zero, suc, ◌+◌, ◌≤◌, String, false, none, some, List, [], ◌∷◌, ◌++◌, length, drop, map, All,
  arith, ◌≡◌, refl, sym, ◌∙◌, ap, inl, inr, subst, length-append,
}
use sphere_platform.Base.Dict.{Dict, get, put, remove, get_or, get-put_same}
use sphere_platform.Base.Dict.Size.{IsDict}
use sphere_platform.Websocket.Offline.{
  Stream, IsTrim, Sent, accepted, enqueue, is_expired, flush_loop, xdel, put_back, flush_stream,
  flush,
}
use sphere_platform.Websocket.Offline.Delivery.{get_or-of, get-remove_same, remove-head}

-- Commands with the ids and the times that they get.
unfoldable pub enqueue_all : (ℕ → Stream → Stream) → Dict Stream → String → Stream → Dict Stream
unfolding enqueue
enqueue_all trim d device [] = d
enqueue_all trim d device ((id, m) ∷ ms) =
    enqueue_all trim (enqueue trim m.ts id d device m.cmd) device ms

drop_small : (k : ℕ) (s : Stream) → k + 100 ≤ length s → length s ≤ 100 → drop k s ≡ s
drop_small zero s h g = refl
drop_small (suc k) s h g = absurd (omega (arith, h, g))

append_assoc : (a b c : Stream) → (a ++ b) ++ c ≡ a ++ (b ++ c)
append_assoc [] b c = refl
append_assoc (x ∷ a) b c = ap (λ (l : Stream). x ∷ l) (append_assoc a b c)

append_nil : (a : Stream) → a ++ [] ≡ a
append_nil [] = refl
append_nil (x ∷ a) = ap (λ (l : Stream). x ∷ l) (append_nil a)

-- Up to a hundred commands are all kept.
enqueue_all-stream :
    (trim : ℕ → Stream → Stream) (d : Dict Stream) (device : String) (ms : Stream)
    → IsTrim trim
    → length (get_or d device [] ++ ms) ≤ 100
    → get_or (enqueue_all trim d device ms) device [] ≡ get_or d device [] ++ ms
unfolding enqueue_all enqueue IsTrim
enqueue_all-stream trim d device [] t h = sym (append_nil (get_or d device []))
enqueue_all-stream trim d device ((id, m) ∷ ms) t h =
    let old = get_or d device [] in
    let new : Stream = old ++ (id, m) ∷ [] in
    let longer : length new ≤ 100 =
      omega (arith, h, length-append old ((id, m) ∷ []), length-append old ((id, m) ∷ ms)) in
    let same : trim 100 new ≡ new = elim (t 100 new) [
      | inl e ↦ e
      | inr (k, e, l) ↦ e ∙ drop_small k new l longer
    ] in
    let now : get_or (enqueue trim m.ts id d device m.cmd) device [] ≡ new =
      get_or-of (put d device (trim 100 new)) device (some (trim 100 new))
        (get-put_same d device (trim 100 new))
      ∙ same in
    let whole : get_or (enqueue trim m.ts id d device m.cmd) device [] ++ ms ≡ old ++ (id, m) ∷ ms =
      ap (λ (l : Stream). l ++ ms) now ∙ append_assoc old ((id, m) ∷ []) ms in
    enqueue_all-stream trim (enqueue trim m.ts id d device m.cmd) device ms t
      (subst (λ (l : Stream). length l ≤ 100) (sym whole) h)
    ∙ whole

abbrev pub accept_all : String → Sent
accept_all cmd = accepted

abbrev pub commands : Stream → List String
commands ms = map (λ row. row.1.cmd) ms

flush_loop_accepts :
    (now : ℕ) (ms : Stream)
    → IsDict ms
    → All (λ row. is_expired now row.1 ≡ false) ms
    → ((flush_loop now accept_all ms).delivered ≡ commands ms)
      × (xdel ms (flush_loop now accept_all ms).ids_to_ack ≡ [])
unfolding flush_loop xdel
flush_loop_accepts now [] d h = (refl, refl)
flush_loop_accepts now ((id, m) ∷ ms) d h =
    let (a, b) = flush_loop_accepts now ms d.1 h.1 in
    rw h.0 (ap (λ (l : List String). m.cmd ∷ l) a, rw (xdel, remove-head id m ms d) b)

-- Up to a hundred commands that are queued for a device with an empty queue are delivered by the next
-- flush within a day, all of them and in the order in which they were queued, if the device accepts
-- them; the device's queue is gone then.
pub flush-enqueue_all :
    (trim : ℕ → Stream → Stream) (now : ℕ) (d : Dict Stream) (device : String) (ms : Stream)
    → IsTrim trim
    → get d device ≡ none
    → length ms ≤ 100
    → IsDict ms
    → All (λ row. is_expired now row.1 ≡ false) ms
    → let (sent, after) = flush now accept_all (enqueue_all trim d device ms) device in
      (sent ≡ commands ms) × (get_or after device [] ≡ [])
unfolding flush
flush-enqueue_all trim now d device ms t empty small ids young =
    let start : get_or d device [] ≡ [] = get_or-of d device none empty in
    let queued : get_or (enqueue_all trim d device ms) device [] ≡ ms =
      enqueue_all-stream trim d device ms t
        (subst (λ (l : Stream). length (l ++ ms) ≤ 100) (sym start) small)
      ∙ ap (λ (l : Stream). l ++ ms) start in
    subst
      (λ (s : Stream).
        let (sent, after) = flush_stream now accept_all (enqueue_all trim d device ms) device s in
        (sent ≡ commands ms) × (get_or after device [] ≡ []))
      (sym queued) (turn (enqueue_all trim d device ms) ms ids young queued)
  where
    turn :
        (u : Dict Stream) (l : Stream)
        → IsDict l
        → All (λ row. is_expired now row.1 ≡ false) l
        → get_or u device [] ≡ l
        → let (sent, after) = flush_stream now accept_all u device l in
          (sent ≡ commands l) × (get_or after device [] ≡ [])
    turn u [] k y e = (refl, e)
    turn u (x ∷ l) k y e =
        let (a, b) = flush_loop_accepts now (x ∷ l) k y in
        (
          a,
          ap (λ (s : Stream). get_or (put_back u device s) device []) b
              ∙ get_or-of (remove u device) device none (get-remove_same u device),
        )
