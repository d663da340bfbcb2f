-- ===== src/Websocket/Video/Laws.antt =====
-- backend/websocket/video_queue.py: bound, critical frames and counters over any puts and gets.
use sphere_platform.Base.{
  ℕ, suc, ◌+◌, ◌≤◌, Bool, true, false, ◌&&◌, Option, none, some, List, [], ◌∷◌, ◌++◌, leb, keep_if,
  length, if◌then◌else◌, ◌≡◌, refl, arith, ◌⊎◌, inl, inr, Bool-cases, Option-cases, ap,
  length-append, subst,
}
use sphere_platform.Websocket.Video.{
  VideoFrame, VideoStreamQueue, is_critical, is_stale, split_stale, evict_stale, without_droppable,
  drop_one_droppable, append, make_room, put_frame, max_size,
}

abbrev criticals : List VideoFrame → List VideoFrame
criticals = keep_if is_critical

abbrev all_critical : List VideoFrame → Bool
all_critical [] = true
all_critical (f ∷ fs) = is_critical f && all_critical fs

record Split (now : ℕ) (fs fresh : List VideoFrame) (stale : ℕ) : Type 0 where
  count : length fresh + stale ≡ length fs
  keeps : criticals fresh ≡ criticals fs
  only : all_critical fs ≡ true → all_critical fresh ≡ true

split_stale-Split :
    (now : ℕ) (fs : List VideoFrame) → Split now fs (split_stale now fs).0 (split_stale now fs).1
unfolding split_stale
split_stale-Split now [] = record { count = refl; keeps = refl; only = λ h. refl }
split_stale-Split now (f ∷ fs) =
    let ih : Split now fs (split_stale now fs).0 (split_stale now fs).1 =
      split_stale-Split now fs in
    elim (Bool-cases (is_stale now f)) [
      | inl s ↦ rw (s) (record {
        count = ground (arith, ih.count);
        keeps = ground (arith, ih.keeps, s);
        only = λ h. ground (arith, ih.only, h);
      })
      | inr s ↦ rw (s) (record {
        count = ground (arith, ih.count);
        keeps = ground (arith, ih.keeps);
        only = λ h. ground (arith, ih.only, h);
      })
    ]

dropped_one :
    (fs gs : List VideoFrame)
    → without_droppable fs ≡ some gs
    → (length fs ≡ suc (length gs)) × (criticals gs ≡ criticals fs) × (all_critical fs ≡ false)
unfolding without_droppable
dropped_one [] gs h = cc
dropped_one (f ∷ fs) gs h = elim (Bool-cases (is_critical f)) [
  | inl k ↦ elim (Option-cases (without_droppable fs)) [
    | inl n ↦ absurd (ground (arith, k, n, h))
    | inr (gs', e) ↦
        let (len, crit, all) = dropped_one fs gs' e in
        let same : (f ∷ gs') ≡ gs = ground (arith, k, e, h) in
        subst
          (λ x.
            (length (f ∷ fs) ≡ suc (length x))
            × (criticals x ≡ criticals (f ∷ fs))
            × (all_critical (f ∷ fs) ≡ false))
          same (ground (arith, len), ground (arith, crit), ground (arith, all))
  ]
  | inr k ↦
      let same : fs ≡ gs = ground (arith, k, h) in
      (ground (arith, ap length same), ground (arith, k, ap criticals same), ground (arith, k))
]

none_droppable : (fs : List VideoFrame) → without_droppable fs ≡ none → all_critical fs ≡ true
unfolding without_droppable
none_droppable [] h = refl
none_droppable (f ∷ fs) h = ground (arith, none_droppable fs)

-- At most `max_size` frames, or critical ones only.
abbrev pub IsBounded : VideoStreamQueue → Type 0
IsBounded q = (length q.queue ≤ max_size) ⊎ (all_critical q.queue ≡ true)

-- What putting a frame promises.
pub record Puts (q : VideoStreamQueue) (f : VideoFrame) (reply : Bool) (q' : VideoStreamQueue)
    : Type 0 where
  pub bounded : IsBounded q → IsBounded q'
  pub keeps : criticals q'.queue ≡ criticals q.queue ++ criticals (f ∷ [])
  pub accepted : is_critical f ≡ true → reply ≡ true
  pub conserved :
      length q'.queue + q'.frames_sent + q'.frames_dropped
      ≡ suc (length q.queue + q.frames_sent + q.frames_dropped)
  pub queued : q'.frames_queued ≡ (if reply then suc q.frames_queued else q.frames_queued)

criticals-append : (fs gs : List VideoFrame) → criticals (fs ++ gs) ≡ criticals fs ++ criticals gs
criticals-append [] gs = refl
criticals-append (f ∷ fs) gs = ground (arith, criticals-append fs gs)

append-Puts :
    (now : ℕ) (q : VideoStreamQueue) (f : VideoFrame)
    → leb max_size (length (evict_stale now q).queue) ≡ false
    → Puts q f true (append (evict_stale now q) f)
unfolding evict_stale
append-Puts now q f h =
    let s : Split now q.queue (split_stale now q.queue).0 (split_stale now q.queue).1 =
      split_stale-Split now q.queue in
    record {
      bounded = λ b. inl (ground (arith, h, length-append (split_stale now q.queue).0 (f ∷ [])));
      keeps = ground (arith, criticals-append (split_stale now q.queue).0 (f ∷ []), s.keeps);
      accepted = λ k. refl;
      conserved = ground (arith, s.count, length-append (split_stale now q.queue).0 (f ∷ []));
      queued = ground arith;
    }

append_nil : (fs : List VideoFrame) → fs ++ [] ≡ fs
append_nil [] = refl
append_nil (f ∷ fs) = ap (λ gs. f ∷ gs) (append_nil fs)

all_critical-append :
    (fs : List VideoFrame) (f : VideoFrame)
    → all_critical fs ≡ true
    → is_critical f ≡ true
    → all_critical (fs ++ f ∷ []) ≡ true
all_critical-append [] f h k = ground (arith, k)
all_critical-append (g ∷ fs) f h k = ground (arith, all_critical-append fs f, h, k)

abbrev pub drop_reply : VideoStreamQueue → Option (List VideoFrame) → Bool × VideoStreamQueue
drop_reply q none = (false, q)
drop_reply q (some fs) = (true, record q { queue = fs; frames_dropped = q.frames_dropped + 1 })

full-Puts :
    (now : ℕ) (q : VideoStreamQueue) (f : VideoFrame)
    → let fresh = evict_stale now q in
      let r = make_room f (drop_one_droppable fresh) in
      leb max_size (length fresh.queue) ≡ true → Puts q f r.0 r.1
unfolding evict_stale drop_one_droppable
full-Puts now q f h = turn (without_droppable fresh) refl
  where
    fresh : List VideoFrame
    fresh = (split_stale now q.queue).0

    s : Split now q.queue fresh (split_stale now q.queue).1
    s = split_stale-Split now q.queue

    turn :
        (o : Option (List VideoFrame))
        → without_droppable fresh ≡ o
        → Puts q f
            (make_room f (drop_reply (evict_stale now q) o)).0
            (make_room f (drop_reply (evict_stale now q) o)).1
    turn none e = elim (Bool-cases (is_critical f)) [
      | inl k ↦ rw (k) (record {
        bounded = λ b. inr (all_critical-append fresh f (none_droppable fresh e) k);
        keeps = ground (arith, criticals-append fresh (f ∷ []), s.keeps);
        accepted = λ c. refl;
        conserved = ground (arith, s.count, length-append fresh (f ∷ []));
        queued = ground arith;
      })
      | inr k ↦ rw (k) (record {
        bounded = λ b. inr (none_droppable fresh e);
        keeps = ground (arith, s.keeps, k, append_nil (criticals q.queue));
        accepted = λ c. ground (arith, c, k);
        conserved = ground (arith, s.count);
        queued = refl;
      })
    ]
    turn (some gs) e =
        let (len, crit, all) = dropped_one fresh gs e in
        record {
          bounded = λ b. elim b [
            | inl l ↦ inl (ground (arith, l, s.count, len, length-append gs (f ∷ [])))
            | inr a ↦ absurd (ground (arith, s.only a, all))
          ];
          keeps = ground (arith, criticals-append gs (f ∷ []), s.keeps, crit);
          accepted = λ c. refl;
          conserved = ground (arith, s.count, len, length-append gs (f ∷ []));
          queued = ground arith;
        }

-- Putting a frame into a queue that holds at most 50 frames, or critical ones only, leaves such a queue.
-- No critical frame is lost: those of the queue stay in their order, with the new one, if critical,
-- behind them, and a critical frame is always taken. Every frame put is in the queue, sent or counted
-- as dropped, and the counter of queued frames grows just when the reply says so.
pub put_frame-Puts :
    (now : ℕ) (q : VideoStreamQueue) (f : VideoFrame)
    → Puts q f (put_frame now q f).0 (put_frame now q f).1
unfolding put_frame
put_frame-Puts now q f = elim (Bool-cases (leb max_size (length (evict_stale now q).queue))) [
  | inl k ↦ rw (k) (full-Puts now q f k)
  | inr k ↦ rw (k) (append-Puts now q f k)
]
