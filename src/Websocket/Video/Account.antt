-- ===== src/Websocket/Video/Account.antt =====
-- backend/websocket/video_queue.py: the counters over any puts and gets.
use sphere_platform.Base.{ℕ, suc, ◌+◌, List, [], ◌∷◌, length, ◌≡◌, refl, arith, ap}
use sphere_platform.Websocket.Video.{VideoFrame, VideoStreamQueue, put_frame, pop_frame, get_frame}
use sphere_platform.Websocket.Video.Laws.{Puts, put_frame-Puts}

-- What the sources and the viewers of a stream do.
pub data Use : Type 0 where
  putting : ℕ → VideoFrame → Use
  getting : Use

abbrev pub after_use : VideoStreamQueue → Use → VideoStreamQueue
after_use q (putting now f) = (put_frame now q f).1
after_use q getting = (get_frame q).1

abbrev pub after_uses : VideoStreamQueue → List Use → VideoStreamQueue
after_uses q [] = q
after_uses q (u ∷ us) = after_uses (after_use q u) us

abbrev pub puts_of : List Use → ℕ
puts_of [] = 0
puts_of (putting now f ∷ us) = suc (puts_of us)
puts_of (getting ∷ us) = puts_of us

abbrev pub accounted : VideoStreamQueue → ℕ
accounted q = length q.queue + q.frames_sent + q.frames_dropped

get-accounted : (q : VideoStreamQueue) → accounted (get_frame q).1 ≡ accounted q
unfolding get_frame
get-accounted q = turn q.queue refl
  where
    turn : (fs : List VideoFrame) → q.queue ≡ fs → accounted (pop_frame fs q).1 ≡ accounted q
    turn [] e = refl
    turn (f ∷ fs) e = ground (arith, ap length e)

-- Over any puts and gets, the frames in the queue, those sent and those dropped add up: together they
-- grow by one with each put.
uses-accounted :
    (q : VideoStreamQueue) (us : List Use) → accounted (after_uses q us) ≡ accounted q + puts_of us
uses-accounted q [] = ground arith
uses-accounted q (putting now f ∷ us) =
    let p : Puts q f (put_frame now q f).0 (put_frame now q f).1 = put_frame-Puts now q f in
    ground (arith, uses-accounted (put_frame now q f).1 us, p.conserved)
uses-accounted q (getting ∷ us) = ground (arith, uses-accounted (get_frame q).1 us, get-accounted q)
