-- ===== src/Websocket/Video.antt =====
-- backend/websocket/frames.py and backend/websocket/video_queue.py: `VideoStreamQueue`. The clock
-- counts milliseconds; each method runs under the queue's lock and is one step.
pub mod Laws
pub mod Account
use sphere_platform.Base.{
  ℕ, zero, suc, ◌+◌, ◌-◌, ◌%◌, String, Bool, true, false, not, ◌&&◌, ◌||◌, Option, none, some, List,
  [], ◌∷◌, ◌++◌, leb, ltb, nat_eq, keep_if, length, if◌then◌else◌,
}

pub data FrameType : Type 0 where
  unknown non_idr idr_slice sei sps pps : FrameType

-- FrameType(nal_unit_type), and UNKNOWN where that raises.
abbrev pub frame_type : ℕ → FrameType
frame_type n =
    if nat_eq n 1
    then non_idr
    else if nat_eq n 5
    then idr_slice
    else if nat_eq n 6
    then sei
    else if nat_eq n 7
    then sps
    else if nat_eq n 8
    then pps
    else unknown

-- The byte behind a start code that stands at the front.
abbrev pub after_code : List ℕ → Option ℕ
after_code (a ∷ b ∷ c ∷ d ∷ e ∷ rest) =
    if nat_eq a 0 && nat_eq b 0 && nat_eq c 0 && nat_eq d 1 then some e else none
after_code _ = none

-- The loop over the positions that leave room for a code and a byte.
unfoldable pub find_code : List ℕ → Option ℕ
find_code [] = none
find_code (x ∷ xs) =
    let rest = find_code xs in elim (after_code (x ∷ xs)) [ some e ↦ some e | none ↦ rest ]

unfoldable pub detect_nal_type : List ℕ → FrameType
unfolding find_code
detect_nal_type bytes =
    if ltb (length bytes) 5
    then unknown
    else elim (find_code bytes) [ none ↦ unknown | some e ↦ frame_type (e % 32) ]

pub record VideoFrame : Type 0 where
  pub bytes : List ℕ
  pub device_id : String
  pub nal_type : FrameType
  pub timestamp : ℕ

unfoldable pub new_frame : ℕ → List ℕ → String → VideoFrame
unfolding detect_nal_type
new_frame now bytes device = record {
  bytes = bytes;
  device_id = device;
  nal_type = detect_nal_type bytes;
  timestamp = now;
}

abbrev pub critical_type : FrameType → Bool
critical_type idr_slice = true
critical_type sps = true
critical_type pps = true
critical_type _ = false

abbrev pub is_critical : VideoFrame → Bool
is_critical f = critical_type f.nal_type

abbrev pub max_size : ℕ
max_size = 50

abbrev pub max_latency_ms : ℕ
max_latency_ms = 200

pub record VideoStreamQueue : Type 0 where
  pub queue : List VideoFrame
  pub frames_queued : ℕ
  pub frames_dropped : ℕ
  pub frames_sent : ℕ

abbrev pub is_stale : ℕ → VideoFrame → Bool
is_stale now f = not (is_critical f) && ltb max_latency_ms (now - f.timestamp)

-- The frames that stay and the number of those that do not.
unfoldable pub split_stale : ℕ → List VideoFrame → List VideoFrame × ℕ
split_stale now [] = ([], 0)
split_stale now (f ∷ fs) =
    let (fresh, stale) = split_stale now fs in
    if is_stale now f then (fresh, stale + 1) else (f ∷ fresh, stale)

unfoldable pub evict_stale : ℕ → VideoStreamQueue → VideoStreamQueue
unfolding split_stale
evict_stale now q =
    let (fresh, stale) = split_stale now q.queue in
    record q { queue = fresh; frames_dropped = q.frames_dropped + stale }

-- The queue without its first frame that is not critical.
unfoldable pub without_droppable : List VideoFrame → Option (List VideoFrame)
without_droppable [] = none
without_droppable (f ∷ fs) =
    let rest = without_droppable fs in
    if is_critical f then elim rest [ none ↦ none | some gs ↦ some (f ∷ gs) ] else some fs

unfoldable pub drop_one_droppable : VideoStreamQueue → Bool × VideoStreamQueue
unfolding without_droppable
drop_one_droppable q = elim (without_droppable q.queue) [
  | none ↦ (false, q)
  | some fs ↦ (true, record q { queue = fs; frames_dropped = q.frames_dropped + 1 })
]

abbrev pub append : VideoStreamQueue → VideoFrame → VideoStreamQueue
append q f = record q { queue = q.queue ++ f ∷ []; frames_queued = q.frames_queued + 1 }

-- A full queue makes room, or takes a critical frame all the same, or drops the new frame.
abbrev pub make_room : VideoFrame → Bool × VideoStreamQueue → Bool × VideoStreamQueue
make_room f (dropped, q) =
    if not dropped && not (is_critical f)
    then (false, record q { frames_dropped = q.frames_dropped + 1 })
    else (true, append q f)

unfoldable pub put_frame : ℕ → VideoStreamQueue → VideoFrame → Bool × VideoStreamQueue
unfolding evict_stale drop_one_droppable
put_frame now q f =
    let fresh = evict_stale now q in
    if leb max_size (length fresh.queue)
    then make_room f (drop_one_droppable fresh)
    else (true, append fresh f)

abbrev pub pop_frame : List VideoFrame → VideoStreamQueue → Option VideoFrame × VideoStreamQueue
pop_frame [] q = (none, q)
pop_frame (f ∷ fs) q = (some f, record q { queue = fs; frames_sent = q.frames_sent + 1 })

unfoldable pub get_frame : VideoStreamQueue → Option VideoFrame × VideoStreamQueue
get_frame q = pop_frame q.queue q
