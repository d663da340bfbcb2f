-- ===== src/Websocket/Tests.antt =====
-- connection_manager.py and video_queue.py: a few connections and frames, and the theorems at them.
use sphere_platform.Base.{String, false, some, List, [], ◌∷◌, ◌≡◌, ◌≢◌, refl, arith, eq_iff, ◌==◌}
use sphere_platform.Base.Dict.{get, put}
use sphere_platform.Websocket.Connections.{
  Manager, ConnectionInfo, connect, disconnect, broadcast_to_org,
}
use sphere_platform.Websocket.Connections.Index.{IsExact}
use sphere_platform.Websocket.Connections.History.{
  Call, connecting, disconnecting, broadcasting, after_calls, calls-IsExact,
}
use sphere_platform.Websocket.Video.{
  VideoFrame, VideoStreamQueue, detect_nal_type, find_code, new_frame, put_frame, idr_slice,
}
use sphere_platform.Websocket.Video.Laws.{Puts, put_frame-Puts}

abbrev empty : Manager
empty = record { connections = []; org_index = [] }

abbrev one_device : Manager
one_device = (connect empty "s1" "d" "android" "o1").1

abbrev old : ConnectionInfo
old = record { device_id = "d"; agent_type = "android"; org_id = "o1"; session_id = "s1" }

empty-IsExact : IsExact empty
unfolding get
empty-IsExact = record { exact = λ o d. refl }

abbrev calls : List Call
calls =
    connecting "s1" "d" "android" "o1"
    ∷ connecting "s2" "d" "android" "o1"
    ∷ connecting "s3" "e" "pc" "o2"
    ∷ disconnecting "d" (some "s1")
    ∷ broadcasting (λ s. false) "o1"
    ∷ []

calls-IsExact_example : IsExact (after_calls empty calls)
unfolding connect disconnect broadcast_to_org get put
calls-IsExact_example =
    calls-IsExact empty calls empty-IsExact (refl, (refl, (refl, (refl, (refl, tt)))))

one_device-IsExact : IsExact one_device
unfolding get
one_device-IsExact =
    calls-IsExact empty (connecting "s1" "d" "android" "o1" ∷ []) empty-IsExact (refl, tt)

different : (s t : String) → (s == t) ≡ false → s ≢ t
different s t h e = ground (arith, h, e, eq_iff s t)

key_frame : detect_nal_type (9 ∷ 0 ∷ 0 ∷ 0 ∷ 1 ∷ 101 ∷ []) ≡ idr_slice
unfolding detect_nal_type find_code
key_frame = refl

abbrev frame : VideoFrame
frame = new_frame 0 (0 ∷ 0 ∷ 0 ∷ 1 ∷ 65 ∷ []) "d"

abbrev no_frames : VideoStreamQueue
no_frames = record { queue = []; frames_queued = 0; frames_dropped = 0; frames_sent = 0 }

put_frame-Puts_example :
    Puts no_frames frame (put_frame 5 no_frames frame).0 (put_frame 5 no_frames frame).1
put_frame-Puts_example = put_frame-Puts 5 no_frames frame
