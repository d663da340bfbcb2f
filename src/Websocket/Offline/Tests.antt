-- ===== src/Websocket/Offline/Tests.antt =====
-- offline_queue.py: three commands for a device, of which one is too old and one is refused.
use sphere_platform.Base.{ℕ, String, [], ◌∷◌, ◌==◌, ◌≡◌, refl, arith, inl, if◌then◌else◌}
use sphere_platform.Base.Dict.{Dict, get, get_or}
use sphere_platform.Websocket.Offline.{
  Stream, IsTrim, Sent, accepted, refused, flush, flush_loop, xdel,
}
use sphere_platform.Websocket.Offline.Delivery.{Splits, flush-Splits}
use sphere_platform.Websocket.Offline.Rounds.{enqueue_all, accept_all, commands, flush-enqueue_all}

abbrev stream : Stream
stream =
    ("1-0", record { cmd = "old"; ts = 10 })
    ∷ ("2-0", record { cmd = "first"; ts = 90000 })
    ∷ ("3-0", record { cmd = "second"; ts = 90001 })
    ∷ []

abbrev young : Stream
young =
    ("2-0", record { cmd = "first"; ts = 90000 })
    ∷ ("3-0", record { cmd = "second"; ts = 90001 })
    ∷ []

abbrev queues : Dict Stream
queues = ("d", stream) ∷ []

-- The second command is refused.
abbrev send : String → Sent
send cmd = if cmd == "second" then refused else accepted

abbrev no_trim : ℕ → Stream → Stream
no_trim n s = s

no_trim-IsTrim : IsTrim no_trim
unfolding IsTrim
no_trim-IsTrim n s = inl refl

flush-Splits_example :
    let (sent, after) = flush 90010 send queues "d" in
    Splits 90010 send (get_or queues "d" []) (get_or after "d" []) sent
unfolding get
flush-Splits_example = flush-Splits 90010 send queues "d" (refl, (refl, (refl, tt)))

first_delivered : (flush 90010 send queues "d").0 ≡ "first" ∷ []
unfolding flush flush_loop xdel get
first_delivered = refl

flush-enqueue_all_example :
    let (sent, after) = flush 90010 accept_all (enqueue_all no_trim [] "d" young) "d" in
    (sent ≡ commands young) × (get_or after "d" [] ≡ [])
unfolding get
flush-enqueue_all_example =
    flush-enqueue_all no_trim 90010 [] "d" young no_trim-IsTrim refl (omega arith)
      (refl, (refl, tt)) (refl, (refl, tt))
