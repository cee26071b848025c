-- ===== src/Stream/Tests.antt =====
-- Runs of the consumer, and its theorems at concrete inputs.
use ark_esp_backend.Prelude.{ℕ, suc, ◌≤◌, ◌||◌, false, ◌≡◌, refl, true, List, [], ◌∷◌, ◌++◌}
use ark_esp_backend.Pagination.{length}
use ark_esp_backend.Stream.Consumer.{
  max_len, Message, Handler, Event, produce, claims, reads, proceed, acks, restarts, has,
  claim_stale, read_group, call_handler, xack, step, run, start, trim, trims, ack_lost, dead,
}
use ark_esp_backend.Stream.Delivery.{is_kept, no_message_is_lost}
use ark_esp_backend.Stream.Progress.{NoProduce, backlog_can_be_acknowledged}

-- it counts the calls
abbrev counting : Handler ℕ
counting fields n = (true, suc n)

abbrev message : ℕ → Message
message i = record { id = i; fields = ("platform_id", "p") ∷ [] }

-- The process dies with the first message handled and not acknowledged.
abbrev crash : List Event
crash =
    produce (message 1)
    ∷ produce (message 2)
    ∷ claims []
    ∷ proceed
    ∷ reads 2
    ∷ proceed
    ∷ restarts
    ∷ []

abbrev recovery : List Event
recovery = claims (message 1 ∷ message 2 ∷ []) ∷ proceed ∷ acks ∷ proceed ∷ acks ∷ proceed ∷ []

-- The first message is handled twice, and both are acknowledged.
handled_again : (run counting 100 (crash ++ recovery) (start 0)).db ≡ 3
unfolding run step claim_stale read_group call_handler xack
handled_again = refl

-- A stream that is shorter than the limit is not trimmed.
short_stream_stays :
    (run counting 100 (produce (message 1) ∷ trims 1 ∷ []) (start 0)).waiting ≡ message 1 ∷ []
unfolding run step trim
short_stream_stays = refl

-- The answer to the first `xack` is lost: the message is acknowledged, and the task is over.
lost_answer :
    let s =
      run counting 100
        (crash ++ (claims (message 1 ∷ []) ∷ proceed ∷ ack_lost ∷ proceed ∷ []))
        (start 0) in
    (s.place ≡ dead) × (s.acked ≡ message 1 ∷ []) × (s.pending ≡ message 2 ∷ [])
unfolding run step claim_stale read_group call_handler xack
lost_answer = (refl, refl, refl)

no_message_is_lost_example :
    let s = run counting 100 crash (start 0) in
    (has 2 s.produced ≡ true → (is_kept 2 s || has 2 s.trimmed) ≡ true)
    × (has 2 s.trimmed ≡ true → max_len ≤ length s.stream)
    × (has 2 s.acked ≡ true → has 2 s.handled ≡ true)
no_message_is_lost_example = no_message_is_lost counting 100 crash 0 2

backlog_can_be_acknowledged_example :
    (more : List Event) × NoProduce more
    × ((i : ℕ)
        → let s = run counting 100 crash (start 0) in
          let t = run counting 100 (crash ++ more) (start 0) in
          has i s.produced ≡ true
          → has i s.trimmed ≡ false
          → (has i t.acked ≡ true) × (has i t.handled ≡ true))
backlog_can_be_acknowledged_example =
    backlog_can_be_acknowledged counting 99 (λ fields db. (suc db, refl)) crash 0
