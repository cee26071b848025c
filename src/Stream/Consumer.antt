-- ===== src/Stream/Consumer.antt =====
-- `run_consumer` and `_handle_one` as a machine that stops at each `await`: what Redis answers there,
-- and that the process may die there, is an event. `Handler` is a parameter: it returns or raises, and
-- leaves what it has committed.
--
-- Of the stream, the model has all entries that stand in it, those that the group has not delivered
-- yet, and those that are delivered and not acknowledged. The producer's XADD with MAXLEN trims the
-- oldest entries, and Redis keeps at least `max_len` then; a pending entry that is trimmed is not
-- claimed any more. Consumers are not told apart: XAUTOCLAIM takes the entries of any.
use ark_esp_backend.Prelude.{
  ℕ, zero, suc, String, Bool, true, false, ◌||◌, List, [], ◌∷◌, ◌++◌, ◌==◌, ◌-◌, ltb, leb,
  if◌then◌else◌,
}
use ark_esp_backend.Prelude.Table.{select, delete}
use ark_esp_backend.Pagination.{length, take}

abbrev pub StreamFields : Type 0
StreamFields = List (String × String)

pub record Message : Type 0 where
  pub id : ℕ
  pub fields : StreamFields

abbrev pub Handler : Type 0 → Type 0
Handler D = StreamFields → D → Bool × D

-- which of the two loops of `run_consumer` a batch belongs to
pub data Batch : Type 0 where
  claimed fresh : Batch

-- the `await` that the consumer stands at; `dead` once an exception or `stop` has ended the task
pub data Place : Type 0 where
  claiming : Place
  reading : Place
  handling : Batch → List Message → Place
  acknowledging : Batch → Message → List Message → Place
  dead : Place

-- `stream` has the oldest entry first. `produced`, `trimmed`, `handled` and `acked` are kept for the
-- statements: what was added to the stream and what was trimmed, which messages the handler returned
-- on, and which were acknowledged.
pub record System (D : Type 0) : Type 0 where
  pub stream : List Message
  pub waiting : List Message
  pub pending : List Message
  pub produced : List Message
  pub trimmed : List Message
  pub handled : List Message
  pub acked : List Message
  pub db : D
  pub place : Place

pub data Event : Type 0 where
  produce : Message → Event
  trims : ℕ → Event
  claims : List Message → Event
  claim_fails : Event
  reads : ℕ → Event
  read_fails : Event
  proceed : Event
  acks : Event
  ack_fails : Event
  ack_lost : Event
  stops : Event
  restarts : Event

abbrev pub has : ℕ → List Message → Bool
has i [] = false
has i (m ∷ ms) = m.id == i || has i ms

abbrev pub drop : {A : Type 0} → ℕ → List A → List A
drop zero xs = xs
drop (suc n) [] = []
drop (suc n) (x ∷ xs) = drop n xs

-- `count=100` of `_claim_stale`
abbrev pub claim_count : ℕ
claim_count = 100

-- MAXLEN of the producer
abbrev pub max_len : ℕ
max_len = 100000

-- where a loop ends
abbrev pub next_place : Batch → Place
next_place claimed = reading
next_place fresh = claiming

module _ {D : Type 0} where
  -- XAUTOCLAIM answers with entries that are pending, whichever these are.
  unfoldable pub claim_stale : List Message → System D → System D
  claim_stale ms s = record s {
    place = handling claimed (take claim_count (select (λ m. has m.id s.pending) ms));
  }

  -- XREADGROUP delivers the next entries, up to `count`; none of them if the block runs out.
  unfoldable pub read_group : ℕ → System D → System D
  read_group n s = record s {
    place = handling fresh (take n s.waiting);
    waiting = drop n s.waiting;
    pending = s.pending ++ take n s.waiting;
  }

  abbrev pub after_handler : Batch → Message → List Message → System D → Bool × D → System D
  after_handler b m ms s (true, db) = record s {
    place = acknowledging b m ms;
    handled = m ∷ s.handled;
    db = db;
  }
  after_handler b m ms s (false, db) = record s { place = handling b ms; db = db }

  -- `_handle_one` up to its `xack`
  unfoldable pub call_handler : Handler D → Batch → Message → List Message → System D → System D
  call_handler handler b m ms s = after_handler b m ms s (handler m.fields s.db)

  unfoldable pub xack : Batch → Message → List Message → System D → System D
  xack b m ms s = record s {
    place = handling b ms;
    pending = delete (λ p. p.id == m.id) s.pending;
    acked = m ∷ s.acked;
  }

  -- Redis takes the oldest entries away, as long as `max_len` are left.
  unfoldable pub trim : ℕ → System D → System D
  trim n s =
      let oldest = take n s.stream in
      if leb max_len (length s.stream - n)
      then record s {
        stream = drop n s.stream;
        waiting = delete (λ p. has p.id oldest) s.waiting;
        pending = delete (λ p. has p.id oldest) s.pending;
        trimmed = oldest ++ s.trimmed;
      }
      else s

  module _ (handler : Handler D) (batch_size : ℕ) where
    -- An exception of `xack` is caught nowhere: it ends the task, whether Redis has acknowledged the
    -- message and only the answer is lost, or not.
    abbrev pub at_place : Place → Event → System D → System D
    at_place claiming (claims ms) s = claim_stale ms s
    at_place claiming stops s = record s { place = dead }
    at_place reading (reads n) s = read_group (if ltb batch_size n then batch_size else n) s
    at_place reading read_fails s = record s { place = claiming }
    at_place (handling b []) proceed s = record s { place = next_place b }
    at_place (handling b (m ∷ ms)) proceed s = call_handler handler b m ms s
    at_place (acknowledging b m ms) acks s = xack b m ms s
    at_place (acknowledging b m ms) ack_fails s = record s { place = dead }
    at_place (acknowledging b m ms) ack_lost s = record (xack b m ms s) { place = dead }
    at_place _ _ s = s

    unfoldable pub step : Event → System D → System D
    step (produce m) s = record s {
      stream = s.stream ++ (m ∷ []);
      waiting = s.waiting ++ (m ∷ []);
      produced = m ∷ s.produced;
    }
    step (trims n) s = trim n s
    step restarts s = record s { place = claiming }
    step e s = at_place s.place e s

    unfoldable pub run : List Event → System D → System D
    run [] s = s
    run (e ∷ es) s = run es (step e s)

  -- an empty stream and a consumer that starts
  abbrev pub start : D → System D
  start db = record {
    stream = [];
    waiting = [];
    pending = [];
    produced = [];
    trimmed = [];
    handled = [];
    acked = [];
    db = db;
    place = claiming;
  }
