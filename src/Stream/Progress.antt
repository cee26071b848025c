-- ===== src/Stream/Progress.antt =====
-- What a consumer that is started again can still reach.
use ark_esp_backend.Prelude.{
  ℕ, zero, suc, ◌≤◌, ◌≡◌, refl, ◌∙◌, ap, Bool, true, false, List, [], ◌∷◌, ◌++◌, ◌==◌, ltb, arith,
  ==_refl,
}
use ark_esp_backend.Prelude.Table.{delete}
use ark_esp_backend.Pagination.{length}
use ark_esp_backend.Stream.Delivery.{no_message_is_lost}
use ark_esp_backend.Stream.Consumer.{
  StreamFields, Message, Handler, claiming, System, Event, produce, trims, ack_lost, claims,
  claim_fails, reads, read_fails, proceed, acks, ack_fails, stops, restarts, has, start,
  claim_stale, read_group, call_handler, xack, step, run,
}

-- The relay adds nothing to the stream and trims nothing.
abbrev pub NoProduce : List Event → Type 0
NoProduce [] = Unit
NoProduce (produce m ∷ es) = ⊥
NoProduce (trims n ∷ es) = ⊥
NoProduce (e ∷ es) = NoProduce es

-- The handler returns on every message.
abbrev pub Accepts : {D : Type 0} → Handler D → Type 0
Accepts {D} handler =
    (fields : StreamFields) (db : D) → (after : D) × (handler fields db ≡ (true, after))

not_below : (k n : ℕ) → k ≤ 1 → ltb (suc n) k ≡ false
not_below k n h = ground arith

-- one pass of the loop that takes over a pending message
abbrev claim_one : Message → List Event
claim_one m = claims (m ∷ []) ∷ proceed ∷ acks ∷ proceed ∷ reads 0 ∷ proceed ∷ []

-- one pass that reads a new message
abbrev read_one : List Event
read_one = claims [] ∷ proceed ∷ reads 1 ∷ proceed ∷ acks ∷ proceed ∷ []

module _ {D : Type 0} (handler : Handler D) (n : ℕ) (accepts : Accepts handler) where
  -- the stream of `base`, with the consumer about to claim
  abbrev at_claiming : System D → (waiting pending handled acked : List Message) → D → System D
  at_claiming base waiting pending handled acked db = record base {
    waiting = waiting;
    pending = pending;
    handled = handled;
    acked = acked;
    db = db;
    place = claiming;
  }

  after_claim_one :
      (m : Message) (base : System D) (ws ps hd ak : List Message) (db : D)
      → run handler (suc n) (claim_one m) (at_claiming base ws (m ∷ ps) hd ak db)
        ≡ at_claiming base ws
            (delete (λ p. p.id == m.id) ps ++ [])
            (m ∷ hd)
            (m ∷ ak)
            (accepts m.fields db).0
  unfolding run step claim_stale read_group call_handler xack
  after_claim_one m base ws ps hd ak db =
      rw (==_refl, (accepts m.fields db).1, ==_refl, not_below 0 n (omega arith)) refl

  after_read_one :
      (m : Message) (base : System D) (ws hd ak : List Message) (db : D)
      → run handler (suc n) read_one (at_claiming base (m ∷ ws) [] hd ak db)
        ≡ at_claiming base ws [] (m ∷ hd) (m ∷ ak) (accepts m.fields db).0
  unfolding run step claim_stale read_group call_handler xack
  after_read_one m base ws hd ak db =
      rw (not_below 1 n (omega arith), (accepts m.fields db).1, ==_refl) refl

  run-append :
      (es fs : List Event) (s : System D)
      → run handler (suc n) (es ++ fs) s ≡ run handler (suc n) fs (run handler (suc n) es s)
  unfolding run
  run-append [] fs s = refl
  run-append (e ∷ es) fs s = run-append es fs (step handler (suc n) e s)

  NoProduce-append : (es fs : List Event) → NoProduce es → NoProduce fs → NoProduce (es ++ fs)
  NoProduce-append [] fs h k = k
  NoProduce-append (produce m ∷ es) fs h k = absurd h
  NoProduce-append (trims j ∷ es) fs h k = absurd h
  NoProduce-append (ack_lost ∷ es) fs h k = NoProduce-append es fs h k
  NoProduce-append (claims ms ∷ es) fs h k = NoProduce-append es fs h k
  NoProduce-append (claim_fails ∷ es) fs h k = NoProduce-append es fs h k
  NoProduce-append (reads j ∷ es) fs h k = NoProduce-append es fs h k
  NoProduce-append (read_fails ∷ es) fs h k = NoProduce-append es fs h k
  NoProduce-append (proceed ∷ es) fs h k = NoProduce-append es fs h k
  NoProduce-append (acks ∷ es) fs h k = NoProduce-append es fs h k
  NoProduce-append (ack_fails ∷ es) fs h k = NoProduce-append es fs h k
  NoProduce-append (stops ∷ es) fs h k = NoProduce-append es fs h k
  NoProduce-append (restarts ∷ es) fs h k = NoProduce-append es fs h k

  -- Events without a new message take the system to one with nothing left to do.
  record Drains (base s : System D) : Type 0 where
    events : List Event
    quiet : NoProduce events
    hd : List Message
    ak : List Message
    db : D
    outcome : run handler (suc n) events s ≡ at_claiming base [] [] hd ak db

  Drains-after :
      (es : List Event) (base s t : System D)
      → NoProduce es
      → run handler (suc n) es s ≡ t
      → Drains base t
      → Drains base s
  Drains-after es base s t quiet reach d = record {
    events = es ++ d.events;
    quiet = NoProduce-append es d.events quiet d.quiet;
    hd = d.hd;
    ak = d.ak;
    db = d.db;
    outcome = run-append es d.events s ∙ (ap (run handler (suc n) d.events) reach ∙ d.outcome);
  }

  Drains-waiting :
      (base : System D) (ws hd ak : List Message) (db : D)
      → Drains base (at_claiming base ws [] hd ak db)
  unfolding run
  Drains-waiting base [] hd ak db = record {
    events = [];
    quiet = tt;
    hd = hd;
    ak = ak;
    db = db;
    outcome = refl;
  }
  Drains-waiting base (m ∷ ws) hd ak db =
      Drains-after read_one base _ _ tt (after_read_one m base ws hd ak db)
        (Drains-waiting base ws (m ∷ hd) (m ∷ ak) (accepts m.fields db).0)

  length-delete : (p : Message → Bool) (xs : List Message) → length (delete p xs ++ []) ≤ length xs
  length-delete p [] = omega arith
  length-delete p (x ∷ xs) = ground (arith, length-delete p xs)

  Drains-pending :
      (k : ℕ) (base : System D) (ws ps hd ak : List Message) (db : D)
      → length ps ≤ k
      → Drains base (at_claiming base ws ps hd ak db)
  Drains-pending k base ws [] hd ak db h = Drains-waiting base ws hd ak db
  Drains-pending zero base ws (m ∷ ps) hd ak db h = absurd (omega (arith, h))
  Drains-pending (suc k) base ws (m ∷ ps) hd ak db h =
      Drains-after (claim_one m) base _ _ tt (after_claim_one m base ws ps hd ak db) (
        Drains-pending k base ws (delete (λ p. p.id == m.id) ps ++ []) (m ∷ hd) (m ∷ ak)
          (accepts m.fields db).0 (omega (arith, h, length-delete (λ p. p.id == m.id) ps)))

  Drains-any : (s : System D) → Drains s s
  unfolding run step
  Drains-any s =
      Drains-after (restarts ∷ []) s s _ tt refl (
        Drains-pending (length s.pending) s s.waiting s.pending s.handled s.acked s.db
          (omega arith))

  -- If the handler returns on every message, then whatever has happened to the consumer, starting it
  -- again can have every message acknowledged that was ever produced and not trimmed, each one after
  -- the handler has returned on it, without a new message and without trimming one.
  pub backlog_can_be_acknowledged :
      (es : List Event) (db : D)
      → (more : List Event) × NoProduce more
        × ((i : ℕ)
            → let s = run handler (suc n) es (start db) in
              let t = run handler (suc n) (es ++ more) (start db) in
              has i s.produced ≡ true
              → has i s.trimmed ≡ false
              → (has i t.acked ≡ true) × (has i t.handled ≡ true))
  backlog_can_be_acknowledged es db =
      let s = run handler (suc n) es (start db) in
      let d = Drains-any s in
      (
        d.events,
        d.quiet,
        λ i h intact.
            let (kept, full, honest) = no_message_is_lost handler (suc n) (es ++ d.events) db i in
            let reach = run-append es d.events (start db) ∙ d.outcome in
            let kept' = rw reach at kept in
            let honest' = rw reach at honest in rw reach (ground arith),
      )
