-- ===== src/Stream/Delivery.antt =====
-- What becomes of a message: it waits, is pending, and is acknowledged.
use ark_esp_backend.Prelude.{
  ℕ, zero, suc, ◌≡◌, refl, inl, inr, Bool, true, false, ◌||◌, List, [], ◌∷◌, ◌++◌, ◌==◌, arith,
  Bool-cases, ap, ◌-◌, ◌+◌, ◌≤◌, leb, ==_iff,
}
use ark_esp_backend.Prelude.Table.{delete}
use ark_esp_backend.Pagination.{length, take}
use ark_esp_backend.Stream.Consumer.{
  Message, Handler, Batch, claimed, fresh, Place, claiming, reading, handling, acknowledging, dead,
  System, Event, produce, claims, reads, read_fails, proceed, acks, ack_fails, stops, restarts, has,
  drop, next_place, claim_stale, read_group, after_handler, call_handler, xack, trim, max_len,
  trims, ack_lost, at_place, step, run, start,
}

has-append : (i : ℕ) (xs ys : List Message) → has i (xs ++ ys) ≡ (has i xs || has i ys)
has-append i [] ys = refl
has-append i (x ∷ xs) ys = ground (arith, has-append i xs ys)

has-take-drop : (i n : ℕ) (xs : List Message) → (has i (take n xs) || has i (drop n xs)) ≡ has i xs
has-take-drop i zero xs = refl
has-take-drop i (suc n) [] = refl
has-take-drop i (suc n) (x ∷ xs) = ground (arith, has-take-drop i n xs)

length-drop : (n : ℕ) (xs : List Message) → length (drop n xs) ≡ length xs - n
length-drop zero xs = omega arith
length-drop (suc n) [] = omega arith
length-drop (suc n) (x ∷ xs) = ground (arith, length-drop n xs)

length-append : (xs ys : List Message) → length (xs ++ ys) ≡ length xs + length ys
length-append [] ys = omega arith
length-append (x ∷ xs) ys = ground (arith, length-append xs ys)

-- A deletion by id takes away that id alone.
has-delete :
    (i j : ℕ) (xs : List Message)
    → (has i (delete (λ p. p.id == j) xs) || j == i) ≡ (has i xs || j == i)
has-delete i j [] = refl
has-delete i j (x ∷ xs) = ground (arith, has-delete i j xs)

-- What is not among the entries that are taken away is kept.
has-delete_all :
    (i : ℕ) (taken xs : List Message)
    → (has i (delete (λ p. has p.id taken) xs) || has i taken) ≡ (has i xs || has i taken)
has-delete_all i taken [] = refl
has-delete_all i taken (x ∷ xs) =
    let rest = has-delete_all i taken xs in
    elim (Bool-cases (x.id == i)) [
      | inl own ↦
          let same : has x.id taken ≡ has i taken = ap (λ j. has j taken) ((==_iff x.id i).0 own) in
          ground (arith, rest, same)
      | inr other ↦ ground (arith, rest)
    ]

-- The message that is to be acknowledged was handled.
abbrev pub IsHandled : Place → List Message → Type 0
IsHandled (acknowledging b m ms) handled = has m.id handled ≡ true
IsHandled _ handled = Unit

module _ {D : Type 0} where
  -- the message waits, is pending, or was acknowledged
  abbrev pub is_kept : ℕ → System D → Bool
  is_kept i s = has i s.waiting || (has i s.pending || has i s.acked)

  pub record IsAccounted (s : System D) : Type 0 where
    pub kept : (i : ℕ) → has i s.produced ≡ true → (is_kept i s || has i s.trimmed) ≡ true
    pub full : (i : ℕ) → has i s.trimmed ≡ true → max_len ≤ length s.stream
    pub honest : (i : ℕ) → has i s.acked ≡ true → has i s.handled ≡ true
    pub current : IsHandled s.place s.handled

  module _ (handler : Handler D) where
    IsAccounted-call :
        (b : Batch) (m : Message) (ms : List Message) (s : System D)
        → IsAccounted s
        → IsAccounted (call_handler handler b m ms s)
    unfolding call_handler
    IsAccounted-call b m ms s inv = go (handler m.fields s.db)
      where
        go : (r : Bool × D) → IsAccounted (after_handler b m ms s r)
        go (true, db) = record {
          kept = inv.kept;
          full = inv.full;
          honest = λ i h. let old = inv.honest i h in ground arith;
          current = ground arith;
        }
        go (false, db) = record {
          kept = inv.kept;
          full = inv.full;
          honest = inv.honest;
          current = tt;
        }

    IsAccounted-read : (n : ℕ) (s : System D) → IsAccounted s → IsAccounted (read_group n s)
    unfolding read_group
    IsAccounted-read n s inv = record {
      kept = λ i h.
          let old = inv.kept i h in
          ground (arith, has-append i s.pending (take n s.waiting), has-take-drop i n s.waiting);
      full = inv.full;
      honest = inv.honest;
      current = tt;
    }

    IsAccounted-xack :
        (b : Batch) (m : Message) (ms : List Message) (s : System D)
        → has m.id s.handled ≡ true
        → IsAccounted s
        → IsAccounted (xack b m ms s)
    unfolding xack
    IsAccounted-xack b m ms s handled inv = record {
      kept = λ i h. let old = inv.kept i h in ground (arith, has-delete i m.id s.pending);
      full = inv.full;
      honest = λ i h. elim (Bool-cases (m.id == i)) [
        | inl same ↦ ground (arith, handled)
        | inr other ↦ inv.honest i (rw other at h)
      ];
      current = tt;
    }

    IsAccounted-trim : (n : ℕ) (s : System D) → IsAccounted s → IsAccounted (trim n s)
    unfolding trim
    IsAccounted-trim n s inv = elim (Bool-cases (leb max_len (length s.stream - n))) [
      | inr short ↦ rw short inv
      | inl long ↦ rw long (record {
        kept = λ i h.
            let old = inv.kept i h in
            let oldest = take n s.stream in
            ground (
              arith,
              has-append i oldest s.trimmed,
              has-delete_all i oldest s.waiting,
              has-delete_all i oldest s.pending,
            );
        full = λ i h. ground (arith, length-drop n s.stream, long);
        honest = inv.honest;
        current = inv.current;
      })
    ]

    IsAccounted-move :
        (p : Place) (s : System D)
        → IsHandled p s.handled
        → IsAccounted s
        → IsAccounted (record s { place = p })
    IsAccounted-move p s h inv = record {
      kept = inv.kept;
      full = inv.full;
      honest = inv.honest;
      current = h;
    }

    at_next : (b : Batch) (s : System D) → IsHandled (next_place b) s.handled
    at_next claimed s = tt
    at_next fresh s = tt

    -- What stands at a place was handled, if the consumer comes there by an event.
    IsAccounted-at :
        (n : ℕ) (p : Place) (e : Event) (s : System D)
        → IsHandled p s.handled
        → IsAccounted s
        → IsAccounted (at_place handler n p e s)
    IsAccounted-at n claiming (claims ms) s h inv =
        unfold claim_stale in IsAccounted-move (handling _ _) s tt inv
    IsAccounted-at n claiming stops s h inv = IsAccounted-move dead s tt inv
    IsAccounted-at n reading (reads k) s h inv = IsAccounted-read _ s inv
    IsAccounted-at n reading read_fails s h inv = IsAccounted-move claiming s tt inv
    IsAccounted-at n (handling b []) proceed s h inv =
        IsAccounted-move (next_place b) s (at_next b s) inv
    IsAccounted-at n (handling b (m ∷ ms)) proceed s h inv = IsAccounted-call b m ms s inv
    IsAccounted-at n (acknowledging b m ms) acks s h inv = IsAccounted-xack b m ms s h inv
    IsAccounted-at n (acknowledging b m ms) ack_fails s h inv = IsAccounted-move dead s tt inv
    IsAccounted-at n (acknowledging b m ms) ack_lost s h inv =
        IsAccounted-move dead (xack b m ms s) tt (IsAccounted-xack b m ms s h inv)
    IsAccounted-at n _ _ s h inv = inv

    IsAccounted-step :
        (n : ℕ) (e : Event) (s : System D) → IsAccounted s → IsAccounted (step handler n e s)
    unfolding step
    IsAccounted-step n (produce m) s inv = record {
      kept = λ i h. elim (Bool-cases (m.id == i)) [
        | inl same ↦ ground (arith, has-append i s.waiting (m ∷ []))
        | inr other ↦
            let old = inv.kept i (rw other at h) in ground (arith, has-append i s.waiting (m ∷ []))
      ];
      full = λ i h. let old = inv.full i h in ground (arith, length-append s.stream (m ∷ []));
      honest = inv.honest;
      current = inv.current;
    }
    IsAccounted-step n (trims k) s inv = IsAccounted-trim k s inv
    IsAccounted-step n restarts s inv = IsAccounted-move claiming s tt inv
    IsAccounted-step n e s inv = IsAccounted-at n s.place e s inv.current inv

    IsAccounted-run :
        (n : ℕ) (es : List Event) (s : System D) → IsAccounted s → IsAccounted (run handler n es s)
    unfolding run
    IsAccounted-run n [] s inv = inv
    IsAccounted-run n (e ∷ es) s inv =
        IsAccounted-run n es (step handler n e s) (IsAccounted-step n e s inv)

    -- Whatever is produced and trimmed, whatever Redis answers and wherever the consumer fails, dies and
    -- is started again, from an empty stream on: a message that was produced still waits, is pending, was
    -- acknowledged, or was trimmed; where one was trimmed, at least `max_len` entries stand in the
    -- stream; and one that was acknowledged is one that the handler returned on.
    pub no_message_is_lost :
        (n : ℕ) (es : List Event) (db : D) (i : ℕ)
        → let s = run handler n es (start db) in
          (has i s.produced ≡ true → (is_kept i s || has i s.trimmed) ≡ true)
          × (has i s.trimmed ≡ true → max_len ≤ length s.stream)
          × (has i s.acked ≡ true → has i s.handled ≡ true)
    no_message_is_lost n es db i =
        let inv = IsAccounted-run n es (start db) (record {
          kept = λ j h. absurd (ground arith);
          full = λ j h. absurd (ground arith);
          honest = λ j h. absurd (ground arith);
          current = tt;
        }) in
        (inv.kept i, inv.full i, inv.honest i)
