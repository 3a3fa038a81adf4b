-- ===== src/Core/RateLimit/Window.antt =====
-- No window holds more requests than the limit, over a Redis that answers.
use pstu_backend.Prelude.{
  ℕ, ◌+◌, ◌≤◌, ◌<◌, ◌≡◌, ◌∙◌, refl, sym, ap, arith, Uuid, Text, Bool, true, false, Option, List, [],
  ◌∷◌, leb, inl, inr, Bool-cases, length, length-where_rows,
}
use pstu_backend.Core.Error.{Result, ok, err}
use pstu_backend.Core.Services.{Services, Key, WindowLaws, is_after, entries_after, has_member}
use pstu_backend.Core.App.{AppState}
use pstu_backend.Core.RateLimit.{window_start, member, check_sliding_window_rate_limit}

-- Entries after a later window's start are among those after an earlier one's.
entries_after-entries_after :
    (w now later : ℕ) (es : List (Text × ℕ))
    → now ≤ later
    → entries_after (window_start later w) (entries_after (window_start now w) es)
      ≡ entries_after (window_start later w) es
entries_after-entries_after w now later [] h = refl
entries_after-entries_after w now later (e ∷ es) h =
    ground (arith, entries_after-entries_after w now later es h)

has_member-entries_after :
    (upto : Option ℕ) (m : Text) (es : List (Text × ℕ))
    → has_member m es ≡ false
    → has_member m (entries_after upto es) ≡ false
has_member-entries_after upto m [] h = refl
has_member-entries_after upto m (e ∷ es) h = ground (arith, h, has_member-entries_after upto m es)

-- The time of the last call, from a first one on.
abbrev pub last_call : ℕ → List (ℕ × Uuid) → ℕ
last_call now [] = now
last_call now ((later, id) ∷ calls) = last_call later calls

-- No call is earlier than the one before.
abbrev pub InOrder : ℕ → List (ℕ × Uuid) → Type 0
InOrder now [] = Unit {0}
InOrder now ((later, id) ∷ calls) = (now ≤ later) × InOrder later calls

module _ (S : Services) where
  -- No member occurs twice, nor among those given.
  abbrev pub AllNew : List (Text × ℕ) → List (ℕ × Uuid) → Type 0
  AllNew used [] = Unit {0}
  AllNew used ((now, id) ∷ calls) =
      (has_member (member S now id) used ≡ false) × AllNew ((member S now id, now) ∷ used) calls

module _ (S : Services) (scope identifier : Text) (max_requests window_seconds : ℕ) where
  abbrev answer : ℕ → Uuid → AppState S.Cache → Result Bool × AppState S.Cache
  answer = check_sliding_window_rate_limit S scope identifier max_requests window_seconds

  -- The request is kept with those that were let through if the check lets it through.
  abbrev keep : Result Bool → ℕ → Uuid → List (Text × ℕ) → List (Text × ℕ)
  keep (ok true) now id es = (member S now id, now) ∷ es
  keep (ok false) now id es = es
  keep (err e) now id es = es

  -- The requests let through, the latest first, and the state after the checks of all.
  abbrev pub admitted : List (ℕ × Uuid) → List (Text × ℕ) → AppState S.Cache → List (Text × ℕ)
  admitted [] es s = es
  admitted ((now, id) ∷ calls) es s =
      admitted calls (keep (answer now id s).0 now id es) (answer now id s).1

  module _ (L : WindowLaws S) where
    abbrev stored : AppState S.Cache → List (Text × ℕ)
    stored s = L.entries (Key.rate_limit scope identifier) s.cache

    answer_full :
        (now : ℕ) (id : Uuid) (s : AppState S.Cache)
        → max_requests ≤ length (entries_after (window_start now window_seconds) (stored s))
        → ((answer now id s).0 ≡ ok false)
          × (stored (answer now id s).1
              ≡ entries_after (window_start now window_seconds) (stored s))
    unfolding check_sliding_window_rate_limit
    answer_full now id s full = ground (
      arith,
      full,
      L.trim_window-reply (Key.rate_limit scope identifier) (window_start now window_seconds)
          s.cache,
      L.entries-trim_window (Key.rate_limit scope identifier) (window_start now window_seconds)
          s.cache,
    )

    answer_room :
        (now : ℕ) (id : Uuid) (s : AppState S.Cache)
        → length (entries_after (window_start now window_seconds) (stored s)) < max_requests
        → has_member (member S now id) (stored s) ≡ false
        → ((answer now id s).0 ≡ ok true)
          × (stored (answer now id s).1
              ≡ (member S now id, now) ∷ entries_after (window_start now window_seconds) (stored s))
    unfolding check_sliding_window_rate_limit
    answer_room now id s room new =
        let k = Key.rate_limit scope identifier in
        let upto = window_start now window_seconds in
        let c = (S.trim_window k upto s.cache).1 in
        let e = L.entries-trim_window k upto s.cache in
        ground (
          arith,
          room,
          e,
          L.trim_window-reply k upto s.cache,
          L.entries-zadd k (member S now id) now c (
              ap (has_member (member S now id)) e
              ∙ has_member-entries_after upto (member S now id) (stored s) new),
          L.entries-expire k (window_seconds + 5) (S.zadd k (member S now id) now c),
        )

    -- What the requests let through and the stored set have in common at the time `now`.
    record Agrees (now : ℕ) (es used : List (Text × ℕ)) (s : AppState S.Cache) : Type 0 where
      window :
          entries_after (window_start now window_seconds) es
          ≡ entries_after (window_start now window_seconds) (stored s)
      few : length (entries_after (window_start now window_seconds) es) ≤ max_requests
      known : (m : Text) → has_member m used ≡ false → has_member m (stored s) ≡ false

    module _ (now later : ℕ) (es used : List (Text × ℕ)) (s : AppState S.Cache)
        (a : Agrees now es used s) (h : now ≤ later) where
      -- The window at the later time, of the requests let through and of the stored set.
      window-later :
          entries_after (window_start later window_seconds) es
          ≡ entries_after (window_start later window_seconds) (stored s)
      window-later =
          sym (entries_after-entries_after window_seconds now later es h)
          ∙ ap (entries_after (window_start later window_seconds)) a.window
          ∙ entries_after-entries_after window_seconds now later (stored s) h

      few_later : length (entries_after (window_start later window_seconds) es) ≤ max_requests
      few_later = omega (
        arith,
        a.few,
        ap (length {A = Text × ℕ}) (entries_after-entries_after window_seconds now later es h),
        length-where_rows (λ (e : Text × ℕ). is_after (window_start later window_seconds) e.1)
            (entries_after (window_start now window_seconds) es),
      )

      again :
          entries_after
            (window_start later window_seconds)
            (entries_after (window_start later window_seconds) (stored s))
          ≡ entries_after (window_start later window_seconds) (stored s)
      again = entries_after-entries_after window_seconds later later (stored s) (omega arith)

      answer-Agrees :
          (id : Uuid)
          → has_member (member S later id) used ≡ false
          → Agrees later
              (keep (answer later id s).0 later id es)
              ((member S later id, later) ∷ used)
              (answer later id s).1
      answer-Agrees id new =
          elim (Bool-cases (
            leb max_requests
              (length (entries_after (window_start later window_seconds) (stored s))))) [
                | inl full ↦
                    let (no_room, kept) = answer_full later id s (ground (arith, full)) in
                    record {
                      window = rw (no_room, kept) (window-later ∙ sym again);
                      few = rw no_room few_later;
                      known = λ m n. rw kept (
                          has_member-entries_after (window_start later window_seconds) m (stored s)
                            (a.known m (ground (arith, n))));
                    }
                | inr room ↦
                    let (passed, kept) =
                      answer_room later id s (ground (arith, room))
                        (a.known (member S later id) new) in
                    record {
                      window = rw (passed, kept) (ground (arith, window-later, again));
                      few = rw passed (ground (arith, room, window-later));
                      known = λ m n. rw kept (
                          ground (
                            arith,
                            n,
                            has_member-entries_after (window_start later window_seconds) m
                                (stored s) (a.known m (ground (arith, n))),
                          ));
                    }
              ]

    admitted-Agrees :
        (now : ℕ) (calls : List (ℕ × Uuid)) (es used : List (Text × ℕ)) (s : AppState S.Cache)
        → Agrees now es used s
        → InOrder now calls
        → AllNew S used calls
        → length (
            entries_after (window_start (last_call now calls) window_seconds) (admitted calls es s))
          ≤ max_requests
    admitted-Agrees now [] es used s a o n = a.few
    admitted-Agrees now ((later, id) ∷ calls) es used s a o n =
        admitted-Agrees later calls (keep (answer later id s).0 later id es)
          ((member S later id, later) ∷ used) (answer later id s).1
          (answer-Agrees now later es used s a o.0 id n.0) o.1 n.1

    -- With a Redis that answers: of requests checked one after another under one key that is empty
    -- at first, with times that do not go back and members that differ, at most the limit are let
    -- through in the window that ends at the last.
    pub admitted_le :
        (now : ℕ) (calls : List (ℕ × Uuid)) (s : AppState S.Cache)
        → L.entries (Key.rate_limit scope identifier) s.cache ≡ []
        → InOrder now calls
        → AllNew S [] calls
        → length (
            entries_after (window_start (last_call now calls) window_seconds) (admitted calls [] s))
          ≤ max_requests
    admitted_le now calls s empty o n =
        admitted-Agrees now calls [] [] s
          (record { window = rw empty; few = omega arith; known = λ m e. rw empty }) o n
