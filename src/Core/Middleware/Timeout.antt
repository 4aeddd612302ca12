-- ===== src/Core/Middleware/Timeout.antt =====
-- `Timeout` of internal/core/middleware/timeout.go: one request, as the steps of the middleware and of the
-- goroutine that it starts for the next handler, in any order.
use cyandie_backend.Common.{
  ℕ, suc, ◌+◌, ◌≤◌, Bool, true, false, List, [], ◌∷◌, ◌++◌, ◌≡◌, refl, ap, ◌⊎◌, inl, inr, arith,
  if◌then◌else◌, Bool-cases,
}

-- The middleware waits in its `select`, is past the test of `written` and about to answer, or has returned.
pub data Phase : Type 0 where
  waiting answering returned : Phase

pub data Writer : Type 0 where
  by_handler by_timeout : Writer

-- `sent` are the writes to the underlying `ResponseWriter`, in order.
pub record TimeoutState : Type 0 where
  pub is_expired : Bool
  pub is_done : Bool
  pub written : Bool
  pub phase : Phase
  pub sent : List Writer

abbrev pub initial : TimeoutState
initial = record {
  is_expired = false;
  is_done = false;
  written = false;
  phase = waiting;
  sent = [];
}

-- `WriteHeader` and `Write` of `timeoutWriter`, and the end of `ServeHTTP` with `close(done)`.
pub data HandlerStep : TimeoutState → TimeoutState → Type 0 where
  write :
      (s : TimeoutState)
      → s.is_done ≡ false
      → HandlerStep s (record s { written = true; sent = s.sent ++ by_handler ∷ [] })
  close_done : (s : TimeoutState) → s.is_done ≡ false → HandlerStep s (record s { is_done = true })

-- The deadline, the two cases of the `select`, and the answer behind the test of `written`.
pub data OwnStep : TimeoutState → TimeoutState → Type 0 where
  expire : (s : TimeoutState) → OwnStep s (record s { is_expired = true })
  receive_done :
      (s : TimeoutState)
      → s.phase ≡ waiting
      → s.is_done ≡ true
      → OwnStep s (record s { phase = returned })
  receive_expired :
      (s : TimeoutState)
      → s.phase ≡ waiting
      → s.is_expired ≡ true
      → OwnStep s (record s { phase = if s.written then returned else answering })
  answer_timeout :
      (s : TimeoutState)
      → s.phase ≡ answering
      → OwnStep s (record s { phase = returned; sent = s.sent ++ by_timeout ∷ [] })

pub data OwnSteps : TimeoutState → TimeoutState → Type 0 where
  stays : (s : TimeoutState) → OwnSteps s s
  goes : {s t r : TimeoutState} → OwnStep s t → OwnSteps t r → OwnSteps s r

-- The states that a request can be in.
pub data IsReachable : TimeoutState → Type 0 where
  begins : IsReachable initial
  by_own : {s t : TimeoutState} → IsReachable s → OwnStep s t → IsReachable t
  by_other : {s t : TimeoutState} → IsReachable s → HandlerStep s t → IsReachable t

abbrev pub timeouts : List Writer → ℕ
timeouts [] = 0
timeouts (by_handler ∷ ws) = timeouts ws
timeouts (by_timeout ∷ ws) = suc (timeouts ws)

timeouts-append : (ws vs : List Writer) → timeouts (ws ++ vs) ≡ timeouts ws + timeouts vs
timeouts-append [] vs = ground arith
timeouts-append (by_handler ∷ ws) vs = timeouts-append ws vs
timeouts-append (by_timeout ∷ ws) vs = ground (arith, timeouts-append ws vs)

-- The number of answers that the middleware may have given by a phase.
abbrev allowed : Phase → ℕ
allowed waiting = 0
allowed answering = 0
allowed returned = 1

own-allowed :
    {s t : TimeoutState}
    → OwnStep s t
    → timeouts s.sent ≤ allowed s.phase
    → timeouts t.sent ≤ allowed t.phase
own-allowed (expire s) h = h
own-allowed (receive_done s at done) h = ground (arith, ap allowed at, h)
own-allowed (receive_expired s at late) h = elim (Bool-cases s.written) [
  | inl some_sent ↦ ground (arith, ap allowed at, h, some_sent)
  | inr none_sent ↦ ground (arith, ap allowed at, h, none_sent)
]
own-allowed (answer_timeout s at) h =
    ground (arith, ap allowed at, h, timeouts-append s.sent (by_timeout ∷ []))

handler-allowed :
    {s t : TimeoutState}
    → HandlerStep s t
    → timeouts s.sent ≤ allowed s.phase
    → timeouts t.sent ≤ allowed t.phase
handler-allowed (write s running) h = ground (arith, h, timeouts-append s.sent (by_handler ∷ []))
handler-allowed (close_done s running) h = h

reachable-allowed : (s : TimeoutState) → IsReachable s → timeouts s.sent ≤ allowed s.phase
reachable-allowed _ begins = omega arith
reachable-allowed _ (by_own r step) = own-allowed step (reachable-allowed _ r)
reachable-allowed _ (by_other r step) = handler-allowed step (reachable-allowed _ r)

allowed_one : (p : Phase) → allowed p ≤ 1
allowed_one waiting = omega arith
allowed_one answering = omega arith
allowed_one returned = omega arith

Phase-cases : (p : Phase) → (p ≡ waiting) ⊎ ((p ≡ answering) ⊎ (p ≡ returned))
Phase-cases waiting = inl refl
Phase-cases answering = inr (inl refl)
Phase-cases returned = inr (inr refl)

-- In every order of the steps, the answer TIMEOUT is written at most once, and never while the middleware
-- still waits for the handler.
pub timeouts-IsReachable :
    (s : TimeoutState)
    → IsReachable s
    → (timeouts s.sent ≤ 1) × (s.phase ≡ waiting → timeouts s.sent ≡ 0)
timeouts-IsReachable s r =
    let bound = reachable-allowed s r in
    (omega (arith, allowed_one s.phase), λ at. ground (arith, bound, ap allowed at))

-- Whatever the handler has done and even if it never ends, the middleware can return by steps of its own
-- once the deadline passes.
pub returns : (s : TimeoutState) → (t : TimeoutState) × OwnSteps s t × (t.phase ≡ returned)
returns s = elim (Phase-cases s.phase) [
  | inr (inr over) ↦ (s, stays s, over)
  | inr (inl at) ↦ (_, goes (answer_timeout s at) (stays _), refl)
  | inl at ↦
      let late = record s { is_expired = true } in
      elim (Bool-cases s.written) [
        | inl some_sent ↦
            (_, goes (expire s) (goes (receive_expired late at refl) (stays _)), rw some_sent refl)
        | inr none_sent ↦ (
          _,
          goes (expire s) (
              goes (receive_expired late at refl)
                (goes (answer_timeout _ (rw none_sent refl)) (stays _))),
          refl,
        )
      ]
]

-- A handler's write can follow the answer TIMEOUT, and it can come between the test of `written` and that
-- answer: then both answers are written.
pub both_answer :
    ((s : TimeoutState) × IsReachable s × (s.sent ≡ by_timeout ∷ by_handler ∷ []))
    × ((s : TimeoutState) × IsReachable s × (s.sent ≡ by_handler ∷ by_timeout ∷ []))
both_answer =
    let late = by_own begins (expire initial) in
    let tested = by_own late (receive_expired (record initial { is_expired = true }) refl refl) in
    let unanswered : TimeoutState = record initial { is_expired = true; phase = answering } in
    (
      (
        _,
        by_other (by_own tested (answer_timeout unanswered refl))
            (write (record unanswered { phase = returned; sent = by_timeout ∷ [] }) refl),
        refl,
      ),
      (
        _,
        by_own (by_other tested (write unanswered refl))
            (answer_timeout (record unanswered { written = true; sent = by_handler ∷ [] }) refl),
        refl,
      ),
    )
