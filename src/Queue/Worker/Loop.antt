-- ===== src/Queue/Worker/Loop.antt =====
-- internal/adapter/queue/database.go: `runLoop`, one turn at a time, and the weighted round of
-- queues that it walks. `S` is what a reservation acts on, with the readings of its calls.
pub mod Rounds
use Prim.Native.String.{compare as compare_text}
use text.Mathlib.Text.{is_le}
use golang_clean_architectur.Common.{
  ℕ, zero, suc, ◌+◌, ◌%◌, Option, none, some, String, List, [], ◌∷◌, ◌++◌, ltb, if◌then◌else◌,
  replicate, length,
}
use golang_clean_architectur.Common.Int.{ℤ, to_ℕ}
use golang_clean_architectur.Errors.{Result, ok, err}
use golang_clean_architectur.Queue.{DatabaseJob}

-- The entries of the map in the order of their names, by `sort.Strings`.
unfoldable pub insert_queue : String × ℤ → List (String × ℤ) → List (String × ℤ)
insert_queue q [] = q ∷ []
insert_queue q (x ∷ xs) =
    let later = x ∷ insert_queue q xs in if is_le (compare_text q.0 x.0) then q ∷ x ∷ xs else later

unfoldable pub sort_queues : List (String × ℤ) → List (String × ℤ)
sort_queues [] = []
sort_queues (q ∷ queues) = insert_queue q (sort_queues queues)

-- Each name as often as its weight says.
unfoldable pub repeat_names : List (String × ℤ) → List String
repeat_names [] = []
repeat_names ((name, weight) ∷ queues) = replicate (to_ℕ weight) name ++ repeat_names queues

-- `weightedQueueNames`
unfoldable pub weighted_queue_names : List (String × ℤ) → List String
weighted_queue_names queues = repeat_names (sort_queues queues)

-- The variables of the loop.
pub record LoopState : Type 0 where
  pub index : ℕ
  pub empty_reserves : ℕ

-- What a turn does next: reserve again at once, wait for `pollInterval`, or process the job. An index
-- that is out of range panics.
pub data Next : Type 0 where
  again wait panic : Next
  work : DatabaseJob → Next

-- A reservation in a queue.
abbrev pub Reserve : Type 0 → Type 0
Reserve S = String → S → Result (Option DatabaseJob) × S

-- `w.weightedQueues[index]`
unfoldable pub queue_at : List String → ℕ → Option String
queue_at [] index = none
queue_at (q ∷ queues) zero = some q
queue_at (q ∷ queues) (suc index) = queue_at queues index

-- What follows an answer of `reserve`, with the next index.
unfoldable pub after_reserve : ℕ → ℕ → ℕ → Result (Option DatabaseJob) → Next × LoopState
after_reserve queues next empty_reserves (ok (some job)) =
    (work job, record { index = next; empty_reserves = 0 })
after_reserve queues next empty_reserves (ok none) =
    if ltb (empty_reserves + 1) queues
    then (again, record { index = next; empty_reserves = empty_reserves + 1 })
    else (wait, record { index = next; empty_reserves = 0 })
after_reserve queues next empty_reserves (err e) =
    (wait, record { index = next; empty_reserves = 0 })

-- What a turn leaves: the queue that it asked, what it does next, and the states.
pub record Turn (S : Type 0) : Type 0 where
  pub asked : List String
  pub next : Next
  pub loop : LoopState
  pub session : S

-- A turn that asked a queue, for the answer.
abbrev pub asked_turn :
    {S : Type 0} → String → ℕ → LoopState → Result (Option DatabaseJob) → S → Turn S
asked_turn queue queues s answer z =
    let (next, s') = after_reserve queues ((s.index + 1) % queues) s.empty_reserves answer in
    record { asked = queue ∷ []; next = next; loop = s'; session = z }

-- The turns after one, where it goes on at once.
abbrev pub resume : {S : Type 0} → Turn S → (LoopState → S → Turn S) → Turn S
resume t go = elim t.next [
  | again ↦ let rest = go t.loop t.session in record rest { asked = t.asked ++ rest.asked }
  | wait ↦ t
  | panic ↦ t
  | work job ↦ t
]

module _ {S : Type 0} (reserve : Reserve S) (queues : List String) where
  -- One turn of the `for`.
  unfoldable pub turn : LoopState → S → Turn S
  turn s z = elim (queue_at queues s.index) [
    | none ↦ record { asked = []; next = panic; loop = s; session = z }
    | some queue ↦
        let (answer, z') = reserve queue z in asked_turn queue (length queues) s answer z'
  ]

  -- The turns up to the first that does not go on at once, at most `fuel`: the queues that were
  -- asked, in their order, and what comes next.
  unfoldable pub round : ℕ → LoopState → S → Turn S
  round zero s z = record { asked = []; next = again; loop = s; session = z }
  round (suc fuel) s z = resume (turn s z) (round fuel)
