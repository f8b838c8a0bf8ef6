-- ===== src/Queue/Worker/Loop/Rounds.antt =====
-- The rounds of `runLoop` (internal/adapter/queue/database.go): which queues a worker asks before it
-- waits, and how often each stands in a round.
use golang_clean_architectur.Common.{
  ℕ, zero, suc, ◌+◌, ◌%◌, ◌<◌, ◌≡◌, refl, true, false, ltb, sym, ◌∙◌, ◌⊎◌, ap, Option, none, some,
  String, List, [], ◌∷◌, ◌++◌, arith, str_eq, count_where, replicate, if◌then◌else◌, length, inl,
  inr,
}
use native.Mathlib.Nat.{mod-add-mod, mod-eq_of_lt, mod-lt, add-mod_right}
use mathlib.Core.Path.{subst}
use mathlib.Core.List.{append-nil}
use golang_clean_architectur.Common.Int.{ℤ, to_ℕ}
use golang_clean_architectur.Errors.{Result, ok, err}
use golang_clean_architectur.Queue.{DatabaseJob}
use golang_clean_architectur.Queue.Worker.Loop.{
  LoopState, Reserve, Turn, asked_turn, resume, wait, work, turn, round, after_reserve, queue_at,
  weighted_queue_names, sort_queues, insert_queue, repeat_names,
}

-- The start of a round.
abbrev pub start : ℕ → LoopState
start i = record { index = i; empty_reserves = 0 }

-- What asking the queues of a list in their order comes to, up to the first answer that is a job or an
-- error: the queues asked, what is done next, and the session. The next index is `at` for the number
-- of queues that were asked.
abbrev pub ended_by :
    {S : Type 0} → String → Result (Option DatabaseJob) → (ℕ → ℕ) → S → Turn S → Turn S
ended_by queue answer at z rest = elim answer [
  | err e ↦ record { asked = queue ∷ []; next = wait; loop = start (at 1); session = z }
  | ok found ↦ elim found [
    | some job ↦ record { asked = queue ∷ []; next = work job; loop = start (at 1); session = z }
    | none ↦ record rest { asked = queue ∷ rest.asked }
  ]
]

abbrev pub ask : {S : Type 0} → Reserve S → List String → (ℕ → ℕ) → S → Turn S
ask reserve [] at z = record { asked = []; next = wait; loop = start (at 0); session = z }
ask reserve (queue ∷ queues) at z =
    let (answer, z') = reserve queue z in
    ended_by queue answer at z' (ask reserve queues (λ k. at (suc k)) z')

resumed :
    {S : Type 0} (q : String) (n : ℕ) (s : LoopState) (answer : Result (Option DatabaseJob)) (z : S)
    (at : ℕ → ℕ) (go : LoopState → S → Turn S) (rest : Turn S)
    → at 1 ≡ (s.index + 1) % n
    → ((ltb (s.empty_reserves + 1) n ≡ true)
        × (go (record { index = (s.index + 1) % n; empty_reserves = s.empty_reserves + 1 }) z
            ≡ rest))
      ⊎ ((ltb (s.empty_reserves + 1) n ≡ false)
          × (rest ≡ record { asked = []; next = wait; loop = start (at 1); session = z }))
    → resume (asked_turn q n s answer z) go ≡ ended_by q answer at z rest
unfolding after_reserve
resumed q n s (err e) z at go rest next h = rw next refl
resumed q n s (ok (some job)) z at go rest next h = rw next refl
resumed q n s (ok none) z at go rest next (inl (more, same)) = rw (more, same) refl
resumed q n s (ok none) z at go rest next (inr (last, same)) = rw (last, same, next) refl

turn-found :
    {S : Type 0} (reserve : Reserve S) (queues : List String) (q : String) (s : LoopState) (z : S)
    → queue_at queues s.index ≡ some q
    → let (answer, z') = reserve q z in
      turn reserve queues s z ≡ asked_turn q (length queues) s answer z'
unfolding turn
turn-found reserve queues q s z found = rw (found, turn) refl

-- The queues from an index on, around the end.
Around : List String → ℕ → List String → Type 0
Around queues j [] = Unit {0}
Around queues j (q ∷ qs) = (queue_at queues j ≡ some q) × Around queues ((j + 1) % length queues) qs

next_index : (j k n : ℕ) → ((j + 1) % n + k) % n ≡ (j + suc k) % n
next_index j k n =
    mod-add-mod (j + 1) n k ∙ ap (λ x. x % n) (let e : j + 1 + k ≡ j + suc k = omega arith in e)

module _ {S : Type 0} (reserve : Reserve S) (queues : List String) where
  round-ask :
      (q : String) (qs : List String) (j e : ℕ) (z : S) (at : ℕ → ℕ)
      → Around queues j (q ∷ qs)
      → e + suc (length qs) ≡ length queues
      → ((k : ℕ) → at k ≡ (j + k) % length queues)
      → round reserve queues (suc (length qs)) (record { index = j; empty_reserves = e }) z
        ≡ ask reserve (q ∷ qs) at z
  unfolding round Around
  round-ask q [] j e z at (found, rest) count index =
      let (answer, z') = reserve q z in
      ap (λ t. resume t (round reserve queues 0))
        (turn-found reserve queues q (record { index = j; empty_reserves = e }) z found)
      ∙ resumed q (length queues) (record { index = j; empty_reserves = e }) answer z' at
          (round reserve queues 0) _ (index 1) (inr (ground (arith, count), refl))
  round-ask q (q' ∷ qs) j e z at (found, rest) count index =
      let (answer, z') = reserve q z in
      ap (λ t. resume t (round reserve queues (suc (length qs))))
        (turn-found reserve queues q (record { index = j; empty_reserves = e }) z found)
      ∙ resumed q (length queues) (record { index = j; empty_reserves = e }) answer z' at
          (round reserve queues (suc (length qs))) _ (index 1)
          (inl (
            ground (arith, count),
            round-ask q' qs ((j + 1) % length queues) (e + 1) z' (λ k. at (suc k)) rest
                (omega (arith, count)) (λ k. index (suc k) ∙ sym (next_index j k (length queues))),
          ))

queue_at-prefix :
    (pre rest : List String) (q : String) → queue_at (pre ++ q ∷ rest) (length pre) ≡ some q
unfolding queue_at
queue_at-prefix [] rest q = refl
queue_at-prefix (p ∷ pre) rest q = queue_at-prefix pre rest q

length-append : (xs ys : List String) → length (xs ++ ys) ≡ length xs + length ys
length-append [] ys = omega arith
length-append (x ∷ xs) ys = omega (arith, length-append xs ys)

append-snoc :
    (pre : List String) (q : String) (rest : List String)
    → pre ++ q ∷ rest ≡ (pre ++ q ∷ []) ++ rest
append-snoc [] q rest = refl
append-snoc (p ∷ pre) q rest = ap (λ l. p ∷ l) (append-snoc pre q rest)

Around-middle :
    (queues pre mid post : List String) (j : ℕ)
    → queues ≡ pre ++ (mid ++ post)
    → j ≡ length pre % length queues
    → Around queues j mid
unfolding Around
Around-middle queues pre [] post j e at = tt
Around-middle queues pre (q ∷ mid) post j e at =
    let n = length queues in
    let whole : n ≡ length (pre ++ q ∷ (mid ++ post)) = ap length e in
    let parts = length-append pre (q ∷ (mid ++ post)) in
    let total : n ≡ length pre + suc (length (mid ++ post)) = omega (arith, whole, parts) in
    let here : j ≡ length pre = at ∙ mod-eq_of_lt (omega (arith, total)) in
    (
      ap (λ l. queue_at l j) e
          ∙ ap (queue_at (pre ++ ((q ∷ mid) ++ post))) here
          ∙ queue_at-prefix pre (mid ++ post) q,
      Around-middle queues (pre ++ q ∷ []) mid post ((j + 1) % n)
          (e ∙ append-snoc pre q (mid ++ post))
          (ap (λ x. (x + 1) % n) at
            ∙ mod-add-mod (length pre) n 1
            ∙ ap (λ x. x % n) (sym (length-append pre (q ∷ [])))),
    )

Around-append :
    (queues xs ys : List String) (j : ℕ)
    → Around queues j xs
    → Around queues ((j + length xs) % length queues) ys
    → j < length queues
    → Around queues j (xs ++ ys)
unfolding Around
Around-append queues [] ys j h k inside =
    subst (λ i. Around queues i ys) (ground (arith, mod-eq_of_lt inside)) k
Around-append queues (x ∷ xs) ys j (found, h) k inside = (
  found,
  Around-append queues xs ys ((j + 1) % length queues) h
      (subst (λ i. Around queues i ys) (sym (next_index j (length xs) (length queues))) k)
      (mod-lt (j + 1) (omega (arith, inside))),
)

-- A worker whose index stands at a queue asks each of its weighted queues once, in their order from that
-- one on and around the end, until an answer is a job or an error: as if it asked the queues of the
-- rotated list one after the other. A job is worked on at once, an error makes it wait, and so does
-- the end of the list; the next round starts behind the last queue that was asked.
pub round_asks_all :
    {S : Type 0} (reserve : Reserve S) (before : List String) (queue : String) (after : List String)
    (z : S)
    → let queues = before ++ queue ∷ after in
      round reserve queues (length queues) (start (length before)) z
      ≡ ask reserve (queue ∷ after ++ before) (λ k. (length before + k) % length queues) z
round_asks_all reserve before queue after z =
    let queues = before ++ queue ∷ after in
    let n = length queues in
    let total : n ≡ length before + suc (length after) = length-append before (queue ∷ after) in
    let inside : length before < n = omega (arith, total) in
    let turned : suc (length (after ++ before)) ≡ n =
      omega (arith, total, length-append after before) in
    let zeroed : n ≡ 0 + n = omega arith in
    let wrap : n % n ≡ 0 % n = ap (λ x. x % n) zeroed ∙ add-mod_right 0 n in
    let all : Around queues (length before) ((queue ∷ after) ++ before) =
      Around-append queues (queue ∷ after) before (length before)
        (Around-middle queues before (queue ∷ after) [] (length before)
          (ap (λ l. before ++ queue ∷ l) (sym (append-nil after))) (sym (mod-eq_of_lt inside)))
        (Around-middle queues [] before (queue ∷ after) _ refl (ap (λ x. x % n) (sym total) ∙ wrap))
        inside in
    let wholly : 0 + suc (length (after ++ before)) ≡ n = omega (arith, turned) in
    ap (λ fuel. round reserve queues fuel (start (length before)) z) (sym turned)
    ∙ round-ask reserve queues queue (after ++ before) (length before) 0 z _ all wholly (λ k. refl)

-- The weights that the settings give a queue, together.
abbrev pub weight_of : String → List (String × ℤ) → ℕ
weight_of name [] = 0
weight_of name ((other, weight) ∷ queues) =
    let rest = weight_of name queues in if str_eq other name then to_ℕ weight + rest else rest

count-replicate :
    (name other : String) (n : ℕ) (rest : List String)
    → count_where (λ x. str_eq x name) (replicate n other ++ rest)
      ≡ (if str_eq other name then n else 0) + count_where (λ x. str_eq x name) rest
count-replicate name other zero rest = ground arith
count-replicate name other (suc n) rest = ground (arith, count-replicate name other n rest)

insert-counts :
    (name other : String) (weight : ℤ) (queues : List (String × ℤ))
    → count_where (λ x. str_eq x name) (repeat_names (insert_queue (other, weight) queues))
      ≡ (if str_eq other name then to_ℕ weight else 0)
        + count_where (λ x. str_eq x name) (repeat_names queues)
unfolding insert_queue repeat_names
insert-counts name other weight [] = count-replicate name other (to_ℕ weight) []
insert-counts name other weight ((o, w) ∷ queues) = ground (
  arith,
  insert-counts name other weight queues,
  count-replicate name o (to_ℕ w) (repeat_names (insert_queue (other, weight) queues)),
  count-replicate name o (to_ℕ w) (repeat_names queues),
  count-replicate name other (to_ℕ weight) (replicate (to_ℕ w) o ++ repeat_names queues),
)

-- A round asks each queue as often as its weights say, where a weight that is not positive counts as
-- none.
pub weighted_queue_names-counts :
    (name : String) (queues : List (String × ℤ))
    → count_where (λ x. str_eq x name) (weighted_queue_names queues) ≡ weight_of name queues
unfolding weighted_queue_names sort_queues repeat_names
weighted_queue_names-counts name [] = refl
weighted_queue_names-counts name ((other, weight) ∷ queues) =
    insert-counts name other weight (sort_queues queues)
    ∙ ground (arith, weighted_queue_names-counts name queues)
