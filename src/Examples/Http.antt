-- ===== src/Examples/Http.antt =====
-- packages/chassis/httpx: a stream with one event and a comment, and one client over its limit.
use cofound.Prelude.{◌+◌, ◌-◌, ◌*◌, ◌≤◌, ◌≡◌, refl, none, List, [], ◌∷◌, arith}
use cofound.Errs.Code.{codes}
use cofound.Httpx.Sse.{Write, written}
use cofound.Httpx.Sse.Client.{lines, read}
use cofound.Httpx.Sse.Relayed.{idle}
use cofound.Httpx.Sse.Received.{received, read-written}
use cofound.Httpx.RateLimit.{RateLimit, new_store, capacity}
use cofound.Httpx.RateLimit.Ledger.{
  Calls, InOrder, answers, ledger_answers, last_time, store_after, granted,
}
use cofound.Httpx.RateLimit.Refines.{answers-ledger_answers}
use cofound.Httpx.RateLimit.Admitted.{granted_le}

abbrev progress : List Write
progress =
    Write.sends (record { id = codes "7"; name = codes "turn"; body = codes "a"; retry = 0 })
    ∷ Write.comments (codes "hello")
    ∷ []

read-written_example : read (lines (written progress)) (idle [] 3) ≡ received progress [] 3
read-written_example = read-written progress [] 3

-- Two tokens a second, in half seconds; at most one.
abbrev limit : RateLimit
limit = record { rate = 2; burst = 1000000000; one = 1000000000 }

abbrev burst_of_calls : Calls
burst_of_calls = ("ip:a", 100) ∷ ("ip:a", 100) ∷ ("ip:b", 200) ∷ []

burst_of_calls-InOrder : InOrder 0 burst_of_calls
unfolding InOrder
burst_of_calls-InOrder = (omega arith, (omega arith, (omega arith, tt)))

answers-ledger_answers_example :
    answers limit burst_of_calls new_store ≡ ledger_answers limit burst_of_calls (λ k. none)
answers-ledger_answers_example = answers-ledger_answers limit burst_of_calls burst_of_calls-InOrder

abbrev later_calls : Calls
later_calls = ("ip:a", 70000000000) ∷ ("ip:a", 70000000001) ∷ []

granted_le_example :
    granted "ip:a" later_calls
        (answers limit later_calls (store_after limit burst_of_calls new_store))
      * 1000000000
    ≤ capacity limit + (last_time 70000000000 later_calls - 70000000000) * 2
granted_le_example =
    granted_le limit "ip:a" burst_of_calls later_calls 70000000000 refl burst_of_calls-InOrder
      (unfold last_time in omega arith) (unfold InOrder in (omega arith, (omega arith, tt)))
