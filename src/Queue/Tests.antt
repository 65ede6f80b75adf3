-- ===== src/Queue/Tests.antt =====
-- The queue's theorems at concrete queues.
use wingfoil.Base.{ℕ, ◌≡◌, refl, false, [], ◌∷◌, arith, if◌then◌else◌}
use wingfoil.Queue.{TimeQueue, nat_eq, push, pop, pop_if_pending}
use wingfoil.Queue.Order.{insert, sort}
use wingfoil.Queue.Events.{
  events, enqueue, contains, IsValid, Pops, PopsDue, events-push, pop-Pops, pop_if_pending-PopsDue,
}
use wingfoil.Queue.Once.{Once, push-Once}
use wingfoil.Queue.Drain.{drain, Drained, drain-Drained}

-- 70 is due at 3, 80 and 90 at 1, in the order in which they were queued.
abbrev three : TimeQueue ℕ
three = record {
  heap =
      record { time = 3; seq = 0; value = 70 }
      ∷ record { time = 1; seq = 1; value = 80 }
      ∷ record { time = 1; seq = 2; value = 90 }
      ∷ [];
  next_seq = 3;
}

three-IsValid : IsValid three
three-IsValid = (
  (((λ e. omega arith), ((λ e. omega arith), tt)), (((λ e. omega arith), tt), (tt, tt))),
  (omega arith, (omega arith, (omega arith, tt))),
)

three-events : events three ≡ (80, 1) ∷ (90, 1) ∷ (70, 3) ∷ []
unfolding events sort insert
three-events = refl

three-Once : Once (events three)
three-Once = rw three-events (refl, (refl, (refl, tt)))

events-push_example :
    events (push 75 2 three)
    ≡ (if contains 75 2 (events three) then events three else enqueue 75 2 (events three))
events-push_example = events-push 75 2 three three-IsValid

pop-Pops_example : Pops (events three) (pop three)
pop-Pops_example = pop-Pops three three-IsValid

pop_if_pending-PopsDue_example : PopsDue 1 (events three) three (pop_if_pending 1 three)
pop_if_pending-PopsDue_example = pop_if_pending-PopsDue 1 three three-IsValid

push-Once_example : Once (events (push 75 2 three))
push-Once_example = push-Once (λ a b. ground arith) 75 2 three three-IsValid three-Once

drain-Drained_example : Drained 2 5 false (events three) (drain 4 2 5 false three)
drain-Drained_example = drain-Drained 2 5 false three three-IsValid
