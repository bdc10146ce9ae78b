-- ===== src/Workqueue/Tests.antt =====
-- tscb/workqueue.cc: runs of the work queue, and the theorems at concrete queues.
use libtscb.Base.{ℕ, ◌≡◌, Bool, true, false, none, some, [], ◌∷◌, arith, refl, ◌==◌, if◌then◌else◌}
use libtscb.Workqueue.List.{Chain, list_erase, list_insert, walk}
use libtscb.Workqueue.List.Linked.{Holds}
use libtscb.Workqueue.List.Erase.{list_erase-Holds}
use libtscb.Workqueue.List.Insert.{list_insert-Holds, list_insert-end}
use libtscb.Workqueue.Queue.{
  Workqueue, empty, active, register_procedure, queue_procedure, normal_trigger, async_safe_trigger,
  async_enter, async_push, async_leave, transfer_one, transfer_loop, transfer_async_triggered,
  trigger, release, move_to_active, move_to_inactive, Ending, finished, run_one, drain, run_work,
  guarded, dispatch,
}

-- The links 1, 2 and 3 in this order.
abbrev three : Chain
three = record {
  nodes = record {
    prev = λ p. if p == 2 then 1 else if p == 3 then 2 else 0;
    next = λ p. if p == 1 then 2 else if p == 2 then 3 else 0;
  };
  ends = record { first = 1; last = 3 };
}

three-Holds : Holds three (1 ∷ 2 ∷ 3 ∷ [])
three-Holds = record { linked = omega arith; sound = omega arith; first = refl; last = refl }

list_erase-Holds_example : Holds (list_erase three 2) (1 ∷ 3 ∷ [])
list_erase-Holds_example = list_erase-Holds three (1 ∷ []) 2 (3 ∷ []) three-Holds

list_insert-Holds_example : Holds (list_insert three 2 4) (1 ∷ 4 ∷ 2 ∷ 3 ∷ [])
list_insert-Holds_example =
    list_insert-Holds three (1 ∷ []) 2 (3 ∷ []) 4 three-Holds (omega arith) (omega arith)

list_insert-end_example :
    let r = list_insert three 0 4 in (walk 7 r.next r.first ≡ 1 ∷ 4 ∷ []) × (r.last ≡ 4)
list_insert-end_example =
    list_insert-end three 1 (2 ∷ 3 ∷ []) 4 5 three-Holds (omega arith) (omega arith)

-- Procedures 10, 20 and 30, the links 1, 2 and 3.
abbrev registered : Workqueue
registered = register_procedure (register_procedure (register_procedure empty 10) 20) 30

-- Each procedure has no effect of its own.
abbrev quiet : ℕ → Workqueue → Workqueue × Bool
quiet f w = (w, false)

-- A handler has triggered link 3, another call link 1, and procedure 40 is queued.
pending_three : Workqueue
unfolding register_procedure list_insert normal_trigger move_to_active trigger list_erase
    async_safe_trigger async_enter async_push async_leave queue_procedure
pending_three = queue_procedure (normal_trigger (async_safe_trigger registered 3) 1) 40

transferred : Workqueue
unfolding pending_three transfer_async_triggered transfer_loop transfer_one release move_to_active
    list_insert list_erase
transferred = elim (transfer_async_triggered 9 (record pending_three { pending = false })) [
  | none ↦ pending_three
  | some s ↦ s
]

abbrev calls_made : Ending → ℕ
calls_made (finished n w) = n
calls_made _ = 99

abbrev left_active : Ending → ℕ → Bool
left_active (finished n w) p = elim (w.state p) [ active ↦ true | _ ↦ false ]
left_active _ p = false

abbrev all_triggered : Workqueue
all_triggered = normal_trigger (normal_trigger (normal_trigger registered 1) 2) 3

outcome : Workqueue → Ending
unfolding dispatch transfer_async_triggered transfer_loop drain run_one run_work guarded
    move_to_inactive move_to_active register_procedure normal_trigger trigger list_insert list_erase
    async_safe_trigger async_enter async_push async_leave transfer_one release queue_procedure
outcome w = dispatch quiet 9 w

-- Of three procedures that are triggered together two are called, and the second one stays
-- active for good.
second_lost :
    (calls_made (outcome all_triggered) ≡ 2) × (left_active (outcome all_triggered) 2 ≡ true)
unfolding outcome
second_lost = (refl, refl)

-- Two are called both.
two_called : calls_made (outcome (normal_trigger (normal_trigger registered 1) 2)) ≡ 2
unfolding outcome
two_called = refl

-- The handlers' triggers and the queued work are served too.
handlers_served :
    calls_made
      (outcome (queue_procedure (async_safe_trigger (async_safe_trigger registered 3) 1) 40))
    ≡ 3
unfolding outcome
handlers_served = refl
