-- ===== src/Tests/Threads.antt =====
-- A queue of values at one id, and threads that wait for them.
use egui_states.Prelude.{◌≡◌, refl, Bytes, true, false, List, some, none, [], ◌∷◌, ◌++◌, arith}
use egui_states.Signals.{
  ChangedInner, new, set, get, get_from, get_id, set_to_queue, set_register, unblock,
}
use egui_states.Signals.Schedule
use egui_states.Signals.Schedule.{
  IsScheduled, run_call, run_calls, run_calls-IsScheduled, new-IsScheduled, call_set, call_get,
  call_to_queue, call_register,
}
use egui_states.Signals.Waiting.{get-leaves_blocked, get-exclusive}
use egui_states.Signals.Order.{
  Call, Queues, set_value, take_value, run, all_taken, all_set, queue_order,
}

abbrev a_value : Bytes
a_value = 1 ∷ []

abbrev b_value : Bytes
b_value = 2 ∷ []

-- Id 12 is registered and has a queue, and two values are set.
abbrev setup : List Schedule.Call
setup = call_register 12 true ∷ call_to_queue 12 ∷ call_set 12 a_value ∷ call_set 12 b_value ∷ []

abbrev two_waiting : ChangedInner
two_waiting = run_calls new setup

two_waiting-IsScheduled : IsScheduled two_waiting
two_waiting-IsScheduled = run_calls-IsScheduled new setup new-IsScheduled

run_calls-IsScheduled_example : IsScheduled (run_calls new (call_get none ∷ setup))
run_calls-IsScheduled_example = run_calls-IsScheduled new (call_get none ∷ setup) new-IsScheduled

-- One thread holds the id; another asks.
abbrev one_held : ChangedInner
one_held = (get two_waiting none).0

one_held-IsScheduled : IsScheduled one_held
unfolding get run_calls run_call
one_held-IsScheduled =
    run_calls-IsScheduled two_waiting (call_get none ∷ []) two_waiting-IsScheduled

get-leaves_blocked_example : (get one_held none).0.blocked_list 12 ≡ true
unfolding run_calls run_call new set get get_from get_id set_to_queue set_register
get-leaves_blocked_example =
    get-leaves_blocked one_held none one_held-IsScheduled refl 12 (omega arith)

get-exclusive_example :
    ((unblock two_waiting none).blocked_list 12 ≡ false)
    × ((unblock two_waiting none).registered 12 ≡ true)
    × ((get two_waiting none).0.blocked_list 12 ≡ true)
unfolding run_calls run_call new set get get_from get_id set_to_queue set_register
get-exclusive_example = get-exclusive two_waiting none 12 a_value refl

abbrev calls : List Call
calls = take_value none ∷ set_value 12 (3 ∷ []) ∷ take_value (some 12) ∷ []

queue_order_example :
    (ws : List Bytes) × Queues (run two_waiting calls) 12 ws
    × (all_taken 12 two_waiting calls ++ ws ≡ (a_value ∷ b_value ∷ []) ++ all_set 12 calls)
unfolding run_calls run_call new set get get_from get_id set_to_queue set_register
queue_order_example = queue_order 12 two_waiting calls (a_value ∷ b_value ∷ []) (refl, refl)
