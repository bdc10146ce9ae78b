-- ===== src/Workqueue/Queue.antt =====
-- tscb/workqueue.cc: `workqueue` and its links. Each function below is one critical section of
-- `lock_`, or one of the steps in which a signal handler may interrupt or be interrupted.
pub mod States
pub mod Rounds
use libtscb.Base.{
  ℕ, zero, suc, ◌+◌, ◌-◌, Bool, true, false, Option, none, some, List, [], ◌∷◌, ◌++◌, ◌==◌,
  if◌then◌else◌, update,
}
use libtscb.Workqueue.List.{Nodes, Ends, Chain, list_erase, list_insert}

pub data LinkState : Type 0 where
  inactive async_trigger_critical async_triggered active disconnecting : LinkState

-- The fields of `workqueue`, and those of its links by address. `function` holds a number for each
-- procedure, `refs` the reference count, `next_link` the address that the allocator gives next,
-- and `triggers` counts the calls of `trigger_`.
pub record Workqueue : Type 0 where
  pub nodes : Nodes
  pub active_list : Ends
  pub inactive_list : Ends
  pub async_head : ℕ
  pub async_next : ℕ → ℕ
  pub state : ℕ → LinkState
  pub service : ℕ → Bool
  pub function : ℕ → Option ℕ
  pub refs : ℕ → ℕ
  pub work : List ℕ
  pub pending : Bool
  pub triggers : ℕ
  pub next_link : ℕ

abbrev pub no_links : Ends
no_links = record { first = 0; last = 0 }

abbrev pub empty : Workqueue
empty = record {
  nodes = record { prev = λ _. 0; next = λ _. 0 };
  active_list = no_links;
  inactive_list = no_links;
  async_head = 0;
  async_next = λ _. 0;
  state = λ _. inactive;
  service = λ _. false;
  function = λ _. none;
  refs = λ _. 0;
  work = [];
  pending = false;
  triggers = 0;
  next_link = 1;
}

abbrev pub active_chain : Workqueue → Chain
active_chain w = record { nodes = w.nodes; ends = w.active_list }

abbrev pub inactive_chain : Workqueue → Chain
inactive_chain w = record { nodes = w.nodes; ends = w.inactive_list }

abbrev with_active : Workqueue → Chain → Workqueue
with_active w c = record w { nodes = c.nodes; active_list = c.ends }

abbrev with_inactive : Workqueue → Chain → Workqueue
with_inactive w c = record w { nodes = c.nodes; inactive_list = c.ends }

unfoldable pub move_to_active : Workqueue → ℕ → ℕ → Workqueue
move_to_active w pos p =
    let e = with_inactive w (list_erase (inactive_chain w) p) in
    let i = with_active e (list_insert (active_chain e) pos p) in
    record i { state = update i.state p active }

unfoldable pub move_to_inactive : Workqueue → ℕ → Workqueue
move_to_inactive w p =
    let e = with_active w (list_erase (active_chain w) p) in
    let i = with_inactive e (list_insert (inactive_chain e) 0 p) in
    record i { state = update i.state p inactive }

-- `pending_.exchange(true)`, and `trigger_()` on its first use
unfoldable pub trigger : Workqueue → Workqueue
trigger w = if w.pending then w else record w { pending = true; triggers = w.triggers + 1 }

unfoldable pub release : Workqueue → ℕ → Workqueue
release w p = record w { refs = update w.refs p (w.refs p - 1) }

-- Both calls that register a procedure: the list, the trigger function and the connection hold a
-- reference each.
unfoldable pub register_procedure : Workqueue → ℕ → Workqueue
register_procedure w f =
    let p = w.next_link in
    let made = record w {
      state = update w.state p inactive;
      service = update w.service p true;
      function = update w.function p (some f);
      refs = update w.refs p 3;
      next_link = p + 1;
    } in
    with_inactive made (list_insert (inactive_chain made) 0 p)

unfoldable pub queue_procedure : Workqueue → ℕ → Workqueue
queue_procedure w f = trigger (record w { work = w.work ++ f ∷ [] })

unfoldable pub normal_trigger : Workqueue → ℕ → Workqueue
normal_trigger w p =
    let moved = trigger (move_to_active w 0 p) in
    if w.service p then elim (w.state p) [ inactive ↦ moved | _ ↦ w ] else w

-- The compare-exchange that begins `async_safe_trigger`, and whether it succeeded.
unfoldable pub async_enter : Workqueue → ℕ → Workqueue × Bool
async_enter w p = elim (w.state p) [
  | inactive ↦ (record w { state = update w.state p async_trigger_critical }, true)
  | _ ↦ (w, false)
]

-- The push on `async_triggered_`.
unfoldable pub async_push : Workqueue → ℕ → Workqueue
async_push w p = record w {
  refs = update w.refs p (w.refs p + 1);
  async_next = update w.async_next p w.async_head;
  async_head = p;
}

unfoldable pub async_leave : Workqueue → ℕ → LinkState → Workqueue
async_leave w p s = record w { state = update w.state p s }

-- `async_safe_trigger` when nothing interrupts it.
unfoldable pub async_safe_trigger : Workqueue → ℕ → Workqueue
async_safe_trigger w p =
    let (e, entered) = async_enter w p in
    let triggered = async_leave (trigger (async_push e p)) p async_triggered in
    let refused = async_leave e p inactive in
    if entered then (if w.service p then triggered else refused) else w

-- `none` means that the call spins, waiting for a signal handler to leave its critical section.
unfoldable pub disconnect : Workqueue → ℕ → Option Workqueue
disconnect w p =
    let off = record w { state = update w.state p disconnecting } in
    let close = λ (d : Workqueue). release (record d { function = update d.function p none }) p in
    if w.service p
    then elim (w.state p) [
      | async_trigger_critical ↦ none
      | disconnecting ↦ some w
      | active ↦ some (close (with_active off (list_erase (active_chain off) p)))
      | _ ↦ some (close (with_inactive off (list_erase (inactive_chain off) p)))
    ]
    else some w

-- One round of the loop of `transfer_async_triggered` on the link `p`, with the new
-- `insert_before`.
unfoldable pub transfer_one : Workqueue → ℕ → ℕ → Option (Workqueue × ℕ)
transfer_one w insert_before p = elim (w.state p) [
  | async_trigger_critical ↦ none
  | async_triggered ↦ some (release (move_to_active w insert_before p) p, p)
  | _ ↦ some (release w p, insert_before)
]

-- The loop, on at most `n` links; `none` when it spins or visits more.
unfoldable pub transfer_loop : ℕ → Workqueue → ℕ → ℕ → Option Workqueue
transfer_loop zero w insert_before p = if p == 0 then some w else none
transfer_loop (suc n) w insert_before p =
    let rest : Option Workqueue = elim (transfer_one w insert_before p) [
      | none ↦ none
      | some (v, before) ↦ transfer_loop n v before (w.async_next p)
    ] in
    if p == 0 then some w else rest

unfoldable pub transfer_async_triggered : ℕ → Workqueue → Option Workqueue
transfer_async_triggered n w = transfer_loop n (record w { async_head = 0 }) 0 w.async_head

-- A call of an empty `std::function` throws.
abbrev pub invoke : (ℕ → Workqueue → Workqueue × Bool) → Option ℕ → Workqueue → Workqueue × Bool
invoke call none w = (w, true)
invoke call (some f) w = call f w

-- How a dispatch ends: with the number of calls made, with an exception of a procedure, or it
-- spins or goes on for more rounds than the model allows.
pub data Ending : Type 0 where
  finished : ℕ → Workqueue → Ending
  threw : Workqueue → Ending
  endless : Ending

-- `call f` is what procedure `f` does, and whether it throws.
-- The destructor of `retrigger_guard` runs `trigger` on an exception.
unfoldable pub guarded : Ending → Ending
guarded (finished count w) = finished count w
guarded (threw w) = threw (trigger w)
guarded endless = endless

module _ (call : ℕ → Workqueue → Workqueue × Bool) where
  unfoldable pub run_one : Workqueue → Workqueue × Bool
  run_one w = let p = w.active_list.first in invoke call (w.function p) (move_to_inactive w p)

  -- `while (active_.first) { … }`, and the number of calls so far
  unfoldable pub drain : ℕ → Workqueue → ℕ → Ending
  drain zero w count = endless
  drain (suc n) w count =
      let (v, thrown) = run_one w in
      let rest = drain n v (count + 1) in
      let more = if thrown then threw v else rest in
      if w.active_list.first == 0 then finished count w else more

  -- At most one queued procedure, and `trigger` if more are left.
  unfoldable pub run_work : ℕ → Workqueue → Ending
  run_work count w = elim (w.work) [
    | [] ↦ finished count w
    | f ∷ fs ↦
        let (v, thrown) = call f (record w { work = fs }) in
        let more : Workqueue = elim fs [ [] ↦ v | g ∷ gs ↦ trigger v ] in
        if thrown then threw v else finished (count + 1) more
  ]

  unfoldable pub dispatch : ℕ → Workqueue → Ending
  dispatch n w =
      let started : Ending = elim (transfer_async_triggered n (record w { pending = false })) [
        | none ↦ endless
        | some v ↦ guarded (elim (drain n v 0) [
          | finished count u ↦ run_work count u
          | threw u ↦ threw u
          | endless ↦ endless
        ])
      ] in
      if w.pending then started else finished 0 w

unfoldable pub get_registered : Workqueue → ℕ
get_registered w = if w.active_list.first == 0 then w.inactive_list.first else w.active_list.first

-- The destructor's loop, for at most `n` links.
unfoldable pub destroy : ℕ → Workqueue → Option Workqueue
destroy zero w = if get_registered w == 0 then some w else none
destroy (suc n) w =
    let rest : Option Workqueue = elim (disconnect w (get_registered w)) [
      | none ↦ none
      | some v ↦ destroy n v
    ] in
    if get_registered w == 0 then some w else rest
