-- ===== src/Childproc.antt =====
-- tscb/childproc-monitor.cc: `childproc_monitor` and its links, which stand in the same kind of chain
-- as those of a signal (`service_` is the link's `chain_`).
pub mod Registry
pub mod Visit
pub mod Dispatch
mod Tests
use libtscb.Base.{
  ℕ, zero, suc, ◌+◌, ◌==◌, Bool, true, false, Option, none, some, List, [], ◌∷◌, if◌then◌else◌,
  update,
}
use libtscb.Signal.{Signal}
use libtscb.Signal

-- The fields that a signal has too, and `pid_` of each link.
pub record Monitor : Type 0 where
  pub registry : Signal
  pub open registry use *
  pub pid : ℕ → ℕ

unfoldable pub synchronize : Monitor → Monitor
synchronize m = record m { registry = Signal.synchronize m.registry }

unfoldable pub remove : Monitor → ℕ → Bool → Monitor
remove m p sync = record m { registry = Signal.remove m.registry p sync }

unfoldable pub disconnect : Monitor → ℕ → Bool → Monitor
disconnect m p sync = if m.connected p then remove m p sync else m

unfoldable pub watch_childproc : Monitor → ℕ → ℕ → Bool → Monitor
watch_childproc m f pid sync = record m {
  registry = Signal.connect m.registry f sync;
  pid = update m.pid m.next_link pid;
}

-- What `wait4` returns with `WNOHANG`: 0, the pid with the status, or -1.
pub data Reply : Type 0 where
  running : Reply
  exited : ℕ → Reply
  failed : Reply

-- What a callback does to the monitor, with a read lock held by the caller.
pub data Op : Type 0 where
  watching : ℕ → ℕ → Op
  disconnecting : ℕ → Op

unfoldable pub run_op : Op → Monitor → Monitor
run_op (watching f pid) m = watch_childproc m f pid false
run_op (disconnecting p) m = disconnect m p false

unfoldable pub run_ops : List Op → Monitor → Monitor
run_ops [] m = m
run_ops (o ∷ os) m = run_ops os (run_op o m)

-- A round of the loop: the link, whether it was connected, the answer of `wait4`, and the function that
-- was called, if one was.
pub data Poll : Type 0 where
  poll : ℕ → Bool → Reply → Option ℕ → Poll

pub data Dispatched : Type 0 where
  done : Monitor → List Poll → Dispatched
  threw : Monitor → List Poll → Dispatched
  endless : Dispatched

-- `wait log pid` is the answer of `wait4` after the rounds of `log`. `call f r m` is what callback
-- `f` does, and whether it throws; on an error of `wait4` it gets an undefined status.
module _ (wait : List Poll → ℕ → Reply) (call : ℕ → Reply → Monitor → List Op × Bool) where
  unfoldable pub call_link : Monitor → ℕ → Reply → Monitor × Bool × Option ℕ
  call_link m p r = elim (m.function p) [
    | none ↦ (m, true, none)
    | some f ↦ let (ops, thrown) = call f r m in (run_ops ops m, thrown, some f)
  ]

  -- `disconnect` and the call, unless the process is running.
  unfoldable pub handle : Monitor → ℕ → Reply → Monitor × Bool × Option ℕ
  handle m p running = (m, false, none)
  handle m p (exited status) = call_link (disconnect m p false) p (exited status)
  handle m p failed = call_link (disconnect m p false) p failed

  unfoldable pub dispatch_from : ℕ → Monitor → ℕ → List Poll → Dispatched
  dispatch_from zero m p log = endless
  dispatch_from (suc n) m p log =
      let r = wait log (m.pid p) in
      let (t, thrown, fired) = handle m p r in
      let log' = poll p (m.connected p) r fired ∷ log in
      let rest = dispatch_from n t (t.active_next p) log' in
      let more = if thrown then threw t log' else rest in if p == 0 then done m log else more

  unfoldable pub dispatch : ℕ → Monitor → Dispatched
  dispatch n m = dispatch_from n m m.active []

abbrev leave : Bool → Monitor → Monitor
leave sync m = if sync then synchronize m else m

-- `dispatch` with its read guard, which synchronizes `rounds` times on the way in, and on the way
-- out, exceptions included, if `read_unlock` asks for it.
unfoldable pub depart : Bool → Dispatched → Dispatched
depart sync (done m log) = done (leave sync m) log
depart sync (threw m log) = threw (leave sync m) log
depart sync endless = endless

unfoldable pub guarded_dispatch :
    (List Poll → ℕ → Reply)
    → (ℕ → Reply → Monitor → List Op × Bool)
    → ℕ
    → Bool
    → ℕ
    → Monitor
    → Dispatched
guarded_dispatch wait call rounds sync n m =
    depart sync (dispatch wait call n (record m { registry = Signal.enter rounds m.registry }))
