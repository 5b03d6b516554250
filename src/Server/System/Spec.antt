-- ===== src/Server/System/Spec.antt =====
-- What the server of src/server/accept.rs promises to a client and to the process that runs it: an
-- abstract machine that knows neither the order of the tasks nor their connections.
use tiny_httpd.Base.{ℕ, ◌+◌, ◌≤◌, ◌≡◌, true, false, ◌⊎◌, List, [], ◌∷◌, arith}
use mathlib.Core.Quot
use mathlib.Core.Quot.{Quot, Quot-set}
use tiny_httpd.Handler.State.{AppState}
use tiny_httpd.Server.Params.{readiness_drain_window_millis}
use tiny_httpd.Server.Accept.AnyOrder.{SameTasks}

-- The tasks, without an order.
abbrev pub TaskBag : Type 0
TaskBag = Quot SameTasks

abbrev pub unordered : List ℕ → TaskBag
unordered tasks = Quot.mk tasks

pub one_more :
    (t : ℕ) (tasks others : List ℕ)
    → SameTasks tasks others
    → unordered (t ∷ tasks) ≡ unordered (t ∷ others)
one_more t tasks others same = Quot.sound (λ n. omega (arith, same n))

unfoldable pub with_task : ℕ → TaskBag → TaskBag
with_task t = Quot.lift Quot-set (λ tasks. unordered (t ∷ tasks)) (one_more t)

-- `leaving` has the time until which connections are accepted.
pub data Stage : Type 0 where
  serving : Stage
  leaving : ℕ → Stage
  closing gone : Stage

pub record View : Type 0 where
  pub stage : Stage
  pub state : AppState
  pub tasks : TaskBag

-- Both marks come to be set, and the rest of the state is kept.
abbrev pub Marked : AppState → AppState → Type 0
Marked before after =
    (after.ready ≡ false)
    × (after.shutting_down ≡ true)
    × (after.content_root ≡ before.content_root)

abbrev pub IsListening : Stage → Type 0
IsListening serving = Unit
IsListening (leaving until) = Unit
IsListening _ = ⊥

-- The server is gone only if no task is left.
abbrev pub IsClosed : View → Type 0
IsClosed v = (v.stage ≡ closing) ⊎ ((v.stage ≡ gone) × (v.tasks ≡ unordered []))

pub data Move (now : ℕ) (v w : View) : Type 0 where
  keeps : w ≡ v → Move now v w
  connects :
      (t : ℕ)
      → IsListening v.stage
      → w.stage ≡ v.stage
      → w.state ≡ v.state
      → w.tasks ≡ with_task t v.tasks
      → Move now v w
  leaves :
      v.stage ≡ serving
      → w.stage ≡ leaving (now + readiness_drain_window_millis)
      → Marked v.state w.state
      → w.tasks ≡ v.tasks
      → Move now v w
  closes :
      (until : ℕ)
      → v.stage ≡ leaving until
      → until ≤ now
      → IsClosed w
      → w.state ≡ v.state
      → w.tasks ≡ v.tasks
      → Move now v w
  joins :
      (t : ℕ)
      → v.stage ≡ closing
      → IsClosed w
      → w.state ≡ v.state
      → v.tasks ≡ with_task t w.tasks
      → Move now v w
