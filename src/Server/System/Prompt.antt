-- ===== src/Server/System/Prompt.antt =====
-- What the system of src/server/accept.rs waits for at any point of a run.
use tiny_httpd.Base.{
  ℕ, ◌≤◌, ◌≡◌, ◌≢◌, refl, false, Option, none, some, List, [], ◌∷◌, All, All-imp, All-middle,
  All-insert, ok, err, if◌then◌else◌, leb, if_keeps, arith, subst, sym,
}
use tiny_httpd.Server.Params.{ServerParams}
use tiny_httpd.Server.Connection as Conn
use tiny_httpd.Server.Connection.{
  Connection, accept_connection, begin_graceful, on_event, continues,
}
use tiny_httpd.Server.Accept.{
  Phase, Draining, accepting, draining, returned, Event, shutdown_signal, window_elapsed, accepted,
  joined, drain_elapsed, start, server_event, accept_event, drain_event, drained, settle, holds,
  remove, stop_accepting, on_signal, on_accepted,
}
use tiny_httpd.Server.System.{
  Link, System, IsQuiet, IsTold, IsPrompt, Step, accepts, quiet, broadcasts, joins, moves, ends,
  cancelled, Reach, begun, later,
}

-- The drain has sent the broadcast, and waits for a task.
abbrev pub Waits : Phase → Option ℕ → Type 0
Waits (accepting a) broadcast = broadcast ≡ none
Waits (draining d) broadcast = ((b : ℕ) × (broadcast ≡ some b)) × (d.connections ≢ [])
Waits (returned s) broadcast = Unit

abbrev WaitsOption : Option Phase → Option ℕ → Type 0
WaitsOption none broadcast = Unit
WaitsOption (some p) broadcast = Waits p broadcast

drained-Waits : (d : Draining) (b : ℕ) → Waits (drained d) (some b)
unfolding drained settle
drained-Waits d b = go d.connections refl
  where
    go : (cs : List ℕ) → d.connections ≡ cs → Waits (settle cs d) (some b)
    go [] h = tt
    go (c ∷ cs) h = ((b, refl), (λ none_there. cc))

sent_after : Event → ℕ → Option ℕ → Option ℕ
sent_after window_elapsed time broadcast = some time
sent_after e time broadcast = broadcast

module _ (params : ServerParams) (time : ℕ) where
  event-Waits :
      (p : Phase) (e : Event) (broadcast : Option ℕ)
      → Waits p broadcast
      → WaitsOption (server_event params time p e) (sent_after e time broadcast)
  unfolding server_event accept_event drain_event sent_after on_signal on_accepted stop_accepting
  event-Waits (accepting a) (shutdown_signal r) broadcast i =
      elim a.shutdown_deadline
        as (λ o.
          WaitsOption (elim o [ none ↦ some (accepting (on_signal time a)) | some _ ↦ none ])
            broadcast) [ none ↦ i | some t ↦ tt ]
  event-Waits (accepting a) window_elapsed broadcast i =
      elim a.shutdown_deadline
        as (λ o.
          WaitsOption
            (elim o [
              | none ↦ none
              | some t ↦ if leb t time then some (stop_accepting params time a) else none
            ])
            (some time)) [
              | none ↦ tt
              | some t ↦
                  if_keeps (λ (o : Option Phase). WaitsOption o (some time)) (leb t time)
                    (λ over. drained-Waits _ time) (λ early. tt {0})
            ]
  event-Waits (accepting a) (accepted (ok u)) broadcast i = i
  event-Waits (accepting a) (accepted (err u)) broadcast i = i
  event-Waits (accepting a) (joined t) broadcast i = tt
  event-Waits (accepting a) drain_elapsed broadcast i = tt
  event-Waits (draining d) (joined t) broadcast ((b, sent), some_left) =
      if_keeps (λ (o : Option Phase). WaitsOption o broadcast) (holds t d.connections)
        (λ held.
          subst (Waits (drained (record d { connections = remove t d.connections }))) (sym sent)
            (drained-Waits _ b))
        (λ missing. tt {0})
  event-Waits (draining d) drain_elapsed broadcast i =
      if_keeps (λ (o : Option Phase). WaitsOption o broadcast) d.aborted (λ twice. tt {0})
        (λ first.
          if_keeps (λ (o : Option Phase). WaitsOption o broadcast) (leb d.drain_deadline time)
            (λ over. i) (λ early. tt {0}))
  event-Waits (draining d) (shutdown_signal r) broadcast i = tt
  event-Waits (draining d) window_elapsed broadcast i = tt
  event-Waits (draining d) (accepted r) broadcast i = tt
  event-Waits (returned s) e broadcast i = tt

  quiet-sent_after :
      (e : Event) (broadcast : Option ℕ) → IsQuiet e → sent_after e time broadcast ≡ broadcast
  unfolding sent_after
  quiet-sent_after (shutdown_signal r) broadcast q = refl
  quiet-sent_after (accepted r) broadcast q = refl
  quiet-sent_after drain_elapsed broadcast q = refl
  quiet-sent_after window_elapsed broadcast q = elim q [ ]
  quiet-sent_after (joined t) broadcast q = elim q [ ]

  Step-Waits :
      {s s' : System}
      → Step params time s s'
      → Waits s.phase s.broadcast
      → Waits s'.phase s'.broadcast
  unfolding sent_after
  Step-Waits {s} (accepts p h) i =
      subst (λ o. WaitsOption o s.broadcast) h (event-Waits s.phase _ s.broadcast i)
  Step-Waits {s} (quiet e p q h) i = subst (Waits p) (quiet-sent_after e s.broadcast q) (
      subst (λ o. WaitsOption o (sent_after e time s.broadcast)) h
        (event-Waits s.phase e s.broadcast i))
  Step-Waits {s} (broadcasts p h) i =
      subst (λ o. WaitsOption o (some time)) h (event-Waits s.phase _ s.broadcast i)
  Step-Waits {s} (joins before after t p e h) i =
      subst (λ o. WaitsOption o s.broadcast) h (event-Waits s.phase _ s.broadcast i)
  Step-Waits (moves before after l e c same heard h) i = i
  Step-Waits (ends before after l e same heard h) i = i
  Step-Waits (cancelled before after l same h) i = i

pub Reach-Waits :
    {params : ServerParams} {delay now : ℕ} {s : System}
    → Reach params delay now s
    → Waits s.phase s.broadcast
unfolding start
Reach-Waits (begun now) = refl
Reach-Waits {params} (later time r order prompt st) = Step-Waits params time st (Reach-Waits r)

module _ (params : ServerParams) (delay time : ℕ) where
  accepts-unsent :
      (p p' : Phase) (broadcast : Option ℕ)
      → Waits p broadcast
      → server_event params time p (accepted (ok tt)) ≡ some p'
      → broadcast ≡ none
  unfolding server_event drain_event
  accepts-unsent (accepting a) p' broadcast i h = i
  accepts-unsent (draining d) p' broadcast i h = cc
  accepts-unsent (returned s) p' broadcast i h = cc

  moved-due :
      (c c' : Connection) (e : Conn.Event)
      → time ≤ c.deadline
      → on_event params time c e ≡ some (continues c')
      → (time ≤ c'.deadline) × (c'.shutting_down ≡ false → c.shutting_down ≡ false)
  unfolding on_event begin_graceful
  moved-due c c' (Conn.finished b) due h = cc
  moved-due c c' Conn.deadline_elapsed due h = (ground arith, λ unclosed. ground arith)
  moved-due c c' (Conn.shutdown_changed (ok b)) due h = (ground arith, λ unclosed. ground arith)
  moved-due c c' (Conn.shutdown_changed (err u)) due h = (ground arith, λ unclosed. ground arith)
  moved-due c c' Conn.activity due h = (ground arith, λ unclosed. ground arith)

  notice_kept :
      (broadcast : Option ℕ) (c c' : Connection)
      → (c'.shutting_down ≡ false → c.shutting_down ≡ false)
      → IsTold delay time broadcast c
      → IsTold delay time broadcast c'
  notice_kept none c c' back told = tt
  notice_kept (some b) c c' back told = λ unclosed. told (back unclosed)

  moved-IsPrompt :
      (broadcast : Option ℕ) (l : Link) (e : Conn.Event) (c : Connection)
      → IsPrompt delay time broadcast l
      → on_event params time l.connection e ≡ some (continues c)
      → IsPrompt delay time broadcast (record l { connection = c })
  moved-IsPrompt broadcast l e c (due, told) h =
      let (due', back) = moved-due l.connection c e due h in
      (due', notice_kept broadcast l.connection c back told)

  -- The timers that a step sets are not over, and it has the notice given in time.
  Step-IsPrompt :
      {s s' : System}
      → Step params time s s'
      → Waits s.phase s.broadcast
      → All (IsPrompt delay time s.broadcast) s.links
      → All (IsPrompt delay time s'.broadcast) s'.links
  unfolding accept_connection
  Step-IsPrompt {s} (accepts p h) i prompt =
      let unsent = accepts-unsent s.phase p s.broadcast i h in
      (
        (
          omega arith,
          subst (λ b. IsTold delay time b (accept_connection params time)) (sym unsent) tt,
        ),
        prompt,
      )
  Step-IsPrompt (quiet e p q h) i prompt = prompt
  Step-IsPrompt {s} (broadcasts p h) i prompt =
      All-imp _ (IsPrompt delay time (some time)) s.links
        (λ l (due, told). (due, λ unclosed. omega arith)) prompt
  Step-IsPrompt (joins before after t p e h) i prompt = prompt
  Step-IsPrompt {s} (moves before after l e c same heard h) i prompt =
      let (own, others) =
        All-middle (IsPrompt delay time s.broadcast) before l after (subst (All _) same prompt) in
      All-insert (IsPrompt delay time s.broadcast) before (record l { connection = c }) after
        (moved-IsPrompt s.broadcast l e c own h) others
  Step-IsPrompt {s} (ends before after l e same heard h) i prompt =
      (All-middle (IsPrompt delay time s.broadcast) before l after (subst (All _) same prompt)).1
  Step-IsPrompt {s} (cancelled before after l same h) i prompt =
      (All-middle (IsPrompt delay time s.broadcast) before l after (subst (All _) same prompt)).1

pub Reach-IsPrompt :
    {params : ServerParams} {delay now : ℕ} {s : System}
    → Reach params delay now s
    → All (IsPrompt delay now s.broadcast) s.links
Reach-IsPrompt (begun now) = tt
Reach-IsPrompt {params} {delay} (later time r order prompt st) =
    Step-IsPrompt params delay time st (Reach-Waits r) prompt
