-- ===== src/Server/System/Alone.antt =====
-- What the drain of src/server/accept.rs does when the peers do nothing.
use tiny_httpd.Base.{
  ℕ, zero, suc, ◌+◌, ◌≤◌, ◌≡◌, refl, true, false, Bool-cases, inl, inr, Option, some, List, [], ◌∷◌,
  ◌++◌, All, All-zip, All-imp, All-middle, All-insert, ok, if◌then◌else◌, arith, ap, leb, subst,
  sym, length, length-middle,
}
use tiny_httpd.Server.Params.{ServerParams}
use tiny_httpd.Server.Connection as Conn
use tiny_httpd.Server.Connection.{Connection, begin_graceful, on_event, continues, broke}
use tiny_httpd.Server.Connection.Deadline.{at_deadline}
use tiny_httpd.Server.Accept.{Phase}
use tiny_httpd.Server.System.{Link, System, IsPrompt, Step, joins, moves, ends, Reach, later}

abbrev pub sys : Phase → List Link → List ℕ → Option ℕ → System
sys p ls es broadcast = record { phase = p; links = ls; ended = es; broadcast = broadcast }

-- A step of the server's own: a timer of a connection, the notice of the shutdown, or a join.
abbrev pub IsTimer : Conn.Event → Type 0
IsTimer Conn.deadline_elapsed = Unit
IsTimer (Conn.shutdown_changed r) = Unit
IsTimer _ = ⊥

module _ {params : ServerParams} where
  abbrev pub IsOwn : {time : ℕ} {s s' : System} → Step params time s s' → Type 0
  IsOwn (moves before after l e c same heard h) = IsTimer e
  IsOwn (ends before after l e same heard h) = IsTimer e
  IsOwn (joins before after t p e h) = Unit
  IsOwn _ = ⊥

-- Such steps, one behind the other, with the time.
pub data Alone (params : ServerParams) (delay : ℕ) : ℕ → System → ℕ → System → Type 0 where
  stays : {now : ℕ} {s : System} → Alone params delay now s now s
  goes :
      {now end : ℕ} {s s' t : System} (time : ℕ)
      → now ≤ time
      → All (IsPrompt delay time s.broadcast) s.links
      → (st : Step params time s s') → IsOwn st
      → Alone params delay time s' end t
      → Alone params delay now s end t

pub Alone-trans :
    {params : ServerParams} {delay now between end : ℕ} {s t u : System}
    → Alone params delay now s between t
    → Alone params delay between t end u
    → Alone params delay now s end u
Alone-trans stays b = b
Alone-trans (goes time order prompt st own a) b = goes time order prompt st own (Alone-trans a b)

pub Reach-Alone :
    {params : ServerParams} {delay now end : ℕ} {s t : System}
    → Reach params delay now s
    → Alone params delay now s end t
    → Reach params delay end t
Reach-Alone r stays = r
Reach-Alone r (goes time order prompt st own a) = Reach-Alone (later time r order prompt st) a

-- How many tasks have not begun to close.
abbrev pub opens : List Link → ℕ
opens [] = 0
opens (l ∷ ls) = (if l.connection.shutting_down then 0 else 1) + opens ls

opens-middle :
    (before after : List Link) (l : Link)
    → opens (before ++ l ∷ after)
      ≡ (if l.connection.shutting_down then 0 else 1) + opens (before ++ after)
opens-middle [] after l = refl
opens-middle (x ∷ before) after l = omega (arith, opens-middle before after l)

open_there :
    (n : ℕ) (ls : List Link)
    → opens ls ≡ suc n
    → (before after : List Link) × (l : Link) × (ls ≡ before ++ l ∷ after)
      × (l.connection.shutting_down ≡ false)
open_there n [] h = absurd (omega (arith, h))
open_there n (l ∷ ls) h = elim (Bool-cases l.connection.shutting_down) [
  | inr unclosed ↦ ([], ls, l, refl, unclosed)
  | inl closing ↦
      let (before, after, m, same, unclosed) = open_there n ls (ground (arith, h, closing)) in
      (l ∷ before, after, m, ap (λ xs. l ∷ xs) same, unclosed)
]

closing_each : (ls : List Link) → opens ls ≡ 0 → All (λ l. l.connection.shutting_down ≡ true) ls
closing_each [] h = tt
closing_each (l ∷ ls) h = (ground (arith, h), closing_each ls (ground (arith, h)))

-- The connection whose timer is the first.
soonest :
    (l : Link) (ls : List Link)
    → (before after : List Link) × (m : Link) × (l ∷ ls ≡ before ++ m ∷ after)
      × All (λ x. m.connection.deadline ≤ x.connection.deadline) (before ++ after)
soonest l [] = ([], [], l, refl, tt)
soonest l (k ∷ ls) =
    let (before, after, m, same, least) = soonest k ls in
    let first =
      All-insert (λ x. m.connection.deadline ≤ x.connection.deadline) before m after (omega arith)
        least in
    elim (Bool-cases (leb l.connection.deadline m.connection.deadline)) [
      | inl sooner ↦ (
        [],
        k ∷ ls,
        l,
        refl,
        subst (All (λ x. l.connection.deadline ≤ x.connection.deadline)) (sym same)
            (All-imp _ _ (before ++ m ∷ after) (λ x h. ground (arith, sooner, h)) first),
      )
      | inr not_sooner ↦
          (l ∷ before, after, m, ap (λ xs. l ∷ xs) same, (ground (arith, not_sooner), least))
    ]

-- A timer that is not over, and that of a closing connection not after `limit`.
abbrev pub IsSoon : ℕ → Link → Type 0
IsSoon limit l = l.connection.shutting_down ≡ true → l.connection.deadline ≤ limit

abbrev pub IsBetween : ℕ → ℕ → Link → Type 0
IsBetween now limit l = (now ≤ l.connection.deadline) × (l.connection.deadline ≤ limit)

module _ (params : ServerParams) (delay : ℕ) (p : Phase) (b : ℕ) where
  timers_ahead :
      (now limit : ℕ) (ls : List Link)
      → opens ls ≡ 0
      → All (IsPrompt delay now (some b)) ls
      → All (IsSoon limit) ls
      → All (IsBetween now limit) ls
  timers_ahead now limit ls h prompt soon =
      All-imp _ (IsBetween now limit) ls (λ l (closing, ((due, told), by)). (due, by closing))
        (All-zip _ _ ls (closing_each ls h) (All-zip _ _ ls prompt soon))

  -- Each task that has not begun to close is told to, at once.
  pub tell_each :
      (now n : ℕ) (es : List ℕ) (ls : List Link)
      → opens ls ≡ n
      → All (IsPrompt delay now (some b)) ls
      → All (IsSoon (now + params.graceful_close_timeout)) ls
      → (ls' : List Link) × Alone params delay now
          (sys p ls es (some b))
          now
          (sys p ls' es (some b))
        × (opens ls' ≡ 0)
        × All (IsBetween now (now + params.graceful_close_timeout)) ls'
  unfolding begin_graceful on_event
  tell_each now zero es ls h prompt soon =
      (ls, stays, h, timers_ahead now (now + params.graceful_close_timeout) ls h prompt soon)
  tell_each now (suc n) es ls h prompt soon =
      let (before, after, l, same, unclosed) = open_there n ls h in
      let limit = now + params.graceful_close_timeout in
      let closing = begin_graceful params now l.connection in
      let l' : Link = record l { connection = closing } in
      let others =
        (All-middle (IsPrompt delay now (some b)) before l after (subst (All _) same prompt)).1 in
      let others_soon = (All-middle (IsSoon limit) before l after (subst (All _) same soon)).1 in
      let told : on_event params now l.connection (Conn.shutdown_changed (ok true))
          ≡ some (continues closing) =
        rw unclosed refl in
      let fewer : opens (before ++ l' ∷ after) ≡ n = ground (
        arith,
        h,
        ap opens same,
        opens-middle before after l,
        opens-middle before after l',
        unclosed,
      ) in
      let (ls', a, done, between) =
        tell_each now n es (before ++ l' ∷ after) fewer
          (All-insert _ before l' after (omega arith, λ e. cc) others)
          (All-insert _ before l' after (λ e. omega arith) others_soon) in
      (
        ls',
        goes now (omega arith) prompt
            (moves before after l (Conn.shutdown_changed (ok true)) closing same refl told) tt a,
        done,
        between,
      )

  -- All tasks are closing; each ends at its timer.
  pub end_each :
      (n now limit : ℕ) (es : List ℕ) (ls : List Link)
      → length ls ≡ n
      → opens ls ≡ 0
      → now ≤ limit
      → All (IsBetween now limit) ls
      → (end : ℕ) × (es' : List ℕ) × (end ≤ limit)
        × Alone params delay now (sys p ls es (some b)) end (sys p [] es' (some b))
  unfolding on_event
  end_each n now limit es [] h done by between = (now, es, by, stays)
  end_each zero now limit es (l ∷ ls) h done by between = absurd (omega (arith, h))
  end_each (suc n) now limit es (l ∷ ls) h done by between =
      let (before, after, m, same, least) = soonest l ls in
      let time = m.connection.deadline in
      let (own, others) =
        All-middle (IsBetween now limit) before m after (subst (All _) same between) in
      let closing =
        (All-middle _ before m after (subst (All _) same (closing_each (l ∷ ls) done))).0 in
      let due : All (λ (x : Link). time ≤ x.connection.deadline) (l ∷ ls) =
        subst (All (λ (x : Link). time ≤ x.connection.deadline)) (sym same) (
          All-insert (λ (x : Link). time ≤ x.connection.deadline) before m after (omega arith)
            least) in
      let prompt =
        All-imp _ (IsPrompt delay time (some b)) (l ∷ ls)
          (λ x (d, c). (d, λ unclosed. cc (c, unclosed)))
          (All-zip _ _ (l ∷ ls) due (closing_each (l ∷ ls) done)) in
      let (end, es', in_time, a) =
        end_each n time limit (m.task ∷ es) (before ++ after)
          (omega (arith, h, ap length same, length-middle before m after))
          (ground (arith, done, ap opens same, opens-middle before after m, closing)) own.1
          (All-imp _ (IsBetween time limit) (before ++ after) (λ x (d, k). (d, k.1))
            (All-zip _ _ (before ++ after) least others)) in
      (
        end,
        es',
        in_time,
        goes time own.0 prompt
            (ends before after m Conn.deadline_elapsed same tt
              (at_deadline params m.connection closing))
            tt a,
      )
