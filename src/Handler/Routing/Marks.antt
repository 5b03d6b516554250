-- ===== src/Handler/Routing/Marks.antt =====
-- The two stores of the shutdown branch of src/server/accept.rs, one behind the other, with the
-- requests that `route` of src/handler/routing.rs answers. A request loads at most one of the marks,
-- at one moment, and is answered at any time from then on.
use tiny_httpd.Base.{
  ℕ, ◌≡◌, refl, true, false, Option, List, [], ◌∷◌, ◌++◌, Bytes, bytes_eq, All, arith, ap, sym,
  subst, ◌∙◌, middle-ne-nil, Bool-cases, inl, inr,
}
use tiny_httpd.Fs.Error.{not_found, io}
use tiny_httpd.Fs.System.{FileSystem}
use tiny_httpd.Handler.Http.{Method, is_head, Toolkit, IsLawful}
use tiny_httpd.Handler.State.{AppState, new, mark_not_ready, mark_shutting_down}
use tiny_httpd.Handler.Routing.{readyz, route}
use tiny_httpd.Handler.Routing.Shape.{error_status}
use tiny_httpd.Handler.Routing.Table.{
  Reply, alive, ready, unready, draining, welcome, serves, fails, IsContentPath, Reads, Rule,
  liveness, not_marked, readable, unreadable, shutting_down, no_root_index, found, no_index, render,
}
use tiny_httpd.Handler.Routing.Table.Answered.{route-Answered}

-- How far the branch has come.
pub data Progress : Type 0 where
  unmarked marked_not_ready marked_both : Progress

-- A request, with the state as it is when it loads its mark. The answer comes later: behind the load
-- the request waits for the file system.
pub record Asked : Type 0 where
  pub state : AppState
  pub method : Method
  pub path : Bytes

-- Runs, with the requests in the order in which they load their marks, the last one first.
pub data Reach (root : Option Bytes) : Progress → AppState → List Asked → Type 0 where
  started : Reach root unmarked (new root) []
  first_store :
      {s : AppState} {h : List Asked}
      → Reach root unmarked s h
      → Reach root marked_not_ready (mark_not_ready s) h
  second_store :
      {s : AppState} {h : List Asked}
      → Reach root marked_not_ready s h
      → Reach root marked_both (mark_shutting_down s) h
  loads :
      {p : Progress} {s : AppState} {h : List Asked} (method : Method) (path : Bytes)
      → Reach root p s h
      → Reach root p s (record { state = s; method = method; path = path } ∷ h)

module _ {W File : Type 0} (fs : FileSystem W File) (kit : Toolkit File) (page : Bytes) where
  -- The status of the answer, over the file system as the request finds it behind the load.
  abbrev pub status : Asked → W → ℕ
  status a w = (route fs kit page a.state a.method a.path w).0.response.status

  -- A request for content that is turned away because of the shutdown.
  abbrev pub IsTurnedAway : Asked → Type 0
  IsTurnedAway a = IsContentPath a.path × Reads a.method × (w : W) × (status a w ≡ 503)

  abbrev pub IsKept : Asked → Type 0
  IsKept a = ¬ IsTurnedAway a

  -- A readiness probe that passes.
  abbrev pub IsPassed : Asked → Type 0
  IsPassed a = (a.path ≡ readyz) × (w : W) × (status a w ≡ 200)

head_eq : {x y : Asked} {xs ys : List Asked} → (x ∷ xs) ≡ (y ∷ ys) → x ≡ y
head_eq e = cc

tail_eq : {x y : Asked} {xs ys : List Asked} → (x ∷ xs) ≡ (y ∷ ys) → xs ≡ ys
tail_eq e = cc

-- What the marks are.
abbrev Marks : Progress → AppState → Type 0
Marks unmarked s = (s.ready ≡ true) × (s.shutting_down ≡ false)
Marks marked_not_ready s = (s.ready ≡ false) × (s.shutting_down ≡ false)
Marks marked_both s = (s.ready ≡ false) × (s.shutting_down ≡ true)

module _ {W File : Type 0} (fs : FileSystem W File) (kit : Toolkit File) (law : IsLawful kit)
    (page : Bytes) where
  Reach-Marks :
      {root : Option Bytes} {p : Progress} {s : AppState} {h : List Asked}
      → Reach root p s h
      → Marks p s
  unfolding new mark_not_ready mark_shutting_down
  Reach-Marks started = (refl, refl)
  Reach-Marks (first_store r) = (refl, (Reach-Marks r).1)
  Reach-Marks (second_store r) = ((Reach-Marks r).0, refl)
  Reach-Marks (loads method path r) = Reach-Marks r

  -- By the rules: content is turned away by the second mark alone, and the first fails the probe.
  Rule-IsKept :
      (s : AppState) (method : Method) (path : Bytes) (w : W) (reply : Reply File) (w' : W)
      → s.shutting_down ≡ false
      → Rule fs s method path w reply w'
      → IsContentPath path
      → (render kit page (is_head method) reply).response.status ≡ 503
      → ⊥
  unfolding render error_status
  Rule-IsKept s method path w unready w' up (not_marked e unset) content same = content.1 e
  Rule-IsKept s method path w unready w' up (unreadable e set no_dir) content same = content.1 e
  Rule-IsKept s method path w draining w' up (shutting_down c reads down) content same = cc
  Rule-IsKept s method path w (fails not_found) w' up rule content same = omega (arith, same)
  Rule-IsKept s method path w (fails (io e)) w' up rule content same = omega (arith, same)
  Rule-IsKept s method path w (fails e) w' up rule content same = omega (arith, same)
  Rule-IsKept s method path w _ w' up rule content same = omega (arith, same)

  Rule-unset :
      (s : AppState) (method : Method) (path : Bytes) (w : W) (reply : Reply File) (w' : W)
      → s.ready ≡ false
      → Rule fs s method path w reply w'
      → path ≡ readyz
      → (render kit page (is_head method) reply).response.status ≡ 200
      → ⊥
  unfolding render error_status bytes_eq
  Rule-unset s method path w alive w' unset (liveness e) at same = cc
  Rule-unset s method path w ready w' unset (readable e set dir) at same = cc
  Rule-unset s method path w welcome w' unset (no_root_index content reads up rooted e) at same =
      content.1 at
  Rule-unset s method path w welcome w' unset (no_index content reads up rooted h e) at same =
      content.1 at
  Rule-unset s method path w (serves r) w' unset (found content reads up rooted h) at same =
      content.1 at
  Rule-unset s method path w (fails not_found) w' unset rule at same = omega (arith, same)
  Rule-unset s method path w (fails (io e)) w' unset rule at same = omega (arith, same)
  Rule-unset s method path w (fails e) w' unset rule at same = omega (arith, same)
  Rule-unset s method path w _ w' unset rule at same = omega (arith, same)

  -- Whenever they are answered.
  load-IsKept : (a : Asked) → a.state.shutting_down ≡ false → IsKept fs kit page a
  load-IsKept a up (content, reads, w, turned) =
      let (reply, rule, same) = route-Answered fs kit law page a.state a.method a.path w in
      Rule-IsKept a.state a.method a.path w reply _ up rule content
        (sym (ap (λ o. o.response.status) same) ∙ turned)

  load-unset : (a : Asked) → a.state.ready ≡ false → ¬ IsPassed fs kit page a
  load-unset a unset (at, w, passed) =
      let (reply, rule, same) = route-Answered fs kit law page a.state a.method a.path w in
      Rule-unset a.state a.method a.path w reply _ unset rule at
        (sym (ap (λ o. o.response.status) same) ∙ passed)

  -- Until the second store nobody is turned away.
  Reach-IsKept :
      {root : Option Bytes} {p : Progress} {s : AppState} {h : List Asked}
      → Reach root p s h
      → s.shutting_down ≡ false
      → All (IsKept fs kit page) h
  unfolding mark_not_ready mark_shutting_down
  Reach-IsKept started up = tt
  Reach-IsKept (first_store r) up = Reach-IsKept r up
  Reach-IsKept (second_store r) up = cc
  Reach-IsKept (loads {s = s} method path r) up =
      (load-IsKept (record { state = s; method = method; path = path }) up, Reach-IsKept r up)

  -- While the first mark is not set, nor is the second.
  ready_up : (p : Progress) (s : AppState) → Marks p s → s.ready ≡ true → s.shutting_down ≡ false
  ready_up unmarked s marks set = marks.1
  ready_up marked_not_ready s marks set = marks.1
  ready_up marked_both s marks set = cc

  IsPassed-IsKept :
      {root : Option Bytes} (p : Progress) (a : Asked) (h : List Asked)
      → Reach root p a.state h
      → IsPassed fs kit page a
      → All (IsKept fs kit page) h
  IsPassed-IsKept p a h r passed = elim (Bool-cases a.state.ready) [
    | inl set ↦ Reach-IsKept r (ready_up p a.state (Reach-Marks r) set)
    | inr unset ↦ absurd (load-unset a unset passed)
  ]

  -- In every interleaving of the two stores with the loads of requests: if a readiness probe passes,
  -- no request for content that loaded its mark before the probe did is turned away because of the
  -- shutdown, whenever each is answered and whatever the file system is by then. So a probe that is
  -- sent behind such a refusal fails, though the marks are set one behind the other. The response
  -- builder and the table of media types keep their documented contract.
  pub readiness_first :
      {root : Option Bytes} {p : Progress} {s : AppState} {h : List Asked}
      → Reach root p s h
      → (later earlier : List Asked) (a : Asked) → h ≡ later ++ a ∷ earlier
      → IsPassed fs kit page a
      → All (IsKept fs kit page) earlier
  readiness_first started later earlier a e passed = absurd (middle-ne-nil later a earlier (sym e))
  readiness_first (first_store r) later earlier a e passed =
      readiness_first r later earlier a e passed
  readiness_first (second_store r) later earlier a e passed =
      readiness_first r later earlier a e passed
  readiness_first (loads {p = p} {s = s} {h = h} method path r) [] earlier a e passed =
      subst (All (IsKept fs kit page)) (tail_eq e) (
        IsPassed-IsKept p (record { state = s; method = method; path = path }) h r
          (subst (IsPassed fs kit page) (sym (head_eq e)) passed))
  readiness_first (loads method path r) (x ∷ later) earlier a e passed =
      readiness_first r later earlier a (tail_eq e) passed
