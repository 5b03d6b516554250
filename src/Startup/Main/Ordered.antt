-- ===== src/Startup/Main/Ordered.antt =====
-- The order of the startup and of the end in src/bin/tiny-httpd.rs.
use tiny_httpd.Base.{
  Bool-cases, inl, inr, ◌≡◌, refl, Option, none, some, List, [], ◌∷◌, Bytes, Result, ok, err,
}
use tiny_httpd.Fs.Error.{IoError}
use tiny_httpd.Fs.System.{FileSystem, Metadata}
use tiny_httpd.Server.Params.{ServerParams}
use tiny_httpd.Startup.ContentRoot.{
  bind_failed, content_root_not_directory, content_root_canonicalize, prepare_content_root,
  canonical_root, after_metadata,
}
use tiny_httpd.Startup.Main.{
  Config, MainError, telemetry, startup, server, Runtime, main_result, after_bind, after_root,
  after_telemetry, main,
}

-- What `main` asks of the parameters; a log has the last step first.
pub data Step : Type 0 where
  initialized : Bytes → Step
  inspected canonicalized : Bytes → Step
  bound : Bytes → Step
  served : ServerParams → Step
  flushed : Step

abbrev log_step : {W A : Type 0} → Step → List Step → A × W → A × (W × List Step)
log_step step log (a, w) = (a, (w, step ∷ log))

-- The content root was looked up behind the telemetry.
abbrev pub Looked : Config → Option Bytes → List Step → Type 0
Looked config none log = log ≡ inspected config.content_root ∷ initialized config.service_name ∷ []
Looked config (some canonical) log =
    log
    ≡ canonicalized config.content_root
      ∷ inspected config.content_root
      ∷ initialized config.service_name
      ∷ []

-- The server gets each timeout from its own option.
abbrev pub configured : Config → Option Bytes → ServerParams
configured config root = record {
  content_root = root;
  header_read_timeout = config.header_read_timeout;
  idle_connection_timeout = config.idle_connection_timeout;
  graceful_close_timeout = config.graceful_close_timeout;
  drain_timeout = config.drain_timeout;
}

-- The server has run, with the listener bound behind the lookup, and the telemetry was flushed.
abbrev pub Ran : Config → List Step → Type 0
Ran config log =
    (root : Option Bytes) × (before : List Step) × Looked config root before
    × (log ≡ flushed ∷ served (configured config root) ∷ bound config.listen_addr ∷ before)

-- What was done, by the result of `main`.
abbrev pub Outcome : {E : Type 0} → Config → Result (MainError E) (Unit {0}) → List Step → Type 0
Outcome config (ok done) log = Ran config log
Outcome config (err (server e)) log = Ran config log
Outcome config (err (telemetry e)) log = log ≡ initialized config.service_name ∷ []
Outcome config (err (startup (content_root_not_directory path))) log =
    (path ≡ config.content_root) × Looked config none log
Outcome config (err (startup (content_root_canonicalize path e))) log =
    (path ≡ config.content_root) × Looked config (some path) log
Outcome config (err (startup (bind_failed addr e))) log =
    (addr ≡ config.listen_addr)
    × ((root : Option Bytes) × (before : List Step) × Looked config root before
        × (log ≡ bound config.listen_addr ∷ before))

module _ {W File Guard Listener E : Type 0} (fs : FileSystem W File)
    (rt : Runtime W Guard Listener E) where
  abbrev pub traced_fs : FileSystem (W × List Step) File
  traced_fs = record {
    canonicalize = λ p (w, log). log_step (canonicalized p) log (fs.canonicalize p w);
    metadata = λ p (w, log). log_step (inspected p) log (fs.metadata p w);
    open_file = λ p (w, log). let (r, w') = fs.open_file p w in (r, (w', log));
  }

  abbrev pub traced : Runtime (W × List Step) Guard Listener E
  traced = record {
    init_telemetry = λ name (w, log). log_step (initialized name) log (rt.init_telemetry name w);
    bind = λ addr (w, log). log_step (bound addr) log (rt.bind addr w);
    run_with_shutdown =
        λ l params (w, log). log_step (served params) log (rt.run_with_shutdown l params w);
    shutdown_telemetry = λ g (w, log). log_step flushed log (rt.shutdown_telemetry g w);
  }

  ran :
      (config : Config) (root : Option Bytes) (before log : List Step)
      → Looked config root before
      → log ≡ flushed ∷ served (configured config root) ∷ bound config.listen_addr ∷ before
      → (r : Result IoError (Unit {0})) → Outcome {E = E} config (main_result r) log
  unfolding main_result
  ran config root before log looked h (ok done) = (root, before, looked, h)
  ran config root before log looked h (err e) = (root, before, looked, h)

  bind-Outcome :
      (config : Config) (root : Option Bytes) (guard : Guard) (before : List Step)
      → Looked config root before
      → (r : Result IoError Listener) (w : W)
      → let end =
          after_bind traced_fs traced config root guard r (w, bound config.listen_addr ∷ before) in
        Outcome config end.0 end.1.1
  unfolding after_bind
  bind-Outcome config root guard before looked (err e) w = (refl, (root, before, looked, refl))
  bind-Outcome config root guard before looked (ok listener) w =
      ran config root before _ looked refl _

  root-Outcome :
      (config : Config) (guard : Guard) (root : Option Bytes) (w : W) (log : List Step)
      → Looked config root log
      → let end = after_root traced_fs traced config guard (ok root) (w, log) in
        Outcome config end.0 end.1.1
  unfolding after_root
  root-Outcome config guard root w log looked = bind-Outcome config root guard log looked _ _

  canonical-Outcome :
      (config : Config) (guard : Guard) (r : Result IoError Bytes) (w : W)
      → let end = after_root traced_fs traced config guard (canonical_root config.content_root r) (
        w,
        canonicalized config.content_root
            ∷ inspected config.content_root
            ∷ initialized config.service_name
            ∷ [],
      ) in
        Outcome config end.0 end.1.1
  unfolding after_root canonical_root
  canonical-Outcome config guard (ok canonical) w =
      root-Outcome config guard (some canonical) w _ refl
  canonical-Outcome config guard (err e) w = (refl, refl)

  metadata-Outcome :
      (config : Config) (guard : Guard) (found : Result IoError Metadata) (w : W)
      → let (prepared, w') =
          after_metadata traced_fs config.content_root found
            (w, inspected config.content_root ∷ initialized config.service_name ∷ []) in
        let end = after_root traced_fs traced config guard prepared w' in
        Outcome config end.0 end.1.1
  unfolding after_metadata after_root
  metadata-Outcome config guard (err e) w = root-Outcome config guard none w _ refl
  metadata-Outcome config guard (ok m) w = elim (Bool-cases m.is_dir) [
    | inl dir ↦ rw dir (canonical-Outcome config guard _ _)
    | inr file ↦ rw file (refl, refl)
  ]

  telemetry-Outcome :
      (config : Config) (started : Result E Guard) (w : W)
      → let end =
          after_telemetry traced_fs traced config started
            (w, initialized config.service_name ∷ []) in
        Outcome config end.0 end.1.1
  unfolding after_telemetry prepare_content_root
  telemetry-Outcome config (err e) w = refl
  telemetry-Outcome config (ok guard) w = metadata-Outcome config guard _ _

  -- Whatever the telemetry, the network and the file system answer, the telemetry is set up first,
  -- then the content root is looked up, then the address bound, and only then the server runs, with
  -- the configured timeouts. Each startup error ends the program at its own step and names the
  -- configured path or address. Once the server has run, the telemetry is flushed before its result
  -- is returned, whether the server failed or not.
  pub main_ordered :
      (config : Config) (w : W)
      → let end = main traced_fs traced config (w, []) in Outcome config end.0 end.1.1
  unfolding main
  main_ordered config w = telemetry-Outcome config _ _
