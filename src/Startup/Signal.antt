-- ===== src/Startup/Signal.antt =====
-- src/bin/tiny-httpd.rs, `shutdown_signal`: which signals of `tokio` ask for the shutdown.
use tiny_httpd.Base.{Bool, true, false, Option, none, some, Result, ok, err}
use tiny_httpd.Fs.Error.{IoError}

-- The signal that comes first; Ctrl-C has a result of its own.
pub data Signal : Type 0 where
  sigterm : Signal
  ctrl_c : Result IoError (Unit {0}) → Signal

-- What the `select!` gives; both of its branches wait for ever without a signal.
unfoldable pub first_signal : Signal → Result IoError (Unit {0})
first_signal sigterm = ok tt
first_signal (ctrl_c result) = result

-- On Unix, `registered` is the answer to the request for `SIGTERM`; elsewhere that signal does not
-- count. It is `none` where the future is not ready.
unfoldable pub shutdown_signal :
    Bool → Result IoError (Unit {0}) → Option Signal → Option (Result IoError (Unit {0}))
unfolding first_signal
shutdown_signal true (err e) first = some (err e)
shutdown_signal true (ok registered) none = none
shutdown_signal true (ok registered) (some first) = some (first_signal first)
shutdown_signal false registered none = none
shutdown_signal false registered (some sigterm) = none
shutdown_signal false registered (some (ctrl_c result)) = some result
