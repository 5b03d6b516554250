-- ===== src/Tests/Site.antt =====
-- A small content root, and a response builder that accepts everything.
use tiny_httpd.Base.{
  refl, true, false, some, [], if◌then◌else◌, Bytes, bytes_eq, codes, Result, ok, err, arith,
}
use tiny_httpd.Fs.Error.{IoError, ErrorKind, not_a_directory}
use tiny_httpd.Fs.System.{Snapshot, FileSystem, static}
use tiny_httpd.Handler.Http.{Toolkit, IsLawful}
use tiny_httpd.Handler.State.{AppState}

abbrev pub site_root : Bytes
site_root = codes "/app"

abbrev missing {ℓ} : {A : Type ℓ} → Result IoError A
missing = err (record { kind = ErrorKind.not_found })

-- `/app` holds `index.html` and the directory `docs` with an index; a file is its bytes.
unfoldable pub site : Snapshot Bytes
unfolding bytes_eq
site = record {
  canonical = λ p.
      if bytes_eq p (codes "/app/index.html")
      then ok (codes "/app/index.html")
      else if bytes_eq p (codes "/app/docs")
      then ok (codes "/app/docs")
      else if bytes_eq p (codes "/app/docs/index.html")
      then ok (codes "/app/docs/index.html")
      else if bytes_eq p (codes "/app/index.html/index.html")
      then err (record { kind = not_a_directory })
      else missing;
  info = λ p.
      if bytes_eq p (codes "/app/docs")
      then ok (record { is_dir = true; is_file = false; len = 0 })
      else if bytes_eq p (codes "/app")
      then ok (record { is_dir = true; is_file = false; len = 0 })
      else ok (record { is_dir = false; is_file = true; len = 3 });
  file = λ p. ok (codes "<p>");
}

unfoldable pub disk : FileSystem (Unit {0}) Bytes
unfolding static site
disk = static site

abbrev pub kit : Toolkit Bytes
kit = record {
  build = λ status headers body. some (record { status = status; headers = headers; body = body });
  plain = λ body. record { status = 200; headers = []; body = body };
  mime = λ path. codes "text/html";
}

pub kit-IsLawful : IsLawful kit
kit-IsLawful = record {
  builds = λ status headers body valid h. refl;
  mime_printable = λ path. omega arith;
}

abbrev pub serving : AppState
serving = record { content_root = some site_root; ready = true; shutting_down = false }
