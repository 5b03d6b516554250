-- ===== src/Handler/Routing/Valid.antt =====
-- What `hyper` is asked to send for `route` of src/handler/routing.rs, and when the status is 500.
use tiny_httpd.Base.{
  ℕ, ◌≡◌, ◌↔◌, ◌⊎◌, refl, inl, inr, Bool, false, some, [], Bytes, codes, err, All, length, subst,
  sym, ap, ◌∙◌, arith,
}
use tiny_httpd.Fs.Error.{IoError, not_found, io}
use tiny_httpd.Fs.System.{FileSystem}
use tiny_httpd.Fs.Resolve.{resolve_file}
use tiny_httpd.Handler.Http.{Method, is_head, IsStatus, Body, Toolkit, IsLawful, IsHeader}
use tiny_httpd.Handler.State.{AppState}
use tiny_httpd.Handler.Response.{ResponseOutcome, plain_text}
use tiny_httpd.Handler.Response.Built.{built, allow_headers, built-IsHeader}
use tiny_httpd.Handler.Routing.{route, not_allowed_text}
use tiny_httpd.Handler.Routing.Shape.{error_status}
use tiny_httpd.Handler.Routing.Table.{
  Reply, alive, ready, unready, draining, no_method, welcome, missing, serves, fails, IsContentPath,
  Reads, Rule, failed, render,
}
use tiny_httpd.Handler.Routing.Table.Answered.{route-Answered}
use tiny_httpd.Handler.Routing.Table.Exact.{route-Rule}

-- The status codes that the server answers with.
abbrev pub IsListed : ℕ → Type 0
IsListed s = (s ≡ 200) ⊎ (s ≡ 400) ⊎ (s ≡ 404) ⊎ (s ≡ 405) ⊎ (s ≡ 500) ⊎ (s ≡ 503)

pub record IsValid {File : Type 0} (o : ResponseOutcome File) : Type 0 where
  pub status : IsStatus o.response.status
  pub listed : IsListed o.response.status
  pub headers : All IsHeader o.response.headers

module _ {File : Type 0} (kit : Toolkit File) (law : IsLawful kit) (page : Bytes) (h : Bool) where
  plain-IsValid :
      (status size : ℕ) (body : Body File)
      → IsStatus status
      → IsListed status
      → IsValid (built status plain_text size [] body)
  plain-IsValid status size body valid listed = record {
    status = valid;
    listed = listed;
    headers = built-IsHeader plain_text size [] (omega arith) tt;
  }

  render-IsValid : (reply : Reply File) → IsValid (render kit page h reply)
  unfolding render error_status
  render-IsValid alive = plain-IsValid 200 _ _ refl (inl refl)
  render-IsValid ready = plain-IsValid 200 _ _ refl (inl refl)
  render-IsValid unready = plain-IsValid 503 _ _ refl (inr (inr (inr (inr (inr refl)))))
  render-IsValid draining = plain-IsValid 503 _ _ refl (inr (inr (inr (inr (inr refl)))))
  render-IsValid no_method = record {
    status = refl;
    listed = inr (inr (inr (inl refl)));
    headers =
        built-IsHeader plain_text (length not_allowed_text) allow_headers (omega arith)
          (((λ e. cc), omega arith, omega arith), tt);
  }
  render-IsValid welcome = record {
    status = refl;
    listed = inl refl;
    headers = built-IsHeader (codes "text/html; charset=utf-8") (length page) [] (omega arith) tt;
  }
  render-IsValid missing = plain-IsValid 404 _ _ refl (inr (inr (inl refl)))
  render-IsValid (serves r) = record {
    status = refl;
    listed = inl refl;
    headers =
        built-IsHeader (kit.mime r.canonical_path) r.content_length []
          (law.mime_printable r.canonical_path) tt;
  }
  render-IsValid (fails not_found) = plain-IsValid 404 _ _ refl (inr (inr (inl refl)))
  render-IsValid (fails (io e)) = plain-IsValid 500 _ _ refl (inr (inr (inr (inr (inl refl)))))
  render-IsValid (fails e) = plain-IsValid 400 _ _ refl (inr (inl refl))

module _ {W File : Type 0} (fs : FileSystem W File) (state : AppState) (method : Method)
    (path : Bytes) (w : W) where
  -- What makes a request fail with 500.
  pub record Breaks : Type 0 where
    pub content : IsContentPath path
    pub reads : Reads method
    pub up : state.shutting_down ≡ false
    pub root : Bytes
    pub rooted : state.content_root ≡ some root
    pub error : IoError
    pub world : W
    pub lookup : resolve_file fs root path w ≡ (err (io error), world)

module _ {W File : Type 0} (fs : FileSystem W File) (kit : Toolkit File) (law : IsLawful kit)
    (page : Bytes) (state : AppState) (method : Method) (path : Bytes) (w : W) where
  -- Whatever is asked and whatever the file system answers, the response is one that HTTP can carry: a
  -- status code from 100 to 999, one of 200, 400, 404, 405, 500 and 503, and headers whose names are
  -- lower-case words and whose values are printable. The response builder and the table of media types
  -- keep their documented contract.
  pub route-IsValid : IsValid (route fs kit page state method path w).0
  route-IsValid =
      let (reply, rule, same) = route-Answered fs kit law page state method path w in
      subst IsValid (sym same) (render-IsValid kit law page (is_head method) reply)

  abbrev status : ResponseOutcome File × W → ℕ
  status o = o.0.response.status

  Rule-Breaks :
      (reply : Reply File) (w' : W)
      → Rule fs state method path w reply w'
      → (render kit page (is_head method) reply).response.status ≡ 500
      → Breaks fs state method path w
  unfolding render error_status
  Rule-Breaks (fails (io e)) w' (failed content reads up rooted h why) s = record {
    content = content;
    reads = reads;
    up = up;
    root = _;
    rooted = rooted;
    error = e;
    world = w';
    lookup = h;
  }
  Rule-Breaks (fails not_found) w' rule s = absurd (omega (arith, s))
  Rule-Breaks (fails e) w' rule s = absurd (omega (arith, s))
  Rule-Breaks _ w' rule s = absurd (omega (arith, s))

  -- The status is 500 exactly when a request for content, which the server is up to read from its
  -- content root, has a lookup that fails with `ResolveError::Io`: it never comes from building a
  -- response, from a probe, or from a path that is refused. The response builder and the table of
  -- media types keep their documented contract.
  pub route-500_iff :
      (status (route fs kit page state method path w) ≡ 500) ↔ Breaks fs state method path w
  unfolding render error_status
  route-500_iff = (
    (λ s.
        let (reply, rule, same) = route-Answered fs kit law page state method path w in
        Rule-Breaks reply _ rule
          (ap (λ (o : ResponseOutcome File). o.response.status) (sym same) ∙ s)),
    (λ b. ap status (
        route-Rule fs kit law page state method path w (fails (io b.error)) b.world
          (failed b.content b.reads b.up b.rooted b.lookup (inl (λ e. cc))))),
  )
