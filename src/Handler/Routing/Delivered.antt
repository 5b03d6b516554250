-- ===== src/Handler/Routing/Delivered.antt =====
-- The bytes that a client gets from `route` of src/handler/routing.rs over a content root that nobody
-- writes to: the whole way from src/fs.rs to the frames of src/handler/response.rs.
use tiny_httpd.Base.{
  ◌≡◌, refl, ap, sym, subst, ◌∙◌, true, false, some, List, [], ◌∷◌, Bytes, ok, length, inl, inr,
}
use tiny_httpd.Fs.Candidates.{candidate_paths}
use tiny_httpd.Fs.System.{Metadata, Snapshot, static}
use tiny_httpd.Fs.Resolve.{ResolvedFile, resolve_file}
use tiny_httpd.Fs.Resolve.Found.{Finds, Serves, resolve_file_iff}
use tiny_httpd.Handler.Http.{Method, get, is_head, number, text, Toolkit, IsLawful}
use tiny_httpd.Handler.State.{AppState}
use tiny_httpd.Handler.Response.{ResponseOutcome, content_length, content_type}
use tiny_httpd.Handler.Response.Frames.{
  Items, frames, received, all_read, received-stream, received-full,
}
use tiny_httpd.Handler.Routing.{route}
use tiny_httpd.Handler.Routing.Measured.{find_header}
use tiny_httpd.Handler.Routing.Table.{
  Reply, alive, ready, unready, draining, no_method, welcome, missing, serves, fails, IsContentPath,
  Rule, found, render,
}
use tiny_httpd.Handler.Routing.Table.Answered.{route-Answered}
use tiny_httpd.Handler.Routing.Table.Exact.{route-Rule}

-- An open file is read as its contents.
abbrev pub IsReadAs : {File : Type 0} → (File → Items) → (File → Bytes) → Type 0
IsReadAs {File} read_items contents =
    (file : File) → all_read (read_items file) ≡ some (contents file)

-- The metadata of a regular file has its size.
abbrev pub IsSized : {File : Type 0} → Snapshot File → (File → Bytes) → Type 0
IsSized {File} disk contents =
    (path : Bytes) (info : Metadata) (file : File)
    → disk.info path ≡ ok info
    → info.is_file ≡ true
    → disk.file path ≡ ok file
    → info.len ≡ length (contents file)

-- As many bytes arrive as the header says.
abbrev pub IsDelivered : {File : Type 0} → (File → Items) → ResponseOutcome File → Type 0
IsDelivered read_items o =
    (bytes : Bytes) × (received (frames read_items o.response.body) ≡ some bytes)
    × (find_header content_length o.response.headers ≡ some (number (length bytes)))

module _ {File : Type 0} (disk : Snapshot File) (read_items : File → Items)
    (contents : File → Bytes) (read : IsReadAs read_items contents)
    (sized : IsSized disk contents) where
  Serves-length :
      (root candidate : Bytes) (r : ResolvedFile File)
      → Serves disk root candidate r
      → r.content_length ≡ length (contents r.file)
  Serves-length root candidate r s =
      s.sized ∙ sized r.canonical_path s.info r.file s.known s.regular s.opens

  Finds-length :
      (root : Bytes) (candidates : List Bytes) (r : ResolvedFile File)
      → Finds disk root candidates r
      → r.content_length ≡ length (contents r.file)
  Finds-length root [] r h = elim h [ ]
  Finds-length root (a ∷ []) r h = Serves-length root a r h
  Finds-length root (a ∷ b ∷ []) r (inl s) = Serves-length root a r s
  Finds-length root (a ∷ b ∷ []) r (inr (d, s)) = Serves-length root b r s
  Finds-length root (a ∷ b ∷ c ∷ cs) r h = elim h [ ]

  resolved-length :
      (root path : Bytes) (r : ResolvedFile File)
      → resolve_file (static disk) root path tt ≡ (ok r, tt)
      → r.content_length ≡ length (contents r.file)
  resolved-length root path r e =
      let (candidates, accepted, finds) = (resolve_file_iff disk root path r).0 e in
      Finds-length root candidates r finds

  module _ (kit : Toolkit File) (law : IsLawful kit) (page : Bytes) (state : AppState)
      (method : Method) (path : Bytes) where
    render-IsDelivered :
        (reply : Reply File) (w : Unit {0})
        → Rule (static disk) state method path tt reply w
        → IsDelivered read_items (render kit page false reply)
    unfolding render find_header
    render-IsDelivered alive w rule = (_, received-full read_items _, refl)
    render-IsDelivered ready w rule = (_, received-full read_items _, refl)
    render-IsDelivered unready w rule = (_, received-full read_items _, refl)
    render-IsDelivered draining w rule = (_, received-full read_items _, refl)
    render-IsDelivered no_method w rule = (_, received-full read_items _, refl)
    render-IsDelivered welcome w rule = (_, received-full read_items _, refl)
    render-IsDelivered missing w rule = (_, received-full read_items _, refl)
    render-IsDelivered (serves r) w (found {root = root} content reads up rooted e) = (
      contents r.file,
      received-stream read_items r.file ∙ read r.file,
      ap (λ n. some (number n)) (resolved-length root path r e),
    )
    render-IsDelivered (fails e) w rule = (_, received-full read_items _, refl)

    -- Whatever is asked, and whatever the state, a client that does not ask with `HEAD` gets exactly
    -- as many bytes as the Content-Length says, and no read fails. Here nobody writes to the content
    -- root, an open file is read to its end without an error, its metadata has its size, and the
    -- response builder keeps its documented contract.
    pub route-IsDelivered :
        is_head method ≡ false
        → IsDelivered read_items (route (static disk) kit page state method path tt).0
    route-IsDelivered no_head =
        let (reply, rule, same) = route-Answered (static disk) kit law page state method path tt in
        subst (IsDelivered read_items) (sym (same ∙ ap (λ h. render kit page h reply) no_head))
          (render-IsDelivered reply _ rule)

  module _ (kit : Toolkit File) (law : IsLawful kit) (page : Bytes) (state : AppState) where
    found_rule :
        {root path : Bytes} {candidates : List Bytes} (r : ResolvedFile File)
        → IsContentPath path
        → state.shutting_down ≡ false
        → state.content_root ≡ some root
        → candidate_paths path ≡ ok candidates
        → Finds disk root candidates r
        → route (static disk) kit page state get path tt ≡ (render kit page false (serves r), tt)
    unfolding is_head
    found_rule {root} {path} {candidates} r content up rooted accepted finds =
        route-Rule (static disk) kit law page state get path tt (serves r) tt (
          found content tt up rooted
            ((resolve_file_iff disk root path r).1 (candidates, accepted, finds)))

    -- A GET of a path whose candidates lead to a file of the content root, in the documented order,
    -- gets the file: status 200, the media type of its name, its length, and its bytes, all of them
    -- in their order. The server serves and is not shutting down, the path is not that of a probe,
    -- nobody writes to the content root, an open file is read to its end without an error, its
    -- metadata has its size, and the response builder keeps its documented contract.
    pub file_delivered :
        {root path : Bytes} {candidates : List Bytes} (r : ResolvedFile File)
        → IsContentPath path
        → state.shutting_down ≡ false
        → state.content_root ≡ some root
        → candidate_paths path ≡ ok candidates
        → Finds disk root candidates r
        → let response = (route (static disk) kit page state get path tt).0.response in
          (response.status ≡ 200)
          × (find_header content_type response.headers ≡ some (text (kit.mime r.canonical_path)))
          × (find_header content_length response.headers ≡ some (number (length (contents r.file))))
          × (received (frames read_items response.body) ≡ some (contents r.file))
    unfolding render find_header
    file_delivered {root} {path} {candidates} r content up rooted accepted finds =
        rw (found_rule r content up rooted accepted finds) (
          refl,
          refl,
          ap (λ n. some (number n)) (Finds-length root candidates r finds),
          received-stream read_items r.file ∙ read r.file,
        )
