-- ===== src/Handler/Routing/CutOff.antt =====
-- A file of src/handler/response.rs that cannot be read to its end, while it is sent.
use tiny_httpd.Base.{◌≡◌, refl, ap, ◌∙◌, false, none, some, List, [], ◌∷◌, ◌++◌, Bytes, ok, err}
use tiny_httpd.Fs.Error.{IoError}
use tiny_httpd.Fs.System.{FileSystem}
use tiny_httpd.Fs.Resolve.{ResolvedFile, resolve_file}
use tiny_httpd.Handler.Http.{get, is_head, number, Toolkit, IsLawful}
use tiny_httpd.Handler.State.{AppState}
use tiny_httpd.Handler.Response.{content_length}
use tiny_httpd.Handler.Response.Frames.{
  data_frame, boxed, Items, Frames, map_ok_frame, box_errors, stream_body, frames, received,
  in_front,
}
use tiny_httpd.Handler.Routing.{route}
use tiny_httpd.Handler.Routing.Measured.{find_header}
use tiny_httpd.Handler.Routing.Table.{serves, IsContentPath, found, render}
use tiny_httpd.Handler.Routing.Table.Exact.{route-Rule}

-- What was read before the error.
abbrev pub chunk_items : List Bytes → Items
chunk_items [] = []
chunk_items (c ∷ chunks) = ok c ∷ chunk_items chunks

abbrev pub chunk_frames : List Bytes → Frames
chunk_frames [] = []
chunk_frames (c ∷ chunks) = ok (data_frame c) ∷ chunk_frames chunks

boxed-append :
    (chunks : List Bytes) (items : Items)
    → box_errors (map_ok_frame (chunk_items chunks ++ items))
      ≡ chunk_frames chunks ++ box_errors (map_ok_frame items)
boxed-append [] items = refl
boxed-append (c ∷ chunks) items =
    ap (λ (fs : Frames). ok (data_frame c) ∷ fs) (boxed-append chunks items)

received-failed :
    (chunks : List Bytes) (error : IoError) (more : Frames)
    → received (chunk_frames chunks ++ err (boxed error) ∷ more) ≡ none
unfolding received
received-failed [] error more = refl
received-failed (c ∷ chunks) error more = ap (in_front c) (received-failed chunks error more)

module _ {W File : Type 0} (fs : FileSystem W File) (read_items : File → Items) (kit : Toolkit File)
    (law : IsLawful kit) (page : Bytes) (state : AppState) where
  -- A GET that has found its file sends status 200 and the length that the metadata gave, whatever the
  -- reading gives: if it fails behind some chunks, these chunks go out as they are and in their order,
  -- then the error of the read goes to `hyper`, and the body is not received as a whole. The server
  -- serves and is not shutting down, the path is not that of a probe, and the response builder and the
  -- table of media types keep their documented contract.
  pub file_cut_off :
      {root path : Bytes} {r : ResolvedFile File} (w : W) {w' : W}
      → IsContentPath path
      → state.shutting_down ≡ false
      → state.content_root ≡ some root
      → resolve_file fs root path w ≡ (ok r, w')
      → (chunks : List Bytes) (error : IoError) (rest : Items)
      → read_items r.file ≡ chunk_items chunks ++ err error ∷ rest
      → let response = (route fs kit page state get path w).0.response in
        (response.status ≡ 200)
        × (find_header content_length response.headers ≡ some (number r.content_length))
        × ((more : Frames) × (frames read_items response.body
              ≡ chunk_frames chunks ++ err (boxed error) ∷ more))
        × (received (frames read_items response.body) ≡ none)
  unfolding render find_header frames stream_body is_head
  file_cut_off {path = path} {r = r} w {w' = w'} content up rooted lookup chunks error rest broken =
      let sent : box_errors (map_ok_frame (read_items r.file))
          ≡ chunk_frames chunks ++ err (boxed error) ∷ box_errors (map_ok_frame rest) =
        ap (λ items. box_errors (map_ok_frame items)) broken
        ∙ boxed-append chunks (err error ∷ rest) in
      rw
        (route-Rule fs kit law page state get path w (serves r) w'
          (found content tt up rooted lookup))
        (
          refl,
          refl,
          (box_errors (map_ok_frame rest), sent),
          ap received sent ∙ received-failed chunks error (box_errors (map_ok_frame rest)),
        )
