-- ===== src/Handler/Response/Frames.antt =====
-- What `hyper` gets from a body of src/handler/response.rs, frame by frame. The items of
-- `ReaderStream::new(file)` are a parameter; `Full` has one frame, or none if it has no bytes.
use tiny_httpd.Base.{
  ◌≡◌, refl, ap, Option, none, some, List, [], ◌∷◌, ◌++◌, Bytes, Result, ok, err, append-nil,
}
use tiny_httpd.Fs.Error.{IoError}
use tiny_httpd.Handler.Http.{Body, empty, full, stream}

-- `Frame::data`; the program makes no trailers.
pub data Frame : Type 0 where
  data_frame : Bytes → Frame

-- `Box<dyn Error>`, of a read that failed.
pub data BoxError : Type 0 where
  boxed : IoError → BoxError

abbrev pub Items : Type 0
Items = List (Result IoError Bytes)

abbrev pub Frames : Type 0
Frames = List (Result BoxError Frame)

-- `map_ok(Frame::data)`.
abbrev pub map_ok_frame : Items → List (Result IoError Frame)
map_ok_frame [] = []
map_ok_frame (ok chunk ∷ items) = ok (data_frame chunk) ∷ map_ok_frame items
map_ok_frame (err error ∷ items) = err error ∷ map_ok_frame items

-- `map` of `map_err` with the box.
abbrev pub box_errors : List (Result IoError Frame) → Frames
box_errors [] = []
box_errors (ok frame ∷ items) = ok frame ∷ box_errors items
box_errors (err error ∷ items) = err (boxed error) ∷ box_errors items

unfoldable pub stream_body : {File : Type 0} → (File → Items) → File → Frames
stream_body read_items file = box_errors (map_ok_frame (read_items file))

unfoldable pub full_body : Bytes → Frames
full_body [] = []
full_body (b ∷ bytes) = ok (data_frame (b ∷ bytes)) ∷ []

unfoldable pub frames : {File : Type 0} → (File → Items) → Body File → Frames
unfolding stream_body full_body
frames read_items empty = []
frames read_items (full bytes) = full_body bytes
frames read_items (stream file) = stream_body read_items file

-- What a client has got at the end, if nothing fails.
abbrev pub in_front : Bytes → Option Bytes → Option Bytes
in_front bytes none = none
in_front bytes (some rest) = some (bytes ++ rest)

unfoldable pub received : Frames → Option Bytes
received [] = some []
received (ok (data_frame bytes) ∷ more) = in_front bytes (received more)
received (err error ∷ more) = none

-- What reading a file to its end gives.
unfoldable pub all_read : Items → Option Bytes
all_read [] = some []
all_read (ok chunk ∷ items) = in_front chunk (all_read items)
all_read (err error ∷ items) = none

received-boxed : (items : Items) → received (box_errors (map_ok_frame items)) ≡ all_read items
unfolding received all_read
received-boxed [] = refl
received-boxed (ok chunk ∷ items) = ap (in_front chunk) (received-boxed items)
received-boxed (err error ∷ items) = refl

-- A streamed file arrives as it is read, with the chunks in order, or not at all if a read fails.
pub received-stream :
    {File : Type 0} (read_items : File → Items) (file : File)
    → received (frames read_items (stream file)) ≡ all_read (read_items file)
unfolding frames stream_body
received-stream read_items file = received-boxed (read_items file)

pub received-full :
    {File : Type 0} (read_items : File → Items) (bytes : Bytes)
    → received (frames read_items (full bytes)) ≡ some bytes
unfolding frames full_body received
received-full read_items [] = refl
received-full read_items (b ∷ bytes) = ap some (append-nil (b ∷ bytes))
