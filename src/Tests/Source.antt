-- ===== src/Tests/Source.antt =====
-- The repository's own unit tests that the other files here do not have.
use tiny_httpd.Base.{
  ℕ, ◌≡◌, refl, [], ◌∷◌, ◌++◌, Bytes, codes, Result, ok, err, bytes_eq, if◌then◌else◌,
}
use tiny_httpd.Fs.Error.{encoded_slash, null_byte, traversal, not_found, io, other}
use tiny_httpd.Fs.Decode.{decode_percent_path}
use tiny_httpd.Fs.Candidates.{candidate_paths, validate_relative_path}
use tiny_httpd.Metrics.{status_class}
use tiny_httpd.Handler.Http.{text, number, full}
use tiny_httpd.Handler.Response.{
  content_type, content_length, plain_text, text_response_with_headers,
}
use tiny_httpd.Handler.Routing.{map_file_error}
use tiny_httpd.Startup.SocketAddr.{socket_port}
use tiny_httpd.Startup.Listen.{parse_listen_addr}
use tiny_httpd.Startup.CommandLine.{Values, default_values, parse_config}
use tiny_httpd.Tests.Site.{kit}
use tiny_httpd.Tests.Paths.{paths}

status_class_covers_all_ranges_and_other_values :
    (status_class 100 ≡ codes "1xx")
    × (status_class 204 ≡ codes "2xx")
    × (status_class 302 ≡ codes "3xx")
    × (status_class 404 ≡ codes "4xx")
    × (status_class 503 ≡ codes "5xx")
    × (status_class 99 ≡ codes "other")
    × (status_class 600 ≡ codes "other")
unfolding status_class
status_class_covers_all_ranges_and_other_values = (refl, refl, refl, refl, refl, refl, refl)

parse_listen_addr_accepts_and_rejects :
    (parse_listen_addr socket_port (codes "127.0.0.1:8080") ≡ ok (codes "127.0.0.1:8080"))
    × (parse_listen_addr socket_port (codes "[::1]:8080") ≡ ok (codes "[::1]:8080"))
    × (parse_listen_addr socket_port (codes "localhost:443") ≡ ok (codes "localhost:443"))
    × (parse_listen_addr socket_port (codes "127.0.0.1:0")
        ≡ err (codes "port must be greater than 0"))
    × (parse_listen_addr socket_port (codes "localhost:0")
        ≡ err (codes "port must be greater than 0"))
    × (parse_listen_addr socket_port (codes "[::1]:0") ≡ err (codes "port must be greater than 0"))
    × (parse_listen_addr socket_port (codes "nocolon")
        ≡ err (codes "must be a SocketAddr or host:port"))
    × (parse_listen_addr socket_port (codes ":8080") ≡ err (codes "host must not be empty"))
    × (parse_listen_addr socket_port (codes "host:99999")
        ≡ err (codes "port must be a valid 16-bit unsigned integer"))
unfolding parse_listen_addr socket_port
parse_listen_addr_accepts_and_rejects = (refl, refl, refl, refl, refl, refl, refl, refl, refl)

decode_percent_path_handles_valid_and_invalid_sequences :
    (decode_percent_path (codes "/hello%20world") ≡ ok (codes "/hello world"))
    × (decode_percent_path (codes "/%2F") ≡ err encoded_slash)
    × (decode_percent_path (codes "/foo" ++ 0 ∷ codes "bar") ≡ err null_byte)
    × (candidate_paths (codes "/caf%C3%A9")
        ≡ ok (
            (codes "caf" ++ 0xc3 ∷ 0xa9 ∷ [])
            ∷ (codes "caf" ++ 0xc3 ∷ 0xa9 ∷ codes "/index.html")
            ∷ []))
unfolding paths
decode_percent_path_handles_valid_and_invalid_sequences = (refl, refl, refl, refl)

validate_relative_path_handles_inputs :
    (validate_relative_path (codes "index.html") ≡ ok tt)
    × (validate_relative_path (codes "...") ≡ ok tt)
    × (validate_relative_path (codes "..") ≡ err traversal)
unfolding validate_relative_path
validate_relative_path_handles_inputs = (refl, refl, refl)

-- Size, status and body.
file_errors :
    let internal = map_file_error kit (io (record { kind = other })) in
    let missing = map_file_error kit not_found in
    let malformed = map_file_error kit traversal in
    (internal.body_size ≡ 22)
    × (internal.response.status ≡ 500)
    × (internal.response.headers
        ≡ (content_type, text (codes "text/plain; charset=utf-8"))
          ∷ (content_length, number 22)
          ∷ [])
    × (internal.response.body ≡ full (codes "internal server error\n"))
    × (missing.body_size ≡ 10)
    × (missing.response.status ≡ 404)
    × (missing.response.body ≡ full (codes "not found\n"))
    × (malformed.body_size ≡ 12)
    × (malformed.response.status ≡ 400)
    × (malformed.response.body ≡ full (codes "bad request\n"))
unfolding map_file_error
file_errors = (refl, refl, refl, refl, refl, refl, refl, refl, refl, refl)

text_response_with_headers_appends_extra_headers :
    (text_response_with_headers kit 405
      (codes "method not allowed\n")
      ((codes "allow", codes "GET, HEAD") ∷ (codes "x-test", codes "value") ∷ [])).response.headers
    ≡ (content_type, text plain_text)
      ∷ (content_length, number 19)
      ∷ (codes "allow", text (codes "GET, HEAD"))
      ∷ (codes "x-test", text (codes "value"))
      ∷ []
unfolding text_response_with_headers
text_response_with_headers_appends_extra_headers = refl

-- The durations of the test, by their texts.
unfoldable flag_durations : Bytes → Result Bytes ℕ
unfolding bytes_eq
flag_durations value =
    if bytes_eq value (codes "45s")
    then ok 45000
    else if bytes_eq value (codes "2m")
    then ok 120000
    else if bytes_eq value (codes "6s")
    then ok 6000
    else if bytes_eq value (codes "12s")
    then ok 12000
    else err (codes "no number found")

abbrev flags : Values
flags = record default_values {
  listen_addr = codes "127.0.0.1:3000";
  content_root = codes "./public";
  header_read_timeout = codes "45s";
  idle_connection_timeout = codes "2m";
  graceful_close_timeout = codes "6s";
  drain_timeout = codes "12s";
}

config_parses_short_flags_and_human_readable_durations :
    parse_config ok flag_durations flags
    ≡ ok (record {
      listen_addr = codes "127.0.0.1:3000";
      content_root = codes "./public";
      service_name = codes "tiny-httpd";
      header_read_timeout = 45000;
      idle_connection_timeout = 120000;
      graceful_close_timeout = 6000;
      drain_timeout = 12000;
    })
unfolding parse_config flag_durations socket_port
config_parses_short_flags_and_human_readable_durations = refl
