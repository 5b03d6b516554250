-- ===== src/Fs/Error.antt =====
-- src/fs.rs, `ResolveError`, with the part of `std::io::Error` that the program reads.
use mathlib.Core.Bool.{Bool, true, false}

-- `std::io::ErrorKind`: the kinds that a path lookup reports on Linux, and the rest.
pub data ErrorKind : Type 0 where
  not_found permission_denied not_a_directory filesystem_loop invalid_filename other : ErrorKind

pub record IoError : Type 0 where
  pub kind : ErrorKind

-- `error.kind() == ErrorKind::NotFound`
abbrev pub is_not_found : IoError → Bool
is_not_found e = elim e.kind [ not_found ↦ true | _ ↦ false ]

pub data ResolveError : Type 0 where
  bad_target invalid_percent_encoding invalid_utf8 encoded_slash null_byte traversal escape
        not_found :
      ResolveError
  io : IoError → ResolveError
