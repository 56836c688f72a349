-- ===== src/Credentials.antt =====
-- daemon/src/Credentials.cpp, daemon/include/kitty_a2a/Credentials.hpp: the credentials of a request.
use a2ad.Common.{
  Bool, true, false, ◌||◌, Option, none, some, List, [], ◌∷◌, ◌++◌, ◌==◌, nat_eq, text_eq,
  if◌then◌else◌, Text, bytes, is_empty, String,
}
use a2ad.A2aClient.Stream.{lines_from}

pub record AuthSpec : Type 0 where
  pub active : Bool
  pub header_name : Text
  pub header_value : Text
  pub extra_headers : List (Text × Text)
  pub query_name : Text
  pub query_value : Text
  pub extra_query : List (Text × Text)
  pub cookie_value : Text
  pub client_cert_file : Text
  pub client_key_file : Text
  pub scheme : String

abbrev pub no_auth : AuthSpec
no_auth = record {
  active = false;
  header_name = [];
  header_value = [];
  extra_headers = [];
  query_name = [];
  query_value = [];
  extra_query = [];
  cookie_value = [];
  client_cert_file = [];
  client_key_file = [];
  scheme = "";
}

-- The environment of the process, and the content of the files that it may read.
pub record System : Type 0 where
  pub getenv : Text → Option Text
  pub read_file : Text → Option Text

abbrev pub bearer : String → Text → AuthSpec
bearer scheme secret = record no_auth {
  active = true;
  scheme = scheme;
  header_name = bytes "Authorization";
  header_value = bytes "Bearer " ++ secret;
}

abbrev pub auth_error : AuthSpec
auth_error = record no_auth { scheme = "error" }

-- `if (!line.empty() && line.back() == '\r') line.pop_back();`
unfoldable pub without_cr : Text → Text
without_cr [] = []
without_cr (c ∷ []) = if c == b'\r' then [] else c ∷ []
without_cr (c ∷ d ∷ s) = c ∷ without_cr (d ∷ s)

-- The first line that is not empty.
unfoldable pub first_line : List Text → Text
unfolding without_cr
first_line [] = []
first_line (line ∷ lines) =
    let rest = first_line lines in if is_empty (without_cr line) then rest else without_cr line

unfoldable pub bearer_or_error : String → Text → AuthSpec
bearer_or_error scheme secret = if is_empty secret then auth_error else bearer scheme secret

abbrev pub text_or_empty : Option Text → Text
text_or_empty none = []
text_or_empty (some v) = v

-- `FilesystemCredentialProvider::resolve`. A file that cannot be read has no line.
unfoldable pub resolve : System → Text → Text → AuthSpec
unfolding first_line lines_from
resolve system auth_type name =
    if is_empty auth_type || auth_type == bytes "none" || is_empty name
    then record no_auth { scheme = "none" }
    else if auth_type == bytes "env"
    then bearer_or_error "env" (text_or_empty (system.getenv name))
    else if auth_type == bytes "credential-file"
    then bearer_or_error "credential-file"
        (first_line (lines_from [] (text_or_empty (system.read_file name))))
    else auth_error
