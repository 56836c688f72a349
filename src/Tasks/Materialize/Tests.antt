-- ===== src/Tasks/Materialize/Tests.antt =====
-- A part of an artifact whose file name is a path, saved in a directory.
use a2ad.Common.{
  ◌≡◌, refl, true, false, ◌==◌, text_eq, string_eq, none, some, [], ◌∷◌, if◌then◌else◌, bytes,
  lookup,
}
use a2ad.Json.{utf8, utf8_char}
use a2ad.Credentials.{AuthSpec, no_auth}
use a2ad.A2aClient.Parse.{no_task}
use a2ad.Tasks.{Part, Artifact, Manager, no_part}
use a2ad.Url.{path_at}
use a2ad.Tasks.Materialize.{
  Disk, Services, Saved, origin, origin_at, is_invalid_name, safe_filename, content_of,
  check_digest, expected_digest, selected, find_artifact, require, directory_of, made_directory,
  file_name, materialize, disk_after,
}
use a2ad.Tasks.Materialize.Contained.{
  IsContained, materialize-IsContained, materialize-keeps, content_of_foreign,
}

abbrev patch : Part
patch = record no_part { text = bytes "diff"; filename = bytes "../../etc/fix.patch" }

abbrev artifact : Artifact
artifact = record {
  artifact_id = "a1";
  name = "fix";
  description = "";
  parts = patch ∷ [];
  metadata = no_part.metadata;
  extensions = [];
}

abbrev desk : Manager
desk = record {
  tasks = ("l1", record no_task { id = "l1"; artifacts = artifact ∷ [] }) ∷ [];
  events = [];
}

abbrev disk : Disk
disk = record {
  file = λ d n. if n == bytes "old" then some (bytes "kept") else none;
  create_directories = λ d. none;
  canonical = λ d. some d;
  current_path = bytes "/";
  opens = λ d. true;
  creates = λ d n. true;
  writes = λ content. true;
}

abbrev services : Services
services = record {
  resolve_endpoint = λ agent. none;
  download = λ url auth. record {
    status = 200;
    body = auth.header_value;
    transport_error = false;
    transport_error_detail = [];
    etag = none;
    response_too_large = false;
  };
  digest = λ content. "d1";
  to_string = λ n. bytes "0";
}

abbrev saved : Saved
saved = record {
  directory = bytes "/out";
  name = bytes "fix.patch";
  content = bytes "diff";
  sha256 = "d1";
  verified = true;
}

materialize-IsContained_example : IsContained services disk saved
unfolding materialize selected content_of check_digest expected_digest directory_of file_name
    safe_filename find_artifact require made_directory is_invalid_name lookup utf8 utf8_char
materialize-IsContained_example =
    materialize-IsContained services disk desk "l1" "a1" 0 (bytes "/out") "d1" saved refl

materialize-keeps_example :
    (disk_after services disk (materialize services disk desk "l1" "a1" 0 (bytes "/out") "d1")).file
      (bytes "/out")
      (bytes "old")
    ≡ some (bytes "kept")
materialize-keeps_example =
    materialize-keeps services disk desk "l1" "a1" 0 (bytes "/out") "d1" (bytes "/out")
      (bytes "old") (bytes "kept") refl

abbrev secret : AuthSpec
secret = record no_auth { active = true; header_value = bytes "Bearer s" }

abbrev linked : Part
linked = record no_part { url = bytes "https://elsewhere/x" }

content_of_foreign_example :
    content_of
      (record services { resolve_endpoint = λ _. some (bytes "https://h/a2a", secret) })
      "bot"
      linked
    ≡ content_of
        (record services { resolve_endpoint = λ _. some (bytes "https://h/a2a", no_auth) })
        "bot"
        linked
unfolding origin origin_at path_at
content_of_foreign_example =
    content_of_foreign services (bytes "https://h/a2a") secret no_auth "bot" linked refl
